-- ===== src/Bus/Delivery.antt =====
-- Transactions through a bus that a sequence of calls of `map` set up.
use virtual_so_c.Prelude.{
  ℕ, ◌+◌, ◌-◌, ◌%◌, ◌^◌, ◌≤◌, List, [], ◌∷◌, true, Option, none, some, u32, ◌≡◌, refl, arith, ◌∙◌,
  sym, inl, inr, Bool-cases, Option-cases, ◌<◌, leb, ltb, ◌&&◌, if◌then◌else◌, length,
}
use mathlib.Core.Option.{some-injective, some-ne-none}
use virtual_so_c.Tlm.{Payload, Response}
use virtual_so_c.Bus.Map.{MappedRange, TlmBus, unmapped, map_all, covers, decode}
use virtual_so_c.Bus.Router.{Targets, Dmi, b_transport, get_direct_mem_ptr}
use virtual_so_c.Bus.Routes.{assigned, decode-map_all}

decode-unmapped :
    (es : List (ℕ × ℕ)) (c : TlmBus)
    → map_all es unmapped ≡ some c
    → (addr : ℕ) → decode c.ranges addr ≡ assigned es 0 addr
unfolding decode
decode-unmapped es c h addr = (decode-map_all es unmapped c tt h).1 addr

assigned-covers :
    (es : List (ℕ × ℕ)) (i addr : ℕ) (r : MappedRange)
    → assigned es i addr ≡ some r
    → covers r addr ≡ true
unfolding assigned
assigned-covers [] i addr r h = absurd (some-ne-none r (sym h))
assigned-covers ((base, size) ∷ es) i addr r h =
    let q : MappedRange = record { base = base; size = size; target_idx = i } in
    elim (Bool-cases (covers q addr)) [
      | inl y ↦ rw (← some-injective q r (sym (rw (assigned, y) refl) ∙ h)) y
      | inr n ↦ assigned-covers es (u32 (i + 1)) addr r (sym (rw (assigned, n) refl) ∙ h)
    ]

offset :
    (r : MappedRange) (a : ℕ)
    → covers r (u32 a) ≡ true
    → u32 (u32 a + (2 ^ 32 - r.base)) ≡ u32 a - r.base
offset r a h = let below : r.base ≤ u32 a = ground (arith, h) in omega arith

-- The number of the first call whose `size` addresses from `base` on include the address, counted
-- from `i`, and the distance of the address from that `base`.
unfoldable pub owner : List (ℕ × ℕ) → ℕ → ℕ → Option (ℕ × ℕ)
owner [] i addr = none
owner ((base, size) ∷ es) i addr =
    let rest = owner es (i + 1) addr in
    if leb base addr && ltb addr (base + size) then some (i, addr - base) else rest

-- No range reaches the end of the 32-bit addresses.
abbrev pub NoWrap : List (ℕ × ℕ) → Type 0
NoWrap [] = Unit {0}
NoWrap ((base, size) ∷ es) = (base + size < 2 ^ 32) × NoWrap es

module _ {T : Type 0} (targets : Targets T) where
  -- What the transaction does with the range that the sequence of calls gives its address.
  unfoldable pub deliver : Option MappedRange → T → Payload → T × Payload
  deliver none t p = (t, record p { status = Response.address_error })
  deliver (some r) t p =
      let q = targets.b_transport r.target_idx t (record p { address = u32 p.address - r.base }) in
      (q.0, record (q.1) { address = u32 p.address })

  pub b_transport-assigned :
      (es : List (ℕ × ℕ)) (c : TlmBus) (t : T) (p : Payload)
      → map_all es unmapped ≡ some c
      → b_transport targets c t p ≡ deliver (assigned es 0 (u32 p.address)) t p
  unfolding b_transport deliver
  b_transport-assigned es c t p h =
      rw (b_transport, decode-unmapped es c h (u32 p.address))
        (elim (Option-cases (assigned es 0 (u32 p.address))) [
          | inl e ↦ rw e refl
          | inr (r, e) ↦ rw (e, offset r p.address (assigned-covers es 0 (u32 p.address) r e)) refl
        ])

  -- What the transaction does at a target and an offset, none where no call has the address.
  unfoldable pub deliver_at : Option (ℕ × ℕ) → T → Payload → T × Payload
  deliver_at none t p = (t, record p { status = Response.address_error })
  deliver_at (some (i, offset)) t p =
      let q = targets.b_transport i t (record p { address = offset }) in
      (q.0, record (q.1) { address = u32 p.address })

  deliver-owner :
      (es : List (ℕ × ℕ)) (i : ℕ) (t : T) (p : Payload)
      → i + length es < 2 ^ 32
      → NoWrap es
      → deliver (assigned es i (u32 p.address)) t p ≡ deliver_at (owner es i (u32 p.address)) t p
  unfolding assigned owner deliver deliver_at
  deliver-owner [] i t p l w = refl
  deliver-owner ((base, size) ∷ es) i t p l w =
      let a : ℕ = u32 p.address in
      let end : u32 (base + size) ≡ base + size = omega (arith, w.0) in
      let next : u32 (i + 1) ≡ i + 1 = omega (arith, l) in
      elim (Bool-cases (leb base a && ltb a (base + size))) [
        | inl y ↦ rw (end, y) refl
        | inr n ↦ rw (end, n, next) (deliver-owner es (i + 1) t p (omega (arith, l)) w.1)
      ]

  -- On a bus that a sequence of fewer than 2 ^ 32 calls of `map` set up without an overlap, none
  -- of whose ranges reaches the end of the 32-bit addresses, a transaction goes to the target of
  -- the first call whose range, from its base and as long as its size, holds the 32-bit address,
  -- at the distance from that base, and comes back with that address; with no such call it ends
  -- in an address error and no target sees it.
  pub b_transport-deliver_at :
      (es : List (ℕ × ℕ)) (c : TlmBus) (t : T) (p : Payload)
      → length es < 2 ^ 32
      → NoWrap es
      → map_all es unmapped ≡ some c
      → b_transport targets c t p ≡ deliver_at (owner es 0 (u32 p.address)) t p
  b_transport-deliver_at es c t p l w h =
      b_transport-assigned es c t p h ∙ deliver-owner es 0 t p (omega (arith, l)) w

  -- Direct access: the addresses of the target's bytes, moved to the range.
  unfoldable pub expose : Option MappedRange → T → ℕ → Option Dmi
  expose none t a = none
  expose (some r) t a = elim (targets.get_direct_mem_ptr r.target_idx t (u32 a - r.base)) [
    | none ↦ none
    | some d ↦ some (record d {
      start_address = (d.start_address + r.base) % 2 ^ 64;
      end_address = (d.end_address + r.base) % 2 ^ 64;
    })
  ]

  -- On such a bus, a request for direct access is answered by the target of the call whose range
  -- holds the address, with the addresses of the answer moved up by the base of that range.
  pub get_direct_mem_ptr-expose :
      (es : List (ℕ × ℕ)) (c : TlmBus) (t : T) (a : ℕ)
      → map_all es unmapped ≡ some c
      → get_direct_mem_ptr targets c t a ≡ expose (assigned es 0 (u32 a)) t a
  unfolding get_direct_mem_ptr expose
  get_direct_mem_ptr-expose es c t a h =
      rw (get_direct_mem_ptr, decode-unmapped es c h (u32 a))
        (elim (Option-cases (assigned es 0 (u32 a))) [
          | inl e ↦ rw e refl
          | inr (r, e) ↦ rw (e, offset r a (assigned-covers es 0 (u32 a) r e)) refl
        ])

  -- What nothing and every transaction of a target keep, the bus keeps.
  pub b_transport-rel :
      (R : T → T → Type 0) (b : TlmBus) (t : T) (p : Payload)
      → R t t
      → ((i : ℕ) (q : Payload) → R t (targets.b_transport i t q).0)
      → R t (b_transport targets b t p).0
  unfolding b_transport
  b_transport-rel R b t p same each = elim (Option-cases (decode b.ranges (u32 p.address))) [
    | inl e ↦ rw (b_transport, e) same
    | inr (r, e) ↦ rw (b_transport, e) (each r.target_idx _)
  ]
