-- ===== src/Cpu/Iss/Direct.antt =====
-- Direct access to memory against transactions: `bus_read` and `bus_write` of src/cpu/iss.cpp.
use virtual_so_c.Prelude.{
  ℕ, ◌+◌, ◌-◌, ◌^◌, ◌≤◌, ◌++◌, true, false, not, some, ltb, ◌&&◌, ◌||◌, replicate, drop, ◌≡◌, refl,
  arith, ◌∙◌, sym, inl, inr, Bool-cases, Option-cases, if-ind,
}
use mathlib.Core.Bool.{true≢false}
use virtual_so_c.Tlm.{Command, Payload, load_le, store_le}
use virtual_so_c.Bus.Router.{Dmi}
use virtual_so_c.Cpu.Iss.Port.{
  Socket, Port, within, in_dmi, transaction, host_bytes, host_copy, try_dmi, bus_read, bus_write,
  invalidate_dmi,
}

-- An access of 1 to 4 bytes that does not run past the last address.
pub record IsAccess (a n : ℕ) : Type 0 where
  pub some_byte : 1 ≤ n
  pub word : n ≤ 4
  pub no_wrap : a + n ≤ 2 ^ 32

module _ {B : Type 0} (socket : Socket B) where
  abbrev pub read_of : ℕ → ℕ → B → B × Payload
  read_of a n b = socket.b_transport b (transaction Command.read_command a n (replicate 4 0))

  abbrev pub write_of : ℕ → ℕ → ℕ → B → B × Payload
  write_of a v n b =
      socket.b_transport b
        (transaction Command.write_command a n (store_le n v ++ drop n (replicate 4 0)))

  -- The host's bytes from `ptr` on are what transactions see from `first` to `last`.
  pub record IsHonest (b : B) (ptr first last : ℕ) : Type 0 where
    pub read_keeps : (a n : ℕ) → IsAccess a n → within first last a n ≡ true → (read_of a n b).0 ≡ b
    pub read-bytes :
        (a n : ℕ)
        → IsAccess a n
        → within first last a n ≡ true
        → load_le n (host_bytes socket b (ptr + (a - first)) n) ≡ load_le n (read_of a n b).1.bytes
    pub write-bytes :
        (a v n : ℕ)
        → IsAccess a n
        → within first last a n ≡ true
        → host_copy socket b (ptr + (a - first)) (store_le n v) ≡ (write_of a v n b).0

  -- What is granted is honest, and stays granted. `Valid` is of the states that are reached.
  pub record IsDirect (Valid : B → Type 0) : Type 0 where
    pub grants :
        (a : ℕ) (b : B) (d : Dmi)
        → Valid b
        → socket.get_direct_mem_ptr b a ≡ some d
        → IsHonest b d.dmi_ptr d.start_address d.end_address
    pub read-Valid : (a n : ℕ) (b : B) → Valid b → Valid (read_of a n b).0
    pub write-Valid : (a v n : ℕ) (b : B) → Valid b → Valid (write_of a v n b).0
    pub read_granted :
        (a n x : ℕ) (b : B)
        → Valid b
        → socket.get_direct_mem_ptr (read_of a n b).0 x ≡ socket.get_direct_mem_ptr b x
    pub write_granted :
        (a v n x : ℕ) (b : B)
        → Valid b
        → socket.get_direct_mem_ptr (write_of a v n b).0 x ≡ socket.get_direct_mem_ptr b x

  -- The pointer that the port holds is one that has been granted, and still is.
  abbrev pub Granted : B → ℕ → ℕ → ℕ → Type 0
  Granted b ptr first last =
      (x : ℕ) × (socket.get_direct_mem_ptr b x
        ≡ some (record { dmi_ptr = ptr; start_address = first; end_address = last }))

  pub record IsPort (Valid : B → Type 0) (p : Port B) : Type 0 where
    pub valid : Valid p.bus
    pub granted : p.dmi_valid ≡ true → Granted p.bus p.dmi_ptr p.dmi_start p.dmi_end

  module _ (Valid : B → Type 0) (direct : IsDirect Valid) where
    in_dmi-cases :
        (p : Port B) (a n : ℕ)
        → in_dmi p a n ≡ true
        → (p.dmi_valid ≡ true) × (within p.dmi_start p.dmi_end a n ≡ true)
    in_dmi-cases p a n h = (ground (arith, h), ground (arith, h))

    try_dmi-IsPort : (a : ℕ) (p : Port B) → IsPort Valid p → IsPort Valid (try_dmi socket a p)
    unfolding try_dmi
    try_dmi-IsPort a p k = elim (Option-cases (socket.get_direct_mem_ptr p.bus a)) [
      | inl e ↦ rw (try_dmi, e) k
      | inr (d, e) ↦ rw (try_dmi, e) (record { valid = k.valid; granted = λ _. (a, e) })
    ]

    try_dmi-bus : (a : ℕ) (p : Port B) → (try_dmi socket a p).bus ≡ p.bus
    unfolding try_dmi
    try_dmi-bus a p = elim (Option-cases (socket.get_direct_mem_ptr p.bus a)) [
      | inl e ↦ rw (try_dmi, e) refl
      | inr (d, e) ↦ rw (try_dmi, e) refl
    ]

    port-IsHonest :
        (p : Port B)
        → IsPort Valid p
        → p.dmi_valid ≡ true
        → IsHonest p.bus p.dmi_ptr p.dmi_start p.dmi_end
    port-IsHonest p k e =
        let (x, g) = k.granted e in
        direct.grants x p.bus
          (record { dmi_ptr = p.dmi_ptr; start_address = p.dmi_start; end_address = p.dmi_end })
          k.valid g

    -- A read.
    pub bus_read-plain :
        (a n : ℕ) (p : Port B)
        → IsAccess a n
        → IsPort Valid p
        → ((bus_read socket a n p).0 ≡ load_le n (read_of a n p.bus).1.bytes)
          × (((bus_read socket a n p).1.bus ≡ (read_of a n p.bus).0)
              × IsPort Valid (bus_read socket a n p).1)
    unfolding bus_read
    bus_read-plain a n p i k =
        let q : Port B = record p { bus = (read_of a n p.bus).0 } in
        let read : IsPort Valid q = record {
          valid = direct.read-Valid a n p.bus k.valid;
          granted =
              λ e. let (x, g) = k.granted e in (x, direct.read_granted a n x p.bus k.valid ∙ g);
        } in
        elim (Bool-cases (in_dmi p a n)) [
          | inl y ↦
              (let (e, w) = in_dmi-cases p a n y in
                let h : IsHonest p.bus p.dmi_ptr p.dmi_start p.dmi_end = port-IsHonest p k e in
                rw y (h.read-bytes a n i w, (sym (h.read_keeps a n i w), k)))
          | inr m ↦ rw m (
            refl,
            if-ind (λ r. (r.bus ≡ (read_of a n p.bus).0) × IsPort Valid r) (not (p.dmi_valid))
                (try_dmi socket a q) q (try_dmi-bus a q, try_dmi-IsPort a q read) (refl, read),
          )
        ]

    -- A write.
    pub bus_write-plain :
        (a v n : ℕ) (p : Port B)
        → IsAccess a n
        → IsPort Valid p
        → ((bus_write socket a v n p).bus ≡ (write_of a v n p.bus).0)
          × IsPort Valid (bus_write socket a v n p)
    unfolding bus_write
    bus_write-plain a v n p i k =
        let written : IsPort Valid (record p { bus = (write_of a v n p.bus).0 }) = record {
          valid = direct.write-Valid a v n p.bus k.valid;
          granted =
              λ e. let (x, g) = k.granted e in (x, direct.write_granted a v n x p.bus k.valid ∙ g);
        } in
        elim (Bool-cases (in_dmi p a n)) [
          | inl y ↦
              (let (e, w) = in_dmi-cases p a n y in
                let h : IsHonest p.bus p.dmi_ptr p.dmi_start p.dmi_end = port-IsHonest p k e in
                rw (y, h.write-bytes a v n i w) (refl, written))
          | inr m ↦ rw m (refl, written)
        ]

    pub invalidate_dmi-IsPort :
        (start end : ℕ) (p : Port B) → IsPort Valid p → IsPort Valid (invalidate_dmi start end p)
    unfolding invalidate_dmi
    invalidate_dmi-IsPort start end p k =
        if-ind (IsPort Valid) (p.dmi_valid && not (ltb end p.dmi_start || ltb p.dmi_end start))
          (record p { dmi_valid = false; dmi_ptr = 0 }) p
          (record { valid = k.valid; granted = λ e. absurd (true≢false (sym e)) }) k
