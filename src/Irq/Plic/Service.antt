-- ===== src/Irq/Plic/Service.antt =====
-- A claimed source is not delivered again before it is completed.
use virtual_so_c.Prelude.{
  ℕ, ◌^◌, ◌<◌, List, [], ◌∷◌, Bool, true, false, ltb, ◌==◌, not32, ◌<<<◌, ◌≡◌, refl, arith, inl,
  inr, Bool-cases, ◌≢◌,
}
use virtual_so_c.Prelude.Bits.{
  bit, bit-bit_and, bit-bit_or, bit-complement, bit-le-one, bit_or-lt, bit_and-le,
}
use virtual_so_c.Prelude.Masks.{shift-lt, bit-shift_self, bit-shift_ne}
use virtual_so_c.Irq.Plic.Device.{
  Plic, best_source, claim_best, take_claim, set_pending, complete, access,
}
use virtual_so_c.Irq.Plic.Arbitration.{IsEligible, best_source-IsBest, best_source-lt}

-- Source `i` is in service.
pub record InService (i : ℕ) (s : Plic) : Type 0 where
  pub claimed_bit : bit i s.claimed ≡ 1
  pub claimed_lt : s.claimed < 2 ^ 32

-- Such a source is not eligible.
InService-not-IsEligible : (i : ℕ) (s : Plic) → InService i s → ¬ IsEligible s i
InService-not-IsEligible i s h e = omega (arith, h.claimed_bit, e.ready.2)

InService-not-best_source : (i : ℕ) (s : Plic) → i ≢ 0 → InService i s → best_source s ≢ i
InService-not-best_source i s n h e =
    InService-not-IsEligible i s h (rw e at ((best_source-IsBest s h.claimed_lt).ready (rw e n)))

take_claim-InService :
    (id : ℕ) (s : Plic) → id < 8 → s.claimed < 2 ^ 32 → InService id (take_claim id s)
unfolding take_claim
take_claim-InService id s l c = record {
  claimed_bit =
      omega (arith, bit-bit_or id s.claimed (1 <<< id), bit-shift_self id, bit-le-one id s.claimed);
  claimed_lt = bit_or-lt 32 s.claimed (1 <<< id) c (shift-lt id (ground arith));
}

take_claim-keeps : (id i : ℕ) (s : Plic) → id < 8 → InService i s → InService i (take_claim id s)
unfolding take_claim
take_claim-keeps id i s l h = record {
  claimed_bit =
      omega (arith, bit-bit_or i s.claimed (1 <<< id), bit-le-one i (1 <<< id), h.claimed_bit);
  claimed_lt = bit_or-lt 32 s.claimed (1 <<< id) h.claimed_lt (shift-lt id (ground arith));
}

complete-keeps :
    (val i : ℕ) (s : Plic) → i < 8 → i ≢ val → InService i s → InService i (complete val s)
unfolding complete
complete-keeps val i s l n h = elim (Bool-cases (ltb val 8)) [
  | inr out ↦ rw out h
  | inl v ↦ rw v (record {
    claimed_bit = omega (
      arith,
      bit-bit_and i s.claimed (not32 (1 <<< val)),
      bit-complement 32 i (1 <<< val) (omega arith) (shift-lt val (ground arith)),
      bit-shift_ne i val n,
      h.claimed_bit,
    );
    claimed_lt = omega (arith, bit_and-le s.claimed (not32 (1 <<< val)), h.claimed_lt);
  })
]

-- A claim puts the source that it returns in service, and keeps the others there.
pub claim_best-InService :
    (s : Plic)
    → s.claimed < 2 ^ 32
    → (claim_best s).id ≢ 0
    → InService (claim_best s).id (claim_best s).state
unfolding claim_best
claim_best-InService s c n = elim (Bool-cases (best_source s == 0)) [
  | inl z ↦ absurd (n (rw z refl))
  | inr nz ↦ rw nz (take_claim-InService (best_source s) s (best_source-lt s) c)
]

claim_best-keeps : (i : ℕ) (s : Plic) → InService i s → InService i (claim_best s).state
unfolding claim_best
claim_best-keeps i s h = elim (Bool-cases (best_source s == 0)) [
  | inl z ↦ rw z h
  | inr nz ↦ rw nz (take_claim-keeps (best_source s) i s (best_source-lt s) h)
]

claim_best-id : (s : Plic) → (claim_best s).id ≡ best_source s
unfolding claim_best
claim_best-id s = ground arith

-- What reaches the controller: an interrupt line, and bus reads and writes.
pub data Request : Type 0 where
  line : ℕ → Bool → Request
  bus : Bool → ℕ → ℕ → Request

-- Anything but the write that completes source `i`.
abbrev pub Leaves : ℕ → Request → Type 0
Leaves i (line id on) = Unit {0}
Leaves i (bus write addr val) = write ≡ true → addr ≡ 0x200004 → i ≢ val

unfoldable pub handle : Request → Plic → Plic
handle (line id on) s = (set_pending id on s).0
handle (bus write addr val) s = (access write addr val s).state

same_claimed : (i : ℕ) {s t : Plic} → t.claimed ≡ s.claimed → InService i s → InService i t
same_claimed i e h = record { claimed_bit = rw e h.claimed_bit; claimed_lt = rw e h.claimed_lt }

set_pending-claimed : (id : ℕ) (on : Bool) (s : Plic) → (set_pending id on s).0.claimed ≡ s.claimed
unfolding set_pending
set_pending-claimed id on s = ground arith

access-other :
    (write : Bool) (addr val : ℕ) (s : Plic)
    → addr ≢ 0x200004
    → (access write addr val s).state.claimed ≡ s.claimed
unfolding access
access-other write addr val s n = ground arith

access-claim_register :
    (i : ℕ) (write : Bool) (val : ℕ) (s : Plic)
    → i < 8
    → (write ≡ true → i ≢ val)
    → InService i s
    → InService i (access write 0x200004 val s).state
unfolding access
access-claim_register i true val s l k h = complete-keeps val i s l (k refl) h
access-claim_register i false val s l k h = claim_best-keeps i s h

handle-keeps :
    (i : ℕ) (r : Request) (s : Plic) → i < 8 → Leaves i r → InService i s → InService i (handle r s)
unfolding handle
handle-keeps i (line id on) s l k h = same_claimed i (set_pending-claimed id on s) h
handle-keeps i (bus write addr val) s l k h = elim (Bool-cases (addr == 0x200004)) [
  | inl e ↦
      (let at : addr ≡ 0x200004 = ground arith in
        rw at (access-claim_register i write val s l (λ w. k w at) h))
  | inr ne ↦ same_claimed i (access-other write addr val s (ground arith)) h
]

unfoldable pub handle_all : List Request → Plic → Plic
handle_all [] s = s
handle_all (r ∷ rs) s = handle_all rs (handle r s)

abbrev pub AllLeave : ℕ → List Request → Type 0
AllLeave i [] = Unit {0}
AllLeave i (r ∷ rs) = Leaves i r × AllLeave i rs

handle_all-keeps :
    (i : ℕ) (rs : List Request) (s : Plic)
    → i < 8
    → AllLeave i rs
    → InService i s
    → InService i (handle_all rs s)
unfolding handle_all
handle_all-keeps i [] s l k h = h
handle_all-keeps i (r ∷ rs) s l k h =
    handle_all-keeps i rs (handle r s) l k.1 (handle-keeps i r s l k.0 h)

-- With `claimed` a 32-bit word, a source that has been claimed is not returned by another claim,
-- whatever lines are raised and registers written in between, before the write that completes it.
pub claim_once :
    (s : Plic) (rs : List Request)
    → s.claimed < 2 ^ 32
    → (claim_best s).id ≢ 0
    → AllLeave (claim_best s).id rs
    → (claim_best (handle_all rs (claim_best s).state)).id ≢ (claim_best s).id
claim_once s rs c n k =
    let i : ℕ = (claim_best s).id in
    let t : Plic = handle_all rs (claim_best s).state in
    let small : i < 8 = rw (claim_best-id s) (best_source-lt s) in
    rw (claim_best-id t) (
      InService-not-best_source i t n
        (handle_all-keeps i rs (claim_best s).state small k (claim_best-InService s c n)))
