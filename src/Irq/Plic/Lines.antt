-- ===== src/Irq/Plic/Lines.antt =====
-- Every change of the PLIC is followed by the call that reports whether a source can be claimed.
use virtual_so_c.Prelude.{ℕ, List, [], ◌∷◌, Bool, ◌≡◌, refl, arith, ◌⊎◌, inl}
use virtual_so_c.Tlm.{Payload, word_transport-rel}
use virtual_so_c.Irq.Plic.Device.{Plic, evaluate_irq, set_pending, claim_best, access, b_transport}

-- From `s` to `t` with the calls `es`: either nothing that the line depends on has changed, or the
-- new state of the line is reported.
abbrev pub Reported : Plic → Plic → List Bool → Type 0
Reported s t es = ((es ≡ []) × (evaluate_irq t ≡ evaluate_irq s)) ⊎ (es ≡ evaluate_irq t ∷ [])

pub set_pending-Reported :
    (id : ℕ) (on : Bool) (s : Plic) → Reported s (set_pending id on s).0 (set_pending id on s).1
unfolding set_pending
set_pending-Reported id on s = ground arith

claim_best-Reported : (s : Plic) → Reported s (claim_best s).state (claim_best s).events
unfolding claim_best
claim_best-Reported s = ground arith

access-Reported :
    (write : Bool) (addr val : ℕ) (s : Plic)
    → Reported s (access write addr val s).state (access write addr val s).events
unfolding access
access-Reported write addr val s = ground (arith, claim_best-Reported s)

pub b_transport-Reported :
    (s : Plic) (p : Payload) → Reported s (b_transport s p).state (b_transport s p).events
unfolding b_transport
b_transport-Reported s p =
    word_transport-rel access (Reported s) s p (inl (refl, refl))
      λ write addr val. access-Reported write addr val s
