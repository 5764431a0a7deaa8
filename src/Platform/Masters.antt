-- ===== src/Platform/Masters.antt =====
-- What every transaction keeps, the transfers of the DMA engine and of the SD controller keep:
-- src/dma/dma_engine.cpp and src/sd/sd_ctrl.cpp.
use virtual_so_c.Prelude.{
  ℕ, zero, suc, ◌+◌, ◌-◌, List, Bool, true, false, not, Option, none, some, ◌==◌, u32, ◌≡◌, sym,
  inl, inr, Option-cases, if-ind, ◌^◌,
}
use mathlib.Core.Path.{subst}
use mathlib.Core.Option.{some-injective, some-ne-none}
use virtual_so_c.Tlm.{Command, Payload}
use virtual_so_c.Dma.{burst, chunk_of, request, is_ok}
use virtual_so_c.Sd.{read_blocks}

module _ {B : Type 0} (b_transport : B → Payload → B × Payload) (R : B → B → Type 0)
    (same : (b : B) → R b b) (after : (a b c : B) → R a b → R b c → R a c)
    (each : (b : B) (p : Payload) → R b (b_transport b p).0) where
  -- Of a loop that ends.
  abbrev Leads : B → Option (B × Bool) → Type 0
  Leads b o = (r : B × Bool) → o ≡ some r → R b r.0

  leads_some : (a b : B) (ok : Bool) → R a b → Leads a (some (b, ok))
  leads_some a b ok k r e = subst (λ q. R a q.0) (some-injective (b, ok) r e) k

  pub burst-rel :
      (fresh : List ℕ) (fuel remaining src dst : ℕ) (b : B)
      → Leads b (burst b_transport fresh fuel remaining src dst b)
  unfolding burst
  burst-rel fresh zero remaining src dst b =
      if-ind (Leads b) (remaining == 0) (some (b, true)) none (leads_some b b true (same b))
        λ r e. absurd (some-ne-none r (sym e))
  burst-rel fresh (suc fuel) remaining src dst b =
      let chunk : ℕ = chunk_of remaining in
      let r = b_transport b (request Command.read_command src chunk fresh) in
      let w = b_transport r.0 (request Command.write_command dst chunk r.1.bytes) in
      let first : R b r.0 = each b (request Command.read_command src chunk fresh) in
      let both : R b w.0 =
        after b r.0 w.0 first (each r.0 (request Command.write_command dst chunk r.1.bytes)) in
      if-ind (Leads b) (remaining == 0) (some (b, true)) _ (leads_some b b true (same b)) (
        if-ind (Leads b) (not (is_ok r.1.status)) (some (r.0, false)) _
          (leads_some b r.0 false first)
          (if-ind (Leads b) (not (is_ok w.1.status)) (some (w.0, false)) _
            (leads_some b w.0 false both)
            λ q e. after b w.0 q.0 both (
              burst-rel fresh fuel (u32 (remaining + (2 ^ 32 - chunk))) (u32 (src + chunk))
                (u32 (dst + chunk)) w.0 q e)))

  pub read_blocks-rel :
      (card : ℕ → Option (List ℕ)) (n block dest : ℕ) (b : B)
      → R b (read_blocks b_transport card n block dest b).0
  unfolding read_blocks
  read_blocks-rel card zero block dest b = same b
  read_blocks-rel card (suc n) block dest b = elim (Option-cases (card block)) [
    | inl e ↦ rw (read_blocks, e) (same b)
    | inr (buf, e) ↦
        (let w = b_transport b (request Command.write_command dest 512 buf) in
          let first : R b w.0 = each b (request Command.write_command dest 512 buf) in
          rw (read_blocks, e)
            (if-ind (λ (r : B × Bool). R b r.0) (is_ok w.1.status) _ (w.0, false)
              (after b w.0 _ first
                (read_blocks-rel card n (u32 (block + 1)) (u32 (dest + 512)) w.0))
              first))
  ]
