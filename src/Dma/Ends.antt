-- ===== src/Dma/Ends.antt =====
-- The loop of the DMA engine ends.
use virtual_so_c.Prelude.{
  ℕ, zero, suc, ◌+◌, ◌-◌, ◌≤◌, List, Bool, true, false, not, Option, some, ◌==◌, u32, ◌≡◌, refl,
  arith, inl, inr, Bool-cases, if-ind, ◌<◌, ◌^◌,
}
use virtual_so_c.Tlm.{Command, Payload}
use virtual_so_c.Dma.{burst, chunk_of, request, is_ok}

module _ {B : Type 0} (b_transport : B → Payload → B × Payload) (fresh : List ℕ) where
  abbrev Ends : Option (B × Bool) → Type 0
  Ends o = (r : B × Bool) × (o ≡ some r)

  -- With any bus, the loop of a DMA transfer of a number of bytes that is a 32-bit word ends
  -- within as many rounds as there are bytes to move.
  pub burst-Ends :
      (fuel remaining src dst : ℕ) (b : B)
      → remaining < 2 ^ 32
      → remaining ≤ fuel
      → (r : B × Bool) × (burst b_transport fresh fuel remaining src dst b ≡ some r)
  unfolding burst
  burst-Ends zero remaining src dst b u h =
      let none_left : remaining ≡ 0 = omega (arith, h) in ((b, true), rw none_left refl)
  burst-Ends (suc fuel) remaining src dst b u h = elim (Bool-cases (remaining == 0)) [
    | inl y ↦ ((b, true), rw y refl)
    | inr n ↦
        (let chunk : ℕ = chunk_of remaining in
          let r = b_transport b (request Command.read_command src chunk fresh) in
          let w = b_transport r.0 (request Command.write_command dst chunk r.1.bytes) in
          let left : ℕ = u32 (remaining + (2 ^ 32 - chunk)) in
          let less : left ≤ fuel = ground (arith, h, u, n) in
          let word : left < 2 ^ 32 = omega arith in
          rw n (
            if-ind Ends (not (is_ok r.1.status)) (some (r.0, false)) _ ((r.0, false), refl)
              (if-ind Ends (not (is_ok w.1.status)) (some (w.0, false)) _ ((w.0, false), refl)
                (burst-Ends fuel left (u32 (src + chunk)) (u32 (dst + chunk)) w.0 word less))))
  ]
