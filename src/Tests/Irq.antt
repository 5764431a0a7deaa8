-- ===== src/Tests/Irq.antt =====
-- The interrupt controllers on concrete states: src/irq.
use virtual_so_c.Prelude.{List, [], ◌∷◌, ◌≡◌, ◌≢◌, ◌↔◌, refl, arith, true}
use virtual_so_c.Irq.Plic.Device.{
  Plic, initial, best_source, evaluate_irq, claim_best, claim_loop, wins, actionable, take_claim,
}
use virtual_so_c.Irq.Plic.Arbitration.{IsBest, best_source-IsBest, evaluate_irq-best_source}
use virtual_so_c.Irq.Plic.Service.{Request, line, bus, handle_all, claim_once}

-- Sources 2, 3 and 5 are pending and enabled, 3 and 5 with the same priority.
abbrev busy : Plic
busy = record initial {
  priority = 0 ∷ 0 ∷ 1 ∷ 4 ∷ 0 ∷ 4 ∷ 0 ∷ 0 ∷ [];
  pending = 0x2C;
  enabled = 0x2C;
}

busy_best : best_source busy ≡ 3
unfolding best_source claim_loop wins actionable
busy_best = refl

best_source-IsBest_example : IsBest busy (best_source busy)
best_source-IsBest_example = best_source-IsBest busy (omega arith)

evaluate_irq-best_source_example : (evaluate_irq busy ≡ true) ↔ (best_source busy ≢ 0)
evaluate_irq-best_source_example = evaluate_irq-best_source busy

-- The line of the claimed source is raised again, and source 5 is completed.
abbrev between : List Request
between = line 3 true ∷ bus true 0x200004 5 ∷ []

claim_once_example :
    (claim_best (handle_all between (claim_best busy).state)).id ≢ (claim_best busy).id
unfolding claim_best best_source claim_loop wins actionable take_claim
claim_once_example =
    claim_once busy between (omega arith) (ground arith) (tt, ((λ w e. ground arith), tt))
