-- ===== src/Irq/Plic/Device.antt =====
-- The state and the operations of `PLIC`. An event is a call of `on_external_irq` with its argument.
use virtual_so_c.Prelude.{
  ℕ, zero, suc, ◌+◌, ◌-◌, ◌*◌, ◌/◌, List, [], ◌∷◌, Bool, not, ltb, leb, ◌==◌, ◌&&◌, ◌||◌,
  if◌then◌else◌, not32, has_bits, ◌<<<◌, ◌&&&◌, ◌|||◌, get_or, set, replicate,
}
use virtual_so_c.Tlm.{
  Access, Device, Payload, Transported, reads, stores, no_register, word_transport,
}

abbrev pub num_sources : ℕ
num_sources = 8

pub record Plic : Type 0 where
  pub priority : List ℕ
  pub pending : ℕ
  pub enabled : ℕ
  pub threshold : ℕ
  pub claimed : ℕ

abbrev pub initial : Plic
initial = record { priority = replicate 8 0; pending = 0; enabled = 0; threshold = 0; claimed = 0 }

abbrev pub priority_of : Plic → ℕ → ℕ
priority_of s i = get_or s.priority i 0

unfoldable pub actionable : Plic → ℕ
actionable s = s.pending &&& s.enabled &&& not32 s.claimed

-- The test of both loops.
unfoldable pub wins : Plic → ℕ → ℕ → Bool
unfolding actionable
wins s i best_prio =
    has_bits (actionable s) (1 <<< i)
    && ltb s.threshold (priority_of s i)
    && ltb best_prio (priority_of s i)

-- The loops, with `left` rounds to go at source `i`.
unfoldable pub prio_loop : Plic → ℕ → ℕ → ℕ → ℕ
prio_loop s zero i best_prio = best_prio
prio_loop s (suc left) i best_prio =
    prio_loop s left (i + 1) (if wins s i best_prio then priority_of s i else best_prio)

unfoldable pub claim_loop : Plic → ℕ → ℕ → ℕ → ℕ → ℕ
claim_loop s zero i best_id best_prio = best_id
claim_loop s (suc left) i best_id best_prio =
    claim_loop s left (i + 1) (if wins s i best_prio then i else best_id)
      (if wins s i best_prio then priority_of s i else best_prio)

-- The argument that `evaluate_irq` passes to `on_external_irq`.
unfoldable pub evaluate_irq : Plic → Bool
evaluate_irq s = ltb 0 (prio_loop s (num_sources - 1) 1 0)

unfoldable pub best_source : Plic → ℕ
best_source s = claim_loop s (num_sources - 1) 1 0 0

pub record Claim : Type 0 where
  pub state : Plic
  pub id : ℕ
  pub events : List Bool

unfoldable pub take_claim : ℕ → Plic → Plic
take_claim id s = record s {
  claimed = s.claimed ||| 1 <<< id;
  pending = s.pending &&& not32 (1 <<< id);
}

unfoldable pub claim_best : Plic → Claim
unfolding take_claim
claim_best s =
    let id = best_source s in
    let t = take_claim id s in
    if id == 0
    then record { state = s; id = 0; events = [] }
    else record { state = t; id = id; events = evaluate_irq t ∷ [] }

abbrev evaluated : Plic → ℕ → Access Plic Bool
evaluated t val = stores t val (evaluate_irq t ∷ [])

unfoldable pub set_pending : ℕ → Bool → Plic → Plic × List Bool
set_pending id on s =
    let t = record s {
      pending = if on then s.pending ||| 1 <<< id else s.pending &&& not32 (1 <<< id);
    } in
    if id == 0 || leb num_sources id then (s, []) else (t, evaluate_irq t ∷ [])

unfoldable pub complete : ℕ → Plic → Plic
complete val s =
    if ltb val num_sources then record s { claimed = s.claimed &&& not32 (1 <<< val) } else s

-- The chain of address tests of `b_transport`.
unfoldable pub access : Device Plic Bool
access write addr val s =
    if ltb addr (num_sources * 4)
    then (let src = addr / 4 in
        if write
        then evaluated
            (if not (src == 0) then record s { priority = set s.priority src (val &&& 0x7) } else s)
            val
        else reads s (priority_of s src))
    else if addr == 0x1000
    then if write then evaluated (record s { pending = val }) val else reads s s.pending
    else if addr == 0x2000
    then if write then evaluated (record s { enabled = val }) val else reads s s.enabled
    else if addr == 0x200000
    then if write then evaluated (record s { threshold = val &&& 0x7 }) val else reads s s.threshold
    else if addr == 0x200004
    then if write
      then evaluated (complete val s) val
      else (let c = claim_best s in stores c.state c.id c.events)
    else no_register s val

unfoldable pub b_transport : Plic → Payload → Transported Plic Bool
unfolding word_transport
b_transport = word_transport access
