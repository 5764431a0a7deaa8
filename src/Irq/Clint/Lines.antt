-- ===== src/Irq/Clint/Lines.antt =====
-- Every change of the CLINT is followed by the call that reports the new state of its lines.
use virtual_so_c.Prelude.{ℕ, List, [], ◌∷◌, Bool, not, leb, ◌==◌, ◌≡◌, refl, arith, ◌⊎◌, inl, inr}
use virtual_so_c.Tlm.{Payload, word_transport-rel}
use virtual_so_c.Irq.Clint.Device.{
  Clint, Event, timer_irq, sw_irq, timer_event, tick, access, b_transport,
}

-- The lines that the registers call for.
abbrev pub timer_level : Clint → Bool
timer_level s = leb s.mtimecmp s.mtime

abbrev pub sw_level : Clint → Bool
sw_level s = not (s.msip == 0)

-- From `s` to `t` with the calls `es`: the line that may have changed is reported, the other one is
-- as it was.
abbrev pub Reported : Clint → Clint → List Event → Type 0
Reported s t es =
    ((es ≡ []) × (timer_level t ≡ timer_level s) × (sw_level t ≡ sw_level s))
    ⊎ ((es ≡ timer_irq (timer_level t) ∷ []) × (sw_level t ≡ sw_level s))
    ⊎ ((es ≡ sw_irq (sw_level t) ∷ []) × (timer_level t ≡ timer_level s))

pub tick-Reported : (s : Clint) → Reported s (tick s).state (tick s).events
unfolding tick timer_event
tick-Reported s = inr (inl (refl, refl))

access-Reported :
    (write : Bool) (addr val : ℕ) (s : Clint)
    → Reported s (access write addr val s).state (access write addr val s).events
unfolding access timer_event
access-Reported write addr val s = ground arith

pub b_transport-Reported :
    (s : Clint) (p : Payload) → Reported s (b_transport s p).state (b_transport s p).events
unfolding b_transport
b_transport-Reported s p =
    word_transport-rel access (Reported s) s p (inl (refl, refl, refl))
      λ write addr val. access-Reported write addr val s
