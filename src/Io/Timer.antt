-- ===== src/Io/Timer.antt =====
-- The system timer: src/io/timer.h and src/io/timer.cpp.
use virtual_so_c.Prelude.{
  ℕ, zero, suc, ◌+◌, ◌%◌, ◌^◌, ◌<◌, List, [], ◌∷◌, Bool, false, leb, has_bits, ◌==◌, ◌&&◌,
  if◌then◌else◌, ◌>>>◌, u32, u64, ◌≡◌, refl, arith, inr, ap, ◌∙◌,
}
use virtual_so_c.Prelude.Halves.{set_low, set_high}
use virtual_so_c.Tlm.{
  Access, Device, Payload, Transported, reads, stores, no_register, transport, transport-rel,
}
use virtual_so_c.Tlm.Line.{Follows, watch, watch-level}

pub record Timer : Type 0 where
  pub time : ℕ
  pub cmp : ℕ
  pub ctrl : ℕ

abbrev pub initial : Timer
initial = record { time = 0; cmp = 0xFFFFFFFFFFFFFFFF; ctrl = 0 }

-- The argument that `update_irq` passes to `on_irq`.
unfoldable pub fires : Timer → Bool
fires s = has_bits s.ctrl 1 && leb s.cmp s.time

abbrev updated : Timer → ℕ → Access Timer Bool
updated t val = stores t val (fires t ∷ [])

-- One round of `tick_thread`.
unfoldable pub tick : Timer → Timer × List Bool
tick s = let t = record s { time = u64 (s.time + 1) } in (t, fires t ∷ [])

-- The `switch` of `b_transport`.
unfoldable pub access : Device Timer Bool
access write addr val s =
    if addr == 0x00
    then if write
      then updated (record s { time = set_low s.time val }) val
      else reads s (u32 s.time)
    else if addr == 0x04
    then if write
      then updated (record s { time = set_high s.time val }) val
      else reads s (u32 (s.time >>> 32))
    else if addr == 0x08
    then if write then updated (record s { cmp = set_low s.cmp val }) val else reads s (u32 s.cmp)
    else if addr == 0x0C
    then if write
      then updated (record s { cmp = set_high s.cmp val }) val
      else reads s (u32 (s.cmp >>> 32))
    else if addr == 0x10
    then if write then updated (record s { ctrl = val }) val else reads s s.ctrl
    else no_register s val

unfoldable pub b_transport : Timer → Payload → Transported Timer Bool
b_transport = transport access

pub data Request : Type 0 where
  clock_tick : Request
  bus : Payload → Request

unfoldable pub handle : Request → Timer → Timer × List Bool
handle clock_tick s = tick s
handle (bus p) s = let t = b_transport s p in (t.state, t.events)

access-Follows :
    (write : Bool) (addr val : ℕ) (s : Timer)
    → Follows fires handle s (access write addr val s).state (access write addr val s).events
unfolding access
access-Follows write addr val s = ground arith

handle-Follows : (r : Request) (s : Timer) → Follows fires handle s (handle r s).0 (handle r s).1
unfolding handle tick b_transport
handle-Follows clock_tick s = inr refl
handle-Follows (bus p) s =
    transport-rel access (Follows fires handle s) s p
      λ write addr val. access-Follows write addr val s

-- After any ticks and transactions from reset, the interrupt line of the timer is up exactly when
-- the timer is on and its time has reached the compare value.
pub watch-fires :
    (rs : List Request) → let end = watch fires handle rs initial false in end.1 ≡ fires end.0
watch-fires rs = watch-level fires handle handle-Follows rs initial false (unfold fires in refl)

unfoldable pub ticks : ℕ → Timer → Timer
ticks zero s = s
ticks (suc n) s = ticks n (tick s).0

ticks_lem :
    (n : ℕ) (s : Timer) → s.time < 2 ^ 64 → ticks n s ≡ record s { time = (s.time + n) % 2 ^ 64 }
unfolding ticks tick
ticks_lem zero s l = ap (λ (t : ℕ). record s { time = t }) (omega arith)
ticks_lem (suc n) s l =
    ticks_lem n (tick s).0 (omega arith) ∙ ap (λ (t : ℕ). record s { time = t }) (omega arith)

-- From a 64-bit time, after `n` ticks the line is up exactly when the timer is on and the time,
-- `n` later modulo 2 ^ 64, has reached the compare value.
pub fires-ticks :
    (n : ℕ) (s : Timer)
    → s.time < 2 ^ 64
    → fires (ticks n s) ≡ (has_bits s.ctrl 1 && leb s.cmp ((s.time + n) % 2 ^ 64))
unfolding fires
fires-ticks n s l = rw (ticks_lem n s l) refl
