-- ===== src/Irq/Clint/Device.antt =====
-- The state and the operations of `CLINT`. The events are the calls of `on_timer_irq` and of
-- `on_sw_irq` with their argument.
use virtual_so_c.Prelude.{
  ℕ, ◌+◌, [], ◌∷◌, Bool, not, leb, ◌==◌, if◌then◌else◌, ◌&&&◌, ◌>>>◌, u32, u64,
}
use virtual_so_c.Prelude.Halves.{set_low, set_high}
use virtual_so_c.Tlm.{
  Access, Device, Payload, Transported, reads, stores, no_register, word_transport,
}

pub record Clint : Type 0 where
  pub mtime : ℕ
  pub mtimecmp : ℕ
  pub msip : ℕ

abbrev pub initial : Clint
initial = record { mtime = 0; mtimecmp = 0xFFFFFFFFFFFFFFFF; msip = 0 }

pub data Event : Type 0 where
  timer_irq : Bool → Event
  sw_irq : Bool → Event

-- `update_timer_irq`.
unfoldable pub timer_event : Clint → Event
timer_event s = timer_irq (leb s.mtimecmp s.mtime)

abbrev updated : Clint → ℕ → Access Clint Event
updated t val = stores t val (timer_event t ∷ [])

-- One round of `tick_thread`.
unfoldable pub tick : Clint → Access Clint Event
tick s = updated (record s { mtime = u64 (s.mtime + 1) }) 0

-- The `switch` of `b_transport`.
unfoldable pub access : Device Clint Event
access write addr val s =
    if addr == 0x0000
    then if write
      then stores (record s { msip = val &&& 1 }) val (sw_irq (not ((val &&& 1) == 0)) ∷ [])
      else reads s s.msip
    else if addr == 0x4000
    then if write
      then updated (record s { mtimecmp = set_low s.mtimecmp val }) val
      else reads s (u32 s.mtimecmp)
    else if addr == 0x4004
    then if write
      then updated (record s { mtimecmp = set_high s.mtimecmp val }) val
      else reads s (u32 (s.mtimecmp >>> 32))
    else if addr == 0xBFF8
    then if write
      then updated (record s { mtime = set_low s.mtime val }) val
      else reads s (u32 s.mtime)
    else if addr == 0xBFFC
    then if write
      then updated (record s { mtime = set_high s.mtime val }) val
      else reads s (u32 (s.mtime >>> 32))
    else no_register s val

unfoldable pub b_transport : Clint → Payload → Transported Clint Event
unfolding word_transport
b_transport = word_transport access
