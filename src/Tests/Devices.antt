-- ===== src/Tests/Devices.antt =====
-- The CLINT, the simple devices and the wiring of interrupts on concrete states.
use virtual_so_c.Prelude.{
  ℕ, ◌+◌, ◌*◌, ◌%◌, ◌^◌, List, [], ◌∷◌, true, false, leb, has_bits, ◌&&◌, ◌-◌, ◌≡◌, arith,
}
use Prim.Native.Nat.{min, max}
use virtual_so_c.Prelude.Bits.{bit}
use virtual_so_c.Tlm.{Command, Response, Payload, store_le}
use virtual_so_c.Tlm.Line.{watch}
use virtual_so_c.Irq.Clint.Device as Clint
use virtual_so_c.Irq.Clint.Device.{Clint}
use virtual_so_c.Irq.Clint.Registers.{IsSized, access-IsSized, write_halves, write_halves_lem}
use virtual_so_c.Io.Timer as Timer
use virtual_so_c.Io.Timer.{Timer}
use virtual_so_c.Io.Gpio as Gpio
use virtual_so_c.Io.Gpio.{Gpio}
use virtual_so_c.Platform.Interrupts.{
  Happening, clock_tick, clint_access, plic_access, device_line, software_write, history, power_on,
}
use virtual_so_c.Platform.Wired.{IsWired, history-IsWired}

-- A write of a word.
abbrev word_write : ℕ → ℕ → Payload
word_write addr v = record {
  command = Command.write_command;
  address = addr;
  bytes = store_le 4 v;
  length = 4;
  status = Response.incomplete;
}

-- A compare value of 1, a tick, and the source of the UART made ready.
abbrev morning : List Happening
morning =
    clint_access (word_write 0x4004 0)
    ∷ clint_access (word_write 0x4000 1)
    ∷ clock_tick
    ∷ plic_access (word_write 0x4 7)
    ∷ plic_access (word_write 0x2000 2)
    ∷ device_line 1 true
    ∷ software_write 0x344 3 0
    ∷ []

history-IsWired_example : IsWired (history morning power_on)
history-IsWired_example = history-IsWired morning

initial-IsSized : IsSized Clint.initial
initial-IsSized = record {
  mtime_lt = ground arith;
  mtimecmp_lt = ground arith;
  msip_le = ground arith;
}

access-IsSized_example :
    IsSized (Clint.tick Clint.initial).state
    × IsSized (Clint.access true 0x4000 0xFFFFFFFF Clint.initial).state
access-IsSized_example =
    access-IsSized true 0x4000 0xFFFFFFFF Clint.initial (omega arith) initial-IsSized

write_halves_example :
    let t = write_halves 0x4000 5 6 Clint.initial in
    let u = write_halves 0xBFF8 5 6 Clint.initial in
    (t.mtimecmp ≡ 6 * 2 ^ 32 + 5)
    × (t.mtime ≡ 0)
    × ((Clint.access false 0x4000 0 t).val ≡ 5)
    × ((Clint.access false 0x4004 0 t).val ≡ 6)
    × (u.mtime ≡ 6 * 2 ^ 32 + 5)
    × (u.mtimecmp ≡ 0xFFFFFFFFFFFFFFFF)
    × ((Clint.access false 0xBFF8 0 u).val ≡ 5)
    × ((Clint.access false 0xBFFC 0 u).val ≡ 6)
write_halves_example =
    write_halves_lem 5 6 0 Clint.initial (omega arith) (omega arith) initial-IsSized

-- The timer is set to 2 and turned on, and two ticks pass.
abbrev alarm : List Timer.Request
alarm =
    Timer.bus (word_write 0x0C 0)
    ∷ Timer.bus (word_write 0x08 2)
    ∷ Timer.bus (word_write 0x10 1)
    ∷ Timer.clock_tick
    ∷ Timer.clock_tick
    ∷ []

watch-fires_example :
    let end = watch Timer.fires Timer.handle alarm Timer.initial false in end.1 ≡ Timer.fires end.0
watch-fires_example = Timer.watch-fires alarm

abbrev almost : Timer
almost = record { time = 2 ^ 64 - 3; cmp = 10; ctrl = 1 }

fires-ticks_example :
    Timer.fires (Timer.ticks 13 almost) ≡ (has_bits 1 1 && leb 10 ((2 ^ 64 - 3 + 13) % 2 ^ 64))
fires-ticks_example = Timer.fires-ticks 13 almost (omega arith)

-- Pin 4 changes under the mask, and its status is cleared.
abbrev pressed : List Gpio.Request
pressed =
    Gpio.bus (word_write 0x0C 0x10) ∷ Gpio.pins_change 0x11 ∷ Gpio.bus (word_write 0x10 0x10) ∷ []

watch-raised_example :
    let end = watch Gpio.raised Gpio.handle pressed Gpio.initial false in end.1 ≡ Gpio.raised end.0
watch-raised_example = Gpio.watch-raised pressed

abbrev listening : Gpio
listening = record Gpio.initial { irq_mask = 0x10; input = 0x1 }

irq_status_example :
    (bit 4 (Gpio.set_input 0x10 listening).0.irq_status
      ≡ max (bit 4 0) (min (bit 4 0x10) ((bit 4 0x1 + bit 4 0x10) % 2)))
    × (bit 4 (Gpio.access true 0x10 0x10 listening).state.irq_status
        ≡ min (bit 4 0) (1 - bit 4 0x10))
irq_status_example = Gpio.irq_status_lem 4 0x10 0x10 listening (omega arith) (omega arith)
