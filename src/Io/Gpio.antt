-- ===== src/Io/Gpio.antt =====
-- The general-purpose pins: src/io/gpio.h and src/io/gpio.cpp.
use virtual_so_c.Prelude.{
  ℕ, ◌+◌, ◌-◌, ◌%◌, ◌^◌, ◌<◌, List, [], ◌∷◌, Bool, true, false, has_bits, not32, ◌&&&◌, ◌|||◌, ◌==◌,
  if◌then◌else◌, ◌≡◌, refl, arith, inr, bit_xor,
}
use Prim.Native.Nat.{min, max}
use virtual_so_c.Prelude.Bits.{bit, bit-bit_and, bit-bit_or, bit-complement, bit-bit_xor}
use virtual_so_c.Tlm.{
  Access, Device, Payload, Transported, reads, stores, no_register, transport, transport-rel,
}
use virtual_so_c.Tlm.Line.{Follows, watch, watch-level}

pub record Gpio : Type 0 where
  pub direction : ℕ
  pub output : ℕ
  pub input : ℕ
  pub irq_mask : ℕ
  pub irq_status : ℕ

abbrev pub initial : Gpio
initial = record { direction = 0; output = 0; input = 0; irq_mask = 0; irq_status = 0 }

-- The argument that `check_irq` passes to `on_irq`.
unfoldable pub raised : Gpio → Bool
raised s = has_bits s.irq_status s.irq_mask

unfoldable pub set_input : ℕ → Gpio → Gpio × List Bool
set_input pins s =
    let changed = bit_xor s.input pins in
    let t = record s { input = pins; irq_status = s.irq_status ||| (changed &&& s.irq_mask) } in
    (t, raised t ∷ [])

abbrev checked : Gpio → ℕ → Access Gpio Bool
checked t val = stores t val (raised t ∷ [])

-- The `switch` of `b_transport`; a write of the input register sets `val` only.
unfoldable pub access : Device Gpio Bool
access write addr val s =
    if addr == 0x00
    then if write then stores (record s { direction = val }) val [] else reads s s.direction
    else if addr == 0x04
    then if write then stores (record s { output = val }) val [] else reads s s.output
    else if addr == 0x08
    then reads s s.input
    else if addr == 0x0C
    then if write then checked (record s { irq_mask = val }) val else reads s s.irq_mask
    else if addr == 0x10
    then if write
      then checked (record s { irq_status = s.irq_status &&& not32 val }) val
      else reads s s.irq_status
    else no_register s val

unfoldable pub b_transport : Gpio → Payload → Transported Gpio Bool
b_transport = transport access

pub data Request : Type 0 where
  pins_change : ℕ → Request
  bus : Payload → Request

unfoldable pub handle : Request → Gpio → Gpio × List Bool
handle (pins_change pins) s = set_input pins s
handle (bus p) s = let t = b_transport s p in (t.state, t.events)

access-Follows :
    (write : Bool) (addr val : ℕ) (s : Gpio)
    → Follows raised handle s (access write addr val s).state (access write addr val s).events
unfolding access raised
access-Follows write addr val s = ground arith

handle-Follows : (r : Request) (s : Gpio) → Follows raised handle s (handle r s).0 (handle r s).1
unfolding handle set_input b_transport
handle-Follows (pins_change pins) s = inr refl
handle-Follows (bus p) s =
    transport-rel access (Follows raised handle s) s p
      λ write addr val. access-Follows write addr val s

-- After any changes of the pins and transactions from reset, the interrupt line of the GPIO is up
-- exactly when a status bit under the mask is set.
pub watch-raised :
    (rs : List Request) → let end = watch raised handle rs initial false in end.1 ≡ raised end.0
watch-raised rs = watch-level raised handle handle-Follows rs initial false (unfold raised in refl)

-- Pin by pin, below 32 and with a 32-bit word written: an edge under the mask sets the status
-- bit, of a pin that has changed and no other, and writing a one to it, and only that, clears it.
pub irq_status_lem :
    (i pins val : ℕ) (s : Gpio)
    → i < 32
    → val < 2 ^ 32
    → (bit i (set_input pins s).0.irq_status
        ≡ max (bit i s.irq_status) (min (bit i s.irq_mask) ((bit i s.input + bit i pins) % 2)))
      × (bit i (access true 0x10 val s).state.irq_status ≡ min (bit i s.irq_status) (1 - bit i val))
unfolding set_input access
irq_status_lem i pins val s l h = (
  omega (
    arith,
    bit-bit_or i s.irq_status (bit_xor s.input pins &&& s.irq_mask),
    bit-bit_and i (bit_xor s.input pins) s.irq_mask,
    bit-bit_xor i s.input pins,
  ),
  omega (arith, bit-bit_and i s.irq_status (not32 val), bit-complement 32 i val l h),
)
