-- ===== src/Io/Uart.antt =====
-- The UART: src/io/uart.h and src/io/uart.cpp. The queue is a list, its front first. `on_irq` and
-- `on_tx` are the events of a call, in order.
pub mod Queue
pub mod Interrupt
use virtual_so_c.Prelude.{
  ℕ, ◌+◌, ◌%◌, ◌^◌, List, [], ◌∷◌, ◌++◌, Bool, true, false, not, ltb, has_bits, length, ◌==◌, ◌&&◌,
  ◌||◌, if◌then◌else◌, ◌&&&◌, ◌|||◌,
}
use virtual_so_c.Tlm.{
  Access, Device, Payload, Transported, reads, stores, no_register, sized_transport,
}

abbrev pub ier_rx_avail : ℕ
ier_rx_avail = 0x01

abbrev pub ier_tx_empty : ℕ
ier_tx_empty = 0x02

abbrev pub iir_no_int : ℕ
iir_no_int = 0x01

abbrev pub iir_tx_empty : ℕ
iir_tx_empty = 0x02

abbrev pub iir_rx_avail : ℕ
iir_rx_avail = 0x04

abbrev pub iir_fifo_en : ℕ
iir_fifo_en = 0xC0

abbrev pub lsr_dr : ℕ
lsr_dr = 0x01

abbrev pub lsr_thre : ℕ
lsr_thre = 0x20

abbrev pub lsr_temt : ℕ
lsr_temt = 0x40

abbrev pub fifo_size : ℕ
fifo_size = 16

pub record Uart : Type 0 where
  pub rx_fifo : List ℕ
  pub ier : ℕ
  pub lcr : ℕ
  pub mcr : ℕ
  pub scr : ℕ
  pub tx_empty : Bool

abbrev pub reset : Uart
reset = record { rx_fifo = []; ier = 0; lcr = 0; mcr = 0; scr = 0; tx_empty = true }

pub data Event : Type 0 where
  irq : Bool → Event
  tx : ℕ → Event

abbrev pub is_empty : List ℕ → Bool
is_empty [] = true
is_empty (b ∷ bs) = false

-- The argument that `update_irq` passes to `on_irq`.
unfoldable pub interrupting : Uart → Bool
interrupting s =
    has_bits s.ier ier_rx_avail && not (is_empty s.rx_fifo)
    || has_bits s.ier ier_tx_empty && s.tx_empty

abbrev pub update_irq : Uart → List Event
update_irq s = irq (interrupting s) ∷ []

unfoldable pub push_rx : ℕ → Uart → Uart × List Event
push_rx byte s =
    let t =
      if ltb (length s.rx_fifo) fifo_size
      then record s { rx_fifo = s.rx_fifo ++ byte ∷ [] }
      else s in
    (t, update_irq t)

-- `front` and `pop`.
unfoldable pub receive : Uart → Access Uart Event
receive s = elim (s.rx_fifo) [
  | [] ↦ stores s 0 (update_irq s)
  | b ∷ bs ↦ (let t = record s { rx_fifo = bs } in stores t b (update_irq t))
]

unfoldable pub transmit : ℕ → Uart → Access Uart Event
transmit val s =
    let t = record s { tx_empty = true } in stores t val (tx (val % 2 ^ 8) ∷ update_irq t)

unfoldable pub identify : Uart → ℕ
identify s =
    if has_bits s.ier ier_rx_avail && not (is_empty s.rx_fifo)
    then iir_rx_avail ||| iir_fifo_en
    else if has_bits s.ier ier_tx_empty && s.tx_empty
    then iir_tx_empty ||| iir_fifo_en
    else iir_no_int ||| iir_fifo_en

unfoldable pub line_status : Uart → ℕ
line_status s =
    if is_empty s.rx_fifo then lsr_thre ||| lsr_temt else (lsr_thre ||| lsr_temt) ||| lsr_dr

-- The `switch` of `b_transport`.
unfoldable pub access : Device Uart Event
access write addr val s =
    if addr == 0
    then if write then transmit val s else receive s
    else if addr == 1
    then if write
      then (let t = record s { ier = val &&& 0x0F } in stores t val (update_irq t))
      else reads s s.ier
    else if addr == 2
    then if write then reads s val else reads s (identify s)
    else if addr == 3
    then if write then reads (record s { lcr = val % 2 ^ 8 }) val else reads s s.lcr
    else if addr == 4
    then if write then reads (record s { mcr = val % 2 ^ 8 }) val else reads s s.mcr
    else if addr == 5
    then reads s (line_status s)
    else if addr == 6
    then reads s 0
    else if addr == 7
    then if write then reads (record s { scr = val % 2 ^ 8 }) val else reads s s.scr
    else no_register s val

unfoldable pub b_transport : Uart → Payload → Transported Uart Event
b_transport = sized_transport access
