-- ===== src/Io/Uart/Interrupt.antt =====
-- The interrupt line of the UART over any requests.
use virtual_so_c.Prelude.{
  ℕ, List, [], ◌∷◌, Bool, false, u32, if◌then◌else◌, ◌≡◌, refl, arith, inl, inr,
}
use virtual_so_c.Tlm.{load_le, is_write, sized_transport}
use virtual_so_c.Tlm.Line.{Follows, watch, watch-level}
use virtual_so_c.Io.Uart.{
  Uart, Event, irq, tx, reset, interrupting, push_rx, receive, transmit, access, b_transport,
}
use virtual_so_c.Io.Uart.Queue.{Request, arrives, bus, handle, List-cases}

-- The calls of `on_irq`.
unfoldable pub lines : List Event → List Bool
lines [] = []
lines (irq v ∷ es) = v ∷ lines es
lines (tx b ∷ es) = lines es

unfoldable pub step : Request → Uart → Uart × List Bool
step r s = ((handle r s).0, lines (handle r s).1)

receive-line : (s : Uart) → lines (receive s).events ≡ interrupting (receive s).state ∷ []
unfolding receive lines
receive-line s = elim (List-cases s.rx_fifo) [
  | inl e ↦ rw (receive, e) refl
  | inr (b, bs, e) ↦ rw (receive, e) refl
]

access-line :
    (write : Bool) (addr val : ℕ) (s : Uart)
    → Follows interrupting step s
        (access write addr val s).state
        (lines (access write addr val s).events)
unfolding access transmit interrupting lines
access-line write addr val s = ground (arith, receive-line s)

step-Follows : (r : Request) (s : Uart) → Follows interrupting step s (step r s).0 (step r s).1
unfolding step handle push_rx b_transport sized_transport lines
step-Follows (arrives b) s = inr refl
step-Follows (bus p) s =
    access-line (is_write p) (u32 p.address) (if is_write p then load_le p.length p.bytes else 0) s

-- After any arrivals and transactions from reset, the interrupt line of the UART is up exactly
-- when an enabled cause is there: a byte in the queue, or the transmitter empty.
pub watch-interrupting :
    (rs : List Request)
    → let end = watch interrupting step rs reset false in end.1 ≡ interrupting end.0
watch-interrupting rs =
    watch-level interrupting step step-Follows rs reset false (unfold interrupting in refl)
