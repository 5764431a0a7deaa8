-- ===== src/Io/Uart/Queue.antt =====
-- The receive queue of the UART over any requests: what is accepted, delivered and left.
use virtual_so_c.Prelude.{
  ℕ, ◌<◌, ◌≤◌, List, [], ◌∷◌, ◌++◌, Bool, true, false, not, ltb, length, ◌==◌, ◌&&◌, if◌then◌else◌,
  u32, ◌≡◌, refl, arith, ap, ◌∙◌, sym, inl, inr, ◌⊎◌, Bool-cases, length-append, take, drop, ◌%◌,
  ◌^◌, zero, suc,
}
use mathlib.Core.Bool.{true≢false}
use mathlib.Core.List.{append-nil, append_assoc}
use virtual_so_c.Tlm.{Payload, load_le, is_write, sized_transport, store_le}
use virtual_so_c.Io.Uart.{
  Uart, Event, is_empty, push_rx, receive, transmit, access, b_transport, fifo_size,
}

pub data Request : Type 0 where
  arrives : ℕ → Request
  bus : Payload → Request

unfoldable pub handle : Request → Uart → Uart × List Event
handle (arrives b) s = push_rx b s
handle (bus p) s = let t = b_transport s p in (t.state, t.events)

unfoldable pub run : List Request → Uart → Uart
run [] s = s
run (r ∷ rs) s = run rs (handle r s).0

abbrev reads_queue : Payload → Uart → Bool
reads_queue p s = not (is_write p) && u32 p.address == 0 && not (is_empty s.rx_fifo)

-- A request as the source's types allow: an arrival is a byte, and a transaction has a byte to carry.
abbrev pub Proper : Request → Type 0
Proper (arrives b) = b < 2 ^ 8
Proper (bus p) = 1 ≤ p.length

abbrev pub AllProper : List Request → Type 0
AllProper [] = Unit {0}
AllProper (r ∷ rs) = Proper r × AllProper rs

abbrev pub AllBytes : List ℕ → Type 0
AllBytes [] = Unit {0}
AllBytes (b ∷ bs) = (b < 2 ^ 8) × AllBytes bs

AllBytes-append : (xs ys : List ℕ) → AllBytes xs → AllBytes ys → AllBytes (xs ++ ys)
AllBytes-append [] ys h k = k
AllBytes-append (x ∷ xs) ys h k = (h.0, AllBytes-append xs ys h.1 k)

AllBytes-tail : (xs ys : List ℕ) → AllBytes (xs ++ ys) → AllBytes ys
AllBytes-tail [] ys h = h
AllBytes-tail (x ∷ xs) ys h = AllBytes-tail xs ys h.1

-- What the initiator finds at the start of its buffer after a read of the queue, and the byte that
-- an arrival puts there.
unfoldable pub delivered : Request → Uart → List ℕ
delivered (arrives b) s = []
delivered (bus p) s = if reads_queue p s then take 1 (b_transport s p).payload.bytes else []

unfoldable pub accepted : Request → Uart → List ℕ
accepted (arrives b) s = if ltb (length s.rx_fifo) fifo_size then b ∷ [] else []
accepted (bus p) s = []

unfoldable pub all_delivered : List Request → Uart → List ℕ
all_delivered [] s = []
all_delivered (r ∷ rs) s = delivered r s ++ all_delivered rs (handle r s).0

unfoldable pub all_accepted : List Request → Uart → List ℕ
all_accepted [] s = []
all_accepted (r ∷ rs) s = accepted r s ++ all_accepted rs (handle r s).0

access-rx_fifo :
    (write : Bool) (addr val : ℕ) (s : Uart)
    → (not write && addr == 0) ≡ false
    → (access write addr val s).state.rx_fifo ≡ s.rx_fifo
unfolding access transmit
access-rx_fifo write addr val s h = ground arith

access-receive :
    (write : Bool) (addr val : ℕ) (s : Uart)
    → (not write && addr == 0) ≡ true
    → access write addr val s ≡ receive s
unfolding access
access-receive true addr val s h = absurd (true≢false (sym h))
access-receive false addr val s h = rw h refl

pub List-cases : (xs : List ℕ) → (xs ≡ []) ⊎ ((b : ℕ) × (bs : List ℕ) × (xs ≡ b ∷ bs))
List-cases [] = inl refl
List-cases (b ∷ bs) = inr (b, bs, refl)

receive-rx_fifo :
    (s : Uart)
    → (if not (is_empty s.rx_fifo) then (receive s).val ∷ [] else []) ++ (receive s).state.rx_fifo
      ≡ s.rx_fifo
unfolding receive
receive-rx_fifo s = elim (List-cases s.rx_fifo) [
  | inl e ↦ rw (receive, e) e
  | inr (b, bs, e) ↦ rw (receive, e) refl
]

receive-ok : (s : Uart) → (receive s).ok ≡ true
unfolding receive
receive-ok s = elim (List-cases s.rx_fifo) [
  | inl e ↦ rw (receive, e) refl
  | inr (b, bs, e) ↦ rw (receive, e) refl
]

receive-lt : (s : Uart) → AllBytes s.rx_fifo → (receive s).val % 2 ^ 8 ≡ (receive s).val
unfolding receive
receive-lt s h = elim (List-cases s.rx_fifo) [
  | inl e ↦ rw (receive, e) refl
  | inr (b, bs, e) ↦ (let head : b < 2 ^ 8 = (rw e at h).0 in rw (receive, e) (omega (arith, head)))
]

take-store_le : (n v : ℕ) (rest : List ℕ) → 1 ≤ n → take 1 (store_le n v ++ rest) ≡ (v % 2 ^ 8) ∷ []
unfolding store_le
take-store_le zero v rest h = absurd (omega arith)
take-store_le (suc n) v rest h = refl

-- A read of the queue leaves its byte in the payload.
payload-receive :
    (p : Payload) (s : Uart)
    → 1 ≤ p.length
    → AllBytes s.rx_fifo
    → (not (is_write p) && u32 p.address == 0) ≡ true
    → take 1 (b_transport s p).payload.bytes ≡ (receive s).val ∷ []
unfolding b_transport sized_transport
payload-receive p s l h y =
    let read : is_write p ≡ false = ground (arith, y) in
    let same : access false (u32 p.address) 0 s ≡ receive s =
      access-receive false (u32 p.address) 0 s (rw read at y) in
    rw (read, same, receive-ok s)
      (take-store_le p.length (receive s).val (drop p.length p.bytes) l
        ∙ ap (λ v. v ∷ []) (receive-lt s h))

bus-rx_fifo :
    (p : Payload) (s : Uart)
    → (not (is_write p) && u32 p.address == 0) ≡ false
    → (b_transport s p).state.rx_fifo ≡ s.rx_fifo
unfolding b_transport sized_transport
bus-rx_fifo p s n =
    access-rx_fifo (is_write p) (u32 p.address) (if is_write p then load_le p.length p.bytes else 0)
      s n

bus-receive :
    (p : Payload) (s : Uart)
    → (not (is_write p) && u32 p.address == 0) ≡ true
    → (b_transport s p).state ≡ (receive s).state
unfolding b_transport sized_transport
bus-receive p s y =
    ap (λ a. a.state)
      (access-receive (is_write p) (u32 p.address)
        (if is_write p then load_le p.length p.bytes else 0) s y)

accepted-AllBytes : (r : Request) (s : Uart) → Proper r → AllBytes (accepted r s)
unfolding accepted
accepted-AllBytes (arrives b) s w = elim (Bool-cases (ltb (length s.rx_fifo) fifo_size)) [
  | inl y ↦ rw y (w, tt)
  | inr n ↦ rw n tt
]
accepted-AllBytes (bus p) s w = tt

handle-rx_fifo :
    (r : Request) (s : Uart)
    → Proper r
    → AllBytes s.rx_fifo
    → delivered r s ++ (handle r s).0.rx_fifo ≡ s.rx_fifo ++ accepted r s
unfolding delivered accepted handle push_rx
handle-rx_fifo (arrives b) s w h = elim (Bool-cases (ltb (length s.rx_fifo) fifo_size)) [
  | inl y ↦ rw y refl
  | inr n ↦ rw n (sym (append-nil s.rx_fifo))
]
handle-rx_fifo (bus p) s w h = elim (Bool-cases (not (is_write p) && u32 p.address == 0)) [
  | inr n ↦ rw (n, append-nil s.rx_fifo) (bus-rx_fifo p s n)
  | inl y ↦
      rw (y, append-nil s.rx_fifo, payload-receive p s w h y, bus-receive p s y) (receive-rx_fifo s)
]

handle-AllBytes :
    (r : Request) (s : Uart) → Proper r → AllBytes s.rx_fifo → AllBytes (handle r s).0.rx_fifo
unfolding accepted
handle-AllBytes r s w h = AllBytes-tail (delivered r s) (handle r s).0.rx_fifo (
    rw (handle-rx_fifo r s w h)
      (AllBytes-append s.rx_fifo (accepted r s) h (accepted-AllBytes r s w)))

-- From any state with bytes in the queue and over any arrivals of bytes and any transactions of
-- at least one byte, the bytes that the initiator finds at the start of its buffer after each
-- read of RBR with a byte queued, and then those still queued, are the bytes queued at first and
-- then the accepted arrivals, in order: none is lost, doubled or reordered.
pub all_delivered-rx_fifo :
    (rs : List Request) (s : Uart)
    → AllProper rs
    → AllBytes s.rx_fifo
    → all_delivered rs s ++ (run rs s).rx_fifo ≡ s.rx_fifo ++ all_accepted rs s
unfolding all_delivered all_accepted run
all_delivered-rx_fifo [] s w h = sym (append-nil s.rx_fifo)
all_delivered-rx_fifo (r ∷ rs) s w h =
    let t : Uart = (handle r s).0 in
    append_assoc (delivered r s) (all_delivered rs t) (run rs t).rx_fifo
    ∙ ap (λ q. delivered r s ++ q) (all_delivered-rx_fifo rs t w.1 (handle-AllBytes r s w.0 h))
    ∙ sym (append_assoc (delivered r s) t.rx_fifo (all_accepted rs t))
    ∙ ap (λ q. q ++ all_accepted rs t) (handle-rx_fifo r s w.0 h)
    ∙ append_assoc s.rx_fifo (accepted r s) (all_accepted rs t)

receive-room :
    (s : Uart) → length s.rx_fifo ≤ fifo_size → length (receive s).state.rx_fifo ≤ fifo_size
unfolding receive
receive-room s h = elim (List-cases s.rx_fifo) [
  | inl e ↦ rw (receive, e) h
  | inr (b, bs, e) ↦ rw (receive, e) (omega (arith, rw e at h))
]

handle-room :
    (r : Request) (s : Uart)
    → length s.rx_fifo ≤ fifo_size
    → length (handle r s).0.rx_fifo ≤ fifo_size
unfolding handle push_rx accepted
handle-room (arrives b) s h = elim (Bool-cases (ltb (length s.rx_fifo) fifo_size)) [
  | inl y ↦
      (let l : length s.rx_fifo < fifo_size = ground (arith, y) in
        rw y (omega (arith, length-append s.rx_fifo (b ∷ []))))
  | inr n ↦ rw n h
]
handle-room (bus p) s h = elim (Bool-cases (not (is_write p) && u32 p.address == 0)) [
  | inr n ↦ rw (bus-rx_fifo p s n) h
  | inl y ↦
      (let whole : length s.rx_fifo ≤ fifo_size = h in
        rw (bus-receive p s y) (receive-room s whole))
]

-- From a receive queue of 16 bytes at most, no arrivals and transactions make it longer than 16.
pub run-room :
    (rs : List Request) (s : Uart)
    → length s.rx_fifo ≤ fifo_size
    → length (run rs s).rx_fifo ≤ fifo_size
unfolding run
run-room [] s h = h
run-room (r ∷ rs) s h = run-room rs (handle r s).0 (handle-room r s h)
