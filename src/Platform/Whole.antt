-- ===== src/Platform/Whole.antt =====
-- The interrupt bits of the core on the whole platform: src/platform/gamingcpu_vp.cpp.
use virtual_so_c.Prelude.{
  ℕ, zero, suc, List, [], ◌∷◌, ◌++◌, get_or, Bool, true, false, Option, ◌==◌, if◌then◌else◌,
  has_bits, ◌≡◌, refl, sym, ap, ◌∙◌, inl, inr, Option-cases, if-ind,
}
use mathlib.Core.Path.{subst}
use virtual_so_c.Tlm.{Payload}
use virtual_so_c.Bus.Delivery.{b_transport-rel}
use virtual_so_c.Io.Uart as Uart
use virtual_so_c.Io.Gpio as Gpio
use virtual_so_c.Io.Timer as Timer
use virtual_so_c.Sd as Sd
use virtual_so_c.Dma as Dma
use virtual_so_c.Video.FbCtrl as Video
use virtual_so_c.Platform.Interrupts.{
  Soc, power_on, Happening, clock_tick, clint_access, plic_access, device_line, software_write,
  happen, history,
}
use virtual_so_c.Platform.MemoryMap.{
  bus, irq_uart, irq_gpio, irq_timer, irq_sd, irq_dma, irq_video, irq_audio,
}
use virtual_so_c.Platform.Wired.{IsWired, history-IsWired, IsShown, IsShown-of_IsWired}
use virtual_so_c.Platform.Masters.{burst-rel, read_blocks-rel}
use virtual_so_c.Platform.Machine.{
  Machine, lines, from_uart, from_sd, from_dma, from_video, Socket, bootrom_tsock, ram_tsock,
  clint_tsock, plic_tsock, uart_tsock, gpio_tsock, timer_tsock, spi_tsock, sd_tsock, dma_tsock,
  video_tsock, audio_tsock, sockets, at_socket, targets, transact, dma_thread, transfer_thread,
  irq_line, Occurrence, transaction, clint_ticks, timer_ticks, byte_arrives, pins_change, csr_write,
  dma_runs, sd_runs, occur, run,
}

-- One state of the interrupt controllers and the CSRs follows another by things that happen to them.
abbrev pub Leads : Soc → Soc → Type 0
Leads a b = (hs : List Happening) × (b ≡ history hs a)

stays : (a : Soc) → Leads a a
unfolding history
stays a = ([], refl)

history-append :
    (hs ks : List Happening) (a : Soc) → history (hs ++ ks) a ≡ history ks (history hs a)
unfolding history
history-append [] ks a = refl
history-append (h ∷ hs) ks a = history-append hs ks (happen h a)

then_on : (a b c : Soc) → Leads a b → Leads b c → Leads a c
then_on a b c (hs, e) (ks, f) = (hs ++ ks, f ∙ ap (history ks) e ∙ sym (history-append hs ks a))

once : (h : Happening) (a : Soc) → Leads a (happen h a)
unfolding history
once h a = (h ∷ [], refl)

lines-Leads : (id : ℕ) (vs : List Bool) (a : Soc) → Leads a (lines id vs a)
unfolding lines
lines-Leads id [] a = stays a
lines-Leads id (v ∷ vs) a =
    let b : Soc = happen (device_line id v) a in
    then_on a b (lines id vs b) (once (device_line id v) a) (lines-Leads id vs b)

module _ {P : Type 0} where
  abbrev Moves : Machine P → Machine P → Type 0
  Moves m n = Leads m.soc n.soc

  from_uart-Moves : (es : List Uart.Event) (m : Machine P) → Moves m (from_uart es m)
  unfolding from_uart
  from_uart-Moves [] m = stays m.soc
  from_uart-Moves (Uart.irq v ∷ es) m =
      then_on m.soc _ _ (once (device_line irq_uart v) m.soc)
        (from_uart-Moves es (irq_line irq_uart v m))
  from_uart-Moves (Uart.tx c ∷ es) m =
      from_uart-Moves es (record m { terminal = m.terminal ++ c ∷ [] })

  from_sd-Moves : (es : List Sd.Event) (m : Machine P) → Moves m (from_sd es m)
  unfolding from_sd
  from_sd-Moves [] m = stays m.soc
  from_sd-Moves (Sd.irq v ∷ es) m =
      then_on m.soc _ _ (once (device_line irq_sd v) m.soc) (from_sd-Moves es (irq_line irq_sd v m))
  from_sd-Moves (Sd.start ∷ es) m = from_sd-Moves es (record m { sd_started = true })

  from_dma-Moves : (es : List Dma.Event) (m : Machine P) → Moves m (from_dma es m)
  unfolding from_dma
  from_dma-Moves [] m = stays m.soc
  from_dma-Moves (Dma.irq v ∷ es) m =
      then_on m.soc _ _ (once (device_line irq_dma v) m.soc)
        (from_dma-Moves es (irq_line irq_dma v m))
  from_dma-Moves (Dma.start ∷ es) m = from_dma-Moves es (record m { dma_started = true })

  from_video-Moves : (es : List Video.Event) (m : Machine P) → Moves m (from_video es m)
  unfolding from_video
  from_video-Moves [] m = stays m.soc
  from_video-Moves (Video.irq v ∷ es) m =
      then_on m.soc _ _ (once (device_line irq_video v) m.soc)
        (from_video-Moves es (irq_line irq_video v m))
  from_video-Moves (Video.vsync a b c ∷ es) m = from_video-Moves es m

module _ {P : Type 0} (on_transfer : Option (ℕ → P → ℕ × P)) where
  abbrev KeepsMoves : Socket on_transfer → Type 0
  KeepsMoves f = (m : Machine P) (p : Payload) → Moves m (f m p).0

  unfoldable AllMove : List (Socket on_transfer) → Type 0
  AllMove [] = Unit
  AllMove (f ∷ fs) = KeepsMoves f × AllMove fs

  get_or-Moves :
      (fs : List (Socket on_transfer)) (i : ℕ)
      → AllMove fs
      → KeepsMoves (get_or fs i (λ m p. (m, p)))
  unfolding AllMove
  get_or-Moves [] i k m p = stays m.soc
  get_or-Moves (f ∷ fs) zero (k, ks) m p = k m p
  get_or-Moves (f ∷ fs) (suc i) (k, ks) m p = get_or-Moves fs i ks m p

  sockets-Moves : AllMove (sockets on_transfer)
  unfolding AllMove bootrom_tsock ram_tsock clint_tsock plic_tsock uart_tsock gpio_tsock timer_tsock
      spi_tsock sd_tsock dma_tsock video_tsock audio_tsock
  sockets-Moves = (
    λ m p. stays m.soc,
    (
      λ m p. stays m.soc,
      (
        λ m p. once (clint_access p) m.soc,
        (
          λ m p. once (plic_access p) m.soc,
          (
            λ m p. from_uart-Moves _ _,
            (
              λ m p. lines-Leads irq_gpio _ m.soc,
              (
                λ m p. lines-Leads irq_timer _ m.soc,
                (
                  λ m p. stays m.soc,
                  (
                    λ m p. from_sd-Moves _ _,
                    (
                      λ m p. from_dma-Moves _ _,
                      (λ m p. from_video-Moves _ _, (λ m p. lines-Leads irq_audio _ m.soc, tt)),
                    ),
                  ),
                ),
              ),
            ),
          ),
        ),
      ),
    ),
  )

  transact-Moves : (m : Machine P) (p : Payload) → Moves m (transact on_transfer m p).0
  unfolding transact at_socket
  transact-Moves m p =
      b_transport-rel (targets on_transfer) Moves bus m p (stays m.soc)
        λ i q. get_or-Moves (sockets on_transfer) i sockets-Moves m q

  chained : (a b c : Machine P) → Moves a b → Moves b c → Moves a c
  chained a b c = then_on a.soc b.soc c.soc

  dma_thread-Moves : (fresh : List ℕ) (m : Machine P) → Moves m (dma_thread on_transfer fresh m)
  unfolding dma_thread
  dma_thread-Moves fresh m =
      let s = m.dma in
      let busy : Machine P = record m { dma = record s { status = 1 }; dma_started = false } in
      let moved =
        Dma.burst (transact on_transfer) fresh s.byte_count s.byte_count s.src_addr s.dst_addr
          busy in
      elim (Option-cases moved) [
        | inl e ↦ rw (dma_thread, e) (stays m.soc)
        | inr (r, e) ↦
            (let t : Machine P = r.0 in
              let done : Machine P = record t {
                dma = record (t.dma) { status = if r.1 then 2 else 6 };
              } in
              let k : Moves m t =
                burst-rel (transact on_transfer) Moves (λ a. stays a.soc) chained transact-Moves
                  fresh s.byte_count s.byte_count s.src_addr s.dst_addr busy r e in
              rw (dma_thread, e)
                (if-ind (Moves m) (has_bits t.dma.ctrl 2) (irq_line irq_dma true done) done
                  (then_on m.soc t.soc _ k (once (device_line irq_dma true) t.soc)) k))
      ]

  transfer_thread-Moves :
      (card : ℕ → Option (List ℕ)) (m : Machine P) → Moves m (transfer_thread on_transfer card m)
  unfolding transfer_thread
  transfer_thread-Moves card m =
      let s = m.sd_ctrl in
      let busy : Machine P = record m { sd_ctrl = record s { status = 1 }; sd_started = false } in
      let blocks : ℕ = if s.cmd == Sd.cmd18 then s.burst_len else 1 in
      let r = Sd.read_blocks (transact on_transfer) card blocks s.arg s.data_addr busy in
      then_on m.soc r.0.soc _
        (read_blocks-rel (transact on_transfer) Moves (λ a. stays a.soc) chained transact-Moves card
          blocks s.arg s.data_addr busy)
        (once (device_line irq_sd true) r.0.soc)

  occur-Moves : (o : Occurrence on_transfer) (m : Machine P) → Moves m (occur on_transfer o m)
  unfolding occur
  occur-Moves (transaction p) m = transact-Moves m p
  occur-Moves clint_ticks m = once clock_tick m.soc
  occur-Moves timer_ticks m = lines-Leads irq_timer (Timer.tick m.timer).1 m.soc
  occur-Moves (byte_arrives byte) m =
      let t = Uart.push_rx byte m.uart in from_uart-Moves t.1 (record m { uart = t.0 })
  occur-Moves (pins_change pins) m = lines-Leads irq_gpio (Gpio.set_input pins m.gpio).1 m.soc
  occur-Moves (csr_write addr priv val) m = once (software_write addr priv val) m.soc
  occur-Moves (dma_runs fresh) m = dma_thread-Moves fresh m
  occur-Moves (sd_runs card) m = transfer_thread-Moves card m

  run-Moves : (os : List (Occurrence on_transfer)) (m : Machine P) → Moves m (run on_transfer os m)
  unfolding run
  run-Moves [] m = stays m.soc
  run-Moves (o ∷ os) m =
      chained m (occur on_transfer o m) (run on_transfer os (occur on_transfer o m))
        (occur-Moves o m) (run-Moves os (occur on_transfer o m))

  pub run-IsWired :
      (os : List (Occurrence on_transfer)) (m : Machine P)
      → m.soc ≡ power_on
      → IsWired (run on_transfer os m).soc
  run-IsWired os m h =
      let (hs, e) = run-Moves os m in
      subst IsWired (sym (e ∙ ap (history hs) h)) (history-IsWired hs)

  -- From any state of the memories and devices with the interrupt controllers and the CSRs as at
  -- power on, whatever happens on the platform and in any order (transactions of any master at
  -- any address of the bus, clock ticks, received bytes, changes of pins, transfers of the DMA
  -- engine and of the SD controller with any card, CSR writes at any privilege): in `mip` as the
  -- core sees it, MTIP is pending exactly when `mtime` has reached `mtimecmp`, MSIP when `msip`
  -- is set, and MEIP when the PLIC's evaluation finds an interrupt to deliver.
  pub run-IsShown :
      (os : List (Occurrence on_transfer)) (m : Machine P)
      → m.soc ≡ power_on
      → IsShown (run on_transfer os m).soc
  run-IsShown os m h = IsShown-of_IsWired (run on_transfer os m).soc (run-IsWired os m h)
