-- ===== src/Platform/Machine.antt =====
-- The platform as a whole: the members of GamingCPU_VP in src/platform/gamingcpu_vp.cpp, the sockets
-- that its constructor binds to the bus, in their order, and the callbacks that it sets. The
-- peripheral on the SPI port and the card are parameters. The core is its CSR file here, and its
-- transactions are among those that happen.
use virtual_so_c.Prelude.{
  ℕ, ◌+◌, List, [], ◌∷◌, ◌++◌, get_or, Bool, true, false, Option, none, some, ◌==◌, if◌then◌else◌,
  has_bits,
}
use virtual_so_c.Tlm.{Payload}
use virtual_so_c.Bus.Router.{Targets, Dmi}
use virtual_so_c.Bus.Router as Router
use virtual_so_c.Irq.Clint.Device as Clint
use virtual_so_c.Irq.Plic.Device as Plic
use virtual_so_c.Mem.Ram as Ram
use virtual_so_c.Mem.Host as Host
use virtual_so_c.Mem.BootRom as BootRom
use virtual_so_c.Io.Uart as Uart
use virtual_so_c.Io.Gpio as Gpio
use virtual_so_c.Io.Timer as Timer
use virtual_so_c.Io.Spi as Spi
use virtual_so_c.Sd as Sd
use virtual_so_c.Dma as Dma
use virtual_so_c.Video.FbCtrl as Video
use virtual_so_c.Audio as Audio
use virtual_so_c.Platform.Interrupts.{
  Soc, power_on, happen, clint_access, plic_access, device_line, clock_tick, software_write,
}
use virtual_so_c.Platform.MemoryMap.{
  bus, irq_uart, irq_gpio, irq_timer, irq_sd, irq_dma, irq_video, irq_audio,
}

-- `started` are the events that wake a thread: of the SD controller and of the DMA engine.
pub record Machine (P : Type 0) : Type 0 where
  pub bootrom : List ℕ
  pub ram : List ℕ
  pub soc : Soc
  pub uart : Uart.Uart
  pub gpio : Gpio.Gpio
  pub timer : Timer.Timer
  pub spi : Spi.Spi P
  pub sd_ctrl : Sd.SdCtrl
  pub dma : Dma.DmaEngine
  pub fb_ctrl : Video.FbCtrl
  pub audio : Audio.AudioOut
  pub terminal : List ℕ
  pub sd_started : Bool
  pub dma_started : Bool

-- After the constructors of the members, with the contents of the two memories.
abbrev pub switched_on : {P : Type 0} → P → List ℕ → List ℕ → Machine P
switched_on peripheral rom mem = record {
  bootrom = rom;
  ram = mem;
  soc = power_on;
  uart = Uart.reset;
  gpio = Gpio.initial;
  timer = Timer.initial;
  spi = Spi.reset peripheral;
  sd_ctrl = Sd.reset;
  dma = Dma.reset;
  fb_ctrl = Video.reset;
  audio = Audio.reset;
  terminal = [];
  sd_started = false;
  dma_started = false;
}

-- `plic.set_pending(id, v)`, call by call.
unfoldable pub lines : ℕ → List Bool → Soc → Soc
lines id [] s = s
lines id (v ∷ vs) s = lines id vs (happen (device_line id v) s)

module _ {P : Type 0} where
  abbrev pub irq_line : ℕ → Bool → Machine P → Machine P
  irq_line id v m = record m { soc = happen (device_line id v) m.soc }

  -- The events of the devices that have others than their interrupt.
  unfoldable pub from_uart : List Uart.Event → Machine P → Machine P
  from_uart [] m = m
  from_uart (Uart.irq v ∷ es) m = from_uart es (irq_line irq_uart v m)
  from_uart (Uart.tx c ∷ es) m = from_uart es (record m { terminal = m.terminal ++ c ∷ [] })

  unfoldable pub from_sd : List Sd.Event → Machine P → Machine P
  from_sd [] m = m
  from_sd (Sd.irq v ∷ es) m = from_sd es (irq_line irq_sd v m)
  from_sd (Sd.start ∷ es) m = from_sd es (record m { sd_started = true })

  unfoldable pub from_dma : List Dma.Event → Machine P → Machine P
  from_dma [] m = m
  from_dma (Dma.irq v ∷ es) m = from_dma es (irq_line irq_dma v m)
  from_dma (Dma.start ∷ es) m = from_dma es (record m { dma_started = true })

  unfoldable pub from_video : List Video.Event → Machine P → Machine P
  from_video [] m = m
  from_video (Video.irq v ∷ es) m = from_video es (irq_line irq_video v m)
  from_video (Video.vsync a b c ∷ es) m = from_video es m

module _ {P : Type 0} (on_transfer : Option (ℕ → P → ℕ × P)) where
  abbrev pub Socket : Type 0
  Socket = Machine P → Payload → Machine P × Payload

  -- The target sockets.
  unfoldable pub bootrom_tsock : Socket
  bootrom_tsock m p = let r = BootRom.b_transport m.bootrom p in (record m { bootrom = r.0 }, r.1)

  unfoldable pub ram_tsock : Socket
  ram_tsock m p = let r = Ram.b_transport m.ram p in (record m { ram = r.0 }, r.1)

  unfoldable pub clint_tsock : Socket
  clint_tsock m p =
      (record m { soc = happen (clint_access p) m.soc }, (Clint.b_transport m.soc.clint p).payload)

  unfoldable pub plic_tsock : Socket
  plic_tsock m p =
      (record m { soc = happen (plic_access p) m.soc }, (Plic.b_transport m.soc.plic p).payload)

  unfoldable pub uart_tsock : Socket
  uart_tsock m p =
      let t = Uart.b_transport m.uart p in
      (from_uart t.events (record m { uart = t.state }), t.payload)

  unfoldable pub gpio_tsock : Socket
  gpio_tsock m p =
      let t = Gpio.b_transport m.gpio p in
      (record m { gpio = t.state; soc = lines irq_gpio t.events m.soc }, t.payload)

  unfoldable pub timer_tsock : Socket
  timer_tsock m p =
      let t = Timer.b_transport m.timer p in
      (record m { timer = t.state; soc = lines irq_timer t.events m.soc }, t.payload)

  unfoldable pub spi_tsock : Socket
  spi_tsock m p =
      let t = Spi.b_transport on_transfer m.spi p in (record m { spi = t.state }, t.payload)

  unfoldable pub sd_tsock : Socket
  sd_tsock m p =
      let t = Sd.b_transport m.sd_ctrl p in
      (from_sd t.events (record m { sd_ctrl = t.state }), t.payload)

  unfoldable pub dma_tsock : Socket
  dma_tsock m p =
      let t = Dma.b_transport m.dma p in (from_dma t.events (record m { dma = t.state }), t.payload)

  unfoldable pub video_tsock : Socket
  video_tsock m p =
      let t = Video.b_transport m.fb_ctrl p in
      (from_video t.events (record m { fb_ctrl = t.state }), t.payload)

  unfoldable pub audio_tsock : Socket
  audio_tsock m p =
      let t = Audio.b_transport m.audio p in
      (record m { audio = t.state; soc = lines irq_audio t.events m.soc }, t.payload)

  -- The calls of `bus.isock.bind`, in order.
  abbrev pub sockets : List Socket
  sockets =
      bootrom_tsock ∷ ram_tsock ∷ clint_tsock ∷ plic_tsock ∷ uart_tsock ∷ gpio_tsock ∷ timer_tsock
      ∷ spi_tsock ∷ sd_tsock ∷ dma_tsock ∷ video_tsock ∷ audio_tsock ∷ []

  -- The bus has no other sockets: the last argument stands for none.
  unfoldable pub at_socket : ℕ → Socket
  at_socket i = get_or sockets i (λ m p. (m, p))

  -- The RAM and the boot ROM grant direct access.
  unfoldable pub direct : ℕ → Machine P → ℕ → Option Dmi
  direct i m a =
      if i == 0
      then BootRom.get_direct_mem_ptr m.bootrom a
      else if i == 1
      then Host.get_direct_mem_ptr m.ram a
      else none

  abbrev pub targets : Targets (Machine P)
  targets = record { b_transport = at_socket; get_direct_mem_ptr = direct }

  -- A transaction of a master: of the core, of the DMA engine or of the SD controller.
  unfoldable pub transact : Machine P → Payload → Machine P × Payload
  transact m p = Router.b_transport targets bus m p

  -- The threads of the DMA engine and of the SD controller, once they are woken. The fuel is
  -- enough (`Dma.Ends`); `fresh` is what the engine's buffer holds, and `card` what the card reads.
  unfoldable pub dma_thread : List ℕ → Machine P → Machine P
  dma_thread fresh m =
      let s = m.dma in
      let busy = record m { dma = record s { status = 1 }; dma_started = false } in
      elim (Dma.burst transact fresh s.byte_count s.byte_count s.src_addr s.dst_addr busy) [
        | none ↦ m
        | some r ↦
            (let t = r.0 in
              let done = record t { dma = record (t.dma) { status = if r.1 then 2 else 6 } } in
              if has_bits t.dma.ctrl 2 then irq_line irq_dma true done else done)
      ]

  unfoldable pub transfer_thread : (ℕ → Option (List ℕ)) → Machine P → Machine P
  transfer_thread card m =
      let s = m.sd_ctrl in
      let busy = record m { sd_ctrl = record s { status = 1 }; sd_started = false } in
      let r =
        Sd.read_blocks transact card (if s.cmd == Sd.cmd18 then s.burst_len else 1) s.arg
          s.data_addr busy in
      let t = r.0 in
      irq_line irq_sd true (record t {
        sd_ctrl = record (t.sd_ctrl) {
          status = if r.1 then Sd.status_done else Sd.status_done + Sd.status_error;
        };
      })

  -- What happens on the platform.
  pub data Occurrence : Type 0 where
    transaction : Payload → Occurrence
    clint_ticks timer_ticks : Occurrence
    byte_arrives : ℕ → Occurrence
    pins_change : ℕ → Occurrence
    csr_write : (addr priv val : ℕ) → Occurrence
    dma_runs : List ℕ → Occurrence
    sd_runs : (ℕ → Option (List ℕ)) → Occurrence

  unfoldable pub occur : Occurrence → Machine P → Machine P
  occur (transaction p) m = (transact m p).0
  occur clint_ticks m = record m { soc = happen clock_tick m.soc }
  occur timer_ticks m =
      let t = Timer.tick m.timer in record m { timer = t.0; soc = lines irq_timer t.1 m.soc }
  occur (byte_arrives byte) m =
      let t = Uart.push_rx byte m.uart in from_uart t.1 (record m { uart = t.0 })
  occur (pins_change pins) m =
      let t = Gpio.set_input pins m.gpio in record m { gpio = t.0; soc = lines irq_gpio t.1 m.soc }
  occur (csr_write addr priv val) m = record m { soc = happen (software_write addr priv val) m.soc }
  occur (dma_runs fresh) m = dma_thread fresh m
  occur (sd_runs card) m = transfer_thread card m

  unfoldable pub run : List Occurrence → Machine P → Machine P
  run [] m = m
  run (o ∷ os) m = run os (occur o m)
