-- ===== src/Platform/Interrupts.antt =====
-- The interrupt controllers wired to the core: the callbacks that the constructor of GamingCPU_VP in
-- src/platform/gamingcpu_vp.cpp sets, and the events that the parts around them send.
use virtual_so_c.Prelude.{ℕ, List, [], ◌∷◌, Bool}
use virtual_so_c.Tlm.{Payload}
use virtual_so_c.Cpu.Csr.File.{Csr, set_hw_bit, reset}
use virtual_so_c.Cpu.Csr.Access.{write}
use virtual_so_c.Irq.Clint.Device as Clint
use virtual_so_c.Irq.Clint.Device.{Clint, Event, timer_irq, sw_irq}
use virtual_so_c.Irq.Plic.Device as Plic
use virtual_so_c.Irq.Plic.Device.{Plic, set_pending}

pub record Soc : Type 0 where
  pub clint : Clint
  pub plic : Plic
  pub csr : Csr

abbrev pub power_on : Soc
power_on = record { clint = Clint.initial; plic = Plic.initial; csr = reset }

-- `clint.on_timer_irq` and `clint.on_sw_irq`, call by call.
unfoldable pub from_clint : List Event → Csr → Csr
from_clint [] c = c
from_clint (timer_irq v ∷ es) c = from_clint es (set_hw_bit 7 v c)
from_clint (sw_irq v ∷ es) c = from_clint es (set_hw_bit 3 v c)

-- `plic.on_external_irq`.
unfoldable pub from_plic : List Bool → Csr → Csr
from_plic [] c = c
from_plic (v ∷ es) c = from_plic es (set_hw_bit 11 v c)

-- What happens to this part of the platform: a tick of the CLINT, a transaction on either
-- controller, a device's interrupt line (`plic.set_pending`), and a CSR write by software.
pub data Happening : Type 0 where
  clock_tick : Happening
  clint_access : Payload → Happening
  plic_access : Payload → Happening
  device_line : ℕ → Bool → Happening
  software_write : ℕ → ℕ → ℕ → Happening

unfoldable pub happen : Happening → Soc → Soc
happen clock_tick s =
    let a = Clint.tick s.clint in record s { clint = a.state; csr = from_clint a.events s.csr }
happen (clint_access p) s =
    let t = Clint.b_transport s.clint p in
    record s { clint = t.state; csr = from_clint t.events s.csr }
happen (plic_access p) s =
    let t = Plic.b_transport s.plic p in record s { plic = t.state; csr = from_plic t.events s.csr }
happen (device_line id on) s =
    let t = set_pending id on s.plic in record s { plic = t.0; csr = from_plic t.1 s.csr }
happen (software_write addr priv val) s = record s { csr = (write addr priv val s.csr).file }

unfoldable pub history : List Happening → Soc → Soc
history [] s = s
history (h ∷ hs) s = history hs (happen h s)
