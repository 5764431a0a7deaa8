-- ===== src/Platform/Wired.antt =====
-- The interrupt bits that the core sees are those of the controllers.
use virtual_so_c.Cpu.Csr.File.{get_mip}
use virtual_so_c.Prelude.{List, [], ◌∷◌, Bool, refl, arith, inl, inr, ◌==◌, ◌≡◌}
use virtual_so_c.Cpu.Csr.Lines.{
  IsDriven, set_hw_bit-IsDriven, set_hw_bit-other, write-IsDriven, bit-get_mip,
}
use virtual_so_c.Irq.Clint.Device as Clint
use virtual_so_c.Irq.Clint.Device.{Clint, Event, timer_irq, sw_irq, timer_event}
use virtual_so_c.Irq.Clint.Lines as ClintLines
use virtual_so_c.Prelude.Bits.{bit}
use virtual_so_c.Irq.Plic.Device as Plic
use virtual_so_c.Irq.Plic.Device.{Plic, evaluate_irq, set_pending, prio_loop, wins, actionable}
use virtual_so_c.Irq.Plic.Lines as PlicLines
use virtual_so_c.Platform.Interrupts.{
  Soc, power_on, from_clint, from_plic, Happening, clock_tick, clint_access, plic_access,
  device_line, software_write, happen, history,
}

-- MTIP, MSIP and MEIP are what the controllers' registers call for.
pub record IsWired (s : Soc) : Type 0 where
  pub mtip : IsDriven 7 (ClintLines.timer_level s.clint) s.csr
  pub msip : IsDriven 3 (ClintLines.sw_level s.clint) s.csr
  pub meip : IsDriven 11 (evaluate_irq s.plic) s.csr

-- So the core sees them in `mip`.
pub record IsShown (s : Soc) : Type 0 where
  pub mtip : (bit 7 (get_mip s.csr) == 1) ≡ ClintLines.timer_level s.clint
  pub msip : (bit 3 (get_mip s.csr) == 1) ≡ ClintLines.sw_level s.clint
  pub meip : (bit 11 (get_mip s.csr) == 1) ≡ evaluate_irq s.plic

pub IsShown-of_IsWired : (s : Soc) → IsWired s → IsShown s
IsShown-of_IsWired s w = record {
  mtip = bit-get_mip 7 (ClintLines.timer_level s.clint) s.csr w.mtip;
  msip = bit-get_mip 3 (ClintLines.sw_level s.clint) s.csr w.msip;
  meip = bit-get_mip 11 (evaluate_irq s.plic) s.csr w.meip;
}

from_plic-IsWired :
    (s : Soc) (t : Plic) (es : List Bool)
    → PlicLines.Reported s.plic t es
    → IsWired s
    → IsWired (record s { plic = t; csr = from_plic es s.csr })
unfolding from_plic
from_plic-IsWired s t es (inl (e, k)) w =
    rw e (record { mtip = w.mtip; msip = w.msip; meip = rw k w.meip })
from_plic-IsWired s t es (inr e) w =
    let v : Bool = evaluate_irq t in
    rw e (record {
      mtip =
          set_hw_bit-other 7 11 v (ClintLines.timer_level s.clint) s.csr (omega arith) (omega arith)
            (ground arith) w.mtip;
      msip =
          set_hw_bit-other 3 11 v (ClintLines.sw_level s.clint) s.csr (omega arith) (omega arith)
            (ground arith) w.msip;
      meip = set_hw_bit-IsDriven 11 v (evaluate_irq s.plic) s.csr (omega arith) w.meip;
    })

from_clint-IsWired :
    (s : Soc) (t : Clint) (es : List Event)
    → ClintLines.Reported s.clint t es
    → IsWired s
    → IsWired (record s { clint = t; csr = from_clint es s.csr })
unfolding from_clint
from_clint-IsWired s t es (inl (e, k, l)) w =
    rw e (record { mtip = rw k w.mtip; msip = rw l w.msip; meip = w.meip })
from_clint-IsWired s t es (inr (inl (e, l))) w =
    let v : Bool = ClintLines.timer_level t in
    rw e (record {
      mtip = set_hw_bit-IsDriven 7 v (ClintLines.timer_level s.clint) s.csr (omega arith) w.mtip;
      msip = rw l (
          set_hw_bit-other 3 7 v (ClintLines.sw_level s.clint) s.csr (omega arith) (omega arith)
            (ground arith) w.msip);
      meip =
          set_hw_bit-other 11 7 v (evaluate_irq s.plic) s.csr (omega arith) (omega arith)
            (ground arith) w.meip;
    })
from_clint-IsWired s t es (inr (inr (e, k))) w =
    let v : Bool = ClintLines.sw_level t in
    rw e (record {
      mtip = rw k (
          set_hw_bit-other 7 3 v (ClintLines.timer_level s.clint) s.csr (omega arith) (omega arith)
            (ground arith) w.mtip);
      msip = set_hw_bit-IsDriven 3 v (ClintLines.sw_level s.clint) s.csr (omega arith) w.msip;
      meip =
          set_hw_bit-other 11 3 v (evaluate_irq s.plic) s.csr (omega arith) (omega arith)
            (ground arith) w.meip;
    })

happen-IsWired : (h : Happening) (s : Soc) → IsWired s → IsWired (happen h s)
unfolding happen
happen-IsWired clock_tick s w =
    from_clint-IsWired s (Clint.tick s.clint).state (Clint.tick s.clint).events
      (ClintLines.tick-Reported s.clint) w
happen-IsWired (clint_access p) s w =
    from_clint-IsWired s (Clint.b_transport s.clint p).state (Clint.b_transport s.clint p).events
      (ClintLines.b_transport-Reported s.clint p) w
happen-IsWired (plic_access p) s w =
    from_plic-IsWired s (Plic.b_transport s.plic p).state (Plic.b_transport s.plic p).events
      (PlicLines.b_transport-Reported s.plic p) w
happen-IsWired (device_line id on) s w =
    from_plic-IsWired s (set_pending id on s.plic).0 (set_pending id on s.plic).1
      (PlicLines.set_pending-Reported id on s.plic) w
happen-IsWired (software_write addr priv val) s w = record {
  mtip =
      write-IsDriven 7 (ClintLines.timer_level s.clint) addr priv val s.csr (ground arith) w.mtip;
  msip = write-IsDriven 3 (ClintLines.sw_level s.clint) addr priv val s.csr (ground arith) w.msip;
  meip = write-IsDriven 11 (evaluate_irq s.plic) addr priv val s.csr (ground arith) w.meip;
}

history-keeps : (hs : List Happening) (s : Soc) → IsWired s → IsWired (history hs s)
unfolding history
history-keeps [] s w = w
history-keeps (h ∷ hs) s w = history-keeps hs (happen h s) (happen-IsWired h s w)

power_on-IsWired : IsWired power_on
unfolding bit evaluate_irq prio_loop wins actionable
power_on-IsWired = record {
  mtip = record { level = refl; lines_lt = ground arith; software = refl };
  msip = record { level = refl; lines_lt = ground arith; software = refl };
  meip = record { level = refl; lines_lt = ground arith; software = refl };
}

-- From power on, whatever ticks, transactions on the interrupt controllers, device interrupts and
-- CSR writes at any privilege follow in any order: MTIP is pending exactly when `mtime` has
-- reached `mtimecmp`, MSIP when `msip` is set, and MEIP when the PLIC's evaluation finds an
-- interrupt to deliver.
pub history-IsWired : (hs : List Happening) → IsWired (history hs power_on)
history-IsWired hs = history-keeps hs power_on power_on-IsWired
