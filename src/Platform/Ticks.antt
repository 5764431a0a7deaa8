-- ===== src/Platform/Ticks.antt =====
-- The timer interrupt comes: the CLINT's clock of src/irq/clint.cpp on the platform of
-- src/platform/gamingcpu_vp.cpp, and `check_pending_interrupts` of src/cpu/trap.cpp.
use virtual_so_c.Prelude.{
  ℕ, zero, suc, ◌+◌, ◌^◌, ◌<◌, List, [], ◌∷◌, ◌++◌, Bool, true, false, Option, leb, if◌then◌else◌,
  replicate, ◌≡◌, ◌≢◌, refl, sym, ap, ◌∙◌, ◌⊎◌, arith,
}
use mathlib.Core.Path.{subst}
use virtual_so_c.Prelude.Bits.{bit, bit-bit_or, bit-le-one}
use virtual_so_c.Cpu.Csr.File.{Csr, set_hw_bit, get_mip}
use virtual_so_c.Cpu.State.{CpuState}
use virtual_so_c.Cpu.Trap.Entry.{check_pending_interrupts}
use virtual_so_c.Cpu.Trap.Pending.{wanted, first_wanted, enabled_at, check_pending-first_wanted}
use virtual_so_c.Irq.Clint.Device as Clint
use virtual_so_c.Irq.Clint.Device.{timer_event}
use virtual_so_c.Irq.Clint.Lines.{timer_level}
use virtual_so_c.Platform.Interrupts.{Soc, power_on, clock_tick, happen, history, from_clint}
use virtual_so_c.Platform.Wired.{IsWired}
use virtual_so_c.Platform.Machine.{Machine, Occurrence, clint_ticks, occur, run}
use virtual_so_c.Platform.Whole.{run-IsWired}

-- What a tick leaves of the CSRs.
record IsTicked (n : ℕ) (a b : Soc) : Type 0 where
  mtime : b.clint.mtime ≡ a.clint.mtime + n
  mtimecmp : b.clint.mtimecmp ≡ a.clint.mtimecmp
  mie : b.csr.mie ≡ a.csr.mie
  mideleg : b.csr.mideleg ≡ a.csr.mideleg
  mstatus : b.csr.mstatus ≡ a.csr.mstatus

set_hw_bit-keeps :
    (b : ℕ) (v : Bool) (c : Csr)
    → ((set_hw_bit b v c).mie ≡ c.mie)
      × ((set_hw_bit b v c).mideleg ≡ c.mideleg)
      × ((set_hw_bit b v c).mstatus ≡ c.mstatus)
unfolding set_hw_bit
set_hw_bit-keeps b true c = (refl, refl, refl)
set_hw_bit-keeps b false c = (refl, refl, refl)

tick-IsTicked : (a : Soc) → a.clint.mtime + 1 < 2 ^ 64 → IsTicked 1 a (happen clock_tick a)
unfolding happen Clint.tick from_clint timer_event
tick-IsTicked a w =
    let t : Clint.Clint = (Clint.tick a.clint).state in
    let (i, d, s) = set_hw_bit-keeps 7 (leb t.mtimecmp t.mtime) a.csr in
    record { mtime = omega arith; mtimecmp = refl; mie = i; mideleg = d; mstatus = s }

ticks-IsTicked :
    (n : ℕ) (a : Soc)
    → a.clint.mtime + n < 2 ^ 64
    → IsTicked n a (history (replicate n clock_tick) a)
unfolding history
ticks-IsTicked zero a w = record {
  mtime = omega arith;
  mtimecmp = refl;
  mie = refl;
  mideleg = refl;
  mstatus = refl;
}
ticks-IsTicked (suc n) a w =
    let first : IsTicked 1 a (happen clock_tick a) = tick-IsTicked a (omega arith) in
    let rest : IsTicked n (happen clock_tick a)
        (history (replicate n clock_tick) (happen clock_tick a)) =
      ticks-IsTicked n (happen clock_tick a) (omega (arith, w, first.mtime)) in
    record {
      mtime = omega (arith, rest.mtime, first.mtime);
      mtimecmp = rest.mtimecmp ∙ first.mtimecmp;
      mie = rest.mie ∙ first.mie;
      mideleg = rest.mideleg ∙ first.mideleg;
      mstatus = rest.mstatus ∙ first.mstatus;
    }

-- An enabled timer interrupt is one to take.
wanted-timer :
    (s : CpuState)
    → bit 7 s.csr.hw_mip ≡ 1
    → bit 7 s.csr.mie ≡ 1
    → bit 7 s.csr.mideleg ≡ 0
    → enabled_at s 3 3 ≡ true
    → wanted s 7 ≡ true
unfolding get_mip
wanted-timer s h i d e =
    ground (arith, h, i, d, e, bit-bit_or 7 s.csr.sw_mip s.csr.hw_mip, bit-le-one 7 s.csr.sw_mip)

first_wanted-timer :
    (s : CpuState) → wanted s 7 ≡ true → first_wanted s (11 ∷ 3 ∷ 7 ∷ 9 ∷ 1 ∷ 5 ∷ []) ≢ 0
first_wanted-timer s h = rest-timer (wanted s 11) (wanted s 3) (wanted s 7) _ h
  where
    rest-timer :
        (a b c : Bool) (x : ℕ)
        → c ≡ true
        → (if a then 0x8000000B else if b then 0x80000003 else if c then 0x80000007 else x) ≢ 0
    rest-timer a b c x e z = ground (arith, e, z)

check_pending-timer :
    (s : CpuState)
    → s.csr.mideleg < 2 ^ 32
    → bit 7 s.csr.hw_mip ≡ 1
    → bit 7 s.csr.mie ≡ 1
    → bit 7 s.csr.mideleg ≡ 0
    → enabled_at s 3 3 ≡ true
    → check_pending_interrupts s ≢ 0
check_pending-timer s l h i d e z =
    first_wanted-timer s (wanted-timer s h i d e) (sym (check_pending-first_wanted s l) ∙ z)

module _ {P : Type 0} (on_transfer : Option (ℕ → P → ℕ × P)) where
  run-append :
      (os ks : List (Occurrence on_transfer)) (m : Machine P)
      → run on_transfer (os ++ ks) m ≡ run on_transfer ks (run on_transfer os m)
  unfolding run
  run-append [] ks m = refl
  run-append (o ∷ os) ks m = run-append os ks (occur on_transfer o m)

  run_ticks :
      (n : ℕ) (m : Machine P)
      → (run on_transfer (replicate n clint_ticks) m).soc ≡ history (replicate n clock_tick) m.soc
  unfolding run occur history
  run_ticks zero m = refl
  run_ticks (suc n) m = run_ticks n (record m { soc = happen clock_tick m.soc })

  -- Whatever has happened on the platform since power on, if `mtime` is `n` ticks from
  -- `mtimecmp`, a 64-bit word, and the machine timer interrupt is enabled in `mie` and not
  -- delegated by `mideleg`, a 32-bit word, then after `n` ticks of the CLINT a core with these
  -- CSRs takes an interrupt, if it runs below machine mode or in it with MIE set.
  pub check_pending-run :
      (os : List (Occurrence on_transfer)) (m : Machine P) (s : CpuState) (now : Soc) (n : ℕ)
      → m.soc ≡ power_on
      → (run on_transfer os m).soc ≡ now
      → now.clint.mtime + n ≡ now.clint.mtimecmp
      → now.clint.mtimecmp < 2 ^ 64
      → bit 7 now.csr.mie ≡ 1
      → bit 7 now.csr.mideleg ≡ 0
      → now.csr.mideleg < 2 ^ 32
      → (s.priv < 3) ⊎ ((s.priv ≡ 3) × (bit 3 now.csr.mstatus ≡ 1))
      → check_pending_interrupts
          (record s { csr = (run on_transfer (os ++ replicate n clint_ticks) m).soc.csr })
        ≢ 0
  check_pending-run os m s now n p r b w i d l e =
      let later : Soc = (run on_transfer (os ++ replicate n clint_ticks) m).soc in
      let same : later ≡ history (replicate n clock_tick) now =
        ap (λ x. x.soc) (run-append os (replicate n clint_ticks) m)
        ∙ run_ticks n (run on_transfer os m)
        ∙ ap (history (replicate n clock_tick)) r in
      let k : IsTicked n now later =
        subst (IsTicked n now) (sym same) (ticks-IsTicked n now (omega (arith, b, w))) in
      let wired : IsWired later = run-IsWired on_transfer (os ++ replicate n clint_ticks) m p in
      let due : timer_level later.clint ≡ true = ground (arith, k.mtime, k.mtimecmp, b) in
      let pending : bit 7 later.csr.hw_mip ≡ 1 = ground (arith, wired.mtip.level, due) in
      let status : bit 3 later.csr.mstatus ≡ bit 3 now.csr.mstatus = ap (bit 3) k.mstatus in
      check_pending-timer (record s { csr = later.csr }) (omega (arith, ap suc k.mideleg, l))
        pending (ap (bit 7) k.mie ∙ i) (ap (bit 7) k.mideleg ∙ d) (ground (arith, status, e))
