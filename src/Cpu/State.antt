-- ===== src/Cpu/State.antt =====
-- The state of the core: `CPUState` and `ExecResult` of src/cpu/execute.h and `Reservation` of
-- src/cpu/rv32a.h. A register, `int32_t` in the source, is its bit pattern below 2 ^ 32; the
-- memory interface `MemIf` is a parameter of the instructions that use it.
use virtual_so_c.Prelude.{
  ℕ, List, Bool, true, false, ◌==◌, ◌&&◌, if◌then◌else◌, ◌&&&◌, not32, get_or, set, replicate,
}
use virtual_so_c.Cpu.Csr.File.{Csr, reset}
use virtual_so_c.Cpu.Defs

pub record Reservation : Type 0 where
  pub addr : ℕ
  pub valid : Bool

-- The methods `set`, `clear` and `check`.
unfoldable pub reserve : ℕ → Reservation
reserve a = record { addr = a &&& not32 0x3; valid = true }

unfoldable pub clear : Reservation → Reservation
clear r = record r { valid = false }

unfoldable pub holds : Reservation → ℕ → Bool
holds r a = r.valid && r.addr == (a &&& not32 0x3)

pub record CpuState : Type 0 where
  pub regs : List ℕ
  pub pc : ℕ
  pub next_pc : ℕ
  pub priv : ℕ
  pub csr : Csr
  pub lr_sc : Reservation

abbrev pub initial : CpuState
initial = record {
  regs = replicate 32 0;
  pc = 0;
  next_pc = 0;
  priv = Defs.prv_m;
  csr = reset;
  lr_sc = record { addr = 0; valid = false };
}

unfoldable pub get_reg : ℕ → CpuState → ℕ
get_reg i s = if i == 0 then 0 else get_or s.regs i 0

unfoldable pub set_reg : ℕ → ℕ → CpuState → CpuState
set_reg i v s = if i == 0 then s else record s { regs = set s.regs i v }

pub record ExecResult : Type 0 where
  pub exception : Bool
  pub cause : ℕ
  pub tval : ℕ
  pub wfi : Bool
  pub fence_i : Bool
  pub sfence_vma : Bool

-- `{}`, `make_exception`, and the results with one flag set.
abbrev pub completed : ExecResult
completed = record {
  exception = false;
  cause = 0;
  tval = 0;
  wfi = false;
  fence_i = false;
  sfence_vma = false;
}

abbrev pub make_exception : ℕ → ℕ → ExecResult
make_exception cause tval = record completed { exception = true; cause = cause; tval = tval }
