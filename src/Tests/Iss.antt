-- ===== src/Tests/Iss.antt =====
-- The core's port and loop on concrete memories: src/cpu/iss.cpp.
use virtual_so_c.Prelude.{ℕ, ◌+◌, ◌^◌, ◌≤◌, List, [], ◌∷◌, replicate, refl, arith, inl, false}
use virtual_so_c.Mem.Host.{ram}
use virtual_so_c.Cpu.Csr.File.{reset}
use virtual_so_c.Cpu.State.{initial}
use virtual_so_c.Cpu.Execute.Legal.{IsLegal}
use virtual_so_c.Cpu.Mmu.Tlb.{Tlb}
use virtual_so_c.Cpu.Iss.Loop.{Iss, round}
use virtual_so_c.Cpu.Iss.Kept.{IsGated, round-IsGated, round-IsLegal}
use virtual_so_c.Cpu.Iss.Port.{no_dmi}
use virtual_so_c.Cpu.Iss.Direct.{IsAccess}
use virtual_so_c.Cpu.Iss.Plain.{Use, reads, writes, invalidates}

abbrev memory : List ℕ
memory = 1 ∷ 2 ∷ 3 ∷ 4 ∷ 5 ∷ 6 ∷ 7 ∷ 8 ∷ []

-- The first read fetches the pointer; the other accesses use it until it is dropped.
abbrev uses : List Use
uses =
    reads 0 4
    ∷ writes 2 0xAABBCCDD 2
    ∷ reads 2 4
    ∷ invalidates 4 5
    ∷ reads 6 4
    ∷ writes 7 9 1
    ∷ reads 7 1
    ∷ []

access : (a n : ℕ) → 1 ≤ n → n ≤ 4 → a + n ≤ 2 ^ 32 → IsAccess a n
access a n one four top = record { some_byte = one; word = four; no_wrap = top }

-- A core in user mode at an ECALL, with the machine's handler at 0x40.
abbrev at_ecall : Iss (List ℕ)
at_ecall = record {
  state = record initial { priv = 0; csr = record reset { mtvec = 0x40 } };
  world = record {
    port = no_dmi (0x73 ∷ replicate 127 0);
    tlb = [];
    mem_fault = false;
    mem_fault_cause = 0;
    mem_fault_vaddr = 0;
  };
  halted = false;
  single_step = false;
  stop_on_ebreak = false;
  insn_count = 0;
}

abbrev none_evicted : Tlb → ℕ
none_evicted t = 0

round-IsGated_example : IsGated (at_ecall.state.csr) (round ram none_evicted at_ecall).state
round-IsGated_example = round-IsGated ram none_evicted at_ecall (omega arith)

round-IsLegal_example : IsLegal (round ram none_evicted at_ecall).state
round-IsLegal_example =
    round-IsLegal ram none_evicted at_ecall (record { level = inl refl; previous = ground arith })
