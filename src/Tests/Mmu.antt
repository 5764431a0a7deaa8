-- ===== src/Tests/Mmu.antt =====
-- Translation on a concrete page table: src/cpu/mmu.cpp.
use virtual_so_c.Prelude.{
  ℕ, ◌%◌, ◌^◌, List, [], ◌∷◌, ◌==◌, if◌then◌else◌, ◌<<<◌, ◌|||◌, ◌≡◌, refl, arith, inl, inr,
  Bool-cases,
}
use virtual_so_c.Prelude.Bits
use virtual_so_c.Cpu.Mmu.Permissions.{AccessType, fetch, load, store, translated, faulted}
use virtual_so_c.Cpu.Mmu.Tlb.{Tlb}
use virtual_so_c.Cpu.Mmu.Walk.{PageMemory, flushed}
use virtual_so_c.Cpu.Mmu.Sv32.{sv32, resolve, second_level, answer}
use virtual_so_c.Cpu.Mmu.Memory.{IsMemory, SameTable, table_of}
use virtual_so_c.Cpu.Mmu.Refines.{Request, replay, replay-sv32, replay-SameTable}

-- A memory of words, each below 2 ^ 32.
abbrev words : PageMemory (ℕ → ℕ)
words = record { read = λ a w. (w a % 2 ^ 32, w); write = λ a v w b. if a == b then v else w b }

words-IsMemory : IsMemory words
words-IsMemory = record {
  read_keeps = λ a w. refl;
  read-lt = λ a w. omega arith;
  read-write = λ a b v w _ _ l. elim (Bool-cases (a == b)) [
    | inl y ↦ rw y (omega (arith, l))
    | inr n ↦ rw n refl
  ];
}

abbrev first_entry : Tlb → ℕ
first_entry [] = 0
first_entry ((k, e) ∷ t) = k

-- A table at 0x1000 with a pointer to 0x2000 and a large page, and a page of the supervisor there.
abbrev tables : ℕ → ℕ
tables a =
    if a == 0x1000
    then 2 <<< 10 ||| 0x1
    else if a == 0x1004
    then 1024 <<< 10 ||| 0x7
    else if a == 0x200c
    then 5 <<< 10 ||| 0xF
    else 0

abbrev request : AccessType → ℕ → ℕ → Request
request type priv vaddr = record { type = type; priv = priv; mstatus = 0; vaddr = vaddr }

abbrev requests : List Request
requests =
    request load 1 0x3123
    ∷ request fetch 1 0x3456
    ∷ request store 0 0x3456
    ∷ request store 1 0x3456
    ∷ request load 1 0x412345
    ∷ request fetch 1 0x412345
    ∷ request load 1 0x5000
    ∷ []

replay-sv32_example :
    (replay words first_entry 0x80000001 requests flushed tables).0
    ≡ translated 0x5123
      ∷ translated 0x5456
      ∷ faulted store
      ∷ translated 0x5456
      ∷ translated 0x412345
      ∷ faulted fetch
      ∷ faulted load
      ∷ []
unfolding sv32 resolve second_level answer Bits.bit
replay-sv32_example = replay-sv32 words words-IsMemory first_entry 0x80000001 requests tables

replay-SameTable_example :
    SameTable
      (table_of words (replay words first_entry 0x80000001 requests flushed tables).1)
      (table_of words tables)
replay-SameTable_example =
    replay-SameTable words words-IsMemory first_entry 0x80000001 requests tables
