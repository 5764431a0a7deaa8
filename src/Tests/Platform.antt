-- ===== src/Tests/Platform.antt =====
-- The platform on concrete transactions: src/platform/gamingcpu_vp.cpp, src/sd/sd_card_model.cpp.
use virtual_so_c.Prelude.{
  ℕ, ◌+◌, List, [], ◌∷◌, ◌++◌, true, Option, none, some, replicate, get_or, ◌<◌, ◌≤◌, ◌≡◌, ◌≢◌, inl,
  refl, arith, ◌⊎◌,
}
use virtual_so_c.Tlm.{Command, Response, Payload}
use virtual_so_c.Mem.Ram.{transfer, put, fetch, b_transport}
use virtual_so_c.Sd.{read_blocks}
use virtual_so_c.Sd.Card.{
  open_image, read_block, opened, read_blocks-fetch, read_all, blocks_until_short,
  read_all-blocks_until_short,
}
use virtual_so_c.Platform.MemoryMap.{ram_base}
use virtual_so_c.Prelude.Bits.{bit}
use virtual_so_c.Prelude.Halves.{set_low, set_high}
use virtual_so_c.Tlm.{load_le}
use virtual_so_c.Bus.Map.{decode, map_all, map_range, any_overlap, sort, insert}
use virtual_so_c.Bus.Router as Router
use virtual_so_c.Irq.Clint.Device as Clint
use virtual_so_c.Cpu.Csr.File.{set_hw_bit, priv_ok, is_read_only, csr_name}
use virtual_so_c.Cpu.Csr.Access.{write, write_case}
use virtual_so_c.Platform.Interrupts.{Soc, happen, from_clint}
use virtual_so_c.Platform.Boot.{attach_card, card_blocks}
use virtual_so_c.Platform.Wired.{IsShown}
use virtual_so_c.Platform.Machine.{
  Machine, at_socket, clint_tsock, occur, switched_on, transact, Occurrence, transaction,
  clint_ticks, timer_ticks, byte_arrives, pins_change, csr_write, dma_runs, sd_runs, run,
}
use virtual_so_c.Platform.Whole.{run-IsShown}
use virtual_so_c.Cpu.State.{initial}
use virtual_so_c.Cpu.Trap.Entry.{check_pending_interrupts}
use virtual_so_c.Platform.Ticks.{check_pending-run}
use virtual_so_c.Platform.Routed.{transact-transact}

abbrev no_peripheral : Option (ℕ → ℕ → ℕ × ℕ)
no_peripheral = none

abbrev machine : Machine ℕ
machine = switched_on 0 (replicate 4 0) (replicate 16 7)

abbrev word_to : ℕ → ℕ → Payload
word_to at b = transfer Command.write_command at 4 (b ∷ 0 ∷ 0 ∷ 0 ∷ [])

-- The UART's source is enabled, the UART is to interrupt on a byte, and a byte arrives; the DMA engine
-- and the SD controller run.
abbrev busy_day : List (Occurrence no_peripheral)
busy_day =
    transaction (word_to 0x0C000004 1)
    ∷ transaction (word_to 0x0C002000 2)
    ∷ transaction (transfer Command.write_command 0x10000001 1 (1 ∷ []))
    ∷ byte_arrives 104
    ∷ clint_ticks
    ∷ timer_ticks
    ∷ pins_change 5
    ∷ csr_write 0x344 3 0xFFFFFFFF
    ∷ transaction (word_to 0x10005008 4)
    ∷ dma_runs []
    ∷ sd_runs (λ k. none)
    ∷ []

run-IsShown_example : IsShown (run no_peripheral busy_day machine).soc
run-IsShown_example = run-IsShown no_peripheral busy_day machine refl

transact-transact_example :
    let w =
      transact no_peripheral machine
        (transfer Command.write_command 0x80000002 3 (1 ∷ 2 ∷ 3 ∷ [])) in
    let b =
      transact no_peripheral w.0
        (transfer Command.read_command 0x80000002 3 (9 ∷ 9 ∷ 9 ∷ 9 ∷ [])) in
    (b.1.bytes ≡ 1 ∷ 2 ∷ 3 ∷ 9 ∷ [])
    × (w.1.status ≡ Response.ok_response)
    × (b.1.status ≡ Response.ok_response)
    × ((mem : List ℕ) × (b.0 ≡ record machine { ram = mem })
        × ((j : ℕ)
            → (j + ram_base < 0x80000002) ⊎ (0x80000002 + 3 ≤ j + ram_base)
            → get_or mem j 0 ≡ get_or machine.ram j 0))
transact-transact_example =
    transact-transact no_peripheral machine (1 ∷ 2 ∷ 3 ∷ []) (9 ∷ 9 ∷ 9 ∷ 9 ∷ []) 0x80000002 3
      (omega arith) (omega arith) (omega arith) (omega arith) (omega arith)

-- A card of two blocks and a bit.
abbrev image : List ℕ
image = replicate 512 1 ++ (replicate 512 2 ++ (3 ∷ []))

read_blocks-fetch_example :
    read_blocks b_transport (λ k. (read_block k (opened image)).0) 2 0 16 (replicate 1100 0)
    ≡ (put (replicate 1100 0) 16 (fetch image 0 1024), true)
read_blocks-fetch_example =
    read_blocks-fetch image 2 0 16 (replicate 1100 0) (omega arith) (omega arith) (omega arith)
      (omega arith)

-- Block 2 is cut short.
read_all-blocks_until_short_example :
    read_all (1 ∷ 0 ∷ 2 ∷ 0 ∷ []) (opened image)
    ≡ some (replicate 512 2) ∷ some (replicate 512 1) ∷ none ∷ none ∷ []
unfolding blocks_until_short
read_all-blocks_until_short_example = read_all-blocks_until_short image (1 ∷ 0 ∷ 2 ∷ 0 ∷ [])

-- Software sets the timer to go off at 3 and enables its interrupt; a core in user mode has waited one
-- tick.
abbrev armed : List (Occurrence no_peripheral)
armed =
    transaction (word_to 0x02004000 3)
    ∷ transaction (word_to 0x02004004 0)
    ∷ csr_write 0x304 3 0x80
    ∷ clint_ticks
    ∷ []

abbrev armed_soc : Soc
armed_soc = (run no_peripheral armed machine).soc

armed_values :
    (armed_soc.clint.mtime ≡ 1)
    × (armed_soc.clint.mtimecmp ≡ 3)
    × (armed_soc.csr.mie ≡ 0x80)
    × (armed_soc.csr.mideleg ≡ 0)
unfolding run occur transact at_socket clint_tsock happen from_clint Clint.tick Clint.access
    Clint.b_transport Clint.timer_event Router.b_transport decode map_all map_range any_overlap sort
    insert load_le set_low set_high write set_hw_bit priv_ok is_read_only csr_name write_case
armed_values = (refl, refl, refl, refl)

check_pending-run_example :
    check_pending_interrupts (record initial {
      priv = 0;
      csr = (run no_peripheral (armed ++ replicate 2 clint_ticks) machine).soc.csr;
    })
    ≢ 0
unfolding bit
check_pending-run_example =
    check_pending-run no_peripheral armed machine (record initial { priv = 0 }) armed_soc 2 refl
      refl (omega (arith, armed_values.0, armed_values.1)) (omega (arith, armed_values.1))
      (rw armed_values.2 refl) (rw armed_values.3 refl) (omega (arith, armed_values.3))
      (inl (omega arith))

-- Two blocks and a bit on the card that the constructor attaches.
card_attached : card_blocks (attach_card (some (some image))) 1 ≡ some (replicate 512 2)
unfolding card_blocks attach_card open_image read_block
card_attached = refl

card_missing : card_blocks (attach_card (some none)) 1 ≡ none
unfolding card_blocks attach_card open_image
card_missing = refl
