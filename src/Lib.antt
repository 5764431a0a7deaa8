-- ===== src/Lib.antt =====
-- VirtualSoC: a RISC-V (RV32IMAC, machine, supervisor and user mode) system on a chip, simulated
-- in SystemC. The core (src/cpu) decodes an instruction word, executes it on its registers, its
-- CSR file and a memory interface, and takes traps; interrupt controllers (src/irq) and devices
-- sit behind a bus of TLM transactions and drive the interrupt bits of the core by callbacks.
--
-- Prelude      Boolean tests, lists, machine words, bits and masks, tables of a bounded function.
-- Tlm          The payload of a transaction, and the copying around a device's register switch.
-- Cpu.Defs     src/cpu/rv32_defs.h: opcodes, CSR addresses, fields, causes.
-- Cpu.Csr      src/cpu/csr.h, csr.cpp: `File` is CSRFile, `Access` its read and write. `Cases` is
--              the induction over the switch of write; `Isolation` and `Status` hold theorems.
-- Cpu.State    src/cpu/execute.h, rv32a.h: CPUState, ExecResult and the LR/SC reservation.
-- Cpu.Arith    src/cpu/rv32m.cpp, rv32a.h: the M and A extension functions, on the integers;
--              `Product` and `Quotient` hold theorems.
-- Cpu.Decode   src/cpu/decode.h, decode.cpp: `Decode32` is decode32, `Quadrants` and `Quadrant1`
--              are expand_compressed, `Decoder` is decode; `Offsets` and `Ranges` hold theorems.
-- Cpu.Trap     src/cpu/trap.cpp and the MRET and SRET cases of execute.cpp: `Entry`, `Returns`;
--              `Pending`, `Restore` and `Delegated` hold theorems.
-- Cpu.Execute  src/cpu/execute.cpp: `Dispatch` is execute, with its memory cases in `Loads` and its
--              CSR cases in `System`; `Frame` is the induction over its cases, which the theorems of
--              `Isolation` and `Legal` use.
-- Irq.Plic     src/irq/plic.h, plic.cpp: `Device` is the PLIC; `Arbitration` and `Service` hold
--              theorems.
-- Irq.Clint    src/irq/clint.h, clint.cpp: `Device` is the CLINT; `Lines` and `Registers` hold
--              theorems.
-- Cpu.Mmu      src/cpu/mmu.h, mmu.cpp: `Permissions` is check_permissions, `Tlb` the look-aside
--              buffer, `Walk` walk and translate. `Sv32` is the architecture's account; `Flags`,
--              `Memory`, `Result`, `Cache` and `Refines` lead from the code to it.
-- Cpu.Iss      src/cpu/iss.h, iss.cpp: `Port` is the bus access with direct memory access, `Access`
--              the callbacks of the constructor, `Loop` one round of run, halt, resume and step;
--              `Direct`, `Plain`, `Held` and `Kept` hold theorems.
-- Tlm.Line     A device's interrupt line, as the last argument of its callback.
-- Io           src/io: `Timer`, `Gpio`, `Spi` and `Uart` (`Uart.Queue` and `Uart.Interrupt` hold
--              theorems).
-- Mem          src/mem/memory.cpp: `Ram`, and `Host` for direct access; src/mem/bootrom.cpp:
--              `BootRom`; `Blocks` holds lemmas.
-- Bus          src/bus/tlm_bus.h, tlm_bus.cpp: `Map` is map and decode, `Router` the transactions;
--              `Routes` and `Delivery` hold theorems.
-- Dma          src/dma/dma_engine.h, dma_engine.cpp; `Ends` and `Copies` hold theorems.
-- Sd           src/sd/sd_ctrl.h, sd_ctrl.cpp; `Card` is sd_card_model.h, sd_card_model.cpp, and `Blocks`
--              holds theorems.
-- Video        src/video: `FbCtrl` and `Palette`.
-- Audio        src/audio/audio_out.cpp.
-- Platform     src/platform/gamingcpu_vp.cpp: `Interrupts` is the wiring of the interrupt controllers
--              to the core, and `Wired` what it keeps; `MemoryMap` is platform_config.h and the calls
--              of map.
--              `Machine` is the whole of it: the sockets on the bus, the callbacks, the threads of the
--              DMA engine and of the SD controller, and what happens around them; `Masters`, `Whole`,
--              `Routed`, `Ticks` and `Fetched` hold theorems. `Boot` is what the constructor does
--              with a loaded program, and `Loaded` what the RAM then holds.
-- Elf          src/util/elf_loader.h, elf_loader.cpp: `Format` is the headers, `Loader` the checks and
--              the loop; `Encode` is a writer of such files, and `Writes`, `RoundTrip` and `Safety`
--              hold theorems.
-- Debug        src/debug/gdb_server.h, gdb_server.cpp: `Hex` is numbers in text, `Packet` the packets,
--              `Protocol` the protocol's own account of them, `Server` the requests and `Client` the session; `Digits`, `Sessions`, `Ends`,
--              `Registers`, `Memory`, `Transfers`, `Bytes`, `Patches` and `Breakpoints` hold theorems.
-- Tests        Runs on concrete states.
--
-- State is passed explicitly. A 32-bit register is its bit pattern, a number below 2 ^ 32, and
-- wrap-around is written out; a signed view is an integer (`signed32`). An exception is a field of
-- the result, as in ExecResult. The memory interface MemIf, which the simulator supplies, is a
-- parameter over a world of its own, and sees the state of the core. The callbacks of a device are
-- the list of events that an access returns; in an instruction's access, `lines` of MemIf is what
-- they make of the interrupt bits (`Cpu.Execute.Memory`). Loops with
-- a bound in the source (the sources of the
-- PLIC, the interrupt priorities, the two levels of a page walk) recurse on it; the loop of a DMA
-- transfer runs on fuel, and as many rounds as there are bytes are enough (`Dma.Ends`).
--
-- The debugger's session runs on fuel too, one for each byte that is still to be read being enough
-- (`Debug.Ends`). What the simulation does while the debugger waits for the core is a parameter, which
-- says so where the core never halts.
--
-- Not modelled: the TLM and SystemC libraries and their scheduling, host input and output (terminal,
-- the opening of files and sockets), the trace output of src/util/logging.cpp, and src/main.cpp, which
-- runs the source's own tests. The interrupt callbacks of a device that a fetch, or a page table walk
-- for a fetch, reaches are left out, and so are the reads of the debugger. SC_REPORT_ERROR returns to
-- its caller here, as with a handler that does not throw; SystemC's default one throws.
pub mod Prelude
pub mod Tlm
pub mod Cpu
pub mod Irq
pub mod Io
pub mod Mem
pub mod Bus
pub mod Dma
pub mod Sd
pub mod Video
pub mod Audio
pub mod Platform
pub mod Elf
pub mod Debug
pub mod Tests
