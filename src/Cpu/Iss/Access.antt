-- ===== src/Cpu/Iss/Access.antt =====
-- The core's memory: the callbacks that the constructor of `ISS` sets up, with address translation.
use virtual_so_c.Prelude.{
  ℕ, Bool, true, not, ltb, ◌==◌, ◌&&◌, if◌then◌else◌, has_bits, ◌>>>◌, ◌&&&◌,
}
use virtual_so_c.Cpu.Defs
use virtual_so_c.Cpu.State.{CpuState}
use virtual_so_c.Cpu.Execute.Memory.{MemIf}
use virtual_so_c.Cpu.Mmu.Permissions.{AccessType, load, store}
use virtual_so_c.Cpu.Mmu.Tlb.{Tlb}
use virtual_so_c.Cpu.Mmu.Walk as Walk
use virtual_so_c.Cpu.Iss.Port.{Port, Socket, bus_read, bus_write}

-- The MMU, the port, and the report of a fault in an access to data.
pub record World (B : Type 0) : Type 0 where
  pub port : Port B
  pub tlb : Tlb
  pub mem_fault : Bool
  pub mem_fault_cause : ℕ
  pub mem_fault_vaddr : ℕ

unfoldable pub effective_data_priv : CpuState → ℕ
effective_data_priv s =
    if s.priv == 3 && has_bits s.csr.mstatus Defs.mstatus_mprv
    then s.csr.mstatus >>> Defs.mstatus_mpp_shift &&& 0x3
    else s.priv

unfoldable pub mmu_active_fetch : CpuState → Bool
mmu_active_fetch s = not ((s.csr.satp >>> 31) == 0) && ltb s.priv 3

unfoldable pub mmu_active_data : CpuState → Bool
mmu_active_data s = not ((s.csr.satp >>> 31) == 0) && ltb (effective_data_priv s) 3

abbrev pub access_of : AccessType → ℕ → CpuState → Walk.Access
access_of type priv s = record {
  type = type;
  priv = priv;
  satp = s.csr.satp;
  mstatus = s.csr.mstatus;
}

module _ {B : Type 0} (socket : Socket B) (victim : Tlb → ℕ) where
  -- `mmu.mem_read` and `mmu.mem_write`.
  abbrev pub page_memory : Walk.PageMemory (Port B)
  page_memory = record {
    read = λ paddr p. bus_read socket paddr 4 p;
    write = λ paddr val p. bus_write socket paddr val 4 p;
  }

  -- A call of `mmu.translate`: the world with its page table walk done.
  unfoldable pub translate_in : Walk.Access → ℕ → World B → World B × Walk.Translation (Port B)
  translate_in c vaddr w =
      let r = Walk.translate page_memory victim c vaddr w.tlb w.port in
      (record w { port = r.world; tlb = r.tlb }, r)

  abbrev mem_faulted : ℕ → ℕ → World B → World B
  mem_faulted cause vaddr w = record w {
    mem_fault = true;
    mem_fault_cause = cause;
    mem_fault_vaddr = vaddr;
  }

  unfoldable pub read_at : ℕ → ℕ → World B → ℕ × World B
  read_at paddr bytes w =
      let r = bus_read socket paddr bytes w.port in (r.0, record w { port = r.1 })

  unfoldable pub write_at : ℕ → ℕ → ℕ → World B → World B
  write_at paddr word bytes w = record w { port = bus_write socket paddr word bytes w.port }

  -- `state.mem.read` and `state.mem.write`.
  unfoldable pub mem_read : CpuState → ℕ → ℕ → World B → ℕ × World B
  mem_read s vaddr bytes w =
      let t = translate_in (access_of load (effective_data_priv s) s) vaddr w in
      if mmu_active_data s
      then if t.1.result.fault
        then (0, mem_faulted t.1.result.cause vaddr t.0)
        else read_at t.1.result.paddr bytes t.0
      else read_at vaddr bytes w

  unfoldable pub mem_write : CpuState → ℕ → ℕ → ℕ → World B → World B
  mem_write s vaddr word bytes w =
      let t = translate_in (access_of store (effective_data_priv s) s) vaddr w in
      if mmu_active_data s
      then if t.1.result.fault
        then mem_faulted t.1.result.cause vaddr t.0
        else write_at t.1.result.paddr word bytes t.0
      else write_at vaddr word bytes w

  -- `on_satp_write` flushes the translations.
  abbrev pub mem_if : MemIf (World B)
  mem_if = record {
    read = mem_read;
    write = mem_write;
    satp_changed = λ w. record w { tlb = Walk.flushed };
    lines = λ w. socket.lines w.port.bus;
  }
