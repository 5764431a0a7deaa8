-- ===== src/Cpu/Iss/Held.antt =====
-- The core's port in front of a RAM: what it returns and when it holds a pointer for direct access.
-- `bus_read`, `bus_write`, `try_dmi` and `invalidate_dmi` of src/cpu/iss.cpp.
use virtual_so_c.Prelude.{
  ℕ, ◌+◌, ◌-◌, ◌^◌, List, [], ◌∷◌, Bool, true, false, leb, if◌then◌else◌, u32, length, ◌≡◌,
}
use virtual_so_c.Mem.Host.{ram}
use virtual_so_c.Cpu.Iss.Port.{Port, bus_read, bus_write, invalidate_dmi}
use virtual_so_c.Cpu.Iss.Plain.{Use, reads, writes, invalidates}

-- The port after a sequence of uses.
unfoldable pub port_after : List Use → Port (List ℕ) → Port (List ℕ)
port_after [] p = p
port_after (reads a n ∷ us) p = port_after us (bus_read ram a n p).1
port_after (writes a v n ∷ us) p = port_after us (bus_write ram a v n p)
port_after (invalidates start end ∷ us) p = port_after us (invalidate_dmi start end p)

-- Whether a pointer into a RAM of `size` bytes is held: a read fetches it, and an invalidation that
-- starts below the end of the RAM drops it.
unfoldable pub held : ℕ → List Use → Bool → Bool
held size [] h = h
held size (reads a n ∷ us) h = held size us true
held size (writes a v n ∷ us) h = held size us h
held size (invalidates start end ∷ us) h = held size us (if leb size start then h else false)

-- A pointer that is held is that of the whole RAM.
record OfWhole (size : ℕ) (p : Port (List ℕ)) : Type 0 where
  same_size : length p.bus ≡ size
  from_start : p.dmi_valid ≡ true → p.dmi_start ≡ 0
  to_end : p.dmi_valid ≡ true → p.dmi_end ≡ size - 1

abbrev whole : Port (List ℕ) → Port (List ℕ)
whole p = record p {
  dmi_valid = true;
  dmi_ptr = 0;
  dmi_start = 0;
  dmi_end = u32 (length p.bus + (2 ^ 32 - 1));
}
