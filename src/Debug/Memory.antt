-- ===== src/Debug/Memory.antt =====
-- The debugger's accesses to memory through the core's port, with the RAM alone behind it.
use virtual_so_c.Prelude.{ℕ, ◌+◌, ◌^◌, ◌<◌, ◌≤◌, List, replicate, drop, length, ◌≡◌, ap, ◌∙◌, arith}
use virtual_so_c.Tlm.{load_le, store_le}
use virtual_so_c.Cpu.Iss.Port.{Port, bus_read, bus_write}
use virtual_so_c.Cpu.Iss.Direct.{IsAccess, IsPort, bus_read-plain, bus_write-plain}
use virtual_so_c.Mem.Ram.{put, fetch}
use virtual_so_c.Mem.Blocks.{length-fetch}
use virtual_so_c.Mem.Host.{
  ram, Sized, ram-IsDirect, read_of-keeps, read_of-bytes, write_of-put, load_le-append,
}

-- A port onto the RAM whose pointer for direct access, if it has one, was granted.
abbrev pub IsRamPort : Port (List ℕ) → Type 0
IsRamPort p = IsPort ram Sized p

access : (a n m : ℕ) → 1 ≤ n → n ≤ 4 → a + n ≤ m → m < 2 ^ 32 → IsAccess a n
access a n m one four fits l = record { some_byte = one; word = four; no_wrap = omega arith }

pub bus_read-fetch :
    (a n : ℕ) (p : Port (List ℕ))
    → 1 ≤ n
    → n ≤ 4
    → a + n ≤ length p.bus
    → IsRamPort p
    → let r = bus_read ram a n p in
      (r.0 ≡ load_le n (fetch p.bus a n)) × (r.1.bus ≡ p.bus) × IsRamPort r.1
bus_read-fetch a n p one four fits k =
    let size : length p.bus < 2 ^ 32 = k.valid.1 in
    let plain =
      bus_read-plain ram Sized ram-IsDirect a n p (access a n (length p.bus) one four fits size)
        k in
    (
      plain.0
          ∙ ap (load_le n) (read_of-bytes p.bus a n fits size)
          ∙ load_le-append n (fetch p.bus a n) (drop n (replicate 4 0))
              (length-fetch p.bus a n fits),
      plain.1.0 ∙ read_of-keeps a n p.bus,
      plain.1.1,
    )

pub bus_write-put :
    (a v n : ℕ) (p : Port (List ℕ))
    → 1 ≤ n
    → n ≤ 4
    → a + n ≤ length p.bus
    → IsRamPort p
    → let q = bus_write ram a v n p in (q.bus ≡ put p.bus a (store_le n v)) × IsRamPort q
bus_write-put a v n p one four fits k =
    let size : length p.bus < 2 ^ 32 = k.valid.1 in
    let plain =
      bus_write-plain ram Sized ram-IsDirect a v n p (access a n (length p.bus) one four fits size)
        k in
    (plain.0 ∙ write_of-put p.bus a n fits size v, plain.1)
