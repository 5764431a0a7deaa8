-- ===== src/Platform/Fetched.antt =====
-- A loaded program read through the bus: src/util/elf_loader.cpp, src/bus/tlm_bus.cpp and
-- src/mem/memory.cpp on the platform of src/platform/gamingcpu_vp.cpp.
use virtual_so_c.Prelude.{
  ℕ, ◌+◌, ◌-◌, ◌^◌, ◌<◌, ◌≤◌, List, [], ◌∷◌, ◌++◌, Option, some, u32, length, drop, ◌≡◌, refl, ap,
  ◌∙◌, ◌⊎◌, inl, inr, arith,
}
use mathlib.Core.Path.{subst}
use virtual_so_c.Tlm.{Command, Response, Payload}
use virtual_so_c.Mem.Ram as Ram
use virtual_so_c.Mem.Ram.{fetch, transfer, in_bounds}
use virtual_so_c.Elf.Encode.{Segment, encode}
use virtual_so_c.Elf.Writes.{loadable}
use virtual_so_c.Elf.RoundTrip.{IsProgram}
use virtual_so_c.Platform.MemoryMap.{ram_base, ram_size}
use virtual_so_c.Platform.Boot.{Board, boot}
use virtual_so_c.Platform.Loaded.{IsInRam, AllInRam, AllApart, AllHeld, image, offset, boot-encode}
use virtual_so_c.Platform.Machine.{Machine, transact}
use virtual_so_c.Platform.Routed.{transact-ram}

unfoldable pub Among : Segment → List Segment → Type 0
Among s [] = ⊥
Among s (t ∷ ts) = (t ≡ s) ⊎ Among s ts

-- The two memories of a machine.
abbrev pub board_of : {P : Type 0} → Machine P → Board
board_of m = record { ram = m.ram; bootrom = m.bootrom }

fetch-Among :
    (s : Segment) (ts : List Segment) (mem : List ℕ) (size : ℕ)
    → Among s ts
    → AllHeld ts mem
    → AllInRam size ts
    → (fetch mem (offset s) s.memsz ≡ image s) × IsInRam size s
unfolding Among AllHeld AllInRam
fetch-Among s [] mem size a h r = absurd a
fetch-Among s (t ∷ ts) mem size (inl e) (h, hs) (r, rs) =
    subst (λ x. (fetch mem (offset x) x.memsz ≡ image x) × IsInRam size x) e (h, r)
fetch-Among s (t ∷ ts) mem size (inr a) (h, hs) (r, rs) = fetch-Among s ts mem size a hs rs

read_inside :
    (mem old : List ℕ) (at n : ℕ)
    → at + n ≤ length mem
    → at + n < 2 ^ 32
    → Ram.b_transport mem (transfer Command.read_command at n old) ≡ (
      mem,
      record (transfer Command.read_command at n old) {
        bytes = fetch mem at n ++ drop n old;
        status = Response.ok_response;
      },
    )
unfolding Ram.b_transport
read_inside mem old at n f t =
    let here : u32 at ≡ at = omega (arith, t) in rw (in_bounds mem at n t f, here) refl

module _ {P : Type 0} (on_transfer : Option (ℕ → P → ℕ × P)) where
  -- A read of the RAM through the bus.
  read_ram :
      (m : Machine P) (old : List ℕ) (at n : ℕ)
      → 1 ≤ n
      → ram_base ≤ at
      → at + n ≤ ram_base + length m.ram
      → length m.ram ≤ ram_size
      → let r = transact on_transfer m (transfer Command.read_command at n old) in
        (r.1.status ≡ Response.ok_response)
        × (r.1.bytes ≡ fetch m.ram (at - ram_base) n ++ drop n old)
  read_ram m old at n one l f z =
      let from : ℕ = at - ram_base in
      let reading : Payload = transfer Command.read_command at n old in
      let through = transact-ram on_transfer m reading l (omega (arith, one, f, z)) in
      let inside = read_inside m.ram old from n (omega (arith, l, f)) (omega (arith, l, f, z)) in
      (
        ap (λ x. x.1.status) through ∙ ap (λ x. x.1.status) inside,
        ap (λ x. x.1.bytes) through ∙ ap (λ x. x.1.bytes) inside,
      )

  -- On the platform, after the file that the reference writer makes of a program has been loaded,
  -- whose loadable segments lie in the RAM and do not meet, a read through the bus of any
  -- loadable segment's addresses succeeds and returns its bytes, with zeros up to its size, and
  -- leaves the rest of the reader's buffer.
  pub transact-boot :
      (entry : ℕ) (ss : List Segment) (m : Machine P) (s : Segment) (old : List ℕ)
      → IsProgram entry ss
      → AllInRam (length m.ram) (loadable ss)
      → AllApart (loadable ss)
      → length m.ram ≤ ram_size
      → Among s (loadable ss)
      → 1 ≤ s.memsz
      → (mem : List ℕ) × (boot (some (encode entry ss)) (board_of m)
          ≡ some (record { board = record (board_of m) { ram = mem }; pc = entry }))
        × (let r =
              transact on_transfer
                (record m { ram = mem })
                (transfer Command.read_command s.paddr s.memsz old) in
            (r.1.status ≡ Response.ok_response) × (r.1.bytes ≡ image s ++ drop s.memsz old))
  transact-boot entry ss m s old p i a z among one =
      let (mem, loaded, size, held, _) = boot-encode entry ss (board_of m) p i a z in
      let (word, place) = fetch-Among s (loadable ss) mem (length m.ram) among held i in
      let read =
        read_ram (record m { ram = mem }) old s.paddr s.memsz one place.first
          (omega (arith, size, place.last)) (omega (arith, size, z)) in
      (mem, loaded, (read.0, read.1 ∙ ap (λ t. t ++ drop s.memsz old) word))
