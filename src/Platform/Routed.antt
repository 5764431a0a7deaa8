-- ===== src/Platform/Routed.antt =====
-- The RAM through the bus of the platform: src/bus/tlm_bus.cpp, src/mem/memory.cpp and the sockets of
-- src/platform/gamingcpu_vp.cpp.
use virtual_so_c.Prelude.{
  ℕ, ◌+◌, ◌-◌, ◌^◌, ◌<◌, ◌≤◌, List, ◌++◌, true, false, Option, some, u32, length, take, drop,
  get_or, ◌⊎◌, inr, ◌≡◌, refl, ap, ◌∙◌, arith,
}
use virtual_so_c.Tlm.{Command, Response, Payload}
use virtual_so_c.Bus.Map.{
  MappedRange, covers, unmapped, map_all, map_range, any_overlap, sort, insert,
}
use virtual_so_c.Bus.Routes.{assigned}
use virtual_so_c.Bus.Delivery.{deliver, b_transport-assigned}
use virtual_so_c.Mem.Ram as Ram
use virtual_so_c.Mem.Ram.{transfer, put, fetch, in_bounds, length-put, length-take, fetch-put}
use virtual_so_c.Platform.MemoryMap.{mappings, bus, ram_base, ram_size}
use virtual_so_c.Platform.Machine.{Machine, ram_tsock, at_socket, targets, transact}

pub map_all-mappings : map_all mappings unmapped ≡ some bus
unfolding map_all map_range any_overlap sort insert
map_all-mappings = refl

abbrev ram_range : MappedRange
ram_range = record { base = ram_base; size = ram_size; target_idx = 1 }

assigned-ram :
    (a : ℕ) → ram_base ≤ a → a < ram_base + ram_size → assigned mappings 0 a ≡ some ram_range
unfolding assigned
assigned-ram a l h =
    let rom : MappedRange = record { base = 0; size = 0x10000; target_idx = 0 } in
    let out : covers rom a ≡ false = ground arith in
    let inside : covers ram_range a ≡ true = ground arith in rw (out, inside) refl

module _ {P : Type 0} (on_transfer : Option (ℕ → P → ℕ × P)) where
  -- A transaction whose address lies in the RAM.
  pub transact-ram :
      (m : Machine P) (p : Payload)
      → ram_base ≤ p.address
      → p.address < ram_base + ram_size
      → let r = Ram.b_transport m.ram (record p { address = p.address - ram_base }) in
        transact on_transfer m p ≡ (record m { ram = r.0 }, record (r.1) { address = p.address })
  unfolding transact deliver at_socket ram_tsock
  transact-ram m p l h =
      let here : u32 p.address ≡ p.address = omega arith in
      b_transport-assigned (targets on_transfer) mappings bus m p map_all-mappings
      ∙ ap (λ a. deliver (targets on_transfer) (assigned mappings 0 a) m p) here
      ∙ ap (λ o. deliver (targets on_transfer) o m p) (assigned-ram p.address l h)
      ∙ rw here refl

  -- On the platform, a write of `n` bytes to a range of the RAM's addresses, followed by a read
  -- of the same range, both through the bus, succeeds; the read returns the bytes, and leaves the
  -- rest of the reader's buffer; and nothing on the platform changes but the RAM, of which every
  -- byte outside the range is kept.
  pub transact-transact :
      (m : Machine P) (bs old : List ℕ) (at n : ℕ)
      → 1 ≤ n
      → ram_base ≤ at
      → at + n ≤ ram_base + length m.ram
      → length m.ram ≤ ram_size
      → n ≤ length bs
      → let w = transact on_transfer m (transfer Command.write_command at n bs) in
        let b = transact on_transfer w.0 (transfer Command.read_command at n old) in
        (b.1.bytes ≡ take n bs ++ drop n old)
        × (w.1.status ≡ Response.ok_response)
        × (b.1.status ≡ Response.ok_response)
        × ((mem : List ℕ) × (b.0 ≡ record m { ram = mem })
            × ((j : ℕ)
                → (j + ram_base < at) ⊎ (at + n ≤ j + ram_base)
                → get_or mem j 0 ≡ get_or m.ram j 0))
  transact-transact m bs old at n one l f z b =
      let from : ℕ = at - ram_base in
      let size : from + n ≤ length m.ram = omega (arith, l, f) in
      let top : from + n < 2 ^ 32 = omega (arith, size, z) in
      let inside : at < ram_base + ram_size = omega (arith, one, f, z) in
      let writing : Payload = transfer Command.write_command at n bs in
      let reading : Payload = transfer Command.read_command at n old in
      let w : List ℕ × Payload = Ram.b_transport m.ram (transfer Command.write_command from n bs) in
      let r : List ℕ × Payload = Ram.b_transport w.0 (transfer Command.read_command from n old) in
      let wrote : transact on_transfer m writing
          ≡ (record m { ram = w.0 }, record (w.1) { address = at }) =
        transact-ram m writing l inside in
      let back : transact on_transfer (transact on_transfer m writing).0 reading
          ≡ (record m { ram = r.0 }, record (r.1) { address = at }) =
        ap (λ x. transact on_transfer x.0 reading) wrote
        ∙ transact-ram (record m { ram = w.0 }) reading l inside in
      let facts = Ram.read-write m.ram bs old from n (from + n) top size b (inr (omega arith)) in
      (
        ap (λ x. x.1.bytes) back ∙ facts.0,
        ap (λ x. x.1.status) wrote ∙ facts.1,
        ap (λ x. x.1.status) back ∙ facts.2,
        (
          r.0,
          ap (λ x. x.0) back,
          λ j o. (Ram.read-write m.ram bs old from n j top size b (grind (arith, o, l))).4,
        ),
      )
