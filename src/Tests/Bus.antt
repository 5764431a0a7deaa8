-- ===== src/Tests/Bus.antt =====
-- Transactions through the bus of the platform: src/bus, src/platform/gamingcpu_vp.cpp.
use virtual_so_c.Prelude.{
  ℕ, List, [], ◌∷◌, Option, none, some, ◌==◌, if◌then◌else◌, ◌≡◌, refl, arith,
}
use virtual_so_c.Tlm.{Payload, Response, Command}
use virtual_so_c.Mem.Ram.{transfer}
use virtual_so_c.Bus.Map.{TlmBus, unmapped, map_all, map_range, any_overlap, sort, insert}
use virtual_so_c.Bus.Router.{Targets, b_transport, get_direct_mem_ptr}
use virtual_so_c.Bus.Routes.{assigned}
use virtual_so_c.Bus.Delivery.{
  NoWrap, owner, deliver_at, expose, b_transport-deliver_at, get_direct_mem_ptr-expose,
}
use virtual_so_c.Platform.MemoryMap.{mappings, platform_bus}

mappings-NoWrap : NoWrap mappings
mappings-NoWrap = (
  omega arith,
  (
    omega arith,
    (
      omega arith,
      (
        omega arith,
        (
          omega arith,
          (
            omega arith,
            (
              omega arith,
              (omega arith, (omega arith, (omega arith, (omega arith, (omega arith, tt))))),
            ),
          ),
        ),
      ),
    ),
  ),
)

abbrev bus_of : Option TlmBus → TlmBus
bus_of none = unmapped
bus_of (some b) = b

platform-mapped : map_all mappings unmapped ≡ some (bus_of platform_bus)
unfolding map_all map_range any_overlap sort insert
platform-mapped = refl

-- Targets that log the index and the offset of each transaction, and target 1 with bytes.
abbrev loggers : Targets (List (ℕ × ℕ))
loggers = record {
  b_transport = λ i t p. ((i, p.address) ∷ t, record p { status = Response.ok_response });
  get_direct_mem_ptr = λ i t a.
      if i == 1
      then some (record { dmi_ptr = 7; start_address = 0; end_address = 0x07FFFFFF })
      else none;
}

abbrev word_at : ℕ → Payload
word_at a = transfer Command.read_command a 4 (0 ∷ 0 ∷ 0 ∷ 0 ∷ [])

b_transport-deliver_at_example :
    b_transport loggers (bus_of platform_bus) [] (word_at 0x10005010)
    ≡ ((9, 0x10) ∷ [], record (word_at 0x10005010) { status = Response.ok_response })
unfolding owner deliver_at
b_transport-deliver_at_example =
    b_transport-deliver_at loggers mappings (bus_of platform_bus) [] (word_at 0x10005010)
      (omega arith) mappings-NoWrap platform-mapped

get_direct_mem_ptr-expose_example :
    get_direct_mem_ptr loggers (bus_of platform_bus) [] 0x80001234
    ≡ some (record { dmi_ptr = 7; start_address = 0x80000000; end_address = 0x87FFFFFF })
unfolding assigned expose
get_direct_mem_ptr-expose_example =
    get_direct_mem_ptr-expose loggers mappings (bus_of platform_bus) [] 0x80001234 platform-mapped
