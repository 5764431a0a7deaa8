-- ===== src/Bus/Router.antt =====
-- Transactions through the bus: `b_transport`, `get_direct_mem_ptr` and `invalidate_direct_mem_ptr`
-- of src/bus/tlm_bus.cpp. The targets behind the sockets are a parameter; the warning of a decode
-- miss is not modelled.
use virtual_so_c.Prelude.{
  ℕ, ◌+◌, ◌-◌, ◌%◌, ◌^◌, List, [], ◌∷◌, Option, none, some, ◌==◌, if◌then◌else◌, u32, replicate,
}
use virtual_so_c.Tlm.{Payload, Response}
use virtual_so_c.Bus.Map.{MappedRange, TlmBus, decode}

-- `tlm_dmi`: where the bytes are, and the addresses they are for.
pub record Dmi : Type 0 where
  pub dmi_ptr : ℕ
  pub start_address : ℕ
  pub end_address : ℕ

-- What is bound to `isock`, by index, over a state `T` of all of them.
pub record Targets (T : Type 0) : Type 0 where
  pub b_transport : ℕ → T → Payload → T × Payload
  pub get_direct_mem_ptr : ℕ → T → ℕ → Option Dmi

module _ {T : Type 0} (targets : Targets T) where
  unfoldable pub b_transport : TlmBus → T → Payload → T × Payload
  b_transport b t p =
      let addr = u32 p.address in
      elim (decode b.ranges addr) [
        | none ↦ (t, record p { status = Response.address_error })
        | some range ↦
            (let r =
                targets.b_transport range.target_idx t
                  (record p { address = u32 (addr + (2 ^ 32 - range.base)) }) in
              (r.0, record (r.1) { address = addr }))
      ]

  unfoldable pub get_direct_mem_ptr : TlmBus → T → ℕ → Option Dmi
  get_direct_mem_ptr b t address =
      let addr = u32 address in
      elim (decode b.ranges addr) [
        | none ↦ none
        | some range ↦
            elim (targets.get_direct_mem_ptr range.target_idx t
              (u32 (addr + (2 ^ 32 - range.base)))) [
                | none ↦ none
                | some d ↦ some (record d {
                  start_address = (d.start_address + range.base) % 2 ^ 64;
                  end_address = (d.end_address + range.base) % 2 ^ 64;
                })
              ]
      ]

-- The calls of `invalidate_direct_mem_ptr` that the masters, `masters` of them, get.
unfoldable pub invalidate_direct_mem_ptr : ℕ → List MappedRange → ℕ → ℕ → ℕ → List (ℕ × ℕ)
invalidate_direct_mem_ptr masters [] id start end = []
invalidate_direct_mem_ptr masters (range ∷ rs) id start end =
    let rest = invalidate_direct_mem_ptr masters rs id start end in
    if range.target_idx == id
    then replicate masters ((start + range.base) % 2 ^ 64, (end + range.base) % 2 ^ 64)
    else rest
