-- ===== src/Sd.antt =====
-- The SD controller: src/sd/sd_ctrl.h and src/sd/sd_ctrl.cpp. The card and what is bound to `isock`
-- are parameters; a transfer takes no simulated time, so it is one step.
pub mod Blocks
pub mod Card
use virtual_so_c.Prelude.{
  ℕ, zero, suc, ◌+◌, List, [], ◌∷◌, Bool, true, false, Option, none, some, has_bits, ◌==◌, ◌&&◌,
  if◌then◌else◌, u32,
}
use virtual_so_c.Tlm.{
  Command, Payload, Access, Device, Transported, reads, stores, no_register, transport,
}
use virtual_so_c.Dma.{request, is_ok}

pub record SdCtrl : Type 0 where
  pub cmd : ℕ
  pub arg : ℕ
  pub data_addr : ℕ
  pub burst_len : ℕ
  pub status : ℕ

abbrev pub reset : SdCtrl
reset = record { cmd = 0; arg = 0; data_addr = 0; burst_len = 1; status = 0 }

abbrev pub cmd18 : ℕ
cmd18 = 18

abbrev pub status_done : ℕ
status_done = 2

abbrev pub status_error : ℕ
status_error = 4

-- The card's `read_block`; `none` is a failed read, or no card.
module _ {B : Type 0} (b_transport : B → Payload → B × Payload)
    (read_block : ℕ → Option (List ℕ)) where
  -- The loop of `transfer_thread` with `left` blocks to go: the bus and `ok`.
  unfoldable pub read_blocks : ℕ → ℕ → ℕ → B → B × Bool
  read_blocks zero block dest b = (b, true)
  read_blocks (suc left) block dest b = elim (read_block block) [
    | none ↦ (b, false)
    | some buf ↦
        (let w = b_transport b (request Command.write_command dest 512 buf) in
          let rest = read_blocks left (u32 (block + 1)) (u32 (dest + 512)) w.0 in
          if is_ok w.1.status then rest else (w.0, false))
  ]

  -- A transfer, after `start_event_`: the controller, the bus and the calls of `on_irq`.
  unfoldable pub transfer : SdCtrl → B → (SdCtrl × B) × List Bool
  transfer s b =
      let r = read_blocks (if s.cmd == cmd18 then s.burst_len else 1) s.arg s.data_addr b in
      (
        (record s { status = if r.1 then status_done else status_done + status_error }, r.0),
        true ∷ [],
      )

pub data Event : Type 0 where
  start : Event
  irq : Bool → Event

-- The `switch` of `b_transport`.
unfoldable pub access : Device SdCtrl Event
access write addr val s =
    if addr == 0x00
    then if write then reads (record s { cmd = val }) val else reads s s.cmd
    else if addr == 0x04
    then if write then reads (record s { arg = val }) val else reads s s.arg
    else if addr == 0x08
    then if write then reads (record s { data_addr = val }) val else reads s s.data_addr
    else if addr == 0x0C
    then if write then reads (record s { burst_len = val }) val else reads s s.burst_len
    else if addr == 0x10
    then if write then stores (record s { status = 0 }) val (irq false ∷ []) else reads s s.status
    else if addr == 0x14
    then stores s val (if write && has_bits val 1 then start ∷ [] else [])
    else no_register s val

unfoldable pub b_transport : SdCtrl → Payload → Transported SdCtrl Event
b_transport = transport access
