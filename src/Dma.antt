-- ===== src/Dma.antt =====
-- The DMA engine: src/dma/dma_engine.h and src/dma/dma_engine.cpp. What is bound to `isock` is a
-- parameter. A transfer takes no simulated time, so it is one step.
pub mod Ends
pub mod Copies
use virtual_so_c.Prelude.{
  ℕ, zero, suc, ◌+◌, ◌-◌, ◌%◌, ◌^◌, List, [], ◌∷◌, Bool, true, false, not, Option, none, some,
  has_bits, ltb, ◌==◌, ◌&&◌, if◌then◌else◌, u32,
}
use virtual_so_c.Tlm.{
  Command, Response, Payload, Access, Device, Transported, reads, stores, no_register, transport,
}

pub record DmaEngine : Type 0 where
  pub src_addr : ℕ
  pub dst_addr : ℕ
  pub byte_count : ℕ
  pub ctrl : ℕ
  pub status : ℕ

abbrev pub reset : DmaEngine
reset = record { src_addr = 0; dst_addr = 0; byte_count = 0; ctrl = 0; status = 0 }

abbrev pub burst_size : ℕ
burst_size = 256

-- `std::min(remaining, BURST_SIZE)`.
abbrev pub chunk_of : ℕ → ℕ
chunk_of remaining = if ltb burst_size remaining then burst_size else remaining

abbrev pub is_ok : Response → Bool
is_ok Response.ok_response = true
is_ok _ = false

abbrev pub request : Command → ℕ → ℕ → List ℕ → Payload
request c addr n buf = record {
  command = c;
  address = addr;
  bytes = buf;
  length = n;
  status = Response.incomplete;
}

module _ {B : Type 0} (b_transport : B → Payload → B × Payload) (fresh : List ℕ) where
  -- The loop of `dma_thread`, with the bus and `ok` after it; `fresh` is what `buf` holds at
  -- first. Out of fuel is `none`.
  unfoldable pub burst : ℕ → ℕ → ℕ → ℕ → B → Option (B × Bool)
  burst zero remaining src dst b = if remaining == 0 then some (b, true) else none
  burst (suc fuel) remaining src dst b =
      let chunk = chunk_of remaining in
      let r = b_transport b (request Command.read_command src chunk fresh) in
      let w = b_transport r.0 (request Command.write_command dst chunk r.1.bytes) in
      let rest =
        burst fuel (u32 (remaining + (2 ^ 32 - chunk))) (u32 (src + chunk)) (u32 (dst + chunk))
          w.0 in
      if remaining == 0
      then some (b, true)
      else if not (is_ok r.1.status)
      then some (r.0, false)
      else if not (is_ok w.1.status)
      then some (w.0, false)
      else rest

  -- A transfer, after `start_event_`: the engine, the bus and the calls of `on_irq`.
  unfoldable pub transfer : ℕ → DmaEngine → B → Option ((DmaEngine × B) × List Bool)
  transfer fuel s b = elim (burst fuel s.byte_count s.src_addr s.dst_addr b) [
    | none ↦ none
    | some r ↦ some (
      (record s { status = if r.1 then 2 else 6 }, r.0),
      if has_bits s.ctrl 2 then true ∷ [] else [],
    )
  ]

pub data Event : Type 0 where
  start : Event
  irq : Bool → Event

-- The `switch` of `b_transport`.
unfoldable pub access : Device DmaEngine Event
access write addr val s =
    if addr == 0x00
    then if write then reads (record s { src_addr = val }) val else reads s s.src_addr
    else if addr == 0x04
    then if write then reads (record s { dst_addr = val }) val else reads s s.dst_addr
    else if addr == 0x08
    then if write then reads (record s { byte_count = val }) val else reads s s.byte_count
    else if addr == 0x0C
    then if write
      then stores (record s { ctrl = val }) val (if has_bits val 1 then start ∷ [] else [])
      else reads s s.ctrl
    else if addr == 0x10
    then if write then stores (record s { status = 0 }) val (irq false ∷ []) else reads s s.status
    else no_register s val

unfoldable pub b_transport : DmaEngine → Payload → Transported DmaEngine Event
b_transport = transport access
