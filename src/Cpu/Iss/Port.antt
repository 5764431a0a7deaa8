-- ===== src/Cpu/Iss/Port.antt =====
-- The core's access to the bus: `bus_read`, `bus_write`, `try_dmi` and `invalidate_dmi` of
-- src/cpu/iss.cpp. What is bound to `isock` is a parameter, with the memory of the host that a
-- pointer for direct access points into, and with what the interrupt bits of the core become that
-- the devices drive.
use virtual_so_c.Prelude.{
  ℕ, zero, suc, ◌+◌, ◌-◌, ◌^◌, List, [], ◌∷◌, ◌++◌, Bool, true, false, not, Option, none, some, ltb,
  leb, ◌&&◌, ◌||◌, if◌then◌else◌, u32, replicate, drop,
}
use virtual_so_c.Tlm.{Command, Response, Payload, load_le, store_le}
use virtual_so_c.Bus.Router.{Dmi}

pub record Socket (B : Type 0) : Type 0 where
  pub b_transport : B → Payload → B × Payload
  pub get_direct_mem_ptr : B → ℕ → Option Dmi
  pub host_read : B → ℕ → ℕ
  pub host_write : B → ℕ → ℕ → B
  pub lines : B → ℕ → ℕ

pub record Port (B : Type 0) : Type 0 where
  pub bus : B
  pub dmi_valid : Bool
  pub dmi_ptr : ℕ
  pub dmi_start : ℕ
  pub dmi_end : ℕ

abbrev pub no_dmi : {B : Type 0} → B → Port B
no_dmi b = record { bus = b; dmi_valid = false; dmi_ptr = 0; dmi_start = 0; dmi_end = 0 }

-- `addr >= dmi_start_ && (addr + bytes - 1) <= dmi_end_`, in 32 bits.
abbrev pub within : ℕ → ℕ → ℕ → ℕ → Bool
within first last addr bytes = leb first addr && leb (u32 (addr + bytes + (2 ^ 32 - 1))) last

abbrev pub in_dmi : {B : Type 0} → Port B → ℕ → ℕ → Bool
in_dmi p addr bytes = p.dmi_valid && within p.dmi_start p.dmi_end addr bytes

abbrev pub transaction : Command → ℕ → ℕ → List ℕ → Payload
transaction c addr bytes buf = record {
  command = c;
  address = addr;
  bytes = buf;
  length = bytes;
  status = Response.incomplete;
}

module _ {B : Type 0} (socket : Socket B) where
  -- `memcpy` from and to the host's memory.
  unfoldable pub host_bytes : B → ℕ → ℕ → List ℕ
  host_bytes b at zero = []
  host_bytes b at (suc n) = socket.host_read b at ∷ host_bytes b (at + 1) n

  unfoldable pub host_copy : B → ℕ → List ℕ → B
  host_copy b at [] = b
  host_copy b at (x ∷ xs) = host_copy (socket.host_write b at x) (at + 1) xs

  unfoldable pub try_dmi : ℕ → Port B → Port B
  try_dmi addr p = elim (socket.get_direct_mem_ptr p.bus addr) [
    | none ↦ p
    | some d ↦ record p {
      dmi_valid = true;
      dmi_ptr = d.dmi_ptr;
      dmi_start = d.start_address;
      dmi_end = d.end_address;
    }
  ]

  unfoldable pub bus_read : ℕ → ℕ → Port B → ℕ × Port B
  bus_read addr bytes p =
      let r =
        socket.b_transport p.bus (transaction Command.read_command addr bytes (replicate 4 0)) in
      let p' : Port B = record p { bus = r.0 } in
      if in_dmi p addr bytes
      then (load_le bytes (host_bytes p.bus (p.dmi_ptr + (addr - p.dmi_start)) bytes), p)
      else (load_le bytes r.1.bytes, if not p.dmi_valid then try_dmi addr p' else p')

  unfoldable pub bus_write : ℕ → ℕ → ℕ → Port B → Port B
  bus_write addr word bytes p =
      if in_dmi p addr bytes
      then record p {
        bus = host_copy p.bus (p.dmi_ptr + (addr - p.dmi_start)) (store_le bytes word);
      }
      else record p {
        bus =
            (socket.b_transport p.bus (
              transaction Command.write_command addr bytes
                (store_le bytes word ++ drop bytes (replicate 4 0)))).0;
      }

-- The pointer is dropped when the addresses meet its range.
unfoldable pub invalidate_dmi : {B : Type 0} → ℕ → ℕ → Port B → Port B
invalidate_dmi start end p =
    if p.dmi_valid && not (ltb end p.dmi_start || ltb p.dmi_end start)
    then record p { dmi_valid = false; dmi_ptr = 0 }
    else p
