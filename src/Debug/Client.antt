-- ===== src/Debug/Client.antt =====
-- The debugger's session: `handle_client` of src/debug/gdb_server.cpp. What the simulation does
-- until the core's `halted_event` is a parameter, none where the core never halts.
use virtual_so_c.Prelude.{
  ℕ, zero, suc, List, [], ◌∷◌, Bool, false, none, some, ◌==◌, ◌&&◌, if◌then◌else◌, Option,
}
use virtual_so_c.Cpu.Iss.Port.{Socket}
use virtual_so_c.Cpu.Iss.Loop.{Iss, halt, step, resume}
use virtual_so_c.Debug.Packet.{Connection, read_packet, send_packet}
use virtual_so_c.Debug.Server.{
  Server, Answer, s05_text, handle_read_regs, handle_write_regs, handle_read_mem, handle_write_mem,
  handle_insert_bp, handle_remove_bp,
}

-- `size() > 1 && pkt[1] == '0'`, of what follows the first character.
unfoldable pub starts_with_0 : List ℕ → Bool
starts_with_0 [] = false
starts_with_0 (c ∷ cs) = c == 48

-- What a packet leads to.
pub data Reaction (B : Type 0) : Type 0 where
  leaves throws waits : Reaction B
  sends : Server B → List ℕ → Reaction B

-- How a session ends: the loop is left, a call throws, it waits for a core that never halts, or the
-- fuel is spent.
pub data Session (B : Type 0) : Type 0 where
  closed : Server B → Connection → Session B
  crashed : Session B
  blocked : Session B
  spent : Session B

unfoldable pub replies : {B : Type 0} → Answer B → Reaction B
replies none = throws
replies (some r) = sends r.0 r.1

-- `wait(iss_.halted_event)`, and the answer.
unfoldable pub halts : {B : Type 0} → Option (Iss B) → Server B → Reaction B
halts none s = waits
halts (some i) s = sends (record s { iss = i }) s05_text

module _ {B : Type 0} (socket : Socket B) (until_halted : Iss B → Option (Iss B)) where
  -- What a packet leads to, by its first character and the rest.
  unfoldable pub answer : ℕ → List ℕ → Server B → Reaction B
  answer c rest s =
      if c == 63
      then sends s s05_text
      else if c == 103
      then replies (handle_read_regs s)
      else if c == 71
      then replies (handle_write_regs rest s)
      else if c == 109
      then replies (handle_read_mem socket rest s)
      else if c == 77
      then replies (handle_write_mem socket rest s)
      else if c == 115
      then halts (until_halted (step s.iss)) s
      else if c == 99
      then halts (until_halted (resume s.iss)) s
      else if c == 90 && starts_with_0 rest
      then replies (handle_insert_bp socket rest s)
      else if c == 122 && starts_with_0 rest
      then replies (handle_remove_bp socket rest s)
      else sends s []

  -- The loop's tests: an empty packet, which the end of the input gives, and `k` leave it.
  unfoldable pub react : List ℕ → Server B → Reaction B
  react [] s = leaves
  react (c ∷ rest) s = if c == 107 then leaves else answer c rest s

  unfoldable pub handle_client : ℕ → Server B → Connection → Session B
  handle_client zero s c = spent
  handle_client (suc fuel) s c =
      let p = read_packet c in
      elim (react p.0 s) [
        | leaves ↦ closed s p.1
        | throws ↦ crashed
        | waits ↦ blocked
        | sends s' text ↦ handle_client fuel s' (send_packet text p.1)
      ]

  -- A client that has connected: the core is halted, and the loop runs.
  unfoldable pub server_thread : ℕ → Server B → Connection → Session B
  server_thread fuel s c = elim (until_halted (halt s.iss)) [
    | none ↦ blocked
    | some i ↦ handle_client fuel (record s { iss = i }) c
  ]
