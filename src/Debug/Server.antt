-- ===== src/Debug/Server.antt =====
-- The requests of the debugger: the handlers of `GDBServer` in src/debug/gdb_server.cpp. Each takes
-- the text after the packet's first character and gives the server after it with the text of the
-- answer; none where `std::stoul` throws.
use virtual_so_c.Prelude.{
  ℕ, zero, suc, ◌+◌, ◌-◌, ◌*◌, List, [], ◌∷◌, ◌++◌, true, false, Option, none, some, leb, ◌==◌,
  if◌then◌else◌, u8, u32, ◌&&&◌, ◌>>=◌, take, drop, length, set,
}
use virtual_so_c.Cpu.State.{CpuState}
use virtual_so_c.Cpu.Iss.Port.{Socket, Port, bus_read, bus_write}
use virtual_so_c.Cpu.Iss.Loop.{Iss}
use virtual_so_c.Debug.Hex.{hex_byte, stoul, to_hex32_le, from_hex32_le}

-- `breakpoints_` lists the addresses with the words that they replace.
pub record Server (B : Type 0) : Type 0 where
  pub iss : Iss B
  pub breakpoints : List (ℕ × ℕ)

abbrev pub ebreak_insn : ℕ
ebreak_insn = 0x00100073

-- The texts `OK`, `E01` and `S05`.
abbrev pub ok_text : List ℕ
ok_text = 79 ∷ 75 ∷ []

abbrev pub e01_text : List ℕ
e01_text = 69 ∷ 48 ∷ 49 ∷ []

abbrev pub s05_text : List ℕ
s05_text = 83 ∷ 48 ∷ 53 ∷ []

-- `find` of a character, and from a place on; none is `npos`.
unfoldable pub find : ℕ → List ℕ → Option ℕ
find mark [] = none
find mark (c ∷ cs) =
    let rest = find mark cs in if c == mark then some 0 else (do i ← rest; some (suc i))

unfoldable pub find_from : ℕ → ℕ → List ℕ → Option ℕ
find_from mark start cs = do i ← find mark (drop start cs); some (start + i)

-- A number in base 16, in 32 bits.
unfoldable pub number : List ℕ → Option ℕ
number cs = do n ← stoul cs; some (u32 n)

unfoldable pub lookup : ℕ → List (ℕ × ℕ) → Option ℕ
lookup addr [] = none
lookup addr (b ∷ bs) = let rest = lookup addr bs in if b.0 == addr then some b.1 else rest

unfoldable pub erase : ℕ → List (ℕ × ℕ) → List (ℕ × ℕ)
erase addr [] = []
erase addr (b ∷ bs) = let rest = erase addr bs in if b.0 == addr then rest else b ∷ rest

-- The registers, each in eight digits; the array has 32 of them.
unfoldable pub print_regs : List ℕ → List ℕ
print_regs [] = []
print_regs (r ∷ rs) = to_hex32_le r ++ print_regs rs

-- The last `n` passes of the loop that sets the registers, from register `i` on.
unfoldable pub read_regs : ℕ → ℕ → List ℕ → List ℕ → Option (List ℕ)
read_regs zero i text regs = some regs
read_regs (suc n) i text regs = elim (leb (i * 8 + 8) (length text)) [
  | true ↦ elim (from_hex32_le text (i * 8)) [
    | none ↦ none
    | some v ↦ read_regs n (i + 1) text (set regs i v)
  ]
  | false ↦ some regs
]

-- The program counter after the registers.
unfoldable pub read_pc : List ℕ → ℕ → Option ℕ
read_pc text pc = if leb (33 * 8) (length text) then from_hex32_le text (32 * 8) else some pc

-- The address between the first two commas, or after the only one.
unfoldable pub bp_address : List ℕ → ℕ → Option ℕ
bp_address text comma1 = elim (find_from 44 (comma1 + 1) text) [
  | none ↦ number (drop (comma1 + 1) text)
  | some comma2 ↦ number (take (comma2 - comma1 - 1) (drop (comma1 + 1) text))
]

abbrev pub Answer : Type 0 → Type 0
Answer B = Option (Server B × List ℕ)

module _ {B : Type 0} where
  abbrev pub port_of : Server B → Port B
  port_of s = s.iss.world.port

  abbrev pub with_port : Port B → Server B → Server B
  with_port p s = record s { iss = record (s.iss) { world = record (s.iss.world) { port = p } } }

  abbrev pub with_state : CpuState → Server B → Server B
  with_state c s = record s { iss = record (s.iss) { state = c } }

  unfoldable pub handle_read_regs : Server B → Answer B
  handle_read_regs s = some (s, print_regs s.iss.state.regs ++ to_hex32_le s.iss.state.pc)

  unfoldable pub handle_write_regs : List ℕ → Server B → Answer B
  handle_write_regs text s = do
    regs ← read_regs 32 0 text s.iss.state.regs
    pc ← read_pc text s.iss.state.pc
    some (with_state (record (s.iss.state) { regs = set regs 0 0; pc = pc }) s, ok_text)

module _ {B : Type 0} (socket : Socket B) where
  -- `n` bytes from `addr` on.
  unfoldable pub read_bytes : ℕ → ℕ → Port B → List ℕ × Port B
  read_bytes addr zero p = ([], p)
  read_bytes addr (suc n) p =
      let r = bus_read socket addr 1 p in
      let rest = read_bytes (u32 (addr + 1)) n r.1 in (hex_byte (r.0 &&& 0xFF) ++ rest.0, rest.1)

  -- A byte for each two digits.
  unfoldable pub write_bytes : ℕ → List ℕ → Port B → Option (Port B)
  write_bytes addr [] p = some p
  write_bytes addr (c ∷ []) p = some p
  write_bytes addr (c ∷ d ∷ cs) p = elim (stoul (c ∷ d ∷ [])) [
    | none ↦ none
    | some n ↦ write_bytes (u32 (addr + 1)) cs (bus_write socket addr (u8 n) 1 p)
  ]

  unfoldable pub handle_read_mem : List ℕ → Server B → Answer B
  handle_read_mem text s = elim (find 44 text) [
    | none ↦ some (s, e01_text)
    | some comma ↦ do
      addr ← number (take comma text)
      len ← number (drop (comma + 1) text)
      let r = read_bytes addr len (port_of s)
      some (with_port r.1 s, r.0)
  ]

  unfoldable pub handle_write_mem : List ℕ → Server B → Answer B
  handle_write_mem text s = elim (find 44 text) [
    | none ↦ some (s, e01_text)
    | some comma ↦ elim (find 58 text) [
      | none ↦ some (s, e01_text)
      | some colon ↦ do
        addr ← number (take comma text)
        p ← write_bytes addr (drop (colon + 1) text) (port_of s)
        some (with_port p s, ok_text)
    ]
  ]

  -- A breakpoint is set where there is none.
  unfoldable pub insert_bp : ℕ → Server B → Server B
  insert_bp addr s = elim (lookup addr s.breakpoints) [
    | some orig ↦ s
    | none ↦
        let r = bus_read socket addr 4 (port_of s) in
        record (with_port (bus_write socket addr ebreak_insn 4 r.1) s) {
          breakpoints = (addr, r.0) ∷ s.breakpoints;
        }
  ]

  unfoldable pub remove_bp : ℕ → Server B → Server B
  remove_bp addr s = elim (lookup addr s.breakpoints) [
    | none ↦ s
    | some orig ↦ record (with_port (bus_write socket addr orig 4 (port_of s)) s) {
      breakpoints = erase addr s.breakpoints;
    }
  ]

  unfoldable pub handle_insert_bp : List ℕ → Server B → Answer B
  handle_insert_bp text s = elim (find 44 text) [
    | none ↦ some (s, e01_text)
    | some comma1 ↦ do addr ← bp_address text comma1; some (insert_bp addr s, ok_text)
  ]

  unfoldable pub handle_remove_bp : List ℕ → Server B → Answer B
  handle_remove_bp text s = elim (find 44 text) [
    | none ↦ some (s, e01_text)
    | some comma1 ↦ do addr ← bp_address text comma1; some (remove_bp addr s, ok_text)
  ]
