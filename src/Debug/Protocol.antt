-- ===== src/Debug/Protocol.antt =====
-- The requests and the packets of the debugger's protocol, as it describes them: what
-- src/debug/gdb_server.cpp is to read and to send.
use virtual_so_c.Debug.Hex.{hex_digit, hex_byte}
use virtual_so_c.Prelude.{
  ℕ, ◌<◌, List, [], ◌∷◌, ◌++◌, ◌≡◌, ◌≢◌, refl, arith, leb, u8, ◌+◌, ◌-◌, ◌/◌, ◌%◌, if◌then◌else◌,
}
use virtual_so_c.Debug.Packet.{frame, Lacks, checksum}

-- The requests of the protocol. `unknown` is a packet that starts with another character.
pub data Ask : Type 0 where
  stop_reason read_registers step_core go_on : Ask
  write_registers read_memory write_memory set_breakpoint clear_breakpoint : List ℕ → Ask
  unknown : ℕ → List ℕ → Ask

-- The text of a request: `?`, `g`, `s`, `c`, `G`, `m`, `M`, `Z0` and `z0`, with what follows them.
unfoldable pub letter : Ask → ℕ
letter stop_reason = 63
letter read_registers = 103
letter step_core = 115
letter go_on = 99
letter (write_registers hex) = 71
letter (read_memory args) = 109
letter (write_memory args) = 77
letter (set_breakpoint args) = 90
letter (clear_breakpoint args) = 122
letter (unknown c rest) = c

unfoldable pub details : Ask → List ℕ
details (write_registers hex) = hex
details (read_memory args) = args
details (write_memory args) = args
details (set_breakpoint args) = 48 ∷ args
details (clear_breakpoint args) = 48 ∷ args
details (unknown c rest) = rest
details _ = []

unfoldable pub text_of : Ask → List ℕ
text_of a = letter a ∷ details a

-- None of the characters of the protocol, nor `k`.
pub record IsUnknown (c : ℕ) : Type 0 where
  pub not_core : (c ≢ 63) × (c ≢ 115) × (c ≢ 99) × (c ≢ 107)
  pub not_registers : (c ≢ 103) × (c ≢ 71)
  pub not_memory : (c ≢ 109) × (c ≢ 77) × (c ≢ 90) × (c ≢ 122)

unfoldable pub IsKnown : Ask → Type 0
IsKnown (unknown c rest) = IsUnknown c
IsKnown _ = Unit

-- A request whose text has no `#`.
pub record IsRequest (a : Ask) : Type 0 where
  pub known : IsKnown a
  pub no_mark : Lacks 35 (text_of a)

unfoldable pub AllRequests : List Ask → Type 0
AllRequests [] = Unit
AllRequests (a ∷ rest) = IsRequest a × AllRequests rest

-- A packet of the protocol: `$`, the text, `#`, and in two digits the sum of the text modulo 256.
unfoldable pub sum : List ℕ → ℕ
sum [] = 0
sum (c ∷ cs) = c + sum cs

-- `0` to `9` and `a` to `f`.
unfoldable pub digit : ℕ → ℕ
digit n = if leb 10 n then 97 + (n - 10) else 48 + n

unfoldable pub packet : List ℕ → List ℕ
packet text = 36 ∷ (text ++ 35 ∷ digit (sum text % 256 / 16) ∷ digit (sum text % 16) ∷ [])

checksum-sum : (text : List ℕ) (acc : ℕ) → acc < 256 → checksum text acc ≡ (acc + sum text) % 256
unfolding checksum sum
checksum-sum [] acc h = omega (arith, h)
checksum-sum (c ∷ cs) acc h = omega (arith, checksum-sum cs (u8 (acc + c)) (omega arith))

hex_digit-digit : (n : ℕ) → hex_digit n ≡ digit n
unfolding hex_digit digit
hex_digit-digit n = ground arith

pub frame-packet : (text : List ℕ) → frame text ≡ packet text
unfolding frame packet hex_byte
frame-packet text =
    let total : checksum text 0 ≡ sum text % 256 =
      omega (arith, checksum-sum text 0 (omega arith)) in
    let low : sum text % 256 % 16 ≡ sum text % 16 = omega arith in
    rw (total, hex_digit-digit (sum text % 256 / 16), hex_digit-digit (sum text % 256 % 16), low)
      refl
