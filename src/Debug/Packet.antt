-- ===== src/Debug/Packet.antt =====
-- The packets of the debugger's protocol: `read_packet` and `send_packet` of
-- src/debug/gdb_server.cpp. A connection is what is still to be read and what has been written; a
-- read at the end of the input fails, and a read of two bytes takes what there is.
use virtual_so_c.Prelude.{
  ℕ, ◌+◌, List, [], ◌∷◌, ◌++◌, true, false, ◌==◌, if◌then◌else◌, u8, drop, ◌≡◌, ◌≢◌, refl, arith,
}
use mathlib.Core.List.{append_assoc}
use virtual_so_c.Debug.Hex.{hex_byte}

pub record Connection : Type 0 where
  pub input : List ℕ
  pub output : List ℕ

-- The loop that reads up to a character: what it passes, and what is left after the character.
unfoldable pub read_until : ℕ → List ℕ → List ℕ × List ℕ
read_until mark [] = ([], [])
read_until mark (c ∷ cs) =
    let rest = read_until mark cs in if c == mark then ([], cs) else (c ∷ rest.0, rest.1)

-- The payload, and the connection after its two digits of checksum and the `+` in answer.
unfoldable pub read_packet : Connection → List ℕ × Connection
read_packet c =
    let start = read_until 36 c.input in
    let payload = read_until 35 start.1 in
    (payload.0, record { input = drop 2 payload.1; output = c.output ++ 43 ∷ [] })

-- The checksum, in a `uint8_t`.
unfoldable pub checksum : List ℕ → ℕ → ℕ
checksum [] acc = acc
checksum (c ∷ cs) acc = checksum cs (u8 (acc + c))

unfoldable pub frame : List ℕ → List ℕ
frame text = 36 ∷ (text ++ (35 ∷ hex_byte (checksum text 0)))

-- One byte of answer is taken from the input.
unfoldable pub send_packet : List ℕ → Connection → Connection
send_packet text c = record { input = drop 1 c.input; output = c.output ++ frame text }

-- A text without a mark.
unfoldable pub Lacks : ℕ → List ℕ → Type 0
Lacks mark [] = Unit
Lacks mark (c ∷ cs) = (c ≢ mark) × Lacks mark cs

read_until-append :
    (mark : ℕ) (text rest : List ℕ)
    → Lacks mark text
    → read_until mark (text ++ mark ∷ rest) ≡ (text, rest)
unfolding read_until Lacks
read_until-append mark [] rest h = let here : (mark == mark) ≡ true = ground arith in rw here refl
read_until-append mark (c ∷ cs) rest (ne, h) =
    let other : (c == mark) ≡ false = ground (arith, ne) in
    rw (other, read_until-append mark cs rest h) refl

two_digits : (b : ℕ) (rest : List ℕ) → drop 2 (hex_byte b ++ rest) ≡ rest
unfolding hex_byte
two_digits b rest = refl

-- A text without `#` that is sent as a packet is the payload that is read, whatever without `$`
-- stands before the packet and whatever follows it; what follows is left in the input, and `+` is
-- the answer.
pub read_packet-frame :
    (noise text rest out : List ℕ)
    → Lacks 36 noise
    → Lacks 35 text
    → read_packet (record { input = noise ++ (frame text ++ rest); output = out })
      ≡ (text, record { input = rest; output = out ++ 43 ∷ [] })
unfolding read_packet frame
read_packet-frame noise text rest out n t =
    let tail : List ℕ = hex_byte (checksum text 0) ++ rest in
    let body : (text ++ (35 ∷ hex_byte (checksum text 0))) ++ rest ≡ text ++ 35 ∷ tail =
      append_assoc text (35 ∷ hex_byte (checksum text 0)) rest in
    rw
      (
        body,
        read_until-append 36 noise (text ++ 35 ∷ tail) n,
        read_until-append 35 text tail t,
        two_digits (checksum text 0) rest,
      )
      refl
