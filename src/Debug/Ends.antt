-- ===== src/Debug/Ends.antt =====
-- Every session of the debugger ends: `handle_client` of src/debug/gdb_server.cpp.
use virtual_so_c.Prelude.{
  ℕ, zero, suc, ◌≤◌, ◌<◌, List, [], ◌∷◌, false, ◌==◌, drop, length, ◌≡◌, refl, ap, ◌∙◌, arith,
  if-ind, Option,
}
use virtual_so_c.Cpu.Iss.Port.{Socket}
use virtual_so_c.Cpu.Iss.Loop.{Iss}
use virtual_so_c.Debug.Packet.{Connection, read_until, read_packet, send_packet}
use virtual_so_c.Debug.Server.{Server}
use virtual_so_c.Debug.Client.{Reaction, leaves, throws, sends, react, handle_client, waits}
use virtual_so_c.Debug.Sessions.{is_spent, after, handle_client-after}

read_until-le : (mark : ℕ) (cs : List ℕ) → length (read_until mark cs).1 ≤ length cs
unfolding read_until
read_until-le mark [] = omega arith
read_until-le mark (c ∷ cs) =
    if-ind (λ (r : List ℕ × List ℕ). length r.1 ≤ length (c ∷ cs)) (c == mark) ([], cs)
      (c ∷ (read_until mark cs).0, (read_until mark cs).1) (omega arith)
      (omega (arith, read_until-le mark cs))

read_until-shorter : (mark c : ℕ) (cs : List ℕ) → length (read_until mark (c ∷ cs)).1 ≤ length cs
unfolding read_until
read_until-shorter mark c cs =
    if-ind (λ (r : List ℕ × List ℕ). length r.1 ≤ length cs) (c == mark) ([], cs)
      (c ∷ (read_until mark cs).0, (read_until mark cs).1) (omega arith) (read_until-le mark cs)

drop-le : (n : ℕ) (cs : List ℕ) → length (drop n cs) ≤ length cs
drop-le zero cs = omega arith
drop-le (suc n) [] = omega arith
drop-le (suc n) (c ∷ cs) = omega (arith, drop-le n cs)

read_packet-shorter :
    (c : ℕ) (cs out : List ℕ)
    → length (read_packet (record { input = c ∷ cs; output = out })).1.input ≤ length cs
unfolding read_packet
read_packet-shorter c cs out =
    let start : List ℕ = (read_until 36 (c ∷ cs)).1 in
    let payload : List ℕ = (read_until 35 start).1 in
    omega (arith, read_until-shorter 36 c cs, read_until-le 35 start, drop-le 2 payload)

module _ {B : Type 0} (socket : Socket B) (until_halted : Iss B → Option (Iss B)) where
  ends_empty :
      (fuel : ℕ) (s : Server B) (out : List ℕ)
      → is_spent
          (handle_client socket until_halted (suc fuel) s (record { input = []; output = out }))
        ≡ false
  unfolding handle_client is_spent read_packet read_until react
  ends_empty fuel s out = refl

  next_input-le :
      (text : List ℕ) (c : Connection) → length (send_packet text c).input ≤ length c.input
  unfolding send_packet
  next_input-le text c = drop-le 1 c.input

  after-ends :
      (fuel : ℕ) (s : Server B) (c : Connection) (r : Reaction B)
      → ((s' : Server B) (text : List ℕ)
          → is_spent (handle_client socket until_halted fuel s' (send_packet text c)) ≡ false)
      → is_spent (after socket until_halted fuel s c r) ≡ false
  unfolding after is_spent
  after-ends fuel s c leaves k = refl
  after-ends fuel s c throws k = refl
  after-ends fuel s c waits k = refl
  after-ends fuel s c (sends s' text) k = k s' text

  ends :
      (fuel : ℕ) (s : Server B) (cs out : List ℕ)
      → length cs < fuel
      → is_spent (handle_client socket until_halted fuel s (record { input = cs; output = out }))
        ≡ false
  ends zero s cs out l = absurd (omega arith)
  ends (suc fuel) s [] out l = ends_empty fuel s out
  ends (suc fuel) s (x ∷ xs) out l =
      let c : Connection = record { input = x ∷ xs; output = out } in
      let left : length (read_packet c).1.input ≤ length xs = read_packet-shorter x xs out in
      ap is_spent (handle_client-after socket until_halted fuel s c)
      ∙ after-ends fuel s (read_packet c).1 (react socket until_halted (read_packet c).0 s)
          λ s' text.
            ends fuel s' (send_packet text (read_packet c).1).input
              (send_packet text (read_packet c).1).output
              (omega (arith, left, next_input-le text (read_packet c).1, l))

  -- Whatever the debugger sends, with more fuel than there are bytes to read, the loop comes to
  -- an end: it is left, a request throws, or it waits for a core that never halts.
  pub handle_client-ends :
      (fuel : ℕ) (s : Server B) (c : Connection)
      → length c.input < fuel
      → is_spent (handle_client socket until_halted fuel s c) ≡ false
  handle_client-ends fuel s c = ends fuel s c.input c.output
