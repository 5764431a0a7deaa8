-- ===== src/Debug/Sessions.antt =====
-- Sessions of the debugger, as exchanges of texts: `handle_client` of src/debug/gdb_server.cpp.
use virtual_so_c.Prelude.{
  ℕ, zero, suc, ◌<◌, List, [], ◌∷◌, ◌++◌, Bool, true, false, Option, none, some, length, ◌≡◌, refl,
  sym, ap, ◌∙◌, arith,
}
use mathlib.Core.List.{append_assoc}
use virtual_so_c.Cpu.Iss.Port.{Socket}
use virtual_so_c.Cpu.Iss.Loop.{Iss, step, resume}
use virtual_so_c.Debug.Packet.{
  Connection, read_until, read_packet, send_packet, Lacks, read_packet-frame,
}
use virtual_so_c.Debug.Protocol.{
  Ask, stop_reason, read_registers, step_core, go_on, write_registers, read_memory, write_memory,
  set_breakpoint, clear_breakpoint, unknown, letter, details, text_of, IsKnown, AllRequests, packet,
  frame-packet,
}
use virtual_so_c.Debug.Server.{
  Server, s05_text, handle_read_regs, handle_write_regs, handle_read_mem, handle_write_mem,
  handle_insert_bp, handle_remove_bp, Answer,
}
use virtual_so_c.Debug.Client.{
  Session, closed, crashed, spent, Reaction, leaves, throws, sends, answer, react, handle_client,
  waits, blocked, replies, halts, starts_with_0,
}

-- What the debugger sends: a packet for each request, and `+` for each answer.
unfoldable pub sent : List Ask → List ℕ
sent [] = []
sent (a ∷ rest) = packet (text_of a) ++ 43 ∷ sent rest

-- What it receives: `+` and a packet for each answer.
unfoldable pub received : List (List ℕ) → List ℕ
received [] = []
received (r ∷ rs) = 43 ∷ (packet r ++ received rs)

unfoldable pub is_spent : {B : Type 0} → Session B → Bool
is_spent spent = true
is_spent (closed s c) = false
is_spent crashed = false
is_spent blocked = false

-- What a list of requests comes to: all are answered, one throws, or one makes the core run and the
-- core never halts.
pub data Service (B : Type 0) : Type 0 where
  done : Server B → List (List ℕ) → Service B
  failed hung : Service B

unfoldable pub with_reply : {B : Type 0} → List ℕ → Service B → Service B
with_reply reply (done s rs) = done s (reply ∷ rs)
with_reply reply failed = failed
with_reply reply hung = hung

-- The session that these answers make, after the output `out`.
unfoldable pub outcome : {B : Type 0} → List ℕ → Service B → Session B
outcome out failed = crashed
outcome out hung = blocked
outcome out (done s rs) = closed s (record { input = []; output = out ++ (received rs ++ 43 ∷ []) })

outcome-received :
    {B : Type 0} (out reply : List ℕ) (o : Service B)
    → outcome ((out ++ 43 ∷ []) ++ packet reply) o ≡ outcome out (with_reply reply o)
unfolding outcome received with_reply
outcome-received out reply failed = refl
outcome-received out reply hung = refl
outcome-received out reply (done s rs) =
    ap (λ w. closed s (record { input = []; output = w })) (simp append_assoc)

-- A reaction that does not leave the loop.
data Goes {B : Type 0} (r : Reaction B) : Type 0 where
  crash : r ≡ throws → Goes r
  wait : r ≡ waits → Goes r
  replied : (s : Server B) (t : List ℕ) → r ≡ sends s t → Goes r

replies-Goes : {B : Type 0} (o : Answer B) → Goes (replies o)
unfolding replies
replies-Goes none = crash refl
replies-Goes (some r) = replied r.0 r.1 refl

halts-Goes : {B : Type 0} (o : Option (Iss B)) (s : Server B) → Goes (halts o s)
unfolding halts
halts-Goes none s = wait refl
halts-Goes (some i) s = replied (record s { iss = i }) s05_text refl

module _ {B : Type 0} (socket : Socket B) (until_halted : Iss B → Option (Iss B)) where
  -- What each request asks of the server.
  unfoldable pub respond : Ask → Server B → Reaction B
  respond stop_reason s = sends s s05_text
  respond read_registers s = replies (handle_read_regs s)
  respond (write_registers hex) s = replies (handle_write_regs hex s)
  respond (read_memory args) s = replies (handle_read_mem socket args s)
  respond (write_memory args) s = replies (handle_write_mem socket args s)
  respond step_core s = halts (until_halted (step s.iss)) s
  respond go_on s = halts (until_halted (resume s.iss)) s
  respond (set_breakpoint args) s = replies (handle_insert_bp socket (48 ∷ args) s)
  respond (clear_breakpoint args) s = replies (handle_remove_bp socket (48 ∷ args) s)
  respond (unknown c rest) s = sends s []

  -- The answers to a list of requests, each served by the server that the one before left.
  unfoldable pub serve : List Ask → Server B → Service B
  serve [] s = done s []
  serve (a ∷ rest) s = elim (respond a s) [
    | leaves ↦ done s []
    | throws ↦ failed
    | waits ↦ hung
    | sends s' reply ↦ with_reply reply (serve rest s')
  ]

  -- What the loop does after a packet, by what it leads to.
  unfoldable pub after : ℕ → Server B → Connection → Reaction B → Session B
  after fuel s c leaves = closed s c
  after fuel s c throws = crashed
  after fuel s c waits = blocked
  after fuel s c (sends s' t) = handle_client socket until_halted fuel s' (send_packet t c)

  pub handle_client-after :
      (fuel : ℕ) (s : Server B) (c : Connection)
      → handle_client socket until_halted (suc fuel) s c
        ≡ after fuel s (read_packet c).1 (react socket until_halted (read_packet c).0 s)
  unfolding handle_client after
  handle_client-after fuel s c = elim (react socket until_halted (read_packet c).0 s) [
    | leaves ↦ refl
    | throws ↦ refl
    | waits ↦ refl
    | sends s' t ↦ refl
  ]

  handle_client-reads :
      (fuel : ℕ) (s : Server B) (c c' : Connection) (text : List ℕ) (r : Reaction B)
      → read_packet c ≡ (text, c')
      → react socket until_halted text s ≡ r
      → handle_client socket until_halted (suc fuel) s c ≡ after fuel s c' r
  handle_client-reads fuel s c c' text r h k =
      handle_client-after fuel s c
      ∙ ap (λ q. after fuel s q.1 (react socket until_halted q.0 s)) h
      ∙ ap (after fuel s c') k

  react-respond :
      (a : Ask) (s : Server B) → IsKnown a → react socket until_halted (text_of a) s ≡ respond a s
  unfolding react answer respond text_of letter details IsKnown starts_with_0
  react-respond stop_reason s k = refl
  react-respond read_registers s k = refl
  react-respond step_core s k = refl
  react-respond go_on s k = refl
  react-respond (write_registers hex) s k = refl
  react-respond (read_memory args) s k = refl
  react-respond (write_memory args) s k = refl
  react-respond (set_breakpoint args) s k = refl
  react-respond (clear_breakpoint args) s k = refl
  react-respond (unknown c rest) s k = ground (arith, k.not_core, k.not_registers, k.not_memory)

  respond-Goes : (a : Ask) (s : Server B) → Goes (respond a s)
  unfolding respond
  respond-Goes stop_reason s = replied s s05_text refl
  respond-Goes read_registers s = replies-Goes (handle_read_regs s)
  respond-Goes step_core s = halts-Goes (until_halted (step s.iss)) s
  respond-Goes go_on s = halts-Goes (until_halted (resume s.iss)) s
  respond-Goes (write_registers hex) s = replies-Goes (handle_write_regs hex s)
  respond-Goes (read_memory args) s = replies-Goes (handle_read_mem socket args s)
  respond-Goes (write_memory args) s = replies-Goes (handle_write_mem socket args s)
  respond-Goes (set_breakpoint args) s = replies-Goes (handle_insert_bp socket (48 ∷ args) s)
  respond-Goes (clear_breakpoint args) s = replies-Goes (handle_remove_bp socket (48 ∷ args) s)
  respond-Goes (unknown c rest) s = replied s [] refl

  -- The debugger's end of the conversation.
  handle_client-end :
      (fuel : ℕ) (s : Server B) (out : List ℕ)
      → handle_client socket until_halted (suc fuel) s (record { input = []; output = out })
        ≡ outcome out (done s [])
  unfolding handle_client outcome received read_packet read_until react
  handle_client-end fuel s out = refl

  -- A session in which the debugger sends requests, whose texts have no `#` and, for an unknown
  -- request, start with none of the protocol's characters nor `k`, each as `$`, text, `#` and the
  -- sum of the text modulo 256 in two hexadecimal digits, and acknowledges each answer, and then
  -- closes: with more fuel than there are requests, the loop hands each request to its handler,
  -- in order and on the server that the one before left, and answers with `+` and one packet that
  -- holds the text of the answer and its sum, and then ends; if a request throws, so does the
  -- session, and if one makes the core run and the core never halts, the session waits.
  pub handle_client-serve :
      (asks : List Ask) (fuel : ℕ) (s : Server B) (out : List ℕ)
      → AllRequests asks
      → length asks < fuel
      → handle_client socket until_halted fuel s (record { input = sent asks; output = out })
        ≡ outcome out (serve asks s)
  unfolding sent AllRequests outcome after send_packet serve Lacks text_of
  handle_client-serve asks zero s out k l = absurd (omega arith)
  handle_client-serve [] (suc fuel) s out k l = handle_client-end fuel s out
  handle_client-serve (a ∷ asks) (suc fuel) s out (k, ks) l =
      let text : List ℕ = text_of a in
      let c : Connection = record { input = sent (a ∷ asks); output = out } in
      let c' : Connection = record { input = 43 ∷ sent asks; output = out ++ 43 ∷ [] } in
      let read : read_packet c ≡ (text, c') =
        ap (λ p. read_packet (record { input = p ++ 43 ∷ sent asks; output = out }))
          (sym (frame-packet text))
        ∙ read_packet-frame [] text (43 ∷ sent asks) out tt k.no_mark in
      let reads =
        handle_client-reads fuel s c c' text (respond a s) read (react-respond a s k.known) in
      elim (respond-Goes a s) [
        | crash e ↦ reads ∙ rw (serve, e) refl
        | wait e ↦ reads ∙ rw (serve, e) refl
        | replied s' t e ↦
            reads
            ∙ ap (after fuel s c') e
            ∙ ap
                (λ p.
                  handle_client socket until_halted fuel s'
                    (record { input = sent asks; output = (out ++ 43 ∷ []) ++ p }))
                (frame-packet t)
            ∙ handle_client-serve asks fuel s' ((out ++ 43 ∷ []) ++ packet t) ks (omega (arith, l))
            ∙ outcome-received out t (serve asks s')
            ∙ sym (rw (serve, e) refl)
      ]
