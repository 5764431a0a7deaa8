-- ===== src/Tests/Debug.antt =====
-- The debugger's stub on concrete requests: src/debug/gdb_server.cpp.
use virtual_so_c.Prelude.{
  ℕ, ◌+◌, ◌≤◌, List, [], ◌∷◌, ◌++◌, some, true, false, replicate, get_or, ◌≡◌, refl, sym, ◌∙◌,
  arith, inl, inr, ◌⊎◌, zero, suc, Option,
}
use virtual_so_c.Mem.Ram.{put}
use virtual_so_c.Mem.Host.{ram}
use virtual_so_c.Cpu.State.{initial}
use virtual_so_c.Cpu.Mmu.Walk.{flushed}
use virtual_so_c.Cpu.Iss.Port.{Port, no_dmi}
use virtual_so_c.Cpu.Iss.Loop.{Iss}
use virtual_so_c.Debug.Hex.{
  hex_byte, hex_digit, signed, skip_space, skip_prefix, magnitude, read_digits, is_digit,
  digit_value,
}
use virtual_so_c.Debug.Packet.{frame, checksum, read_packet, Lacks, read_packet-frame}
use virtual_so_c.Debug.Server.{
  Server, ok_text, number, port_of, with_port, with_state, handle_read_regs, handle_write_regs,
  handle_read_mem, handle_write_mem,
}
use virtual_so_c.Debug.Client.{handle_client}
use virtual_so_c.Debug.Sessions.{sent, is_spent, serve, outcome, handle_client-serve}
use virtual_so_c.Debug.Protocol.{
  AllRequests, Ask, stop_reason, step_core, unknown, IsUnknown, IsKnown, text_of, letter, details,
}
use virtual_so_c.Debug.Ends.{handle_client-ends}
use virtual_so_c.Debug.Registers.{AllWords, handle_write_regs-handle_read_regs}
use virtual_so_c.Debug.Memory.{IsRamPort}
use virtual_so_c.Debug.Transfers.{print_bytes, AllBytes, handle_read_mem-handle_write_mem}
use mathlib.Core.Bool.{true≢false}
use virtual_so_c.Debug.Bytes.{IsBytes}
use virtual_so_c.Debug.Patches.{Apart, Free}
use virtual_so_c.Debug.Breakpoints.{
  Request, inserts, removes, requested, AllAt, cleared, cleared-requested,
}

abbrev memory : List ℕ
memory = 1 ∷ 2 ∷ 3 ∷ 4 ∷ 5 ∷ 6 ∷ 7 ∷ 8 ∷ 9 ∷ []

-- A server in front of a halted core.
abbrev server : Server (List ℕ)
server = record {
  iss = record {
    state = record initial { regs = replicate 32 0xFEDCBA98; pc = 0x80000000 };
    world = record {
      port = no_dmi memory;
      tlb = flushed;
      mem_fault = false;
      mem_fault_cause = 0;
      mem_fault_vaddr = 0;
    };
    halted = true;
    single_step = false;
    stop_on_ebreak = true;
    insn_count = 0;
  };
  breakpoints = [];
}

-- The core halts at once.
abbrev at_once : Iss (List ℕ) → Option (Iss (List ℕ))
at_once i = some (record i { halted = true })

read_packet-frame_example :
    read_packet (record { input = 43 ∷ (36 ∷ 103 ∷ 35 ∷ 54 ∷ 55 ∷ 43 ∷ []); output = [] })
    ≡ (103 ∷ [], record { input = 43 ∷ []; output = 43 ∷ [] })
unfolding frame checksum hex_byte hex_digit Lacks
read_packet-frame_example =
    read_packet-frame (43 ∷ []) (103 ∷ []) (43 ∷ []) [] ((λ e. absurd (omega (arith, e))), tt)
      ((λ e. absurd (omega (arith, e))), tt)

-- `?`, a step, and a request that is not known.
abbrev requests : List Ask
requests = stop_reason ∷ step_core ∷ unknown 88 (49 ∷ []) ∷ []

x_IsUnknown : IsUnknown 88
x_IsUnknown = record {
  not_core = (ground arith, ground arith, ground arith, ground arith);
  not_registers = (ground arith, ground arith);
  not_memory = (ground arith, ground arith, ground arith, ground arith);
}

requests-AllRequests : AllRequests requests
unfolding AllRequests IsKnown Lacks text_of letter details
requests-AllRequests = (
  record { known = tt; no_mark = ((λ e. absurd (omega (arith, e))), tt) },
  (
    record { known = tt; no_mark = ((λ e. absurd (omega (arith, e))), tt) },
    (
      record {
        known = x_IsUnknown;
        no_mark = ((λ e. absurd (omega (arith, e))), ((λ e. absurd (omega (arith, e))), tt));
      },
      tt,
    ),
  ),
)

handle_client-serve_example :
    handle_client ram at_once 4 server (record { input = sent requests; output = [] })
    ≡ outcome [] (serve ram at_once requests server)
handle_client-serve_example =
    handle_client-serve ram at_once requests 4 server [] requests-AllRequests (omega arith)

handle_client-ends_example :
    is_spent (
      handle_client ram at_once 8 server
        (record { input = 36 ∷ 109 ∷ 48 ∷ 35 ∷ 57 ∷ 36 ∷ []; output = [] }))
    ≡ false
handle_client-ends_example =
    handle_client-ends ram at_once 8 server
      (record { input = 36 ∷ 109 ∷ 48 ∷ 35 ∷ 57 ∷ 36 ∷ []; output = [] }) (omega arith)

words : AllWords (replicate 32 0xFEDCBA98)
unfolding AllWords
words = of_count 32
  where
    of_count : (n : ℕ) → AllWords (replicate n 0xFEDCBA98)
    of_count zero = tt
    of_count (suc n) = (omega arith, of_count n)

-- Another core, whose registers are all clear.
abbrev fresh : Server (List ℕ)
fresh = with_state initial server

handle_write_regs-handle_read_regs_example :
    (text : List ℕ) × (handle_read_regs server ≡ some (server, text))
    × (handle_write_regs text fresh
        ≡ some (
          with_state (record initial { regs = 0 ∷ replicate 31 0xFEDCBA98; pc = 0x80000000 }) fresh,
          ok_text,
        ))
handle_write_regs-handle_read_regs_example =
    handle_write_regs-handle_read_regs server fresh refl refl words (omega arith)

memory-IsRamPort : IsRamPort (port_of server)
memory-IsRamPort = record {
  valid = (omega arith, omega arith);
  granted = λ e. absurd (true≢false (sym e));
}

-- `M1,2:AABB`, then `m1,2`.
handle_read_mem-handle_write_mem_example :
    let request : List ℕ = 49 ∷ 44 ∷ 50 ∷ [] in
    (p : Port (List ℕ)) × (q : Port (List ℕ)) × (handle_write_mem ram
        (request ++ 58 ∷ print_bytes (0xAA ∷ 0xBB ∷ []))
        server
      ≡ some (with_port p server, ok_text))
    × (p.bus ≡ put memory 1 (0xAA ∷ 0xBB ∷ []))
    × (handle_read_mem ram request (with_port p server)
        ≡ some (with_port q server, print_bytes (0xAA ∷ 0xBB ∷ [])))
    × (q.bus ≡ p.bus)
unfolding number signed skip_space skip_prefix magnitude read_digits is_digit digit_value Lacks
    AllBytes
handle_read_mem-handle_write_mem_example =
    handle_read_mem-handle_write_mem server (0xAA ∷ 0xBB ∷ []) (49 ∷ []) (50 ∷ []) 1 refl refl
      ((λ e. absurd (omega (arith, e))), tt) ((λ e. absurd (omega (arith, e))), tt)
      ((λ e. absurd (omega (arith, e))), tt) (omega arith, (omega arith, tt)) (omega arith)
      memory-IsRamPort

abbrev Spot : ℕ → Type 0
Spot a = (a ≡ 0) ⊎ (a ≡ 4)

spots-Apart : (x y : ℕ) → Spot x → Spot y → (x ≡ y) ⊎ Apart x y
spots-Apart x y (inl p) (inl q) = inl (p ∙ sym q)
spots-Apart x y (inl p) (inr q) = inr (inl (omega (arith, p, q)))
spots-Apart x y (inr p) (inl q) = inr (inr (omega (arith, p, q)))
spots-Apart x y (inr p) (inr q) = inl (p ∙ sym q)

spots-le : (x : ℕ) → Spot x → x + 4 ≤ 9
spots-le x (inl p) = omega (arith, p)
spots-le x (inr p) = omega (arith, p)

each_byte : (bs : List ℕ) → AllBytes bs → IsBytes bs
unfolding AllBytes
each_byte [] k j = omega arith
each_byte (b ∷ bs) (k, ks) zero = k
each_byte (b ∷ bs) (k, ks) (suc j) = each_byte bs ks j

memory-IsBytes : IsBytes memory
unfolding AllBytes
memory-IsBytes = each_byte memory (
  omega arith,
  (
    omega arith,
    (
      omega arith,
      (omega arith, (omega arith, (omega arith, (omega arith, (omega arith, (omega arith, tt)))))),
    ),
  ),
)

abbrev changes : List Request
changes = inserts 0 ∷ inserts 4 ∷ inserts 0 ∷ removes 0 ∷ removes 4 ∷ inserts 4 ∷ []

changes-AllAt : AllAt Spot changes
unfolding AllAt
changes-AllAt = (inl refl, (inr refl, (inl refl, (inl refl, (inr refl, (inr refl, tt))))))

cleared-requested_example :
    let t = requested changes server in
    ((j : ℕ) → Free j t.breakpoints → get_or (port_of t).bus j 0 ≡ get_or memory j 0)
    × ((port_of (cleared t.breakpoints t)).bus ≡ memory)
cleared-requested_example =
    cleared-requested memory Spot spots-Apart spots-le memory-IsBytes changes server changes-AllAt
      memory-IsRamPort refl refl
