-- ===== src/Tests/Mem.antt =====
-- The memories on concrete bytes: src/mem.
use virtual_so_c.Prelude.{ℕ, List, [], ◌∷◌, length, get_or, replicate, ◌≡◌, arith, inr}
use virtual_so_c.Tlm.{Command, Response}
use virtual_so_c.Mem.Ram.{b_transport, transfer, read-write}

abbrev word : List ℕ
word = 0x78 ∷ 0x56 ∷ 0x34 ∷ 0x12 ∷ []

read-write_example :
    let written = b_transport (replicate 8 0) (transfer Command.write_command 2 4 word) in
    let back = b_transport written.0 (transfer Command.read_command 2 4 (replicate 4 9)) in
    (back.1.bytes ≡ word)
    × (written.1.status ≡ Response.ok_response)
    × (back.1.status ≡ Response.ok_response)
    × (length back.0 ≡ 8)
    × (get_or back.0 6 0 ≡ 0)
read-write_example =
    read-write (replicate 8 0) word (replicate 4 9) 2 4 6 (omega arith) (omega arith) (omega arith)
      (inr (omega arith))
