-- ===== src/Tests/Sd.antt =====
-- A transfer of the SD controller: src/sd/sd_ctrl.cpp.
use virtual_so_c.Prelude.{ℕ, ◌%◌, ◌^◌, List, true, some, replicate, ◌≡◌, refl, arith}
use virtual_so_c.Mem.Ram.{b_transport, put}
use virtual_so_c.Sd.{read_blocks}
use virtual_so_c.Sd.Blocks.{image, read_blocks-put}

-- Each block is filled with its number.
abbrev card : ℕ → List ℕ
card block = replicate 512 (block % 2 ^ 8)

read_blocks-put_example :
    read_blocks b_transport (λ k. some (card k)) 2 5 10 (replicate 1100 0)
    ≡ (put (replicate 1100 0) 10 (image card (λ _. refl) 5 2), true)
read_blocks-put_example =
    read_blocks-put card (λ _. refl) 2 5 10 (replicate 1100 0) (omega arith) (omega arith)
