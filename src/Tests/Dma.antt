-- ===== src/Tests/Dma.antt =====
-- Transfers of the DMA engine: src/dma/dma_engine.cpp.
use virtual_so_c.Prelude.{ℕ, List, [], ◌++◌, Bool, true, some, replicate, ◌≡◌, arith, inl}
use virtual_so_c.Mem.Ram.{b_transport, put, fetch}
use virtual_so_c.Dma.{burst}
use virtual_so_c.Dma.Ends.{burst-Ends}
use virtual_so_c.Dma.Copies.{burst-put}

abbrev memory : List ℕ
memory = replicate 300 7 ++ replicate 300 0

-- 260 bytes go in two bursts.
burst-put_example :
    burst b_transport [] 260 260 0 320 memory ≡ some (put memory 320 (fetch memory 0 260), true)
burst-put_example =
    burst-put [] 260 260 0 320 memory (omega arith) (omega arith) (omega arith) (omega arith)
      (omega arith) (inl (omega arith))

burst-Ends_example : (r : List ℕ × Bool) × (burst b_transport [] 1000 1000 0 320 memory ≡ some r)
burst-Ends_example = burst-Ends b_transport [] 1000 1000 0 320 memory (omega arith) (omega arith)
