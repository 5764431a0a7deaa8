-- ===== src/Tests/Uart.antt =====
-- The UART on concrete requests: src/io/uart.cpp.
use virtual_so_c.Prelude.{ℕ, List, [], ◌∷◌, ◌++◌, ◌≡◌, arith, length, ◌≤◌, false}
use virtual_so_c.Tlm.{Command}
use virtual_so_c.Tlm.Line.{watch}
use virtual_so_c.Mem.Ram.{transfer}
use virtual_so_c.Io.Uart.{reset, interrupting}
use virtual_so_c.Io.Uart.Queue.{
  Request, arrives, bus, run, all_delivered, all_accepted, all_delivered-rx_fifo, run-room,
}
use virtual_so_c.Io.Uart.Interrupt.{step, watch-interrupting}

abbrev byte_read : ℕ → Request
byte_read a = bus (transfer Command.read_command a 1 (0 ∷ []))

abbrev byte_write : ℕ → ℕ → Request
byte_write a v = bus (transfer Command.write_command a 1 (v ∷ []))

abbrev chatter : List Request
chatter =
    byte_write 1 1
    ∷ arrives 104
    ∷ arrives 105
    ∷ byte_read 0
    ∷ byte_write 0 33
    ∷ byte_read 5
    ∷ arrives 106
    ∷ []

all_delivered-rx_fifo_example :
    all_delivered chatter reset ++ (run chatter reset).rx_fifo ≡ all_accepted chatter reset
all_delivered-rx_fifo_example =
    all_delivered-rx_fifo chatter reset
      (
        omega arith,
        (
          omega arith,
          (omega arith, (omega arith, (omega arith, (omega arith, (omega arith, tt))))),
        ),
      )
      tt

run-room_example : length (run chatter reset).rx_fifo ≤ 16
run-room_example = run-room chatter reset (omega arith)

watch-interrupting_example :
    let end = watch interrupting step chatter reset false in end.1 ≡ interrupting end.0
watch-interrupting_example = watch-interrupting chatter
