-- ===== src/Tests/Small.antt =====
-- The boot ROM, the SPI master, the framebuffer controller and the audio output on concrete inputs:
-- src/mem/bootrom.cpp, src/io/spi.cpp, src/video/fb_ctrl.cpp, src/audio/audio_out.cpp.
use virtual_so_c.Prelude.{ℕ, List, [], ◌∷◌, some, true, false, ◌≡◌, arith}
use virtual_so_c.Tlm.{Command, Response, Payload}
use virtual_so_c.Tlm.Line.{watch}
use virtual_so_c.Audio as Audio
use virtual_so_c.Video.FbCtrl as FbCtrl
use virtual_so_c.Mem.Ram.{put, transfer}
use virtual_so_c.Mem.BootRom.{empty_rom, load_binary, b_transport, read-load_binary}
use virtual_so_c.Io.Spi.{reset, talk, converse, talk-converse}

abbrev image : List ℕ
image = 0x13 ∷ 0x05 ∷ 0x10 ∷ 0x00 ∷ 0x73 ∷ []

read-load_binary_example :
    let loaded = put (empty_rom 8) 0 image in
    let written = b_transport loaded (transfer Command.write_command 0 2 (9 ∷ 9 ∷ [])) in
    let back = b_transport written.0 (transfer Command.read_command 1 4 []) in
    (load_binary image (empty_rom 8) ≡ some loaded)
    × (written.1.status ≡ Response.command_error)
    × (back.1.status ≡ Response.ok_response)
    × (back.1.bytes ≡ 0x05 ∷ 0x10 ∷ 0x00 ∷ 0x73 ∷ [])
read-load_binary_example =
    read-load_binary (empty_rom 8) image [] (9 ∷ 9 ∷ []) 1 4 0 2 (omega arith) (omega arith)
      (omega arith) (omega arith)

-- A peripheral that answers with the byte before.
abbrev echo : ℕ → ℕ → ℕ × ℕ
echo b before = (before, b)

talk-converse_example : talk echo (1 ∷ 0x102 ∷ 3 ∷ []) (reset 7) ≡ (7 ∷ 1 ∷ 2 ∷ [], 3)
unfolding converse
talk-converse_example = talk-converse echo (1 ∷ 0x102 ∷ 3 ∷ []) (reset 7)

-- Two swaps, the first acknowledged.
abbrev swaps : List Payload
swaps =
    transfer Command.write_command 0x10 4 (1 ∷ 0 ∷ 0 ∷ 0 ∷ [])
    ∷ transfer Command.write_command 0x14 4 (0 ∷ 0 ∷ 0 ∷ 0 ∷ [])
    ∷ transfer Command.write_command 0x10 4 (1 ∷ 0 ∷ 0 ∷ 0 ∷ [])
    ∷ []

watch-pending_example :
    let end = watch FbCtrl.pending FbCtrl.step swaps FbCtrl.reset false in
    end.1 ≡ FbCtrl.pending end.0
watch-pending_example = FbCtrl.watch-pending swaps

register-access_example :
    (Audio.access false 0x0C 0 (Audio.access true 0x08 77 Audio.reset).state).val
    ≡ (Audio.access false 0x0C 0 Audio.reset).val
register-access_example =
    Audio.register-access 0x08 0x0C 77 Audio.reset (omega arith) (omega arith) (omega arith)
      (omega arith)
