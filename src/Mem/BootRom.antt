-- ===== src/Mem/BootRom.antt =====
-- The boot ROM: src/mem/bootrom.h and src/mem/bootrom.cpp. `SC_REPORT_FATAL`, which ends the
-- simulation, is `none`; the reports of refused accesses are not modelled. The bytes of the file are
-- an argument.
use virtual_so_c.Prelude.{
  ℕ, zero, suc, ◌+◌, ◌-◌, ◌^◌, ◌<◌, ◌≤◌, List, [], ◌∷◌, ◌++◌, Option, none, some, false, ltb,
  if◌then◌else◌, u32, length, take, drop, replicate, ◌≡◌, refl, arith, ap, ◌∙◌, sym,
}
use virtual_so_c.Tlm.{Command, Response, Payload}
use virtual_so_c.Bus.Router.{Dmi}
use virtual_so_c.Mem.Ram.{put, fetch, transfer, in_bounds, length-put, fetch-put}

-- `mem_(size_, 0)`.
abbrev pub empty_rom : ℕ → List ℕ
empty_rom size = replicate size 0

unfoldable pub load_binary : List ℕ → List ℕ → Option (List ℕ)
load_binary file rom = if ltb (length rom) (u32 (length file)) then none else some (put rom 0 file)

unfoldable pub b_transport : List ℕ → Payload → List ℕ × Payload
b_transport rom p =
    let at = u32 p.address in
    if ltb (length rom) (u32 (at + p.length))
    then (rom, record p { status = Response.address_error })
    else elim (p.command) [
      | Command.read_command ↦ (
        rom,
        record p {
          bytes = fetch rom at p.length ++ drop p.length p.bytes;
          status = Response.ok_response;
        },
      )
      | Command.write_command ↦ (rom, record p { status = Response.command_error })
      | Command.ignore_command ↦ (rom, record p { status = Response.command_error })
    ]

unfoldable pub get_direct_mem_ptr : List ℕ → ℕ → Option Dmi
get_direct_mem_ptr rom addr =
    some (record { dmi_ptr = 0; start_address = 0; end_address = u32 (length rom + (2 ^ 32 - 1)) })

-- A block inside the first bytes.
fetch-take : (rom : List ℕ) (at n l : ℕ) → at + n ≤ l → fetch (take l rom) at n ≡ fetch rom at n
fetch-take rom at zero l h = refl
fetch-take [] zero (suc n) zero h = absurd (omega arith)
fetch-take [] zero (suc n) (suc l) h = refl
fetch-take [] (suc at) (suc n) zero h = absurd (omega arith)
fetch-take [] (suc at) (suc n) (suc l) h = refl
fetch-take (x ∷ xs) zero (suc n) zero h = absurd (omega arith)
fetch-take (x ∷ xs) zero (suc n) (suc l) h = ap (λ t. x ∷ t) (fetch-take xs zero n l (omega arith))
fetch-take (x ∷ xs) (suc at) (suc n) zero h = absurd (omega arith)
fetch-take (x ∷ xs) (suc at) (suc n) (suc l) h = fetch-take xs at (suc n) l (omega arith)

fetch-loaded :
    (rom file : List ℕ) (at n : ℕ)
    → length file ≤ length rom
    → at + n ≤ length file
    → fetch (put rom 0 file) at n ≡ fetch file at n
fetch-loaded rom file at n f h =
    sym (fetch-take (put rom 0 file) at n (length file) h)
    ∙ ap (λ t. fetch t at n) (fetch-put rom zero file (omega arith))

-- With a ROM whose size is a 32-bit word and a file that fits in it, loading succeeds, a write
-- inside the ROM is then refused with a command error, and a read of a range inside the file
-- returns the file's bytes and leaves the rest of the reader's buffer.
pub read-load_binary :
    (rom file old bs : List ℕ) (at n to m : ℕ)
    → length rom < 2 ^ 32
    → length file ≤ length rom
    → at + n ≤ length file
    → to + m ≤ length rom
    → let loaded = put rom 0 file in
      let written = b_transport loaded (transfer Command.write_command to m bs) in
      let back = b_transport written.0 (transfer Command.read_command at n old) in
      (load_binary file rom ≡ some loaded)
      × (written.1.status ≡ Response.command_error)
      × (back.1.status ≡ Response.ok_response)
      × (back.1.bytes ≡ fetch file at n ++ drop n old)
unfolding load_binary b_transport
read-load_binary rom file old bs at n to m s f h w =
    let size : length (put rom 0 file) ≡ length rom = length-put rom 0 file in
    let small : ltb (length rom) (u32 (length file)) ≡ false = ground (arith, s, f) in
    let first : ltb (length (put rom 0 file)) (u32 (u32 to + m)) ≡ false =
      in_bounds (put rom 0 file) to m (omega (arith, s, w)) (omega (arith, size, w)) in
    let second : ltb (length (put rom 0 file)) (u32 (u32 at + n)) ≡ false =
      in_bounds (put rom 0 file) at n (omega (arith, s, f, h)) (omega (arith, size, f, h)) in
    let here : u32 at ≡ at = omega (arith, s, f, h) in
    rw (small, first, second, here)
      (refl, refl, refl, ap (λ t. t ++ drop n old) (fetch-loaded rom file at n f h))
