-- ===== src/Platform/Boot.antt =====
-- Loading a program into the platform: the end of the constructor of GamingCPU_VP in
-- src/platform/gamingcpu_vp.cpp. The RAM and the boot ROM are their bytes.
use virtual_so_c.Prelude.{
  ℕ, ◌+◌, ◌-◌, List, [], ◌∷◌, Option, none, some, leb, ◌&&◌, if◌then◌else◌, length,
}
use virtual_so_c.Mem.Ram.{put}
use virtual_so_c.Elf.Loader.{Write, Load, returned, threw, overran, load_elf}
use virtual_so_c.Sd.Card.{SdCardModel, closed, open_image, read_block}
use virtual_so_c.Platform.MemoryMap.{ram_base, ram_size, bootrom_base, bootrom_size}

pub record Board : Type 0 where
  pub ram : List ℕ
  pub bootrom : List ℕ

-- The callback given to `load_elf`; what is in neither memory is dropped.
unfoldable pub place : Write → Board → Board
place w b =
    let n = length w.bytes in
    if leb ram_base w.paddr && leb (w.paddr + n) (ram_base + ram_size)
    then record b { ram = put b.ram (w.paddr - ram_base) w.bytes }
    else if leb bootrom_base w.paddr && leb (w.paddr + n) (bootrom_base + bootrom_size)
    then record b { bootrom = put b.bootrom (w.paddr - bootrom_base) w.bytes }
    else b

unfoldable pub place_all : List Write → Board → Board
place_all [] b = b
place_all (w ∷ ws) b = place_all ws (place w b)

-- The platform after the constructor, with `cpu.state.pc`.
pub record Booted : Type 0 where
  pub board : Board
  pub pc : ℕ

-- None where an exception leaves the constructor, or the loader reads past the file.
unfoldable pub booted : Load → Board → Option Booted
booted load b = elim (load.ending) [
  | returned r ↦ some (record { board = place_all load.writes b; pc = r.entry_point })
  | threw e ↦ none
  | overran ↦ none
]

abbrev pub boot : Option (List ℕ) → Board → Option Booted
boot file b = booted (load_elf file) b

-- The card that the SD controller gets: none where no path is given, or its image does not open.
unfoldable pub attach_card : Option (Option (List ℕ)) → Option SdCardModel
attach_card none = none
attach_card (some image) =
    let opening = open_image image closed in if opening.0 then some opening.1 else none

-- The calls of `card_->read_block` in the controller.
unfoldable pub card_blocks : Option SdCardModel → ℕ → Option (List ℕ)
card_blocks none k = none
card_blocks (some card) k = (read_block k card).0
