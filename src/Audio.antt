-- ===== src/Audio.antt =====
-- The audio output's registers: src/audio/audio_out.h and src/audio/audio_out.cpp. The events are the
-- calls of `on_irq`.
use virtual_so_c.Prelude.{ℕ, ◌≤◌, ◌%◌, [], ◌∷◌, Bool, true, false, ◌==◌, if◌then◌else◌, ◌≡◌, arith}
use virtual_so_c.Tlm.{Device, Payload, Transported, reads, stores, no_register, transport}

pub record AudioOut : Type 0 where
  pub ring_base : ℕ
  pub ring_size : ℕ
  pub rd_ptr : ℕ
  pub wr_ptr : ℕ
  pub sample_rate : ℕ
  pub ctrl : ℕ
  pub status : ℕ

abbrev pub reset : AudioOut
reset = record {
  ring_base = 0x84040000;
  ring_size = 0x1000;
  rd_ptr = 0;
  wr_ptr = 0;
  sample_rate = 11025;
  ctrl = 0;
  status = 0;
}

-- The `switch` of `b_transport`.
unfoldable pub access : Device AudioOut Bool
access write addr val s =
    if addr == 0x00
    then if write then reads (record s { ring_base = val }) val else reads s s.ring_base
    else if addr == 0x04
    then if write then reads (record s { ring_size = val }) val else reads s s.ring_size
    else if addr == 0x08
    then if write then reads (record s { rd_ptr = val }) val else reads s s.rd_ptr
    else if addr == 0x0C
    then if write then reads (record s { wr_ptr = val }) val else reads s s.wr_ptr
    else if addr == 0x10
    then if write then reads (record s { sample_rate = val }) val else reads s s.sample_rate
    else if addr == 0x14
    then if write then reads (record s { ctrl = val }) val else reads s s.ctrl
    else if addr == 0x18
    then if write then stores (record s { status = 0 }) val (false ∷ []) else reads s s.status
    else no_register s val

unfoldable pub b_transport : AudioOut → Payload → Transported AudioOut Bool
b_transport = transport access

-- Of the audio output's six registers from RING_BASE to CTRL, at their word offsets, each reads
-- back what is written to it, and a write to one leaves what the others read.
pub register-access :
    (a b v : ℕ) (s : AudioOut)
    → a % 4 ≡ 0
    → b % 4 ≡ 0
    → a ≤ 0x14
    → b ≤ 0x14
    → (access false b 0 (access true a v s).state).val
      ≡ (if a == b then v else (access false b 0 s).val)
unfolding access
register-access a b v s z y l m = ground arith
