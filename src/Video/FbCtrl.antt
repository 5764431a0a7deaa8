-- ===== src/Video/FbCtrl.antt =====
-- The framebuffer controller: src/video/fb_ctrl.h and src/video/fb_ctrl.cpp. `on_vsync` and `on_irq`
-- are the events of an access, in order.
use virtual_so_c.Prelude.{
  ℕ, List, [], ◌∷◌, Bool, true, false, not, ◌==◌, if◌then◌else◌, bit_xor, ◌<<<◌, ◌|||◌, u32, ◌≡◌,
  refl, arith,
}
use virtual_so_c.Tlm.{
  Access, Device, Payload, Transported, reads, stores, no_register, transport, load_le, is_write,
}
use virtual_so_c.Tlm.Line.{Follows, watch, watch-level}

pub record FbCtrl : Type 0 where
  pub fb0_addr : ℕ
  pub fb1_addr : ℕ
  pub stride : ℕ
  pub pal_addr : ℕ
  pub active_buf : ℕ
  pub vsync_pending : ℕ

abbrev pub reset : FbCtrl
reset = record {
  fb0_addr = 0x84000000;
  fb1_addr = 0x84010000;
  stride = 320;
  pal_addr = 0x84020000;
  active_buf = 0;
  vsync_pending = 0;
}

pub data Event : Type 0 where
  vsync : (fb_addr pal_addr stride : ℕ) → Event
  irq : Bool → Event

-- The write of VSYNC_CTRL.
unfoldable pub swap : ℕ → FbCtrl → Access FbCtrl Event
swap val s =
    let t = record s { active_buf = bit_xor s.active_buf 1; vsync_pending = 1 } in
    let fb_addr = if not (t.active_buf == 0) then t.fb1_addr else t.fb0_addr in
    stores t val (vsync fb_addr t.pal_addr t.stride ∷ irq true ∷ [])

-- The `switch` of `b_transport`.
unfoldable pub access : Device FbCtrl Event
access write addr val s =
    if addr == 0x00
    then if write then reads (record s { fb0_addr = val }) val else reads s s.fb0_addr
    else if addr == 0x04
    then if write then reads (record s { fb1_addr = val }) val else reads s s.fb1_addr
    else if addr == 0x08
    then if write then reads (record s { stride = val }) val else reads s s.stride
    else if addr == 0x0C
    then if write then reads (record s { pal_addr = val }) val else reads s s.pal_addr
    else if addr == 0x10
    then if write then swap val s else reads s val
    else if addr == 0x14
    then if write
      then stores (record s { vsync_pending = 0 }) val (irq false ∷ [])
      else reads s (s.active_buf ||| u32 (s.vsync_pending <<< 1))
    else no_register s val

unfoldable pub b_transport : FbCtrl → Payload → Transported FbCtrl Event
b_transport = transport access

-- The calls of `on_irq`, and the addresses that `on_vsync` shows.
unfoldable pub lines : List Event → List Bool
lines [] = []
lines (irq v ∷ es) = v ∷ lines es
lines (vsync f p n ∷ es) = lines es

unfoldable pub pending : FbCtrl → Bool
pending s = not (s.vsync_pending == 0)

unfoldable pub step : Payload → FbCtrl → FbCtrl × List Bool
step p s = let t = b_transport s p in (t.state, lines t.events)

access-lines :
    (write : Bool) (addr val : ℕ) (s : FbCtrl)
    → Follows pending step s
        (access write addr val s).state
        (lines (access write addr val s).events)
unfolding access swap pending lines
access-lines write addr val s = ground arith

step-Follows : (p : Payload) (s : FbCtrl) → Follows pending step s (step p s).0 (step p s).1
unfolding step b_transport transport
step-Follows p s =
    access-lines (is_write p) (u32 p.address) (if is_write p then load_le 4 p.bytes else 0) s

-- After any transactions from reset, the interrupt line of the framebuffer controller is up
-- exactly when a swap has not been acknowledged.
pub watch-pending :
    (ps : List Payload) → let end = watch pending step ps reset false in end.1 ≡ pending end.0
watch-pending ps = watch-level pending step step-Follows ps reset false (unfold pending in refl)
