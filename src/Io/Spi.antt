-- ===== src/Io/Spi.antt =====
-- The SPI master: src/io/spi.h and src/io/spi.cpp. What `on_transfer` is set to is a parameter, over
-- a state of its own; `none` stands for a callback that is not set.
use virtual_so_c.Prelude.{
  ℕ, ◌%◌, ◌^◌, Option, none, some, ◌==◌, if◌then◌else◌, List, [], ◌∷◌, true, false, ◌≡◌, refl, ap,
}
use virtual_so_c.Tlm.{Device, Payload, Transported, reads, no_register, transport}

pub record Spi (P : Type 0) : Type 0 where
  pub rx_data : ℕ
  pub clk_div : ℕ
  pub config : ℕ
  pub peripheral : P

abbrev pub reset : {P : Type 0} → P → Spi P
reset p = record { rx_data = 0xFF; clk_div = 0; config = 0; peripheral = p }

module _ {P : Type 0} (on_transfer : Option (ℕ → P → ℕ × P)) where
  -- The write of the TX register.
  unfoldable pub exchange : ℕ → Spi P → Spi P
  exchange val s = elim on_transfer [
    | none ↦ record s { rx_data = 0xFF }
    | some f ↦
        (let r = f (val % 2 ^ 8) s.peripheral in
          record s { rx_data = r.0 % 2 ^ 8; peripheral = r.1 })
  ]

  -- The `switch` of `b_transport`.
  unfoldable pub access : Device (Spi P) Unit
  access write addr val s =
      if addr == 0x00
      then if write then reads (exchange val s) val else reads s val
      else if addr == 0x04
      then reads s s.rx_data
      else if addr == 0x08
      then reads s 1
      else if addr == 0x0C
      then if write then reads (record s { clk_div = val }) val else reads s s.clk_div
      else if addr == 0x10
      then if write then reads (record s { config = val }) val else reads s s.config
      else no_register s val

  unfoldable pub b_transport : Spi P → Payload → Transported (Spi P) Unit
  b_transport = transport access

-- Bytes exchanged by writing TX and reading RX, against the peripheral on its own.
module _ {P : Type 0} (f : ℕ → P → ℕ × P) where
  unfoldable pub talk : List ℕ → Spi P → List ℕ × P
  talk [] s = ([], s.peripheral)
  talk (b ∷ bs) s =
      let sent = access (some f) true 0x00 b s in
      let got = access (some f) false 0x04 0 sent.state in
      let rest = talk bs got.state in (got.val ∷ rest.0, rest.1)

  unfoldable pub converse : List ℕ → P → List ℕ × P
  converse [] p = ([], p)
  converse (b ∷ bs) p =
      let r = f (b % 2 ^ 8) p in let rest = converse bs r.1 in (r.0 % 2 ^ 8 ∷ rest.0, rest.1)

  -- With any peripheral set, writing TX and then reading RX for each byte of a sequence returns
  -- the peripheral's own answers to those bytes in order, and leaves it in the state that they
  -- lead to.
  pub talk-converse : (bs : List ℕ) (s : Spi P) → talk bs s ≡ converse bs s.peripheral
  unfolding talk converse access exchange
  talk-converse [] s = refl
  talk-converse (b ∷ bs) s =
      let sent : Spi P = exchange (some f) b s in
      let later : talk bs sent ≡ converse bs sent.peripheral = talk-converse bs sent in
      ap (λ t. (sent.rx_data ∷ t.0, t.1)) later
