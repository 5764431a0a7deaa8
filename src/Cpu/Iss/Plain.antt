-- ===== src/Cpu/Iss/Plain.antt =====
-- Runs of reads and writes through the port, with and without direct access.
use virtual_so_c.Prelude.{
  ℕ, List, [], ◌∷◌, ◌≡◌, refl, ap, ◌∙◌, sym, false, not, ltb, ◌&&◌, ◌||◌, if-ind,
}
use mathlib.Core.Bool.{true≢false}
use virtual_so_c.Tlm.{load_le}
use virtual_so_c.Cpu.Iss.Port.{Socket, Port, no_dmi, bus_read, bus_write, invalidate_dmi}
use virtual_so_c.Cpu.Iss.Direct.{
  IsAccess, IsDirect, IsPort, read_of, write_of, bus_read-plain, bus_write-plain,
  invalidate_dmi-IsPort,
}

invalidate_dmi-bus :
    {B : Type 0} (start end : ℕ) (p : Port B) → (invalidate_dmi start end p).bus ≡ p.bus
unfolding invalidate_dmi
invalidate_dmi-bus start end p =
    if-ind (λ q. q.bus ≡ p.bus) (p.dmi_valid && not (ltb end p.dmi_start || ltb p.dmi_end start))
      (record p { dmi_valid = false; dmi_ptr = 0 }) p refl refl

-- What the core and the bus may do with the port.
pub data Use : Type 0 where
  reads : (addr bytes : ℕ) → Use
  writes : (addr word bytes : ℕ) → Use
  invalidates : (start end : ℕ) → Use

abbrev pub AreAccesses : List Use → Type 0
AreAccesses [] = Unit {0}
AreAccesses (reads a n ∷ us) = IsAccess a n × AreAccesses us
AreAccesses (writes a v n ∷ us) = IsAccess a n × AreAccesses us
AreAccesses (invalidates start end ∷ us) = AreAccesses us

module _ {B : Type 0} (socket : Socket B) where
  -- What the reads return, and the bus afterwards.
  unfoldable pub through_port : List Use → Port B → List ℕ × B
  through_port [] p = ([], p.bus)
  through_port (reads a n ∷ us) p =
      let r = bus_read socket a n p in let rest = through_port us r.1 in (r.0 ∷ rest.0, rest.1)
  through_port (writes a v n ∷ us) p = through_port us (bus_write socket a v n p)
  through_port (invalidates start end ∷ us) p = through_port us (invalidate_dmi start end p)

  -- The same with transactions only.
  unfoldable pub by_transactions : List Use → B → List ℕ × B
  by_transactions [] b = ([], b)
  by_transactions (reads a n ∷ us) b =
      let r = read_of socket a n b in
      let rest = by_transactions us r.0 in (load_le n r.1.bytes ∷ rest.0, rest.1)
  by_transactions (writes a v n ∷ us) b = by_transactions us (write_of socket a v n b).0
  by_transactions (invalidates start end ∷ us) b = by_transactions us b

  module _ (Valid : B → Type 0) (direct : IsDirect socket Valid) where
    port-transactions :
        (us : List Use) (p : Port B)
        → AreAccesses us
        → IsPort socket Valid p
        → through_port us p ≡ by_transactions us p.bus
    unfolding through_port by_transactions
    port-transactions [] p h k = refl
    port-transactions (reads a n ∷ us) p h k =
        let r = bus_read socket a n p in
        let (value, rest) = bus_read-plain socket Valid direct a n p h.0 k in
        let later : through_port us r.1 ≡ by_transactions us r.1.bus =
          port-transactions us r.1 h.1 rest.1 in
        rw (value, later, rest.0) refl
    port-transactions (writes a v n ∷ us) p h k =
        let (bus, rest) = bus_write-plain socket Valid direct a v n p h.0 k in
        port-transactions us (bus_write socket a v n p) h.1 rest ∙ ap (by_transactions us) bus
    port-transactions (invalidates start end ∷ us) p h k =
        port-transactions us (invalidate_dmi start end p) h
          (invalidate_dmi-IsPort socket Valid direct start end p k)
        ∙ ap (by_transactions us) (invalidate_dmi-bus start end p)

    -- Behind a socket whose grants of direct access are honest and persist, from a port without a
    -- pointer, any sequence of reads, writes and invalidations, of 1 to 4 bytes and not past the
    -- last address, returns the same words and leaves the same bus as transactions alone.
    pub through_port-by_transactions :
        (us : List Use) (b : B)
        → AreAccesses us
        → Valid b
        → through_port us (no_dmi b) ≡ by_transactions us b
    through_port-by_transactions us b h v =
        port-transactions us (no_dmi b) h
          (record { valid = v; granted = λ e. absurd (true≢false (sym e)) })
