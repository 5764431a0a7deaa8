-- ===== src/Cpu/Trap/Pending.antt =====
-- Which interrupt is taken, said bit by bit.
use virtual_so_c.Prelude.{
  ℕ, ◌^◌, ◌<◌, List, [], ◌∷◌, Bool, ltb, ◌==◌, ◌&&◌, ◌||◌, if◌then◌else◌, not32, ◌<<<◌, ◌&&&◌,
  ◌|||◌, ◌≡◌, refl, ◌∙◌, arith,
}
use virtual_so_c.Prelude.Bits.{
  bit, bit-le-one, bit-bit_and, bit-bit_or, bit-complement, bit-zero, bit_or-zero, has_bits-pow,
  bit_and-le,
}
use virtual_so_c.Cpu.Defs
use virtual_so_c.Cpu.Csr.File.{get_mip}
use virtual_so_c.Cpu.State.{CpuState}
use virtual_so_c.Cpu.Trap.Entry.{
  first_active, irq_priority, m_enabled, s_enabled, active_interrupts, check_pending_interrupts,
}

-- Interrupts for the level `level` with the enable bit `ie` of `mstatus` are on: below the level
-- always, at the level if the bit is set, above it never.
abbrev pub enabled_at : CpuState → ℕ → ℕ → Bool
enabled_at s level ie = ltb s.priv level || s.priv == level && bit ie s.csr.mstatus == 1

-- Interrupt `b` is pending, enabled and on for the level that it is delegated to.
abbrev pub wanted : CpuState → ℕ → Bool
wanted s b =
    bit b (get_mip s.csr) == 1
    && bit b s.csr.mie == 1
    && (if bit b s.csr.mideleg == 1 then enabled_at s 1 1 else enabled_at s 3 3)

abbrev pub first_wanted : CpuState → List ℕ → ℕ
first_wanted s [] = 0
first_wanted s (b ∷ bs) =
    let rest = first_wanted s bs in if wanted s b then Defs.int_bit ||| b else rest

m_enabled_lem : (s : CpuState) → m_enabled s ≡ enabled_at s 3 3
unfolding m_enabled
m_enabled_lem s = rw (has_bits-pow 3 s.csr.mstatus) refl

s_enabled_lem : (s : CpuState) → s_enabled s ≡ enabled_at s 1 1
unfolding s_enabled
s_enabled_lem s = ground (arith, has_bits-pow 1 s.csr.mstatus)

bit-active :
    (s : CpuState) (b : ℕ)
    → b < 32
    → s.csr.mideleg < 2 ^ 32
    → (bit b (active_interrupts s) == 1) ≡ wanted s b
unfolding active_interrupts
bit-active s b l m =
    let pending : ℕ = get_mip s.csr &&& s.csr.mie in
    let d : ℕ = s.csr.mideleg in
    ground (
      arith,
      m_enabled_lem s,
      s_enabled_lem s,
      bit-bit_or b (if m_enabled s then pending &&& not32 d else 0)
          (if s_enabled s then pending &&& d else 0),
      bit-bit_and b pending (not32 d),
      bit-bit_and b pending d,
      bit-bit_and b (get_mip s.csr) s.csr.mie,
      bit-complement 32 b d l m,
      bit-zero b,
      bit-le-one b d,
      bit-le-one b s.csr.mie,
      bit-le-one b (get_mip s.csr),
    )

abbrev AllBelow : List ℕ → Type 0
AllBelow [] = Unit {0}
AllBelow (b ∷ bs) = b < 32 × AllBelow bs

first_active_lem :
    (s : CpuState) (bs : List ℕ)
    → s.csr.mideleg < 2 ^ 32
    → AllBelow bs
    → first_active (active_interrupts s) bs ≡ first_wanted s bs
unfolding first_active
first_active_lem s [] m h = refl
first_active_lem s (b ∷ bs) m h =
    ground
      (arith, has_bits-pow b (active_interrupts s), bit-active s b, first_active_lem s bs m h.1)

first_active-zero : (bs : List ℕ) → first_active 0 bs ≡ 0
unfolding first_active
first_active-zero [] = refl
first_active-zero (b ∷ bs) = ground (arith, bit_and-le 0 (1 <<< b), first_active-zero bs)

no_pending : (s : CpuState) → (get_mip s.csr &&& s.csr.mie) ≡ 0 → active_interrupts s ≡ 0
unfolding active_interrupts
no_pending s h = ground (
  arith,
  bit_and-le (get_mip s.csr &&& s.csr.mie) (not32 s.csr.mideleg),
  bit_and-le (get_mip s.csr &&& s.csr.mie) s.csr.mideleg,
  bit_or-zero 0,
)

check_pending-first_active :
    (s : CpuState) → check_pending_interrupts s ≡ first_active (active_interrupts s) irq_priority
unfolding check_pending_interrupts
check_pending-first_active s = ground (arith, no_pending s, first_active-zero irq_priority)

-- With `mideleg` a 32-bit word, the interrupt taken is the first of 11 (MEI), 3 (MSI), 7 (MTI), 9
-- (SEI), 1 (SSI) and 5 (STI) that is pending, enabled and on at the level that it is delegated
-- to, and 0 stands for none.
pub check_pending-first_wanted :
    (s : CpuState)
    → s.csr.mideleg < 2 ^ 32
    → check_pending_interrupts s ≡ first_wanted s (11 ∷ 3 ∷ 7 ∷ 9 ∷ 1 ∷ 5 ∷ [])
check_pending-first_wanted s m =
    check_pending-first_active s ∙ first_active_lem s irq_priority m (omega arith)
