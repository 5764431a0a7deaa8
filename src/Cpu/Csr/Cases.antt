-- ===== src/Cpu/Csr/Cases.antt =====
-- The ways in which a CSR write can go.
use virtual_so_c.Prelude.{
  ℕ, List, [], ◌∷◌, Option, none, some, true, false, ◌≡◌, refl, arith, Bool-cases, inl, inr,
}
use virtual_so_c.Cpu.Csr.File.{
  Csr, CsrName, address, find_name, names, csr_name, priv_ok, is_read_only,
}
use virtual_so_c.Cpu.Csr.Access.{write, write_case, write_named, refused, Written}

find_name-address :
    (a : ℕ) (ns : List CsrName) (n : CsrName) → find_name a ns ≡ some n → address n ≡ a
unfolding find_name
find_name-address a [] n h = absurd (cc)
find_name-address a (m ∷ ns) n h = ground (arith, find_name-address a ns n)

-- The label that an address selects has that address.
pub csr_name-address : (a : ℕ) (n : CsrName) → csr_name a ≡ some n → address n ≡ a
unfolding csr_name
csr_name-address a n h = find_name-address a names n h

write_named_ind :
    (P : Written → Type 0) (o : Option CsrName) (addr priv val : ℕ) (c : Csr)
    → csr_name addr ≡ o
    → priv_ok addr priv ≡ true
    → is_read_only addr ≡ false
    → P (refused c)
    → ((n : CsrName)
        → priv_ok (address n) priv ≡ true
        → is_read_only (address n) ≡ false
        → P (write_case n val c))
    → P (write_named o val c)
unfolding write_named
write_named_ind P none addr priv val c e granted writable r h = r
write_named_ind P (some n) addr priv val c e granted writable r h =
    h n (rw (csr_name-address addr n e) granted) (rw (csr_name-address addr n e) writable)

-- A write is refused, or it is a case of the `switch` at an address that the privilege reaches
-- and that is not read-only.
pub write_ind :
    (P : Written → Type 0) (addr priv val : ℕ) (c : Csr)
    → P (refused c)
    → ((n : CsrName)
        → priv_ok (address n) priv ≡ true
        → is_read_only (address n) ≡ false
        → P (write_case n val c))
    → P (write addr priv val c)
unfolding write
write_ind P addr priv val c r h = elim (Bool-cases (priv_ok addr priv)) [
  | inr denied ↦ rw denied r
  | inl granted ↦ rw granted (elim (Bool-cases (is_read_only addr)) [
    | inl shadow ↦ rw shadow r
    | inr writable ↦
        rw writable (write_named_ind P (csr_name addr) addr priv val c refl granted writable r h)
  ])
]
