-- ===== src/Tlm.antt =====
-- Transactions on the bus: the parts of a TLM-2.0 payload that the platform uses, and what the
-- `b_transport` of a register device does around its `switch`.
pub mod Line
use virtual_so_c.Prelude.{
  ℕ, zero, suc, ◌+◌, ◌*◌, ◌/◌, ◌%◌, ◌^◌, List, [], ◌∷◌, ◌++◌, Bool, true, false, not, ◌==◌,
  if◌then◌else◌, u32, drop, ◌≡◌, arith, ◌<◌, Bool-cases, inl, inr,
}

pub data Command : Type 0 where
  read_command write_command ignore_command : Command

pub data Response : Type 0 where
  incomplete ok_response address_error burst_error command_error : Response

-- `bytes` is the buffer behind the data pointer, `length` the data length that is set.
pub record Payload : Type 0 where
  pub command : Command
  pub address : ℕ
  pub bytes : List ℕ
  pub length : ℕ
  pub status : Response

abbrev pub is_write : Payload → Bool
is_write p = elim (p.command) [ write_command ↦ true | _ ↦ false ]

-- `memcpy(&val, ptr, n)` into a zeroed word and `memcpy(ptr, &val, n)`, little-endian.
unfoldable pub load_le : ℕ → List ℕ → ℕ
load_le zero bs = 0
load_le (suc n) [] = 0
load_le (suc n) (b ∷ bs) = b + load_le n bs * 2 ^ 8

unfoldable pub store_le : ℕ → ℕ → List ℕ
store_le zero v = []
store_le (suc n) v = (v % 2 ^ 8) ∷ store_le n (v / 2 ^ 8)

-- The copy there and back keeps a 32-bit word, whatever follows it in the buffer.
pub load_le-store_le : (v : ℕ) (rest : List ℕ) → v < 2 ^ 32 → load_le 4 (store_le 4 v ++ rest) ≡ v
unfolding load_le store_le
load_le-store_le v rest l = omega arith

-- What a device's `switch` makes of an access: its state, the word `val` after it, whether the
-- address has a register, and the calls of callbacks in order.
pub record Access (S E : Type 0) : Type 0 where
  pub state : S
  pub val : ℕ
  pub ok : Bool
  pub events : List E

abbrev pub Device : Type 0 → Type 0 → Type 0
Device S E = Bool → ℕ → ℕ → S → Access S E

abbrev pub reads : {S E : Type 0} → S → ℕ → Access S E
reads s v = record { state = s; val = v; ok = true; events = [] }

abbrev pub stores : {S E : Type 0} → S → ℕ → List E → Access S E
stores s v es = record { state = s; val = v; ok = true; events = es }

-- `default:` of every `switch`.
abbrev pub no_register : {S E : Type 0} → S → ℕ → Access S E
no_register s v = record { state = s; val = v; ok = false; events = [] }

pub record Transported (S E : Type 0) : Type 0 where
  pub state : S
  pub payload : Payload
  pub events : List E

module _ {S E : Type 0} (device : Device S E) where
  -- `val` is set by `memcpy` on a write, the `switch` follows, and on a read `val` is copied back.
  unfoldable pub transport : S → Payload → Transported S E
  transport s p =
      let val = if is_write p then load_le 4 p.bytes else 0 in
      let a = device (is_write p) (u32 p.address) val s in
      record {
        state = a.state;
        payload =
            if a.ok
            then record p {
              bytes = if is_write p then p.bytes else store_le 4 a.val ++ drop 4 p.bytes;
              status = ok_response;
            }
            else record p { status = address_error };
        events = a.events;
      }

  -- The devices that take accesses of 4 bytes only.
  unfoldable pub word_transport : S → Payload → Transported S E
  unfolding transport
  word_transport s p =
      if not (p.length == 4)
      then record { state = s; payload = record p { status = burst_error }; events = [] }
      else transport s p

  -- The devices that copy as many bytes as the data length says; beyond 4, the source's `memcpy`
  -- overruns `val`, which is not modelled.
  unfoldable pub sized_transport : S → Payload → Transported S E
  sized_transport s p =
      let val = if is_write p then load_le p.length p.bytes else 0 in
      let a = device (is_write p) (u32 p.address) val s in
      record {
        state = a.state;
        payload =
            if a.ok
            then record p {
              bytes =
                  if is_write p then p.bytes else store_le p.length a.val ++ drop p.length p.bytes;
              status = ok_response;
            }
            else record p { status = address_error };
        events = a.events;
      }

  -- What holds of every run of the `switch` holds of a transaction.
  pub transport-rel :
      (R : S → List E → Type 0) (s : S) (p : Payload)
      → ((write : Bool) (addr val : ℕ)
          → R (device write addr val s).state (device write addr val s).events)
      → R (transport s p).state (transport s p).events
  unfolding transport
  transport-rel R s p every =
      every (is_write p) (u32 p.address) (if is_write p then load_le 4 p.bytes else 0)

  -- What holds of doing nothing and of every run of the `switch` holds of a transaction.
  pub word_transport-rel :
      (R : S → List E → Type 0) (s : S) (p : Payload)
      → R s []
      → ((write : Bool) (addr val : ℕ)
          → R (device write addr val s).state (device write addr val s).events)
      → R (word_transport s p).state (word_transport s p).events
  unfolding word_transport
  word_transport-rel R s p none every = elim (Bool-cases (p.length == 4)) [
    | inl word ↦ rw word (transport-rel R s p every)
    | inr other ↦ rw other none
  ]
