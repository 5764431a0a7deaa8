-- ===== src/Irq/Plic/Arbitration.antt =====
-- Which source is claimed.
use virtual_so_c.Prelude.{
  ℕ, zero, suc, ◌+◌, ◌≤◌, ◌<◌, true, false, ltb, ◌&&◌, ◌≡◌, refl, arith, ◌⊎◌, inl, inr, Bool-cases,
  ◌≢◌, ◌↔◌, ◌^◌, ◌&&&◌, not32,
}
use native.Mathlib.Numerals.{add-one}
use virtual_so_c.Prelude.Bits.{bit, has_bits-pow, bit-bit_and, bit-complement, bit-le-one}
use virtual_so_c.Irq.Plic.Device.{
  Plic, priority_of, actionable, wins, prio_loop, claim_loop, evaluate_irq, best_source,
}

-- Source `i` may be delivered: it is pending, enabled and not in service, above the threshold.
pub record IsEligible (s : Plic) (i : ℕ) : Type 0 where
  pub source : (1 ≤ i) × (i < 8)
  pub ready : (bit i s.pending ≡ 1) × (bit i s.enabled ≡ 1) × (bit i s.claimed ≡ 0)
  pub above : s.threshold < priority_of s i

-- The loop's choice among the sources from `lo` up to `hi`, over a start of `id` with `prio`.
record LoopChoice (s : Plic) (lo hi id prio id' prio' : ℕ) : Type 0 where
  grows : prio ≤ prio'
  bounds : (j : ℕ) → lo ≤ j → j < hi → wins s j 0 ≡ true → priority_of s j ≤ prio'
  origin :
      ((id' ≡ id) × (prio' ≡ prio))
      ⊎ ((lo ≤ id')
          × (id' < hi)
          × (wins s id' 0 ≡ true)
          × (prio' ≡ priority_of s id')
          × (prio < prio')
          × ((j : ℕ) → lo ≤ j → j < id' → wins s j 0 ≡ true → priority_of s j < prio'))

wins-zero : (s : Plic) (i p : ℕ) → wins s i p ≡ wins s i 0 && ltb p (priority_of s i)
unfolding wins
wins-zero s i p = ground arith

wins_over : (s : Plic) (i p : ℕ) → wins s i p ≡ true → (wins s i 0 ≡ true) × (p < priority_of s i)
wins_over s i p w = ground (arith, wins-zero s i p)

loses_to : (s : Plic) (i p : ℕ) → wins s i p ≡ false → wins s i 0 ≡ true → priority_of s i ≤ p
loses_to s i p w z = ground (arith, wins-zero s i p)

first_or : (i j : ℕ) → i ≤ j → (i ≡ j) ⊎ (suc i ≤ j)
first_or i j p = grind arith

module _ (s : Plic) (i hi id prio id' prio' : ℕ) (inside : i < hi) where
  choice_won :
      wins s i prio ≡ true
      → LoopChoice s (suc i) hi i (priority_of s i) id' prio'
      → LoopChoice s i hi id prio id' prio'
  choice_won won r = record {
    grows = omega (arith, wins_over s i prio won, r.grows);
    bounds = λ j p q w. elim (first_or i j p) [
      | inl e ↦ rw (← e) r.grows
      | inr later ↦ r.bounds j later q w
    ];
    origin = elim (r.origin) [
      | inl (e, f) ↦ inr (
        omega arith,
        omega arith,
        rw e (wins_over s i prio won).0,
        rw e f,
        omega (arith, wins_over s i prio won),
        λ j p q w. absurd (omega arith),
      )
      | inr (a, b, c, d, g, h) ↦ inr (
        omega arith,
        b,
        c,
        d,
        omega (arith, wins_over s i prio won),
        λ j p q w. elim (first_or i j p) [ inl e ↦ rw (← e) g | inr later ↦ h j later q w ],
      )
    ];
  }

  choice_lost :
      wins s i prio ≡ false
      → LoopChoice s (suc i) hi id prio id' prio'
      → LoopChoice s i hi id prio id' prio'
  choice_lost lost r = record {
    grows = r.grows;
    bounds = λ j p q w. elim (first_or i j p) [
      | inl e ↦ omega (arith, loses_to s j prio (rw (← e) lost) w, r.grows)
      | inr later ↦ r.bounds j later q w
    ];
    origin = elim (r.origin) [
      | inl same ↦ inl same
      | inr (a, b, c, d, g, h) ↦ inr (
        omega arith,
        b,
        c,
        d,
        g,
        λ j p q w. elim (first_or i j p) [
          | inl e ↦ omega (arith, loses_to s j prio (rw (← e) lost) w)
          | inr later ↦ h j later q w
        ],
      )
    ];
  }

loop-LoopChoice :
    (s : Plic) (left i hi id prio : ℕ)
    → i + left ≡ hi
    → LoopChoice s i hi id prio (claim_loop s left i id prio) (prio_loop s left i prio)
unfolding claim_loop prio_loop
loop-LoopChoice s zero i hi id prio e = record {
  grows = omega arith;
  bounds = λ j p q w. absurd (omega arith);
  origin = inl (refl, refl);
}
loop-LoopChoice s (suc left) i hi id prio e = elim (Bool-cases (wins s i prio)) [
  | inl won ↦
      rw (won, add-one)
        (choice_won s i hi id prio _ _ (omega arith) won
          (loop-LoopChoice s left (suc i) hi i (priority_of s i) (omega arith)))
  | inr lost ↦
      rw (lost, add-one)
        (choice_lost s i hi id prio _ _ (omega arith) lost
          (loop-LoopChoice s left (suc i) hi id prio (omega arith)))
]

bit-actionable :
    (s : Plic) (i : ℕ)
    → i < 8
    → s.claimed < 2 ^ 32
    → (bit i (actionable s) ≡ 1)
      ↔ ((bit i s.pending ≡ 1) × (bit i s.enabled ≡ 1) × (bit i s.claimed ≡ 0))
unfolding actionable
bit-actionable s i l c =
    let outer = bit-bit_and i (s.pending &&& s.enabled) (not32 s.claimed) in
    let inner = bit-bit_and i s.pending s.enabled in
    let rest = bit-complement 32 i s.claimed (omega (arith, l)) c in
    let p = bit-le-one i s.pending in
    let e = bit-le-one i s.enabled in
    let k = bit-le-one i s.claimed in
    (
      λ h. (
        omega (arith, h, outer, inner, rest, p, e, k),
        omega (arith, h, outer, inner, rest, p, e, k),
        omega (arith, h, outer, inner, rest, p, e, k),
      ),
      λ h. omega (arith, h.0, h.1, h.2, outer, inner, rest, p, e, k),
    )

wins-IsEligible :
    (s : Plic) (i : ℕ)
    → s.claimed < 2 ^ 32
    → (1 ≤ i) × (i < 8)
    → (wins s i 0 ≡ true) ↔ IsEligible s i
unfolding wins
wins-IsEligible s i k r = (
  λ w. record {
    source = r;
    ready = (bit-actionable s i r.1 k).0 (ground (arith, has_bits-pow i (actionable s)));
    above = ground arith;
  },
  λ e. ground (arith, has_bits-pow i (actionable s), (bit-actionable s i r.1 k).1 e.ready, e.above),
)

-- The source to claim, 0 if there is none: an eligible source whose priority no eligible source
-- exceeds, and which no eligible source of a lower number equals.
pub record IsBest (s : Plic) (id : ℕ) : Type 0 where
  pub none_ready : id ≡ 0 → (j : ℕ) → ¬ IsEligible s j
  pub ready : id ≢ 0 → IsEligible s id
  pub highest : (j : ℕ) → IsEligible s j → priority_of s j ≤ priority_of s id
  pub lowest_number : (j : ℕ) → IsEligible s j → j < id → priority_of s j < priority_of s id

IsBest-of_choice :
    (s : Plic) (id prio : ℕ) → s.claimed < 2 ^ 32 → LoopChoice s 1 8 0 0 id prio → IsBest s id
IsBest-of_choice s id prio u c = elim (c.origin) [
  | inl (e, f) ↦
      (let empty : (j : ℕ) → ¬ IsEligible s j = λ j h. omega (
        arith,
        c.bounds j h.source.0 h.source.1 ((wins-IsEligible s j u h.source).1 h),
        h.above,
      ) in
        record {
          none_ready = λ z. empty;
          ready = λ n. absurd (n e);
          highest = λ j h. absurd (empty j h);
          lowest_number = λ j h l. absurd (empty j h);
        })
  | inr (a, b, w, d, g, h) ↦ record {
    none_ready = λ z. absurd (omega arith);
    ready = λ n. (wins-IsEligible s id u (a, b)).0 w;
    highest = λ j k.
        omega (arith, c.bounds j k.source.0 k.source.1 ((wins-IsEligible s j u k.source).1 k), d);
    lowest_number =
        λ j k l. omega (arith, h j k.source.0 l ((wins-IsEligible s j u k.source).1 k), d);
  }
]

choice : (s : Plic) → LoopChoice s 1 8 0 0 (claim_loop s 7 1 0 0) (prio_loop s 7 1 0)
choice s = loop-LoopChoice s 7 1 8 0 0 (omega arith)

-- With the word of the sources in service a 32-bit one, the loop of `claim_best` finds the source
-- to claim: the highest priority among the sources from 1 to 7 whose bit is set in the pending
-- and the enabled word and clear in the claimed word and whose priority beats the threshold, the
-- lowest number on ties, 0 when there is none.
pub best_source-IsBest : (s : Plic) → s.claimed < 2 ^ 32 → IsBest s (best_source s)
unfolding best_source
best_source-IsBest s u = IsBest-of_choice s (claim_loop s 7 1 0 0) (prio_loop s 7 1 0) u (choice s)

pub best_source-lt : (s : Plic) → best_source s < 8
unfolding best_source
best_source-lt s = elim ((choice s).origin) [
  | inl (e, f) ↦ omega (arith, e)
  | inr (a, b, w, d, g, h) ↦ b
]

raised :
    (s : Plic) (id prio : ℕ)
    → LoopChoice s 1 8 0 0 id prio
    → ((id ≡ 0) × (prio ≡ 0)) ⊎ ((1 ≤ id) × (0 < prio))
raised s id prio c = elim (c.origin) [
  | inl (e, f) ↦ inl (e, f)
  | inr (a, b, w, d, g, h) ↦ inr (a, g)
]

-- The loop of `evaluate_irq` raises the interrupt line exactly when the loop of `claim_best`
-- finds a source to claim.
pub evaluate_irq-best_source : (s : Plic) → (evaluate_irq s ≡ true) ↔ (best_source s ≢ 0)
unfolding evaluate_irq best_source
evaluate_irq-best_source s =
    let r = raised s (claim_loop s 7 1 0 0) (prio_loop s 7 1 0) (choice s) in
    (λ e z. ground arith, λ n. ground arith)
