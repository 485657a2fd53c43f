-- ===== src/Planner/Mintime/Rescmp.antt =====
-- What the sign of `rescmp` says of the two vectors.
use resource_query.Prelude.{
  ℕ, zero, suc, ◌+◌, ◌≤◌, ◌<◌, ℤ, pos, ltb_ℤ, ◌≤ℤ◌, ◌-ℤ◌, ◌+ℤ◌, -ℤ_positive, true, false,
  Bool-cases, inl, inr, ◌↔◌, ◌≡◌, refl, ◌==◌, ==_iff, ◌-◌, eq_of_parts, sym, ◌∙◌, arith, negsuc,
  ◌^◌, -ℤ_parts, +ℤ_parts, pos_part, neg_part, ◌⊎◌, ap, ltb,
}
use resource_query.Planner.Points.{ResourceArray}
use resource_query.Planner.Mintime.{rescmp_loop, rescmp, to_int}

-- Each of the first `len` entries is covered.
abbrev pub Covers : ℕ → ResourceArray → ResourceArray → Type 0
Covers len s1 s2 = (i : ℕ) → i < len → s1 i ≤ℤ s2 i

not_above : (a b : ℤ) → ltb_ℤ b a ≡ false → a ≤ℤ b
not_above a b h = ground arith

rescmp_loop-covers :
    (s1 s2 : ResourceArray) (i n : ℕ) (less : ℤ)
    → ltb_ℤ (pos 0) (rescmp_loop s1 s2 i n less) ≡ false
    → (j : ℕ) → i ≤ j
    → j < i + n
    → s1 j ≤ℤ s2 j
unfolding rescmp_loop
rescmp_loop-covers s1 s2 i zero less h j a b = absurd (omega arith)
rescmp_loop-covers s1 s2 i (suc n) less h j a b = elim (Bool-cases (ltb_ℤ (pos 0) (s1 i -ℤ s2 i))) [
  | inl greater ↦ let g : true ≡ false = sym greater ∙ (rw greater at h) in cc
  | inr covered ↦
      let rest = rw covered at h in
      elim (Bool-cases (i == j)) [
        | inl same ↦
            rw (← (==_iff i j).0 same)
              (not_above (s1 i) (s2 i) (rw (-ℤ_positive (s1 i) (s2 i)) at covered))
        | inr other ↦
            rescmp_loop-covers s1 s2 (suc i) n (to_int (less +ℤ (s1 i -ℤ s2 i))) rest j
              (ground arith) (omega arith)
      ]
]

-- A request that does not compare as greater is covered in every entry.
pub rescmp-Covers :
    (s1 s2 : ResourceArray) (len : ℕ) → ltb_ℤ (pos 0) (rescmp s1 s2 len) ≡ false → Covers len s1 s2
unfolding rescmp
rescmp-Covers s1 s2 len h i b =
    rescmp_loop-covers s1 s2 0 len (pos 0) h i (omega arith) (omega arith)

-- How much the covered entries from `i` on leave, `n` of them.
abbrev pub slack : ResourceArray → ResourceArray → ℕ → ℕ → ℕ
slack s1 s2 i zero = 0
slack s1 s2 i (suc n) = neg_part (s1 i -ℤ s2 i) + slack s1 s2 (suc i) n

to_int-neg : (g : ℕ) (z : ℤ) → pos_part z ≡ 0 → neg_part z ≡ g → g ≤ 2 ^ 31 → to_int z ≡ z
to_int-neg g (pos n) p q h = rw p refl
to_int-neg g (negsuc n) p q h = ground arith

to_int_wrap :
    (left : ℕ) → 2 ^ 31 < left → left < 2 ^ 32 → to_int (negsuc (left - 1)) ≡ pos (2 ^ 32 - left)
to_int_wrap left h k = ground arith

no_pos : (z : ℤ) → pos_part z ≤ neg_part z → pos_part z ≡ 0
no_pos (pos n) h = omega arith
no_pos (negsuc n) h = refl

covered : (a b : ℤ) → a ≤ℤ b → ltb_ℤ b a ≡ false
covered a b h = ground arith

rescmp_loop-slack :
    (s1 s2 : ResourceArray) (i n : ℕ) (less : ℤ)
    → ((j : ℕ) → i ≤ j → j < i + n → s1 j ≤ℤ s2 j)
    → pos_part less ≡ 0
    → neg_part less + slack s1 s2 i n ≤ 2 ^ 31
    → ltb_ℤ (pos 0) (rescmp_loop s1 s2 i n less) ≡ false
unfolding rescmp_loop
rescmp_loop-slack s1 s2 i zero less c p h = ground arith
rescmp_loop-slack s1 s2 i (suc n) less c p h =
    let le = c i (omega arith) (omega arith) in
    let r = s1 i -ℤ s2 i in
    let sum = less +ℤ r in
    let none_r : pos_part r ≡ 0 = no_pos r (omega (arith, -ℤ_parts (s1 i) (s2 i))) in
    let none : pos_part sum ≡ 0 = no_pos sum (omega (arith, +ℤ_parts less r)) in
    let adds : neg_part sum ≡ neg_part less + neg_part r = omega (arith, +ℤ_parts less r) in
    let small : neg_part sum ≤ 2 ^ 31 = omega arith in
    rw
      (
        -ℤ_positive (s1 i) (s2 i),
        covered (s1 i) (s2 i) le,
        to_int-neg (neg_part sum) sum none refl small,
      )
      (rescmp_loop-slack s1 s2 (suc i) n sum (λ j a b. c j (omega arith) (omega arith)) none
        (omega arith))

-- The test by `rescmp` says whether the request is covered, if what is left over fits an `int`.
pub rescmp_iff :
    (s1 s2 : ResourceArray) (len : ℕ)
    → slack s1 s2 0 len ≤ 2 ^ 31
    → (ltb_ℤ (pos 0) (rescmp s1 s2 len) ≡ false) ↔ Covers len s1 s2
unfolding rescmp
rescmp_iff s1 s2 len h = (
  rescmp-Covers s1 s2 len,
  λ c. rescmp_loop-slack s1 s2 0 len (pos 0) (λ j a b. c j (omega arith)) refl (omega arith),
)

to_int-pos : (n : ℕ) → n < 2 ^ 31 → to_int (pos n) ≡ pos n
to_int-pos n h = ground arith

-- An `int` that has gone down by `g` in all from 0.
abbrev HasDropped : ℕ → ℤ → Type 0
HasDropped g z =
    ((g ≤ 2 ^ 31) × (pos_part z ≡ 0) × (neg_part z ≡ g)) ⊎ ((2 ^ 31 < g) × (z ≡ pos (2 ^ 32 - g)))

to_int-HasDropped :
    (g : ℕ) (z r : ℤ)
    → HasDropped g z
    → pos_part r ≡ 0
    → g + neg_part r < 2 ^ 32
    → HasDropped (g + neg_part r) (to_int (z +ℤ r))
to_int-HasDropped g z r (inl (small, none, gone)) down room =
    let sum = z +ℤ r in
    let none_sum : pos_part sum ≡ 0 = no_pos sum (omega (arith, +ℤ_parts z r)) in
    let gone_sum : neg_part sum ≡ g + neg_part r = omega (arith, +ℤ_parts z r) in
    elim (Bool-cases (ltb (2 ^ 31) (g + neg_part r))) [
      | inl big ↦
          let as_neg : sum ≡ negsuc (g + neg_part r - 1) =
            eq_of_parts _ _ (ground (arith, +ℤ_parts z r)) in
          inr (ground arith, ap to_int as_neg ∙ to_int_wrap (g + neg_part r) (ground arith) room)
      | inr fits ↦
          let same = to_int-neg (g + neg_part r) sum none_sum gone_sum (ground arith) in
          inl (ground arith, ap pos_part same ∙ none_sum, ap neg_part same ∙ gone_sum)
    ]
to_int-HasDropped g z r (inr (big, e)) down room =
    let sum : z +ℤ r ≡ pos (2 ^ 32 - (g + neg_part r)) =
      eq_of_parts _ _ (rw e (omega (arith, +ℤ_parts (pos (2 ^ 32 - g)) r))) in
    inr (omega arith, ap to_int sum ∙ to_int-pos (2 ^ 32 - (g + neg_part r)) (omega arith))

rescmp_loop-wraps :
    (s1 s2 : ResourceArray) (i n g : ℕ) (less : ℤ)
    → ((j : ℕ) → i ≤ j → j < i + n → s1 j ≤ℤ s2 j)
    → HasDropped g less
    → 2 ^ 31 < g + slack s1 s2 i n
    → g + slack s1 s2 i n < 2 ^ 32
    → ltb_ℤ (pos 0) (rescmp_loop s1 s2 i n less) ≡ true
unfolding rescmp_loop
rescmp_loop-wraps s1 s2 i zero g less c (inl (small, none, gone)) h k = absurd (omega arith)
rescmp_loop-wraps s1 s2 i zero g less c (inr (big, e)) h k = rw e (ground arith)
rescmp_loop-wraps s1 s2 i (suc n) g less c w h k =
    let r = s1 i -ℤ s2 i in
    let le = c i (omega arith) (omega arith) in
    let none_r : pos_part r ≡ 0 = no_pos r (omega (arith, -ℤ_parts (s1 i) (s2 i))) in
    rw (-ℤ_positive (s1 i) (s2 i), covered (s1 i) (s2 i) le)
      (rescmp_loop-wraps s1 s2 (suc i) n (g + neg_part r) (to_int (less +ℤ r))
        (λ j a b. c j (omega arith) (omega arith))
        (to_int-HasDropped g less r w none_r (omega arith)) (omega arith) (omega arith))

-- Where every entry is covered, but what the entries leave over comes to more than 2^31 and less than
-- 2^32 in all, the sum of the differences wraps around in an `int`, and the request compares as
-- greater.
pub rescmp-wraps :
    (s1 s2 : ResourceArray) (len : ℕ)
    → Covers len s1 s2
    → 2 ^ 31 < slack s1 s2 0 len
    → slack s1 s2 0 len < 2 ^ 32
    → ltb_ℤ (pos 0) (rescmp s1 s2 len) ≡ true
unfolding rescmp
rescmp-wraps s1 s2 len c h k =
    rescmp_loop-wraps s1 s2 0 len 0 (pos 0) (λ j a b. c j (omega arith))
      (inl (omega arith, refl, refl)) (omega arith) (omega arith)
