-- ===== src/Matcher/SelectCount/Progression.antt =====
-- What `select_count` returns, and when it does not return.
use resource_query.Prelude.{
  ℕ, zero, suc, ◌+◌, ◌-◌, ◌*◌, ◌≤◌, ◌<◌, ℤ, pos, negsuc, ◌≡◌, refl, ◌⊎◌, inl, inr, true, false,
  ◌&&◌, leb, u32, add32, mul32, arith, Bool-cases,
}
use resource_query.Run.{ok, fault, diverges, Returns}
use resource_query.Jobspec.{Resource, Count, attrs}
use resource_query.Matcher.SelectCount.{
  to_u32, climb, multiply_up, power_step, at_least_two, select_loop, select_count,
}

abbrev pub iterate : (ℕ → ℕ) → ℕ → ℕ → ℕ
iterate next zero x = x
iterate next (suc n) x = iterate next n (next x)

-- `c` is the last value, from `cur` on, that is within both bounds.
pub record LastWithin (next : ℕ → ℕ) (qc max cur c : ℕ) : Type 0 where
  pub le_qc : c ≤ qc
  pub le_max : c ≤ max
  pub rounds : ℕ
  pub reached : iterate next rounds cur ≡ c
  pub last : (qc < next c) ⊎ (max < next c)

climb-stop :
    (next : ℕ → ℕ) (fuel qc max cur count : ℕ)
    → (leb cur qc && leb cur max) ≡ false
    → climb next (suc fuel) qc max cur count ≡ ok count
unfolding climb
climb-stop next fuel qc max cur count h = rw (h, climb)

climb-Returns :
    (next : ℕ → ℕ) (fuel qc max cur count : ℕ)
    → ((x : ℕ) → cur ≤ x → x ≤ qc → x ≤ max → x < next x)
    → cur ≤ qc
    → cur ≤ max
    → qc + 1 < cur + fuel
    → Returns (climb next fuel qc max cur count) (LastWithin next qc max cur)
unfolding climb
climb-Returns next zero qc max cur count grows q m f = absurd (omega arith)
climb-Returns next (suc fuel) qc max cur count grows q m f =
    let here : (leb cur qc && leb cur max) ≡ true = ground arith in
    let up : cur < next cur = grows cur (omega arith) q m in
    elim (Bool-cases (leb (next cur) qc && leb (next cur) max)) [
      | inl e ↦
          let (c, run, w) =
            climb-Returns next fuel qc max (next cur) cur (λ x l. grows x (omega (arith, up)))
              (ground arith) (ground arith) (omega (arith, up)) in
          (
            c,
            rw (here, climb) run,
            record {
              le_qc = w.le_qc;
              le_max = w.le_max;
              rounds = suc w.rounds;
              reached = w.reached;
              last = w.last;
            },
          )
      | inr e ↦ (
        cur,
        rw (here, climb) (stop fuel (omega (arith, up)) e),
        record { le_qc = q; le_max = m; rounds = 0; reached = refl; last = ground arith },
      )
    ]
  where
    stop :
        (n : ℕ)
        → 0 < n
        → (leb (next cur) qc && leb (next cur) max) ≡ false
        → climb next n qc max (next cur) cur ≡ ok cur
    stop zero h e = absurd (omega arith)
    stop (suc n) h e = climb-stop next n qc max (next cur) cur e

-- A loop whose step does not move never ends.
climb-diverges :
    (next : ℕ → ℕ) (fuel qc max cur count : ℕ)
    → next cur ≡ cur
    → cur ≤ qc
    → cur ≤ max
    → climb next fuel qc max cur count ≡ fault diverges
unfolding climb
climb-diverges next zero qc max cur count e q m = refl
climb-diverges next (suc fuel) qc max cur count e q m =
    let here : (leb cur qc && leb cur max) ≡ true = ground arith in
    rw (here, climb, e) (climb-diverges next fuel qc max cur cur e q m)

climb-le :
    (next : ℕ → ℕ) (fuel qc max cur count c : ℕ)
    → count ≤ qc
    → count ≤ max
    → climb next fuel qc max cur count ≡ ok c
    → (c ≤ qc) × (c ≤ max)
unfolding climb
climb-le next zero qc max cur count c q m h = cc
climb-le next (suc fuel) qc max cur count c q m h =
    ground (arith, climb-le next fuel qc max (next cur) cur c)

-- Whatever the operator, a count that is selected is within the qualified units and the maximum.
pub select_count-le :
    (r : Resource) (qc c : ℕ) → select_count r qc ≡ ok c → (c ≤ qc) × (c ≤ (attrs r).count.max)
unfolding select_count select_loop
select_count-le r qc c h =
    let k = (attrs r).count in
    ground (
      arith,
      climb-le (λ cur. add32 cur (to_u32 k.operand)) (qc + 2) qc k.max k.min 0 c,
      climb-le (λ cur. mul32 cur (to_u32 k.operand)) (qc + 2) qc k.max k.min 0 c,
      climb-le (power_step k.operand) (qc + 2) qc k.max k.min 0 c,
    )

-- With `+` and a positive operand, and sums that do not wrap, the count is the last member of the
-- progression min, min + operand, … that is within the qualified units and the maximum.
pub select_count-plus :
    (r : Resource) (qc d : ℕ)
    → (attrs r).count.oper ≡ b'+'
    → (attrs r).count.operand ≡ pos d
    → 0 < d
    → d < u32
    → qc + d < u32
    → (attrs r).count.min ≤ qc
    → (attrs r).count.min ≤ (attrs r).count.max
    → Returns
        (select_count r qc)
        (LastWithin (λ cur. add32 cur d) qc (attrs r).count.max (attrs r).count.min)
unfolding select_count select_loop
select_count-plus r qc d o e p w b q m =
    let k = (attrs r).count in
    let (c, run, good) =
      climb-Returns (λ cur. add32 cur d) (qc + 2) qc k.max k.min 0 (λ x l u v. omega arith) q m
        (omega arith) in
    (c, ground (arith, run), good)

times-grows : (x qc d : ℕ) → 1 < d → qc * d < u32 → 0 < x → x ≤ qc → x < mul32 x d
times-grows x qc d p b z u =
    let below : x * d < u32 = grind arith in let up : x + x ≤ x * d = grind arith in omega arith

multiply_up-one : (n : ℕ) → multiply_up n 1 1 ≡ 1
unfolding multiply_up
multiply_up-one zero = refl
multiply_up-one (suc n) = multiply_up-one n

power_step-one : (x : ℤ) → power_step x 1 ≡ 1
power_step-one (pos n) = multiply_up-one (n - 1)
power_step-one (negsuc n) = refl

-- With `*` and an operand of two or more, and products that do not wrap, it is the last member of
-- min, min * operand, … within both.
pub select_count-times :
    (r : Resource) (qc d : ℕ)
    → (attrs r).count.oper ≡ b'*'
    → (attrs r).count.operand ≡ pos d
    → 1 < d
    → d < u32
    → qc * d < u32
    → 0 < (attrs r).count.min
    → (attrs r).count.min ≤ qc
    → (attrs r).count.min ≤ (attrs r).count.max
    → Returns
        (select_count r qc)
        (LastWithin (λ cur. mul32 cur d) qc (attrs r).count.max (attrs r).count.min)
unfolding select_count select_loop
select_count-times r qc d o e p w b z q m =
    let k = (attrs r).count in
    let (c, run, good) =
      climb-Returns (λ cur. mul32 cur d) (qc + 2) qc k.max k.min 0
        (λ x l u v. times-grows x qc d p b (omega arith) u) q m (omega arith) in
    (c, ground (arith, run), good)

-- A count that steps by adding 0 or by multiplying by 1, or by raising 1 to a power, gives a loop
-- that does not end as soon as the minimum qualifies.
pub data Stuck (c : Count) : Type 0 where
  plus_zero : c.oper ≡ b'+' → c.operand ≡ pos 0 → Stuck c
  times_one : c.oper ≡ b'*' → c.operand ≡ pos 1 → Stuck c
  power_of_one : c.oper ≡ b'^' → at_least_two c.operand ≡ true → c.min ≡ 1 → Stuck c

-- With a step that does not move the selection does not return, whatever the number of qualified
-- units from the minimum on.
pub select_count-diverges :
    (r : Resource) (qc : ℕ)
    → Stuck (attrs r).count
    → (attrs r).count.min < u32
    → (attrs r).count.min ≤ qc
    → (attrs r).count.min ≤ (attrs r).count.max
    → select_count r qc ≡ fault diverges
unfolding select_count select_loop
select_count-diverges r qc (plus_zero o e) w q m =
    let k = (attrs r).count in
    let stays = climb-diverges (λ cur. add32 cur 0) (qc + 2) qc k.max k.min 0 (omega arith) q m in
    ground (arith, stays)
select_count-diverges r qc (times_one o e) w q m =
    let k = (attrs r).count in
    let stays = climb-diverges (λ cur. mul32 cur 1) (qc + 2) qc k.max k.min 0 (omega arith) q m in
    ground (arith, stays)
select_count-diverges r qc (power_of_one o e one) w q m =
    let k = (attrs r).count in
    let stays =
      climb-diverges (power_step k.operand) (qc + 2) qc k.max k.min 0
        (rw one (power_step-one k.operand)) q m in
    ground (arith, stays)
