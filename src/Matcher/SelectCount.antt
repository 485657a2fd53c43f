-- ===== src/Matcher/SelectCount.antt =====
-- `matcher_data_t::select_count`. Each of its loops takes `qc + 2` rounds at most, or never ends: a
-- round starts with `cur ≤ qc`, and the next value of `cur` depends on `cur` alone.
pub mod Progression
use resource_query.Prelude.{
  ℕ, zero, suc, ◌+◌, ◌-◌, ◌%◌, ℤ, pos, negsuc, Bool, true, false, ◌&&◌, ltb, leb, ◌==◌,
  if◌then◌else◌, u32, add32, mul32, sub32, ◌||◌,
}
use resource_query.Run.{Run, ok, fault, diverges}
use resource_query.Jobspec.{Resource, Count, attrs}

-- The conversion of an `int` to `unsigned int`.
unfoldable pub to_u32 : ℤ → ℕ
to_u32 (pos n) = n % u32
to_u32 (negsuc n) = sub32 0 (n + 1)

-- The three loops, over the assignment to `cur` in their bodies.
unfoldable pub climb : (ℕ → ℕ) → ℕ → ℕ → ℕ → ℕ → ℕ → Run ℕ
climb next zero qc max cur count = fault diverges
climb next (suc fuel) qc max cur count = elim (leb cur qc && leb cur max) [
  | true ↦ climb next fuel qc max (next cur) cur
  | false ↦ ok count
]

-- `for (i = 1; i < operand; i++) cur *= base`, over the rounds left.
unfoldable pub multiply_up : ℕ → ℕ → ℕ → ℕ
multiply_up zero base cur = cur
multiply_up (suc n) base cur = multiply_up n base (mul32 cur base)

abbrev power_step : ℤ → ℕ → ℕ
power_step (pos n) cur = multiply_up (n - 1) cur cur
power_step (negsuc n) cur = cur

abbrev at_least_two : ℤ → Bool
at_least_two (pos n) = leb 2 n
at_least_two (negsuc n) = false

unfoldable pub select_loop : Count → ℕ → Run ℕ
unfolding to_u32 climb multiply_up
select_loop c qc =
    if c.oper == b'+'
    then climb (λ cur. add32 cur (to_u32 c.operand)) (qc + 2) qc c.max c.min 0
    else if c.oper == b'*'
    then climb (λ cur. mul32 cur (to_u32 c.operand)) (qc + 2) qc c.max c.min 0
    else if c.oper == b'^'
    then (if at_least_two c.operand
        then climb (power_step c.operand) (qc + 2) qc c.max c.min 0
        else ok c.min)
    else ok 0

unfoldable pub select_count : Resource → ℕ → Run ℕ
unfolding select_loop
select_count r qc =
    let c = (attrs r).count in if ltb c.max c.min || ltb qc c.min then ok 0 else select_loop c qc
