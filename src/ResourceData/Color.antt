-- ===== src/ResourceData/Color.antt =====
-- `color_t`. A base is raised by three for each walk, so that the colours of the last one turn white.
use resource_query.Prelude.{ℕ, ◌+◌, ◌%◌, ◌^◌, ◌<◌, ◌≤◌, ◌≡◌, Bool, true, false, leb, ◌==◌, arith}

-- `uint64_t` arithmetic on colours.
abbrev pub u64 : ℕ
u64 = 2 ^ 64

unfoldable pub reset : ℕ → ℕ
reset base = (base + 3) % u64

unfoldable pub is_white : ℕ → ℕ → Bool
is_white c base = leb c (base % u64)

unfoldable pub white : ℕ → ℕ
white base = base % u64

unfoldable pub is_gray : ℕ → ℕ → Bool
is_gray c base = c == (base + 1) % u64

unfoldable pub gray : ℕ → ℕ
gray base = (base + 1) % u64

unfoldable pub is_black : ℕ → ℕ → Bool
is_black c base = c == (base + 2) % u64

unfoldable pub black : ℕ → ℕ
black base = (base + 2) % u64

-- After a reset every colour of the walk before it counts as white, as long as the base has not
-- wrapped, and the three colours of one walk are told apart.
pub reset-whitens :
    (base c : ℕ)
    → base + 6 < 2 ^ 64
    → c ≤ black base
    → (is_white c (reset base) ≡ true)
      × (is_gray c (reset base) ≡ false)
      × (is_black c (reset base) ≡ false)
      × (is_white (gray base) base ≡ false)
      × (is_black (gray base) base ≡ false)
      × (is_gray (black base) base ≡ false)
unfolding reset is_white is_gray is_black gray black
reset-whitens base c h le = ground arith
