-- ===== src/Run.antt =====
-- Runs of the C++ code that may not end normally: a loop without end, or an access that has no
-- defined result.
use resource_query.Prelude.{◌≡◌, refl}

pub data Fault : Type 0 where
  -- a loop whose state comes back, or a walk deeper than its fuel
  diverges : Fault
  -- `operator[]` or an iterator past the end of a vector
  out_of_range : Fault
  -- a null pointer, or the end iterator of a map, is read through
  null_access : Fault

pub data Run {ℓ} (A : Type ℓ) : Type ℓ where
  ok : A → Run A
  fault : Fault → Run A

-- The run ends normally, in a value that satisfies `P`.
abbrev pub Returns {ℓ κ} : {A : Type ℓ} → Run A → (A → Type κ) → Type (ℓ ⊔ κ)
Returns {A} run P = (a : A) × (run ≡ ok a) × P a

-- The run ends in a value that satisfies `P`, or in a fault that is allowed.
abbrev pub Settles {ℓ κ} : {A : Type ℓ} → (Fault → Type κ) → Run A → (A → Type κ) → Type κ
Settles allowed (ok a) P = P a
Settles allowed (fault e) P = allowed e

-- What follows a run that ends normally.
infixl 5 ◌>>=◌
abbrev pub ◌>>=◌ {ℓ κ} : {A : Type ℓ} → {B : Type κ} → Run A → (A → Run B) → Run B
ok x >>= next = next x
fault f >>= next = fault f

-- Both parts of such a run end normally if the whole does.
pub >>=-eq-ok {ℓ κ} :
    {A : Type ℓ} {B : Type κ} (first : Run A) (next : A → Run B) {b : B}
    → (first >>= next) ≡ ok b
    → (x : A) × (first ≡ ok x) × (next x ≡ ok b)
>>=-eq-ok (ok x) next h = (x, refl, h)
>>=-eq-ok (fault f) next h = cc

pub Run-cases {ℓ} :
    {A : Type ℓ} (P : Run A → Type 0)
    → ((a : A) → P (ok a))
    → ((e : Fault) → P (fault e))
    → (r : Run A) → P r
Run-cases P good bad (ok a) = good a
Run-cases P good bad (fault e) = bad e
