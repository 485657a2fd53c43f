-- ===== src/Jobspec/Result.antt =====
-- Results of the parser: a value, or what is thrown.
use resource_query.Prelude.{
  ◌≡◌, refl, ◌≢◌, String, Bool, true, false, Option, none, some, if◌then◌else◌,
}

pub data Error : Type 0 where
  -- `parse_error` with its message
  parse_error : String → Error
  -- an exception of the YAML library, which `Jobspec::Jobspec` turns into a `parse_error`
  yaml_error : Error
  -- nested more deeply than the fuel
  too_deep : Error

pub data Result (A : Type 0) : Type 0 where
  parsed : A → Result A
  thrown : Error → Result A

infixl 5 ◌>>=◌ ◌>>◌
unfoldable pub ◌>>=◌ : {A B : Type 0} → Result A → (A → Result B) → Result B
parsed a >>= k = k a
thrown e >>= k = thrown e

abbrev pub ◌>>◌ : {B : Type 0} → Result (Unit {0}) → Result B → Result B
m >> n = m >>= λ _. n

-- `if (!b) throw parse_error (message)`
unfoldable pub require : Bool → String → Result (Unit {0})
require b message = if b then parsed tt else thrown (parse_error message)

-- A conversion by `as`.
unfoldable pub converted : {A : Type 0} → Option A → Result A
converted none = thrown yaml_error
converted (some a) = parsed a

-- A value that is returned has the property.
pub data Holds {A : Type 0} (P : A → Type 0) (r : Result A) : Type 0 where
  holds : ((a : A) → r ≡ parsed a → P a) → Holds P r

pub value_holds :
    {A : Type 0} {P : A → Type 0} {r : Result A} → Holds P r → (a : A) → r ≡ parsed a → P a
value_holds (holds f) = f

pub Holds-parsed : {A : Type 0} {P : A → Type 0} (a : A) → P a → Holds P (parsed a)
Holds-parsed a p = holds λ b e. rw (parsed-injective e) at p
  where
    parsed-injective : {A : Type 0} {a b : A} → parsed a ≡ parsed b → a ≡ b
    parsed-injective e = cc e

pub Holds-thrown : {A : Type 0} {P : A → Type 0} (e : Error) → Holds P (thrown e)
Holds-thrown e = holds λ b h. absurd cc

pub Holds->>= :
    {A B : Type 0} {P : A → Type 0} {Q : B → Type 0} (m : Result A) {k : A → Result B}
    → Holds P m
    → ((a : A) → P a → Holds Q (k a))
    → Holds Q (m >>= k)
unfolding ◌>>=◌
Holds->>= (parsed a) h f = f a (value_holds h a refl)
Holds->>= (thrown e) h f = Holds-thrown e

-- What `require` establishes.
pub Holds-require : (b : Bool) (message : String) → Holds (λ _. b ≡ true) (require b message)
unfolding require
Holds-require true message = Holds-parsed tt refl
Holds-require false message = Holds-thrown _

pub Holds-any : {A : Type 0} (r : Result A) → Holds (λ _. Unit) r
Holds-any (parsed a) = Holds-parsed a tt
Holds-any (thrown e) = Holds-thrown e

-- The fuel was enough.
pub data Ends {A : Type 0} (r : Result A) : Type 0 where
  ends : r ≢ thrown too_deep → Ends r

pub not_deep : {A : Type 0} {r : Result A} → Ends r → r ≢ thrown too_deep
not_deep (ends h) = h

pub Ends-parsed : {A : Type 0} (a : A) → Ends (parsed a)
Ends-parsed a = ends λ h. cc

pub Ends-require : (b : Bool) (message : String) → Ends (require b message)
unfolding require
Ends-require true message = Ends-parsed tt
Ends-require false message = ends λ h. cc

pub Ends-thrown : {A : Type 0} (message : String) → Ends {A = A} (thrown (parse_error message))
Ends-thrown message = ends λ h. cc

pub Ends-converted : {A : Type 0} (o : Option A) → Ends (converted o)
unfolding converted
Ends-converted none = ends λ h. cc
Ends-converted (some a) = Ends-parsed a

pub Ends->>= :
    {A B : Type 0} (m : Result A) {k : A → Result B}
    → Ends m
    → ((a : A) → Ends (k a))
    → Ends (m >>= k)
unfolding ◌>>=◌
Ends->>= (parsed a) h f = f a
Ends->>= (thrown e) (ends h) f = ends λ g. h (cc g)

pub Ends-if : {A : Type 0} (b : Bool) {r q : Result A} → Ends r → Ends q → Ends (if b then r else q)
Ends-if true h k = h
Ends-if false h k = k

pub Ends-Option :
    {A B : Type 0} (o : Option B) {r : Result A} {f : B → Result A}
    → Ends r
    → ((b : B) → Ends (f b))
    → Ends (elim o [ none ↦ r | some b ↦ f b ])
Ends-Option none h k = h
Ends-Option (some b) h k = k b

pub ruleset end_rules = (Ends-parsed, Ends-require, Ends-thrown, Ends-converted, Ends->>=, Ends-if)

pub Holds-if :
    {A : Type 0} {P : A → Type 0} (b : Bool) {r q : Result A}
    → Holds P r
    → Holds P q
    → Holds P (if b then r else q)
Holds-if true h k = h
Holds-if false h k = k

pub Holds-Option :
    {A B : Type 0} {P : A → Type 0} (o : Option B) {r : Result A} {f : B → Result A}
    → Holds P r
    → ((b : B) → Holds P (f b))
    → Holds P (elim o [ none ↦ r | some b ↦ f b ])
Holds-Option none h k = h
Holds-Option (some b) h k = k b
