-- ===== src/Traverse/Ends.antt =====
-- Rules for a walk that ends, where some faults are allowed.
use resource_query.Prelude.{◌≡◌, refl, Bool, true, false, if◌then◌else◌, String, some, Option, none}
use resource_query.Run.{Run, Fault, ok, fault, Settles}
use resource_query.Matcher.Subsystems.{dom_subsystem}
use resource_query.Traverse.State.{Env, Store, dom, M, ◌>>=◌, pure, run, get, modify}
use resource_query.Traverse.Keeps.{Keeps, After, after}

-- The walk from the state ends in a result and a state with `Q`, or in an allowed fault.
pub data Ends {S A : Type 0} (allowed : Fault → Type 0) (m : M S A) (s : S) (Q : A → S → Type 0)
    : Type 0 where
  ends : Settles allowed (m s) (λ r. Q r.0 r.1) → Ends allowed m s Q

module _ {S : Type 0} {allowed : Fault → Type 0} where
  pub Ends-Settles :
      {A : Type 0} {m : M S A} {s : S} {Q : A → S → Type 0}
      → Ends allowed m s Q
      → Settles allowed (m s) (λ r. Q r.0 r.1)
  Ends-Settles (ends h) = h

  pub Ends-pure :
      {A : Type 0} {Q : A → S → Type 0} (a : A) (s : S) → Q a s → Ends allowed (pure a) s Q
  unfolding pure
  Ends-pure a s q = ends q

  pub Ends-run :
      {A : Type 0} {Q : A → S → Type 0} (x : Run A) (s : S)
      → Settles allowed x (λ a. Q a s)
      → Ends allowed (run x) s Q
  unfolding run
  Ends-run (ok a) s q = ends q
  Ends-run (fault e) s q = ends q

  Settles->>= :
      {A B : Type 0} {P : A → S → Type 0} {Q : B → S → Type 0} (f : A → M S B) (x : Run (A × S))
      → Settles allowed x (λ r. P r.0 r.1)
      → ((a : A) (t : S) → P a t → Ends allowed (f a) t Q)
      → Settles allowed (elim x [ ok r ↦ f r.0 r.1 | fault e ↦ fault e ]) (λ r. Q r.0 r.1)
  Settles->>= f (ok r) h k = Ends-Settles (k r.0 r.1 h)
  Settles->>= f (fault e) h k = h

  pub Ends->>= :
      {A B : Type 0} {m : M S A} {f : A → M S B} {s : S} {P : A → S → Type 0} {Q : B → S → Type 0}
      → Ends allowed m s P
      → ((a : A) (t : S) → P a t → Ends allowed (f a) t Q)
      → Ends allowed (m >>= f) s Q
  unfolding ◌>>=◌
  Ends->>= {m} {f} {s} (ends h) k = ends (Settles->>= f (m s) h k)

  pub Ends-if :
      {A : Type 0} {Q : A → S → Type 0} {s : S} (b : Bool) {m n : M S A}
      → (b ≡ true → Ends allowed m s Q)
      → (b ≡ false → Ends allowed n s Q)
      → Ends allowed (if b then m else n) s Q
  Ends-if true h k = h refl
  Ends-if false h k = k refl

  pub Ends-Option :
      {A B : Type 0} {Q : A → S → Type 0} {s : S} (o : Option B) {m : M S A} {f : B → M S A}
      → Ends allowed m s Q
      → ((b : B) → Ends allowed (f b) s Q)
      → Ends allowed (elim o [ none ↦ m | some b ↦ f b ]) s Q
  Ends-Option none h k = h
  Ends-Option (some b) h k = k b

  pub Ends-weaken :
      {A : Type 0} {m : M S A} {s : S} {P Q : A → S → Type 0}
      → ((a : A) (t : S) → P a t → Q a t)
      → Ends allowed m s P
      → Ends allowed m s Q
  Ends-weaken {A} {m} {s} {P} {Q} k (ends h) = ends (go (m s) h)
    where
      go :
          (x : Run (A × S))
          → Settles allowed x (λ r. P r.0 r.1)
          → Settles allowed x (λ r. Q r.0 r.1)
      go (ok r) h = k r.0 r.1 h
      go (fault e) h = h

  -- With the relation that the walk keeps.
  pub Ends-both :
      {A : Type 0} {R : S → S → Type 0} {m : M S A} {s : S} {Q : A → S → Type 0}
      → Ends allowed m s Q
      → Keeps R m
      → Ends allowed m s (λ a t. Q a t × R s t)
  Ends-both {A} {R} {m} {s} {Q} (ends h) k = ends (go (m s) h (after k s))
    where
      go :
          (x : Run (A × S))
          → Settles allowed x (λ r. Q r.0 r.1)
          → After x (λ r. R s r.1)
          → Settles allowed x (λ r. Q r.0 r.1 × R s r.1)
      go (ok r) h k = (h, k)
      go (fault e) h k = h

  pub Ends-get->>= :
      {B : Type 0} (f : S → M S B) {s : S} {Q : B → S → Type 0}
      → Ends allowed (f s) s Q
      → Ends allowed (get >>= f) s Q
  unfolding ◌>>=◌ get
  Ends-get->>= f (ends h) = ends h

  pub Ends-modify->>= :
      {B : Type 0} (g : S → S) (f : Unit {0} → M S B) {s : S} {Q : B → S → Type 0}
      → Ends allowed (f tt) (g s) Q
      → Ends allowed (modify g >>= f) s Q
  unfolding ◌>>=◌ modify
  Ends-modify->>= g f (ends h) = ends h

  pub Ends-modify :
      {Q : Unit {0} → S → Type 0} (f : S → S) (s : S) → Q tt (f s) → Ends allowed (modify f) s Q
  unfolding modify
  Ends-modify f s q = ends q

pub Ends-dom :
    {allowed : Fault → Type 0} (env : Env) (d : String) (s : Store env.planner.Plan)
    → dom_subsystem env.matcher ≡ some d
    → Ends allowed (dom env) s (λ a t. (a ≡ d) × (t ≡ s))
unfolding dom
Ends-dom env d s e = ends (rw (e, dom) (refl, refl))
