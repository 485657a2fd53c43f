-- ===== src/Traverse/Keeps.antt =====
-- Rules for what a walk does to the store if it ends normally.
use resource_query.Prelude.{◌≡◌, Bool, true, false, if◌then◌else◌, Option, none, some}
use resource_query.Run.{Run, ok, fault}
use resource_query.Traverse.State.{M, ◌>>=◌, pure, run, get, modify}
use resource_query.Traverse.Runs.{Preorder}

-- What holds if a run ends normally.
abbrev pub After : {A : Type 0} → Run A → (A → Type 0) → Type 0
After (ok a) P = P a
After (fault e) P = Unit

-- Wherever the walk ends normally, the state before and the one after are related.
pub data Keeps {S : Type 0} (R : S → S → Type 0) {A : Type 0} (m : M S A) : Type 0 where
  keeps : ((s : S) → After (m s) (λ r. R s r.1)) → Keeps R m

pub after :
    {S : Type 0} {R : S → S → Type 0} {A : Type 0} {m : M S A}
    → Keeps R m
    → (s : S) → After (m s) (λ r. R s r.1)
after (keeps f) = f

pub related :
    {S : Type 0} {R : S → S → Type 0} {A : Type 0} {m : M S A}
    → Keeps R m
    → (s : S) (r : A × S) → m s ≡ ok r
    → R s r.1
related h s r e = rw e at (after h s)

module _ {S : Type 0} {R : S → S → Type 0} (order : Preorder R) where
  pub Keeps-pure : {A : Type 0} (a : A) → Keeps R (pure a)
  unfolding pure
  Keeps-pure a = keeps order.reflexive

  pub Keeps-get : Keeps R get
  unfolding get
  Keeps-get = keeps order.reflexive

  pub Keeps-run : {A : Type 0} (a : Run A) → Keeps R (run a)
  unfolding run
  Keeps-run (ok a) = keeps order.reflexive
  Keeps-run (fault f) = keeps λ s. tt

  pub Keeps-modify : {f : S → S} → ((s : S) → R s (f s)) → Keeps R (modify f)
  unfolding modify
  Keeps-modify h = keeps h

  After->>= :
      {A B : Type 0} (f : A → M S B) (s : S) (x : Run (A × S))
      → After x (λ r. R s r.1)
      → ((a : A) → Keeps R (f a))
      → After (elim x [ ok r ↦ f r.0 r.1 | fault e ↦ fault e ]) (λ r. R s r.1)
  After->>= f s (fault e) h k = tt
  After->>= {B} f s (ok r) h k = go (f r.0 r.1) (after (k r.0) r.1)
    where
      go : (y : Run (B × S)) → After y (λ q. R r.1 q.1) → After y (λ q. R s q.1)
      go (fault e) g = tt
      go (ok q) g = order.transitive s r.1 q.1 h g

  pub Keeps->>= :
      {A B : Type 0} {m : M S A} {f : A → M S B}
      → Keeps R m
      → ((a : A) → Keeps R (f a))
      → Keeps R (m >>= f)
  unfolding ◌>>=◌
  Keeps->>= {m} {f} h k = keeps λ s. After->>= f s (m s) (after h s) k

  pub Keeps-if :
      {A : Type 0} (b : Bool) {m n : M S A} → Keeps R m → Keeps R n → Keeps R (if b then m else n)
  Keeps-if true h k = h
  Keeps-if false h k = k

  pub Keeps-Option :
      {A B : Type 0} (o : Option B) {m : M S A} {f : B → M S A}
      → Keeps R m
      → ((b : B) → Keeps R (f b))
      → Keeps R (elim o [ none ↦ m | some b ↦ f b ])
  Keeps-Option none h k = h
  Keeps-Option (some b) h k = k b

pub ruleset keep_rules = (Keeps-pure, Keeps-get, Keeps-run, Keeps-modify, Keeps->>=, Keeps-if)
