-- ===== src/Traverse/Runs.antt =====
-- Rules for the monad of the walks: a walk that ends, with a relation between its first state and its
-- last one.
use resource_query.Prelude.{
  ◌≡◌, refl, sym, ◌∙◌, Bool, true, false, if◌then◌else◌, String, Option, none, some,
}
use resource_query.Run.{ok, Returns}
use resource_query.Matcher.Subsystems.{dom_subsystem}
use resource_query.Traverse.State.{Env, Store, dom, M, ◌>>=◌, pure, get, modify}

-- A preorder on the states.
pub record Preorder {S : Type 0} (R : S → S → Type 0) : Type 0 where
  pub reflexive : (s : S) → R s s
  pub transitive : (s t u : S) → R s t → R t u → R s u

-- From every state the walk ends, in a state that is related to it.
pub data Runs {S : Type 0} (R : S → S → Type 0) {A : Type 0} (m : M S A) : Type 0 where
  runs : ((s : S) → Returns (m s) (λ r. R s r.1)) → Runs R m

pub at_state :
    {S : Type 0} {R : S → S → Type 0} {A : Type 0} {m : M S A}
    → Runs R m
    → (s : S) → Returns (m s) (λ r. R s r.1)
at_state (runs f) = f

module _ {S : Type 0} {R : S → S → Type 0} (order : Preorder R) where
  pub Runs-pure : {A : Type 0} (a : A) → Runs R (pure a)
  unfolding pure
  Runs-pure a = runs λ s. ((a, s), refl, order.reflexive s)

  pub Runs-get : Runs R get
  unfolding get
  Runs-get = runs λ s. ((s, s), refl, order.reflexive s)

  pub Runs-modify : {f : S → S} → ((s : S) → R s (f s)) → Runs R (modify f)
  unfolding modify
  Runs-modify {f} h = runs λ s. ((tt, f s), refl, h s)

  pub Runs->>= :
      {A B : Type 0} {m : M S A} {f : A → M S B}
      → Runs R m
      → ((a : A) → Runs R (f a))
      → Runs R (m >>= f)
  unfolding ◌>>=◌
  Runs->>= {m} {f} h k = runs λ s.
      let (r, run, q) = at_state h s in
      let (r', run', q') = at_state (k r.0) r.1 in
      (r', rw (run, ◌>>=◌) run', order.transitive s r.1 r'.1 q q')

  pub Runs-if :
      {A : Type 0} (b : Bool) {m n : M S A} → Runs R m → Runs R n → Runs R (if b then m else n)
  Runs-if true h k = h
  Runs-if false h k = k

  pub Runs-Option :
      {A B : Type 0} (o : Option B) {m : M S A} {f : B → M S A}
      → Runs R m
      → ((b : B) → Runs R (f b))
      → Runs R (elim o [ none ↦ m | some b ↦ f b ])
  Runs-Option none h k = h
  Runs-Option (some b) h k = k b

-- The same from one state, with what each step ensures.
pub data Ensures {S A : Type 0} (m : M S A) (s : S) (Q : A → S → Type 0) : Type 0 where
  ensures : Returns (m s) (λ r. Q r.0 r.1) → Ensures m s Q

module _ {S : Type 0} where
  pub Ensures-Returns :
      {A : Type 0} {m : M S A} {s : S} {Q : A → S → Type 0}
      → Ensures m s Q
      → Returns (m s) (λ r. Q r.0 r.1)
  Ensures-Returns (ensures h) = h

  pub Ensures-pure :
      {A : Type 0} {Q : A → S → Type 0} (a : A) (s : S) → Q a s → Ensures (pure a) s Q
  unfolding pure
  Ensures-pure a s q = ensures ((a, s), refl, q)

  pub Ensures-get : {Q : S → S → Type 0} (s : S) → Q s s → Ensures get s Q
  unfolding get
  Ensures-get s q = ensures ((s, s), refl, q)

  pub Ensures-modify :
      {Q : Unit {0} → S → Type 0} (f : S → S) (s : S) → Q tt (f s) → Ensures (modify f) s Q
  unfolding modify
  Ensures-modify f s q = ensures ((tt, f s), refl, q)

  pub Ensures->>= :
      {A B : Type 0} {m : M S A} {f : A → M S B} {s : S} {P : A → S → Type 0} {Q : B → S → Type 0}
      → Ensures m s P
      → ((a : A) (t : S) → P a t → Ensures (f a) t Q)
      → Ensures (m >>= f) s Q
  unfolding ◌>>=◌
  Ensures->>= (ensures (r, run, p)) k =
      let (r', run', q) = Ensures-Returns (k r.0 r.1 p) in ensures (r', rw (run, ◌>>=◌) run', q)

  pub Ensures-if :
      {A : Type 0} {Q : A → S → Type 0} {s : S} (b : Bool) {m n : M S A}
      → (b ≡ true → Ensures m s Q)
      → (b ≡ false → Ensures n s Q)
      → Ensures (if b then m else n) s Q
  Ensures-if true h k = h refl
  Ensures-if false h k = k refl

  pub Ensures-Runs :
      {A : Type 0} {R : S → S → Type 0} {m : M S A} → Runs R m → (s : S) → Ensures m s (λ a. R s)
  Ensures-Runs h s = ensures (at_state h s)

  -- What a walk ensures, and the relation of its two states.
  pub Ensures-both :
      {A : Type 0} {R : S → S → Type 0} {m : M S A} {s : S} {Q : A → S → Type 0}
      → Ensures m s Q
      → Runs R m
      → Ensures m s (λ a t. Q a t × R s t)
  Ensures-both {R} {m} {s} {Q} (ensures (r, run, q)) h =
      let (r', run', f) = at_state h s in ensures (r, run, (q, rw (ok_inj (sym run' ∙ run)) at f))
    where
      ok_inj : {B : Type 0} {a b : B} → ok a ≡ ok b → a ≡ b
      ok_inj e = cc

  pub Ensures-weaken :
      {A : Type 0} {m : M S A} {s : S} {P Q : A → S → Type 0}
      → ((a : A) (t : S) → P a t → Q a t)
      → Ensures m s P
      → Ensures m s Q
  Ensures-weaken k (ensures (r, run, p)) = ensures (r, run, k r.0 r.1 p)

  pub Ensures-get->>= :
      {B : Type 0} (f : S → M S B) {s : S} {Q : B → S → Type 0}
      → Ensures (f s) s Q
      → Ensures (get >>= f) s Q
  Ensures-get->>= f {s} h =
      Ensures->>= {P = λ a t. (a ≡ s) × (t ≡ s)} (Ensures-get s (refl, refl))
        λ a t p. rw (p.0, p.1) h

  pub Ensures-modify->>= :
      {B : Type 0} (g : S → S) (f : Unit {0} → M S B) {s : S} {Q : B → S → Type 0}
      → Ensures (f tt) (g s) Q
      → Ensures (modify g >>= f) s Q
  Ensures-modify->>= g f {s} h =
      Ensures->>= {P = λ a t. t ≡ g s} (Ensures-modify g s refl) λ a t p. rw p h

pub Ensures-dom :
    (env : Env) (d : String) (s : Store env.planner.Plan)
    → dom_subsystem env.matcher ≡ some d
    → Ensures (dom env) s (λ a t. (a ≡ d) × (t ≡ s))
unfolding dom
Ensures-dom env d s e = ensures ((d, s), rw (e, dom), (refl, refl))
