-- ===== src/Traverse/State.antt =====
-- What a walk reads and what it changes: the members of `dfu_impl_t`, the graph that they point to,
-- `errno`, and the lines emitted so far.
use resource_query.Prelude.{
  ℕ, ◌+◌, ◌%◌, ℤ, String, List, ◌∷◌, ◌++◌, Bool, ◌||◌, Option, none, some, Dict, lookup, insert,
  contains, string_key, ◌==◌, if◌then◌else◌,
}
use resource_query.Run.{Run, ok, fault, null_access}
use resource_query.ResourceData
use resource_query.ResourceData.{ResourcePool, ResourceRelation}
use resource_query.ResourceData.Color.{u64}
use resource_query.ResourceData.Color
use resource_query.Matcher.Subsystems.{MatcherData, dom_subsystem}
use resource_query.Planner.{Planner}
use resource_query.Policy.{IntervalSet, Policy}

-- What no walk changes: the libraries, the matcher, and the filtered graph's edges.
pub record Env : Type 1 where
  pub planner : Planner
  pub icl : IntervalSet
  pub strerror : ℕ → String
  pub atoll : String → ℤ
  pub matcher : MatcherData
  pub policy : Policy
  pub roots : Dict String ℕ
  pub out_edges : ℕ → List ℕ
  pub target : ℕ → ℕ

-- A line that `emit_vertex` formats: the level of its indentation, the name, the needs and the mode.
pub record Line : Type 0 where
  pub level : ℕ
  pub name : String
  pub needs : ℕ
  pub exclusive : Bool

pub record Store (P : Type 0) : Type 0 where
  pub vtx : ℕ → ResourcePool P
  pub edg : ℕ → ResourceRelation
  pub best_k_cnt : ℕ
  pub color_base : ℕ
  pub trav_level : ℕ
  -- `m_trav_level` of the matcher
  pub match_level : ℤ
  pub err_msg : List String
  pub errno : ℕ
  pub emitted : List Line

-- `jobmeta_t`
pub record JobMeta : Type 0 where
  pub allocate : Bool
  pub jobid : ℕ
  pub at : ℤ
  pub duration : ℕ

abbrev pub M : Type 0 → Type 0 → Type 0
M S A = S → Run (A × S)

-- Shut, so that the rules of `Runs` find the parts of a `do` block; a test opens them by `monad`.
infixl 5 ◌>>=◌ ◌>>◌
unfoldable pub ◌>>=◌ : {S A B : Type 0} → M S A → (A → M S B) → M S B
◌>>=◌ m f s = elim (m s) [ ok r ↦ f r.0 r.1 | fault e ↦ fault e ]

abbrev pub ◌>>◌ : {S B : Type 0} → M S (Unit {0}) → M S B → M S B
m >> k = m >>= λ _. k

unfoldable pub pure : {S A : Type 0} → A → M S A
pure a s = ok (a, s)

unfoldable pub run : {S A : Type 0} → Run A → M S A
run (ok a) s = ok (a, s)
run (fault e) s = fault e

unfoldable pub get : {S : Type 0} → M S S
get s = ok (s, s)

unfoldable pub modify : {S : Type 0} → (S → S) → M S (Unit {0})
modify f s = ok (tt, f s)

unfoldable pub monad : Unit {0}
unfolding ◌>>=◌ pure run get modify
monad = tt

module _ {P : Type 0} where
  unfoldable pub set_vtx : ℕ → (ResourcePool P → ResourcePool P) → Store P → Store P
  set_vtx u f s = record s { vtx = λ v. if v == u then f (s.vtx v) else s.vtx v }

  unfoldable pub set_edg : ℕ → (ResourceRelation → ResourceRelation) → Store P → Store P
  set_edg e f s = record s { edg = λ d. if d == e then f (s.edg d) else s.edg d }

  abbrev pub append_err : List String → Store P → Store P
  append_err msg s = record s { err_msg = s.err_msg ++ msg }

  -- A library call's effect on `errno`.
  abbrev pub set_errno : Option ℕ → Store P → Store P
  set_errno none s = s
  set_errno (some e) s = record s { errno = e }

  abbrev pub map_schedule :
      (ResourceData.Schedule P → ResourceData.Schedule P) → ResourcePool P → ResourcePool P
  map_schedule f r = record r { schedule = f r.schedule }

  abbrev pub map_idata :
      (ResourceData.PoolInfra P → ResourceData.PoolInfra P) → ResourcePool P → ResourcePool P
  map_idata f r = record r { idata = f r.idata }

  -- `idata.colors[s]`, which is 0 where the map has no entry.
  unfoldable pub color_of : Store P → ℕ → String → ℕ
  color_of s u subsystem = elim (lookup subsystem (s.vtx u).idata.colors) [ none ↦ 0 | some c ↦ c ]

  unfoldable pub paint : ℕ → String → ℕ → Store P → Store P
  unfolding set_vtx
  paint u subsystem c =
      set_vtx u (map_idata (λ i. record i { colors = insert subsystem c i.colors }))

  -- `tick` and `tick_color_base`.
  unfoldable pub tick_color_base : M (Store P) (Unit {0})
  unfolding Color.reset modify
  tick_color_base = modify λ s. record s { color_base = Color.reset s.color_base }

  unfoldable pub tick : M (Store P) (Unit {0})
  unfolding Color.reset modify
  tick =
      modify λ s. record s {
        best_k_cnt = (s.best_k_cnt + 1) % u64;
        color_base = Color.reset s.color_base;
      }

  unfoldable pub in_subsystem : Store P → ℕ → String → Bool
  in_subsystem s e subsystem = contains subsystem (s.edg e).idata.member_of

-- The members that every walk uses. `abbrev`, so that they read like the source's.
module _ (env : Env) where
  abbrev pub Walk : Type 0 → Type 0
  Walk A = M (Store env.planner.Plan) A

  -- `m_match->dom_subsystem ()`
  unfoldable pub dom : Walk String
  dom s = elim (dom_subsystem env.matcher) [ none ↦ fault null_access | some d ↦ ok (d, s) ]

  -- The target has been visited, or is being visited.
  unfoldable pub stop_explore : Store env.planner.Plan → ℕ → String → Bool
  unfolding color_of Color.is_gray Color.is_black Color.gray Color.black
  stop_explore s e subsystem =
      let c = color_of s (env.target e) subsystem in
      c == Color.gray s.color_base || c == Color.black s.color_base

  -- `if (errno != 0) { m_err_msg += strerror (errno); m_err_msg += end; errno = 0; }`
  unfoldable pub report_errno : List String → Store env.planner.Plan → Store env.planner.Plan
  report_errno end s =
      if s.errno == 0 then s else record (append_err (env.strerror s.errno ∷ end) s) { errno = 0 }
