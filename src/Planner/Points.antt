-- ===== src/Planner/Points.antt =====
-- `planner/planner.c`: scheduled points, and the search tree that holds them by time.
pub mod Sorted
pub mod Insert
pub mod Members
use resource_query.Prelude.{
  ℕ, suc, ℤ, pos, negsuc, ◌+◌, ◌-ℤ◌, ltb_ℤ, List, [], ◌∷◌, ◌++◌, Bool, ◌==◌, Option, none, some,
  if◌then◌else◌,
}

-- The address of a `scheduled_point_t`.
abbrev pub Addr : Type 0
Addr = ℕ

-- `resource_array_t`
abbrev pub ResourceArray : Type 0
ResourceArray = ℕ → ℤ

-- `subtree_min` is kept in the nodes of the tree that uses it, and `in_mt_resource_tree` beside it.
-- `new_point` is written and never read.
pub record ScheduledPoint : Type 0 where
  pub at : ℤ
  pub ref_count : ℤ
  pub scheduled : ResourceArray
  pub remaining : ResourceArray

-- Memory by address. `free` leaves it as it is.
abbrev pub Heap : Type 0
Heap = Addr → ScheduledPoint

abbrev pub write : Addr → ScheduledPoint → Heap → Heap
write a p heap b = if a == b then p else heap b

-- The links of `rb_node`. The colours belong to the library.
pub data Tree {ℓ} (A : Type ℓ) : Type ℓ where
  leaf : Tree A
  node : Tree A → A → Tree A → Tree A

abbrev pub inorder {ℓ} : {A : Type ℓ} → Tree A → List A
inorder leaf = []
inorder (node l a r) = inorder l ++ a ∷ inorder r

-- The list without one point.
abbrev pub without : Addr → List Addr → List Addr
without p [] = []
without p (q ∷ qs) = if q == p then qs else q ∷ without p qs

-- What `rb_next` visits from one node on: the rest of the nodes in order.
abbrev pub walk_from : Addr → List Addr → List Addr
walk_from p [] = []
walk_from p (q ∷ qs) = if q == p then q ∷ qs else walk_from p qs

abbrev pub rb_walk : Option Addr → Tree Addr → List Addr
rb_walk none t = []
rb_walk (some p) t = walk_from p (inorder t)

module _ (heap : Heap) where
  unfoldable pub scheduled_point_search : ℤ → Tree Addr → Option Addr
  scheduled_point_search t leaf = none
  scheduled_point_search t (node l p r) =
      let result = t -ℤ (heap p).at in
      let left = scheduled_point_search t l in
      let right = scheduled_point_search t r in
      if ltb_ℤ result (pos 0) then left else if ltb_ℤ (pos 0) result then right else some p

  unfoldable pub recent_state : Addr → Option Addr → Addr
  recent_state new_data none = new_data
  recent_state new_data (some old_data) =
      if ltb_ℤ (heap old_data).at (heap new_data).at then new_data else old_data

  -- The loop of `scheduled_point_state`.
  unfoldable pub state_loop : ℤ → Tree Addr → Option Addr → Option Addr
  unfolding recent_state
  state_loop at leaf last_state = last_state
  state_loop at (node l p r) last_state =
      let result = at -ℤ (heap p).at in
      let left = state_loop at l last_state in
      let right = state_loop at r (some (recent_state p last_state)) in
      if ltb_ℤ result (pos 0) then left else if ltb_ℤ (pos 0) result then right else some p

  unfoldable pub scheduled_point_state : ℤ → Tree Addr → Option Addr
  unfolding state_loop
  scheduled_point_state at root = state_loop at root none

  -- The descent of `scheduled_point_insert`, which ends at the link where the new node is set.
  unfoldable pub link_point : Addr → Tree Addr → Option (Tree Addr)
  link_point new leaf = some (node leaf new leaf)
  link_point new (node l p r) =
      let result = (heap new).at -ℤ (heap p).at in
      let left : Option (Tree Addr) = elim (link_point new l) [
        | none ↦ none
        | some l' ↦ some (node l' p r)
      ] in
      let right : Option (Tree Addr) = elim (link_point new r) [
        | none ↦ none
        | some r' ↦ some (node l p r')
      ] in
      if ltb_ℤ result (pos 0) then left else if ltb_ℤ (pos 0) result then right else none
