-- ===== src/Planner/Context.antt =====
-- `planner/planner.c`: `planner_t`, and the internal functions that update it.
use resource_query.Prelude.{
  ℕ, zero, suc, ◌+◌, ℤ, pos, negsuc, ◌+ℤ◌, ◌-ℤ◌, ◌==ℤ◌, ltb_ℤ, ltb, to_i64, List, [], ◌∷◌, Bool,
  false, not, ◌&&◌, ◌||◌, ◌==◌, ◌≡◌, none, some, Dict, insert, erase, contains, int_key, All,
  String, if◌then◌else◌,
}
use resource_query.Run.{Run, ok, fault, null_access}
use resource_query.Planner.Points.{
  Addr, ResourceArray, ScheduledPoint, Heap, write, Tree, inorder, rb_walk, without,
  scheduled_point_search, scheduled_point_state, link_point,
}
use resource_query.Planner.Mintime.{
  MtTree, points, RbTree, mintime_resource_subtree_min, link_mintime,
}

pub record Request : Type 0 where
  pub on_or_after : ℤ
  pub duration : ℕ
  pub resources : ResourceArray
  pub dimension : ℕ

-- `span_t`
pub record Span : Type 0 where
  pub start : ℤ
  pub last : ℤ
  pub span_id : ℤ
  pub planned : ResourceArray
  pub dimension : ℕ
  pub in_system : Bool
  pub start_p : Addr
  pub last_p : Addr

-- The min-time resource tree, the flag `in_mt_resource_tree` of each point, and the points that are
-- out of the tree for the iteration over times.
pub record MinTime : Type 0 where
  pub mt_resource_tree : MtTree
  pub in_mt_resource_tree : Addr → Bool
  pub avail_time_iter : Dict ℤ Addr

-- `planner_t`, with the memory of its points and the next address. `span_lookup` is a table by id,
-- whose text the C code uses.
pub record PlannerContext : Type 0 where
  pub total_resources : ResourceArray
  pub resource_types : List String
  pub dimension : ℕ
  pub plan_start : ℤ
  pub plan_end : ℤ
  pub sched_point_tree : Tree Addr
  pub mt : MinTime
  pub p0 : Addr
  pub span_lookup : Dict ℤ Span
  pub current_request : Request
  pub avail_time_iter_set : Bool
  pub span_counter : ℕ
  pub heap : Heap
  pub next : Addr

-- What the code takes from other libraries: the balanced trees, and the order in which a `zhash_t`
-- gives its entries.
pub record Libs : Type 0 where
  pub rb : RbTree
  pub zhash_entries : Dict ℤ Addr → List (ℤ × Addr)

-- How many entries have the key.
abbrev pub key_tally : ℤ → Dict ℤ Addr → ℕ
key_tally k [] = 0
key_tally k ((j, p) ∷ table) = (if j ==ℤ k then 1 else 0) + key_tally k table

-- What `rbtree.h` promises: a balanced tree has the nodes of the given one in the same order, but
-- for the erased one. And a `zhash_t` gives the entries that it has, each key as often as it is there.
pub record IsLawful (lib : Libs) : Type 1 where
  pub insert_color-inorder : (t : Tree Addr) → inorder (lib.rb.rb_insert_color t) ≡ inorder t
  pub erase-inorder :
      (p : Addr) (t : Tree Addr) → inorder (lib.rb.rb_erase p t) ≡ without p (inorder t)
  pub erase_augmented-points :
      (f : MtTree → Addr → MtTree → ℤ) (p : Addr) (t : MtTree)
      → points (lib.rb.rb_erase_augmented f p t) ≡ without p (points t)
  pub insert_augmented-points :
      (f : MtTree → Addr → MtTree → ℤ) (t : MtTree)
      → points (lib.rb.rb_insert_augmented f t) ≡ points t
  pub entries-All :
      (P : ℤ × Addr → Type 0) (table : Dict ℤ Addr) → All P table → All P (lib.zhash_entries table)
  pub entries-tally :
      (k : ℤ) (table : Dict ℤ Addr) → key_tally k (lib.zhash_entries table) ≡ key_tally k table

-- A key that is there already is left.
unfoldable pub track_points : Heap → Addr → MinTime → MinTime
track_points heap p mt =
    if contains (heap p).at mt.avail_time_iter
    then mt
    else record mt { avail_time_iter = insert (heap p).at p mt.avail_time_iter }

module _ (lib : Libs) where
  -- `mintime_resource_insert` and `mintime_resource_remove`
  unfoldable pub mintime_resource_insert : Heap → ℕ → Addr → MinTime → MinTime
  unfolding link_mintime
  mintime_resource_insert heap len p mt = record mt {
    mt_resource_tree =
        lib.rb.rb_insert_augmented (mintime_resource_subtree_min heap)
          (link_mintime heap p len mt.mt_resource_tree);
    in_mt_resource_tree = λ q. p == q || mt.in_mt_resource_tree q;
  }

  unfoldable pub mintime_resource_remove : Heap → Addr → MinTime → MinTime
  mintime_resource_remove heap p mt = record mt {
    mt_resource_tree =
        lib.rb.rb_erase_augmented (mintime_resource_subtree_min heap) p mt.mt_resource_tree;
    in_mt_resource_tree = λ q. not (p == q) && mt.in_mt_resource_tree q;
  }

  unfoldable pub restore_each : Heap → ℕ → List (ℤ × Addr) → MinTime → MinTime
  unfolding mintime_resource_insert
  restore_each heap len [] mt = mt
  restore_each heap len ((k, p) ∷ rest) mt =
      let mt' = mintime_resource_insert heap len p mt in
      restore_each heap len rest (record mt' { avail_time_iter = erase k mt'.avail_time_iter })

  unfoldable pub restore_track_points : PlannerContext → MinTime
  unfolding restore_each
  restore_track_points ctx =
      restore_each ctx.heap ctx.dimension (lib.zhash_entries ctx.mt.avail_time_iter) ctx.mt

  unfoldable pub update_mintime_resource_tree : Heap → ℕ → List Addr → MinTime → MinTime
  unfolding mintime_resource_insert mintime_resource_remove
  update_mintime_resource_tree heap len [] mt = mt
  update_mintime_resource_tree heap len (p ∷ rest) mt =
      let mt₁ = if mt.in_mt_resource_tree p then mintime_resource_remove heap p mt else mt in
      let mt₂ =
        if not ((heap p).ref_count ==ℤ pos 0) && not (mt₁.in_mt_resource_tree p)
        then mintime_resource_insert heap len p mt₁
        else mt₁ in
      update_mintime_resource_tree heap len rest mt₂

  unfoldable pub scheduled_point_insert : Heap → Addr → Tree Addr → Tree Addr × ℤ
  unfolding link_point
  scheduled_point_insert heap p root = elim (link_point heap p root) [
    | none ↦ (root, negsuc 0)
    | some linked ↦ (lib.rb.rb_insert_color linked, pos 0)
  ]

  unfoldable pub scheduled_point_remove : Heap → Addr → Tree Addr → Tree Addr × ℤ
  scheduled_point_remove heap p root = elim (scheduled_point_search heap (heap p).at root) [
    | none ↦ (root, negsuc 0)
    | some n ↦ (lib.rb.rb_erase n root, pos 0)
  ]

  -- A new point, with the counts of the state before it.
  unfoldable pub make_point : PlannerContext → ℤ → Addr → PlannerContext × Addr
  unfolding scheduled_point_insert mintime_resource_insert
  make_point ctx at state =
      let point : ScheduledPoint = record (ctx.heap state) { at = at; ref_count = pos 0 } in
      let p = ctx.next in
      let heap = write p point ctx.heap in
      (
        record ctx {
          heap = heap;
          next = suc p;
          sched_point_tree = (scheduled_point_insert heap p ctx.sched_point_tree).0;
          mt = mintime_resource_insert heap ctx.dimension p ctx.mt;
        },
        p,
      )

  -- Without a state before it, it is read through a null pointer.
  unfoldable pub new_point : PlannerContext → ℤ → Run (PlannerContext × Addr)
  unfolding make_point
  new_point ctx at = elim (scheduled_point_state ctx.heap at ctx.sched_point_tree) [
    | none ↦ fault null_access
    | some state ↦ ok (make_point ctx at state)
  ]

  unfoldable pub get_or_new_point : PlannerContext → ℤ → Run (PlannerContext × Addr)
  unfolding new_point
  get_or_new_point ctx at = elim (scheduled_point_search ctx.heap at ctx.sched_point_tree) [
    | some p ↦ ok (ctx, p)
    | none ↦ new_point ctx at
  ]

-- The loop of `fetch_overlap_points`, over the points from the state on.
unfoldable pub overlap_loop : Heap → ℤ → ℤ → List Addr → List Addr
overlap_loop heap at end [] = []
overlap_loop heap at end (p ∷ ps) =
    let rest = overlap_loop heap at end ps in
    if not (ltb_ℤ (heap p).at end)
    then []
    else if not (ltb_ℤ (heap p).at at)
    then p ∷ rest
    else rest

unfoldable pub fetch_overlap_points : PlannerContext → ℤ → ℕ → List Addr
unfolding overlap_loop
fetch_overlap_points ctx at duration =
    overlap_loop ctx.heap at (at +ℤ to_i64 duration)
      (rb_walk (scheduled_point_state ctx.heap at ctx.sched_point_tree) ctx.sched_point_tree)

-- `planned` over the indices below the span's dimension, where the loops add and subtract it.
abbrev pub demand : Span → ℕ → ℤ
demand span i = if ltb i span.dimension then span.planned i else pos 0

unfoldable pub add_demand : Span → ScheduledPoint → ScheduledPoint
add_demand span p = record p {
  scheduled = λ i. p.scheduled i +ℤ demand span i;
  remaining = λ i. p.remaining i -ℤ demand span i;
}

unfoldable pub subtract_demand : Span → ScheduledPoint → ScheduledPoint
subtract_demand span p = record p {
  scheduled = λ i. p.scheduled i -ℤ demand span i;
  remaining = λ i. p.remaining i +ℤ demand span i;
}

-- The loops of `update_points_add_span` and `update_points_subtract_span` over the points. Their
-- result, by which they report counts out of range, no caller reads.
unfoldable pub update_points : (ScheduledPoint → ScheduledPoint) → List Addr → Heap → Heap
update_points f [] heap = heap
update_points f (p ∷ ps) heap = update_points f ps (write p (f (heap p)) heap)

unfoldable pub any_index : ℕ → (ℕ → Bool) → Bool
any_index zero test = false
any_index (suc n) test = test n || any_index n test

-- The tests by which the two loops set `errno`.
unfoldable pub exceeds : ResourceArray → ℕ → ScheduledPoint → Bool
unfolding any_index
exceeds total dim p =
    any_index dim λ i. ltb_ℤ (total i) (p.scheduled i) || ltb_ℤ (p.remaining i) (pos 0)

unfoldable pub falls_short : ResourceArray → ℕ → ScheduledPoint → Bool
unfolding any_index
falls_short total dim p =
    any_index dim λ i. ltb_ℤ (p.scheduled i) (pos 0) || ltb_ℤ (total i) (p.remaining i)
