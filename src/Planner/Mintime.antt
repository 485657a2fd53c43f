-- ===== src/Planner/Mintime.antt =====
-- `planner/planner.c`: the comparison of resource vectors, and the min-time resource tree.
pub mod Rescmp
pub mod Nodes
use resource_query.Prelude.{
  ℕ, zero, suc, ◌+◌, ◌-◌, ◌^◌, ℤ, pos, negsuc, ◌+ℤ◌, ◌-ℤ◌, ltb_ℤ, ◌==ℤ◌, to_unsigned, to_signed,
  List, [], ◌∷◌, ◌++◌, map, Bool, true, false, ◌&&◌, ◌==◌, Option, none, some, if◌then◌else◌,
}
use resource_query.Planner.Points.{
  Addr, ResourceArray, ScheduledPoint, Heap, Tree, leaf, node, inorder,
}

abbrev pub planner_num_types : ℕ
planner_num_types = 5

abbrev pub int64_max : ℤ
int64_max = pos (2 ^ 63 - 1)

-- `ENOTSUP`
abbrev pub not_supported : ℕ
not_supported = 95

-- The conversion of an `int64_t` to `int`.
abbrev pub to_int : ℤ → ℤ
to_int z = to_signed (2 ^ 32) (to_unsigned (2 ^ 32) z)

-- The loop from index `i` for `n` rounds. `less` is an `int`.
unfoldable pub rescmp_loop : ResourceArray → ResourceArray → ℕ → ℕ → ℤ → ℤ
rescmp_loop s1 s2 i zero less = less
rescmp_loop s1 s2 i (suc n) less =
    let r = s1 i -ℤ s2 i in
    let rest = rescmp_loop s1 s2 (suc i) n (to_int (less +ℤ r)) in
    if ltb_ℤ (pos 0) r then r else rest

unfoldable pub rescmp : ResourceArray → ResourceArray → ℕ → ℤ
unfolding rescmp_loop
rescmp s1 s2 len = rescmp_loop s1 s2 0 len (pos 0)

-- A node of the tree: its point, and the least time in its subtree.
pub record MtNode : Type 0 where
  pub point : Addr
  pub subtree_min : ℤ

abbrev pub MtTree : Type 0
MtTree = Tree MtNode

abbrev pub points : MtTree → List Addr
points t = map (λ n. n.point) (inorder t)

-- The child is there, and its subtree has the time as its least.
abbrev pub leads_left : ℤ → MtTree → Bool
leads_left min_time leaf = false
leads_left min_time (node _ m _) = m.subtree_min ==ℤ min_time

-- `rbtree.h` and `rbtree_augmented.h`, which keep the trees balanced. The augmented calls take the
-- function that gives a node's minimum from its children, by which the callbacks keep it.
pub record RbTree : Type 0 where
  pub rb_insert_color : Tree Addr → Tree Addr
  pub rb_erase : Addr → Tree Addr → Tree Addr
  pub rb_insert_augmented : (MtTree → Addr → MtTree → ℤ) → MtTree → MtTree
  pub rb_erase_augmented : (MtTree → Addr → MtTree → ℤ) → Addr → MtTree → MtTree

module _ (heap : Heap) where
  abbrev lesser : ℤ → MtTree → ℤ
  lesser min leaf = min
  lesser min (node _ child _) = if ltb_ℤ child.subtree_min min then child.subtree_min else min

  unfoldable pub mintime_resource_subtree_min : MtTree → Addr → MtTree → ℤ
  mintime_resource_subtree_min l p r = lesser (lesser (heap p).at l) r

  -- The descent of `mintime_resource_insert`, which lowers the minima on its way to the link.
  unfoldable pub link_mintime : Addr → ℕ → MtTree → MtTree
  unfolding rescmp
  link_mintime new len leaf = node leaf (record { point = new; subtree_min = (heap new).at }) leaf
  link_mintime new len (node l n r) =
      let m = if ltb_ℤ (heap new).at n.subtree_min then (heap new).at else n.subtree_min in
      let n' : MtNode = record n { subtree_min = m } in
      let left = node (link_mintime new len l) n' r in
      let right = node l n' (link_mintime new len r) in
      if ltb_ℤ (rescmp (heap new).remaining (heap n.point).remaining len) (pos 0)
      then left
      else right

  unfoldable pub right_branch_mintime : MtNode → MtTree → ℤ
  right_branch_mintime n right =
      let min_time : ℤ = elim right [ leaf ↦ int64_max | node _ m _ ↦ m.subtree_min ] in
      if ltb_ℤ (heap n.point).at min_time then (heap n.point).at else min_time

  -- The loop of `find_mintime_point`, from the anchor's right child. The second result is `errno`.
  unfoldable pub point_loop : ℤ → MtTree → Option Addr × Option ℕ
  point_loop min_time leaf = (none, some not_supported)
  point_loop min_time (node l n r) =
      let left = point_loop min_time l in
      let right = point_loop min_time r in
      if (heap n.point).at ==ℤ min_time
      then (some n.point, none)
      else if leads_left min_time l
      then left
      else right

  -- The anchor is the subtree below it; a null anchor is the empty tree.
  unfoldable pub find_mintime_point : MtTree → ℤ → Option Addr × Option ℕ
  unfolding point_loop
  find_mintime_point leaf min_time = (none, none)
  find_mintime_point (node l n r) min_time =
      if (heap n.point).at ==ℤ min_time then (some n.point, none) else point_loop min_time r

  -- The loop of `find_mintime_anchor`, over the least time so far and its anchor.
  unfoldable pub anchor_loop : ResourceArray → ℕ → MtTree → ℤ → MtTree → ℤ × MtTree
  unfolding rescmp right_branch_mintime
  anchor_loop ra len leaf min_time anchor = (min_time, anchor)
  anchor_loop ra len (node l n r) min_time anchor =
      let right_min_time = right_branch_mintime n r in
      let better = ltb_ℤ right_min_time min_time in
      let left =
        anchor_loop ra len l (if better then right_min_time else min_time)
          (if better then node l n r else anchor) in
      let right = anchor_loop ra len r min_time anchor in
      if ltb_ℤ (pos 0) (rescmp ra (heap n.point).remaining len) then right else left

  unfoldable pub find_mintime_anchor : ResourceArray → ℕ → MtTree → ℤ × MtTree
  unfolding anchor_loop
  find_mintime_anchor ra len mtrt = anchor_loop ra len mtrt int64_max leaf

  unfoldable pub mintime_resource_mintime : ResourceArray → ℕ → MtTree → Option Addr × Option ℕ
  unfolding find_mintime_anchor find_mintime_point
  mintime_resource_mintime ra len mtrt =
      let (min_time, anchor) = find_mintime_anchor ra len mtrt in find_mintime_point anchor min_time
