-- ===== src/Tree/Paths.antt =====
-- The loops that compute paths, against the closed form of Tree/Levels.
use mathlib.Core.List.{reverse, reverse-append}
use native.Mathlib.Nat.{pow-suc, div-one}
use unified_oramhub.Base.{
  ℕ, zero, suc, ◌+◌, ◌-◌, ◌*◌, ◌/◌, ◌%◌, ◌^◌, ◌≤◌, ◌<◌, ◌≡◌, refl, sym, ap, ◌∙◌, ◌↔◌, List, [], ◌∷◌,
  ◌++◌, true, ok, arith, eq→==, ==→eq,
}
use unified_oramhub.Tree.{
  get_num_tree_nodes, get_num_leaves, get_leaf_offset, shr, path_loop, get_path_indices,
  can_place_in_bucket, child_towards, descend, get_bucket_index, path_down, get_path_from_root,
  level_loop, get_node_level, is_bucket_on_leaf_path, checked_node_level, checked_bucket_index,
}
use unified_oramhub.Tree.Levels.{
  label, node_at, nodes_from, shr-suc, label-suc, label_lem, label-pos, label-ge, label-lt,
  node_at-lt, node_at-eq_of_shr, shr-eq_of_node_at, two_pow_pos, shr-lt,
}

-- A node below the root stands under the node of the next level.
parent_lem :
    (h l d k : ℕ)
    → suc d + k ≡ h
    → (2 ≤ label h l k) × (node_at h l (suc k) ≡ (node_at h l k - 1) / 2)
unfolding node_at
parent_lem h l d k e =
    let two : 2 ≤ label h l k =
      omega (arith, label-ge h l (suc d) k e, two_pow_pos d, pow-suc 2 d) in
    (two, omega (arith, label-suc h l k, two))

-- The loop from a node at depth `d` reads the `d + 1` nodes up to the root.
path_loop-nodes_from :
    (d h l k fuel : ℕ)
    → d + k ≡ h
    → l < 2 ^ h
    → node_at h l k < fuel
    → path_loop fuel (node_at h l k) ≡ nodes_from (suc d) h l k
unfolding path_loop nodes_from node_at
path_loop-nodes_from d h l k zero e b f = absurd (omega arith)
path_loop-nodes_from zero h l k (suc fuel) e b f =
    ground (arith, label-lt h l 0 k e b, label-pos h l 0 k e)
path_loop-nodes_from (suc d) h l k (suc fuel) e b f =
    let (two, up) = parent_lem h l d k e in
    ground (
      arith,
      two,
      up,
      path_loop-nodes_from d h l (suc k) fuel (omega arith) b (omega (arith, up, two, f)),
    )

label-zero : (h l : ℕ) → label h l 0 ≡ 2 ^ h + l
unfolding label
label-zero h l = div-one (2 ^ h + l)

-- The loop from the leaf up returns exactly the height + 1 nodes of the closed form of the path,
-- the leaf bucket first.
pub get_path_indices-nodes_from :
    (h l : ℕ) → l < 2 ^ h → get_path_indices h l ≡ nodes_from (suc h) h l 0
unfolding get_path_indices get_leaf_offset node_at
get_path_indices-nodes_from h l b =
    let e : get_leaf_offset h + l ≡ node_at h l 0 = omega (arith, label-zero h l, two_pow_pos h) in
    rw e (path_loop-nodes_from h h l 0 (node_at h l 0 + 1) (omega arith) b (omega arith))

child_towards-node_at :
    (h l d k : ℕ) → d + suc k ≡ h → child_towards h l d (node_at h l (suc k)) ≡ node_at h l k
unfolding child_towards node_at
child_towards-node_at h l d k e =
    let i : h - 1 - d ≡ k = omega arith in
    let low : shr l k % 2 + 2 * shr l (suc k) ≡ shr l k = omega (arith, shr-suc l k) in
    rw i (
      omega (
        arith,
        low,
        label_lem h l d (suc k) e,
        label_lem h l (suc d) k (omega arith),
        pow-suc 2 d,
        two_pow_pos d,
      ))

node_at-root : (h l : ℕ) → l < 2 ^ h → node_at h l h ≡ 0
unfolding node_at
node_at-root h l b = omega (arith, label_lem h l 0 h (omega arith), shr-lt l 0 h small)
  where
    small : l < 2 ^ (0 + h)
    small = let e : 0 + h ≡ h = omega arith in rw e b

-- The steps down from a path node reach the node of the same path further down.
descend-node_at :
    (n h l d k : ℕ) → d + (n + k) ≡ h → descend n h l d (node_at h l (n + k)) ≡ node_at h l k
unfolding descend
descend-node_at zero h l d k e = ap (node_at h l) (omega arith)
descend-node_at (suc n) h l d k e =
    let i : suc n + k ≡ suc (n + k) = omega arith in
    rw (i, child_towards-node_at h l d (n + k) (omega arith))
      (descend-node_at n h l (d + 1) k (omega arith))

-- The walk down to a level meets the node that the closed form of the path has at that level.
pub get_bucket_index-node_at :
    (h l level : ℕ) → l < 2 ^ h → level ≤ h → get_bucket_index h l level ≡ node_at h l (h - level)
unfolding get_bucket_index
get_bucket_index-node_at h l level b le =
    let root : 0 ≡ node_at h l (level + (h - level)) =
      let e : level + (h - level) ≡ h = omega arith in rw e (sym (node_at-root h l b)) in
    ap (descend level h l 0) root ∙ descend-node_at level h l 0 (h - level) (omega arith)

nodes_from-snoc :
    (n h l k : ℕ) → nodes_from (suc n) h l k ≡ nodes_from n h l k ++ node_at h l (k + n) ∷ []
unfolding nodes_from
nodes_from-snoc zero h l k = let e : k + 0 ≡ k = omega arith in rw e
nodes_from-snoc (suc n) h l k =
    let e : k + suc n ≡ suc k + n = omega arith in rw e (rw (← nodes_from-snoc n h l (suc k)))

path_down-reverse :
    (n h l d : ℕ)
    → d + n ≡ h
    → path_down n h l d (node_at h l n) ≡ reverse (nodes_from (suc n) h l 0)
unfolding path_down
path_down-reverse zero h l d e = unfold nodes_from in refl
path_down-reverse (suc n) h l d e =
    let z : 0 + suc n ≡ suc n = omega arith in
    rw
      (
        nodes_from-snoc (suc n) h l 0,
        z,
        reverse-append (nodes_from (suc n) h l 0) (node_at h l (suc n) ∷ []),
        child_towards-node_at h l d n e,
      )
      (ap {B = List ℕ} (λ r. node_at h l (suc n) ∷ r)
        (path_down-reverse n h l (d + 1) (omega arith)))

-- The path that Ring and Onion Ring ORAM compute from the root down is the path that Path ORAM
-- computes from the leaf up, reversed, for every leaf of the tree.
pub get_path_from_root-reverse :
    (h l : ℕ) → l < 2 ^ h → get_path_from_root h l ≡ reverse (get_path_indices h l)
unfolding get_path_from_root
get_path_from_root-reverse h l b =
    ap (path_down h h l 0) (sym (node_at-root h l b))
    ∙ path_down-reverse h h l 0 (omega arith)
    ∙ ap reverse (sym (get_path_indices-nodes_from h l b))

-- The loop up from a node at depth `d` makes `d` steps.
level_loop-node_at :
    (d h l k fuel level : ℕ)
    → d + k ≡ h
    → l < 2 ^ h
    → node_at h l k < fuel
    → level_loop fuel (node_at h l k) level ≡ level + d
unfolding level_loop node_at
level_loop-node_at d h l k zero level e b f = absurd (omega arith)
level_loop-node_at zero h l k (suc fuel) level e b f =
    ground (arith, label-lt h l 0 k e b, label-pos h l 0 k e)
level_loop-node_at (suc d) h l k (suc fuel) level e b f =
    let (two, up) = parent_lem h l d k e in
    ground (
      arith,
      two,
      up,
      level_loop-node_at d h l (suc k) fuel (level + 1) (omega arith) b (omega (arith, up, two, f)),
    )

-- The level of a path's node is its depth.
pub get_node_level-node_at :
    (h l d k : ℕ) → d + k ≡ h → l < 2 ^ h → get_node_level (node_at h l k) ≡ d
unfolding get_node_level
get_node_level-node_at h l d k e b =
    let z : 0 + d ≡ d = omega arith in
    level_loop-node_at d h l k (node_at h l k + 1) 0 e b (omega arith) ∙ z

-- GetNodeLevel of the node that GetBucketIndex returns for a leaf and a level is that level.
pub get_node_level-get_bucket_index :
    (h l level : ℕ) → l < 2 ^ h → level ≤ h → get_node_level (get_bucket_index h l level) ≡ level
get_node_level-get_bucket_index h l level b le =
    rw (get_bucket_index-node_at h l level b le)
      (get_node_level-node_at h l level (h - level) (omega arith) b)

-- At a level up to the height, the test of two leaves succeeds exactly when the two paths have
-- the same node there.
pub can_place_in_bucket_iff :
    (h block_leaf target_leaf level : ℕ)
    → level ≤ h
    → (can_place_in_bucket block_leaf target_leaf level ≡ true)
      ↔ (node_at h block_leaf level ≡ node_at h target_leaf level)
unfolding can_place_in_bucket
can_place_in_bucket_iff h b t k le = (
  λ e. node_at-eq_of_shr h b t (h - k) k (omega arith) (==→eq _ _ e),
  λ e. eq→== _ _ (shr-eq_of_node_at h b t (h - k) k (omega arith) e),
)

-- Ring ORAM's test whether a bucket of one leaf's path lies on the path of another leaf succeeds
-- and answers what Path ORAM's test of the two leaves answers.
pub is_bucket_on_leaf_path_iff :
    (h l m level : ℕ)
    → l < 2 ^ h
    → m < 2 ^ h
    → level ≤ h
    → is_bucket_on_leaf_path h (node_at h l level) m ≡ ok (can_place_in_bucket m l level)
unfolding is_bucket_on_leaf_path checked_node_level checked_bucket_index get_num_tree_nodes
    get_num_leaves can_place_in_bucket
is_bucket_on_leaf_path_iff h l m k bl bm le =
    let d : h - (h - k) ≡ k = omega arith in
    ground (
      arith,
      get_node_level-node_at h l (h - k) k (omega arith) bl,
      get_bucket_index-node_at h m (h - k) bm (omega arith),
      ap (node_at h m) d,
      node_at-lt h l (h - k) k (omega arith) bl,
      node_at-eq_of_shr h m l (h - k) k (omega arith),
      shr-eq_of_node_at h m l (h - k) k (omega arith),
    )

-- The node that GetBucketIndex returns for a leaf of the tree and a level up to the height is a
-- node of the tree.
pub get_bucket_index-lt :
    (h l level : ℕ) → l < 2 ^ h → level ≤ h → get_bucket_index h l level < get_num_tree_nodes h
unfolding get_num_tree_nodes
get_bucket_index-lt h l level b le =
    rw (get_bucket_index-node_at h l level b le) (node_at-lt h l level (h - level) (omega arith) b)
