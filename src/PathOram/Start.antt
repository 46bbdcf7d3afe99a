-- ===== src/PathOram/Start.antt =====
-- Init of PathORAMServer.cpp, and the client's constructor: the tree and the files at the start.
pub mod Fresh
use native.Mathlib.Nat.{pow-le-pow_right, div-one}
use native.Mathlib.Decide.{ℕ_discrete}
use mathlib.Core.Path.{subst}
use unified_oramhub.Base.{
  ℕ, zero, suc, ◌+◌, ◌-◌, ◌^◌, ◌≤◌, ◌<◌, ◌≡◌, refl, sym, ◌∙◌, ap, ◌≢◌, ◌⊎◌, inl, inr, List, [], ◌∷◌,
  ◌++◌, map, Bool, true, false, Option, none, some, Result, ok, err, ◌>>=◌, arith, length,
  get_elem?, ◌==◌, if◌then◌else◌, leb, update, eq-or-ne, ne_of_==, eq→==, Bool-cases, Option-cases,
  length-replicate,
}
use unified_oramhub.Core.Memory.{Bytes, u64_mod}
use unified_oramhub.Core.{Block, Bucket, new_bucket, get_block_count, add_block}
use unified_oramhub.Core.Serializer.{BlockFits, BucketFits, serialize_bucket}
use unified_oramhub.Tree.{get_num_tree_nodes, get_num_leaves, get_leaf_offset}
use unified_oramhub.Tree.Levels.{node_at, label, label-lt, label-pos, two_pow_pos}
use unified_oramhub.PathOram.Buckets.{bucket_size, block_size, dummy_id, fill_bucket_with_dummies}
use unified_oramhub.PathOram.Stash.Weights.{weigh, copies}
use unified_oramhub.PathOram.Padding.{Padded, fill_bucket-Padded}
use unified_oramhub.PathOram.Storage.{
  Server, validate_bucket_shape, write_bucket_to_disk, random_data, initial_bucket, leaf_block,
  init_loop, init,
}
use unified_oramhub.PathOram.Server.Stored.{Stores}

length-random_data : (n : ℕ) (rand : ℕ → ℕ) → length (random_data n rand) ≡ n
unfolding random_data
length-random_data zero rand = refl
length-random_data (suc n) rand = ap suc (length-random_data n rand)

random_short :
    (limit : ℕ) (rand : ℕ → ℕ → ℕ) (slot : ℕ)
    → block_size < limit
    → length (random_data block_size (rand slot)) < limit
random_short limit rand slot room = omega (arith, room, length-random_data block_size (rand slot))

empty-Fits : {limit : ℕ} → BucketFits limit bucket_size (new_bucket bucket_size)
empty-Fits = record {
  same_capacity = refl;
  within = omega arith;
  count_fits = omega arith;
  blocks_fit = tt;
}

-- The bucket that Init builds before the padding.
unfoldable pub initial_real : ℕ → List Block → ℕ → Bucket
initial_real h blocks idx =
    if leb (get_leaf_offset h) idx
    then leaf_block (get_elem? blocks (idx - get_leaf_offset h)) (new_bucket bucket_size)
    else new_bucket bucket_size

-- Weights of the initial tree: block m at leaf m, and nothing above the leaves.
abbrev pub leaf_weight : (Block → ℕ) → Option Block → ℕ
leaf_weight w none = 0
leaf_weight w (some b) = w b

leaf_block-weight :
    (w : Block → ℕ) (o : Option Block)
    → weigh w (leaf_block o (new_bucket bucket_size)).blocks ≡ leaf_weight w o
unfolding add_block
leaf_block-weight w none = refl
leaf_block-weight w (some b) = omega arith

module _ {limit : ℕ} (h : ℕ) (blocks : List Block) (rand : ℕ → ℕ → ℕ → ℕ)
    (filler_fits : block_size < limit)
    (fit : (i : ℕ) (b : Block) → get_elem? blocks i ≡ some b → BlockFits limit b) where
  leaf_block-Fits :
      (o : Option Block)
      → ((b : Block) → o ≡ some b → BlockFits limit b)
      → BucketFits limit bucket_size (leaf_block o (new_bucket bucket_size))
  unfolding add_block
  leaf_block-Fits none f = empty-Fits
  leaf_block-Fits (some b) f = record {
    same_capacity = refl;
    within = omega arith;
    count_fits = omega arith;
    blocks_fit = (f b refl, tt);
  }

  initial_real-Fits : (idx : ℕ) → BucketFits limit bucket_size (initial_real h blocks idx)
  unfolding initial_real
  initial_real-Fits idx = elim (Bool-cases (leb (get_leaf_offset h) idx)) [
    | inl e ↦ rw e (
        leaf_block-Fits (get_elem? blocks (idx - get_leaf_offset h))
          (fit (idx - get_leaf_offset h)))
    | inr e ↦ rw e empty-Fits
  ]

  pub initial-Padded :
      (idx : ℕ) → Padded limit (initial_real h blocks idx) (initial_bucket h blocks rand idx)
  unfolding initial_bucket initial_real
  initial-Padded idx =
      fill_bucket-Padded (λ slot. random_data block_size (rand idx slot))
        (λ slot. random_short limit (rand idx) slot filler_fits) _
        (unfold initial_real in initial_real-Fits idx)

  -- The state of the server while Init writes: the files below `k` are written.
  record WrittenBelow (k : ℕ) (s : Server) : Type 0 where
    pub same_height : s.tree_height ≡ h
    pub initialized : s.node_count ≡ get_num_tree_nodes h
    pub has_dir : s.has_tree_dir ≡ true
    pub can_write : s.writable ≡ true
    pub written :
        (i : ℕ) → i < k → s.files i ≡ some (serialize_bucket (initial_bucket h blocks rand i))

  init_loop-WrittenBelow :
      (n k : ℕ) (s : Server)
      → k + n ≡ get_num_tree_nodes h
      → WrittenBelow k s
      → (s' : Server) × (init_loop n k blocks rand s ≡ ok s')
        × WrittenBelow (get_num_tree_nodes h) s'
  unfolding init_loop write_bucket_to_disk validate_bucket_shape
  init_loop-WrittenBelow zero k s e st = (s, refl, subst (λ j. WrittenBelow j s) (omega arith) st)
  init_loop-WrittenBelow (suc n) k s e st =
      let b = initial_bucket h blocks rand k in
      let s₁ : Server = record s {
        has_tree_dir = true;
        files = update s.files k (some (serialize_bucket b));
      } in
      let (s', run, st') = init_loop-WrittenBelow n (k + 1) s₁ (omega arith) (record {
        same_height = st.same_height;
        initialized = st.initialized;
        has_dir = refl;
        can_write = st.can_write;
        written = λ i lt. ground (arith, st.written i);
      }) in
      (
        s',
        ground (
          arith,
          run,
          st.same_height,
          st.initialized,
          st.can_write,
          ap (λ x. initial_bucket x blocks rand k) st.same_height,
          (initial-Padded k).fits.same_capacity,
          (initial-Padded k).fits.within,
        ),
        st',
      )

  -- Init stores the initial tree.
  pub init-Stores :
      (s : Server)
      → s.tree_height ≡ h
      → s.writable ≡ true
      → length blocks ≤ 2 ^ h
      → (s' : Server) × (init blocks rand s ≡ ok s')
        × Stores limit h (initial_bucket h blocks rand) s'
  unfolding init get_num_leaves
  init-Stores s height writable small =
      let s₀ : Server = record s {
        has_tree_dir = true;
        files = λ _. none;
        node_count = get_num_tree_nodes s.tree_height;
      } in
      let (s', run, st) = init_loop-WrittenBelow (get_num_tree_nodes h) 0 s₀ (omega arith) (record {
        same_height = height;
        initialized = ap get_num_tree_nodes height;
        has_dir = refl;
        can_write = writable;
        written = λ i lt. absurd (omega (arith, lt));
      }) in
      (
        s',
        ground (arith, run, small, ap get_num_tree_nodes height, ap (λ (x : ℕ). 2 ^ x) height),
        record {
          same_height = st.same_height;
          initialized = st.initialized;
          has_dir = st.has_dir;
          can_write = st.can_write;
          on_disk = st.written;
          fits = λ i lt. (initial-Padded i).fits;
        },
      )

  node_at-leaf : (m : ℕ) → node_at h m 0 ≡ get_leaf_offset h + m
  unfolding node_at get_leaf_offset label
  node_at-leaf m = omega (arith, div-one (2 ^ h + m), two_pow_pos h)

  node_at-inner : (m j : ℕ) → m < 2 ^ h → 0 < j → j ≤ h → node_at h m j < get_leaf_offset h
  unfolding node_at get_leaf_offset
  node_at-inner m j b pos le =
      let up : 2 ^ suc (h - j) ≤ 2 ^ h = pow-le-pow_right (omega arith) (omega arith) in
      omega
        (arith, label-lt h m (h - j) j (omega arith) b, label-pos h m (h - j) j (omega arith), up)

  module _ (w : Block → ℕ) (z : (x : Block) → x.id ≡ dummy_id → w x ≡ 0) where
    pub initial-leaf :
        (m : ℕ)
        → weigh w (initial_bucket h blocks rand (node_at h m 0)).blocks
          ≡ leaf_weight w (get_elem? blocks m)
    unfolding initial_real
    initial-leaf m =
        let e : node_at h m 0 - get_leaf_offset h ≡ m = omega (arith, node_at-leaf m) in
        let t : leb (get_leaf_offset h) (node_at h m 0) ≡ true = ground (arith, node_at-leaf m) in
        (initial-Padded (node_at h m 0)).same_weight w z
        ∙ rw (t, e) (leaf_block-weight w (get_elem? blocks m))

    pub initial-inner :
        (m j : ℕ)
        → m < 2 ^ h
        → 0 < j
        → j ≤ h
        → weigh w (initial_bucket h blocks rand (node_at h m j)).blocks ≡ 0
    unfolding initial_real
    initial-inner m j b pos le =
        let t : leb (get_leaf_offset h) (node_at h m j) ≡ false =
          ground (arith, node_at-inner m j b pos le) in
        (initial-Padded (node_at h m j)).same_weight w z ∙ rw t refl
