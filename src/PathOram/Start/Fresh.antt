-- ===== src/PathOram/Start/Fresh.antt =====
-- A new client of PathORAMClient.cpp and a server that ran Init, as a memory of the initial
-- blocks.
use unified_oramhub.Base.{
  ℕ, zero, suc, ◌+◌, ◌-◌, ◌^◌, ◌≤◌, ◌<◌, ◌≡◌, refl, sym, ◌∙◌, ap, ◌≢◌, inl, inr, List, [], ◌∷◌,
  true, Option, none, some, ok, arith, length, get_elem?, replicate, ◌==◌, if◌then◌else◌, leb,
  Bool-cases, get_elem?_total, get_elem?-lt_length,
}
use unified_oramhub.Core.Memory.{Bytes}
use unified_oramhub.Core.{Block, Bucket, new_bucket, add_block}
use unified_oramhub.Core.Serializer.{BlockFits}
use unified_oramhub.Tree.{shr, get_leaf_offset}
use unified_oramhub.Tree.Levels.{node_at, nodes_from}
use unified_oramhub.PathOram.Buckets.{bucket_size, block_size, dummy_id}
use unified_oramhub.PathOram.Stash.{find_block_in_stash, found_data, real_blocks}
use unified_oramhub.PathOram.Stash.Weights.{
  weigh, weigh_buckets, copies, has_id, has_id-Supports, Supports, find-eq_of_weights,
  weigh-real_blocks,
}
use unified_oramhub.PathOram.Storage.{Server, initial_bucket, init, leaf_block}
use unified_oramhub.PathOram.Client.{Client, new_client, initialize_position_map}
use unified_oramhub.PathOram.Writes.{path_of}
use unified_oramhub.PathOram.Invariant.{Inv, Represents, stray, whole_path, content_at}
use unified_oramhub.PathOram.Start.{
  initial_real, init-Stores, initial-Padded, initial-leaf, initial-inner, leaf_weight,
}

-- Block i is stored at leaf i, and the position map sends its identifier there.
pub record InitOk (limit h n : ℕ) (blocks : List Block) (positions : List ℕ) : Type 0 where
  pub sized : length positions ≡ n
  pub few : n ≤ dummy_id
  pub room : length blocks ≤ 2 ^ h
  pub leaves : (id p : ℕ) → get_elem? positions id ≡ some p → p < 2 ^ h
  pub placed :
      (i : ℕ) (b : Block)
      → get_elem? blocks i ≡ some b
      → (b.id < n) × (get_elem? positions b.id ≡ some i) × BlockFits limit b

abbrev zero_data : Bytes
zero_data = replicate block_size 0

abbrev data_of : ℕ → Option Block → Bytes
data_of id none = zero_data
data_of id (some b) = if b.id == id then b.bytes else zero_data

abbrev data_at : List Block → ℕ → Option ℕ → Bytes
data_at blocks id none = []
data_at blocks id (some p) = data_of id (get_elem? blocks p)

-- What the memory holds at the start: the data of the initial blocks, and zeros.
abbrev pub initial_memory : List Block → List ℕ → ℕ → Bytes
initial_memory blocks positions id = data_at blocks id (get_elem? positions id)

abbrev as_list : Option Block → List Block
as_list none = []
as_list (some b) = b ∷ []

weigh-as_list : (w : Block → ℕ) (o : Option Block) → weigh w (as_list o) ≡ leaf_weight w o
weigh-as_list w none = refl
weigh-as_list w (some b) = omega arith

find-as_list :
    (id : ℕ) (o : Option Block) → found_data (find_block_in_stash id (as_list o)) ≡ data_of id o
unfolding found_data find_block_in_stash
find-as_list id none = refl
find-as_list id (some b) = ground arith

copies-as_list : (id : ℕ) (o : Option Block) → copies id (as_list o) ≤ 1
copies-as_list id none = omega arith
copies-as_list id (some b) = ground arith

module _ {limit : ℕ} (h n : ℕ) (blocks : List Block) (positions : List ℕ)
    (good : InitOk limit h n blocks positions) (rand : ℕ → ℕ → ℕ → ℕ)
    (filler_fits : block_size < limit) where
  fit : (i : ℕ) (b : Block) → get_elem? blocks i ≡ some b → BlockFits limit b
  fit i b e = (good.placed i b e).2

  abbrev tree : ℕ → Bucket
  tree = initial_bucket h blocks rand

  abbrev fresh_client : Client
  fresh_client = record { tree_height = h; num_blocks = n; stash = []; position_map = positions }

  upper_path :
      (w : Block → ℕ)
      → ((x : Block) → x.id ≡ dummy_id → w x ≡ 0)
      → (p : ℕ) → p < 2 ^ h
      → (k j : ℕ) → suc j + k ≡ suc h
      → weigh_buckets w (path_of tree k h p (suc j)) ≡ 0
  unfolding nodes_from
  upper_path w z p b zero j e = refl
  upper_path w z p b (suc k) j e = omega (
    arith,
    initial-inner h blocks rand filler_fits fit w z p (suc j) b (omega arith) (omega arith),
    upper_path w z p b k (suc j) (omega arith),
  )

  path_weight :
      (w : Block → ℕ)
      → ((x : Block) → x.id ≡ dummy_id → w x ≡ 0)
      → (p : ℕ) → p < 2 ^ h
      → weigh_buckets w (whole_path tree h p) ≡ leaf_weight w (get_elem? blocks p)
  unfolding nodes_from
  path_weight w z p b = omega (
    arith,
    initial-leaf h blocks rand filler_fits fit w z p,
    upper_path w z p b h 0 (omega arith),
  )

  no_dummy : (id p : ℕ) → get_elem? positions id ≡ some p → id ≢ dummy_id
  no_dummy id p e q =
      absurd (omega (arith, get_elem?-lt_length positions id e, good.sized, good.few, q))

  clear :
      (id : ℕ) (w : Block → ℕ)
      → id ≢ dummy_id
      → Supports id w
      → (x : Block) → x.id ≡ dummy_id
      → w x ≡ 0
  clear id w ne s x e = s x (λ q. ne (sym q ∙ e))

  one_copy : (id : ℕ) (o : Option Block) → leaf_weight (has_id id) o ≤ 1
  one_copy id none = omega arith
  one_copy id (some b) = ground arith

  no_copy :
      (id m : ℕ) (o : Option Block)
      → ((b : Block) → o ≡ some b → b.id ≢ id)
      → leaf_weight (has_id id) o ≡ 0
  no_copy id m none f = refl
  no_copy id m (some b) f = ground (arith, f b refl)

  known : (i : ℕ) → weigh (stray n) (tree i).blocks ≡ 0
  known i =
      (initial-Padded h blocks rand filler_fits fit i).same_weight (stray n)
        (λ x e. ground (arith, e))
      ∙ real_known i
    where
      option_known :
          (m : ℕ) (o : Option Block)
          → get_elem? blocks m ≡ o
          → weigh (stray n) (leaf_block o (new_bucket bucket_size)).blocks ≡ 0
      option_known m none e = refl
      option_known m (some b) e = unfold add_block in ground (arith, (good.placed m b e).0)

      real_known : (k : ℕ) → weigh (stray n) (initial_real h blocks k).blocks ≡ 0
      real_known k =
          unfold initial_real in
          elim (Bool-cases (leb (get_leaf_offset h) k)) [
            | inl e ↦ rw e (option_known (k - get_leaf_offset h) _ refl)
            | inr e ↦ rw e refl
          ]

  fresh_off :
      (id p : ℕ)
      → get_elem? positions id ≡ some p
      → (m j : ℕ) → m < 2 ^ h
      → j ≤ h
      → shr m j ≢ shr p j
      → copies id (tree (node_at h m j)).blocks ≡ 0
  fresh_off id p at m zero b le off =
      initial-leaf h blocks rand filler_fits fit (has_id id)
        (clear id _ (no_dummy id p at) (has_id-Supports id)) m
      ∙ no_copy id m (get_elem? blocks m) (λ x e q. off (ap (λ (t : ℕ). shr t 0) (same x e q)))
    where
      same : (x : Block) → get_elem? blocks m ≡ some x → x.id ≡ id → m ≡ p
      same x e q = cc ((good.placed m x e).1, ap (get_elem? positions) q)
  fresh_off id p at m (suc j) b le off =
      initial-inner h blocks rand filler_fits fit (has_id id)
        (clear id _ (no_dummy id p at) (has_id-Supports id)) m (suc j) b (omega arith) le

  fresh-Inv : Inv limit h fresh_client tree
  fresh-Inv = record {
    height = refl;
    sized = good.sized;
    few = good.few;
    leaves = good.leaves;
    stash_known = tt;
    stash_fit = tt;
    tree_known = λ i _. known i;
    on_path = fresh_off;
    once = λ id p at. omega (
      arith,
      path_weight (has_id id) (clear id _ (no_dummy id p at) (has_id-Supports id)) p
          (good.leaves id p at),
      one_copy id (get_elem? blocks p),
    );
  }

  fresh_content :
      (id p : ℕ)
      → get_elem? positions id ≡ some p
      → found_data (find_block_in_stash id (real_blocks (whole_path tree h p)))
        ≡ data_of id (get_elem? blocks p)
  fresh_content id p at =
      let real = no_dummy id p at in
      ap found_data (
        find-eq_of_weights id (as_list (get_elem? blocks p)) (real_blocks (whole_path tree h p))
          (copies-as_list id (get_elem? blocks p))
          (λ w s.
            weigh-real_blocks id w (whole_path tree h p) s real
            ∙ path_weight w (clear id w real s) p (good.leaves id p at)
            ∙ sym (weigh-as_list w (get_elem? blocks p))))
      ∙ find-as_list id (get_elem? blocks p)

  -- When there is one position for each of the num_blocks identifiers, all of them leaves, and
  -- the i-th initial block, which fits the format with data below a limit above the 256 bytes
  -- of a dummy, has an identifier below num_blocks whose position is leaf i, Init of a server
  -- that can write its files and InitializePositionMap of a new client succeed, and the two
  -- represent the memory of the initial blocks, with all data below the limit.
  pub init-Represents :
      (s : Server) (leaf : ℕ → ℕ)
      → s.tree_height ≡ h
      → s.writable ≡ true
      → (c : Client) × (s' : Server) × (init blocks rand s ≡ ok s')
        × (initialize_position_map positions (new_client h n leaf) ≡ (ok tt, c))
        × Represents limit h n
            (record { client = c; server = s' })
            (initial_memory blocks positions)
  unfolding initialize_position_map new_client
  init-Represents s leaf height writable =
      let (s', run, st) = init-Stores h blocks rand filler_fits fit s height writable good.room in
      (
        fresh_client,
        s',
        run,
        ground (arith, good.sized),
        record {
          tree = tree;
          blocks = refl;
          stored = st;
          inv = fresh-Inv;
          agree = λ id lt.
              let (p, at) = get_elem?_total positions id (omega (arith, good.sized)) in
              ap (content_at fresh_client tree h id) at
              ∙ fresh_content id p at
              ∙ sym (ap (data_at blocks id) at);
        },
      )
