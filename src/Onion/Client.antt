-- ===== src/Onion/Client.antt =====
-- OnionRingClient.cpp: the protocol. The client and the server make one world, and a message from
-- the one to the other is a call of the server's handler.
pub mod Cells
pub mod OnPath
pub mod Holding
pub mod PathSum
pub mod Clearing
pub mod Cleared
pub mod Placing
pub mod Taking
pub mod Access
pub mod Start
pub mod Rows
pub mod Permuted
pub mod Refresh
use unified_oramhub.Base.{
  ℕ, zero, suc, ◌+◌, ◌-◌, ◌*◌, ◌%◌, ◌<◌, List, [], ◌∷◌, map, Bool, true, false, Option, none, some,
  Result, ok, err, invalid_argument, out_of_range, runtime_error, undefined, or_fail, length,
  get_elem?, set, replicate, ltb, ◌==◌, not, ◌||◌, ◌&&◌, if◌then◌else◌,
}
use unified_oramhub.Base.State.{State, pure, lift, gets, modify, check, ◌>>=◌, ◌>>◌}
use unified_oramhub.Core.{Op, read, write}
use unified_oramhub.Core.Memory.{Bytes, u64_mod}
use unified_oramhub.Tree.{get_path_from_root, get_node_level}
use unified_oramhub.Onion.{RuntimeConfig, bucket_slots, num_tree_nodes, num_leaves}
use unified_oramhub.Onion.Tfhe.{Tfhe}
use unified_oramhub.Onion.Adapter.{client_context, encrypt_block, decrypt_block}
use unified_oramhub.Onion.Ids.{
  Ids, reverse_bits, find_slot, find_first_dummy_slot, select_slots, put_id, forget_ids,
  apply_permutation_to_ids,
}
use unified_oramhub.Onion.Rebuild.{Entry, child_inputs, permuted_samples}
use unified_oramhub.Onion.Waksman.{indices}
use unified_oramhub.Onion.Waksman.SwapBits.{IsPermutation}
use unified_oramhub.Onion.Server.{
  Server, handle_access, handle_clear_path, handle_read_bucket, handle_write_slot, receive_slots,
}

-- The standard library's generator, `std::uniform_int_distribution(0, n - 1)` and `std::shuffle`.
pub record Random : Type 1 where
  pub Generator : Type 0
  pub uniform : ℕ → Generator → ℕ × Generator
  pub shuffle : List ℕ → Generator → List ℕ × Generator

pub record RandomLaws (random : Random) : Type 0 where
  pub uniform-lt : (n : ℕ) (g : random.Generator) → 0 < n → (random.uniform n g).0 < n
  pub shuffle-IsPermutation :
      (n : ℕ) (g : random.Generator) → IsPermutation n (random.shuffle (indices n 0) g).0

module _ (tfhe : Tfhe) (random : Random) where
  -- `noise` is the state of TFHE's own generator.
  pub record Client : Type 0 where
    pub config : RuntimeConfig
    pub pos_map : List ℕ
    pub id_map : List Ids
    pub access_count : ℕ
    pub eviction_counter : ℕ
    pub prng : random.Generator
    pub noise : ℕ

  pub record World : Type 0 where
    pub client : Client
    pub server : Server tfhe

  -- The constructor's loop over the position map.
  unfoldable pub random_positions : ℕ → RuntimeConfig → random.Generator → List ℕ × random.Generator
  random_positions zero config prng = ([], prng)
  random_positions (suc n) config prng =
      let (leaf, later) = random.uniform (num_leaves config) prng in
      let (leaves, last) = random_positions n config later in (leaf ∷ leaves, last)

  unfoldable pub new_client : RuntimeConfig → random.Generator → Client
  new_client config prng =
      let (leaves, later) = random_positions config.num_blocks config prng in
      record {
        config = config;
        pos_map = leaves;
        id_map = replicate (num_tree_nodes config) (replicate (bucket_slots config) none);
        access_count = 0;
        eviction_counter = 0;
        prng = later;
        noise = 0;
      }

  abbrev pub on_server : {A : Type 0} → State (Server tfhe) A → State World A
  on_server m w = let (r, s) = m w.server in (r, record w { server = s })

  abbrev pub on_client : (Client → Client) → State World Unit
  on_client f = modify (λ w. record w { client = f w.client })

  abbrev pub client_of : State World Client
  client_of = gets (λ w. w.client)

  unfoldable pub get_random_leaf : State World ℕ
  get_random_leaf = do
    c ← client_of
    on_client (λ c'. record c' { prng = (random.uniform (num_leaves c.config) c.prng).1 })
    pure (random.uniform (num_leaves c.config) c.prng).0

  unfoldable pub make_random_permutation : ℕ → State World (List ℕ)
  make_random_permutation size = do
    c ← client_of
    on_client (λ c'. record c' { prng = (random.shuffle (indices size 0) c.prng).1 })
    pure (random.shuffle (indices size 0) c.prng).0

  -- EncryptBlock of TFHEAdapter.cpp, which draws noise.
  unfoldable pub encrypt_fresh : Bytes → State World tfhe.Rlwe
  encrypt_fresh block = do
    c ← client_of
    on_client (λ c'. record c' { noise = c.noise + 1 })
    lift (encrypt_block tfhe block client_context c.noise)

  unfoldable pub fetch_path_sum : ℕ → List ℕ → State World tfhe.Rlwe
  fetch_path_sum leaf selections = do
    bytes ← on_server (handle_access tfhe leaf selections)
    pure (tfhe.import_tlwe bytes)

  unfoldable pub fetch_bucket_ciphertexts : ℕ → State World (List tfhe.Rlwe)
  fetch_bucket_ciphertexts idx = do
    c ← client_of
    messages ← on_server (handle_read_bucket tfhe idx)
    lift (receive_slots tfhe (bucket_slots c.config) messages)

  -- The acknowledgement is the normal end of the handler.
  unfoldable pub clear_path_slots : ℕ → List ℕ → State World Unit
  clear_path_slots leaf selections = on_server (handle_clear_path tfhe leaf selections)

  unfoldable pub write_back_slot : ℕ → ℕ → tfhe.Rlwe → State World Unit
  write_back_slot idx slot ciphertext =
      on_server (handle_write_slot tfhe idx slot (tfhe.export_tlwe ciphertext))

  unfoldable pub write_slots : ℕ → ℕ → List tfhe.Rlwe → State World Unit
  write_slots idx slot [] = pure tt
  write_slots idx slot (c ∷ ciphertexts) = do
    write_back_slot idx slot c
    write_slots idx (slot + 1) ciphertexts

  unfoldable pub write_bucket_ciphertexts : ℕ → List tfhe.Rlwe → State World Unit
  write_bucket_ciphertexts idx ciphertexts = do
    c ← client_of
    check (length ciphertexts == bucket_slots c.config) invalid_argument
    write_slots idx 0 ciphertexts

  -- `id_map_[idx]`.
  unfoldable pub ids_of : ℕ → State World Ids
  ids_of idx = do c ← client_of; lift (or_fail (get_elem? c.id_map idx) undefined)

  abbrev pub put_ids : ℕ → Ids → State World Unit
  put_ids idx ids = on_client (λ c. record c { id_map = set c.id_map idx ids })

  unfoldable pub triplet_evict : ℕ → ℕ → ℕ → State World Unit
  triplet_evict source_idx left_idx right_idx = do
    c ← client_of
    source ← fetch_bucket_ciphertexts source_idx
    left ← fetch_bucket_ciphertexts left_idx
    right ← fetch_bucket_ciphertexts right_idx
    source_ids ← ids_of source_idx
    left_ids ← ids_of left_idx
    right_ids ← ids_of right_idx
    (to_left, to_right) ← lift (
        child_inputs tfhe c.pos_map (c.config.tree_height - get_node_level source_idx - 1)
          (bucket_slots c.config) source_ids source left_ids left right_ids right)
    left_permutation ← make_random_permutation (bucket_slots c.config)
    right_permutation ← make_random_permutation (bucket_slots c.config)
    left_output ← lift (permuted_samples tfhe (map (λ e. e.1) to_left) left_permutation)
    right_output ← lift (permuted_samples tfhe (map (λ e. e.1) to_right) right_permutation)
    write_bucket_ciphertexts left_idx left_output
    write_bucket_ciphertexts right_idx right_output
    write_bucket_ciphertexts source_idx (replicate (bucket_slots c.config) tfhe.clear)
    put_ids source_idx (map (λ id. none) source_ids)
    new_left_ids ← lift (apply_permutation_to_ids (map (λ e. e.0) to_left) left_permutation)
    put_ids left_idx new_left_ids
    new_right_ids ← lift (apply_permutation_to_ids (map (λ e. e.0) to_right) right_permutation)
    put_ids right_idx new_right_ids

  -- The first loop of LeafRefresh: decrypted, and encrypted again.
  unfoldable pub refresh_all : List tfhe.Rlwe → State World (List tfhe.Rlwe)
  refresh_all [] = pure []
  refresh_all (ciphertext ∷ bucket) = do
    c ← client_of
    plaintext ← lift (decrypt_block tfhe ciphertext client_context c.config.block_size)
    refreshed ← encrypt_fresh plaintext
    rest ← refresh_all bucket
    pure (refreshed ∷ rest)

  unfoldable pub leaf_refresh : ℕ → State World Unit
  leaf_refresh leaf_bucket_idx = do
    c ← client_of
    bucket ← fetch_bucket_ciphertexts leaf_bucket_idx
    refreshed ← refresh_all bucket
    permutation ← make_random_permutation (bucket_slots c.config)
    current_ids ← ids_of leaf_bucket_idx
    output ← lift (permuted_samples tfhe refreshed permutation)
    write_bucket_ciphertexts leaf_bucket_idx output
    new_ids ← lift (apply_permutation_to_ids current_ids permutation)
    put_ids leaf_bucket_idx new_ids

  -- The loop of Evict over a path, with the refresh of its last bucket.
  unfoldable pub evict_path : List ℕ → State World Unit
  evict_path [] = lift (err undefined)
  evict_path (leaf ∷ []) = leaf_refresh leaf
  evict_path (idx ∷ next ∷ path) = do
    triplet_evict idx (2 * idx + 1) (2 * idx + 2)
    evict_path (next ∷ path)

  unfoldable pub evict : State World Unit
  evict = do
    c ← client_of
    on_client (λ c'. record c' { eviction_counter = c.eviction_counter + 1 })
    evict_path (
        get_path_from_root c.config.tree_height
          (reverse_bits (c.eviction_counter % num_leaves c.config) c.config.tree_height))

  unfoldable pub evict_if : Bool → State World Unit
  evict_if false = pure tt
  evict_if true = evict

  -- The block's own slot in the root, or a free one; the number of slots when there is none.
  unfoldable pub root_slot_of : Ids → ℕ → ℕ
  root_slot_of ids addr =
      if find_slot ids (some addr) == length ids
      then find_first_dummy_slot ids
      else find_slot ids (some addr)

  -- The eviction of a full root, and the free slot after it.
  unfoldable pub make_room : Bool → ℕ → State World ℕ
  make_room false root_slot = pure root_slot
  make_room true root_slot = do evict; ids ← ids_of 0; pure (find_first_dummy_slot ids)

  unfoldable pub find_root_slot : ℕ → State World ℕ
  find_root_slot addr = do
    ids ← ids_of 0
    root_slot ← make_room (root_slot_of ids addr == length ids) (root_slot_of ids addr)
    ids' ← ids_of 0
    check (not (root_slot == length ids')) runtime_error
    pure root_slot

  abbrev pub is_write : Op → Bool
  is_write read = false
  is_write write = true

  -- What an access does to the tree, between its checks and the end.
  unfoldable pub take_block : ℕ → ℕ → State World Bytes
  take_block old_leaf addr = do
    c ← client_of
    selections ←
        lift (select_slots c.id_map (get_path_from_root c.config.tree_height old_leaf) addr)
    path_sum ← fetch_path_sum old_leaf selections
    clear_path_slots old_leaf selections
    id_map ←
        lift (forget_ids c.id_map (get_path_from_root c.config.tree_height old_leaf) selections)
    on_client (λ c'. record c' { id_map = id_map })
    lift (decrypt_block tfhe path_sum client_context c.config.block_size)

  unfoldable pub put_block : ℕ → Bytes → State World Unit
  put_block addr content = do
    root_slot ← find_root_slot addr
    updated ← encrypt_fresh content
    write_back_slot 0 root_slot updated
    c ← client_of
    id_map ← lift (put_id c.id_map 0 root_slot (some addr))
    on_client (λ c'. record c' { id_map = id_map })

  unfoldable pub access : Op → ℕ → Bytes → State World Bytes
  access op addr content = do
    c ← client_of
    check (ltb addr c.config.num_blocks) out_of_range
    check (not (is_write op) || length content == c.config.block_size) invalid_argument
    old_leaf ← lift (or_fail (get_elem? c.pos_map addr) undefined)
    leaf ← get_random_leaf
    on_client (λ c'. record c' { pos_map = set c'.pos_map addr leaf })
    found ← take_block old_leaf addr
    put_block addr (if is_write op then content else found)
    on_client (λ c'. record c' { access_count = (c'.access_count + 1) % u64_mod })
    c' ← client_of
    evict_if (not (c'.config.a == 0) && c'.access_count % c'.config.a == 0)
    pure (if is_write op then content else found)

  -- `Read` and `Write` of the RAM interface.
  unfoldable pub read_block : ℕ → State World Bytes
  read_block addr = access read addr []

  unfoldable pub write_block : ℕ → Bytes → State World Unit
  write_block addr content = do written ← access write addr content; pure tt
