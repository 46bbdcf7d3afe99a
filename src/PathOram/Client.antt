-- ===== src/PathOram/Client.antt =====
-- PathORAMClient.cpp: the protocol of an access. The client and the server make one world; a
-- message from the one to the other is a call of the server's handler.
use unified_oramhub.Base.{
  ℕ, zero, suc, ◌+◌, List, [], ◌∷◌, ◌++◌, map, undefined, invalid_argument, runtime_error, or_fail,
  length, get_elem?, set, replicate, ◌==◌,
}
use unified_oramhub.Base.State.{State, pure, lift, gets, modify, check, ◌>>=◌, ◌>>◌}
use unified_oramhub.Core.Memory.{Bytes}
use unified_oramhub.Core.{Block, Bucket, new_bucket, Op, read, write}
use unified_oramhub.Crypto.{CtrCipher}
use unified_oramhub.Tree.{get_path_indices}
use unified_oramhub.PathOram.Buckets.{
  encrypt_bucket, decrypt_bucket, bucket_size, block_size, decrypt_all, encrypt_entries,
  fill_bucket_with_dummies,
}
use unified_oramhub.PathOram.Storage.{Server}
use unified_oramhub.PathOram.Server.{
  handle_read_path, handle_write_path, handle_read_bucket, handle_write_bucket,
}
use unified_oramhub.PathOram.Stash.{real_blocks, serve_from_stash, evict_blocks}

pub record Client : Type 0 where
  pub tree_height : ℕ
  pub num_blocks : ℕ
  pub stash : List Block
  pub position_map : List ℕ

pub record World : Type 0 where
  pub client : Client
  pub server : Server

-- What one access draws: the new leaf of `GetRandomLeaf`, and the vectors of `GenerateIV` for the
-- server's replies and for the client's writes.
pub record Draws : Type 0 where
  pub new_leaf : ℕ
  pub read_ivs : ℕ → Bytes
  pub write_ivs : ℕ → Bytes

-- The constructor: `leaf i` is the i-th draw of `GetRandomLeaf`.
unfoldable pub random_leaves : ℕ → ℕ → (ℕ → ℕ) → List ℕ
random_leaves zero i leaf = []
random_leaves (suc n) i leaf = leaf i ∷ random_leaves n (i + 1) leaf

unfoldable pub new_client : ℕ → ℕ → (ℕ → ℕ) → Client
new_client height num_blocks leaf = record {
  tree_height = height;
  num_blocks = num_blocks;
  stash = [];
  position_map = random_leaves num_blocks 0 leaf;
}

unfoldable pub initialize_position_map : List ℕ → State Client Unit
initialize_position_map positions = do
  num_blocks ← gets (λ c. c.num_blocks)
  check (length positions == num_blocks) invalid_argument
  modify (λ c. record c { position_map = positions })

abbrev pub on_server : {A : Type 0} → State Server A → State World A
on_server m w = let (r, s) = m w.server in (r, record w { server = s })

abbrev pub on_client : (Client → Client) → State World Unit
on_client f = modify (λ w. record w { client = f w.client })

abbrev pub set_position : ℕ → ℕ → Client → Client
set_position addr leaf c = record c { position_map = set c.position_map addr leaf }

abbrev pub set_stash : List Block → Client → Client
set_stash bs c = record c { stash = bs }

module _ (cipher : CtrCipher) where
  -- The two requests for single buckets, which no access sends. A write is not acknowledged.
  unfoldable pub read_bucket_from_server : ℕ → Bytes → State World Bucket
  read_bucket_from_server idx iv = do
    encrypted ← on_server (handle_read_bucket cipher idx iv)
    lift (decrypt_bucket cipher encrypted)

  unfoldable pub write_bucket_to_server : ℕ → Bucket → Bytes → State World Unit
  write_bucket_to_server idx bucket iv = do
    encrypted ← lift (encrypt_bucket cipher bucket iv)
    on_server (handle_write_bucket cipher idx encrypted)

  unfoldable pub read_path_from_server : List ℕ → (ℕ → Bytes) → State World (List Bucket)
  read_path_from_server path ivs = do
    replies ← on_server (handle_read_path cipher path ivs)
    check (length replies == length path) runtime_error
    lift (decrypt_all cipher replies)

  unfoldable pub write_path_to_server : List ℕ → List Bucket → (ℕ → Bytes) → State World Unit
  write_path_to_server path path_buckets ivs = do
    check (length path == length path_buckets) invalid_argument
    entries ← lift (encrypt_entries cipher path path_buckets ivs 0)
    on_server (handle_write_path cipher entries)

  unfoldable pub read_path : ℕ → (ℕ → Bytes) → State World Unit
  read_path leaf ivs = do
    height ← gets (λ w. w.client.tree_height)
    path_buckets ← read_path_from_server (get_path_indices height leaf) ivs
    modify
        (λ w. record w { client = set_stash (w.client.stash ++ real_blocks path_buckets) w.client })

  unfoldable pub write_path : ℕ → (ℕ → Bytes) → State World Unit
  write_path leaf ivs = do
    client ← gets (λ w. w.client)
    (path_buckets, kept) ← lift (
        evict_blocks client.position_map leaf client.stash
          (replicate (length (get_path_indices client.tree_height leaf)) (new_bucket bucket_size))
          [])
    on_client (set_stash kept)
    write_path_to_server (get_path_indices client.tree_height leaf)
        (map (fill_bucket_with_dummies (λ slot. replicate block_size 0)) path_buckets) ivs

  unfoldable pub access : Op → ℕ → Bytes → Draws → State World Bytes
  access op addr content draws = do
    positions ← gets (λ w. w.client.position_map)
    old_leaf ← lift (or_fail (get_elem? positions addr) undefined)
    on_client (set_position addr draws.new_leaf)
    read_path old_leaf draws.read_ivs
    stash ← gets (λ w. w.client.stash)
    on_client (set_stash (serve_from_stash op addr content stash).1)
    write_path old_leaf draws.write_ivs
    pure (serve_from_stash op addr content stash).0

  -- `Read` and `Write` of the RAM interface.
  unfoldable pub read_block : ℕ → Draws → State World Bytes
  read_block addr draws = access read addr [] draws

  unfoldable pub write_block : ℕ → Bytes → Draws → State World Unit
  write_block addr content draws = do written ← access write addr content draws; pure tt
