-- ===== src/Tests/PathTests.antt =====
-- A Path ORAM of height 1 with two blocks.
use mathlib.Core.Path.{subst}
use unified_oramhub.Base.{
  ℕ, zero, suc, ◌+◌, ◌<◌, ◌≡◌, refl, List, [], ◌∷◌, true, some, ok, arith, get_elem?, replicate,
  take,
}
use unified_oramhub.Core.Memory.{Bytes}
use unified_oramhub.Core.{Block, Bucket, read, write}
use unified_oramhub.Core.Serializer.{BlockFits, BucketFits}
use unified_oramhub.Crypto.{CtrCipher}
use unified_oramhub.PathOram.Storage.{Server, new_server, init}
use unified_oramhub.Tree.{get_num_tree_nodes}
use unified_oramhub.PathOram.Buckets.{data_limit, bucket_size, block_size, fill_bucket_with_dummies}
use unified_oramhub.PathOram.Padding.{Padded, fill_bucket-Padded}
use unified_oramhub.PathOram.Stash.{evict_blocks}
use unified_oramhub.PathOram.Stash.Eviction.{Evicted, evict_blocks-Evicted}
use unified_oramhub.PathOram.Writes.{write_tree}
use unified_oramhub.PathOram.Server.{handle_read_path, handle_write_path}
use unified_oramhub.PathOram.Server.Stored.{Stores}
use unified_oramhub.PathOram.Server.PathMessages.{
  AllBelow, seal_path, seal_entries, handle_read_path-Stores, handle_write_path-Stores,
}
use unified_oramhub.PathOram.BucketMessages.{read_bucket-write_bucket}
use unified_oramhub.PathOram.Client.{
  read_bucket_from_server, write_bucket_to_server, Client, World, Draws, new_client,
  initialize_position_map, access,
}
use unified_oramhub.PathOram.Invariant.{Represents, ram_access}
use unified_oramhub.PathOram.Refinement.{
  DrawsOk, Call, CallsOk, run_accesses, run_ram, access-Represents, run_accesses-run_ram,
}
use unified_oramhub.PathOram.Start.Fresh.{InitOk, initial_memory, init-Represents}

abbrev zero_cipher : CtrCipher
zero_cipher = record {
  run = λ iv input. input;
  encrypt_init = λ iv. true;
  encrypt_update = λ iv input n. some (take n input);
  encrypt_final = λ iv. true;
  run_twice = λ iv input. refl;
  length-run = λ iv input. refl;
  init_ok = λ iv len. refl;
  update_ok = λ iv input n len le small. refl;
  final_ok = λ iv len. refl;
}

abbrev block_zero : Block
block_zero = record { id = 0; bytes = 7 ∷ [] }

abbrev block_one : Block
block_one = record { id = 1; bytes = 9 ∷ [] }

abbrev blocks : List Block
blocks = block_one ∷ block_zero ∷ []

abbrev positions : List ℕ
positions = 1 ∷ 0 ∷ []

blocks-InitOk : InitOk data_limit 1 2 blocks positions
blocks-InitOk = record {
  sized = refl;
  few = omega arith;
  room = omega arith;
  leaves = leaves;
  placed = placed;
}
  where
    leaves : (id p : ℕ) → get_elem? positions id ≡ some p → p < 2
    leaves zero p e = ground (arith, e)
    leaves (suc zero) p e = ground (arith, e)
    leaves (suc (suc id)) p e = cc

    placed :
        (i : ℕ) (b : Block)
        → get_elem? blocks i ≡ some b
        → (b.id < 2) × (get_elem? positions b.id ≡ some i) × BlockFits data_limit b
    placed zero b e =
        let same : block_one ≡ b = cc in
        subst (λ x. (x.id < 2) × (get_elem? positions x.id ≡ some 0) × BlockFits data_limit x) same
          (omega arith, refl, record { id_fits = omega arith; size_fits = omega arith })
    placed (suc zero) b e =
        let same : block_zero ≡ b = cc in
        subst (λ x. (x.id < 2) × (get_elem? positions x.id ≡ some 1) × BlockFits data_limit x) same
          (omega arith, refl, record { id_fits = omega arith; size_fits = omega arith })
    placed (suc (suc i)) b e = cc

abbrev server : Server
server = new_server 1 true

abbrev rand : ℕ → ℕ → ℕ → ℕ
rand idx slot byte = idx + slot + byte

init-Represents_example :
    (c : Client) × (s' : Server) × (init blocks rand server ≡ ok s')
    × (initialize_position_map positions (new_client 1 2 (λ _. 0)) ≡ (ok tt, c))
    × Represents data_limit 1 2
        (record { client = c; server = s' })
        (initial_memory blocks positions)
init-Represents_example =
    init-Represents 1 2 blocks positions blocks-InitOk rand (omega arith) server (λ _. 0) refl refl

abbrev world : World
world =
    let r =
      init-Represents 1 2 blocks positions blocks-InitOk rand (omega arith) server (λ _. 0) refl
        refl in
    record { client = r.0; server = r.1 }

world-Represents : Represents data_limit 1 2 world (initial_memory blocks positions)
world-Represents =
    (init-Represents 1 2 blocks positions blocks-InitOk rand (omega arith) server (λ _. 0) refl
      refl).4

abbrev draws : Draws
draws = record { new_leaf = 0; read_ivs = λ i. replicate 16 i; write_ivs = λ i. replicate 16 0 }

draws-Ok : DrawsOk 1 draws
draws-Ok = record { leaf_ok = omega arith; read_ok = λ i. refl; write_ok = λ i. refl }

access-Represents_example :
    (w' : World) × (access zero_cipher write 1 (5 ∷ []) draws world
      ≡ (ok (ram_access write 1 (5 ∷ []) (initial_memory blocks positions)).0, w'))
    × Represents data_limit 1 2 w' (ram_access write 1 (5 ∷ []) (initial_memory blocks positions)).1
access-Represents_example =
    access-Represents zero_cipher 1 2 world (initial_memory blocks positions) world-Represents write
      1 (5 ∷ []) draws (omega arith) (omega arith) draws-Ok

-- Read block 1, write it, and read both.
abbrev calls : List Call
calls =
    record { op = read; addr = 1; bytes = []; draws = draws }
    ∷ record { op = write; addr = 1; bytes = 5 ∷ []; draws = draws }
    ∷ record { op = read; addr = 1; bytes = []; draws = draws }
    ∷ record { op = read; addr = 0; bytes = []; draws = draws }
    ∷ []

calls-Ok : CallsOk 1 2 calls
calls-Ok = (
  (omega arith, omega arith, draws-Ok),
  (
    (omega arith, omega arith, draws-Ok),
    ((omega arith, omega arith, draws-Ok), ((omega arith, omega arith, draws-Ok), tt)),
  ),
)

run_accesses-run_ram_example :
    (run_accesses zero_cipher calls world).0 ≡ ok ((9 ∷ []) ∷ (5 ∷ []) ∷ (5 ∷ []) ∷ (7 ∷ []) ∷ [])
unfolding run_ram ram_access
run_accesses-run_ram_example =
    run_accesses-run_ram zero_cipher 1 2 calls world (initial_memory blocks positions)
      world-Represents calls-Ok

abbrev stored_tree : ℕ → Bucket
stored_tree = world-Represents.tree

path_below : AllBelow (get_num_tree_nodes 1) (2 ∷ 0 ∷ [])
unfolding get_num_tree_nodes
path_below = (omega arith, (omega arith, tt))

abbrev zero_ivs : ℕ → Bytes
zero_ivs i = replicate 16 0

handle_read_path-Stores_example :
    (s' : Server) × (handle_read_path zero_cipher (2 ∷ 0 ∷ []) zero_ivs world.server
      ≡ (ok (seal_path zero_cipher stored_tree (2 ∷ 0 ∷ []) zero_ivs 0), s'))
    × Stores data_limit 1 stored_tree s'
handle_read_path-Stores_example =
    handle_read_path-Stores zero_cipher world.server (2 ∷ 0 ∷ []) zero_ivs world-Represents.stored
      refl path_below (λ i. refl)

abbrev one_block : Bucket
one_block = record { capacity = 4; blocks = block_one ∷ [] }

block_one-Fits : BlockFits data_limit block_one
block_one-Fits = record { id_fits = omega arith; size_fits = omega arith }

one_block-Fits : BucketFits data_limit bucket_size one_block
one_block-Fits = record {
  same_capacity = refl;
  within = omega arith;
  count_fits = omega arith;
  blocks_fit = (block_one-Fits, tt);
}

handle_write_path-Stores_example :
    (s' : Server) × (handle_write_path zero_cipher
        (seal_entries zero_cipher (2 ∷ 0 ∷ []) (one_block ∷ one_block ∷ []) zero_ivs 0)
        world.server
      ≡ (ok tt, s'))
    × Stores data_limit 1 (write_tree (2 ∷ 0 ∷ []) (one_block ∷ one_block ∷ []) stored_tree) s'
handle_write_path-Stores_example =
    handle_write_path-Stores zero_cipher 1 (2 ∷ 0 ∷ []) (one_block ∷ one_block ∷ []) stored_tree
      world.server zero_ivs world-Represents.stored refl refl path_below
      (one_block-Fits, (one_block-Fits, tt)) (λ i. refl)

fill_bucket-Padded_example :
    Padded data_limit one_block
      (fill_bucket_with_dummies (λ slot. replicate block_size 0) one_block)
fill_bucket-Padded_example =
    fill_bucket-Padded (λ slot. replicate block_size 0) (λ slot. omega arith) one_block
      one_block-Fits

-- Two blocks go to the leaf bucket and to the root bucket; the third has no room left.
abbrev room_for_one : Bucket
room_for_one = record { capacity = 4; blocks = block_one ∷ block_one ∷ block_one ∷ [] }

evict_blocks-Evicted_example :
    (bs' : List Bucket) × (kept' : List Block) × (evict_blocks positions 0
        (block_zero ∷ block_one ∷ [])
        (room_for_one ∷ room_for_one ∷ [])
        []
      ≡ ok (bs', kept'))
    × Evicted data_limit positions 0
        (block_zero ∷ block_one ∷ [])
        (room_for_one ∷ room_for_one ∷ [])
        bs'
        []
        kept'
evict_blocks-Evicted_example =
    evict_blocks-Evicted positions 0 (block_zero ∷ block_one ∷ [])
      (room_for_one ∷ room_for_one ∷ []) [] (omega arith, (omega arith, tt))
      (block_zero-Fits, (block_one-Fits, tt)) (room, (room, tt))
  where
    block_zero-Fits : BlockFits data_limit block_zero
    block_zero-Fits = record { id_fits = omega arith; size_fits = omega arith }

    room : BucketFits data_limit bucket_size room_for_one
    room = record {
      same_capacity = refl;
      within = omega arith;
      count_fits = omega arith;
      blocks_fit = (block_one-Fits, (block_one-Fits, (block_one-Fits, tt)));
    }

read_bucket-write_bucket_example :
    (w' w'' : World) × (write_bucket_to_server zero_cipher 1 one_block (zero_ivs 0) world
      ≡ (ok tt, w'))
    × (read_bucket_from_server zero_cipher 1 (zero_ivs 1) w' ≡ (ok one_block, w''))
read_bucket-write_bucket_example =
    read_bucket-write_bucket zero_cipher stored_tree world 1 one_block (zero_ivs 0) (zero_ivs 1)
      world-Represents.stored path_below_one one_block-Fits refl refl
  where
    path_below_one : 1 < get_num_tree_nodes 1
    path_below_one = unfold get_num_tree_nodes in omega arith
