-- ===== src/Onion/Server.antt =====
-- OnionRingServer.cpp: the handlers of requests and the request loop. What a handler receives from
-- the connection is its argument, and what it has changed stays changed when it throws.
pub mod Requests
pub mod Keeps
pub mod Shaped
use unified_oramhub.Base.{
  ℕ, zero, suc, ◌+◌, List, [], ◌∷◌, map, Bool, true, false, ◌&&◌, Option, none, some, Result, ok,
  err, out_of_range, runtime_error, undefined, or_fail, length, get_elem?, set, replicate, ltb,
  ◌==◌,
}
use unified_oramhub.Base.State.{State, pure, lift, gets, modify, check, ◌>>=◌, ◌>>◌}
use unified_oramhub.Core.Memory.{Bytes}
use unified_oramhub.Tree.{get_path_from_root}
use unified_oramhub.Onion.{RuntimeConfig, bucket_slots}
use unified_oramhub.Onion.Tfhe.{Tfhe}
use unified_oramhub.Onion.Slots.{
  deserialize_uint64_vector, receive_selections, OnionBucket, path_sum, assemble_child_slots,
  replace_bucket, init_tree,
}
use unified_oramhub.Onion.Waksman.Evaluate.{eval_waksman}

-- What follows the three indices of an eviction, for each of the children.
pub record ChildUpdate : Type 0 where
  pub source_bytes : Bytes
  pub child_bytes : Bytes
  pub swap_bits : List Bytes

-- What the client sends when it has been sent the bucket: a command, the refreshed slots and the
-- swap bits.
pub record Refresh : Type 0 where
  pub command : ℕ
  pub slots : List Bytes
  pub swap_bits : List Bytes

module _ (tfhe : Tfhe) where
  pub record Server : Type 0 where
    pub config : RuntimeConfig
    pub tree : List (OnionBucket tfhe)
    pub running : Bool

  -- The constructor, and `Init`.
  unfoldable pub new_server : RuntimeConfig → Server
  new_server config = record { config = config; tree = []; running = false }

  unfoldable pub init : State Server Unit
  init = modify (λ s. record s { tree = init_tree tfhe s.config })

  -- `tree_[idx]`: to read past the end is undefined.
  unfoldable pub bucket_at : ℕ → State Server (OnionBucket tfhe)
  bucket_at idx = do tree ← gets (λ s. s.tree); lift (or_fail (get_elem? tree idx) undefined)

  abbrev pub put_bucket : ℕ → OnionBucket tfhe → State Server Unit
  put_bucket idx bucket = modify (λ s. record s { tree = set s.tree idx bucket })

  -- `tree_[idx][slot].rlwe_ct = sample`; the bucket's operator checks the slot.
  unfoldable pub put_slot : ℕ → ℕ → tfhe.Rlwe → State Server Unit
  put_slot idx slot sample = do
    bucket ← bucket_at idx
    check (ltb slot (length bucket)) out_of_range
    put_bucket idx (set bucket slot sample)

  -- `Stop`.
  unfoldable pub stop : Server → Server
  stop s = record s { running = false }

  unfoldable pub handle_access : ℕ → List ℕ → State Server Bytes
  handle_access leaf words = do
    s ← gets (λ s. s)
    selections ← lift (
        receive_selections (bucket_slots s.config) (get_path_from_root s.config.tree_height leaf)
          words)
    sample ←
        lift (
          path_sum tfhe s.tree (get_path_from_root s.config.tree_height leaf) selections tfhe.clear)
    pure (tfhe.export_tlwe sample)

  -- The loop of HandleClearPath, which clears a slot as soon as it has received it.
  unfoldable pub clear_slots : ℕ → List ℕ → List ℕ → State Server Unit
  clear_slots slots [] words = pure tt
  clear_slots slots (idx ∷ path) [] = lift (err runtime_error)
  clear_slots slots (idx ∷ path) (word ∷ words) = do
    check (ltb word slots) out_of_range
    put_slot idx word tfhe.clear
    clear_slots slots path words

  unfoldable pub handle_clear_path : ℕ → List ℕ → State Server Unit
  handle_clear_path leaf words = do
    config ← gets (λ s. s.config)
    clear_slots (bucket_slots config) (get_path_from_root config.tree_height leaf) words

  -- `if (idx >= tree_.size()) throw`.
  unfoldable pub checked_bucket : ℕ → State Server (OnionBucket tfhe)
  checked_bucket idx = do
    tree ← gets (λ s. s.tree)
    check (ltb idx (length tree)) out_of_range
    bucket_at idx

  unfoldable pub handle_read_bucket : ℕ → State Server (List Bytes)
  handle_read_bucket idx = do bucket ← checked_bucket idx; pure (map tfhe.export_tlwe bucket)

  unfoldable pub handle_write_slot : ℕ → ℕ → Bytes → State Server Unit
  handle_write_slot idx slot bytes = do
    bucket ← checked_bucket idx
    check (ltb slot (length bucket)) out_of_range
    put_slot idx slot (tfhe.import_tlwe bytes)

  -- The bits that `ReceiveSwapBits` returns: none of them is a null pointer.
  abbrev pub receive_swap_bits : List Bytes → List (Option tfhe.Rgsw)
  receive_swap_bits messages = map (λ bytes. some (tfhe.import_tgsw bytes)) messages

  -- The lambda `receive_child_update`.
  unfoldable pub receive_child_update : ℕ → ℕ → ChildUpdate → State Server Unit
  receive_child_update source_idx child_idx update = do
    source_slots ← lift (deserialize_uint64_vector update.source_bytes)
    child_slots ← lift (deserialize_uint64_vector update.child_bytes)
    config ← gets (λ s. s.config)
    source_bucket ← bucket_at source_idx
    child_bucket ← bucket_at child_idx
    assembled ← lift (
        assemble_child_slots tfhe source_bucket source_slots child_bucket child_slots
          (bucket_slots config))
    permuted ← lift (eval_waksman tfhe assembled (receive_swap_bits update.swap_bits))
    contents ← lift (replace_bucket tfhe child_bucket permuted)
    put_bucket child_idx contents

  unfoldable pub handle_evict_triplet : ℕ → ℕ → ℕ → ChildUpdate → ChildUpdate → State Server Unit
  handle_evict_triplet source_idx left_idx right_idx left_update right_update = do
    nodes ← gets (λ s. length s.tree)
    check (ltb source_idx nodes && ltb left_idx nodes && ltb right_idx nodes) out_of_range
    receive_child_update source_idx left_idx left_update
    receive_child_update source_idx right_idx right_update
    source_bucket ← bucket_at source_idx
    put_bucket source_idx (map (λ sample. tfhe.clear) source_bucket)

  -- The first slots of a stream, as many as a bucket has.
  unfoldable pub receive_slots : ℕ → List Bytes → Result (List tfhe.Rlwe)
  receive_slots zero messages = ok []
  receive_slots (suc n) [] = err runtime_error
  receive_slots (suc n) (bytes ∷ messages) = elim (receive_slots n messages) [
    | ok rest ↦ ok (tfhe.import_tlwe bytes ∷ rest)
    | err e ↦ err e
  ]

  -- `'F'` is 70.
  unfoldable pub handle_leaf_refresh : ℕ → (List Bytes → Refresh) → State Server Unit
  handle_leaf_refresh idx client = do
    bucket ← checked_bucket idx
    config ← gets (λ s. s.config)
    answer ← pure (client (map tfhe.export_tlwe bucket))
    check (answer.command == 70) runtime_error
    refreshed ← lift (receive_slots (bucket_slots config) answer.slots)
    permuted ← lift (eval_waksman tfhe refreshed (receive_swap_bits answer.swap_bits))
    contents ← lift (replace_bucket tfhe bucket permuted)
    put_bucket idx contents
