-- ===== src/Onion/Slots.antt =====
-- OnionRingServer.cpp: the functions that do not change the server. A slot is its ciphertext: the
-- server never touches `aes_layer`.
use unified_oramhub.Base.{
  ℕ, zero, suc, ◌+◌, ◌-◌, ◌/◌, ◌%◌, List, [], ◌∷◌, ◌++◌, Result, ok, err, invalid_argument,
  out_of_range, runtime_error, undefined, guard, or_fail, ◌>>=◌, ◌>>◌, length, get_elem?, take,
  drop, replicate, ltb, ◌==◌,
}
use unified_oramhub.Core.Memory.{Bytes, le_value}
use unified_oramhub.Onion.{RuntimeConfig, bucket_slots, num_tree_nodes}
use unified_oramhub.Onion.Tfhe.{Tfhe}

-- The words of a byte string, `n` of them.
unfoldable pub words_of : ℕ → Bytes → List ℕ
words_of zero bytes = []
words_of (suc n) bytes = le_value (take 8 bytes) ∷ words_of n (drop 8 bytes)

unfoldable pub deserialize_uint64_vector : Bytes → Result (List ℕ)
deserialize_uint64_vector bytes = do
  guard (length bytes % 8 == 0) invalid_argument
  ok (words_of (length bytes / 8) bytes)

-- The loop over a path that receives a word for each bucket. A connection that ends makes NetIO
-- throw.
unfoldable pub receive_selections : ℕ → List ℕ → List ℕ → Result (List ℕ)
receive_selections slots [] words = ok []
receive_selections slots (idx ∷ path) [] = err runtime_error
receive_selections slots (idx ∷ path) (word ∷ words) = do
  guard (ltb word slots) out_of_range
  rest ← receive_selections slots path words
  ok (word ∷ rest)

module _ (tfhe : Tfhe) where
  abbrev pub OnionBucket : Type 0
  OnionBucket = List tfhe.Rlwe

  -- The second loop of HandleAccess: the sum of a slot of every bucket of a path.
  unfoldable pub path_sum : List OnionBucket → List ℕ → List ℕ → tfhe.Rlwe → Result tfhe.Rlwe
  path_sum tree [] selections accumulator = ok accumulator
  path_sum tree (idx ∷ path) [] accumulator = err undefined
  path_sum tree (idx ∷ path) (slot ∷ selections) accumulator = do
    bucket ← or_fail (get_elem? tree idx) undefined
    sample ← or_fail (get_elem? bucket slot) out_of_range
    path_sum tree path selections (tfhe.add_to accumulator sample)

  unfoldable pub collect_slots : OnionBucket → List ℕ → Result (List tfhe.Rlwe)
  collect_slots bucket [] = ok []
  collect_slots bucket (slot ∷ slots) = do
    sample ← or_fail (get_elem? bucket slot) out_of_range
    rest ← collect_slots bucket slots
    ok (sample ∷ rest)

  unfoldable pub assemble_child_slots :
      OnionBucket → List ℕ → OnionBucket → List ℕ → ℕ → Result (List tfhe.Rlwe)
  assemble_child_slots source_bucket source_slots child_bucket child_slots bucket_slots = do
    sources ← collect_slots source_bucket source_slots
    children ← collect_slots child_bucket child_slots
    ok (
        sources
        ++ children
        ++ replicate (bucket_slots - (length sources + length children)) tfhe.clear)

  unfoldable pub replace_bucket : OnionBucket → List tfhe.Rlwe → Result OnionBucket
  replace_bucket bucket contents = do
    guard (length bucket == length contents) invalid_argument
    ok contents

  -- `Init`: every slot of every bucket is cleared.
  unfoldable pub init_tree : RuntimeConfig → List OnionBucket
  init_tree config = replicate (num_tree_nodes config) (replicate (bucket_slots config) tfhe.clear)
