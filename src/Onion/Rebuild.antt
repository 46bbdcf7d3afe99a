-- ===== src/Onion/Rebuild.antt =====
-- OnionRingClient::TripletEvict, the part between the messages: which slots of three buckets go into
-- the two children. An entry is an identifier with its ciphertext; the source pushes the two to two
-- vectors at a time.
use unified_oramhub.Base.{
  ℕ, ◌-◌, ◌%◌, List, [], ◌∷◌, ◌++◌, Bool, true, false, Option, none, some, Result, ok, err,
  runtime_error, undefined, guard, or_fail, ◌>>=◌, ◌>>◌, length, get_elem?, replicate, leb, ◌==◌,
  if◌then◌else◌,
}
use unified_oramhub.Tree.{shr}
use unified_oramhub.Onion.Tfhe.{Tfhe}
use unified_oramhub.Onion.Ids.{Ids}

abbrev pub goes_right : ℕ → ℕ → Bool
goes_right leaf child_bit_shift = if shr leaf child_bit_shift % 2 == 0 then false else true

module _ (tfhe : Tfhe) where
  abbrev pub Entry : Type 0
  Entry = Option ℕ × tfhe.Rlwe

  -- The loop over the parent: its blocks for the left child, and for the right one.
  unfoldable pub distribute : List ℕ → ℕ → Ids → List tfhe.Rlwe → Result (List Entry × List Entry)
  distribute pos_map shift [] samples = ok ([], [])
  distribute pos_map shift (id ∷ ids) [] = err undefined
  distribute pos_map shift (none ∷ ids) (c ∷ samples) = distribute pos_map shift ids samples
  distribute pos_map shift (some b ∷ ids) (c ∷ samples) = do
    leaf ← or_fail (get_elem? pos_map b) undefined
    (left, right) ← distribute pos_map shift ids samples
    ok (if goes_right leaf shift then (left, (some b, c) ∷ right) else ((some b, c) ∷ left, right))

  -- The loop over the children, for one of them: its blocks.
  unfoldable pub real_entries : Ids → List tfhe.Rlwe → Result (List Entry)
  real_entries [] samples = ok []
  real_entries (id ∷ ids) [] = err undefined
  real_entries (none ∷ ids) (c ∷ samples) = real_entries ids samples
  real_entries (some b ∷ ids) (c ∷ samples) = do
    rest ← real_entries ids samples
    ok ((some b, c) ∷ rest)

  -- `while (size < bucket_slots)` push a zero.
  abbrev pub pad : ℕ → List Entry → List Entry
  pad bucket_slots entries = entries ++ replicate (bucket_slots - length entries) (none, tfhe.clear)

  -- What goes into the two children, in the order before the shuffles.
  unfoldable pub child_inputs :
      List ℕ
      → ℕ
      → ℕ
      → Ids
      → List tfhe.Rlwe
      → Ids
      → List tfhe.Rlwe
      → Ids
      → List tfhe.Rlwe
      → Result (List Entry × List Entry)
  child_inputs pos_map shift bucket_slots source_ids source left_ids left right_ids right = do
    (to_left, to_right) ← distribute pos_map shift source_ids source
    in_left ← real_entries left_ids left
    in_right ← real_entries right_ids right
    guard (leb (length (to_left ++ in_left)) bucket_slots) runtime_error
    guard (leb (length (to_right ++ in_right)) bucket_slots) runtime_error
    ok (pad bucket_slots (to_left ++ in_left), pad bucket_slots (to_right ++ in_right))

  -- `input[permutation[dest]]` for every destination.
  unfoldable pub permuted_samples : List tfhe.Rlwe → List ℕ → Result (List tfhe.Rlwe)
  permuted_samples samples [] = ok []
  permuted_samples samples (p ∷ permutation) = do
    sample ← or_fail (get_elem? samples p) undefined
    rest ← permuted_samples samples permutation
    ok (sample ∷ rest)
