-- ===== src/Onion/Ids.antt =====
-- OnionRingClient.cpp: the client's map of the identifiers in every slot, and the order of evictions.
-- `none` is the identifier -1 of a slot without a block.
pub mod Reverse
use unified_oramhub.Base.{
  ℕ, zero, suc, ◌+◌, ◌*◌, ◌%◌, List, [], ◌∷◌, Bool, true, false, Option, none, some, Result, ok,
  err, invalid_argument, out_of_range, runtime_error, undefined, guard, or_fail, ◌>>=◌, ◌>>◌,
  length, get_elem?, set, ltb, ◌==◌, if◌then◌else◌,
}
use unified_oramhub.Core.Memory.{u64_mod}
use unified_oramhub.Tree.{shr}

abbrev pub Ids : Type 0
Ids = List (Option ℕ)

-- `ReverseBits`: `n` rounds of the loop from bit `i` on.
unfoldable pub reverse_loop : ℕ → ℕ → ℕ → ℕ → ℕ
reverse_loop zero i value reversed = reversed
reverse_loop (suc n) i value reversed =
    reverse_loop n (i + 1) value (reversed * 2 % u64_mod + shr value i % 2)

unfoldable pub reverse_bits : ℕ → ℕ → ℕ
reverse_bits value num_bits = reverse_loop num_bits 0 value 0

abbrev pub same_id : Option ℕ → Option ℕ → Bool
same_id none none = true
same_id none (some b) = false
same_id (some a) none = false
same_id (some a) (some b) = a == b

-- `FindSlot` in a bucket's identifiers: the number of slots when there is none.
unfoldable pub find_slot : Ids → Option ℕ → ℕ
find_slot [] block_id = 0
find_slot (id ∷ ids) block_id =
    let rest = find_slot ids block_id in if same_id id block_id then 0 else suc rest

abbrev pub find_first_dummy_slot : Ids → ℕ
find_first_dummy_slot ids = find_slot ids none

-- The slot of a bucket that an access selects.
unfoldable pub select_slot : Ids → ℕ → Result ℕ
select_slot ids addr =
    let held = find_slot ids (some addr) in
    let free = find_first_dummy_slot ids in
    if held == length ids
    then (if free == length ids then err runtime_error else ok free)
    else ok held

-- The loop of Access over the path.
unfoldable pub select_slots : List Ids → List ℕ → ℕ → Result (List ℕ)
select_slots id_map [] addr = ok []
select_slots id_map (idx ∷ path) addr = do
  ids ← or_fail (get_elem? id_map idx) undefined
  slot ← select_slot ids addr
  rest ← select_slots id_map path addr
  ok (slot ∷ rest)

-- `id_map_[idx][slot] = id`.
unfoldable pub put_id : List Ids → ℕ → ℕ → Option ℕ → Result (List Ids)
put_id id_map idx slot id = do
  ids ← or_fail (get_elem? id_map idx) undefined
  guard (ltb slot (length ids)) undefined
  ok (set id_map idx (set ids slot id))

unfoldable pub forget_ids : List Ids → List ℕ → List ℕ → Result (List Ids)
forget_ids id_map [] selections = ok id_map
forget_ids id_map (idx ∷ path) [] = err undefined
forget_ids id_map (idx ∷ path) (slot ∷ selections) = do
  id_map' ← put_id id_map idx slot none
  forget_ids id_map' path selections

-- `ApplyPermutationToIds`.
unfoldable pub permuted_ids : Ids → List ℕ → Result Ids
permuted_ids ids [] = ok []
permuted_ids ids (p ∷ permutation) = do
  id ← or_fail (get_elem? ids p) out_of_range
  rest ← permuted_ids ids permutation
  ok (id ∷ rest)

unfoldable pub apply_permutation_to_ids : Ids → List ℕ → Result Ids
apply_permutation_to_ids ids permutation = do
  guard (length ids == length permutation) invalid_argument
  permuted_ids ids permutation
