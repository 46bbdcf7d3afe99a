-- ===== src/PathOram/Serving.antt =====
-- Step 4 of an access: what reading or writing one block does to the stash.
use unified_oramhub.Base.{
  ℕ, ◌≤◌, ◌<◌, ◌≡◌, refl, sym, ap, ◌≢◌, inl, inr, List, [], ◌∷◌, ◌++◌, Bool, not, none, some, arith,
  length, filter, ◌==◌, Bool-cases, Option-cases,
}
use unified_oramhub.Core.Memory.{Bytes, u64_mod}
use unified_oramhub.Core.{Block, Bucket, Op, read, write}
use unified_oramhub.Core.Serializer.{BlocksFit}
use unified_oramhub.PathOram.Buckets.{dummy_id}
use unified_oramhub.PathOram.Stash.{
  find_block_in_stash, remove_block_from_stash, found_data, serve_from_stash, real_blocks,
}
use unified_oramhub.PathOram.Stash.Weights.{
  weigh, weigh_buckets, weigh-append, Supports, copies, has_id, weigh-remove_ne, copies-remove_self,
  copies-find_none,
}
use unified_oramhub.PathOram.Buckets.{data_limit}
use unified_oramhub.PathOram.Stash.Eviction.{IdsBelow, IdsBelow-snoc, BlocksFit-snoc, AllFit}
use unified_oramhub.PathOram.Invariant.{stray}

find-snoc :
    (addr : ℕ) (xs : List Block) (x : Block)
    → copies addr xs ≡ 0
    → x.id ≡ addr
    → find_block_in_stash addr (xs ++ x ∷ []) ≡ some x
unfolding find_block_in_stash
find-snoc addr [] x h e = ground arith
find-snoc addr (y ∷ xs) x h e = ground (arith, find-snoc addr xs x)

-- The stash that a write appends to.
abbrev cleared : ℕ → List Block → List Block
cleared addr stash = elim (find_block_in_stash addr stash) [
  | none ↦ stash
  | some b ↦ remove_block_from_stash addr stash
]

cleared_ind :
    (P : List Block → Type 0) (addr : ℕ) (stash : List Block)
    → (find_block_in_stash addr stash ≡ none → P stash)
    → P (remove_block_from_stash addr stash)
    → P (cleared addr stash)
cleared_ind P addr stash kept removed = elim (Option-cases (find_block_in_stash addr stash)) [
  | inl e ↦ rw (e, cleared) (kept e)
  | inr (b, e) ↦ rw (e, cleared) removed
]

copies-cleared : (addr : ℕ) (stash : List Block) → copies addr (cleared addr stash) ≡ 0
copies-cleared addr stash =
    cleared_ind (λ xs. copies addr xs ≡ 0) addr stash (copies-find_none addr stash)
      (copies-remove_self addr stash)

-- The block's content afterwards is the result of the access.
pub find-serve :
    (op : Op) (addr : ℕ) (bytes : Bytes) (stash : List Block)
    → found_data (find_block_in_stash addr (serve_from_stash op addr bytes stash).1)
      ≡ (serve_from_stash op addr bytes stash).0
unfolding serve_from_stash found_data
find-serve read addr bytes stash = refl
find-serve write addr bytes stash = ap found_data (
    find-snoc addr (cleared addr stash) (record { id = addr; bytes = bytes })
      (copies-cleared addr stash) refl)

pub copies-serve :
    (op : Op) (addr : ℕ) (bytes : Bytes) (stash : List Block)
    → copies addr stash ≤ 1
    → copies addr (serve_from_stash op addr bytes stash).1 ≤ 1
unfolding serve_from_stash
copies-serve read addr bytes stash h = h
copies-serve write addr bytes stash h = ground (
  arith,
  weigh-append (has_id addr) (cleared addr stash) (record { id = addr; bytes = bytes } ∷ []),
  copies-cleared addr stash,
)

-- Other blocks keep their weights.
pub weigh-serve :
    (op : Op) (addr : ℕ) (bytes : Bytes) (stash : List Block) (id : ℕ) (w : Block → ℕ)
    → Supports id w
    → id ≢ addr
    → weigh w (serve_from_stash op addr bytes stash).1 ≡ weigh w stash
unfolding serve_from_stash
weigh-serve read addr bytes stash id w s ne = refl
weigh-serve write addr bytes stash id w s ne = omega (
  arith,
  weigh-append w (cleared addr stash) (record { id = addr; bytes = bytes } ∷ []),
  s (record { id = addr; bytes = bytes }) (λ e. ne (sym e)),
  cleared_ind (λ xs. weigh w xs ≡ weigh w stash) addr stash (λ e. refl)
      (weigh-remove_ne id addr w stash s ne),
)

IdsBelow-filter :
    (n : ℕ) (p : Block → Bool) (bs : List Block) → IdsBelow n bs → IdsBelow n (filter p bs)
IdsBelow-filter n p [] h = tt
IdsBelow-filter n p (b ∷ bs) h = elim (Bool-cases (p b)) [
  | inl e ↦ rw e (h.0, IdsBelow-filter n p bs h.1)
  | inr e ↦ rw e (IdsBelow-filter n p bs h.1)
]

pub BlocksFit-filter :
    (p : Block → Bool) (bs : List Block)
    → BlocksFit data_limit bs
    → BlocksFit data_limit (filter p bs)
BlocksFit-filter p [] h = tt
BlocksFit-filter p (b ∷ bs) h = elim (Bool-cases (p b)) [
  | inl e ↦ rw e (h.0, BlocksFit-filter p bs h.1)
  | inr e ↦ rw e (BlocksFit-filter p bs h.1)
]

pub serve-IdsBelow :
    (op : Op) (n addr : ℕ) (bytes : Bytes) (stash : List Block)
    → IdsBelow n stash
    → addr < n
    → IdsBelow n (serve_from_stash op addr bytes stash).1
unfolding serve_from_stash remove_block_from_stash
serve-IdsBelow read n addr bytes stash h lt = h
serve-IdsBelow write n addr bytes stash h lt =
    IdsBelow-snoc n (cleared addr stash) _
      (cleared_ind (IdsBelow n) addr stash (λ e. h) (IdsBelow-filter n _ stash h)) lt

pub serve-BlocksFit :
    (op : Op) (addr : ℕ) (bytes : Bytes) (stash : List Block)
    → BlocksFit data_limit stash
    → addr < u64_mod
    → length bytes < data_limit
    → BlocksFit data_limit (serve_from_stash op addr bytes stash).1
unfolding serve_from_stash remove_block_from_stash
serve-BlocksFit read addr bytes stash h lt short = h
serve-BlocksFit write addr bytes stash h lt short =
    BlocksFit-snoc (cleared addr stash) _
      (cleared_ind (BlocksFit data_limit) addr stash (λ e. h) (BlocksFit-filter _ stash h))
      (record { id_fits = lt; size_fits = short })

IdsBelow-append :
    (n : ℕ) (xs ys : List Block) → IdsBelow n xs → IdsBelow n ys → IdsBelow n (xs ++ ys)
IdsBelow-append n [] ys h k = k
IdsBelow-append n (x ∷ xs) ys h k = (h.0, IdsBelow-append n xs ys h.1 k)

BlocksFit-append :
    (xs ys : List Block)
    → BlocksFit data_limit xs
    → BlocksFit data_limit ys
    → BlocksFit data_limit (xs ++ ys)
BlocksFit-append [] ys h k = k
BlocksFit-append (x ∷ xs) ys h k = (h.0, BlocksFit-append xs ys h.1 k)

IdsBelow-real :
    (n : ℕ) (bs : List Block)
    → weigh (stray n) bs ≡ 0
    → IdsBelow n (filter (λ x. not (x.id == dummy_id)) bs)
IdsBelow-real n [] h = tt
IdsBelow-real n (b ∷ bs) h = elim (Bool-cases (b.id == dummy_id)) [
  | inl e ↦ rw e (IdsBelow-real n bs (omega (arith, h)))
  | inr e ↦ rw e (ground (arith, e, h), IdsBelow-real n bs (omega (arith, h)))
]

IdsBelow-real_blocks :
    (n : ℕ) (bs : List Bucket) → weigh_buckets (stray n) bs ≡ 0 → IdsBelow n (real_blocks bs)
unfolding real_blocks
IdsBelow-real_blocks n [] h = tt
IdsBelow-real_blocks n (b ∷ bs) h =
    IdsBelow-append n _ (real_blocks bs) (IdsBelow-real n b.blocks (omega (arith, h)))
      (IdsBelow-real_blocks n bs (omega (arith, h)))

BlocksFit-real_blocks :
    (bs : List Bucket) → AllFit data_limit bs → BlocksFit data_limit (real_blocks bs)
unfolding real_blocks
BlocksFit-real_blocks [] f = tt
BlocksFit-real_blocks (b ∷ bs) f =
    BlocksFit-append _ (real_blocks bs) (BlocksFit-filter _ b.blocks f.0.blocks_fit)
      (BlocksFit-real_blocks bs f.1)

-- The stash after ReadPath.
pub read-IdsBelow :
    (n : ℕ) (stash : List Block) (bs : List Bucket)
    → IdsBelow n stash
    → weigh_buckets (stray n) bs ≡ 0
    → IdsBelow n (stash ++ real_blocks bs)
read-IdsBelow n stash bs h z = IdsBelow-append n stash _ h (IdsBelow-real_blocks n bs z)

pub read-BlocksFit :
    (stash : List Block) (bs : List Bucket)
    → BlocksFit data_limit stash
    → AllFit data_limit bs
    → BlocksFit data_limit (stash ++ real_blocks bs)
read-BlocksFit stash bs h f = BlocksFit-append stash _ h (BlocksFit-real_blocks bs f)

-- Known blocks are no strays.
pub weigh-stray : (n : ℕ) (bs : List Block) → IdsBelow n bs → weigh (stray n) bs ≡ 0
weigh-stray n [] h = refl
weigh-stray n (b ∷ bs) h = ground (arith, weigh-stray n bs h.1, h.0)
