-- ===== src/PathOram/PathBuckets.antt =====
-- The buckets of a path, before and after the client fills them.
use unified_oramhub.Base.{
  ℕ, zero, suc, ◌+◌, ◌-◌, ◌^◌, ◌<◌, ◌≡◌, refl, sym, ◌∙◌, ap, ◌≢◌, List, [], ◌∷◌, map, arith, length,
  replicate,
}
use unified_oramhub.Core.Memory.{Bytes}
use unified_oramhub.Core.{Block, Bucket, new_bucket}
use unified_oramhub.Core.Serializer.{BucketFits}
use unified_oramhub.Tree.{get_num_tree_nodes}
use unified_oramhub.Tree.Levels.{node_at, nodes_from, node_at-lt}
use unified_oramhub.PathOram.Buckets.{
  bucket_size, block_size, data_limit, dummy_id, fill_bucket_with_dummies,
}
use unified_oramhub.PathOram.Stash.Weights.{weigh, weigh_buckets, has_id, has_id-Supports}
use unified_oramhub.PathOram.Stash.Eviction.{AllFit, InPlace}
use unified_oramhub.PathOram.Writes.{AllBuckets, path_of}
use unified_oramhub.PathOram.Padding.{fill_bucket-Padded}

abbrev pub zeros : ℕ → Bytes
zeros slot = replicate block_size 0

pub zeros_short : (i : ℕ) → length (zeros i) < data_limit
zeros_short i = omega arith

abbrev pub empty_buckets : ℕ → List Bucket
empty_buckets n = replicate n (new_bucket bucket_size)

pub empty-AllFit : (n : ℕ) → AllFit data_limit (empty_buckets n)
empty-AllFit zero = tt
empty-AllFit (suc n) = (
  record { same_capacity = refl; within = omega arith; count_fits = omega arith; blocks_fit = tt },
  empty-AllFit n,
)

pub weigh-empty : (w : Block → ℕ) (n : ℕ) → weigh_buckets w (empty_buckets n) ≡ 0
weigh-empty w zero = refl
weigh-empty w (suc n) = omega (arith, weigh-empty w n)

pub empty-InPlace : (id p l i n : ℕ) → InPlace id p l i (empty_buckets n)
empty-InPlace id p l i zero = tt
empty-InPlace id p l i (suc n) = ((λ e. refl), empty-InPlace id p l (i + 1) n)

abbrev pub fill_all : List Bucket → List Bucket
fill_all = map (fill_bucket_with_dummies zeros)

pub fill-InPlace :
    (id p l i : ℕ) (bs : List Bucket)
    → id ≢ dummy_id
    → AllFit data_limit bs
    → InPlace id p l i bs
    → InPlace id p l i (fill_all bs)
fill-InPlace id p l i [] ne f k = tt
fill-InPlace id p l i (b ∷ bs) ne f k = (
  (λ out.
      (fill_bucket-Padded zeros zeros_short b f.0).same_weight (has_id id)
        (λ x e. has_id-Supports id x (λ q. ne (sym q ∙ e)))
      ∙ k.0 out),
  fill-InPlace id p l (i + 1) bs ne f.1 k.1,
)

pub length-fill_all : (bs : List Bucket) → length (fill_all bs) ≡ length bs
length-fill_all [] = refl
length-fill_all (b ∷ bs) = ap suc (length-fill_all bs)

pub path_of_all :
    (P : Bucket → Type 0) (h l : ℕ) (t : ℕ → Bucket)
    → l < 2 ^ h
    → ((i : ℕ) → i < get_num_tree_nodes h → P (t i))
    → (n k : ℕ) → k + n ≡ suc h
    → AllBuckets P (path_of t n h l k)
unfolding nodes_from get_num_tree_nodes
path_of_all P h l t b all zero k e = tt
path_of_all P h l t b all (suc n) k e = (
  all (node_at h l k) (node_at-lt h l (h - k) k (omega arith) b),
  path_of_all P h l t b all n (suc k) (omega arith),
)

pub AllBuckets-AllFit :
    (bs : List Bucket) → AllBuckets (BucketFits data_limit bucket_size) bs → AllFit data_limit bs
AllBuckets-AllFit [] h = tt
AllBuckets-AllFit (b ∷ bs) h = (h.0, AllBuckets-AllFit bs h.1)

pub AllFit-AllBuckets :
    (bs : List Bucket) → AllFit data_limit bs → AllBuckets (BucketFits data_limit bucket_size) bs
AllFit-AllBuckets [] h = tt
AllFit-AllBuckets (b ∷ bs) h = (h.0, AllFit-AllBuckets bs h.1)

abbrev pub Weightless : (Block → ℕ) → Bucket → Type 0
Weightless w b = weigh w b.blocks ≡ 0

pub AllBuckets-weigh :
    (w : Block → ℕ) (bs : List Bucket) → AllBuckets (Weightless w) bs → weigh_buckets w bs ≡ 0
AllBuckets-weigh w [] h = refl
AllBuckets-weigh w (b ∷ bs) h = omega (arith, h.0, AllBuckets-weigh w bs h.1)

pub weigh-AllBuckets :
    (w : Block → ℕ) (bs : List Bucket) → weigh_buckets w bs ≡ 0 → AllBuckets (Weightless w) bs
weigh-AllBuckets w [] h = tt
weigh-AllBuckets w (b ∷ bs) h = (omega (arith, h), weigh-AllBuckets w bs (omega (arith, h)))
