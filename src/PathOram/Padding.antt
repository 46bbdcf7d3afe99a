-- ===== src/PathOram/Padding.antt =====
-- FillBucketWithDummies of PathORAMServer.cpp and the padding loop of WritePath: the bucket
-- before and after.
use unified_oramhub.Base.{
  ℕ, zero, suc, ◌+◌, ◌≤◌, ◌<◌, ◌≡◌, refl, inl, inr, List, [], ◌∷◌, map, true, arith, length, ltb,
  Bool-cases, length-append,
}
use unified_oramhub.Core.Memory.{Bytes}
use unified_oramhub.Core.{Block, Bucket, get_block_count, add_block}
use unified_oramhub.Core.Serializer.{BlockFits, BucketFits}
use unified_oramhub.PathOram.Buckets.{bucket_size, dummy_id, fill_loop, fill_bucket_with_dummies}
use unified_oramhub.PathOram.Stash.Weights.{weigh, weigh_buckets}
use unified_oramhub.PathOram.Stash.Eviction.{AllFit, weigh-add_block, add_block-Fits}

pub record Padded (limit : ℕ) (b b' : Bucket) : Type 0 where
  pub fits : BucketFits limit bucket_size b'
  pub full : get_block_count b' ≡ bucket_size
  pub same_weight :
      (w : Block → ℕ)
      → ((x : Block) → x.id ≡ dummy_id → w x ≡ 0)
      → weigh w b'.blocks ≡ weigh w b.blocks

count-add_block :
    {limit : ℕ} (b : Bucket) (x : Block)
    → BucketFits limit bucket_size b
    → ltb (get_block_count b) bucket_size ≡ true
    → get_block_count (add_block b x).0 ≡ suc (get_block_count b)
unfolding add_block
count-add_block b x f h = ground (arith, f.same_capacity, length-append b.blocks (x ∷ []))

module _ {limit : ℕ} (filler : ℕ → Bytes) (short : (i : ℕ) → length (filler i) < limit) where
  fill_loop-Padded :
      (fuel : ℕ) (b : Bucket)
      → BucketFits limit bucket_size b
      → bucket_size ≤ fuel + get_block_count b
      → Padded limit b (fill_loop fuel filler b)
  unfolding fill_loop
  fill_loop-Padded zero b f room = record {
    fits = f;
    full = omega (arith, f.within);
    same_weight = λ w z. refl;
  }
  fill_loop-Padded (suc fuel) b f room = elim (Bool-cases (ltb (get_block_count b) bucket_size)) [
    | inr e ↦
        rw e (record { fits = f; full = ground (arith, e, f.within); same_weight = λ w z. refl })
    | inl e ↦
        let x : Block = record { id = dummy_id; bytes = filler (get_block_count b) } in
        let x_fits : BlockFits limit x = record {
          id_fits = omega arith;
          size_fits = short (get_block_count b);
        } in
        let later =
          fill_loop-Padded fuel (add_block b x).0 (add_block-Fits b x f x_fits)
            (omega (arith, count-add_block b x f e)) in
        rw e (record {
          fits = later.fits;
          full = later.full;
          same_weight =
              λ w z. omega (arith, later.same_weight w z, weigh-add_block w b x f e, z x refl);
        })
  ]

  -- Padding of a bucket that fits with dummies whose data is below the same limit gives a full
  -- bucket that fits and holds the same blocks up to dummies.
  pub fill_bucket-Padded :
      (b : Bucket)
      → BucketFits limit bucket_size b
      → Padded limit b (fill_bucket_with_dummies filler b)
  unfolding fill_bucket_with_dummies
  fill_bucket-Padded b f = fill_loop-Padded bucket_size b f (omega arith)

  pub fill_all-AllFit :
      (bs : List Bucket) → AllFit limit bs → AllFit limit (map (fill_bucket_with_dummies filler) bs)
  fill_all-AllFit [] f = tt
  fill_all-AllFit (b ∷ bs) f = ((fill_bucket-Padded b f.0).fits, fill_all-AllFit bs f.1)

  pub weigh-fill_all :
      (bs : List Bucket) (w : Block → ℕ)
      → AllFit limit bs
      → ((x : Block) → x.id ≡ dummy_id → w x ≡ 0)
      → weigh_buckets w (map (fill_bucket_with_dummies filler) bs) ≡ weigh_buckets w bs
  weigh-fill_all [] w f z = refl
  weigh-fill_all (b ∷ bs) w f z =
      omega (arith, (fill_bucket-Padded b f.0).same_weight w z, weigh-fill_all bs w f.1 z)
