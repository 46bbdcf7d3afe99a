-- ===== src/PathOram/Stash/Eviction.antt =====
-- EvictBlocksToPath of PathORAMClient.cpp: the stash and the buckets before and after.
use unified_oramhub.Base.{
  ℕ, suc, ◌+◌, ◌<◌, ◌≡◌, refl, ◌∙◌, ap, inl, inr, List, [], ◌∷◌, ◌++◌, Bool, true, false, ◌&&◌,
  Option, none, some, ok, arith, length, get_elem?, ltb, Bool-cases, get_elem?_total, length-append,
}
use unified_oramhub.Core.{Block, Bucket, get_block_count, add_block}
use unified_oramhub.Core.Serializer.{BlockFits, BlocksFit, BucketFits}
use unified_oramhub.Tree.{can_place_in_bucket}
use unified_oramhub.PathOram.Buckets.{bucket_size}
use unified_oramhub.PathOram.Stash.{place_block, push_bucket, evict_blocks}
use unified_oramhub.PathOram.Stash.Weights.{weigh, weigh_buckets, weigh-append, copies, has_id}

abbrev pub IdsBelow : ℕ → List Block → Type 0
IdsBelow n [] = Unit {0}
IdsBelow n (b ∷ bs) = (b.id < n) × IdsBelow n bs

-- Buckets that the client fills, with data of less than the given number of bytes.
abbrev pub AllFit : ℕ → List Bucket → Type 0
AllFit limit [] = Unit {0}
AllFit limit (b ∷ bs) = BucketFits limit bucket_size b × AllFit limit bs

-- Every copy of the identifier stands in a bucket of the path of `block_leaf`; `i` is the level of
-- the first bucket.
abbrev pub InPlace : ℕ → ℕ → ℕ → ℕ → List Bucket → Type 0
InPlace id block_leaf leaf i [] = Unit {0}
InPlace id block_leaf leaf i (b ∷ bs) =
    (can_place_in_bucket block_leaf leaf i ≡ false → copies id b.blocks ≡ 0)
    × InPlace id block_leaf leaf (i + 1) bs

and_left : (a b : Bool) → (a && b) ≡ true → a ≡ true
and_left true b e = refl
and_left false b e = cc

and_right : (a b : Bool) → (a && b) ≡ true → b ≡ true
and_right true b e = e
and_right false b e = cc

pub weigh-add_block :
    {limit : ℕ} (w : Block → ℕ) (b : Bucket) (x : Block)
    → BucketFits limit bucket_size b
    → ltb (get_block_count b) bucket_size ≡ true
    → weigh w (add_block b x).0.blocks ≡ w x + weigh w b.blocks
unfolding add_block
weigh-add_block w b x f h = ground (arith, f.same_capacity, weigh-append w b.blocks (x ∷ []))

pub BlocksFit-snoc :
    {limit : ℕ} (bs : List Block) (x : Block)
    → BlocksFit limit bs
    → BlockFits limit x
    → BlocksFit limit (bs ++ x ∷ [])
BlocksFit-snoc [] x f g = (g, tt)
BlocksFit-snoc (b ∷ bs) x f g = (f.0, BlocksFit-snoc bs x f.1 g)

pub add_block-Fits :
    {limit : ℕ} (b : Bucket) (x : Block)
    → BucketFits limit bucket_size b
    → BlockFits limit x
    → BucketFits limit bucket_size (add_block b x).0
unfolding add_block
add_block-Fits b x f g =
    ground (arith, BlocksFit-snoc b.blocks x f.blocks_fit g, length-append b.blocks (x ∷ []))

pub IdsBelow-snoc :
    (n : ℕ) (bs : List Block) (x : Block) → IdsBelow n bs → x.id < n → IdsBelow n (bs ++ x ∷ [])
IdsBelow-snoc n [] x h k = (k, tt)
IdsBelow-snoc n (b ∷ bs) x h k = (h.0, IdsBelow-snoc n bs x h.1 k)

-- What placing a block in one of the buckets from level `i` on does.
pub record Placement (limit leaf i block_leaf : ℕ) (x : Block) (bs bs' : List Bucket) : Type 0 where
  pub weight : (w : Block → ℕ) → weigh_buckets w bs' ≡ w x + weigh_buckets w bs
  pub same_length : length bs' ≡ length bs
  pub fit : AllFit limit bs'
  pub in_place :
      (id p : ℕ) → (x.id ≡ id → block_leaf ≡ p) → InPlace id p leaf i bs → InPlace id p leaf i bs'

abbrev Placements : ℕ → ℕ → ℕ → ℕ → Block → List Bucket → Option (List Bucket) → Type 0
Placements limit leaf i block_leaf x bs none = Unit {0}
Placements limit leaf i block_leaf x bs (some bs') = Placement limit leaf i block_leaf x bs bs'

Placements-push :
    {limit : ℕ} (leaf i block_leaf : ℕ) (x : Block) (b : Bucket) (bs : List Bucket)
    (o : Option (List Bucket))
    → BucketFits limit bucket_size b
    → Placements limit leaf (i + 1) block_leaf x bs o
    → Placements limit leaf i block_leaf x (b ∷ bs) (push_bucket b o)
Placements-push leaf i bl x b bs none f h = tt
Placements-push leaf i bl x b bs (some bs') f h = record {
  weight = λ w. omega (arith, h.weight w);
  same_length = ap suc h.same_length;
  fit = (f, h.fit);
  in_place = λ id p same k. (k.0, h.in_place id p same k.1);
}

pub place_block-Placements :
    {limit : ℕ} (leaf block_leaf : ℕ) (x : Block) (i : ℕ) (bs : List Bucket)
    → BlockFits limit x
    → AllFit limit bs
    → Placements limit leaf i block_leaf x bs (place_block block_leaf leaf x i bs)
unfolding place_block
place_block-Placements leaf bl x i [] g f = tt
place_block-Placements leaf bl x i (b ∷ bs) g f =
    elim (Bool-cases (ltb (get_block_count b) bucket_size && can_place_in_bucket bl leaf i)) [
      | inl e ↦ rw e (record {
        weight = λ w. omega (arith, weigh-add_block w b x f.0 (and_left _ _ e));
        same_length = refl;
        fit = (add_block-Fits b x f.0 g, f.1);
        in_place = λ id p same k. (
          (λ out. ground (
            arith,
            weigh-add_block (has_id id) b x f.0 (and_left _ _ e),
            k.0 out,
            same,
            and_right (ltb (get_block_count b) bucket_size) (can_place_in_bucket bl leaf i) e,
          )),
          k.1,
        );
      })
      | inr e ↦ rw e (
          Placements-push leaf i bl x b bs _ f.0
            (place_block-Placements leaf bl x (i + 1) bs g f.1))
    ]

-- What the loop over the stash does, from the buckets and the list kept so far.
pub record Evicted (limit : ℕ) (position_map : List ℕ) (leaf : ℕ) (xs : List Block)
    (bs bs' : List Bucket) (kept kept' : List Block) : Type 0 where
  pub weight :
      (w : Block → ℕ)
      → weigh w kept' + weigh_buckets w bs' ≡ weigh w xs + (weigh w kept + weigh_buckets w bs)
  pub same_length : length bs' ≡ length bs
  pub fit : AllFit limit bs'
  pub in_place :
      (id p : ℕ)
      → get_elem? position_map id ≡ some p
      → InPlace id p leaf 0 bs
      → InPlace id p leaf 0 bs'
  pub ids : (n : ℕ) → IdsBelow n xs → IdsBelow n kept → IdsBelow n kept'
  pub kept_fit : BlocksFit limit xs → BlocksFit limit kept → BlocksFit limit kept'

Evicted-step :
    {limit : ℕ} (pm : List ℕ) (leaf bl : ℕ) (x : Block) (xs : List Block) (bs : List Bucket)
    (kept : List Block) (o : Option (List Bucket))
    → get_elem? pm x.id ≡ some bl
    → Placements limit leaf 0 bl x bs o
    → AllFit limit bs
    → ((bs₁ : List Bucket) (kept₁ : List Block)
        → AllFit limit bs₁
        → (bs' : List Bucket) × (kept' : List Block) × (evict_blocks pm leaf xs bs₁ kept₁
            ≡ ok (bs', kept'))
          × Evicted limit pm leaf xs bs₁ bs' kept₁ kept')
    → (bs' : List Bucket) × (kept' : List Block) × ((elim o [
      | none ↦ evict_blocks pm leaf xs bs (kept ++ x ∷ [])
      | some bs₁ ↦ evict_blocks pm leaf xs bs₁ kept
    ])
        ≡ ok (bs', kept'))
      × Evicted limit pm leaf (x ∷ xs) bs bs' kept kept'
Evicted-step pm leaf bl x xs bs kept none found pl f ih =
    let (bs', kept', run, ev) = ih bs (kept ++ x ∷ []) f in
    (
      bs',
      kept',
      run,
      record {
        weight = λ w. omega (arith, ev.weight w, weigh-append w kept (x ∷ []));
        same_length = ev.same_length;
        fit = ev.fit;
        in_place = ev.in_place;
        ids = λ n h k. ev.ids n h.1 (IdsBelow-snoc n kept x k h.0);
        kept_fit = λ h k. ev.kept_fit h.1 (BlocksFit-snoc kept x k h.0);
      },
    )
Evicted-step pm leaf bl x xs bs kept (some bs₁) found pl f ih =
    let (bs', kept', run, ev) = ih bs₁ kept pl.fit in
    (
      bs',
      kept',
      run,
      record {
        weight = λ w. omega (arith, ev.weight w, pl.weight w);
        same_length = ev.same_length ∙ pl.same_length;
        fit = ev.fit;
        in_place = λ id p found' k.
            ev.in_place id p found' (pl.in_place id p (λ e. cc (ap (get_elem? pm) e)) k);
        ids = λ n h k. ev.ids n h.1 k;
        kept_fit = λ h k. ev.kept_fit h.1 k;
      },
    )

-- When the position map knows every block of the stash, and the blocks and buckets fit the
-- format with data below a limit, the eviction succeeds, loses and duplicates no block, keeps
-- the buckets within their size and that limit and puts a block only into buckets of its own
-- path.
pub evict_blocks-Evicted :
    {limit : ℕ} (pm : List ℕ) (leaf : ℕ) (xs : List Block) (bs : List Bucket) (kept : List Block)
    → IdsBelow (length pm) xs
    → BlocksFit limit xs
    → AllFit limit bs
    → (bs' : List Bucket) × (kept' : List Block) × (evict_blocks pm leaf xs bs kept
        ≡ ok (bs', kept'))
      × Evicted limit pm leaf xs bs bs' kept kept'
unfolding evict_blocks
evict_blocks-Evicted pm leaf [] bs kept known g f = (
  bs,
  kept,
  refl,
  record {
    weight = λ w. omega arith;
    same_length = refl;
    fit = f;
    in_place = λ id p found k. k;
    ids = λ n h k. k;
    kept_fit = λ h k. k;
  },
)
evict_blocks-Evicted pm leaf (x ∷ xs) bs kept known g f =
    let (bl, found) = get_elem?_total pm x.id known.0 in
    let step =
      Evicted-step pm leaf bl x xs bs kept (place_block bl leaf x 0 bs) found
        (place_block-Placements leaf bl x 0 bs g.0 f) f
        (λ bs₁ kept₁ f₁. evict_blocks-Evicted pm leaf xs bs₁ kept₁ known.1 g.1 f₁) in
    rw (found, evict_blocks) step
