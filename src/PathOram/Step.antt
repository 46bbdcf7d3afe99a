-- ===== src/PathOram/Step.antt =====
-- One Access of PathORAMClient.cpp, seen on the client's state and the tree of buckets. The
-- messages of the access are in Refinement.
use mathlib.Core.Path.{subst}
use native.Mathlib.Decide.{ℕ_discrete}
use unified_oramhub.Base.{
  ℕ, suc, ◌+◌, ◌^◌, ◌≤◌, ◌<◌, ◌≡◌, sym, ◌∙◌, ap, ◌≢◌, inl, inr, List, [], ◌++◌, some, arith, length,
  get_elem?, set, ◌==◌, if◌then◌else◌, get_elem?-set, get_elem?-lt_length, length-set,
  length-replicate, eq-or-ne, eq→==, ne_of_==, get_elem?_total,
}
use unified_oramhub.Core.Memory.{Bytes}
use unified_oramhub.Core.{Block, Bucket, new_bucket, Op}
use unified_oramhub.Core.Serializer.{BlocksFit, BucketFits}
use unified_oramhub.Tree.{shr, get_num_tree_nodes}
use unified_oramhub.Tree.Levels.{node_at, nodes_from}
use unified_oramhub.PathOram.Buckets.{data_limit, bucket_size, dummy_id}
use unified_oramhub.PathOram.Stash.{find_block_in_stash, real_blocks, found_data, serve_from_stash}
use unified_oramhub.PathOram.Stash.Weights.{
  weigh, weigh_buckets, weigh-append, weigh-real_blocks, Supports, copies, has_id, has_id-Supports,
  find-eq_of_weights,
}
use unified_oramhub.PathOram.Stash.Eviction.{IdsBelow, AllFit, InPlace, Evicted}
use unified_oramhub.PathOram.Writes.{
  write_tree, path_weight-write, path_weight-moved, copies-write, write_tree_all,
}
use unified_oramhub.PathOram.Padding.{fill_all-AllFit, weigh-fill_all}
use unified_oramhub.PathOram.Client.{Client}
use unified_oramhub.PathOram.Invariant.{Inv, stray, whole_path, visible, content, content_at}
use unified_oramhub.PathOram.Serving.{
  find-serve, copies-serve, weigh-serve, serve-IdsBelow, serve-BlocksFit, read-IdsBelow,
  read-BlocksFit, weigh-stray,
}
use unified_oramhub.PathOram.PathBuckets.{
  zeros, zeros_short, empty_buckets, weigh-empty, empty-InPlace, fill_all, fill-InPlace,
  length-fill_all, path_of_all, AllBuckets-AllFit, Weightless, AllBuckets-weigh, weigh-AllBuckets,
}

-- What is given before the access.
module _ {h : ℕ} {c : Client} {tree : ℕ → Bucket} (inv : Inv data_limit h c tree) (op : Op)
    (addr : ℕ) (bytes : Bytes) (new l : ℕ) (addr_lt : addr < c.num_blocks) (new_lt : new < 2 ^ h)
    (short : length bytes < data_limit) (old : get_elem? c.position_map addr ≡ some l)
    (fits : (i : ℕ) → i < get_num_tree_nodes h → BucketFits data_limit bucket_size (tree i)) where
  l_lt : l < 2 ^ h
  l_lt = inv.leaves addr l old

  abbrev pub read_stash : List Block
  read_stash = c.stash ++ real_blocks (whole_path tree h l)

  abbrev pub served_stash : List Block
  served_stash = (serve_from_stash op addr bytes read_stash).1

  abbrev pub positions : List ℕ
  positions = set c.position_map addr new

  pub path-AllFit : AllFit data_limit (whole_path tree h l)
  path-AllFit = AllBuckets-AllFit _ (path_of_all _ h l tree l_lt fits (suc h) 0 (omega arith))

  path_stray : weigh_buckets (stray c.num_blocks) (whole_path tree h l) ≡ 0
  path_stray = AllBuckets-weigh _ _ (
      path_of_all (Weightless (stray c.num_blocks)) h l tree l_lt inv.tree_known (suc h) 0
        (omega arith))

  pub served-IdsBelow : IdsBelow c.num_blocks served_stash
  served-IdsBelow =
      serve-IdsBelow op c.num_blocks addr bytes read_stash
        (read-IdsBelow c.num_blocks c.stash (whole_path tree h l) inv.stash_known path_stray)
        addr_lt

  pub served-BlocksFit : BlocksFit data_limit served_stash
  served-BlocksFit =
      serve-BlocksFit op addr bytes read_stash
        (read-BlocksFit c.stash (whole_path tree h l) inv.stash_fit path-AllFit)
        (omega (arith, inv.few, addr_lt)) short

  real_id : (id p : ℕ) → get_elem? c.position_map id ≡ some p → id ≢ dummy_id
  real_id id p e q =
      absurd (omega (arith, get_elem?-lt_length c.position_map id e, inv.sized, inv.few, q))

  addr_real : addr ≢ dummy_id
  addr_real = real_id addr l old

  weigh-read_stash :
      (id : ℕ) (w : Block → ℕ)
      → Supports id w
      → id ≢ dummy_id
      → weigh w read_stash ≡ weigh w c.stash + weigh_buckets w (whole_path tree h l)
  weigh-read_stash id w s ne = omega (
    arith,
    weigh-append w c.stash (real_blocks (whole_path tree h l)),
    weigh-real_blocks id w (whole_path tree h l) s ne,
  )

  pub read_once : copies addr read_stash ≤ 1
  read_once = omega (
    arith,
    inv.once addr l old,
    weigh-read_stash addr (has_id addr) (has_id-Supports addr) addr_real,
  )

  pub positions-get :
      (id : ℕ)
      → get_elem? positions id ≡ (if addr == id then some new else get_elem? c.position_map id)
  positions-get id = get_elem?-set c.position_map addr id new (omega (arith, inv.sized, addr_lt))

  pub length-positions : length positions ≡ c.num_blocks
  length-positions = length-set c.position_map addr new ∙ inv.sized

  -- What the eviction gives.
  module _ (bs : List Bucket) (kept : List Block)
      (ev : Evicted data_limit positions l served_stash (empty_buckets (suc h)) bs [] kept) where
    abbrev pub new_tree : ℕ → Bucket
    new_tree = write_tree (nodes_from (suc h) h l 0) (fill_all bs) tree

    abbrev pub new_client : Client
    new_client = record c { stash = kept; position_map = positions }

    pub length-filled : length (fill_all bs) ≡ suc h
    length-filled =
        length-fill_all bs ∙ ev.same_length ∙ length-replicate (suc h) (new_bucket bucket_size)

    pub filled-AllFit : AllFit data_limit (fill_all bs)
    filled-AllFit = fill_all-AllFit zeros zeros_short bs ev.fit

    filled-InPlace :
        (id p : ℕ)
        → get_elem? positions id ≡ some p
        → id ≢ dummy_id
        → InPlace id p l 0 (fill_all bs)
    filled-InPlace id p at ne =
        fill-InPlace id p l 0 bs ne ev.fit (ev.in_place id p at (empty-InPlace id p l 0 (suc h)))

    total :
        (w : Block → ℕ)
        → ((x : Block) → x.id ≡ dummy_id → w x ≡ 0)
        → weigh w kept + weigh_buckets w (fill_all bs) ≡ weigh w served_stash
    total w z =
        omega (
          arith,
          ev.weight w,
          weigh-empty w (suc h),
          weigh-fill_all zeros zeros_short bs w ev.fit z,
        )

    total_of :
        (id : ℕ) (w : Block → ℕ)
        → Supports id w
        → id ≢ dummy_id
        → weigh w kept + weigh_buckets w (fill_all bs) ≡ weigh w served_stash
    total_of id w s ne = total w (λ x e. s x (λ q. ne (sym q ∙ e)))

    position_other :
        (id p : ℕ)
        → id ≢ addr
        → get_elem? positions id ≡ some p
        → get_elem? c.position_map id ≡ some p
    position_other id p ne e = ground (arith, positions-get id)

    position_addr : (p : ℕ) → get_elem? positions addr ≡ some p → new ≡ p
    position_addr p e = ground (arith, positions-get addr)

    other_weight :
        (id p : ℕ) (w : Block → ℕ)
        → id ≢ addr
        → get_elem? positions id ≡ some p
        → Supports id w
        → weigh w kept + weigh_buckets w (whole_path new_tree h p)
          ≡ weigh w c.stash + weigh_buckets w (whole_path tree h p)
    other_weight id p w ne at s =
        let at' = position_other id p ne at in
        let real = real_id id p at' in
        omega (
          arith,
          path_weight-write h l l_lt id p w s (inv.leaves id p at') (suc h) 0 (fill_all bs) tree
              (omega arith) length-filled (filled-InPlace id p at real)
              (λ j le lh off. inv.on_path id p at' l j l_lt lh off),
          total_of id w s real,
          weigh-serve op addr bytes read_stash id w s ne,
          weigh-read_stash id w s real,
        )

    addr_weight :
        (w : Block → ℕ)
        → Supports addr w
        → weigh w kept + weigh_buckets w (whole_path new_tree h new) ≡ weigh w served_stash
    addr_weight w s =
        let at : get_elem? positions addr ≡ some new = ground (arith, positions-get addr) in
        omega (
          arith,
          path_weight-moved h l l_lt addr new w s new_lt (suc h) 0 (fill_all bs) tree (omega arith)
              length-filled (filled-InPlace addr new at addr_real)
              (λ j le lh off. inv.on_path addr l old new j new_lt lh off),
          total_of addr w s addr_real,
        )

    known_real : (id p : ℕ) → get_elem? positions id ≡ some p → id ≢ dummy_id
    known_real id p e q =
        absurd (omega (arith, get_elem?-lt_length positions id e, length-positions, inv.few, q))

    filled_stray : weigh_buckets (stray c.num_blocks) (fill_all bs) ≡ 0
    filled_stray = omega (
      arith,
      total (stray c.num_blocks) (λ x e. ground (arith, e)),
      weigh-stray c.num_blocks served_stash served-IdsBelow,
    )

    -- By the identifier: the block of the access, or another block at its old position.
    by_id {ℓ} :
        (P : ℕ → ℕ → Type ℓ)
        → P addr new
        → ((id p : ℕ) → id ≢ addr → get_elem? c.position_map id ≡ some p → P id p)
        → (id p : ℕ) → get_elem? positions id ≡ some p
        → P id p
    by_id P here others id p at = elim (ℕ_discrete id addr) [
      | yes same ↦
          subst (λ i. P i p) (sym same)
            (subst (P addr) (position_addr p (ap (get_elem? positions) (sym same) ∙ at)) here)
      | no ne ↦ others id p ne (position_other id p ne at)
    ]

    leaves_after : (id p : ℕ) → get_elem? positions id ≡ some p → p < 2 ^ h
    leaves_after = by_id (λ id p. p < 2 ^ h) new_lt (λ id p ne at. inv.leaves id p at)

    on_path_after :
        (id p : ℕ)
        → get_elem? positions id ≡ some p
        → (m j : ℕ) → m < 2 ^ h
        → j ≤ h
        → shr m j ≢ shr p j
        → copies id (new_tree (node_at h m j)).blocks ≡ 0
    on_path_after id p at m j m_lt lh off =
        copies-write h l l_lt id p m m_lt (suc h) 0 (fill_all bs) tree (omega arith)
          (filled-InPlace id p at (known_real id p at)) length-filled j (omega arith) lh off
          (by_id
            (λ i q.
              shr m j ≢ shr q j → shr m j ≢ shr l j → copies i (tree (node_at h m j)).blocks ≡ 0)
            (λ _ out. inv.on_path addr l old m j m_lt lh out)
            (λ i q ne at' out _. inv.on_path i q at' m j m_lt lh out) id p at off)

    once_after :
        (id p : ℕ)
        → get_elem? positions id ≡ some p
        → copies id kept + weigh_buckets (has_id id) (whole_path new_tree h p) ≤ 1
    once_after id p at = elim (ℕ_discrete id addr) [
      | yes same ↦
          subst (λ i. copies i kept + weigh_buckets (has_id i) (whole_path new_tree h p) ≤ 1)
            (sym same)
            (subst
              (λ q. copies addr kept + weigh_buckets (has_id addr) (whole_path new_tree h q) ≤ 1)
              (position_addr p (ap (get_elem? positions) (sym same) ∙ at))
              (omega (
                arith,
                addr_weight (has_id addr) (has_id-Supports addr),
                copies-serve op addr bytes read_stash read_once,
              )))
      | no ne ↦ omega (
        arith,
        other_weight id p (has_id id) ne at (has_id-Supports id),
        inv.once id p (position_other id p ne at),
      )
    ]

    -- The invariant holds again.
    pub Inv-after : Inv data_limit h new_client new_tree
    Inv-after = record {
      height = inv.height;
      sized = length-positions;
      few = inv.few;
      leaves = leaves_after;
      stash_known = ev.ids c.num_blocks served-IdsBelow tt;
      stash_fit = ev.kept_fit served-BlocksFit tt;
      tree_known =
          write_tree_all (Weightless (stray c.num_blocks)) (get_num_tree_nodes h)
            (nodes_from (suc h) h l 0) (fill_all bs) tree inv.tree_known
            (weigh-AllBuckets _ (fill_all bs) filled_stray);
      on_path = on_path_after;
      once = once_after;
    }

    weigh-visible_after :
        (id p : ℕ) (w : Block → ℕ)
        → Supports id w
        → id ≢ dummy_id
        → weigh w (visible new_client new_tree h p)
          ≡ weigh w kept + weigh_buckets w (whole_path new_tree h p)
    weigh-visible_after id p w s ne = omega (
      arith,
      weigh-append w kept (real_blocks (whole_path new_tree h p)),
      weigh-real_blocks id w (whole_path new_tree h p) s ne,
    )

    content_addr :
        found_data (find_block_in_stash addr (visible new_client new_tree h new))
        ≡ (serve_from_stash op addr bytes read_stash).0
    content_addr =
        ap found_data (
          find-eq_of_weights addr served_stash (visible new_client new_tree h new)
            (copies-serve op addr bytes read_stash read_once)
            (λ w s. weigh-visible_after addr new w s addr_real ∙ addr_weight w s))
        ∙ find-serve op addr bytes read_stash

    content_other :
        (id p : ℕ)
        → id ≢ addr
        → get_elem? c.position_map id ≡ some p
        → find_block_in_stash id (visible new_client new_tree h p)
          ≡ find_block_in_stash id (visible c tree h p)
    content_other id p ne at =
        let real = real_id id p at in
        let at' : get_elem? positions id ≡ some p = ground (arith, positions-get id, at) in
        find-eq_of_weights id (visible c tree h p) (visible new_client new_tree h p)
          (omega (
            arith,
            inv.once id p at,
            weigh-append (has_id id) c.stash (real_blocks (whole_path tree h p)),
            weigh-real_blocks id (has_id id) (whole_path tree h p) (has_id-Supports id) real,
          ))
          (λ w s. omega (
            arith,
            weigh-visible_after id p w s real,
            other_weight id p w ne at' s,
            weigh-append w c.stash (real_blocks (whole_path tree h p)),
            weigh-real_blocks id w (whole_path tree h p) s real,
          ))

    abbrev InMemory : ℕ → Type 0
    InMemory id = content new_client new_tree h id ≡ (serve_from_stash op addr bytes read_stash).0

    content_self : InMemory addr
    content_self =
        let at : get_elem? positions addr ≡ some new = ground (arith, positions-get addr) in
        ap (content_at new_client new_tree h addr) at ∙ content_addr

    -- Reading any block afterwards gives what a plain memory holds.
    pub content-after :
        (id : ℕ)
        → id < c.num_blocks
        → content new_client new_tree h id ≡ (
            if addr == id
            then (serve_from_stash op addr bytes read_stash).0
            else content c tree h id)
    content-after id lt = elim (eq-or-ne addr id) [
      | inl same ↦ rw (eq→== addr id same) (subst InMemory same content_self)
      | inr other ↦
          let (p, at) = get_elem?_total c.position_map id (omega (arith, lt, inv.sized)) in
          let ne : id ≢ addr = λ q. ne_of_== addr id other (sym q) in
          let at' : get_elem? positions id ≡ some p = ground (arith, positions-get id, at) in
          rw other (
            ap (content_at new_client new_tree h id) at'
            ∙ ap found_data (content_other id p ne at)
            ∙ sym (ap (content_at c tree h id) at))
    ]
