-- ===== src/PathOram/Writes.antt =====
-- A tree of buckets after the buckets of one path are replaced, as WritePath does: which nodes
-- change, and what the paths of other leaves then hold.
use mathlib.Core.Path.{subst}
use unified_oramhub.Base.{
  ℕ, zero, suc, ◌+◌, ◌-◌, ◌^◌, ◌≤◌, ◌<◌, ◌≡◌, refl, sym, ◌∙◌, ◌≢◌, inl, inr, List, [], ◌∷◌, map,
  arith, length, ◌==◌, if◌then◌else◌, update, eq-or-ne, ne_of_==, ==-ne, eq→==, Bool-cases,
}
use unified_oramhub.Core.{Block, Bucket}
use unified_oramhub.Tree.{shr, can_place_in_bucket}
use unified_oramhub.Tree.Levels.{
  node_at, nodes_from, node_at-ne, node_at-eq_of_shr, shr-eq_of_node_at,
}
use unified_oramhub.PathOram.Stash.Weights.{weigh, weigh_buckets, Supports, copies, weigh-zero}
use unified_oramhub.PathOram.Stash.Eviction.{InPlace}

unfoldable pub write_tree : List ℕ → List Bucket → (ℕ → Bucket) → ℕ → Bucket
write_tree [] bs t = t
write_tree (i ∷ is) [] t = t
write_tree (i ∷ is) (b ∷ bs) t = write_tree is bs (update t i b)

abbrev pub AllBuckets : (Bucket → Type 0) → List Bucket → Type 0
AllBuckets P [] = Unit {0}
AllBuckets P (b ∷ bs) = P b × AllBuckets P bs

-- The buckets on the way from a level up to the root.
abbrev pub path_of : (ℕ → Bucket) → ℕ → ℕ → ℕ → ℕ → List Bucket
path_of t n h m k = map t (nodes_from n h m k)

module _ (h l : ℕ) (l_small : l < 2 ^ h) where
  -- A node below the written levels keeps its bucket.
  write_below :
      (n k : ℕ) (bs : List Bucket) (t : ℕ → Bucket) (m j : ℕ)
      → k + n ≡ suc h
      → m < 2 ^ h
      → j < k
      → write_tree (nodes_from n h l k) bs t (node_at h m j) ≡ t (node_at h m j)
  unfolding write_tree nodes_from
  write_below zero k bs t m j e b lt = refl
  write_below (suc n) k [] t m j e b lt = refl
  write_below (suc n) k (x ∷ bs) t m j e b lt =
      write_below n (suc k) bs (update t (node_at h l k) x) m j (omega arith) b (omega arith)
      ∙ ground (
        arith,
        node_at-ne h l m (h - k) (h - j) j k (omega arith) (omega arith) l_small (omega arith),
      )

  -- A node above the first written one is not touched by that write.
  path_of-update :
      (n k : ℕ) (x : Bucket) (t : ℕ → Bucket) (m j : ℕ)
      → k + n ≡ suc h
      → m < 2 ^ h
      → j < k
      → path_of (update t (node_at h l j) x) n h m k ≡ path_of t n h m k
  unfolding nodes_from
  path_of-update zero k x t m j e b lt = refl
  path_of-update (suc n) k x t m j e b lt = ground (
    arith,
    node_at-ne h m l (h - k) (h - j) j k (omega arith) (omega arith) b (omega arith),
    path_of-update n (suc k) x t m j (omega arith) b (omega arith),
  )

  -- The bucket of a node of the first written level.
  first_level :
      (n k : ℕ) (x : Bucket) (bs : List Bucket) (t : ℕ → Bucket) (m : ℕ)
      → k + suc n ≡ suc h
      → m < 2 ^ h
      → write_tree (nodes_from (suc n) h l k) (x ∷ bs) t (node_at h m k)
        ≡ (if shr m k == shr l k then x else t (node_at h m k))
  unfolding write_tree nodes_from
  first_level n k x bs t m e b =
      write_below n (suc k) bs (update t (node_at h l k) x) m k (omega arith) b (omega arith)
      ∙ ground (
        arith,
        node_at-eq_of_shr h m l (h - k) k (omega arith),
        shr-eq_of_node_at h m l (h - k) k (omega arith),
      )

  update_above :
      (k j : ℕ) (x : Bucket) (t : ℕ → Bucket) (m : ℕ)
      → m < 2 ^ h
      → k < j
      → j ≤ h
      → update t (node_at h l k) x (node_at h m j) ≡ t (node_at h m j)
  update_above k j x t m b lt lh =
      ground
        (arith, node_at-ne h m l (h - j) (h - k) k j (omega arith) (omega arith) b (omega arith))

  InPlace-next :
      (id p k : ℕ) (bs : List Bucket) → InPlace id p l (k + 1) bs → InPlace id p l (suc k) bs
  InPlace-next id p k bs = subst (λ (i : ℕ). InPlace id p l i bs) (omega arith)

  head_weight :
      (id p : ℕ) (w : Block → ℕ) (n k : ℕ) (x : Bucket) (bs : List Bucket) (t : ℕ → Bucket)
      → Supports id w
      → p < 2 ^ h
      → k + suc n ≡ suc h
      → InPlace id p l k (x ∷ bs)
      → (shr l k ≢ shr p k → copies id (t (node_at h l k)).blocks ≡ 0)
      → weigh w (write_tree (nodes_from (suc n) h l k) (x ∷ bs) t (node_at h p k)).blocks
          + weigh w (t (node_at h l k)).blocks
        ≡ weigh w (t (node_at h p k)).blocks + weigh w x.blocks
  unfolding can_place_in_bucket
  head_weight id p w n k x bs t s b e place off = elim (eq-or-ne (shr p k) (shr l k)) [
    | inl same ↦
        rw
          (
            first_level n k x bs t p e b,
            eq→== _ _ same,
            node_at-eq_of_shr h p l (h - k) k (omega arith) same,
          )
          (omega arith)
    | inr other ↦
        let gone =
          weigh-zero id w (t (node_at h l k)).blocks s (off (λ q. ne_of_== _ _ other (sym q))) in
        let none_new = weigh-zero id w x.blocks s (place.0 other) in
        rw (first_level n k x bs t p e b, other) (omega (arith, gone, none_new))
  ]

  moved_head :
      (id p : ℕ) (w : Block → ℕ) (n k : ℕ) (x : Bucket) (bs : List Bucket) (t : ℕ → Bucket)
      → Supports id w
      → p < 2 ^ h
      → k + suc n ≡ suc h
      → InPlace id p l k (x ∷ bs)
      → (shr p k ≢ shr l k → copies id (t (node_at h p k)).blocks ≡ 0)
      → weigh w (write_tree (nodes_from (suc n) h l k) (x ∷ bs) t (node_at h p k)).blocks
        ≡ weigh w x.blocks
  unfolding can_place_in_bucket
  moved_head id p w n k x bs t s b e place off = elim (eq-or-ne (shr p k) (shr l k)) [
    | inl same ↦ rw (first_level n k x bs t p e b, eq→== _ _ same)
    | inr other ↦
        let gone = weigh-zero id w (t (node_at h p k)).blocks s (off (ne_of_== _ _ other)) in
        let none_new = weigh-zero id w x.blocks s (place.0 other) in
        rw (first_level n k x bs t p e b, other) (omega (arith, gone, none_new))
  ]

  copies_head :
      (id p m n k : ℕ) (x : Bucket) (bs : List Bucket) (t : ℕ → Bucket)
      → m < 2 ^ h
      → k + suc n ≡ suc h
      → InPlace id p l k (x ∷ bs)
      → shr m k ≢ shr p k
      → (shr m k ≢ shr l k → copies id (t (node_at h m k)).blocks ≡ 0)
      → copies id (write_tree (nodes_from (suc n) h l k) (x ∷ bs) t (node_at h m k)).blocks ≡ 0
  unfolding can_place_in_bucket
  copies_head id p m n k x bs t b e place ne off = elim (eq-or-ne (shr m k) (shr l k)) [
    | inl same ↦
        rw (first_level n k x bs t m e b, eq→== _ _ same)
          (place.0 (==-ne (shr p k) (shr l k) (λ q. ne (same ∙ sym q))))
    | inr other ↦ rw (first_level n k x bs t m e b, other) (off (ne_of_== _ _ other))
  ]

  -- A block that is not remapped: what the old buckets of the written path held of it and its own
  -- path does not lose stays on its path, and what the new buckets hold of it lies there too.
  pub path_weight-write :
      (id p : ℕ) (w : Block → ℕ)
      → Supports id w
      → p < 2 ^ h
      → (n k : ℕ) (bs : List Bucket) (t : ℕ → Bucket) → k + n ≡ suc h
      → length bs ≡ n
      → InPlace id p l k bs
      → ((j : ℕ) → k ≤ j → j ≤ h → shr l j ≢ shr p j → copies id (t (node_at h l j)).blocks ≡ 0)
      → weigh_buckets w (path_of (write_tree (nodes_from n h l k) bs t) n h p k)
          + weigh_buckets w (path_of t n h l k)
        ≡ weigh_buckets w (path_of t n h p k) + weigh_buckets w bs
  unfolding write_tree nodes_from
  path_weight-write id p w s b zero k [] t e len place off = refl
  path_weight-write id p w s b zero k (x ∷ bs) t e len place off = absurd (omega arith)
  path_weight-write id p w s b (suc n) k [] t e len place off = absurd (omega arith)
  path_weight-write id p w s b (suc n) k (x ∷ bs) t e len place off =
      let t' : ℕ → Bucket = update t (node_at h l k) x in
      let later =
        path_weight-write id p w s b n (suc k) bs t' (omega arith) (omega arith)
          (InPlace-next id p k bs place.1)
          (λ j le lh ne. rw (update_above k j x t l l_small le lh) (off j (omega arith) lh ne)) in
      let here = head_weight id p w n k x bs t s b e place (off k (omega arith) (omega arith)) in
      omega (
        arith,
        here,
        rw
            (
              path_of-update n (suc k) x t p k (omega arith) b (omega arith),
              path_of-update n (suc k) x t l k (omega arith) l_small (omega arith),
            )
            at later,
      )

  -- A block that is remapped from the written path: all its copies are in the new buckets.
  pub path_weight-moved :
      (id p : ℕ) (w : Block → ℕ)
      → Supports id w
      → p < 2 ^ h
      → (n k : ℕ) (bs : List Bucket) (t : ℕ → Bucket) → k + n ≡ suc h
      → length bs ≡ n
      → InPlace id p l k bs
      → ((j : ℕ) → k ≤ j → j ≤ h → shr p j ≢ shr l j → copies id (t (node_at h p j)).blocks ≡ 0)
      → weigh_buckets w (path_of (write_tree (nodes_from n h l k) bs t) n h p k)
        ≡ weigh_buckets w bs
  unfolding write_tree nodes_from
  path_weight-moved id p w s b zero k [] t e len place off = refl
  path_weight-moved id p w s b zero k (x ∷ bs) t e len place off = absurd (omega arith)
  path_weight-moved id p w s b (suc n) k [] t e len place off = absurd (omega arith)
  path_weight-moved id p w s b (suc n) k (x ∷ bs) t e len place off =
      let t' : ℕ → Bucket = update t (node_at h l k) x in
      let later =
        path_weight-moved id p w s b n (suc k) bs t' (omega arith) (omega arith)
          (InPlace-next id p k bs place.1)
          (λ j le lh ne. rw (update_above k j x t p b le lh) (off j (omega arith) lh ne)) in
      omega
        (arith, later, moved_head id p w n k x bs t s b e place (off k (omega arith) (omega arith)))

  -- A node off the block's path holds no copy of it afterwards either.
  pub copies-write :
      (id p m : ℕ)
      → m < 2 ^ h
      → (n k : ℕ) (bs : List Bucket) (t : ℕ → Bucket) → k + n ≡ suc h
      → InPlace id p l k bs
      → length bs ≡ n
      → (j : ℕ) → k ≤ j
      → j ≤ h
      → shr m j ≢ shr p j
      → (shr m j ≢ shr l j → copies id (t (node_at h m j)).blocks ≡ 0)
      → copies id (write_tree (nodes_from n h l k) bs t (node_at h m j)).blocks ≡ 0
  unfolding write_tree nodes_from
  copies-write id p m b zero k bs t e place len j le lh ne off = absurd (omega arith)
  copies-write id p m b (suc n) k [] t e place len j le lh ne off = absurd (omega arith)
  copies-write id p m b (suc n) k (x ∷ bs) t e place len j le lh ne off = elim (eq-or-ne k j) [
    | inl same ↦
        subst
          (λ (i : ℕ).
            copies id (write_tree (nodes_from (suc n) h l k) (x ∷ bs) t (node_at h m i)).blocks ≡ 0)
          same
          (copies_head id p m n k x bs t b e place
            (subst (λ (i : ℕ). shr m i ≢ shr p i) (sym same) ne)
            (subst (λ (i : ℕ). shr m i ≢ shr l i → copies id (t (node_at h m i)).blocks ≡ 0)
              (sym same) off))
    | inr other ↦
        let above : k < j = omega (arith, ne_of_== k j other) in
        copies-write id p m b n (suc k) bs (update t (node_at h l k) x) (omega arith)
          (InPlace-next id p k bs place.1) (omega arith) j above lh ne
          (λ q. rw (update_above k j x t m b above lh) (off q))
  ]

-- A property that the old tree and the new buckets have, the new tree has.
pub write_tree_all :
    (P : Bucket → Type 0) (N : ℕ) (is : List ℕ) (bs : List Bucket) (t : ℕ → Bucket)
    → ((i : ℕ) → i < N → P (t i))
    → AllBuckets P bs
    → (i : ℕ) → i < N
    → P (write_tree is bs t i)
unfolding write_tree
write_tree_all P N [] bs t h k i lt = h i lt
write_tree_all P N (x ∷ is) [] t h k i lt = h i lt
write_tree_all P N (x ∷ is) (b ∷ bs) t h k i lt =
    write_tree_all P N is bs (update t x b) kept k.1 i lt
  where
    kept : (j : ℕ) → j < N → P (update t x b j)
    kept j lj = elim (Bool-cases (x == j)) [ inl e ↦ rw e k.0 | inr e ↦ rw e (h j lj) ]
