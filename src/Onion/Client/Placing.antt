-- ===== src/Onion/Client/Placing.antt =====
-- The end of an access: the block goes into a free slot of the root, under its new leaf.
use mathlib.Core.Path.{subst}
use unified_oramhub.Base.{
  ℕ, ◌<◌, ◌≡◌, refl, sym, ◌∙◌, ap, ◌⊎◌, inl, inr, List, true, false, ◌&&◌, Option, none, some, ◌==◌,
  arith, length, get_elem?, set, Bool-cases, eq-or-ne, get_elem?-set,
}
use unified_oramhub.Core.Memory.{Bytes}
use unified_oramhub.Tree.{get_path_from_root}
use unified_oramhub.Onion.{RuntimeConfig}
use unified_oramhub.Onion.Tfhe.{Tfhe, TfheLaws}
use unified_oramhub.Onion.Adapter.RoundTrip.{Encrypts, IsBytes}
use unified_oramhub.Onion.Ids.{Ids}
use unified_oramhub.Onion.Client.Cells.{cell, put_cell, cell-put_cell}
use unified_oramhub.Onion.Client.OnPath.{On, get_path_from_root-root}
use unified_oramhub.Onion.Client.Holding.{Holding, zeros, content_of}

module _ (tfhe : Tfhe) (laws : TfheLaws tfhe) (config : RuntimeConfig) (id_map : List Ids)
    (tree : List (List tfhe.Rlwe)) (pos : List ℕ) (memory memory' : ℕ → Bytes)
    (holding : Holding tfhe laws config id_map tree pos memory) (addr s leaf : ℕ) (c : tfhe.Rlwe)
    (gone : (i j : ℕ) → cell id_map i j ≡ some (some addr) → ⊥) (known : addr < length pos)
    (free : cell id_map 0 s ≡ some none)
    (others : (b : ℕ) → (addr == b) ≡ false → memory b ≡ memory' b) (bytes : IsBytes (memory' addr))
    (sized : length (memory' addr) ≡ config.block_size)
    (encrypts : Encrypts tfhe laws laws.fresh c (memory' addr)) where
  abbrev ids' : List Ids
  ids' = put_cell id_map 0 s (some addr)

  abbrev tree' : List (List tfhe.Rlwe)
  tree' = put_cell tree 0 s c

  at_slot : (i j : ℕ) → (0 == i && s == j) ≡ true → cell id_map i j ≡ some none
  at_slot i j h =
      ap (λ k. cell id_map k j) (ground (arith, h)) ∙ ap (cell id_map 0) (ground (arith, h)) ∙ free

  new_id : (i j : ℕ) → (0 == i && s == j) ≡ true → cell ids' i j ≡ some (some addr)
  new_id i j h = cell-put_cell id_map 0 s i j (some addr) ∙ rw (h, at_slot i j h) refl

  -- An identifier is the new one, or was there.
  new_or_old :
      (i j : ℕ) (id : Option ℕ)
      → cell ids' i j ≡ some id
      → (((0 == i && s == j) ≡ true) × (some addr ≡ id))
        ⊎ (((0 == i && s == j) ≡ false) × (cell id_map i j ≡ some id))
  new_or_old i j id e = elim (Bool-cases (0 == i && s == j)) [
    | inl h ↦ inl (h, ground (arith, new_id i j h, e))
    | inr h ↦ inr (h, ground (arith, cell-put_cell id_map 0 s i j (some addr), h, e))
  ]

  not_addr : (i j b : ℕ) → cell id_map i j ≡ some (some b) → (addr == b) ≡ false
  not_addr i j b e = elim (eq-or-ne addr b) [
    | inr ne ↦ ne
    | inl same ↦ absurd (gone i j (subst (λ a. cell id_map i j ≡ some (some a)) (sym same) e))
  ]

  new_stored :
      (i j : ℕ) (id : Option ℕ)
      → cell ids' i j ≡ some id
      → (d : tfhe.Rlwe) × ((cell tree' i j ≡ some d)
          × Encrypts tfhe laws laws.fresh d (content_of config memory' id))
  new_stored i j id e = elim (new_or_old i j id e) [
    | inl (h, is_new) ↦
        let before = holding.stored i j none (at_slot i j h) in
        (
          c,
          (
            ground (arith, cell-put_cell tree 0 s i j c, h, before.1.0),
            subst (λ id. Encrypts tfhe laws laws.fresh c (content_of config memory' id)) is_new
                encrypts,
          ),
        )
    | inr (h, old) ↦
        let before = holding.stored i j id old in
        (
          before.0,
          (
            ground (arith, cell-put_cell tree 0 s i j c, h, before.1.0),
            subst (Encrypts tfhe laws laws.fresh before.0) (same_content id old) before.1.1,
          ),
        )
  ]
    where
      same_content :
          (id : Option ℕ)
          → cell id_map i j ≡ some id
          → content_of config memory id ≡ content_of config memory' id
      same_content none e = refl
      same_content (some b) e = others b (not_addr i j b e)

  new_unique :
      (b i j i' j' : ℕ)
      → cell ids' i j ≡ some (some b)
      → cell ids' i' j' ≡ some (some b)
      → (i ≡ i') × (j ≡ j')
  new_unique b i j i' j' e e' = elim (new_or_old i j (some b) e) [
    | inl (h, n) ↦ elim (new_or_old i' j' (some b) e') [
      | inl (h', n') ↦ (ground (arith, h, h'), ground (arith, h, h'))
      | inr (h', o') ↦ ground (arith, n, not_addr i' j' b o')
    ]
    | inr (h, o) ↦ elim (new_or_old i' j' (some b) e') [
      | inl (h', n') ↦ ground (arith, n', not_addr i j b o)
      | inr (h', o') ↦ holding.unique b i j i' j' o o'
    ]
  ]

  Place : ℕ → ℕ → Type 0
  Place b i =
      (l : ℕ) × ((get_elem? (set pos addr leaf) b ≡ some l)
        × On i (get_path_from_root config.tree_height l))

  new_placed : (b i j : ℕ) → cell ids' i j ≡ some (some b) → Place b i
  unfolding Place
  new_placed b i j e = elim (new_or_old i j (some b) e) [
    | inl (h, n) ↦ (
      leaf,
      (ground (arith, n, get_elem?-set pos addr b leaf known), on_root i (ground (arith, h))),
    )
    | inr (h, o) ↦
        let before = holding.placed b i j o in
        (
          before.0,
          (
            ground (arith, get_elem?-set pos addr b leaf known, not_addr i j b o, before.1.0),
            before.1.1,
          ),
        )
  ]
    where
      on_root : (i : ℕ) → 0 ≡ i → On i (get_path_from_root config.tree_height leaf)
      on_root i e = subst (On i) (sym (get_path_from_root-root config.tree_height leaf).1) (inl e)

  new_absent : (b : ℕ) → ((i j : ℕ) → cell ids' i j ≡ some (some b) → ⊥) → memory' b ≡ zeros config
  new_absent b nowhere = elim (eq-or-ne addr b) [
    | inl e ↦ absurd (nowhere 0 s (new_id 0 s (ground arith) ∙ ap (λ a. some (some a)) e))
    | inr ne ↦
        sym (others b ne)
        ∙ holding.absent b (λ i j o. elim (Bool-cases (0 == i && s == j)) [
          | inl h ↦ ground (arith, at_slot i j h, o)
          | inr h ↦ nowhere i j (cell-put_cell id_map 0 s i j (some addr) ∙ rw h o)
        ])
  ]

  pub put_cell-Holding : Holding tfhe laws config ids' tree' (set pos addr leaf) memory'
  unfolding Place
  put_cell-Holding = record {
    narrow = λ i j id e. elim (new_or_old i j id e) [
      | inl (h, n) ↦ holding.narrow i j none (at_slot i j h)
      | inr (h, o) ↦ holding.narrow i j id o
    ];
    stored = new_stored;
    unique = new_unique;
    placed = new_placed;
    absent = new_absent;
    bytes = λ b. elim (eq-or-ne addr b) [
      | inl e ↦ subst (λ a. IsBytes (memory' a)) e bytes
      | inr ne ↦ subst IsBytes (others b ne) (holding.bytes b)
    ];
    sized = λ b. elim (eq-or-ne addr b) [
      | inl e ↦ subst (λ a. length (memory' a) ≡ config.block_size) e sized
      | inr ne ↦ subst (λ m. length m ≡ config.block_size) (others b ne) (holding.sized b)
    ];
  }
