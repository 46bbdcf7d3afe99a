-- ===== src/Onion/Client/Cleared.antt =====
-- The memory after the path of a block was cleared: the block is nowhere, and all others are where they
-- were.
use mathlib.Core.Path.{subst}
use unified_oramhub.Base.{
  ℕ, ◌≡◌, refl, sym, ◌∙◌, ap, inl, inr, List, [], ◌∷◌, true, false, ◌&&◌, Option, none, some, ◌==◌,
  arith, get_elem?, at, update, Bool-cases, Option-cases, eq-or-ne, length-replicate, eq→==,
}
use unified_oramhub.Core.Memory.{Bytes}
use unified_oramhub.Tree.{get_path_from_root}
use unified_oramhub.Onion.{RuntimeConfig, bucket_slots}
use unified_oramhub.Onion.Tfhe.{Tfhe, TfheLaws}
use unified_oramhub.Onion.Torus.{Close-weaken}
use unified_oramhub.Onion.Adapter.RoundTrip.{Encrypts, at-replicate, clear-Encrypts}
use unified_oramhub.Onion.Ids.{Ids}
use unified_oramhub.Onion.Client.Cells.{cell, touched, fill, cell-fill}
use unified_oramhub.Onion.Client.OnPath.{On}
use unified_oramhub.Onion.Client.Holding.{Holding, Selected, SelectedAt, zeros, content_of}
use unified_oramhub.Onion.Client.Clearing.{Present}

pub selected_cell :
    (id_map : List Ids) (addr n s : ℕ)
    → SelectedAt id_map addr n s
    → (id : Option ℕ) × (cell id_map n s ≡ some id)
selected_cell id_map addr n s (inl own) = (some addr, own)
selected_cell id_map addr n s (inr free) = (none, free.0)

module _ (tfhe : Tfhe) (laws : TfheLaws tfhe) (config : RuntimeConfig) (id_map : List Ids)
    (tree : List (List tfhe.Rlwe)) (pos : List ℕ) (memory : ℕ → Bytes)
    (holding : Holding tfhe laws config id_map tree pos memory) (addr : ℕ) where
  pub Selected-Present :
      (path slots : List ℕ)
      → Selected id_map addr path slots
      → Present (bucket_slots config) id_map path slots
        × Present (bucket_slots config) tree path slots
  Selected-Present [] [] sel = (tt, tt)
  Selected-Present [] (s ∷ slots) sel = elim sel [ ]
  Selected-Present (n ∷ path) [] sel = elim sel [ ]
  Selected-Present (n ∷ path) (s ∷ slots) sel =
      let found = selected_cell id_map addr n s sel.0 in
      let rest = Selected-Present path slots sel.1 in
      let narrow = holding.narrow n s found.0 found.1 in
      let sample = holding.stored n s found.0 found.1 in
      (((narrow, found), rest.0), ((narrow, (sample.0, sample.1.0)), rest.1))

  own_touched :
      (path slots : List ℕ) (i j : ℕ)
      → Selected id_map addr path slots
      → On i path
      → cell id_map i j ≡ some (some addr)
      → touched path slots i j ≡ true
  unfolding touched
  own_touched [] slots i j sel o own = absurd o
  own_touched (n ∷ path) [] i j sel o own = elim sel [ ]
  own_touched (n ∷ path) (s ∷ slots) i j (at, sel) (inr later) own =
      ground (arith, own_touched path slots i j sel later own)
  own_touched (n ∷ path) (s ∷ slots) i j (inl here, sel) (inl same) own =
      ground (arith, holding.unique addr n s i j here own)
  own_touched (n ∷ path) (s ∷ slots) i j (inr free, sel) (inl same) own =
      absurd (free.1 j (subst (λ k. cell id_map k j ≡ some (some addr)) (sym same) own))

  -- Only the block itself and free slots are selected.
  touched-cell :
      (path slots : List ℕ) (i j b : ℕ)
      → Selected id_map addr path slots
      → touched path slots i j ≡ true
      → cell id_map i j ≡ some (some b)
      → b ≡ addr
  unfolding touched
  touched-cell [] slots i j b sel t e = ground (arith, t)
  touched-cell (n ∷ path) [] i j b sel t e = elim sel [ ]
  touched-cell (n ∷ path) (s ∷ slots) i j b (at, sel) t e = elim (Bool-cases (n == i && s == j)) [
    | inr h ↦ touched-cell path slots i j b sel (ground (arith, h, t)) e
    | inl h ↦
        let same : cell id_map n s ≡ cell id_map i j =
          ap (λ k. cell id_map k s) (ground (arith, h)) ∙ ap (cell id_map i) (ground (arith, h)) in
        elim at [
          | inl own ↦ ground (arith, same, own, e)
          | inr free ↦ ground (arith, same, free.0, e)
        ]
  ]

  module _ (path slots : List ℕ) (sel : Selected id_map addr path slots) where
    -- An identifier of the map after it stood there before, and its slot was not touched.
    kept :
        (i j b : ℕ)
        → cell (fill none id_map path slots) i j ≡ some (some b)
        → (cell id_map i j ≡ some (some b)) × (touched path slots i j ≡ false)
    kept i j b e = elim (Bool-cases (touched path slots i j)) [
      | inl t ↦ elim (Option-cases (cell id_map i j)) [
        | inl n ↦ ground (arith, cell-fill path slots id_map i j none, t, n, e)
        | inr (old, o) ↦ ground (arith, cell-fill path slots id_map i j none, t, o, e)
      ]
      | inr f ↦ (ground (arith, cell-fill path slots id_map i j none, f, e), f)
    ]

    abbrev Stored : List Ids → List (List tfhe.Rlwe) → (ℕ → Bytes) → ℕ → ℕ → Option ℕ → Type 0
    Stored ids samples mem i j id =
        (c : tfhe.Rlwe) × ((cell samples i j ≡ some c)
          × Encrypts tfhe laws laws.fresh c (content_of config mem id))

    was_there :
        (i j : ℕ) (id : Option ℕ)
        → cell (fill none id_map path slots) i j ≡ some id
        → (old : Option ℕ) × (cell id_map i j ≡ some old)
    was_there i j id e = elim (Option-cases (cell id_map i j)) [
      | inr found ↦ found
      | inl n ↦ elim (Bool-cases (touched path slots i j)) [
        | inl t ↦ ground (arith, cell-fill path slots id_map i j none, t, n, e)
        | inr f ↦ ground (arith, cell-fill path slots id_map i j none, f, n, e)
      ]
    ]

    cleared_slot :
        (i j : ℕ) (old : Option ℕ)
        → cell id_map i j ≡ some old
        → touched path slots i j ≡ true
        → Stored
            (fill none id_map path slots)
            (fill tfhe.clear tree path slots)
            (update memory addr (zeros config))
            i
            j
            none
    cleared_slot i j old o t =
        let before = holding.stored i j old o in
        (
          tfhe.clear,
          (
            ground (arith, cell-fill path slots tree i j tfhe.clear, t, before.1.0),
            λ k lt.
                Close-weaken 0 laws.fresh _ _ (omega arith)
                  (clear-Encrypts tfhe laws config.block_size k lt),
          ),
        )

    module _ (leaf : ℕ) (at_leaf : get_elem? pos addr ≡ some leaf)
        (is_path : path ≡ get_path_from_root config.tree_height leaf) where
      own_is_touched :
          (i j : ℕ) → cell id_map i j ≡ some (some addr) → touched path slots i j ≡ true
      own_is_touched i j own =
          let place = holding.placed addr i j own in
          let same : place.0 ≡ leaf = ground (arith, place.1.0, at_leaf) in
          own_touched path slots i j sel
            (subst (On i) (sym is_path)
              (subst (λ l. On i (get_path_from_root config.tree_height l)) same place.1.1))
            own

      pub addr_is_gone : (i j : ℕ) → cell (fill none id_map path slots) i j ≡ some (some addr) → ⊥
      addr_is_gone i j e = let k = kept i j addr e in ground (arith, k.1, own_is_touched i j k.0)

      other_block :
          (i j b : ℕ) → cell (fill none id_map path slots) i j ≡ some (some b) → (addr == b) ≡ false
      other_block i j b e = elim (eq-or-ne addr b) [
        | inr ne ↦ ne
        | inl same ↦ absurd (
            addr_is_gone i j
              (subst (λ a. cell (fill none id_map path slots) i j ≡ some (some a)) (sym same) e))
      ]

      untouched_slot :
          (i j : ℕ) (id : Option ℕ)
          → cell (fill none id_map path slots) i j ≡ some id
          → touched path slots i j ≡ false
          → Stored
              (fill none id_map path slots)
              (fill tfhe.clear tree path slots)
              (update memory addr (zeros config))
              i
              j
              id
      untouched_slot i j id e f =
          let was : cell id_map i j ≡ some id =
            ground (arith, cell-fill path slots id_map i j none, f, e) in
          let before = holding.stored i j id was in
          (
            before.0,
            (
              ground (arith, cell-fill path slots tree i j tfhe.clear, f, before.1.0),
              subst (Encrypts tfhe laws laws.fresh before.0) (same_content id e) before.1.1,
            ),
          )
        where
          same_content :
              (id : Option ℕ)
              → cell (fill none id_map path slots) i j ≡ some id
              → content_of config memory id
                ≡ content_of config (update memory addr (zeros config)) id
          same_content none e = refl
          same_content (some b) e = rw (other_block i j b e) refl

      touched_is_none :
          (i j : ℕ) (old id : Option ℕ)
          → cell id_map i j ≡ some old
          → touched path slots i j ≡ true
          → cell (fill none id_map path slots) i j ≡ some id
          → none ≡ id
      touched_is_none i j old id o t e =
          ground (arith, cell-fill path slots id_map i j none, t, o, e)

      after-Stored :
          (i j : ℕ) (id : Option ℕ)
          → cell (fill none id_map path slots) i j ≡ some id
          → Stored
              (fill none id_map path slots)
              (fill tfhe.clear tree path slots)
              (update memory addr (zeros config))
              i
              j
              id
      after-Stored i j id e = elim (Bool-cases (touched path slots i j)) [
        | inr f ↦ untouched_slot i j id e f
        | inl t ↦
            let was = was_there i j id e in
            subst
              (Stored (fill none id_map path slots) (fill tfhe.clear tree path slots)
                (update memory addr (zeros config)) i j)
              (touched_is_none i j was.0 id was.1 t e) (cleared_slot i j was.0 was.1 t)
      ]

      after_absent :
          (b : ℕ)
          → ((i j : ℕ) → cell (fill none id_map path slots) i j ≡ some (some b) → ⊥)
          → update memory addr (zeros config) b ≡ zeros config
      after_absent b gone = elim (eq-or-ne addr b) [
        | inl e ↦ rw (e, eq→== b b refl) refl
        | inr ne ↦ rw ne (
            holding.absent b (λ i j here. elim (Bool-cases (touched path slots i j)) [
              | inl t ↦ ground (arith, ne, touched-cell path slots i j b sel t here)
              | inr f ↦ gone i j (cell-fill path slots id_map i j none ∙ (rw f here))
            ]))
      ]

      pub fill-Holding :
          Holding tfhe laws config
            (fill none id_map path slots)
            (fill tfhe.clear tree path slots)
            pos
            (update memory addr (zeros config))
      fill-Holding = record {
        narrow = λ i j id e. let was = was_there i j id e in holding.narrow i j was.0 was.1;
        stored = after-Stored;
        unique =
            λ b i j i' j' e e'. holding.unique b i j i' j' (kept i j b e).0 (kept i' j' b e').0;
        placed = λ b i j e. holding.placed b i j (kept i j b e).0;
        absent = after_absent;
        bytes = λ b. elim (Bool-cases (addr == b)) [
          | inl e ↦ rw e (λ i. let z = at-replicate config.block_size i in omega (arith, z))
          | inr ne ↦ rw ne (holding.bytes b)
        ];
        sized = λ b. elim (Bool-cases (addr == b)) [
          | inl e ↦ rw e (length-replicate config.block_size 0)
          | inr ne ↦ rw ne (holding.sized b)
        ];
      }

-- The slot of the root that was selected is free.
pub root_cleared :
    (id_map : List Ids) (addr : ℕ) (path slots rest : List ℕ)
    → path ≡ 0 ∷ rest
    → Selected id_map addr path slots
    → (s : ℕ) × (cell (fill none id_map path slots) 0 s ≡ some none)
unfolding touched
root_cleared id_map addr [] slots rest e sel = ground (arith, e)
root_cleared id_map addr (n ∷ path) [] rest e sel = elim sel [ ]
root_cleared id_map addr (n ∷ path) (s ∷ slots) rest e sel =
    let root : n ≡ 0 = ground (arith, e) in
    let hit : touched (n ∷ path) (s ∷ slots) 0 s ≡ true = ground (arith, root) in
    let old = selected_cell id_map addr n s sel.0 in
    let there : cell id_map 0 s ≡ some old.0 = ap (λ k. cell id_map k s) (sym root) ∙ old.1 in
    (s, ground (arith, cell-fill (n ∷ path) (s ∷ slots) id_map 0 s none, hit, there))
