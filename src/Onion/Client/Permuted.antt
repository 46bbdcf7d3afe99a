-- ===== src/Onion/Client/Permuted.antt =====
-- The slots of a bucket in another order, with other samples for the same blocks.
use mathlib.Core.Path.{subst}
use unified_oramhub.Base.{
  ℕ, zero, suc, ◌<◌, ◌≡◌, refl, sym, ◌∙◌, ap, inl, inr, List, [], ◌∷◌, false, Option, none, some,
  ok, arith, length, get_elem?, set, ◌==◌, if◌then◌else◌, at, get_elem?-lt_length, get_elem?_total,
  eq→==, eq-or-ne,
}
use unified_oramhub.Core.Memory.{Bytes}
use unified_oramhub.Onion.{RuntimeConfig, bucket_slots}
use unified_oramhub.Onion.Tfhe.{Tfhe, TfheLaws}
use unified_oramhub.Onion.Adapter.RoundTrip.{Encrypts}
use unified_oramhub.Onion.Waksman.Sorting.{IsArrangement}
use unified_oramhub.Onion.Waksman.SwapBits.{IsPermutation, IsArrangement_onto}
use unified_oramhub.Onion.Ids.{Ids, permuted_ids, apply_permutation_to_ids}
use unified_oramhub.Onion.Rebuild.{permuted_samples}
use unified_oramhub.Onion.Client.Cells.{cell, cell-row}
use unified_oramhub.Onion.Client.Holding.{Holding, content_of}

-- `out` has the elements of `xs` where `x` says.
pub record Picks {A : Type 0} (xs : List A) (x : ℕ → ℕ) (n : ℕ) (out : List A) : Type 0 where
  pub sized : length out ≡ n
  pub picks : (p : ℕ) → p < n → get_elem? out p ≡ get_elem? xs (x p)

picks_cons :
    {A : Type 0} (xs : List A) (q : ℕ) (permutation : List ℕ) (a : A) (out : List A)
    → get_elem? xs q ≡ some a
    → ((p : ℕ) → p < length permutation → get_elem? out p ≡ get_elem? xs (at permutation p))
    → (p : ℕ) → p < suc (length permutation)
    → get_elem? (a ∷ out) p ≡ get_elem? xs (at (q ∷ permutation) p)
picks_cons xs q permutation a out e h zero lt = sym e
picks_cons xs q permutation a out e h (suc p) lt = h p (omega (arith, lt))

pub permuted_samples-Picks :
    (tfhe : Tfhe) (xs : List tfhe.Rlwe) (permutation : List ℕ)
    → ((p : ℕ) → p < length permutation → at permutation p < length xs)
    → (out : List tfhe.Rlwe) × ((permuted_samples tfhe xs permutation ≡ ok out)
        × Picks xs (at permutation) (length permutation) out)
unfolding permuted_samples
permuted_samples-Picks tfhe xs [] h =
    ([], (refl, record { sized = refl; picks = λ p lt. absurd (omega (arith, lt)) }))
permuted_samples-Picks tfhe xs (q ∷ permutation) h =
    let first = get_elem?_total xs q (h 0 (omega arith)) in
    let rest = permuted_samples-Picks tfhe xs permutation (λ p lt. h (suc p) (omega (arith, lt))) in
    (
      first.0 ∷ rest.0,
      (
        rw (first.1, rest.1.0) refl,
        record {
          sized = ap suc rest.1.1.sized;
          picks = picks_cons xs q permutation first.0 rest.0 first.1 rest.1.1.picks;
        },
      ),
    )

permuted_ids-Picks :
    (xs : Ids) (permutation : List ℕ)
    → ((p : ℕ) → p < length permutation → at permutation p < length xs)
    → (out : Ids) × ((permuted_ids xs permutation ≡ ok out)
        × Picks xs (at permutation) (length permutation) out)
unfolding permuted_ids
permuted_ids-Picks xs [] h =
    ([], (refl, record { sized = refl; picks = λ p lt. absurd (omega (arith, lt)) }))
permuted_ids-Picks xs (q ∷ permutation) h =
    let first = get_elem?_total xs q (h 0 (omega arith)) in
    let rest = permuted_ids-Picks xs permutation (λ p lt. h (suc p) (omega (arith, lt))) in
    (
      first.0 ∷ rest.0,
      (
        rw (first.1, rest.1.0) refl,
        record {
          sized = ap suc rest.1.1.sized;
          picks = picks_cons xs q permutation first.0 rest.0 first.1 rest.1.1.picks;
        },
      ),
    )

pub apply_permutation_to_ids-Picks :
    (n : ℕ) (xs : Ids) (permutation : List ℕ)
    → length xs ≡ n
    → IsPermutation n permutation
    → (out : Ids) × ((apply_permutation_to_ids xs permutation ≡ ok out)
        × Picks xs (at permutation) n out)
unfolding apply_permutation_to_ids
apply_permutation_to_ids-Picks n xs permutation e perm =
    let run =
      permuted_ids-Picks xs permutation
        (λ p lt. omega (arith, perm.arrangement.bounded p (omega (arith, lt, perm.sized)), e)) in
    (
      run.0,
      (
        rw (eq→== (length xs) (length permutation) (e ∙ sym perm.sized), run.1.0) refl,
        subst (λ k. Picks xs (at permutation) k run.0) perm.sized run.1.1,
      ),
    )

cell-set :
    {A : Type 0} (rows : List (List A)) (idx i j : ℕ) (row : List A)
    → idx < length rows
    → cell (set rows idx row) i j ≡ (if idx == i then get_elem? row j else cell rows i j)
cell-set [] idx i j row lt = absurd (omega (arith, lt))
cell-set (r ∷ rows) zero zero j row lt = refl
cell-set (r ∷ rows) zero (suc i) j row lt = ground arith
cell-set (r ∷ rows) (suc idx) zero j row lt = ground arith
cell-set (r ∷ rows) (suc idx) (suc i) j row lt =
    ground (arith, cell-set rows idx i j row (omega (arith, lt)))

module _ (tfhe : Tfhe) (laws : TfheLaws tfhe) (config : RuntimeConfig) (id_map : List Ids)
    (tree : List (List tfhe.Rlwe)) (pos : List ℕ) (memory : ℕ → Bytes)
    (holding : Holding tfhe laws config id_map tree pos memory) (idx : ℕ) (ids ids' : Ids)
    (bucket samples : List tfhe.Rlwe) (x : ℕ → ℕ) (row : get_elem? id_map idx ≡ some ids)
    (bucket_row : get_elem? tree idx ≡ some bucket) (whole : length ids ≡ bucket_slots config)
    (a : IsArrangement (bucket_slots config) x) (picked : Picks ids x (bucket_slots config) ids')
    (encrypted : (p : ℕ) (id : Option ℕ)
      → p < bucket_slots config
      → get_elem? ids (x p) ≡ some id
      → (c : tfhe.Rlwe) × ((get_elem? samples p ≡ some c)
          × Encrypts tfhe laws laws.fresh c (content_of config memory id))) where
  -- Where an identifier comes from.
  source : ℕ → ℕ → ℕ
  source i j = if idx == i then x j else j

  came_from :
      (i j : ℕ) (id : Option ℕ)
      → cell (set id_map idx ids') i j ≡ some id
      → cell id_map i (source i j) ≡ some id
  unfolding source
  came_from i j id e = elim (eq-or-ne idx i) [
    | inr ne ↦
        rw ne
          (ground (arith, cell-set id_map idx i j ids' (get_elem?-lt_length id_map idx row), ne, e))
    | inl same ↦
        let here : get_elem? ids' j ≡ some id =
          ground
            (arith, cell-set id_map idx i j ids' (get_elem?-lt_length id_map idx row), same, e) in
        let lt : j < bucket_slots config =
          omega (arith, get_elem?-lt_length ids' j here, picked.sized) in
        let test = eq→== idx i same in
        rw test (
          cell-row id_map i (x j) ids (ap (get_elem? id_map) (sym same) ∙ row)
          ∙ sym (picked.picks j lt)
          ∙ here)
  ]

  in_row :
      (i j : ℕ) (id : Option ℕ)
      → cell (set id_map idx ids') i j ≡ some id
      → idx ≡ i
      → (j < bucket_slots config) × (get_elem? ids (x j) ≡ some id)
  in_row i j id e same =
      let here : get_elem? ids' j ≡ some id =
        ground
          (arith, cell-set id_map idx i j ids' (get_elem?-lt_length id_map idx row), same, e) in
      let lt : j < bucket_slots config =
        omega (arith, get_elem?-lt_length ids' j here, picked.sized) in
      (lt, sym (picked.picks j lt) ∙ here)

  outside :
      (i j : ℕ) (id : Option ℕ)
      → cell (set id_map idx ids') i j ≡ some id
      → (idx == i) ≡ false
      → cell id_map i j ≡ some id
  outside i j id e ne =
      ground (arith, cell-set id_map idx i j ids' (get_elem?-lt_length id_map idx row), ne, e)

  new_stored :
      (i j : ℕ) (id : Option ℕ)
      → cell (set id_map idx ids') i j ≡ some id
      → (c : tfhe.Rlwe) × ((cell (set tree idx samples) i j ≡ some c)
          × Encrypts tfhe laws laws.fresh c (content_of config memory id))
  new_stored i j id e =
      let placed = cell-set tree idx i j samples (get_elem?-lt_length tree idx bucket_row) in
      elim (eq-or-ne idx i) [
        | inl same ↦
            let r = in_row i j id e same in
            let c = encrypted j id r.0 r.1 in (c.0, (ground (arith, placed, same, c.1.0), c.1.1))
        | inr ne ↦
            let c = holding.stored i j id (outside i j id e ne) in
            (c.0, (ground (arith, placed, ne, c.1.0), c.1.1))
      ]

  new_unique :
      (b i j i' j' : ℕ)
      → cell (set id_map idx ids') i j ≡ some (some b)
      → cell (set id_map idx ids') i' j' ≡ some (some b)
      → (i ≡ i') × (j ≡ j')
  unfolding source
  new_unique b i j i' j' e e' =
      let same =
        holding.unique b i (source i j) i' (source i' j') (came_from i j (some b) e)
          (came_from i' j' (some b) e') in
      (
        same.0,
        elim (eq-or-ne idx i) [
          | inl here ↦
              a.different j j' (in_row i j (some b) e here).0
                (in_row i' j' (some b) e' (here ∙ same.0)).0 (ground (arith, here, same.0, same.1))
          | inr ne ↦ ground (arith, ne, same.0, same.1)
        ],
      )

  new_absent :
      (b : ℕ)
      → ((i j : ℕ) → cell (set id_map idx ids') i j ≡ some (some b) → ⊥)
      → memory b ≡ content_of config memory none
  new_absent b nowhere = holding.absent b (λ i j o. elim (eq-or-ne idx i) [
    | inr ne ↦
        nowhere i j
          (ground (arith, cell-set id_map idx i j ids' (get_elem?-lt_length id_map idx row), ne, o))
    | inl same ↦
        let was : get_elem? ids j ≡ some (some b) =
          sym (cell-row id_map i j ids (ap (get_elem? id_map) (sym same) ∙ row)) ∙ o in
        let q =
          IsArrangement_onto (bucket_slots config) x j a
            (omega (arith, get_elem?-lt_length ids j was, whole)) in
        nowhere idx q.0 (
          ground (
            arith,
            cell-set id_map idx idx q.0 ids' (get_elem?-lt_length id_map idx row),
            picked.picks q.0 q.1.0,
            ap (get_elem? ids) q.1.1,
            was,
          ))
  ])

  pub set-Holding : Holding tfhe laws config (set id_map idx ids') (set tree idx samples) pos memory
  set-Holding = record {
    narrow = λ i j id e. elim (eq-or-ne idx i) [
      | inl same ↦ (in_row i j id e same).0
      | inr ne ↦ holding.narrow i j id (outside i j id e ne)
    ];
    stored = new_stored;
    unique = new_unique;
    placed = λ b i j e. holding.placed b i (source i j) (came_from i j (some b) e);
    absent = new_absent;
    bytes = holding.bytes;
    sized = holding.sized;
  }
