-- ===== src/Onion/Client/Holding.antt =====
-- The state of Onion Ring ORAM as a memory: which block is in which slot of the tree.
use mathlib.Core.Path.{subst}
use unified_oramhub.Base.{
  ℕ, zero, suc, ◌<◌, ◌≡◌, refl, sym, ◌∙◌, ap, ◌⊎◌, inl, inr, List, [], ◌∷◌, true, false, Option,
  none, some, ok, arith, length, get_elem?, replicate, ◌==◌, Bool-cases, Option-cases, Result-cases,
  ==→eq, eq→==,
}
use unified_oramhub.Core.Memory.{Bytes}
use unified_oramhub.Tree.{get_path_from_root}
use unified_oramhub.Onion.{RuntimeConfig, bucket_slots}
use unified_oramhub.Onion.Tfhe.{Tfhe, TfheLaws}
use unified_oramhub.Onion.Adapter.RoundTrip.{IsBytes, Encrypts}
use unified_oramhub.Onion.Ids.{Ids, same_id, find_slot, select_slot, select_slots}
use unified_oramhub.Onion.Client.Cells.{cell, cell-row}
use unified_oramhub.Onion.Client.OnPath.{On}

abbrev pub zeros : RuntimeConfig → Bytes
zeros config = replicate config.block_size 0

-- What a slot with this identifier holds.
abbrev pub content_of : RuntimeConfig → (ℕ → Bytes) → Option ℕ → Bytes
content_of config memory none = zeros config
content_of config memory (some b) = memory b

pub record Holding (tfhe : Tfhe) (laws : TfheLaws tfhe) (config : RuntimeConfig) (id_map : List Ids)
    (tree : List (List tfhe.Rlwe)) (pos : List ℕ) (memory : ℕ → Bytes) : Type 0 where
  pub narrow : (i j : ℕ) (id : Option ℕ) → cell id_map i j ≡ some id → j < bucket_slots config
  pub stored :
      (i j : ℕ) (id : Option ℕ)
      → cell id_map i j ≡ some id
      → (c : tfhe.Rlwe) × ((cell tree i j ≡ some c)
          × Encrypts tfhe laws laws.fresh c (content_of config memory id))
  pub unique :
      (b i j i' j' : ℕ)
      → cell id_map i j ≡ some (some b)
      → cell id_map i' j' ≡ some (some b)
      → (i ≡ i') × (j ≡ j')
  pub placed :
      (b i j : ℕ)
      → cell id_map i j ≡ some (some b)
      → (leaf : ℕ) × ((get_elem? pos b ≡ some leaf)
          × On i (get_path_from_root config.tree_height leaf))
  pub absent : (b : ℕ) → ((i j : ℕ) → cell id_map i j ≡ some (some b) → ⊥) → memory b ≡ zeros config
  pub bytes : (b : ℕ) → IsBytes (memory b)
  pub sized : (b : ℕ) → length (memory b) ≡ config.block_size

-- The slot that an access selects in a bucket.
abbrev pub SelectedAt : List Ids → ℕ → ℕ → ℕ → Type 0
SelectedAt id_map addr n s =
    (cell id_map n s ≡ some (some addr))
    ⊎ ((cell id_map n s ≡ some none) × ((j : ℕ) → cell id_map n j ≡ some (some addr) → ⊥))

abbrev pub Selected : List Ids → ℕ → List ℕ → List ℕ → Type 0
Selected id_map addr [] [] = Unit {0}
Selected id_map addr [] (s ∷ slots) = ⊥
Selected id_map addr (n ∷ path) [] = ⊥
Selected id_map addr (n ∷ path) (s ∷ slots) =
    SelectedAt id_map addr n s × Selected id_map addr path slots

same_id_eq : (a b : Option ℕ) → same_id a b ≡ true → a ≡ b
same_id_eq none none e = refl
same_id_eq none (some b) e = ground (arith, e)
same_id_eq (some a) none e = ground (arith, e)
same_id_eq (some a) (some b) e = ap some (==→eq a b e)

same_id_self : (a : Option ℕ) → same_id a a ≡ true
same_id_self none = refl
same_id_self (some a) = eq→== a a refl

-- `FindSlot` finds the identifier, or there is none.
pub find_slot_cases :
    (ids : Ids) (id : Option ℕ)
    → (((find_slot ids id == length ids) ≡ false) × (get_elem? ids (find_slot ids id) ≡ some id))
      ⊎ (((find_slot ids id == length ids) ≡ true) × ((j : ℕ) → get_elem? ids j ≡ some id → ⊥))
unfolding find_slot
find_slot_cases [] id = inr (refl, λ j e. ground (arith, e))
find_slot_cases (x ∷ ids) id = elim (Bool-cases (same_id x id)) [
  | inl h ↦ rw h (inl (ground arith, ap some (same_id_eq x id h)))
  | inr h ↦ elim (find_slot_cases ids id) [
    | inl found ↦ rw h (inl (ground (arith, found.0), found.1))
    | inr missing ↦ rw h (inr (ground (arith, missing.0), later x h missing.1))
  ]
]
  where
    later :
        (x : Option ℕ)
        → same_id x id ≡ false
        → ((j : ℕ) → get_elem? ids j ≡ some id → ⊥)
        → (j : ℕ) → get_elem? (x ∷ ids) j ≡ some id
        → ⊥
    later x h all zero e =
        ground (arith, h, same_id_self id, ap (λ o. same_id o id) (some_eq x id e))
      where
        some_eq : (a b : Option ℕ) → some a ≡ some b → a ≡ b
        some_eq a b e = ground (arith, e)
    later x h all (suc j) e = all j e

select_slot-SelectedAt :
    (id_map : List Ids) (ids : Ids) (addr n s : ℕ)
    → get_elem? id_map n ≡ some ids
    → select_slot ids addr ≡ ok s
    → SelectedAt id_map addr n s
unfolding select_slot
select_slot-SelectedAt id_map ids addr n s row e = elim (find_slot_cases ids (some addr)) [
  | inl found ↦
      let same : find_slot ids (some addr) ≡ s = ground (arith, found.0, e) in
      inl (cell-row id_map n s ids row ∙ ap (get_elem? ids) (sym same) ∙ found.1)
  | inr missing ↦ elim (find_slot_cases ids none) [
    | inl free ↦
        let same : find_slot ids none ≡ s = ground (arith, missing.0, free.0, e) in
        inr (
          cell-row id_map n s ids row ∙ ap (get_elem? ids) (sym same) ∙ free.1,
          λ j o. missing.1 j (sym (cell-row id_map n j ids row) ∙ o),
        )
    | inr full ↦ ground (arith, missing.0, full.0, e)
  ]
]

pub select_slots-Selected :
    (id_map : List Ids) (path : List ℕ) (addr : ℕ) (slots : List ℕ)
    → select_slots id_map path addr ≡ ok slots
    → Selected id_map addr path slots
unfolding select_slots
select_slots-Selected id_map [] addr [] e = tt
select_slots-Selected id_map [] addr (s ∷ slots) e = ground (arith, e)
select_slots-Selected id_map (n ∷ path) addr slots e = elim (Option-cases (get_elem? id_map n)) [
  | inl h ↦ ground (arith, e, h)
  | inr (ids, h) ↦ elim (Result-cases (select_slot ids addr)) [
    | inr (x, f) ↦ ground (arith, e, h, f)
    | inl (s, f) ↦ elim (Result-cases (select_slots id_map path addr)) [
      | inr (x, g) ↦ ground (arith, e, h, f, g)
      | inl (rest, g) ↦
          let split : s ∷ rest ≡ slots = ground (arith, e, h, f, g) in
          subst (λ ss. Selected id_map addr (n ∷ path) ss) split
            (
              select_slot-SelectedAt id_map ids addr n s h f,
              select_slots-Selected id_map path addr rest g,
            )
    ]
  ]
]
