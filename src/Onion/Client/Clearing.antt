-- ===== src/Onion/Client/Clearing.antt =====
-- HandleClearPath and the loop of Access over the client's map: what they write.
use unified_oramhub.Base.{
  ℕ, ◌<◌, ◌≡◌, refl, inl, inr, List, [], ◌∷◌, true, ◌&&◌, Option, none, some, ok, ltb, ◌==◌, arith,
  length, Bool-cases, get_elem?-lt_length,
}
use unified_oramhub.Onion.Tfhe.{Tfhe}
use unified_oramhub.Onion.Server.{Server, bucket_at, put_slot, clear_slots}
use unified_oramhub.Onion.Ids.{Ids, put_id, forget_ids}
use unified_oramhub.Onion.Client.Cells.{cell, put_cell, fill, cell-put_cell, row_of, set-put_cell}

-- A slot in every bucket of a path.
abbrev pub Present : {A : Type 0} → ℕ → List (List A) → List ℕ → List ℕ → Type 0
Present bound rows [] [] = Unit {0}
Present bound rows [] (s ∷ slots) = ⊥
Present bound rows (n ∷ path) [] = ⊥
Present {A} bound rows (n ∷ path) (s ∷ slots) =
    ((s < bound) × ((c : A) × (cell rows n s ≡ some c))) × Present bound rows path slots

still_there :
    {A : Type 0} (rows : List (List A)) (n s i j : ℕ) (v c : A)
    → cell rows i j ≡ some c
    → (d : A) × (cell (put_cell rows n s v) i j ≡ some d)
still_there rows n s i j v c e = elim (Bool-cases (n == i && s == j)) [
  | inl h ↦ (v, ground (arith, cell-put_cell rows n s i j v, h, e))
  | inr h ↦ (c, ground (arith, cell-put_cell rows n s i j v, h, e))
]

Present-put_cell :
    {A : Type 0} (bound : ℕ) (rows : List (List A)) (n s : ℕ) (v : A) (path slots : List ℕ)
    → Present bound rows path slots
    → Present bound (put_cell rows n s v) path slots
Present-put_cell bound rows n s v [] [] p = tt
Present-put_cell bound rows n s v [] (t ∷ slots) p = p
Present-put_cell bound rows n s v (m ∷ path) [] p = p
Present-put_cell bound rows n s v (m ∷ path) (t ∷ slots) p = (
  (p.0.0, still_there rows n s m t v p.0.1.0 p.0.1.1),
  Present-put_cell bound rows n s v path slots p.1,
)

pub clear_slots-fill :
    (tfhe : Tfhe) (bound : ℕ) (path slots : List ℕ) (s : Server tfhe)
    → Present bound s.tree path slots
    → clear_slots tfhe bound path slots s
      ≡ (ok tt, record s { tree = fill tfhe.clear s.tree path slots })
unfolding clear_slots put_slot bucket_at fill
clear_slots-fill tfhe bound [] [] s p = refl
clear_slots-fill tfhe bound [] (t ∷ slots) s p = elim p [ ]
clear_slots-fill tfhe bound (n ∷ path) [] s p = elim p [ ]
clear_slots-fill tfhe bound (n ∷ path) (t ∷ slots) s p =
    let row = row_of s.tree n t p.0.1.0 p.0.1.1 in
    let narrow : ltb t bound ≡ true = ground (arith, p.0.0) in
    let inside : ltb t (length row.0) ≡ true =
      ground (arith, get_elem?-lt_length row.0 t row.1.1) in
    rw (narrow, row.1.0, inside, set-put_cell s.tree n t row.0 tfhe.clear row.1.0)
      (clear_slots-fill tfhe bound path slots (record s { tree = put_cell s.tree n t tfhe.clear })
        (Present-put_cell bound s.tree n t tfhe.clear path slots p.1))

pub put_id-put_cell :
    (id_map : List Ids) (n t : ℕ) (id old : Option ℕ)
    → cell id_map n t ≡ some old
    → put_id id_map n t id ≡ ok (put_cell id_map n t id)
unfolding put_id
put_id-put_cell id_map n t id old e =
    let row = row_of id_map n t old e in
    let inside : ltb t (length row.0) ≡ true =
      ground (arith, get_elem?-lt_length row.0 t row.1.1) in
    rw (row.1.0, inside, set-put_cell id_map n t row.0 id row.1.0) refl

pub forget_ids-fill :
    (bound : ℕ) (path slots : List ℕ) (id_map : List Ids)
    → Present bound id_map path slots
    → forget_ids id_map path slots ≡ ok (fill none id_map path slots)
unfolding forget_ids fill
forget_ids-fill bound [] [] id_map p = refl
forget_ids-fill bound [] (t ∷ slots) id_map p = elim p [ ]
forget_ids-fill bound (n ∷ path) [] id_map p = elim p [ ]
forget_ids-fill bound (n ∷ path) (t ∷ slots) id_map p =
    rw (put_id-put_cell id_map n t none p.0.1.0 p.0.1.1) (
      forget_ids-fill bound path slots (put_cell id_map n t none)
        (Present-put_cell bound id_map n t none path slots p.1))
