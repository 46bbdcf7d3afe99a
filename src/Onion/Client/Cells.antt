-- ===== src/Onion/Client/Cells.antt =====
-- A vector of vectors, read and written at two indices: the server's tree and the client's map of it.
use unified_oramhub.Base.{
  ℕ, zero, suc, ◌≡◌, refl, ap, List, [], ◌∷◌, Bool, false, ◌&&◌, ◌||◌, Option, none, some, arith,
  get_elem?, set, ◌==◌, if◌then◌else◌,
}

abbrev pub cell : {A : Type 0} → List (List A) → ℕ → ℕ → Option A
cell [] i j = none
cell (row ∷ rows) zero j = get_elem? row j
cell (row ∷ rows) (suc i) j = cell rows i j

abbrev pub put_cell : {A : Type 0} → List (List A) → ℕ → ℕ → A → List (List A)
put_cell [] i j v = []
put_cell (row ∷ rows) zero j v = set row j v ∷ rows
put_cell (row ∷ rows) (suc i) j v = row ∷ put_cell rows i j v

abbrev pub replaced : {A : Type 0} → A → Option A → Option A
replaced v none = none
replaced v (some old) = some v

-- Is the pair one of the cells of a path with a slot for each node?
unfoldable pub touched : List ℕ → List ℕ → ℕ → ℕ → Bool
touched [] slots i j = false
touched (n ∷ path) [] i j = false
touched (n ∷ path) (s ∷ slots) i j = (n == i && s == j) || touched path slots i j

unfoldable pub fill : {A : Type 0} → A → List (List A) → List ℕ → List ℕ → List (List A)
fill v rows [] slots = rows
fill v rows (n ∷ path) [] = rows
fill v rows (n ∷ path) (s ∷ slots) = fill v (put_cell rows n s v) path slots

module _ {A : Type 0} where
  get_elem?-set-replaced :
      (row : List A) (j k : ℕ) (v : A)
      → get_elem? (set row j v) k
        ≡ (if j == k then replaced v (get_elem? row k) else get_elem? row k)
  get_elem?-set-replaced [] j k v = ground arith
  get_elem?-set-replaced (x ∷ row) zero zero v = refl
  get_elem?-set-replaced (x ∷ row) zero (suc k) v = ground arith
  get_elem?-set-replaced (x ∷ row) (suc j) zero v = ground arith
  get_elem?-set-replaced (x ∷ row) (suc j) (suc k) v =
      ground (arith, get_elem?-set-replaced row j k v)

  pub cell-put_cell :
      (rows : List (List A)) (n s i j : ℕ) (v : A)
      → cell (put_cell rows n s v) i j
        ≡ (if n == i && s == j then replaced v (cell rows i j) else cell rows i j)
  cell-put_cell [] n s i j v = ground arith
  cell-put_cell (row ∷ rows) zero s zero j v = get_elem?-set-replaced row s j v
  cell-put_cell (row ∷ rows) zero s (suc i) j v = ground arith
  cell-put_cell (row ∷ rows) (suc n) s zero j v = ground arith
  cell-put_cell (row ∷ rows) (suc n) s (suc i) j v = ground (arith, cell-put_cell rows n s i j v)

  replaced_twice : (v : A) (o : Option A) → replaced v (replaced v o) ≡ replaced v o
  replaced_twice v none = refl
  replaced_twice v (some old) = refl

  pub cell-fill :
      (path slots : List ℕ) (rows : List (List A)) (i j : ℕ) (v : A)
      → cell (fill v rows path slots) i j
        ≡ (if touched path slots i j then replaced v (cell rows i j) else cell rows i j)
  unfolding fill touched
  cell-fill [] slots rows i j v = refl
  cell-fill (n ∷ path) [] rows i j v = refl
  cell-fill (n ∷ path) (s ∷ slots) rows i j v = ground (
    arith,
    cell-fill path slots (put_cell rows n s v) i j v,
    cell-put_cell rows n s i j v,
    replaced_twice v (cell rows i j),
  )

  -- The row of a cell.
  pub row_of :
      (rows : List (List A)) (i j : ℕ) (v : A)
      → cell rows i j ≡ some v
      → (row : List A) × ((get_elem? rows i ≡ some row) × (get_elem? row j ≡ some v))
  row_of [] i j v e = absurd (ground (arith, e))
  row_of (row ∷ rows) zero j v e = (row, (refl, e))
  row_of (row ∷ rows) (suc i) j v e = row_of rows i j v e

  pub cell-row :
      (rows : List (List A)) (i j : ℕ) (row : List A)
      → get_elem? rows i ≡ some row
      → cell rows i j ≡ get_elem? row j
  cell-row [] i j row e = ground (arith, e)
  cell-row (r ∷ rows) zero j row e = ap (λ o. get_elem? o j) (row_eq r row e)
    where
      row_eq : (a b : List A) → some a ≡ some b → a ≡ b
      row_eq a b e = ground (arith, e)
  cell-row (r ∷ rows) (suc i) j row e = cell-row rows i j row e

  -- The two nested writes of the program.
  pub set-put_cell :
      (rows : List (List A)) (i j : ℕ) (row : List A) (v : A)
      → get_elem? rows i ≡ some row
      → set rows i (set row j v) ≡ put_cell rows i j v
  set-put_cell [] i j row v e = refl
  set-put_cell (r ∷ rows) zero j row v e = ap (λ o. set o j v ∷ rows) (row_eq row r e)
    where
      row_eq : (a b : List A) → some b ≡ some a → a ≡ b
      row_eq a b e = ground (arith, e)
  set-put_cell (r ∷ rows) (suc i) j row v e = ap (λ rest. r ∷ rest) (set-put_cell rows i j row v e)
