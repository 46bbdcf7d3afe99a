-- ===== src/Ring/Bucket/Offsets.antt =====
-- The slot that the client reads of a bucket.
use mathlib.Core.Path.{subst}
use unified_oramhub.Base.{
  ℕ, zero, suc, ◌<◌, ◌≡◌, refl, sym, ap, ◌∙◌, ◌⊎◌, inl, inr, List, [], ◌∷◌, Bool, true, false, ◌&&◌,
  not, none, some, map, ok, arith, length, get_elem?, filter, ◌==◌, Bool-cases, Option-cases,
  get_elem?_total,
}
use unified_oramhub.Ring.{dummy_address}
use unified_oramhub.Ring.Bucket.{
  RingBucket, is_valid, entries, valid_real_offsets, valid_dummy_offsets, contains, find_offset,
  get_block_offset, any_entry, selected_target, iota,
}

find_offset_lem :
    (addr : ℕ) (valids : List Bool) (es : List (ℕ × ℕ)) (o : ℕ)
    → find_offset addr valids es ≡ some o
    → (is_valid valids o ≡ true) × (any_entry valids addr o es ≡ true)
unfolding find_offset any_entry
find_offset_lem addr valids [] o e = cc
find_offset_lem addr valids (x ∷ es) o e = elim (Bool-cases (x.0 == addr && is_valid valids x.1)) [
  | inl h ↦
      let same : x.1 ≡ o = ground (arith, h, e) in
      subst (λ k. (is_valid valids k ≡ true) × (any_entry valids addr k (x ∷ es) ≡ true)) same
        (ground (arith, h), ground (arith, h))
  | inr h ↦
      let later = find_offset_lem addr valids es o (ground (arith, h, e)) in
      (later.0, ground (arith, later.1))
]

-- The search ends without a slot only when no slot holds the block.
find_offset-none :
    (addr : ℕ) (valids : List Bool) (es : List (ℕ × ℕ)) (o : ℕ)
    → find_offset addr valids es ≡ none
    → any_entry valids addr o es ≡ false
unfolding find_offset any_entry
find_offset-none addr valids [] o e = refl
find_offset-none addr valids (x ∷ es) o e = elim (Bool-cases (x.0 == addr && is_valid valids x.1)) [
  | inl h ↦
      let found : find_offset addr valids (x ∷ es) ≡ some x.1 = rw (find_offset, h) refl in
      cc (e, found)
  | inr h ↦
      let later = find_offset-none addr valids es o (ground (arith, h, e)) in
      elim (Bool-cases (x.1 == o)) [
        | inl q ↦
            let same : x.1 ≡ o = ground (arith, q) in
            let missed : (x.0 == addr && is_valid valids o) ≡ false =
              subst (λ k. (x.0 == addr && is_valid valids k) ≡ false) same h in
            ground (arith, q, missed, later)
        | inr q ↦ ground (arith, q, later)
      ]
]

module _ {ℓ} {A : Type ℓ} (p : A → Bool) (x : A) where
  cons-get :
      (y : A) (zs : List A)
      → p y ≡ true
      → ((j : ℕ) → get_elem? zs j ≡ some x → p x ≡ true)
      → (i : ℕ) → get_elem? (y ∷ zs) i ≡ some x
      → p x ≡ true
  cons-get y zs h later zero e = let same : y ≡ x = cc in ap p (sym same) ∙ h
  cons-get y zs h later (suc i) e = later i e

  filter-get : (xs : List A) (i : ℕ) → get_elem? (filter p xs) i ≡ some x → p x ≡ true
  filter-get [] i e = cc
  filter-get (y ∷ ys) i e = elim (Bool-cases (p y)) [
    | inl h ↦
        let kept : filter p (y ∷ ys) ≡ y ∷ filter p ys = rw h refl in
        cons-get y (filter p ys) h (filter-get ys) i (ap (λ r. get_elem? r i) (sym kept) ∙ e)
    | inr h ↦
        let dropped : filter p (y ∷ ys) ≡ filter p ys = rw h refl in
        filter-get ys i (ap (λ r. get_elem? r i) (sym dropped) ∙ e)
  ]

dummy_slot :
    (b : RingBucket) (draw o : ℕ)
    → get_elem? (valid_dummy_offsets b) draw ≡ some o
    → (is_valid b.valids o ≡ true) × (contains (valid_real_offsets b) o ≡ false)
unfolding valid_dummy_offsets
dummy_slot b draw o e =
    let good =
      filter-get
        (λ offset. is_valid b.valids offset && not (contains (valid_real_offsets b) offset)) o
        (iota (length b.valids) 0) draw e in
    (ground (arith, good), ground (arith, good))

-- A slot that no valid entry of a block points to holds no block.
contains-any_entry :
    (valids : List Bool) (es : List (ℕ × ℕ)) (addr o : ℕ)
    → contains
        (map (λ e. e.1) (filter (λ e. not (e.0 == dummy_address) && is_valid valids e.1) es))
        o
      ≡ false
    → (any_entry valids addr o es && not (addr == dummy_address)) ≡ false
unfolding contains any_entry
contains-any_entry valids [] addr o e = refl
contains-any_entry valids (x ∷ es) addr o e =
    elim (Bool-cases (not (x.0 == dummy_address) && is_valid valids x.1)) [
      | inl h ↦
          let e' = rw h at e in
          let later = contains-any_entry valids es addr o (ground (arith, e')) in
          let apart : (x.1 == o) ≡ false = ground (arith, e') in ground (arith, apart, later)
      | inr h ↦
          let e' = rw h at e in
          let later = contains-any_entry valids es addr o e' in
          elim (Bool-cases (x.1 == o)) [
            | inl q ↦
                let same : x.1 ≡ o = ground (arith, q) in
                let missed : (not (x.0 == dummy_address) && is_valid valids o) ≡ false =
                  subst (λ k. (not (x.0 == dummy_address) && is_valid valids k) ≡ false) same h in
                ground (arith, q, missed, later)
            | inr q ↦ ground (arith, q, later)
          ]
    ]

-- No slot holds the block.
abbrev pub IsAbsent : RingBucket → ℕ → Type 0
IsAbsent b addr = (slot : ℕ) → selected_target b addr slot ≡ false

-- The slot holds no block, of whatever address.
abbrev pub IsDummySlot : RingBucket → ℕ → Type 0
IsDummySlot b slot =
    (addr : ℕ) → (selected_target b addr slot && not (addr == dummy_address)) ≡ false

-- When the draw is the number of a slot that is a valid dummy, the client chooses a valid slot
-- of the bucket, and either that slot holds the block, or no slot of the bucket holds it and the
-- chosen slot holds no block of an address other than the dummy address.
pub get_block_offset_lem :
    (b : RingBucket) (addr draw : ℕ)
    → draw < length (valid_dummy_offsets b)
    → (o : ℕ) × (get_block_offset b addr draw ≡ ok o)
      × (is_valid b.valids o ≡ true)
      × ((selected_target b addr o ≡ true) ⊎ (IsAbsent b addr × IsDummySlot b o))
unfolding get_block_offset selected_target valid_real_offsets
get_block_offset_lem b addr draw lt =
    let es = entries b.addrs b.ptrs in
    elim (Option-cases (find_offset addr b.valids es)) [
      | inl e ↦
          let (o, found) = get_elem?_total (valid_dummy_offsets b) draw lt in
          let (valid, free) = dummy_slot b draw o found in
          (
            o,
            rw (get_block_offset, e, found) (ground (arith, lt)),
            valid,
            inr (
              (λ slot. find_offset-none addr b.valids es slot e),
              (λ other. contains-any_entry b.valids es other o free),
            ),
          )
      | inr (o, e) ↦
          let (valid, held) = find_offset_lem addr b.valids es o e in
          (o, rw (get_block_offset, e) refl, valid, inl held)
    ]
