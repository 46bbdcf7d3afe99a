-- ===== src/Onion/Waksman/Ranks.antt =====
-- The first loop of GenerateSwapBits, on any list of the right length.
use unified_oramhub.Base.{
  ℕ, zero, suc, ◌+◌, ◌<◌, ◌≡◌, refl, sym, ◌∙◌, ap, inl, inr, List, [], ◌∷◌, Bool, true, false, some,
  Result, ok, err, invalid_argument, arith, length, get_elem?, set, replicate, ltb, ◌==◌,
  Bool-cases, eq-or-ne, get_elem?-set, length-set, get_elem?_total, length-replicate, at,
  get_elem?-at,
}
use unified_oramhub.Onion.Waksman.{rank_loop}
use unified_oramhub.Onion.Waksman.Sorting.{IsArrangement}
use unified_oramhub.Onion.Waksman.Synthesis.{Holds}

pub at-Holds : (size : ℕ) (xs : List ℕ) → length xs ≡ size → Holds size xs (at xs)
at-Holds size xs e = record { sized = e; elements = λ p h. get_elem?-at xs p (omega arith) }

-- `rank` takes every index back to the destination it is read from.
pub record Ranked (size : ℕ) (x : ℕ → ℕ) (rank : List ℕ) : Type 0 where
  pub sized : length rank ≡ size
  pub inverse : (p : ℕ) → p < size → get_elem? rank (x p) ≡ some p

pub data Outcome (size : ℕ) (x : ℕ → ℕ) (result : Result (List ℕ)) : Type 0 where
  ranked : (rank : List ℕ) → result ≡ ok rank → Ranked size x rank → Outcome size x result
  rejected : result ≡ err invalid_argument → ¬ IsArrangement size x → Outcome size x result

-- Before destination `dest`.
record Seen (size : ℕ) (x : ℕ → ℕ) (dest : ℕ) (seen : List Bool) (rank : List ℕ) : Type 0 where
  seen_sized : length seen ≡ size
  rank_sized : length rank ≡ size
  inverse : (p : ℕ) → p < dest → get_elem? rank (x p) ≡ some p
  marked : (p : ℕ) → p < dest → get_elem? seen (x p) ≡ some true
  marks : (q : ℕ) → get_elem? seen q ≡ some true → (p : ℕ) × ((p < dest) × (x p ≡ q))

some-false : some false ≡ some true → ⊥
some-false e = ground (arith, e)

module _ (size : ℕ) (x : ℕ → ℕ) (dest : ℕ) (seen : List Bool) (rank : List ℕ)
    (s : Seen size x dest seen rank) (lt : x dest < size) where
  new : get_elem? seen (x dest) ≡ some false → (p : ℕ) → p < dest → (x dest == x p) ≡ false
  new f p h = elim (eq-or-ne (x dest) (x p)) [
    | inr ne ↦ ne
    | inl e ↦ absurd (some-false (sym f ∙ ap (get_elem? seen) e ∙ s.marked p h))
  ]

  Seen-step :
      get_elem? seen (x dest) ≡ some false
      → Seen size x (dest + 1) (set seen (x dest) true) (set rank (x dest) dest)
  Seen-step f = record {
    seen_sized = length-set seen (x dest) true ∙ s.seen_sized;
    rank_sized = length-set rank (x dest) dest ∙ s.rank_sized;
    inverse = λ p h. elim (eq-or-ne p dest) [
      | inl e ↦ ground (arith, e, ap x e, get_elem?-set rank (x dest) (x p) dest, s.rank_sized)
      | inr ne ↦ ground (
        arith,
        ne,
        get_elem?-set rank (x dest) (x p) dest,
        s.rank_sized,
        new f p (ground (arith, ne)),
        s.inverse p (ground (arith, ne)),
      )
    ];
    marked = λ p h. elim (eq-or-ne p dest) [
      | inl e ↦ ground (arith, e, ap x e, get_elem?-set seen (x dest) (x p) true, s.seen_sized)
      | inr ne ↦ ground (
        arith,
        ne,
        get_elem?-set seen (x dest) (x p) true,
        s.seen_sized,
        new f p (ground (arith, ne)),
        s.marked p (ground (arith, ne)),
      )
    ];
    marks = λ q e. elim (eq-or-ne (x dest) q) [
      | inl same ↦ (dest, (omega arith, same))
      | inr ne ↦
          let old =
            s.marks q (ground (arith, ne, e, get_elem?-set seen (x dest) q true, s.seen_sized)) in
          (old.0, (omega (arith, old.1.0), old.1.1))
    ];
  }

rank_loop-Outcome :
    (size : ℕ) (x : ℕ → ℕ) (qs : List ℕ) (dest : ℕ) (seen : List Bool) (rank : List ℕ)
    → dest + length qs ≡ size
    → ((k : ℕ) → k < length qs → at qs k ≡ x (dest + k))
    → Seen size x dest seen rank
    → Outcome size x (rank_loop size qs dest seen rank)
unfolding rank_loop
rank_loop-Outcome size x [] dest seen rank e h s =
    ranked rank refl (record { sized = s.rank_sized; inverse = λ p lt. s.inverse p (omega arith) })
rank_loop-Outcome size x (q ∷ qs) dest seen rank e h s =
    let here : q ≡ x dest = h 0 (omega arith) ∙ ap x (omega arith) in
    elim (Bool-cases (ltb q size)) [
      | inr big ↦
          rw big (rejected refl (λ a. ground (arith, big, here, a.bounded dest (omega arith))))
      | inl small ↦
          let lt : x dest < size = ground (arith, small, here) in
          let found = get_elem?_total seen (x dest) (omega (arith, s.seen_sized)) in
          elim (Bool-cases found.0) [
            | inl old ↦
                let mark = s.marks (x dest) (found.1 ∙ ap some old) in
                rw (small, here, found.1, old)
                  (rejected refl (λ a. omega (
                    arith,
                    a.different mark.0 dest (omega (arith, mark.1.0)) (omega arith) mark.1.1,
                    mark.1.0,
                  )))
            | inr fresh ↦
                rw (small, here, found.1, fresh)
                  (rank_loop-Outcome size x qs (dest + 1) (set seen (x dest) true)
                    (set rank (x dest) dest) (omega arith)
                    (λ k lt'. h (suc k) (omega arith) ∙ ap x (omega arith))
                    (Seen-step size x dest seen rank s lt (found.1 ∙ ap some fresh)))
          ]
    ]

no_mark : (n q : ℕ) → get_elem? (replicate n false) q ≡ some true → ⊥
no_mark zero q e = ground (arith, e)
no_mark (suc n) zero e = ground (arith, e)
no_mark (suc n) (suc q) e = no_mark n q e

pub rank_loop-start :
    (size : ℕ) (permutation : List ℕ)
    → length permutation ≡ size
    → Outcome size
        (at permutation)
        (rank_loop size permutation 0 (replicate size false) (replicate size 0))
rank_loop-start size permutation e =
    rank_loop-Outcome size (at permutation) permutation 0 (replicate size false) (replicate size 0)
      (omega arith) (λ k h. ap (at permutation) (omega arith))
      (record {
        seen_sized = length-replicate size false;
        rank_sized = length-replicate size 0;
        inverse = λ p h. absurd (omega arith);
        marked = λ p h. absurd (omega arith);
        marks = λ q m. absurd (no_mark size q m);
      })
