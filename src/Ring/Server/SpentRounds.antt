-- ===== src/Ring/Server/SpentRounds.antt =====
-- Which slots the loop of HandleXorPathSlots of RingORAMServer.cpp has given out, and keeps so.
use mathlib.Core.Path.{subst}
use unified_oramhub.Base.{
  ℕ, zero, suc, ◌≡◌, refl, ap, ◌∙◌, ◌⊎◌, inl, inr, List, [], ◌∷◌, Bool, true, false, some, Option,
  Result, Error, ok, err, get_elem?, update, get_elem?-lt_length,
}
use unified_oramhub.Base.State.{continue}
use unified_oramhub.Core.Memory.{Bytes}
use unified_oramhub.Ring.{EncryptedRingBucket, RuntimeConfig}
use unified_oramhub.Ring.Storage.{Server}
use unified_oramhub.Ring.Server.{take_slots}
use unified_oramhub.Ring.Server.Rounds.{Spent, Taken, spend-Spent, first-Spent, take_slot-cases}
use unified_oramhub.Ring.Server.Stored.{Stores, spend}

-- The server stores a tree in which the slot `o` of bucket `i` was given out.
pub record SpentSlot (config : RuntimeConfig) (i o : ℕ) (s : Server) : Type 0 where
  pub tree : ℕ → EncryptedRingBucket
  pub stored : Stores config tree s
  pub gone : Spent tree i o

valid-not-gone : (v : Option Bool) → v ≡ some true → v ≡ some false → ⊥
valid-not-gone v e e' = cc

Taken-first :
    {config : RuntimeConfig} {tree : ℕ → EncryptedRingBucket} {idx offset : ℕ} {acc : Bytes}
    {s : Server} (t : Taken config tree idx offset acc s)
    → SpentSlot config idx offset t.next
Taken-first {config} {tree} {idx} {offset} t = record {
  tree = update tree idx (spend (tree idx) offset);
  stored = t.stored;
  gone = first-Spent tree idx offset (get_elem?-lt_length (tree idx).valids offset t.was_valid);
}

-- What comes after a round does not change the state it left.
continue-keeps :
    {A B : Type 0} (P : Server → Type 0) (r : Result A) (s : Server) (f : A → B)
    → P s
    → P (continue r s (λ a s'. (ok (f a), s'))).1
continue-keeps P (ok a) s f h = h
continue-keeps P (err e) s f h = h

module _ {config : RuntimeConfig} {i o : ℕ} where
  Taken-SpentSlot :
      {tree : ℕ → EncryptedRingBucket} {idx offset : ℕ} {acc : Bytes} {s : Server}
      (t : Taken config tree idx offset acc s)
      → Spent tree i o
      → SpentSlot config i o t.next
  Taken-SpentSlot {tree} {idx} {offset} t gone = record {
    tree = update tree idx (spend (tree idx) offset);
    stored = t.stored;
    gone =
        spend-Spent tree idx offset i o (get_elem?-lt_length (tree idx).valids offset t.was_valid)
          gone;
  }

  -- A slot that was given out stays so, whatever is asked for.
  pub take_slots-keeps :
      (path offsets : List ℕ) (acc : Bytes) (s : Server)
      → SpentSlot config i o s
      → SpentSlot config i o (take_slots path offsets acc s).1
  unfolding take_slots
  take_slots-keeps [] offsets acc s h = h
  take_slots-keeps (x ∷ xs) [] acc s h = h
  take_slots-keeps (x ∷ xs) (k ∷ ks) acc s h = elim (take_slot-cases h.stored x k acc) [
    | inl (e, run) ↦ rw run h
    | inr t ↦ rw t.run (
        continue-keeps (SpentSlot config i o) (take_slots xs ks t.reply.0 t.next).0 _ _
          (take_slots-keeps xs ks t.reply.0 t.next (Taken-SpentSlot t h.gone)))
  ]

  -- A request that asks for it throws.
  pub take_slots-refuses :
      (path offsets : List ℕ) (k : ℕ) (acc : Bytes) (s : Server)
      → SpentSlot config i o s
      → get_elem? path k ≡ some i
      → get_elem? offsets k ≡ some o
      → (e : Error) × ((take_slots path offsets acc s).0 ≡ err e)
  unfolding take_slots
  take_slots-refuses [] offsets k acc s h at at' = cc
  take_slots-refuses (x ∷ xs) [] k acc s h at at' = cc
  take_slots-refuses (x ∷ xs) (y ∷ ys) zero acc s h at at' =
      elim (take_slot-cases h.stored x y acc) [
        | inl (e, run) ↦ (e, rw run refl)
        | inr t ↦
            let bucket : x ≡ i = cc in
            let slot : y ≡ o = cc in
            let gone : get_elem? (h.tree x).valids y ≡ some false =
              ap (λ j. get_elem? (h.tree j).valids y) bucket
              ∙ ap (get_elem? (h.tree i).valids) slot
              ∙ h.gone in
            absurd (valid-not-gone _ t.was_valid gone)
      ]
  take_slots-refuses (x ∷ xs) (y ∷ ys) (suc k) acc s h at at' =
      elim (take_slot-cases h.stored x y acc) [
        | inl (e, run) ↦ (e, rw run refl)
        | inr t ↦
            let (e, thrown) =
              take_slots-refuses xs ys k t.reply.0 t.next (Taken-SpentSlot t h.gone) at at' in
            (e, rw (t.run, thrown) refl)
      ]

  -- A request that asks for a slot throws, or the slot is given out.
  pub take_slots-spends :
      (path offsets : List ℕ) (k : ℕ) (acc : Bytes) (tree : ℕ → EncryptedRingBucket) (s : Server)
      → Stores config tree s
      → get_elem? path k ≡ some i
      → get_elem? offsets k ≡ some o
      → ((e : Error) × ((take_slots path offsets acc s).0 ≡ err e))
        ⊎ SpentSlot config i o (take_slots path offsets acc s).1
  unfolding take_slots
  take_slots-spends [] offsets k acc tree s st at at' = cc
  take_slots-spends (x ∷ xs) [] k acc tree s st at at' = cc
  take_slots-spends (x ∷ xs) (y ∷ ys) zero acc tree s st at at' =
      elim (take_slot-cases st x y acc) [
        | inl (e, run) ↦ inl (e, rw run refl)
        | inr t ↦
            let bucket : x ≡ i = cc in
            let slot : y ≡ o = cc in
            let here : SpentSlot config i o t.next =
              subst (λ j. SpentSlot config j o t.next) bucket
                (subst (λ j. SpentSlot config x j t.next) slot (Taken-first t)) in
            inr (
              rw t.run (
                continue-keeps (SpentSlot config i o) (take_slots xs ys t.reply.0 t.next).0 _ _
                  (take_slots-keeps xs ys t.reply.0 t.next here)))
      ]
  take_slots-spends (x ∷ xs) (y ∷ ys) (suc k) acc tree s st at at' =
      elim (take_slot-cases st x y acc) [
        | inl (e, run) ↦ inl (e, rw run refl)
        | inr t ↦ elim (take_slots-spends xs ys k t.reply.0 _ t.next t.stored at at') [
          | inl (e, thrown) ↦ inl (e, rw (t.run, thrown) refl)
          | inr h ↦ inr (
              rw t.run
                (continue-keeps (SpentSlot config i o) (take_slots xs ys t.reply.0 t.next).0 _ _ h))
        ]
      ]
