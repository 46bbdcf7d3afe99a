-- ===== src/Onion/Client/Rows.antt =====
-- Whole buckets between client and server: what FetchBucketCiphertexts reads and what
-- WriteBucketCiphertexts writes.
use unified_oramhub.Base.{
  ℕ, zero, suc, ◌+◌, ◌≤◌, ◌<◌, ◌≡◌, refl, sym, ◌∙◌, ap, List, [], ◌∷◌, ◌++◌, map, true, some, ok,
  arith, length, get_elem?, set, ltb, get_elem?-lt_length, length-set, length-append, append_assoc,
  eq→==, get_elem?-set,
}
use unified_oramhub.Onion.{bucket_slots}
use unified_oramhub.Onion.Tfhe.{Tfhe, TfheLaws}
use unified_oramhub.Onion.Server.{
  bucket_at, put_slot, checked_bucket, handle_read_bucket, handle_write_slot, receive_slots,
}
use unified_oramhub.Onion.Client.{
  Random, World, fetch_bucket_ciphertexts, write_back_slot, write_slots, write_bucket_ciphertexts,
}

module _ {A : Type 0} where
  -- Elements written one after the other from index `k` on.
  unfoldable pub overlay : List A → ℕ → List A → List A
  overlay row k [] = row
  overlay row k (c ∷ cs) = overlay (set row k c) (k + 1) cs

  set-append :
      (front : List A) (x v : A) (back : List A) (n : ℕ)
      → length front ≡ n
      → set (front ++ x ∷ back) n v ≡ front ++ v ∷ back
  set-append [] x v back zero e = refl
  set-append [] x v back (suc n) e = absurd (omega (arith, e))
  set-append (p ∷ front) x v back zero e = absurd (omega (arith, e))
  set-append (p ∷ front) x v back (suc n) e =
      ap (λ r. p ∷ r) (set-append front x v back n (omega (arith, e)))

  overlay_all :
      (cs front back : List A) (n : ℕ)
      → length front ≡ n
      → length back ≡ length cs
      → overlay (front ++ back) n cs ≡ front ++ cs
  unfolding overlay
  overlay_all [] front [] n e l = refl
  overlay_all [] front (x ∷ back) n e l = absurd (omega (arith, l))
  overlay_all (c ∷ cs) front [] n e l = absurd (omega (arith, l))
  overlay_all (c ∷ cs) front (x ∷ back) n e l =
      rw
        (
          set-append front x c back n e,
          sym (append_assoc front (c ∷ []) back),
          sym (append_assoc front (c ∷ []) cs),
        )
        (overlay_all cs (front ++ c ∷ []) back (n + 1)
          (omega (arith, length-append front (c ∷ []), e)) (omega (arith, l)))

  set_same : (rows : List A) (i : ℕ) (row : A) → get_elem? rows i ≡ some row → set rows i row ≡ rows
  set_same [] i row e = refl
  set_same (r ∷ rows) zero row e = ground (arith, e)
  set_same (r ∷ rows) (suc i) row e = ap (λ rest. r ∷ rest) (set_same rows i row e)

  set_again : (rows : List A) (i : ℕ) (a b : A) → set (set rows i a) i b ≡ set rows i b
  set_again [] i a b = refl
  set_again (r ∷ rows) zero a b = refl
  set_again (r ∷ rows) (suc i) a b = ap (λ rest. r ∷ rest) (set_again rows i a b)

receive_slots-map :
    (tfhe : Tfhe) (laws : TfheLaws tfhe) (n : ℕ) (bucket : List tfhe.Rlwe)
    → length bucket ≡ n
    → receive_slots tfhe n (map tfhe.export_tlwe bucket) ≡ ok bucket
unfolding receive_slots
receive_slots-map tfhe laws zero [] e = refl
receive_slots-map tfhe laws zero (c ∷ bucket) e = absurd (omega (arith, e))
receive_slots-map tfhe laws (suc n) [] e = absurd (omega (arith, e))
receive_slots-map tfhe laws (suc n) (c ∷ bucket) e =
    rw (receive_slots-map tfhe laws n bucket (omega (arith, e)), laws.import-export_tlwe c) refl

module _ (tfhe : Tfhe) (laws : TfheLaws tfhe) (random : Random) (idx : ℕ) where
  pub fetch_bucket_ciphertexts_lem :
      (w : World tfhe random) (bucket : List tfhe.Rlwe)
      → get_elem? w.server.tree idx ≡ some bucket
      → length bucket ≡ bucket_slots w.client.config
      → fetch_bucket_ciphertexts tfhe random idx w ≡ (ok bucket, w)
  unfolding fetch_bucket_ciphertexts handle_read_bucket checked_bucket bucket_at
  fetch_bucket_ciphertexts_lem w bucket at_idx size =
      let there : ltb idx (length w.server.tree) ≡ true =
        ground (arith, get_elem?-lt_length w.server.tree idx at_idx) in
      rw (there, at_idx, receive_slots-map tfhe laws (bucket_slots w.client.config) bucket size)
        refl

  -- The world with another bucket at `idx`.
  abbrev pub rebuilt : World tfhe random → List tfhe.Rlwe → World tfhe random
  rebuilt w bucket = record w { server = record w.server { tree = set w.server.tree idx bucket } }

  write_one :
      (w : World tfhe random) (bucket : List tfhe.Rlwe) (slot : ℕ) (c : tfhe.Rlwe)
      → get_elem? w.server.tree idx ≡ some bucket
      → slot < length bucket
      → write_back_slot tfhe random idx slot c w ≡ (ok tt, rebuilt w (set bucket slot c))
  unfolding write_back_slot handle_write_slot checked_bucket put_slot bucket_at
  write_one w bucket slot c at_idx lt =
      let there : ltb idx (length w.server.tree) ≡ true =
        ground (arith, get_elem?-lt_length w.server.tree idx at_idx) in
      let inside : ltb slot (length bucket) ≡ true = ground (arith, lt) in
      rw (there, at_idx, inside, laws.import-export_tlwe c, at_idx, inside) refl

  write_slots_lem :
      (cs : List tfhe.Rlwe) (w : World tfhe random) (bucket : List tfhe.Rlwe) (slot : ℕ)
      → get_elem? w.server.tree idx ≡ some bucket
      → slot + length cs ≤ length bucket
      → write_slots tfhe random idx slot cs w ≡ (ok tt, rebuilt w (overlay bucket slot cs))
  unfolding write_slots overlay
  write_slots_lem [] w bucket slot at_idx le = rw (set_same w.server.tree idx bucket at_idx) refl
  write_slots_lem (c ∷ cs) w bucket slot at_idx le =
      let next : get_elem? (set w.server.tree idx (set bucket slot c)) idx
          ≡ some (set bucket slot c) =
        ground (
          arith,
          get_elem?-set w.server.tree idx idx (set bucket slot c)
              (get_elem?-lt_length w.server.tree idx at_idx),
        ) in
      let rest =
        write_slots_lem cs (rebuilt w (set bucket slot c)) (set bucket slot c) (slot + 1) next
          (omega (arith, le, length-set bucket slot c)) in
      rw
        (
          write_one w bucket slot c at_idx (omega (arith, le)),
          rest,
          set_again w.server.tree idx (set bucket slot c)
              (overlay (set bucket slot c) (slot + 1) cs),
        )
        refl

  pub write_bucket_ciphertexts_lem :
      (w : World tfhe random) (bucket cs : List tfhe.Rlwe)
      → get_elem? w.server.tree idx ≡ some bucket
      → length bucket ≡ bucket_slots w.client.config
      → length cs ≡ bucket_slots w.client.config
      → write_bucket_ciphertexts tfhe random idx cs w ≡ (ok tt, rebuilt w cs)
  unfolding write_bucket_ciphertexts
  write_bucket_ciphertexts_lem w bucket cs at_idx size size' =
      rw
        (
          eq→== (length cs) (bucket_slots w.client.config) size',
          write_slots_lem cs w bucket 0 at_idx (omega (arith, size, size')),
          overlay_all cs [] bucket 0 refl (size ∙ sym size'),
        )
        refl
