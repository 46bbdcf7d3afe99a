-- ===== src/Ring/Server/SpentSlots.antt =====
-- Which slots HandleXorPathSlots of RingORAMServer.cpp has given out, under any further requests.
use mathlib.Core.Path.{subst}
use unified_oramhub.Base.{
  ℕ, ◌+◌, ◌%◌, ◌≡◌, refl, ap, ◌∙◌, ◌⊎◌, inl, inr, List, [], ◌∷◌, some, Result, Error, ok, err,
  invalid_argument, length, get_elem?, replicate, ◌==◌, Bool-cases, Result-cases,
}
use unified_oramhub.Base.State.{continue}
use unified_oramhub.Core.Memory.{Bytes, u64_mod}
use unified_oramhub.Tree.{checked_path_from_root}
use unified_oramhub.Ring.{EncryptedRingBucket, RuntimeConfig}
use unified_oramhub.Ring.Storage.{Server}
use unified_oramhub.Ring.Server.{take_slots, handle_xor_path_slots}
use unified_oramhub.Ring.Server.SpentRounds.{
  SpentSlot, take_slots-keeps, take_slots-refuses, take_slots-spends,
}
use unified_oramhub.Ring.Server.Stored.{Stores, Stores-initialized}

-- The server after a list of requests for slots, each a leaf and its offsets. A request that
-- throws leaves what it has done.
unfoldable pub after_requests : List (ℕ × List ℕ) → Server → Server
after_requests [] s = s
after_requests (r ∷ rs) s = after_requests rs (handle_xor_path_slots r.0 r.1 s).1

ok-not-err : {A : Type 0} {a : A} {e : Error} (r : Result A) → r ≡ ok a → r ≡ err e → ⊥
ok-not-err r h h' = cc

-- The end of the handler: the two counters of the statistics.
abbrev counted : ℕ → Server → Server
counted n s = record s {
  xor_path_read_count = (s.xor_path_read_count + 1) % u64_mod;
  last_xor_path_slot_count = n;
}

SpentSlot-counted :
    {config : RuntimeConfig} {i o : ℕ} (n : ℕ) {s : Server}
    → SpentSlot config i o s
    → SpentSlot config i o (counted n s)
SpentSlot-counted n h = record {
  tree = h.tree;
  stored = record {
    same_config = h.stored.same_config;
    node_count_ok = h.stored.node_count_ok;
    has_dir = h.stored.has_dir;
    can_write = h.stored.can_write;
    on_disk = h.stored.on_disk;
    shaped = h.stored.shaped;
  };
  gone = h.gone;
}

continue-counted :
    {A : Type 0} {config : RuntimeConfig} {i o : ℕ} (n : ℕ) (r : Result A) (s : Server)
    → SpentSlot config i o s
    → SpentSlot config i o (continue r s (λ a s'. (ok a, counted n s'))).1
continue-counted n (ok a) s h = SpentSlot-counted n h
continue-counted n (err e) s h = h

module _ {config : RuntimeConfig} {i o : ℕ} where
  handle_xor_path_slots-outcome :
      (tree : ℕ → EncryptedRingBucket) (s : Server) (leaf : ℕ) (path offsets : List ℕ) (k : ℕ)
      → Stores config tree s
      → checked_path_from_root config.tree_depth leaf ≡ ok path
      → get_elem? path k ≡ some i
      → get_elem? offsets k ≡ some o
      → ((e : Error) × ((handle_xor_path_slots leaf offsets s).0 ≡ err e))
        ⊎ SpentSlot config i o (handle_xor_path_slots leaf offsets s).1
  unfolding handle_xor_path_slots
  handle_xor_path_slots-outcome tree s leaf path offsets k st found at at' =
      let found' : checked_path_from_root s.config.tree_depth leaf ≡ ok path =
        ap (λ c. checked_path_from_root c.tree_depth leaf) st.same_config ∙ found in
      let start : Bytes = replicate s.config.block_size 0 in
      elim (Bool-cases (length offsets == length path)) [
        | inr n ↦ inl (invalid_argument, rw (Stores-initialized st, found', n) refl)
        | inl count ↦ elim (take_slots-spends path offsets k start tree s st at at') [
          | inl (e, thrown) ↦ inl (e, rw (Stores-initialized st, found', count, thrown) refl)
          | inr h ↦ inr (
              rw (Stores-initialized st, found', count)
                (continue-counted (length offsets) (take_slots path offsets start s).0 _ h))
        ]
      ]

  -- A server that answered a request has given out its slots.
  handle_xor_path_slots-spends :
      (tree : ℕ → EncryptedRingBucket) (s s' : Server) (leaf : ℕ) (path offsets : List ℕ)
      (reply : Bytes × List Bytes) (k : ℕ)
      → Stores config tree s
      → handle_xor_path_slots leaf offsets s ≡ (ok reply, s')
      → checked_path_from_root config.tree_depth leaf ≡ ok path
      → get_elem? path k ≡ some i
      → get_elem? offsets k ≡ some o
      → SpentSlot config i o s'
  handle_xor_path_slots-spends tree s s' leaf path offsets reply k st run found at at' =
      elim (handle_xor_path_slots-outcome tree s leaf path offsets k st found at at') [
        | inl (e, thrown) ↦ absurd (ok-not-err _ (ap (λ r. r.0) run) thrown)
        | inr h ↦ subst (SpentSlot config i o) (ap (λ r. r.1) run) h
      ]

  handle_xor_path_slots-keeps :
      (leaf : ℕ) (offsets : List ℕ) (s : Server)
      → SpentSlot config i o s
      → SpentSlot config i o (handle_xor_path_slots leaf offsets s).1
  unfolding handle_xor_path_slots
  handle_xor_path_slots-keeps leaf offsets s h =
      let ready = Stores-initialized h.stored in
      elim (Result-cases (checked_path_from_root s.config.tree_depth leaf)) [
        | inr (e, n) ↦ rw (ready, n) h
        | inl (path, found) ↦ elim (Bool-cases (length offsets == length path)) [
          | inr n ↦ rw (ready, found, n) h
          | inl count ↦
              let start : Bytes = replicate s.config.block_size 0 in
              rw (ready, found, count)
                (continue-counted (length offsets) (take_slots path offsets start s).0 _
                  (take_slots-keeps path offsets start s h))
        ]
      ]

  after_requests-keeps :
      (rs : List (ℕ × List ℕ)) (s : Server)
      → SpentSlot config i o s
      → SpentSlot config i o (after_requests rs s)
  unfolding after_requests
  after_requests-keeps [] s h = h
  after_requests-keeps (r ∷ rs) s h =
      after_requests-keeps rs _ (handle_xor_path_slots-keeps r.0 r.1 s h)

  handle_xor_path_slots-refuses :
      (leaf : ℕ) (path offsets : List ℕ) (k : ℕ) (s : Server)
      → SpentSlot config i o s
      → checked_path_from_root config.tree_depth leaf ≡ ok path
      → get_elem? path k ≡ some i
      → get_elem? offsets k ≡ some o
      → (e : Error) × ((handle_xor_path_slots leaf offsets s).0 ≡ err e)
  unfolding handle_xor_path_slots
  handle_xor_path_slots-refuses leaf path offsets k s h found at at' =
      let found' : checked_path_from_root s.config.tree_depth leaf ≡ ok path =
        ap (λ c. checked_path_from_root c.tree_depth leaf) h.stored.same_config ∙ found in
      elim (Bool-cases (length offsets == length path)) [
        | inr n ↦ (invalid_argument, rw (Stores-initialized h.stored, found', n) refl)
        | inl count ↦
            let (e, thrown) =
              take_slots-refuses path offsets k (replicate s.config.block_size 0) s h at at' in
            (e, rw (Stores-initialized h.stored, found', count, thrown) refl)
      ]

-- When a server that stores a tree has answered a request for slots, no slot of it is read again
-- by such requests: after any list of requests for slots, for whatever leaves and also failing
-- ones, a request that asks for one of the slots given out throws.
pub handle_xor_path_slots_once :
    {config : RuntimeConfig} (tree : ℕ → EncryptedRingBucket) (s s' : Server) (leaf leaf' : ℕ)
    (path offsets path' offsets' : List ℕ) (reply : Bytes × List Bytes)
    (between : List (ℕ × List ℕ)) (i o k k' : ℕ)
    → Stores config tree s
    → handle_xor_path_slots leaf offsets s ≡ (ok reply, s')
    → checked_path_from_root config.tree_depth leaf ≡ ok path
    → get_elem? path k ≡ some i
    → get_elem? offsets k ≡ some o
    → checked_path_from_root config.tree_depth leaf' ≡ ok path'
    → get_elem? path' k' ≡ some i
    → get_elem? offsets' k' ≡ some o
    → (e : Error) × ((handle_xor_path_slots leaf' offsets' (after_requests between s')).0 ≡ err e)
handle_xor_path_slots_once {config} tree s s' leaf leaf' path offsets path' offsets' reply between i
      o k k' st run found at_k offset_k found' at_k' offset_k' =
    let gone : SpentSlot config i o s' =
      handle_xor_path_slots-spends tree s s' leaf path offsets reply k st run found at_k offset_k in
    handle_xor_path_slots-refuses leaf' path' offsets' k' (after_requests between s')
      (after_requests-keeps between s' gone) found' at_k' offset_k'
