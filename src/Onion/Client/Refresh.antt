-- ===== src/Onion/Client/Refresh.antt =====
-- OnionRingClient::LeafRefresh on a world that holds a memory.
use mathlib.Core.Path.{subst}
use unified_oramhub.Base.{
  ℕ, zero, suc, ◌+◌, ◌*◌, ◌≤◌, ◌<◌, ◌≡◌, refl, sym, ◌∙◌, ap, List, [], ◌∷◌, Option, none, some, ok,
  arith, length, get_elem?, set, at, length-replicate,
}
use unified_oramhub.Core.Memory.{Bytes}
use unified_oramhub.Onion.{bucket_slots}
use unified_oramhub.Onion.Tfhe.{Tfhe, TfheLaws}
use unified_oramhub.Onion.Torus.{unit}
use unified_oramhub.Onion.Adapter.{client_context, decrypt_block}
use unified_oramhub.Onion.Adapter.RoundTrip.{
  Encrypts, IsBytes, at-replicate, encrypt_block-Encrypts, decrypt_block-Encrypts,
}
use unified_oramhub.Onion.Waksman.{indices}
use unified_oramhub.Onion.Waksman.SwapBits.{IsPermutation}
use unified_oramhub.Onion.Ids.{Ids, apply_permutation_to_ids}
use unified_oramhub.Onion.Rebuild.{permuted_samples}
use unified_oramhub.Onion.Client.{
  Random, RandomLaws, World, make_random_permutation, encrypt_fresh, ids_of, refresh_all,
  leaf_refresh,
}
use unified_oramhub.Onion.Client.Cells.{cell-row}
use unified_oramhub.Onion.Client.Holding.{content_of}
use unified_oramhub.Onion.Client.Taking.{Budget}
use unified_oramhub.Onion.Client.Access.{Holds}
use unified_oramhub.Onion.Client.Rows.{fetch_bucket_ciphertexts_lem, write_bucket_ciphertexts_lem}
use unified_oramhub.Onion.Client.Permuted.{
  Picks, permuted_samples-Picks, apply_permutation_to_ids-Picks, set-Holding,
}

-- The identifier at an index, and none beyond the end.
abbrev id_at : Ids → ℕ → Option ℕ
id_at [] p = none
id_at (id ∷ ids) zero = id
id_at (id ∷ ids) (suc p) = id_at ids p

get_elem?-id_at : (ids : Ids) (p : ℕ) → p < length ids → get_elem? ids p ≡ some (id_at ids p)
get_elem?-id_at [] p h = elim h [ ]
get_elem?-id_at (id ∷ ids) zero h = refl
get_elem?-id_at (id ∷ ids) (suc p) h = get_elem?-id_at ids p (omega (arith, h))

less_noise : (h f : ℕ) → 2 * ((h + 1) * f) < unit → 2 * f < unit
less_noise h f lt = let e : (h + 1) * f ≡ h * f + f = grind arith in omega (arith, lt, e)

module _ (tfhe : Tfhe) (laws : TfheLaws tfhe) (random : Random) where
  -- Samples of the blocks that `blocks` gives for their indices.
  abbrev Samples : List tfhe.Rlwe → (ℕ → Bytes) → Type 0
  Samples bucket blocks =
      (p : ℕ)
      → p < length bucket
      → (c : tfhe.Rlwe) × ((get_elem? bucket p ≡ some c)
          × Encrypts tfhe laws laws.fresh c (blocks p))

  abbrev with_noise : World tfhe random → ℕ → World tfhe random
  with_noise w n = record w { client = record w.client { noise = n } }

  record Refreshed (w : World tfhe random) (bucket : List tfhe.Rlwe) (blocks : ℕ → Bytes)
      : Type 0 where
    out : List tfhe.Rlwe
    later : ℕ
    returns : refresh_all tfhe random bucket w ≡ (ok out, with_noise w later)
    sized : length out ≡ length bucket
    samples : Samples out blocks

  samples_cons :
      (d : tfhe.Rlwe) (out : List tfhe.Rlwe) (blocks : ℕ → Bytes)
      → Encrypts tfhe laws laws.fresh d (blocks 0)
      → Samples out (λ p. blocks (suc p))
      → Samples (d ∷ out) blocks
  samples_cons d out blocks e h zero lt = (d, (refl, e))
  samples_cons d out blocks e h (suc p) lt = h p (omega (arith, lt))

  refresh_all-Refreshed :
      (bucket : List tfhe.Rlwe) (w : World tfhe random) (blocks : ℕ → Bytes)
      → Budget tfhe laws w.client.config
      → ((p : ℕ) → IsBytes (blocks p))
      → ((p : ℕ) → length (blocks p) ≡ w.client.config.block_size)
      → Samples bucket blocks
      → Refreshed w bucket blocks
  unfolding refresh_all encrypt_fresh
  refresh_all-Refreshed [] w blocks budget bytes sizes h = record {
    out = [];
    later = w.client.noise;
    returns = refl;
    sized = refl;
    samples = λ p lt. absurd (omega (arith, lt));
  }
  refresh_all-Refreshed (c ∷ bucket) w blocks budget bytes sizes h =
      let size = sizes 0 in
      let first = h 0 (omega arith) in
      let same : first.0 ≡ c = ground (arith, first.1.0) in
      let fits : length (blocks 0) ≤ tfhe.dimension = omega (arith, size, budget.fits) in
      let plain : decrypt_block tfhe c client_context w.client.config.block_size ≡ ok (blocks 0) =
        subst (λ n. decrypt_block tfhe c client_context n ≡ ok (blocks 0)) size
          (decrypt_block-Encrypts tfhe laws (blocks 0) fits (bytes 0) c laws.fresh
            (subst (λ d. Encrypts tfhe laws laws.fresh d (blocks 0)) same first.1.1)
            (less_noise w.client.config.tree_height laws.fresh budget.quiet)) in
      let again = encrypt_block-Encrypts tfhe laws (blocks 0) fits (bytes 0) w.client.noise in
      let rest =
        refresh_all-Refreshed bucket (with_noise w (w.client.noise + 1)) (λ p. blocks (suc p))
          budget (λ p. bytes (suc p)) (λ p. sizes (suc p))
          (λ p lt. h (suc p) (omega (arith, lt))) in
      record {
        out = again.0 ∷ rest.out;
        later = rest.later;
        returns = rw (plain, again.1.0, rest.returns) refl;
        sized = ap suc rest.sized;
        samples = samples_cons again.0 rest.out blocks again.1.1 rest.samples;
      }

  module _ (random_laws : RandomLaws random) (w : World tfhe random) (memory : ℕ → Bytes)
      (holds : Holds tfhe laws random w memory) (idx : ℕ) (ids : Ids) (bucket : List tfhe.Rlwe)
      (row : get_elem? w.client.id_map idx ≡ some ids)
      (bucket_row : get_elem? w.server.tree idx ≡ some bucket)
      (whole : length ids ≡ bucket_slots w.client.config)
      (bucket_whole : length bucket ≡ bucket_slots w.client.config) where
    abbrev contents : ℕ → Bytes
    contents p = content_of w.client.config memory (id_at ids p)

    slot-IsBytes :
        (id : Option ℕ)
        → IsBytes (content_of w.client.config memory id)
          × (length (content_of w.client.config memory id) ≡ w.client.config.block_size)
    slot-IsBytes none = (
      (λ i. let z = at-replicate w.client.config.block_size i in omega (arith, z)),
      length-replicate w.client.config.block_size 0,
    )
    slot-IsBytes (some b) = (holds.holding.bytes b, holds.holding.sized b)

    before : Samples bucket contents
    before p lt =
        let known = get_elem?-id_at ids p (omega (arith, lt, whole, bucket_whole)) in
        let there = cell-row w.client.id_map idx p ids row ∙ known in
        let slot = holds.holding.stored idx p (id_at ids p) there in
        (slot.0, (sym (cell-row w.server.tree idx p bucket bucket_row) ∙ slot.1.0, slot.1.1))

    refreshed : Refreshed w bucket contents
    refreshed =
        refresh_all-Refreshed bucket w contents holds.budget (λ p. (slot-IsBytes (id_at ids p)).0)
          (λ p. (slot-IsBytes (id_at ids p)).1) before

    abbrev permutation : List ℕ
    permutation = (random.shuffle (indices (bucket_slots w.client.config) 0) w.client.prng).0

    is_permutation : IsPermutation (bucket_slots w.client.config) permutation
    is_permutation = random_laws.shuffle-IsPermutation (bucket_slots w.client.config) w.client.prng

    output :
        (out : List tfhe.Rlwe) × ((permuted_samples tfhe refreshed.out permutation ≡ ok out)
          × Picks refreshed.out (at permutation) (length permutation) out)
    output = permuted_samples-Picks tfhe refreshed.out permutation (λ p lt. omega (
      arith,
      is_permutation.arrangement.bounded p (omega (arith, lt, is_permutation.sized)),
      refreshed.sized,
      bucket_whole,
    ))

    new_ids :
        (out : Ids) × ((apply_permutation_to_ids ids permutation ≡ ok out)
          × Picks ids (at permutation) (bucket_slots w.client.config) out)
    new_ids =
        apply_permutation_to_ids-Picks (bucket_slots w.client.config) ids permutation whole
          is_permutation

    encrypted :
        (p : ℕ) (id : Option ℕ)
        → p < bucket_slots w.client.config
        → get_elem? ids (at permutation p) ≡ some id
        → (c : tfhe.Rlwe) × ((get_elem? output.0 p ≡ some c)
            × Encrypts tfhe laws laws.fresh c (content_of w.client.config memory id))
    encrypted p id lt e =
        let inside = is_permutation.arrangement.bounded p lt in
        let sample =
          refreshed.samples (at permutation p)
            (omega (arith, inside, refreshed.sized, bucket_whole)) in
        let same : id_at ids (at permutation p) ≡ id =
          ground
            (arith, get_elem?-id_at ids (at permutation p) (omega (arith, inside, whole)), e) in
        (
          sample.0,
          (
            output.1.1.picks p (omega (arith, lt, is_permutation.sized)) ∙ sample.1.0,
            subst
                (λ i. Encrypts tfhe laws laws.fresh sample.0 (content_of w.client.config memory i))
                same sample.1.1,
          ),
        )

    -- The world after the refresh.
    abbrev after : World tfhe random
    after = record w {
      client = record w.client {
        noise = refreshed.later;
        prng = (random.shuffle (indices (bucket_slots w.client.config) 0) w.client.prng).1;
        id_map = set w.client.id_map idx new_ids.0;
      };
      server = record w.server { tree = set w.server.tree idx output.0 };
    }

    abbrev shuffled : World tfhe random
    shuffled = record w {
      client = record w.client {
        noise = refreshed.later;
        prng = (random.shuffle (indices (bucket_slots w.client.config) 0) w.client.prng).1;
      };
    }

    -- In a world that holds a memory, LeafRefresh of a bucket of which both sides have the
    -- configured number of slots succeeds and leaves a world that holds the same memory,
    -- whatever permutation the shuffle gives.
    pub leaf_refresh-Holds :
        (w' : World tfhe random) × ((leaf_refresh tfhe random idx w ≡ (ok tt, w'))
          × Holds tfhe laws random w' memory)
    unfolding leaf_refresh make_random_permutation ids_of
    leaf_refresh-Holds =
        let fetches =
          fetch_bucket_ciphertexts_lem tfhe laws random idx w bucket bucket_row bucket_whole in
        let writes =
          write_bucket_ciphertexts_lem tfhe laws random idx shuffled bucket output.0 bucket_row
            bucket_whole (output.1.1.sized ∙ is_permutation.sized) in
        (
          after,
          (
            rw (fetches, refreshed.returns, row, output.1.0, writes, new_ids.1.0) refl,
            record {
              same_config = holds.same_config;
              budget = holds.budget;
              positions = holds.positions;
              holding =
                  set-Holding tfhe laws w.client.config w.client.id_map w.server.tree
                    w.client.pos_map memory holds.holding idx ids new_ids.0 bucket output.0
                    (at permutation) row bucket_row whole is_permutation.arrangement new_ids.1.1
                    encrypted;
            },
          ),
        )
