-- ===== src/Onion/Client/Taking.antt =====
-- The two halves of an access: the block is read and taken out of the tree, and put into the root.
use mathlib.Core.Path.{subst}
use unified_oramhub.Base.{
  ℕ, ◌+◌, ◌*◌, ◌≤◌, ◌<◌, ◌≡◌, refl, ◌∙◌, ap, inl, inr, List, true, false, none, some, ok, ltb, ◌==◌,
  arith, length, get_elem?, get_elem?-lt_length,
}
use unified_oramhub.Core.Memory.{Bytes}
use unified_oramhub.Tree.{get_path_from_root}
use unified_oramhub.Onion.{RuntimeConfig, bucket_slots}
use unified_oramhub.Onion.Tfhe.{Tfhe, TfheLaws}
use unified_oramhub.Onion.Torus.{unit}
use unified_oramhub.Onion.Adapter.{client_context, encrypt_block, decrypt_block}
use unified_oramhub.Onion.Adapter.RoundTrip.{
  Encrypts, IsBytes, clear-Encrypts, encrypt_block-Encrypts, decrypt_block-Encrypts,
}
use unified_oramhub.Onion.Server.{
  bucket_at, put_slot, checked_bucket, handle_access, handle_clear_path, handle_write_slot,
}
use unified_oramhub.Onion.Ids.{Ids, find_slot, select_slots}
use unified_oramhub.Onion.Client.{
  Random, World, encrypt_fresh, fetch_path_sum, clear_path_slots, write_back_slot, ids_of,
  root_slot_of, make_room, find_root_slot, take_block, put_block,
}
use unified_oramhub.Onion.Client.Cells.{cell, put_cell, fill, row_of, cell-row, set-put_cell}
use unified_oramhub.Onion.Client.OnPath.{On, get_path_from_root-Distinct, length-get_path_from_root}
use unified_oramhub.Onion.Client.Holding.{
  Holding, Selected, zeros, select_slots-Selected, find_slot_cases,
}
use unified_oramhub.Onion.Client.PathSum.{
  Missing, Summed, path_sum-Summed, receive_selections-Selected,
}
use unified_oramhub.Onion.Client.Clearing.{clear_slots-fill, forget_ids-fill, put_id-put_cell}
use unified_oramhub.Onion.Client.Cleared.{Selected-Present}

-- TFHE's parameters are large enough: a block fits a polynomial, and the noise of a slot in every
-- bucket of a path is less than half a message.
pub record Budget (tfhe : Tfhe) (laws : TfheLaws tfhe) (config : RuntimeConfig) : Type 0 where
  pub fits : config.block_size ≤ tfhe.dimension
  pub quiet : 2 * ((config.tree_height + 1) * laws.fresh) < unit

module _ (tfhe : Tfhe) (laws : TfheLaws tfhe) (random : Random) (w : World tfhe random)
    (same : w.server.config ≡ w.client.config) (budget : Budget tfhe laws w.client.config)
    (pos : List ℕ) (memory : ℕ → Bytes)
    (holding : Holding tfhe laws w.client.config w.client.id_map w.server.tree pos memory)
    (addr : ℕ) where
  abbrev path_to : ℕ → List ℕ
  path_to leaf = get_path_from_root w.client.config.tree_height leaf

  -- The world without the block.
  abbrev pub taken : ℕ → List ℕ → World tfhe random
  taken leaf slots = record w {
    client = record w.client { id_map = fill none w.client.id_map (path_to leaf) slots };
    server = record w.server { tree = fill tfhe.clear w.server.tree (path_to leaf) slots };
  }

  module _ (leaf : ℕ) (slots : List ℕ) (at_leaf : get_elem? pos addr ≡ some leaf)
      (selects : select_slots w.client.id_map (path_to leaf) addr ≡ ok slots) where
    selected : Selected w.client.id_map addr (path_to leaf) slots
    selected = select_slots-Selected w.client.id_map (path_to leaf) addr slots selects

    not-Missing :
        Missing tfhe laws w.client.config w.client.id_map w.server.tree pos memory holding addr
          (path_to leaf)
        → memory addr ≡ zeros w.client.config
    not-Missing miss = holding.absent addr (λ i j own.
        let place = holding.placed addr i j own in
        let equal : place.0 ≡ leaf = ground (arith, place.1.0, at_leaf) in
        miss i j (subst (λ l. On i (path_to l)) equal place.1.1) own)

    summed :
        Summed tfhe laws w.client.config w.client.id_map w.server.tree pos memory holding addr
          (path_to leaf)
          slots
          tfhe.clear
          0
          (memory addr)
    summed =
        path_sum-Summed tfhe laws w.client.config w.client.id_map w.server.tree pos memory holding
          addr (path_to leaf) slots tfhe.clear 0 selected (get_path_from_root-Distinct _ leaf)
          not-Missing (clear-Encrypts tfhe laws w.client.config.block_size)

    sum_decrypts :
        decrypt_block tfhe summed.sample client_context w.client.config.block_size
        ≡ ok (memory addr)
    sum_decrypts =
        let size = holding.sized addr in
        subst (λ n. decrypt_block tfhe summed.sample client_context n ≡ ok (memory addr)) size
          (decrypt_block-Encrypts tfhe laws (memory addr) (omega (arith, size, budget.fits))
            (holding.bytes addr) summed.sample _ summed.encrypts
            (omega (
              arith,
              budget.quiet,
              ap (λ n. n * laws.fresh) (length-get_path_from_root w.client.config.tree_height leaf),
            )))

    pub take_block_lem : take_block tfhe random leaf addr w ≡ (ok (memory addr), taken leaf slots)
    unfolding take_block fetch_path_sum clear_path_slots handle_access handle_clear_path
    take_block_lem =
        let present =
          Selected-Present tfhe laws w.client.config w.client.id_map w.server.tree pos memory
            holding addr (path_to leaf) slots selected in
        let receives =
          receive_selections-Selected tfhe laws w.client.config w.client.id_map w.server.tree pos
            memory holding addr (path_to leaf) slots selected in
        rw
          (
            same,
            selects,
            receives,
            summed.returns,
            laws.import-export_tlwe summed.sample,
            clear_slots-fill tfhe (bucket_slots w.client.config) (path_to leaf) slots
                (record w.server { config = w.client.config }) present.1,
            forget_ids-fill (bucket_slots w.client.config) (path_to leaf) slots w.client.id_map
                present.0,
            sum_decrypts,
          )
          refl

-- The root has a free slot, and the block is nowhere.
module _ (tfhe : Tfhe) (laws : TfheLaws tfhe) (random : Random) (w : World tfhe random)
    (budget : Budget tfhe laws w.client.config) (pos : List ℕ) (memory : ℕ → Bytes)
    (holding : Holding tfhe laws w.client.config w.client.id_map w.server.tree pos memory)
    (addr : ℕ) (gone : (i j : ℕ) → cell w.client.id_map i j ≡ some (some addr) → ⊥) (s : ℕ)
    (free : cell w.client.id_map 0 s ≡ some none) (content : Bytes) (bytes : IsBytes content)
    (sized : length content ≡ w.client.config.block_size) where
  pub record Put : Type 0 where
    pub slot : ℕ
    pub sample : tfhe.Rlwe
    pub free_slot : cell w.client.id_map 0 slot ≡ some none
    pub encrypts : Encrypts tfhe laws laws.fresh sample content
    pub returns : put_block tfhe random addr content w ≡ (
      ok tt,
      record w {
        client = record w.client {
          id_map = put_cell w.client.id_map 0 slot (some addr);
          noise = w.client.noise + 1;
        };
        server = record w.server { tree = put_cell w.server.tree 0 slot sample };
      },
    )

  no_own :
      (ids : Ids)
      → get_elem? w.client.id_map 0 ≡ some ids
      → (j : ℕ) → get_elem? ids j ≡ some (some addr)
      → ⊥
  no_own ids row j e = gone 0 j (cell-row w.client.id_map 0 j ids row ∙ e)

  -- FindFirstDummySlot finds a slot of the root, and Access takes it.
  record RootSlot : Type 0 where
    ids : Ids
    row : get_elem? w.client.id_map 0 ≡ some ids
    slot : ℕ
    found : root_slot_of tfhe random ids addr ≡ slot
    inside : (slot == length ids) ≡ false
    is_free : cell w.client.id_map 0 slot ≡ some none

  root_slot : RootSlot
  unfolding root_slot_of
  root_slot =
      let row = row_of w.client.id_map 0 s none free in
      elim (find_slot_cases row.0 (some addr)) [
        | inl own ↦ absurd (no_own row.0 row.1.0 (find_slot row.0 (some addr)) own.1)
        | inr missing ↦ elim (find_slot_cases row.0 none) [
          | inr full ↦ absurd (full.1 s row.1.1)
          | inl here ↦ record {
            ids = row.0;
            row = row.1.0;
            slot = find_slot row.0 none;
            found = rw missing.0 refl;
            inside = here.0;
            is_free = cell-row w.client.id_map 0 (find_slot row.0 none) row.0 row.1.0 ∙ here.1;
          }
        ]
      ]

  find_root_slot_lem : find_root_slot tfhe random addr w ≡ (ok root_slot.slot, w)
  unfolding find_root_slot make_room ids_of
  find_root_slot_lem =
      rw (root_slot.row, root_slot.found, root_slot.inside)
        (rw (root_slot.row, root_slot.inside) refl)

  fresh_sample :
      (c : tfhe.Rlwe) × ((encrypt_block tfhe content client_context w.client.noise ≡ ok c)
        × Encrypts tfhe laws laws.fresh c content)
  fresh_sample =
      encrypt_block-Encrypts tfhe laws content (omega (arith, sized, budget.fits)) bytes
        w.client.noise

  write_root :
      (v : World tfhe random) (slot : ℕ) (c old : tfhe.Rlwe)
      → cell v.server.tree 0 slot ≡ some old
      → write_back_slot tfhe random 0 slot c v
        ≡ (ok tt, record v { server = record v.server { tree = put_cell v.server.tree 0 slot c } })
  unfolding write_back_slot handle_write_slot checked_bucket put_slot bucket_at
  write_root v slot c old e =
      let row = row_of v.server.tree 0 slot old e in
      let there : ltb 0 (length v.server.tree) ≡ true =
        ground (arith, get_elem?-lt_length v.server.tree 0 row.1.0) in
      let inside : ltb slot (length row.0) ≡ true =
        ground (arith, get_elem?-lt_length row.0 slot row.1.1) in
      rw
        (
          there,
          row.1.0,
          inside,
          laws.import-export_tlwe c,
          row.1.0,
          inside,
          set-put_cell v.server.tree 0 slot row.0 c row.1.0,
        )
        refl

  pub put_block_lem : Put
  unfolding put_block encrypt_fresh
  put_block_lem =
      let c = fresh_sample.0 in
      let slot = root_slot.slot in
      let old = holding.stored 0 slot none root_slot.is_free in
      let v : World tfhe random = record w {
        client = record w.client { noise = w.client.noise + 1 };
      } in
      record {
        slot = slot;
        sample = c;
        free_slot = root_slot.is_free;
        encrypts = fresh_sample.1.1;
        returns =
            rw
              (
                find_root_slot_lem,
                fresh_sample.1.0,
                write_root v slot c old.0 old.1.0,
                put_id-put_cell w.client.id_map 0 slot (some addr) none root_slot.is_free,
              )
              refl;
      }
