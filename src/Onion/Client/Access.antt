-- ===== src/Onion/Client/Access.antt =====
-- OnionRingClient::Access as a whole, as an access to a memory.
use mathlib.Core.Path.{subst}
use unified_oramhub.Base.{
  ℕ, ◌+◌, ◌%◌, ◌<◌, ◌≡◌, refl, ◌∙◌, List, true, false, not, ◌&&◌, none, some, ok, ltb, ◌==◌, arith,
  length, get_elem?, set, update, eq→==, length-set,
}
use unified_oramhub.Core.Memory.{Bytes, u64_mod}
use unified_oramhub.Tree.{get_path_from_root}
use unified_oramhub.Onion.{num_leaves}
use unified_oramhub.Onion.Tfhe.{Tfhe, TfheLaws}
use unified_oramhub.Onion.Adapter.RoundTrip.{Encrypts, IsBytes}
use unified_oramhub.Onion.Ids.{select_slots}
use unified_oramhub.Onion.Client.{
  Random, World, get_random_leaf, take_block, evict_if, access, read_block, write_block,
}
use unified_oramhub.Onion.Client.Cells.{cell, put_cell, fill}
use unified_oramhub.Onion.Client.OnPath.{get_path_from_root-root}
use unified_oramhub.Onion.Client.Holding.{Holding, Selected, zeros, select_slots-Selected}
use unified_oramhub.Onion.Client.Cleared.{fill-Holding, addr_is_gone, root_cleared}
use unified_oramhub.Onion.Client.Placing.{put_cell-Holding}
use unified_oramhub.Onion.Client.Taking.{Budget, taken, take_block_lem, Put, put_block_lem}

module _ (tfhe : Tfhe) (laws : TfheLaws tfhe) (random : Random) where
  -- The world holds `memory`: address by address the block that a read returns.
  pub record Holds (w : World tfhe random) (memory : ℕ → Bytes) : Type 0 where
    pub same_config : w.server.config ≡ w.client.config
    pub budget : Budget tfhe laws w.client.config
    pub positions : length w.client.pos_map ≡ w.client.config.num_blocks
    pub holding :
        Holding tfhe laws w.client.config w.client.id_map w.server.tree w.client.pos_map memory

  module _ (w : World tfhe random) (memory : ℕ → Bytes) (holds : Holds w memory) (addr leaf : ℕ)
      (slots : List ℕ) (lt : addr < w.client.config.num_blocks)
      (at_leaf : get_elem? w.client.pos_map addr ≡ some leaf)
      (selects : select_slots w.client.id_map
          (get_path_from_root w.client.config.tree_height leaf)
          addr
        ≡ ok slots)
      (not_due : (not (w.client.config.a == 0)
          && ((w.client.access_count + 1) % u64_mod) % w.client.config.a == 0)
        ≡ false) where
    abbrev drawn : ℕ
    drawn = (random.uniform (num_leaves w.client.config) w.client.prng).0

    abbrev remapped : World tfhe random
    remapped = record w {
      client = record w.client {
        prng = (random.uniform (num_leaves w.client.config) w.client.prng).1;
        pos_map = set w.client.pos_map addr drawn;
      };
    }

    abbrev path : List ℕ
    path = get_path_from_root w.client.config.tree_height leaf

    abbrev emptied : ℕ → Bytes
    emptied = update memory addr (zeros w.client.config)

    sel : Selected w.client.id_map addr path slots
    sel = select_slots-Selected w.client.id_map path addr slots selects

    gone : (i j : ℕ) → cell (fill none w.client.id_map path slots) i j ≡ some (some addr) → ⊥
    gone =
        addr_is_gone tfhe laws w.client.config w.client.id_map w.server.tree w.client.pos_map memory
          holds.holding addr path slots sel leaf at_leaf refl

    without :
        Holding tfhe laws w.client.config
          (fill none w.client.id_map path slots)
          (fill tfhe.clear w.server.tree path slots)
          w.client.pos_map
          emptied
    without =
        fill-Holding tfhe laws w.client.config w.client.id_map w.server.tree w.client.pos_map memory
          holds.holding addr path slots sel leaf at_leaf refl

    abbrev between : World tfhe random
    between =
        taken tfhe laws random remapped holds.same_config holds.budget w.client.pos_map memory
          holds.holding addr leaf slots

    root_free : (s : ℕ) × (cell between.client.id_map 0 s ≡ some none)
    root_free =
        let root = get_path_from_root-root w.client.config.tree_height leaf in
        root_cleared w.client.id_map addr path slots root.0 root.1 sel

    module _ (next : Bytes) (bytes : IsBytes next)
        (sized : length next ≡ w.client.config.block_size) where
      put :
          Put tfhe laws random between holds.budget w.client.pos_map emptied without addr gone
            root_free.0 root_free.1 next bytes sized
      put =
          put_block_lem tfhe laws random between holds.budget w.client.pos_map emptied without addr
            gone root_free.0 root_free.1 next bytes sized

      -- The world after the access.
      abbrev after : World tfhe random
      after =
          let v = between in
          record v {
            client = record v.client {
              id_map = put_cell v.client.id_map 0 put.slot (some addr);
              noise = v.client.noise + 1;
              access_count = (v.client.access_count + 1) % u64_mod;
            };
            server = record v.server { tree = put_cell v.server.tree 0 put.slot put.sample };
          }

      after-Holds :
          (memory' : ℕ → Bytes)
          → next ≡ memory' addr
          → ((b : ℕ) → (addr == b) ≡ false → memory b ≡ memory' b)
          → Holds after memory'
      after-Holds memory' here others =
          let known : addr < length w.client.pos_map = omega (arith, lt, holds.positions) in
          record {
            same_config = holds.same_config;
            budget = holds.budget;
            positions = length-set w.client.pos_map addr drawn ∙ holds.positions;
            holding =
                put_cell-Holding tfhe laws w.client.config between.client.id_map between.server.tree
                  w.client.pos_map emptied memory' without addr put.slot drawn put.sample gone known
                  put.free_slot (λ b ne. ground (arith, ne, others b ne)) (subst IsBytes here bytes)
                  (subst (λ m. length m ≡ w.client.config.block_size) here sized)
                  (subst (Encrypts tfhe laws laws.fresh put.sample) here put.encrypts);
          }

    fetched : take_block tfhe random leaf addr remapped ≡ (ok (memory addr), between)
    fetched =
        take_block_lem tfhe laws random remapped holds.same_config holds.budget w.client.pos_map
          memory holds.holding addr leaf slots at_leaf selects

    -- In a world that holds a memory, a read of a block below num_blocks succeeds, returns
    -- the block of the memory and leaves a world that holds the same memory, when every
    -- bucket on the path of the block has the block or a free slot and no eviction is due.
    pub read_block-Holds :
        (w' : World tfhe random) × ((read_block tfhe random addr w ≡ (ok (memory addr), w'))
          × Holds w' memory)
    unfolding read_block access get_random_leaf evict_if
    read_block-Holds =
        let bytes = holds.holding.bytes addr in
        let size = holds.holding.sized addr in
        let small : ltb addr w.client.config.num_blocks ≡ true = ground (arith, lt) in
        let p = put (memory addr) bytes size in
        (
          after (memory addr) bytes size,
          (
            rw (small, at_leaf, fetched, p.returns, not_due) refl,
            after-Holds (memory addr) bytes size memory refl (λ b ne. refl),
          ),
        )

    -- In a world that holds a memory, a write of a block below num_blocks with data of the
    -- block size succeeds and leaves a world that holds the memory with that block replaced,
    -- when every bucket on the path of the block has the block or a free slot and no
    -- eviction is due.
    pub write_block-Holds :
        (content : Bytes)
        → IsBytes content
        → length content ≡ w.client.config.block_size
        → (w' : World tfhe random) × ((write_block tfhe random addr content w ≡ (ok tt, w'))
            × Holds w' (update memory addr content))
    unfolding write_block access get_random_leaf evict_if
    write_block-Holds content bytes size =
        let small : ltb addr w.client.config.num_blocks ≡ true = ground (arith, lt) in
        let fits : (length content == w.client.config.block_size) ≡ true = ground (arith, size) in
        let p = put content bytes size in
        (
          after content bytes size,
          (
            rw (small, fits, at_leaf, fetched, p.returns, not_due) refl,
            after-Holds content bytes size (update memory addr content)
                (rw (eq→== addr addr refl) refl) (λ b ne. rw ne refl),
          ),
        )
