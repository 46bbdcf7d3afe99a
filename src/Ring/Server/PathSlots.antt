-- ===== src/Ring/Server/PathSlots.antt =====
-- HandleXorPathSlots of RingORAMServer.cpp on a server that stores a tree.
use unified_oramhub.Base.{
  ℕ, ◌+◌, ◌%◌, ◌<◌, ◌≡◌, refl, sym, ap, ◌∙◌, List, [], ◌∷◌, true, some, ok, arith, length,
  get_elem?, replicate, ◌==◌, update, eq→==, length-replicate,
}
use unified_oramhub.Core.Memory.{Bytes, u64_mod}
use unified_oramhub.Tree.{get_num_tree_nodes, checked_path_from_root}
use unified_oramhub.Ring.{EncryptedField, EncryptedRingBucket, RuntimeConfig}
use unified_oramhub.Ring.Storage.{Server}
use unified_oramhub.Ring.Xor.{xor_bytes, xor_into, length-xor_bytes}
use unified_oramhub.Ring.Server.{take_slot, take_slots, handle_xor_path_slots}
use unified_oramhub.Ring.Server.Stored.{
  Stores, spend, Stores-initialized, read-Stores, write-Stores, spend-Shaped,
}
use unified_oramhub.Ring.Fetch.Unmask.{aggregate_of, ivs_of}

-- A slot that the server gives out.
pub record Available (config : RuntimeConfig) (tree : ℕ → EncryptedRingBucket) (idx offset : ℕ)
    (slot : EncryptedField) : Type 0 where
  pub below : idx < get_num_tree_nodes config.tree_depth
  pub stands : get_elem? (tree idx).slots offset ≡ some slot
  pub valid : get_elem? (tree idx).valids offset ≡ some true
  pub sized : length slot.ciphertext ≡ config.block_size

module _ {config : RuntimeConfig} {tree : ℕ → EncryptedRingBucket} {s : Server}
    (st : Stores config tree s) where
  take_slot-Stores :
      (idx offset : ℕ) (acc : Bytes) (slot : EncryptedField)
      → Available config tree idx offset slot
      → length acc ≡ config.block_size
      → (s' : Server) × (take_slot idx offset acc s
          ≡ (ok (xor_bytes acc slot.ciphertext, slot.iv), s'))
        × Stores config (update tree idx (spend (tree idx) offset)) s'
  unfolding take_slot xor_into
  take_slot-Stores idx offset acc slot a len =
      let (s', written, st') =
        write-Stores st idx (spend (tree idx) offset) a.below
          (spend-Shaped config (tree idx) offset (st.shaped idx a.below)) in
      let size : (length slot.ciphertext == s.config.block_size) ≡ true =
        eq→== _ _ (a.sized ∙ ap (λ c. c.block_size) (sym st.same_config)) in
      let same : (length acc == length slot.ciphertext) ≡ true =
        eq→== _ _ (omega (arith, len, a.sized)) in
      (
        s',
        rw (read-Stores st idx a.below, a.stands, a.valid, size, same) (ground (arith, written)),
        st',
      )

-- The tree after the slots of a path were read, bucket by bucket.
unfoldable pub spend_path : (ℕ → EncryptedRingBucket) → List ℕ → List ℕ → ℕ → EncryptedRingBucket
spend_path tree [] offsets = tree
spend_path tree (idx ∷ path) [] = tree
spend_path tree (idx ∷ path) (offset ∷ offsets) =
    spend_path (update tree idx (spend (tree idx) offset)) path offsets

-- The slots of a path, each available when its turn comes.
abbrev pub PathSlots :
    RuntimeConfig → (ℕ → EncryptedRingBucket) → List ℕ → List ℕ → List EncryptedField → Type 0
PathSlots config tree [] [] [] = Unit {0}
PathSlots config tree [] [] (f ∷ fs) = ⊥
PathSlots config tree [] (o ∷ os) fs = ⊥
PathSlots config tree (i ∷ is) [] fs = ⊥
PathSlots config tree (i ∷ is) (o ∷ os) [] = ⊥
PathSlots config tree (i ∷ is) (o ∷ os) (f ∷ fs) =
    Available config tree i o f × PathSlots config (update tree i (spend (tree i) o)) is os fs

take_slots-Stores :
    {config : RuntimeConfig} (tree : ℕ → EncryptedRingBucket) (s : Server) (path offsets : List ℕ)
    (acc : Bytes) (slots : List EncryptedField)
    → Stores config tree s
    → PathSlots config tree path offsets slots
    → length acc ≡ config.block_size
    → (s' : Server) × (take_slots path offsets acc s
        ≡ (ok (aggregate_of acc slots, ivs_of slots), s'))
      × Stores config (spend_path tree path offsets) s'
unfolding take_slots aggregate_of spend_path
take_slots-Stores tree s [] [] acc [] st av len = (s, refl, st)
take_slots-Stores tree s [] [] acc (f ∷ fs) st av len = absurd av
take_slots-Stores tree s [] (o ∷ os) acc fs st av len = absurd av
take_slots-Stores tree s (i ∷ is) [] acc fs st av len = absurd av
take_slots-Stores tree s (i ∷ is) (o ∷ os) acc [] st av len = absurd av
take_slots-Stores tree s (i ∷ is) (o ∷ os) acc (f ∷ fs) st (a, av) len =
    let (s₁, now, st₁) = take_slot-Stores st i o acc f a len in
    let (s₂, later, st₂) =
      take_slots-Stores (update tree i (spend (tree i) o)) s₁ is os (xor_bytes acc f.ciphertext) fs
        st₁ av (length-xor_bytes acc f.ciphertext ∙ len) in
    (s₂, rw (now, later), st₂)

-- On a server that stores a tree, the request for valid slots of the right size on the path of a
-- leaf succeeds, answers with the XOR of their ciphertexts and with their vectors, and the
-- server stores the tree in which these slots are spent and nothing else has changed.
pub handle_xor_path_slots-Stores :
    {config : RuntimeConfig} (tree : ℕ → EncryptedRingBucket) (s : Server) (leaf : ℕ)
    (path offsets : List ℕ) (slots : List EncryptedField)
    → Stores config tree s
    → checked_path_from_root config.tree_depth leaf ≡ ok path
    → length offsets ≡ length path
    → PathSlots config tree path offsets slots
    → (s' : Server) × (handle_xor_path_slots leaf offsets s
        ≡ (ok (aggregate_of (replicate config.block_size 0) slots, ivs_of slots), s'))
      × Stores config (spend_path tree path offsets) s'
unfolding handle_xor_path_slots
handle_xor_path_slots-Stores {config} tree s leaf path offsets slots st found len av =
    let (s₁, run, st₁) =
      take_slots-Stores tree s path offsets (replicate config.block_size 0) slots st av
        (length-replicate config.block_size 0) in
    let found' : checked_path_from_root s.config.tree_depth leaf ≡ ok path =
      ap (λ c. checked_path_from_root c.tree_depth leaf) st.same_config ∙ found in
    let run' =
      ap (λ c. take_slots path offsets (replicate c.block_size 0) s) st.same_config ∙ run in
    (
      record s₁ {
        xor_path_read_count = (s₁.xor_path_read_count + 1) % u64_mod;
        last_xor_path_slot_count = length offsets;
      },
      rw (Stores-initialized st, found', eq→== _ _ len, run'),
      record {
        same_config = st₁.same_config;
        node_count_ok = st₁.node_count_ok;
        has_dir = st₁.has_dir;
        can_write = st₁.can_write;
        on_disk = st₁.on_disk;
        shaped = st₁.shaped;
      },
    )
