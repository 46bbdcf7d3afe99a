-- ===== src/Tests/RingClientTests.antt =====
-- The client's part of Ring ORAM on small values.
use unified_oramhub.Base.{ℕ, ◌≡◌, refl, ◌⊎◌, [], ◌∷◌, true, false, some, ok, arith}
use unified_oramhub.Ring.{RingBlock, dummy_block}
use unified_oramhub.Ring.Bucket.{
  RingBucket, is_valid, valid_real_offsets, valid_dummy_offsets, contains, get_block_offset,
  selected_target, entries, iota,
}
use unified_oramhub.Ring.Bucket.Offsets.{IsAbsent, IsDummySlot, get_block_offset_lem}
use unified_oramhub.Ring.Format.{serialize_ring_blocks}
use unified_oramhub.Ring.Stash.{Stash}

-- One block at slot 1, and a dummy at slot 0 that was read.
abbrev bucket : RingBucket
bucket = record {
  z = 1;
  s = 2;
  block_size = 1;
  count = 1;
  valids = false ∷ true ∷ true ∷ [];
  addrs = 5 ∷ [];
  leaves = 0 ∷ [];
  ptrs = 1 ∷ [];
  slots = dummy_block 1 ∷ record { addr = 5; leaf = 0; bytes = 7 ∷ [] } ∷ dummy_block 1 ∷ [];
}

one_dummy : valid_dummy_offsets bucket ≡ 2 ∷ []
unfolding valid_dummy_offsets valid_real_offsets contains entries iota
one_dummy = refl

get_block_offset_lem_example :
    (o : ℕ) × (get_block_offset bucket 6 0 ≡ ok o)
    × (is_valid bucket.valids o ≡ true)
    × ((selected_target bucket 6 o ≡ true) ⊎ (IsAbsent bucket 6 × IsDummySlot bucket o))
get_block_offset_lem_example = get_block_offset_lem bucket 6 0 (rw one_dummy (omega arith))

abbrev old_block : RingBlock
old_block = record { addr = 5; leaf = 0; bytes = 7 ∷ [] }

abbrev other_block : RingBlock
other_block = record { addr = 6; leaf = 1; bytes = 8 ∷ [] }

abbrev new_block : RingBlock
new_block = record { addr = 5; leaf = 1; bytes = 9 ∷ [] }

abbrev stash : Stash
stash = record {
  block_size = 1;
  file = some (serialize_ring_blocks (old_block ∷ other_block ∷ []));
  file_initialized = true;
  writable = true;
  blocks = [];
}
