-- ===== src/Ring/Server/Rounds.antt =====
-- One round of the loop of HandleXorPathSlots of RingORAMServer.cpp: it is refused, or the slot is
-- given out.
use mathlib.Core.Path.{subst}
use unified_oramhub.Base.{
  ℕ, ◌<◌, ◌≡◌, refl, ap, ◌⊎◌, inl, inr, true, false, some, Error, ok, err, out_of_range,
  runtime_error, arith, length, get_elem?, ◌==◌, ltb, update, get_elem?-set, eq-or-ne, Bool-cases,
  Option-cases, Result-cases,
}
use unified_oramhub.Core.Memory.{Bytes}
use unified_oramhub.Tree.{get_num_tree_nodes}
use unified_oramhub.Ring.{EncryptedRingBucket, RuntimeConfig}
use unified_oramhub.Ring.Storage.{Server, read_bucket_from_disk}
use unified_oramhub.Ring.Xor.{xor_into}
use unified_oramhub.Ring.Server.{take_slot}
use unified_oramhub.Ring.Server.Stored.{Stores, spend, read-Stores, write-Stores, spend-Shaped}

abbrev pub Spent : (ℕ → EncryptedRingBucket) → ℕ → ℕ → Type 0
Spent tree i o = get_elem? (tree i).valids o ≡ some false

pub spend-Spent :
    (tree : ℕ → EncryptedRingBucket) (j k i o : ℕ)
    → k < length (tree j).valids
    → Spent tree i o
    → Spent (update tree j (spend (tree j) k)) i o
spend-Spent tree j k i o lt h = elim (eq-or-ne j i) [
  | inl e ↦
      subst (λ x. Spent (update tree j (spend (tree j) k)) x o) e
        (ground (
          arith,
          get_elem?-set (tree j).valids k o false lt,
          ap (λ x. get_elem? (tree x).valids o) e,
          h,
        ))
  | inr ne ↦ ground (arith, ne, h)
]

pub first-Spent :
    (tree : ℕ → EncryptedRingBucket) (i o : ℕ)
    → o < length (tree i).valids
    → Spent (update tree i (spend (tree i) o)) i o
first-Spent tree i o lt = ground (arith, get_elem?-set (tree i).valids o o false lt)

-- A round that gave out a slot: the slot was valid, and is spent.
pub record Taken (config : RuntimeConfig) (tree : ℕ → EncryptedRingBucket) (idx offset : ℕ)
    (acc : Bytes) (s : Server) : Type 0 where
  pub reply : Bytes × Bytes
  pub next : Server
  pub run : take_slot idx offset acc s ≡ (ok reply, next)
  pub was_valid : get_elem? (tree idx).valids offset ≡ some true
  pub stored : Stores config (update tree idx (spend (tree idx) offset)) next

-- A round that throws changes nothing.
abbrev pub Refused : ℕ → ℕ → Bytes → Server → Type 0
Refused idx offset acc s = (e : Error) × (take_slot idx offset acc s ≡ (err e, s))

module _ {config : RuntimeConfig} {tree : ℕ → EncryptedRingBucket} {s : Server}
    (st : Stores config tree s) (idx offset : ℕ) (acc : Bytes) where
  out_of_tree : ltb idx s.node_count ≡ false → Refused idx offset acc s
  unfolding take_slot read_bucket_from_disk
  out_of_tree e = (out_of_range, rw e refl)

  take_slot-outcome :
      ltb idx s.node_count ≡ true → Refused idx offset acc s ⊎ Taken config tree idx offset acc s
  unfolding take_slot
  take_slot-outcome e =
      let below : idx < get_num_tree_nodes config.tree_depth =
        ground (arith, e, st.node_count_ok) in
      let read = read-Stores st idx below in
      elim (Option-cases (get_elem? (tree idx).slots offset)) [
        | inl n ↦ inl (out_of_range, rw (read, n) refl)
        | inr (slot, at) ↦ elim (Option-cases (get_elem? (tree idx).valids offset)) [
          | inl n ↦ inl (out_of_range, rw (read, at, n) refl)
          | inr (false, v) ↦ inl (runtime_error, rw (read, at, v) refl)
          | inr (true, v) ↦ elim (Bool-cases (length slot.ciphertext == s.config.block_size)) [
            | inr n ↦ inl (runtime_error, rw (read, at, v, n) refl)
            | inl size ↦ elim (Result-cases (xor_into acc slot.ciphertext)) [
              | inr (x, n) ↦ inl (x, rw (read, at, v, size, n) refl)
              | inl (acc', x) ↦
                  let (s', written, st') =
                    write-Stores st idx (spend (tree idx) offset) below
                      (spend-Shaped config (tree idx) offset (st.shaped idx below)) in
                  inr (record {
                    reply = (acc', slot.iv);
                    next = s';
                    run = rw (read, at, v, size, x) (ground (arith, x, written));
                    was_valid = v;
                    stored = st';
                  })
            ]
          ]
        ]
      ]

  pub take_slot-cases : Refused idx offset acc s ⊎ Taken config tree idx offset acc s
  take_slot-cases = elim (Bool-cases (ltb idx s.node_count)) [
    | inl e ↦ take_slot-outcome e
    | inr e ↦ inl (out_of_tree e)
  ]
