-- ===== src/Ring/Format/Reads.antt =====
-- What a reader does at the bytes of a value, and how readers in a row compose.
use unified_oramhub.Base.{
  ℕ, suc, ◌+◌, ◌≤◌, ◌<◌, ◌≡◌, refl, ◌∙◌, ap, List, [], ◌∷◌, ◌++◌, append_assoc, map, Bool, true,
  false, Result, ok, ◌>>=◌, arith, length, take, drop, length-append, take-length-append,
}
use unified_oramhub.Core.Memory.{
  Bytes, u64_mod, u64_bytes, At, At-next, At-length, length-le_bytes, le_value-u64_bytes,
}
use unified_oramhub.Ring.{RingBlock, EncryptedField}
use unified_oramhub.Ring.Format.{
  read_u64, append_bytes, read_bytes, bool_byte, byte_bool, append_bool_vector, read_bool_vector,
  append_field, read_field, append_all, read_all, append_fields, read_fields, append_ring_block,
  read_ring_block_payload,
}

-- Wherever `chunk` stands in the bytes, the reader gives `x` and moves behind it.
abbrev pub Reads {ℓ} : {A : Type ℓ} → Bytes → (ℕ → Result (A × ℕ)) → A → Bytes → Type ℓ
Reads bytes reader x chunk =
    (offset : ℕ) (rest : Bytes)
    → At bytes offset (chunk ++ rest)
    → reader offset ≡ ok (x, offset + length chunk)

-- The values of a list that fit their fields.
abbrev pub AllOk {ℓ} : {A : Type ℓ} → (A → Type 0) → List A → Type 0
AllOk Ok [] = Unit {0}
AllOk Ok (x ∷ xs) = Ok x × AllOk Ok xs

-- A block whose numbers are `uint64_t`.
pub record RingBlockFits (b : RingBlock) : Type 0 where
  pub addr_fits : b.addr < u64_mod
  pub leaf_fits : b.leaf < u64_mod

pub Reads-then {ℓ κ} :
    {A : Type ℓ} {B : Type κ} (bytes : Bytes) (first : ℕ → Result (A × ℕ))
    (second : A → ℕ → Result (B × ℕ)) (x : A) (y : B) (c d : Bytes)
    → Reads bytes first x c
    → Reads bytes (second x) y d
    → Reads bytes (λ offset. first offset >>= λ p. second p.0 p.1) y (c ++ d)
Reads-then bytes first second x y c d rx ry offset rest at_cd =
    let start : At bytes offset (c ++ (d ++ rest)) = (at_cd.0 ∙ append_assoc c d rest, at_cd.1) in
    rw (rx offset (d ++ rest) start, length-append c d)
      (ry (offset + length c) rest (At-next bytes offset (length c) c (d ++ rest) refl start)
        ∙ ap (λ k. ok (y, k)) (omega arith))

pub Reads-last {ℓ κ} :
    {A : Type ℓ} {B : Type κ} (bytes : Bytes) (reader : ℕ → Result (A × ℕ)) (f : A → B) (x : A)
    (c : Bytes)
    → Reads bytes reader x c
    → Reads bytes (λ offset. reader offset >>= λ p. ok (f p.0, p.1)) (f x) c
Reads-last bytes reader f x c r offset rest here = rw (r offset rest here)

At-drop :
    (bytes : Bytes) (offset n : ℕ) (chunk rest : Bytes)
    → length chunk ≡ n
    → At bytes offset (chunk ++ rest)
    → take n (drop offset bytes) ≡ chunk
At-drop bytes offset n chunk rest e here = ap (take n) here.0 ∙ take-length-append n chunk rest e

module _ (bytes : Bytes) (small : length bytes < u64_mod) where
  pub read_u64-Reads : (v : ℕ) → v < u64_mod → Reads bytes (read_u64 bytes) v (u64_bytes v)
  unfolding read_u64
  read_u64-Reads v fits offset rest here =
      rw
        (
          At-drop bytes offset 8 (u64_bytes v) rest (length-le_bytes 8 v) here,
          le_value-u64_bytes v fits,
        )
        (ground (arith, At-length bytes offset (u64_bytes v) rest here, length-le_bytes 8 v))

  -- The length in front of a chunk fits its 8 bytes, because the chunk is part of the input.
  prefix :
      (offset : ℕ) (v : ℕ) (chunk rest : Bytes)
      → length chunk ≡ v
      → At bytes offset ((u64_bytes v ++ chunk) ++ rest)
      → (read_u64 bytes offset ≡ ok (v, offset + 8))
        × At bytes (offset + 8) (chunk ++ rest)
        × (offset + 8 + v ≤ length bytes)
  prefix offset v chunk rest e here =
      let start : At bytes offset (u64_bytes v ++ (chunk ++ rest)) =
        (here.0 ∙ append_assoc (u64_bytes v) chunk rest, here.1) in
      let next = At-next bytes offset 8 (u64_bytes v) (chunk ++ rest) (length-le_bytes 8 v) start in
      let inside = At-length bytes (offset + 8) chunk rest next in
      (
        read_u64-Reads v (omega (arith, inside, e, small)) offset (chunk ++ rest) start
            ∙ ap (λ k. ok (v, offset + k)) (length-le_bytes 8 v),
        next,
        omega (arith, inside, e),
      )

  pub read_bytes-Reads : (b : Bytes) → Reads bytes (read_bytes bytes) b (append_bytes b)
  unfolding read_bytes append_bytes
  read_bytes-Reads b offset rest here =
      let (size, next, inside) = prefix offset (length b) b rest refl here in
      rw
        (
          size,
          At-drop bytes (offset + 8) (length b) b rest refl next,
          length-append (u64_bytes (length b)) b,
          length-le_bytes 8 (length b),
        )
        (ground (arith, inside, small))

  length-map : (xs : List Bool) → length (map bool_byte xs) ≡ length xs
  length-map [] = refl
  length-map (x ∷ xs) = ap suc (length-map xs)

  map-byte_bool : (xs : List Bool) → map byte_bool (map bool_byte xs) ≡ xs
  map-byte_bool [] = refl
  map-byte_bool (true ∷ xs) = ap {B = List Bool} (λ r. true ∷ r) (map-byte_bool xs)
  map-byte_bool (false ∷ xs) = ap {B = List Bool} (λ r. false ∷ r) (map-byte_bool xs)

  pub read_bool_vector-Reads :
      (xs : List Bool) → Reads bytes (read_bool_vector bytes) xs (append_bool_vector xs)
  unfolding read_bool_vector append_bool_vector
  read_bool_vector-Reads xs offset rest here =
      let len = length-map xs in
      let (size, next, inside) = prefix offset (length xs) (map bool_byte xs) rest len here in
      rw
        (
          size,
          At-drop bytes (offset + 8) (length xs) (map bool_byte xs) rest len next,
          map-byte_bool xs,
          length-append (u64_bytes (length xs)) (map bool_byte xs),
          length-le_bytes 8 (length xs),
          len,
        )
        (ground (arith, inside, small))

  pub read_field-Reads : (f : EncryptedField) → Reads bytes (read_field bytes) f (append_field f)
  unfolding read_field append_field
  read_field-Reads f =
      Reads-then bytes (read_bytes bytes)
        (λ iv offset.
          read_bytes bytes offset >>= λ p. ok (record { iv = iv; ciphertext = p.0 }, p.1))
        f.iv f _ _ (read_bytes-Reads f.iv)
        (Reads-last bytes (read_bytes bytes) (λ c. record { iv = f.iv; ciphertext = c })
          f.ciphertext _ (read_bytes-Reads f.ciphertext))

  pub read_all-Reads {ℓ} :
      {A : Type ℓ} (reader : ℕ → Result (A × ℕ)) (append : A → Bytes) (Ok : A → Type 0)
      → ((x : A) → Ok x → Reads bytes reader x (append x))
      → (xs : List A) → AllOk Ok xs
      → Reads bytes (read_all reader (length xs)) xs (append_all append xs)
  unfolding read_all append_all
  read_all-Reads reader append Ok each [] good offset rest here = ap (λ k. ok ([], k)) (omega arith)
  read_all-Reads reader append Ok each (x ∷ xs) good offset rest here =
      Reads-then bytes reader
        (λ y offset. read_all reader (length xs) offset >>= λ p. ok (y ∷ p.0, p.1)) x (x ∷ xs) _ _
        (each x good.0)
        (Reads-last bytes (read_all reader (length xs)) (λ r. x ∷ r) xs _
          (read_all-Reads reader append Ok each xs good.1))
        offset rest here

  fields_ok : (fs : List EncryptedField) → AllOk (λ _. Unit {0}) fs
  fields_ok [] = tt
  fields_ok (f ∷ fs) = (tt, fields_ok fs)

  pub read_fields-Reads :
      (fs : List EncryptedField)
      → length fs < u64_mod
      → Reads bytes (read_fields bytes) fs (append_fields fs)
  unfolding read_fields append_fields
  read_fields-Reads fs few =
      Reads-then bytes (read_u64 bytes) (read_all (read_field bytes)) (length fs) fs _ _
        (read_u64-Reads (length fs) few)
        (read_all-Reads (read_field bytes) append_field (λ _. Unit {0}) (λ f _. read_field-Reads f)
          fs (fields_ok fs))

  pub read_ring_block-Reads :
      (b : RingBlock)
      → RingBlockFits b
      → Reads bytes (read_ring_block_payload bytes) b (append_ring_block b)
  unfolding read_ring_block_payload append_ring_block
  read_ring_block-Reads b fits =
      Reads-then bytes (read_u64 bytes)
        (λ addr offset. read_u64 bytes offset >>= λ p.
          read_bytes bytes p.1 >>= λ q. ok (record { addr = addr; leaf = p.0; bytes = q.0 }, q.1))
        b.addr b _ _ (read_u64-Reads b.addr fits.addr_fits)
        (Reads-then bytes (read_u64 bytes)
          (λ leaf offset. read_bytes bytes offset >>= λ q.
            ok (record { addr = b.addr; leaf = leaf; bytes = q.0 }, q.1))
          b.leaf b _ _ (read_u64-Reads b.leaf fits.leaf_fits)
          (Reads-last bytes (read_bytes bytes)
            (λ content. record { addr = b.addr; leaf = b.leaf; bytes = content }) b.bytes _
            (read_bytes-Reads b.bytes)))

  pub read_all_blocks-Reads :
      (bs : List RingBlock)
      → AllOk RingBlockFits bs
      → Reads bytes
          (read_all (read_ring_block_payload bytes) (length bs))
          bs
          (append_all append_ring_block bs)
  read_all_blocks-Reads bs good =
      read_all-Reads (read_ring_block_payload bytes) append_ring_block RingBlockFits
        read_ring_block-Reads bs good
