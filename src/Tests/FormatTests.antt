-- ===== src/Tests/FormatTests.antt =====
-- The wire format and the counter of the cipher on small values.
use unified_oramhub.Base.{
  ◌+◌, ◌-◌, ◌%◌, ◌^◌, ◌≡◌, refl, [], ◌∷◌, ◌++◌, ok, arith, length, replicate, true, some, take,
}
use unified_oramhub.Core.Memory.{Bytes}
use unified_oramhub.Core.{Bucket}
use unified_oramhub.Core.Serializer.{BucketFits, serialize_bucket, deserialize_bucket}
use unified_oramhub.Core.Serializer.RoundTrip.{deserialize-serialize_bucket}
use unified_oramhub.Core.Serializer.Sizes.{length-serialize_bucket}
use unified_oramhub.Crypto.{CtrCipher, u32_mod, encrypt, encrypt_lem, increment_counter}
use unified_oramhub.Crypto.Counter.{AreBytes, be_value, be_value-increment_counter}
use unified_oramhub.PathOram.Buckets.{
  bucket_size, data_limit, encrypt_bucket, decrypt_bucket, decrypt-encrypt_bucket,
}

-- The key stream of zeros.
abbrev zero_cipher : CtrCipher
zero_cipher = record {
  run = λ iv input. input;
  encrypt_init = λ iv. true;
  encrypt_update = λ iv input n. some (take n input);
  encrypt_final = λ iv. true;
  run_twice = λ iv input. refl;
  length-run = λ iv input. refl;
  init_ok = λ iv len. refl;
  update_ok = λ iv input n len le small. refl;
  final_ok = λ iv len. refl;
}

abbrev two_blocks : Bucket
two_blocks = record {
  capacity = 4;
  blocks = record { id = 3; bytes = 7 ∷ 8 ∷ [] } ∷ record { id = 300; bytes = [] } ∷ [];
}

two_blocks-Fits : BucketFits data_limit bucket_size two_blocks
two_blocks-Fits = record {
  same_capacity = refl;
  within = omega arith;
  count_fits = omega arith;
  blocks_fit = (
    record { id_fits = omega arith; size_fits = omega arith },
    (record { id_fits = omega arith; size_fits = omega arith }, tt),
  );
}

deserialize-serialize_bucket_example :
    deserialize_bucket (serialize_bucket two_blocks) 4 ≡ ok two_blocks
deserialize-serialize_bucket_example =
    deserialize-serialize_bucket 4 two_blocks (omega arith) two_blocks-Fits

abbrev zero_iv : Bytes
zero_iv = replicate 16 0

decrypt-encrypt_bucket_example :
    (encrypt_bucket zero_cipher two_blocks zero_iv
      ≡ ok (zero_iv ++ zero_cipher.run zero_iv (serialize_bucket two_blocks)))
    × (decrypt_bucket zero_cipher (zero_iv ++ zero_cipher.run zero_iv (serialize_bucket two_blocks))
        ≡ ok two_blocks)
decrypt-encrypt_bucket_example =
    decrypt-encrypt_bucket zero_cipher two_blocks zero_iv (omega arith) two_blocks-Fits
      (omega (arith, length-serialize_bucket bucket_size two_blocks two_blocks-Fits)) refl

encrypt_lem_example :
    encrypt zero_cipher (3 ∷ 4 ∷ []) zero_iv
    ≡ ok
        (zero_cipher.run zero_iv (take (2 % u32_mod) (3 ∷ 4 ∷ [])) ++ replicate (2 - 2 % u32_mod) 0)
encrypt_lem_example = encrypt_lem zero_cipher (3 ∷ 4 ∷ []) zero_iv refl (omega arith)

-- The vector that is one below the wrap.
abbrev full_iv : Bytes
full_iv = replicate 16 255

be_value-increment_counter_example :
    (be_value (increment_counter full_iv 258) ≡ (be_value full_iv + 258) % 2 ^ 128)
    × (length (increment_counter full_iv 258) ≡ 16)
    × AreBytes (increment_counter full_iv 258)
be_value-increment_counter_example = be_value-increment_counter full_iv 258 full_bytes refl
  where
    full_bytes : AreBytes full_iv
    full_bytes = ground arith
