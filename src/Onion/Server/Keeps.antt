-- ===== src/Onion/Server/Keeps.antt =====
-- The shape of the server's tree, and methods that keep it.
use unified_oramhub.Base.{
  ℕ, zero, suc, ◌≡◌, refl, ◌∙◌, List, [], ◌∷◌, Bool, true, false, Option, none, some, Result, ok,
  err, Error, undefined, or_fail, arith, length, get_elem?, set, length-set,
}
use unified_oramhub.Base.State.{State, pure, lift, gets, check, ◌>>=◌, continue}
use unified_oramhub.Onion.{RuntimeConfig, bucket_slots, num_tree_nodes}
use unified_oramhub.Onion.Tfhe.{Tfhe}
use unified_oramhub.Onion.Slots.{OnionBucket}
use unified_oramhub.Onion.Server.{Server, bucket_at, put_bucket}

module _ (tfhe : Tfhe) (config : RuntimeConfig) where
  pub record Shaped (s : Server tfhe) : Type 0 where
    pub same_config : s.config ≡ config
    pub nodes : length s.tree ≡ num_tree_nodes config
    pub slots :
        (idx : ℕ) (bucket : OnionBucket tfhe)
        → get_elem? s.tree idx ≡ some bucket
        → length bucket ≡ bucket_slots config

  -- The method keeps the shape, also when it throws, and what it returns satisfies `P`.
  pub record Keeps {A : Type 0} (P : A → Type 0) (m : State (Server tfhe) A) : Type 0 where
    pub shaped : (s : Server tfhe) → Shaped s → Shaped (m s).1
    pub result : (s : Server tfhe) (a : A) → Shaped s → (m s).0 ≡ ok a → P a

  abbrev pub Any : {A : Type 0} → A → Type 0
  Any a = Unit {0}

  -- Some bucket of the tree.
  abbrev pub IsWhole : OnionBucket tfhe → Type 0
  IsWhole bucket = length bucket ≡ bucket_slots config

  module _ {A B : Type 0} (f : A → State (Server tfhe) B) where
    continue-Shaped :
        (r : Result A) (s : Server tfhe)
        → Shaped s
        → ((a : A) → r ≡ ok a → Shaped (f a s).1)
        → Shaped (continue r s f).1
    continue-Shaped (ok a) s h next = next a refl
    continue-Shaped (err e) s h next = h

    continue-result :
        (Q : B → Type 0) (r : Result A) (s : Server tfhe) (b : B)
        → ((a : A) → r ≡ ok a → (f a s).0 ≡ ok b → Q b)
        → (continue r s f).0 ≡ ok b
        → Q b
    continue-result Q (ok a) s b next e = next a refl e
    continue-result Q (err x) s b next e = ground (arith, e)

  pub Keeps-then :
      {A B : Type 0} {P : A → Type 0} {Q : B → Type 0} (m : State (Server tfhe) A)
      (f : A → State (Server tfhe) B)
      → Keeps P m
      → ((a : A) → P a → Keeps Q (f a))
      → Keeps Q (m >>= f)
  Keeps-then {Q} m f k next = record {
    shaped = λ s h.
        continue-Shaped f (m s).0 (m s).1 (k.shaped s h)
          (λ a e. (next a (k.result s a h e)).shaped (m s).1 (k.shaped s h));
    result = λ s b h.
        continue-result f Q (m s).0 (m s).1 b
          (λ a e e'. (next a (k.result s a h e)).result (m s).1 b (k.shaped s h) e');
  }

  pub lift-Keeps : {A : Type 0} (r : Result A) → Keeps Any (lift r)
  lift-Keeps r = record { shaped = λ s h. h; result = λ s a h e. tt }

  pub pure-Keeps : {A : Type 0} (a : A) → Keeps Any (pure a)
  pure-Keeps a = record { shaped = λ s h. h; result = λ s b h e. tt }

  pub gets-Keeps : {A : Type 0} (f : Server tfhe → A) → Keeps Any (gets f)
  gets-Keeps f = record { shaped = λ s h. h; result = λ s a h e. tt }

  pub check-Keeps : (b : Bool) (e : Error) → Keeps Any (check b e)
  check-Keeps true e = record { shaped = λ s h. h; result = λ s a h q. tt }
  check-Keeps false e = record { shaped = λ s h. h; result = λ s a h q. tt }

  pub bucket_at-Keeps : (idx : ℕ) → Keeps IsWhole (bucket_at tfhe idx)
  unfolding bucket_at
  bucket_at-Keeps idx = record {
    shaped = λ s h. h;
    result = λ s a h e. h.slots idx a (or_fail_ok (get_elem? s.tree idx) a e);
  }
    where
      or_fail_ok :
          (o : Option (OnionBucket tfhe)) (a : OnionBucket tfhe)
          → or_fail o undefined ≡ ok a
          → o ≡ some a
      or_fail_ok none a e = ground (arith, e)
      or_fail_ok (some b) a e = ground (arith, e)

  length_eq : (a b : OnionBucket tfhe) → some a ≡ some b → length b ≡ length a
  length_eq a b e = ground (arith, e)

  pub put_bucket-Keeps :
      (idx : ℕ) (bucket : OnionBucket tfhe)
      → IsWhole bucket
      → Keeps Any (put_bucket tfhe idx bucket)
  put_bucket-Keeps idx bucket whole = record {
    shaped = λ s h. record {
      same_config = h.same_config;
      nodes = length-set s.tree idx bucket ∙ h.nodes;
      slots = λ j b e. set_slots s.tree idx j bucket b whole h.slots e;
    };
    result = λ s a h e. tt;
  }
    where
      set_slots :
          (tree : List (OnionBucket tfhe)) (i j : ℕ) (bucket b : OnionBucket tfhe)
          → IsWhole bucket
          → ((k : ℕ) (c : OnionBucket tfhe) → get_elem? tree k ≡ some c → IsWhole c)
          → get_elem? (set tree i bucket) j ≡ some b
          → IsWhole b
      set_slots [] i j bucket b w all e = all j b e
      set_slots (c ∷ tree) zero zero bucket b w all e = length_eq bucket b e ∙ w
      set_slots (c ∷ tree) zero (suc j) bucket b w all e = all (suc j) b e
      set_slots (c ∷ tree) (suc i) zero bucket b w all e = all 0 b e
      set_slots (c ∷ tree) (suc i) (suc j) bucket b w all e =
          set_slots tree i j bucket b w (λ k. all (suc k)) e
