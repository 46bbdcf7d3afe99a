-- ===== src/Onion/Client/Start.antt =====
-- The constructors of client and server and OnionRingServer::Init: where the protocol begins.
use mathlib.Core.Path.{subst}
use unified_oramhub.Base.{
  ℕ, zero, suc, ◌<◌, ◌≡◌, refl, ap, List, none, some, arith, length, get_elem?, replicate,
  length-replicate,
}
use unified_oramhub.Onion.{RuntimeConfig, bucket_slots, num_tree_nodes}
use unified_oramhub.Onion.Tfhe.{Tfhe, TfheLaws}
use unified_oramhub.Onion.Torus.{Close-weaken}
use unified_oramhub.Onion.Adapter.RoundTrip.{Encrypts, at-replicate, clear-Encrypts}
use unified_oramhub.Onion.Slots.{init_tree}
use unified_oramhub.Onion.Server.{new_server, init}
use unified_oramhub.Onion.Client.{Random, World, random_positions, new_client}
use unified_oramhub.Onion.Client.Cells.{cell}
use unified_oramhub.Onion.Client.Holding.{zeros, content_of}
use unified_oramhub.Onion.Client.Taking.{Budget}
use unified_oramhub.Onion.Client.Access.{Holds}

abbrev pub new_world :
    (tfhe : Tfhe) (random : Random) → RuntimeConfig → random.Generator → World tfhe random
new_world tfhe random config prng = record {
  client = new_client tfhe random config prng;
  server = (init tfhe (new_server tfhe config)).1;
}

abbrev all_same : {A : Type 0} → ℕ → ℕ → A → List (List A)
all_same n m a = replicate n (replicate m a)

get_elem?-all :
    {A : Type 0} (m j : ℕ) (a v : A) → get_elem? (replicate m a) j ≡ some v → (a ≡ v) × (j < m)
get_elem?-all zero j a v e = absurd (ground (arith, e))
get_elem?-all (suc m) zero a v e = (ground (arith, e), omega arith)
get_elem?-all (suc m) (suc j) a v e =
    let rest = get_elem?-all m j a v e in (rest.0, omega (arith, rest.1))

cell-all :
    {A : Type 0} (n m i j : ℕ) (a v : A) → cell (all_same n m a) i j ≡ some v → (a ≡ v) × (j < m)
cell-all zero m i j a v e = absurd (ground (arith, e))
cell-all (suc n) m zero j a v e = get_elem?-all m j a v e
cell-all (suc n) m (suc i) j a v e = cell-all n m i j a v e

get_elem?-both :
    {A B : Type 0} (m j : ℕ) (a v : A) (b : B)
    → get_elem? (replicate m a) j ≡ some v
    → get_elem? (replicate m b) j ≡ some b
get_elem?-both zero j a v b e = absurd (ground (arith, e))
get_elem?-both (suc m) zero a v b e = refl
get_elem?-both (suc m) (suc j) a v b e = get_elem?-both m j a v b e

-- Both trees have a slot at the same places.
cell-both :
    {A B : Type 0} (n m i j : ℕ) (a v : A) (b : B)
    → cell (all_same n m a) i j ≡ some v
    → cell (all_same n m b) i j ≡ some b
cell-both zero m i j a v b e = absurd (ground (arith, e))
cell-both (suc n) m zero j a v b e = get_elem?-both m j a v b e
cell-both (suc n) m (suc i) j a v b e = cell-both n m i j a v b e

not_some : (b : ℕ) → none ≡ some b → ⊥
not_some b e = ground (arith, e)

module _ (tfhe : Tfhe) (laws : TfheLaws tfhe) (random : Random) (config : RuntimeConfig)
    (prng : random.Generator) where
  length-random_positions :
      (n : ℕ) (g : random.Generator) → length (random_positions tfhe random n config g).0 ≡ n
  unfolding random_positions
  length-random_positions zero g = refl
  length-random_positions (suc n) g = ap suc (length-random_positions n _)

  -- A new client and a server after Init, with parameters of TFHE that are large enough, hold
  -- the memory of zeros.
  pub new_world-Holds :
      Budget tfhe laws config
      → Holds tfhe laws random (new_world tfhe random config prng) (λ addr. zeros config)
  unfolding new_client init new_server init_tree
  new_world-Holds budget =
      let n = num_tree_nodes config in
      let m = bucket_slots config in
      record {
        same_config = refl;
        budget = budget;
        positions = length-random_positions config.num_blocks prng;
        holding = record {
          narrow = λ i j id e. (cell-all n m i j none id e).1;
          stored = λ i j id e. (
            tfhe.clear,
            (
              cell-both n m i j none id tfhe.clear e,
              subst
                  (λ id.
                    Encrypts tfhe laws laws.fresh tfhe.clear
                      (content_of config (λ addr. zeros config) id))
                  (cell-all n m i j none id e).0
                  (λ k lt.
                    Close-weaken 0 laws.fresh _ _ (omega arith)
                      (clear-Encrypts tfhe laws config.block_size k lt)),
            ),
          );
          unique = λ b i j i' j' e e'. absurd (not_some b (cell-all n m i j none (some b) e).0);
          placed = λ b i j e. absurd (not_some b (cell-all n m i j none (some b) e).0);
          absent = λ b h. refl;
          bytes = λ b i. let z = at-replicate config.block_size i in omega (arith, z);
          sized = λ b. length-replicate config.block_size 0;
        };
      }
