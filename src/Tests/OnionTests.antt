-- ===== src/Tests/OnionTests.antt =====
-- Onion Ring ORAM on small values.
use unified_oramhub.Base.{
  none, ℕ, zero, suc, ◌+◌, ◌*◌, ◌<◌, ◌≡◌, refl, List, [], ◌∷◌, map, Bool, true, some, ok, ◌>>=◌,
  arith, length, get_elem?, at, update,
}
use unified_oramhub.Core.Memory.{Bytes}
use unified_oramhub.Tree.{
  get_path_from_root, path_down, child_towards, get_bucket_index, get_num_tree_nodes,
}
use unified_oramhub.Tree.Paths.{get_bucket_index-lt}
use unified_oramhub.Onion.{RuntimeConfig}
use unified_oramhub.Onion.Torus.{unit, Close, Close-self}
use unified_oramhub.Onion.Adapter.{client_context, encrypt_block, decrypt_block}
use unified_oramhub.Onion.Adapter.RoundTrip.{IsBytes, decrypt_block-encrypt_block}
use unified_oramhub.Onion.Waksman.{
  WaksmanNetwork, new_waksman_network, build_network, phases, phase_gates, generate_swap_bits,
  rank_loop, synthesize, indices, same_list,
}
use unified_oramhub.Onion.Waksman.SwapBits.{
  at-indices, length-indices, Generated, generate_swap_bits_total,
}
use unified_oramhub.Onion.Waksman.Evaluate.{eval_waksman}
use unified_oramhub.Onion.Waksman.Evaluate.Permutes.{decrypt_block-eval_waksman}
use unified_oramhub.Onion.Server.{new_server, init}
use unified_oramhub.Onion.Server.Requests.{handle_requests, whole_bucket, quit}
use unified_oramhub.Onion.Server.Keeps.{Shaped}
use unified_oramhub.Onion.Server.Shaped.{handle_requests-Shaped}
use unified_oramhub.Onion.Ids.Reverse.{reverse_bits_involutive}
use unified_oramhub.Onion.Ids.{reverse_bits, select_slots, select_slot, find_slot}
use unified_oramhub.Onion.Client.{
  RandomLaws, leaf_refresh, Random, World, read_block, write_block, new_client, random_positions,
}
use unified_oramhub.Onion.Slots.{init_tree}
use unified_oramhub.Onion.Client.Refresh.{leaf_refresh-Holds}
use unified_oramhub.Onion.Client.Holding.{zeros}
use unified_oramhub.Onion.Client.Taking.{Budget}
use unified_oramhub.Onion.Client.Access.{Holds, read_block-Holds, write_block-Holds}
use unified_oramhub.Onion.Client.Start.{new_world, new_world-Holds}
use unified_oramhub.Tests.OnionToy.{toy, toy_laws}

get_bucket_index-lt_example : get_bucket_index 2 3 1 < get_num_tree_nodes 2
get_bucket_index-lt_example = get_bucket_index-lt 2 3 1 (omega arith) (omega arith)

reverse_bits_involutive_example : (reverse_bits 3 3 < 8) × (reverse_bits (reverse_bits 3 3) 3 ≡ 3)
reverse_bits_involutive_example = reverse_bits_involutive 3 3 (omega arith) (omega arith)

abbrev network_of : ℕ → WaksmanNetwork
network_of size = record { size = size; gates = build_network size }

built : (new_waksman_network 3 ≡ ok (network_of 3)) × (new_waksman_network 2 ≡ ok (network_of 2))
unfolding new_waksman_network
built = (refl, refl)

generate_swap_bits_total_example :
    Generated 3 (2 ∷ 0 ∷ 1 ∷ []) (generate_swap_bits (network_of 3) (2 ∷ 0 ∷ 1 ∷ []))
generate_swap_bits_total_example =
    generate_swap_bits_total (network_of 3) 3 (2 ∷ 0 ∷ 1 ∷ []) built.0

one_swap : generate_swap_bits (network_of 2) (1 ∷ 0 ∷ []) ≡ ok (true ∷ [])
unfolding generate_swap_bits build_network phases phase_gates rank_loop synthesize indices same_list
one_swap = refl

one_bit :
    (k : ℕ) (bit : Bool)
    → get_elem? (true ∷ []) k ≡ some bit
    → (g : Bool) × ((get_elem? (true ∷ []) (0 + k) ≡ some g) × (g ≡ bit))
one_bit zero bit e = (true, (refl, ground (arith, e)))
one_bit (suc k) bit e = ground (arith, e)

byte : (v : ℕ) → v < 256 → IsBytes (v ∷ [])
byte v lt zero = lt
byte v lt (suc i) = omega arith

five : (i : ℕ) → i < 1 → Close 0 (toy_laws.phase (5 * unit) i) (at (5 ∷ []) i * unit)
five zero lt = Close-self (5 * unit)
five (suc i) lt = absurd (omega (arith, lt))

few_gates : 2 * (length (build_network 2) * 1 + 0) < unit
unfolding build_network phases phase_gates
few_gates = omega arith

-- The sample of the byte 5 stands at index 1 and comes to index 0.
decrypt_block-eval_waksman_example :
    (out : List ℕ) × ((eval_waksman toy (7 * unit ∷ 5 * unit ∷ []) (map some (true ∷ [])) ≡ ok out)
      × ((d : ℕ) × ((get_elem? out 0 ≡ some d)
            × (decrypt_block toy d client_context 1 ≡ ok (5 ∷ [])))))
decrypt_block-eval_waksman_example =
    decrypt_block-eval_waksman toy toy_laws (network_of 2) 2 (1 ∷ 0 ∷ []) (true ∷ []) built.1
      one_swap (7 * unit ∷ 5 * unit ∷ []) refl (true ∷ []) refl one_bit 0 0 (5 * unit) (5 ∷ [])
      (omega arith) refl five (byte 5 (omega arith)) (omega arith) few_gates

decrypt_block-encrypt_block_example :
    (encrypt_block toy (9 ∷ []) client_context 3 >>= λ c. decrypt_block toy c client_context 1)
    ≡ ok (9 ∷ [])
decrypt_block-encrypt_block_example =
    decrypt_block-encrypt_block toy toy_laws (9 ∷ []) 3 (omega arith) (byte 9 (omega arith))
      (omega arith)

-- A generator that always draws 0 and never moves anything.
abbrev still : Random
still = record { Generator = Unit {0}; uniform = λ n g. (0, g); shuffle = λ xs g. (xs, g) }

abbrev config : RuntimeConfig
config = record { z = 1; s = 1; a = 2; tree_height = 1; num_blocks = 2; block_size = 1 }

handle_requests-Shaped_example :
    Shaped toy config
      (handle_requests toy
        (whole_bucket 1 ∷ whole_bucket 3 ∷ quit ∷ [])
        (init toy (new_server toy config)).1).1
handle_requests-Shaped_example =
    handle_requests-Shaped toy config (whole_bucket 1 ∷ whole_bucket 3 ∷ quit ∷ [])

enough : Budget toy toy_laws config
enough = record { fits = omega arith; quiet = omega arith }

abbrev world : World toy still
world = new_world toy still config tt

abbrev nothing : ℕ → Bytes
nothing addr = zeros config

new_world-Holds_example : Holds toy toy_laws still world nothing
new_world-Holds_example = new_world-Holds toy toy_laws still config tt enough

first : Holds toy toy_laws still world nothing
first = new_world-Holds toy toy_laws still config tt enough

position : get_elem? world.client.pos_map 1 ≡ some 0
unfolding new_client random_positions
position = refl

selection : select_slots world.client.id_map (get_path_from_root 1 0) 1 ≡ ok (0 ∷ 0 ∷ [])
unfolding new_client random_positions select_slots select_slot find_slot get_path_from_root
    path_down child_towards get_num_tree_nodes
selection = refl

read_block-Holds_example :
    (w : World toy still) × ((read_block toy still 1 world ≡ (ok (0 ∷ []), w))
      × Holds toy toy_laws still w nothing)
unfolding new_client
read_block-Holds_example =
    read_block-Holds toy toy_laws still world nothing first 1 0 (0 ∷ 0 ∷ []) (omega arith) position
      selection refl

write_block-Holds_example :
    (w : World toy still) × ((write_block toy still 1 (8 ∷ []) world ≡ (ok tt, w))
      × Holds toy toy_laws still w (update nothing 1 (8 ∷ [])))
unfolding new_client
write_block-Holds_example =
    write_block-Holds toy toy_laws still world nothing first 1 0 (0 ∷ 0 ∷ []) (omega arith) position
      selection refl (8 ∷ []) (byte 8 (omega arith)) refl

still_laws : RandomLaws still
still_laws = record {
  uniform-lt = λ n g lt. lt;
  shuffle-IsPermutation = λ n g. record {
    sized = length-indices n 0;
    arrangement = record {
      bounded = λ p lt. omega (arith, at-indices n 0 p lt, lt);
      different = λ p q lt lt' e. omega (arith, at-indices n 0 p lt, at-indices n 0 q lt', e);
    };
  };
}

id_row : get_elem? world.client.id_map 1 ≡ some (none ∷ none ∷ [])
unfolding new_client get_num_tree_nodes
id_row = refl

sample_row : get_elem? world.server.tree 1 ≡ some (0 ∷ 0 ∷ [])
unfolding init new_server init_tree get_num_tree_nodes
sample_row = refl

leaf_refresh-Holds_example :
    (w : World toy still) × ((leaf_refresh toy still 1 world ≡ (ok tt, w))
      × Holds toy toy_laws still w nothing)
unfolding new_client
leaf_refresh-Holds_example =
    leaf_refresh-Holds toy toy_laws still still_laws world nothing first 1 (none ∷ none ∷ [])
      (0 ∷ 0 ∷ []) id_row sample_row refl refl
