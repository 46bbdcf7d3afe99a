-- ===== src/Onion/Waksman/Evaluate.antt =====
-- WaksmanNetwork::EvalWaksman: the network on ciphertexts, where the swap bits are encrypted too.
pub mod Gates
pub mod Permutes
use mathlib.Core.Path.{subst}
use unified_oramhub.Base.{
  ℕ, zero, suc, ◌+◌, ◌*◌, ◌≤◌, ◌<◌, ◌≡◌, refl, sym, ◌∙◌, ap, ◌⊎◌, inl, inr, List, [], ◌∷◌, map,
  Bool, true, false, Option, none, some, Result, ok, err, invalid_argument, undefined, guard,
  or_fail, ◌>>=◌, ◌>>◌, arith, length, get_elem?, set, leb, ◌==◌, if◌then◌else◌, Bool-cases,
  eq-or-ne, eq→==, get_elem?-set, length-set, at, get_elem?-lt_length,
}
use unified_oramhub.Core.Memory.{Bytes}
use unified_oramhub.Onion.Adapter.RoundTrip.{Encrypts}
use unified_oramhub.Onion.Torus.{torus, unit, Close, Close-self, Close-trans, Close-weaken}
use unified_oramhub.Onion.Tfhe.{Tfhe, TfheLaws}
use unified_oramhub.Onion.HomOps.{cmux, cmux_selects}
use unified_oramhub.Onion.Waksman.{
  WaksmanGate, WaksmanNetwork, build_network, new_waksman_network, generate_swap_bits,
}
use unified_oramhub.Onion.Waksman.Exchange.{origin}
use unified_oramhub.Onion.Waksman.Sorting.{InRange, build_network-InRange}
use unified_oramhub.Onion.Waksman.Synthesis.{Holds, Numbered, build_network-Numbered}
use unified_oramhub.Onion.Waksman.SwapBits.{
  IsPermutation, routed, routed_self, Routes, generate_swap_bits_total,
}

module _ (tfhe : Tfhe) where
  -- The loop that refuses null pointers.
  unfoldable pub all_present : List (Option tfhe.Rgsw) → Result (List tfhe.Rgsw)
  all_present [] = ok []
  all_present (none ∷ swap_bits) = err invalid_argument
  all_present (some bit ∷ swap_bits) = do rest ← all_present swap_bits; ok (bit ∷ rest)

  unfoldable pub eval_gates :
      List WaksmanGate → List tfhe.Rgsw → List tfhe.Rlwe → Result (List tfhe.Rlwe)
  eval_gates [] swap_bits samples = ok samples
  eval_gates (g ∷ gates) swap_bits samples = do
    bit ← or_fail (get_elem? swap_bits g.bit_idx) undefined
    a ← or_fail (get_elem? samples g.i) undefined
    b ← or_fail (get_elem? samples g.j) undefined
    eval_gates gates swap_bits (set (set samples g.i (cmux tfhe bit b a)) g.j (cmux tfhe bit a b))

  unfoldable pub eval_waksman : List tfhe.Rlwe → List (Option tfhe.Rgsw) → Result (List tfhe.Rlwe)
  eval_waksman samples swap_bits = do
    guard (leb 2 (length samples)) invalid_argument
    bits ← all_present swap_bits
    network ← new_waksman_network (length samples)
    guard (length bits == length network.gates) invalid_argument
    eval_gates network.gates bits samples
