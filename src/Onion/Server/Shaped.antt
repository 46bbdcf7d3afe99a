-- ===== src/Onion/Server/Shaped.antt =====
-- Every request keeps the shape of the server's tree.
use unified_oramhub.Base.{
  true, ℕ, zero, suc, ◌≡◌, refl, sym, ◌∙◌, ap, List, [], ◌∷◌, map, ◌&&◌, Option, none, some, Result,
  ok, err, out_of_range, runtime_error, inl, inr, arith, length, get_elem?, set, replicate, ltb,
  ◌==◌, eq-or-ne, length-set, length-replicate,
}
use unified_oramhub.Base.State.{lift}
use unified_oramhub.Core.Memory.{Bytes}
use unified_oramhub.Tree.{get_path_from_root}
use unified_oramhub.Onion.{RuntimeConfig, bucket_slots, num_tree_nodes}
use unified_oramhub.Onion.Tfhe.{Tfhe}
use unified_oramhub.Onion.Slots.{
  deserialize_uint64_vector, receive_selections, OnionBucket, path_sum, assemble_child_slots,
  replace_bucket, init_tree,
}
use unified_oramhub.Onion.Waksman.Evaluate.{eval_waksman}
use unified_oramhub.Onion.Server.{
  ChildUpdate, Refresh, Server, new_server, init, stop, put_slot, handle_access, clear_slots,
  handle_clear_path, checked_bucket, handle_read_bucket, handle_write_slot, receive_swap_bits,
  receive_child_update, handle_evict_triplet, receive_slots, handle_leaf_refresh,
}
use unified_oramhub.Onion.Server.Requests.{
  Request, Reply, quit, path, clear_path, whole_bucket, new_slot, triplet, refresh, unknown,
  acknowledged, sum, samples, reply_with, and_then, serve, serve_requests, handle_requests,
}
use unified_oramhub.Onion.Server.Keeps.{
  Shaped, Keeps, Any, IsWhole, Keeps-then, lift-Keeps, pure-Keeps, gets-Keeps, check-Keeps,
  bucket_at-Keeps, put_bucket-Keeps,
}

module _ (tfhe : Tfhe) (config : RuntimeConfig) where
  put_slot-Keeps :
      (idx slot : ℕ) (sample : tfhe.Rlwe)
      → Keeps tfhe config (Any tfhe config) (put_slot tfhe idx slot sample)
  unfolding put_slot
  put_slot-Keeps idx slot sample =
      Keeps-then tfhe config _ _ (bucket_at-Keeps tfhe config idx) (λ bucket whole.
        Keeps-then tfhe config _ _ (check-Keeps tfhe config (ltb slot (length bucket)) out_of_range)
          (λ u v.
            put_bucket-Keeps tfhe config idx (set bucket slot sample)
              (length-set bucket slot sample ∙ whole)))

  handle_access-Keeps :
      (leaf : ℕ) (words : List ℕ)
      → Keeps tfhe config (Any tfhe config) (handle_access tfhe leaf words)
  unfolding handle_access
  handle_access-Keeps leaf words =
      Keeps-then tfhe config _ _ (gets-Keeps tfhe config (λ s. s)) (λ s u.
        Keeps-then tfhe config _ _
          (lift-Keeps tfhe config (
            receive_selections (bucket_slots s.config)
              (get_path_from_root s.config.tree_height leaf) words))
          (λ selections v.
            Keeps-then tfhe config _ _
              (lift-Keeps tfhe config (
                path_sum tfhe s.tree (get_path_from_root s.config.tree_height leaf) selections
                  tfhe.clear))
              (λ sample w. pure-Keeps tfhe config (tfhe.export_tlwe sample))))

  clear_slots-Keeps :
      (slots : ℕ) (nodes words : List ℕ)
      → Keeps tfhe config (Any tfhe config) (clear_slots tfhe slots nodes words)
  unfolding clear_slots
  clear_slots-Keeps slots [] words = pure-Keeps tfhe config tt
  clear_slots-Keeps slots (idx ∷ nodes) [] = lift-Keeps tfhe config (err runtime_error)
  clear_slots-Keeps slots (idx ∷ nodes) (word ∷ words) =
      Keeps-then tfhe config _ _ (check-Keeps tfhe config (ltb word slots) out_of_range) (λ u v.
        Keeps-then tfhe config _ _ (put_slot-Keeps idx word tfhe.clear)
          (λ u v. clear_slots-Keeps slots nodes words))

  handle_clear_path-Keeps :
      (leaf : ℕ) (words : List ℕ)
      → Keeps tfhe config (Any tfhe config) (handle_clear_path tfhe leaf words)
  unfolding handle_clear_path
  handle_clear_path-Keeps leaf words =
      Keeps-then tfhe config _ _ (gets-Keeps tfhe config (λ s. s.config))
        (λ c u. clear_slots-Keeps (bucket_slots c) (get_path_from_root c.tree_height leaf) words)

  checked_bucket-Keeps :
      (idx : ℕ) → Keeps tfhe config (IsWhole tfhe config) (checked_bucket tfhe idx)
  unfolding checked_bucket
  checked_bucket-Keeps idx =
      Keeps-then tfhe config _ _ (gets-Keeps tfhe config (λ s. s.tree)) (λ tree u.
        Keeps-then tfhe config _ _ (check-Keeps tfhe config (ltb idx (length tree)) out_of_range)
          (λ u v. bucket_at-Keeps tfhe config idx))

  handle_read_bucket-Keeps :
      (idx : ℕ) → Keeps tfhe config (Any tfhe config) (handle_read_bucket tfhe idx)
  unfolding handle_read_bucket
  handle_read_bucket-Keeps idx =
      Keeps-then tfhe config _ _ (checked_bucket-Keeps idx)
        (λ bucket w. pure-Keeps tfhe config (map tfhe.export_tlwe bucket))

  handle_write_slot-Keeps :
      (idx slot : ℕ) (bytes : Bytes)
      → Keeps tfhe config (Any tfhe config) (handle_write_slot tfhe idx slot bytes)
  unfolding handle_write_slot
  handle_write_slot-Keeps idx slot bytes =
      Keeps-then tfhe config _ _ (checked_bucket-Keeps idx) (λ bucket w.
        Keeps-then tfhe config _ _ (check-Keeps tfhe config (ltb slot (length bucket)) out_of_range)
          (λ u v. put_slot-Keeps idx slot (tfhe.import_tlwe bytes)))

  -- What replaces a bucket is as large as it.
  replace_bucket-Keeps :
      (bucket : OnionBucket tfhe) (contents : List tfhe.Rlwe)
      → IsWhole tfhe config bucket
      → Keeps tfhe config (IsWhole tfhe config) (lift (replace_bucket tfhe bucket contents))
  unfolding replace_bucket
  replace_bucket-Keeps bucket contents w = elim (eq-or-ne (length bucket) (length contents)) [
    | inl e ↦ record { shaped = λ s h. h; result = λ s a h r. ground (arith, e, w, r) }
    | inr ne ↦ record { shaped = λ s h. h; result = λ s a h r. ground (arith, ne, r) }
  ]

  receive_child_update-Keeps :
      (source child : ℕ) (update : ChildUpdate)
      → Keeps tfhe config (Any tfhe config) (receive_child_update tfhe source child update)
  unfolding receive_child_update
  receive_child_update-Keeps source child update =
      Keeps-then tfhe config _ _
        (lift-Keeps tfhe config (deserialize_uint64_vector update.source_bytes))
        (λ source_slots u.
          Keeps-then tfhe config _ _
            (lift-Keeps tfhe config (deserialize_uint64_vector update.child_bytes))
            (λ child_slots u.
              Keeps-then tfhe config _ _ (gets-Keeps tfhe config (λ s. s.config)) (λ c u.
                Keeps-then tfhe config _ _ (bucket_at-Keeps tfhe config source) (λ source_bucket u.
                  Keeps-then tfhe config _ _ (bucket_at-Keeps tfhe config child) (λ child_bucket w.
                    Keeps-then tfhe config _ _
                      (lift-Keeps tfhe config (
                        assemble_child_slots tfhe source_bucket source_slots child_bucket
                          child_slots (bucket_slots c)))
                      (λ assembled u.
                        Keeps-then tfhe config _ _
                          (lift-Keeps tfhe config
                            (eval_waksman tfhe assembled (receive_swap_bits tfhe update.swap_bits)))
                          (λ permuted u.
                            Keeps-then tfhe config _ _
                              (replace_bucket-Keeps child_bucket permuted w)
                              (λ contents v. put_bucket-Keeps tfhe config child contents v))))))))

  handle_evict_triplet-Keeps :
      (source left right : ℕ) (left_update right_update : ChildUpdate)
      → Keeps tfhe config
          (Any tfhe config)
          (handle_evict_triplet tfhe source left right left_update right_update)
  unfolding handle_evict_triplet
  handle_evict_triplet-Keeps source left right left_update right_update =
      Keeps-then tfhe config _ _ (gets-Keeps tfhe config (λ s. length s.tree)) (λ nodes u.
        Keeps-then tfhe config _ _
          (check-Keeps tfhe config (ltb source nodes && ltb left nodes && ltb right nodes)
            out_of_range)
          (λ u v.
            Keeps-then tfhe config _ _ (receive_child_update-Keeps source left left_update) (λ u v.
              Keeps-then tfhe config _ _ (receive_child_update-Keeps source right right_update)
                (λ u v. Keeps-then tfhe config _ _ (bucket_at-Keeps tfhe config source) (λ bucket w.
                  put_bucket-Keeps tfhe config source (map (λ sample. tfhe.clear) bucket)
                    (length_cleared bucket ∙ w))))))
    where
      length_cleared :
          (bucket : OnionBucket tfhe) → length (map (λ sample. tfhe.clear) bucket) ≡ length bucket
      length_cleared [] = refl
      length_cleared (c ∷ bucket) = ap suc (length_cleared bucket)

  handle_leaf_refresh-Keeps :
      (idx : ℕ) (client : List Bytes → Refresh)
      → Keeps tfhe config (Any tfhe config) (handle_leaf_refresh tfhe idx client)
  unfolding handle_leaf_refresh
  handle_leaf_refresh-Keeps idx client =
      Keeps-then tfhe config _ _ (checked_bucket-Keeps idx) (λ bucket w.
        Keeps-then tfhe config _ _ (gets-Keeps tfhe config (λ s. s.config)) (λ c u.
          Keeps-then tfhe config _ _ (pure-Keeps tfhe config (client (map tfhe.export_tlwe bucket)))
            (λ answer u.
              Keeps-then tfhe config _ _
                (check-Keeps tfhe config (answer.command == 70) runtime_error)
                (λ u v.
                  Keeps-then tfhe config _ _
                    (lift-Keeps tfhe config (receive_slots tfhe (bucket_slots c) answer.slots))
                    (λ refreshed u.
                      Keeps-then tfhe config _ _
                        (lift-Keeps tfhe config
                          (eval_waksman tfhe refreshed (receive_swap_bits tfhe answer.swap_bits)))
                        (λ permuted u.
                          Keeps-then tfhe config _ _ (replace_bucket-Keeps bucket permuted w)
                            (λ contents v. put_bucket-Keeps tfhe config idx contents v)))))))

  reply_with-Shaped :
      {A : Type 0} (f : A → Reply) (r : Result A × Server tfhe)
      → Shaped tfhe config r.1
      → Shaped tfhe config (reply_with tfhe f r).1
  reply_with-Shaped f (ok a, s) h = h
  reply_with-Shaped f (err e, s) h = h

  serve-Shaped :
      (request : Request) (s : Server tfhe)
      → Shaped tfhe config s
      → Shaped tfhe config (serve tfhe request s).1
  unfolding serve
  serve-Shaped quit s h = h
  serve-Shaped (path leaf words) s h =
      reply_with-Shaped sum _ ((handle_access-Keeps leaf words).shaped s h)
  serve-Shaped (clear_path leaf words) s h =
      reply_with-Shaped (λ _. acknowledged) _ ((handle_clear_path-Keeps leaf words).shaped s h)
  serve-Shaped (whole_bucket idx) s h =
      reply_with-Shaped samples _ ((handle_read_bucket-Keeps idx).shaped s h)
  serve-Shaped (new_slot idx slot bytes) s h =
      reply_with-Shaped (λ _. acknowledged) _ ((handle_write_slot-Keeps idx slot bytes).shaped s h)
  serve-Shaped (triplet source left right left_update right_update) s h =
      reply_with-Shaped (λ _. acknowledged) _
        ((handle_evict_triplet-Keeps source left right left_update right_update).shaped s h)
  serve-Shaped (refresh idx client) s h =
      reply_with-Shaped (λ _. acknowledged) _ ((handle_leaf_refresh-Keeps idx client).shaped s h)
  serve-Shaped unknown s h = h

  stop-Shaped : (s : Server tfhe) → Shaped tfhe config s → Shaped tfhe config (stop tfhe s)
  unfolding stop
  stop-Shaped s h = record { same_config = h.same_config; nodes = h.nodes; slots = h.slots }

  and_then-Shaped :
      (r : Option Reply × Server tfhe) (rest : Server tfhe → List Reply × Server tfhe)
      → Shaped tfhe config r.1
      → ((s : Server tfhe) → Shaped tfhe config s → Shaped tfhe config (rest s).1)
      → Shaped tfhe config (and_then tfhe r rest).1
  and_then-Shaped (none, s) rest h all = stop-Shaped s h
  and_then-Shaped (some reply, s) rest h all = all s h

  serve_requests-Shaped :
      (requests : List Request) (s : Server tfhe)
      → Shaped tfhe config s
      → Shaped tfhe config (serve_requests tfhe requests s).1
  unfolding serve_requests
  serve_requests-Shaped [] s h = stop-Shaped s h
  serve_requests-Shaped (request ∷ rest) s h =
      and_then-Shaped (serve tfhe request s) (serve_requests tfhe rest) (serve-Shaped request s h)
        (serve_requests-Shaped rest)

get_elem?-replicate :
    {A : Type 0} (n i : ℕ) (a b : A) → get_elem? (replicate n a) i ≡ some b → a ≡ b
get_elem?-replicate zero i a b e = ground (arith, e)
get_elem?-replicate (suc n) zero a b e = ground (arith, e)
get_elem?-replicate (suc n) (suc i) a b e = get_elem?-replicate n i a b e

init-Shaped :
    (tfhe : Tfhe) (config : RuntimeConfig)
    → Shaped tfhe config (init tfhe (new_server tfhe config)).1
unfolding init init_tree new_server
init-Shaped tfhe config = record {
  same_config = refl;
  nodes = length-replicate (num_tree_nodes config) (replicate (bucket_slots config) tfhe.clear);
  slots = λ idx bucket e.
      ap length (
        sym (
          get_elem?-replicate (num_tree_nodes config) idx
            (replicate (bucket_slots config) tfhe.clear) bucket e))
      ∙ length-replicate (bucket_slots config) tfhe.clear;
}

-- After Init and any sequence of requests, also malformed ones, the server has the configured
-- number of buckets, each with the configured number of slots.
pub handle_requests-Shaped :
    (tfhe : Tfhe) (config : RuntimeConfig) (requests : List Request)
    → Shaped tfhe config (handle_requests tfhe requests (init tfhe (new_server tfhe config)).1).1
unfolding handle_requests
handle_requests-Shaped tfhe config requests =
    let s = (init tfhe (new_server tfhe config)).1 in
    let h = init-Shaped tfhe config in
    serve_requests-Shaped tfhe config requests (record s { running = true })
      (record { same_config = h.same_config; nodes = h.nodes; slots = h.slots })
