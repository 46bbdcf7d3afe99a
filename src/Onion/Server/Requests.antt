-- ===== src/Onion/Server/Requests.antt =====
-- OnionRingServer::HandleRequests: commands in the order in which they arrive, to the first 'Q' or
-- the first exception; an unknown command is one.
use unified_oramhub.Base.{true, ℕ, List, [], ◌∷◌, Option, none, some, Result, ok, err}
use unified_oramhub.Core.Memory.{Bytes}
use unified_oramhub.Onion.Tfhe.{Tfhe}
use unified_oramhub.Onion.Server.{
  ChildUpdate, Refresh, Server, stop, handle_access, handle_clear_path, handle_read_bucket,
  handle_write_slot, handle_evict_triplet, handle_leaf_refresh,
}

-- The command byte with what the client sends after it.
pub data Request : Type 0 where
  quit : Request
  path : ℕ → List ℕ → Request
  clear_path : ℕ → List ℕ → Request
  whole_bucket : ℕ → Request
  new_slot : ℕ → ℕ → Bytes → Request
  triplet : ℕ → ℕ → ℕ → ChildUpdate → ChildUpdate → Request
  refresh : ℕ → (List Bytes → Refresh) → Request
  unknown : Request

pub data Reply : Type 0 where
  acknowledged : Reply
  sum : Bytes → Reply
  samples : List Bytes → Reply

module _ (tfhe : Tfhe) where
  abbrev pub reply_with :
      {A : Type 0} → (A → Reply) → Result A × Server tfhe → Option Reply × Server tfhe
  reply_with f (ok a, s) = (some (f a), s)
  reply_with f (err e, s) = (none, s)

  -- One command: the reply, or none when the loop ends with it.
  unfoldable pub serve : Request → Server tfhe → Option Reply × Server tfhe
  serve quit s = (none, s)
  serve (path leaf words) s = reply_with sum (handle_access tfhe leaf words s)
  serve (clear_path leaf words) s =
      reply_with (λ _. acknowledged) (handle_clear_path tfhe leaf words s)
  serve (whole_bucket idx) s = reply_with samples (handle_read_bucket tfhe idx s)
  serve (new_slot idx slot bytes) s =
      reply_with (λ _. acknowledged) (handle_write_slot tfhe idx slot bytes s)
  serve (triplet source left right left_update right_update) s =
      reply_with (λ _. acknowledged)
        (handle_evict_triplet tfhe source left right left_update right_update s)
  serve (refresh idx client) s =
      reply_with (λ _. acknowledged) (handle_leaf_refresh tfhe idx client s)
  serve unknown s = (none, s)

  abbrev pub and_then :
      Option Reply × Server tfhe
      → (Server tfhe → List Reply × Server tfhe)
      → List Reply × Server tfhe
  and_then (none, s) rest = ([], stop tfhe s)
  and_then (some r, s) rest = (r ∷ (rest s).0, (rest s).1)

  unfoldable pub serve_requests : List Request → Server tfhe → List Reply × Server tfhe
  serve_requests [] s = ([], stop tfhe s)
  serve_requests (request ∷ rest) s = and_then (serve request s) (serve_requests rest)

  unfoldable pub handle_requests : List Request → Server tfhe → List Reply × Server tfhe
  handle_requests requests s = serve_requests requests (record s { running = true })
