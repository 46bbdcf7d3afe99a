-- ===== src/Ring/Server/Requests.antt =====
-- RingORAMServer::HandleRequests: commands in the order in which they arrive, to the first quit or
-- the first exception; an unknown command is one.
use unified_oramhub.Base.{ℕ, List, [], ◌∷◌, true, false, Option, none, some, Result, ok, err}
use unified_oramhub.Core.Memory.{Bytes}
use unified_oramhub.Ring.Storage.{Server}
use unified_oramhub.Ring.Server.{
  handle_init, handle_read_path_metadata, handle_xor_path_slots, handle_read_bucket,
  handle_write_bucket, handle_read_bucket_count, handle_read_stats,
}

-- The command byte with the payload that follows it.
pub data Request : Type 0 where
  quit : Request
  init_tree : ℕ → List Bytes → Request
  path_metadata : ℕ → Request
  xor_path : ℕ → List ℕ → Request
  bucket : ℕ → Request
  new_bucket : ℕ → Bytes → Request
  count : ℕ → Request
  stats : Request
  unknown : Request

pub data Reply : Type 0 where
  acknowledged : Reply
  metadata : List Bytes → Reply
  aggregate : Bytes → List Bytes → Reply
  sent_bucket : Bytes → Reply
  sent_count : ℕ → Reply
  sent_stats : ℕ → ℕ → Reply

abbrev pub stop : Server → Server
stop s = record s { running = false }

abbrev reply_with : {A : Type 0} → (A → Reply) → Result A × Server → Option Reply × Server
reply_with f (ok a, s) = (some (f a), s)
reply_with f (err e, s) = (none, s)

-- One command: the reply, or none when the loop ends with it.
unfoldable pub serve : Request → Server → Option Reply × Server
serve quit s = (none, s)
serve (init_tree n messages) s = reply_with (λ _. acknowledged) (handle_init n messages s)
serve (path_metadata leaf) s = reply_with metadata (handle_read_path_metadata leaf s)
serve (xor_path leaf offsets) s =
    reply_with (λ r. aggregate r.0 r.1) (handle_xor_path_slots leaf offsets s)
serve (bucket idx) s = reply_with sent_bucket (handle_read_bucket idx s)
serve (new_bucket idx bytes) s = reply_with (λ _. acknowledged) (handle_write_bucket idx bytes s)
serve (count idx) s = reply_with sent_count (handle_read_bucket_count idx s)
serve stats s = reply_with (λ r. sent_stats r.0 r.1) (handle_read_stats s)
serve unknown s = (none, s)

abbrev and_then : Option Reply × Server → (Server → List Reply × Server) → List Reply × Server
and_then (none, s) rest = ([], stop s)
and_then (some r, s) rest = (r ∷ (rest s).0, (rest s).1)

unfoldable pub serve_requests : List Request → Server → List Reply × Server
serve_requests [] s = ([], stop s)
serve_requests (request ∷ rest) s = and_then (serve request s) (serve_requests rest)

unfoldable pub handle_requests : List Request → Server → List Reply × Server
handle_requests requests s = serve_requests requests (record s { running = true })
