-- ===== src/PathOram/Server/Requests.antt =====
-- PathORAMServer::HandleRequests: commands in the order in which they arrive, to the first quit or
-- the first exception. `ivs` are the vectors drawn for each request.
use unified_oramhub.Base.{ℕ, List, [], ◌∷◌, true, false, ok, err}
use unified_oramhub.Core.Memory.{Bytes}
use unified_oramhub.Crypto.{CtrCipher}
use unified_oramhub.PathOram.Storage.{Server}
use unified_oramhub.PathOram.Server.{
  handle_read_bucket, handle_write_bucket, handle_read_path, handle_write_path,
}

-- The command byte with the payload that follows it.
pub data Request : Type 0 where
  quit : Request
  read_bucket : ℕ → (ℕ → Bytes) → Request
  write_bucket : ℕ → Bytes → Request
  read_path : List ℕ → (ℕ → Bytes) → Request
  write_path : List (ℕ × Bytes) → Request
  unknown : Request

pub data Reply : Type 0 where
  bucket : Bytes → Reply
  path : List Bytes → Reply
  acknowledged : Reply

-- `Stop`, and the end of the loop.
abbrev pub stop : Server → Server
stop s = record s { running = false }

abbrev start : Server → Server
start s = record s { running = true }

abbrev add_reply : Reply → List Reply × Server → List Reply × Server
add_reply r (rs, s) = (r ∷ rs, s)

module _ (cipher : CtrCipher) where
  unfoldable pub serve_requests : List Request → Server → List Reply × Server
  serve_requests [] s = ([], stop s)
  serve_requests (quit ∷ rest) s = ([], stop s)
  serve_requests (read_bucket idx ivs ∷ rest) s =
      let (r, s') = handle_read_bucket cipher idx (ivs 0) s in
      elim r [ ok e ↦ add_reply (bucket e) (serve_requests rest s') | err e ↦ ([], stop s') ]
  serve_requests (write_bucket idx e ∷ rest) s =
      let (r, s') = handle_write_bucket cipher idx e s in
      elim r [ ok _ ↦ serve_requests rest s' | err e ↦ ([], stop s') ]
  serve_requests (read_path indices ivs ∷ rest) s =
      let (r, s') = handle_read_path cipher indices ivs s in
      elim r [ ok es ↦ add_reply (path es) (serve_requests rest s') | err e ↦ ([], stop s') ]
  serve_requests (write_path entries ∷ rest) s =
      let (r, s') = handle_write_path cipher entries s in
      elim r [ ok _ ↦ add_reply acknowledged (serve_requests rest s') | err e ↦ ([], stop s') ]
  serve_requests (unknown ∷ rest) s = serve_requests rest s

  unfoldable pub handle_requests : List Request → Server → List Reply × Server
  handle_requests requests s = serve_requests requests (start s)
