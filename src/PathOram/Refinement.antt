-- ===== src/PathOram/Refinement.antt =====
-- The Access of PathORAMClient.cpp, run through the messages between client and server, against
-- a plain memory.
use mathlib.Core.Path.{subst}
use unified_oramhub.Base.{
  ℕ, zero, suc, ◌+◌, ◌-◌, ◌^◌, ◌<◌, ◌≡◌, refl, sym, ◌∙◌, ap, List, [], ◌∷◌, ◌++◌, map, ok, arith,
  length, set, ◌==◌, if◌then◌else◌, get_elem?_total,
}
use unified_oramhub.Base.State.{State, pure, ◌>>=◌}
use unified_oramhub.Core.Memory.{Bytes}
use unified_oramhub.PathOram.Buckets.{data_limit}
use unified_oramhub.Core.{Block, Bucket, Op, read, write}
use unified_oramhub.Crypto.{CtrCipher}
use unified_oramhub.Tree.{get_path_indices, get_num_tree_nodes}
use unified_oramhub.Tree.Levels.{nodes_from, node_at-lt}
use unified_oramhub.Tree.Paths.{get_path_indices-nodes_from}
use unified_oramhub.PathOram.Stash.{real_blocks, evict_blocks, serve_from_stash}
use unified_oramhub.PathOram.Stash.Eviction.{AllFit, IdsBelow, evict_blocks-Evicted}
use unified_oramhub.PathOram.Storage.{Server}
use unified_oramhub.PathOram.Server.Stored.{Stores}
use unified_oramhub.PathOram.Server.PathMessages.{
  AllBelow, AreIvs, length-seal_path, decrypt_all-seal_path, encrypt_entries-seal_entries,
  handle_read_path-Stores, handle_write_path-Stores,
}
use unified_oramhub.PathOram.Writes.{write_tree}
use unified_oramhub.PathOram.PathBuckets.{empty_buckets, empty-AllFit, fill_all}
use unified_oramhub.PathOram.Client.{
  Client, World, Draws, read_path_from_server, write_path_to_server, read_path, write_path, access,
}
use unified_oramhub.PathOram.Invariant.{Represents, ram_access, whole_path, content, content_at}
use unified_oramhub.PathOram.Step

-- What the random sources promise: a leaf of the tree, and vectors of 16 bytes.
pub record DrawsOk (h : ℕ) (d : Draws) : Type 0 where
  pub leaf_ok : d.new_leaf < 2 ^ h
  pub read_ok : AreIvs d.read_ivs
  pub write_ok : AreIvs d.write_ivs

length-nodes_from : (n h l k : ℕ) → length (nodes_from n h l k) ≡ n
unfolding nodes_from
length-nodes_from zero h l k = refl
length-nodes_from (suc n) h l k = ap suc (length-nodes_from n h l (suc k))

nodes_from-AllBelow :
    (n h l k : ℕ) → k + n ≡ suc h → l < 2 ^ h → AllBelow (get_num_tree_nodes h) (nodes_from n h l k)
unfolding nodes_from get_num_tree_nodes
nodes_from-AllBelow zero h l k e b = tt
nodes_from-AllBelow (suc n) h l k e b =
    (node_at-lt h l (h - k) k (omega arith) b, nodes_from-AllBelow n h l (suc k) (omega arith) b)

module _ (cipher : CtrCipher) {h : ℕ} {tree : ℕ → Bucket} (s : Server)
    (st : Stores data_limit h tree s) where
  read_path_from_server-Stores :
      (c : Client) (is : List ℕ) (ivs : ℕ → Bytes)
      → length is ≡ h + 1
      → AllBelow (get_num_tree_nodes h) is
      → AreIvs ivs
      → (s' : Server) × (read_path_from_server cipher is ivs (record { client = c; server = s })
          ≡ (ok (map tree is), record { client = c; server = s' }))
        × Stores data_limit h tree s'
  unfolding read_path_from_server
  read_path_from_server-Stores c is ivs len below sized =
      let (s', run, st') = handle_read_path-Stores cipher s is ivs st len below sized in
      (
        s',
        ground (
          arith,
          run,
          length-seal_path cipher tree is ivs 0,
          decrypt_all-seal_path cipher (get_num_tree_nodes h) tree is ivs 0 st.fits below sized,
        ),
        st',
      )

  write_path_to_server-Stores :
      (c : Client) (is : List ℕ) (bs : List Bucket) (ivs : ℕ → Bytes)
      → length is ≡ h + 1
      → length is ≡ length bs
      → AllBelow (get_num_tree_nodes h) is
      → AllFit data_limit bs
      → AreIvs ivs
      → (s' : Server) × (write_path_to_server cipher is bs ivs (record { client = c; server = s })
          ≡ (ok tt, record { client = c; server = s' }))
        × Stores data_limit h (write_tree is bs tree) s'
  unfolding write_path_to_server
  write_path_to_server-Stores c is bs ivs len same below fit sized =
      let (s', run, st') =
        handle_write_path-Stores cipher h is bs tree s ivs st len same below fit sized in
      (
        s',
        ground (arith, run, same, encrypt_entries-seal_entries cipher is bs ivs 0 fit sized),
        st',
      )

  module _ (c : Client) (l : ℕ) (ivs : ℕ → Bytes) (sized : AreIvs ivs) (l_lt : l < 2 ^ h)
      (height : c.tree_height ≡ h) where
    path_eq : get_path_indices c.tree_height l ≡ nodes_from (suc h) h l 0
    path_eq = rw height (get_path_indices-nodes_from h l l_lt)

    length-path : length (nodes_from (suc h) h l 0) ≡ h + 1
    length-path = omega (arith, length-nodes_from (suc h) h l 0)

    path-AllBelow : AllBelow (get_num_tree_nodes h) (nodes_from (suc h) h l 0)
    path-AllBelow = nodes_from-AllBelow (suc h) h l 0 (omega arith) l_lt

    read_path-Stores :
        (s' : Server) × (read_path cipher l ivs (record { client = c; server = s }) ≡ (
          ok tt,
          record {
            client = record c { stash = c.stash ++ real_blocks (whole_path tree h l) };
            server = s';
          },
        ))
        × Stores data_limit h tree s'
    unfolding read_path
    read_path-Stores =
        let (s', run, st') =
          read_path_from_server-Stores c (nodes_from (suc h) h l 0) ivs length-path path-AllBelow
            sized in
        (s', ground (arith, path_eq, run), st')

    write_path-Stores :
        (bs : List Bucket) (kept : List Block)
        → evict_blocks c.position_map l c.stash (empty_buckets (suc h)) [] ≡ ok (bs, kept)
        → length (fill_all bs) ≡ suc h
        → AllFit data_limit (fill_all bs)
        → (s' : Server) × (write_path cipher l ivs (record { client = c; server = s })
            ≡ (ok tt, record { client = record c { stash = kept }; server = s' }))
          × Stores data_limit h (write_tree (nodes_from (suc h) h l 0) (fill_all bs) tree) s'
    unfolding write_path
    write_path-Stores bs kept evicted len fit =
        let (s', run, st') =
          write_path_to_server-Stores (record c { stash = kept }) (nodes_from (suc h) h l 0)
            (fill_all bs) ivs length-path (omega (arith, len, length-nodes_from (suc h) h l 0))
            path-AllBelow fit sized in
        let count : length (nodes_from (suc h) h l 0) ≡ suc h = length-nodes_from (suc h) h l 0 in
        (s', rw (path_eq, count, evicted) run, st')

after_ram :
    (op : Op) (addr : ℕ) (bytes : Bytes) (mem : ℕ → Bytes) (stash : List Block) (id : ℕ)
    (old : Bytes)
    → (serve_from_stash read addr bytes stash).0 ≡ mem addr
    → old ≡ mem id
    → ((serve_from_stash op addr bytes stash).0 ≡ (ram_access op addr bytes mem).0)
      × ((if addr == id then (serve_from_stash op addr bytes stash).0 else old)
          ≡ (ram_access op addr bytes mem).1 id)
unfolding serve_from_stash ram_access
after_ram read addr bytes mem stash id old e o = ground (arith, ap mem)
after_ram write addr bytes mem stash id old e o = (refl, ground (arith, o))

-- One access of a block below num_blocks, with data of less than data_limit = 536870893 bytes, a
-- leaf of the tree and 16-byte vectors drawn, in a world that represents a memory with data
-- below the same limit succeeds, returns what the plain memory returns, and leaves a world that
-- represents the memory after it.
pub access-Represents :
    (cipher : CtrCipher) (h n : ℕ) (w : World) (mem : ℕ → Bytes)
    → Represents data_limit h n w mem
    → (op : Op) (addr : ℕ) (bytes : Bytes) (d : Draws) → addr < n
    → length bytes < data_limit
    → DrawsOk h d
    → (w' : World) × (access cipher op addr bytes d w ≡ (ok (ram_access op addr bytes mem).0, w'))
      × Represents data_limit h n w' (ram_access op addr bytes mem).1
unfolding access
access-Represents cipher h n w mem rep op addr bytes d lt short draws =
    let c = w.client in
    let lt' : addr < c.num_blocks = omega (arith, rep.blocks) in
    let (l, old) = get_elem?_total c.position_map addr (omega (arith, lt', rep.inv.sized)) in
    let new = d.new_leaf in
    let c₁ : Client = record c { position_map = set c.position_map addr new } in
    let l_lt = rep.inv.leaves addr l old in
    let (s₁, run₁, st₁) =
      read_path-Stores cipher w.server rep.stored c₁ l d.read_ivs draws.read_ok l_lt
        rep.inv.height in
    let fits = rep.stored.fits in
    let stash = Step.read_stash rep.inv op addr bytes new l lt' draws.leaf_ok short old fits in
    let known = Step.served-IdsBelow rep.inv op addr bytes new l lt' draws.leaf_ok short old fits in
    let good = Step.served-BlocksFit rep.inv op addr bytes new l lt' draws.leaf_ok short old fits in
    let sized =
      Step.length-positions rep.inv op addr bytes new l lt' draws.leaf_ok short old fits in
    let (bs, kept, evicted, ev) =
      evict_blocks-Evicted (set c.position_map addr new) l (serve_from_stash op addr bytes stash).1
        (empty_buckets (suc h)) []
        (subst (λ k. IdsBelow k (serve_from_stash op addr bytes stash).1) (sym sized) known) good
        (empty-AllFit (suc h)) in
    let len =
      Step.length-filled rep.inv op addr bytes new l lt' draws.leaf_ok short old fits bs kept ev in
    let fit =
      Step.filled-AllFit rep.inv op addr bytes new l lt' draws.leaf_ok short old fits bs kept ev in
    let c₂ : Client = record c₁ { stash = (serve_from_stash op addr bytes stash).1 } in
    let (s₂, run₂, st₂) =
      write_path-Stores cipher s₁ st₁ c₂ l d.write_ivs draws.write_ok l_lt rep.inv.height bs kept
        evicted len fit in
    let before : (serve_from_stash read addr bytes stash).0 ≡ mem addr =
      unfold serve_from_stash in ap (content_at c rep.tree h addr) (sym old) ∙ rep.agree addr lt in
    (
      record { client = record c₂ { stash = kept }; server = s₂ },
      rw (old, run₁, run₂)
          (ap (λ b. (ok b, record { client = record c₂ { stash = kept }; server = s₂ }))
            (after_ram op addr bytes mem stash addr (content c rep.tree h addr) before
              (rep.agree addr lt)).0),
      record {
        tree = write_tree (nodes_from (suc h) h l 0) (fill_all bs) rep.tree;
        blocks = rep.blocks;
        stored = st₂;
        inv =
            Step.Inv-after rep.inv op addr bytes new l lt' draws.leaf_ok short old fits bs kept ev;
        agree = λ id id_lt.
            Step.content-after rep.inv op addr bytes new l lt' draws.leaf_ok short old fits bs kept
              ev id (omega (arith, rep.blocks, id_lt))
            ∙ (after_ram op addr bytes mem stash id (content c rep.tree h id) before
                (rep.agree id id_lt)).1;
      },
    )

-- A call of the memory interface, with what it draws.
pub record Call : Type 0 where
  pub op : Op
  pub addr : ℕ
  pub bytes : Bytes
  pub draws : Draws

-- A sequence of accesses by the client; it stops at an exception.
unfoldable pub run_accesses : CtrCipher → List Call → State World (List Bytes)
run_accesses cipher [] = pure []
run_accesses cipher (k ∷ ks) = do
  result ← access cipher k.op k.addr k.bytes k.draws
  results ← run_accesses cipher ks
  pure (result ∷ results)

unfoldable pub run_ram : List Call → (ℕ → Bytes) → List Bytes
run_ram [] mem = []
run_ram (k ∷ ks) mem =
    let (result, mem') = ram_access k.op k.addr k.bytes mem in result ∷ run_ram ks mem'

abbrev pub CallsOk : ℕ → ℕ → List Call → Type 0
CallsOk h n [] = Unit {0}
CallsOk h n (k ∷ ks) =
    ((k.addr < n) × (length k.bytes < data_limit) × DrawsOk h k.draws) × CallsOk h n ks

-- From a world that represents a memory with data of less than data_limit = 536870893 bytes
-- (below which no bucket reaches 2 ^ 31 bytes), every sequence of reads and writes of its
-- blocks, with such data and any leaves of the tree and any 16-byte vectors drawn, succeeds and
-- returns what a plain memory returns.
pub run_accesses-run_ram :
    (cipher : CtrCipher) (h n : ℕ) (calls : List Call) (w : World) (mem : ℕ → Bytes)
    → Represents data_limit h n w mem
    → CallsOk h n calls
    → (run_accesses cipher calls w).0 ≡ ok (run_ram calls mem)
unfolding run_accesses run_ram
run_accesses-run_ram cipher h n [] w mem rep fine = refl
run_accesses-run_ram cipher h n (k ∷ ks) w mem rep (now, later) =
    let (w', run, rep') =
      access-Represents cipher h n w mem rep k.op k.addr k.bytes k.draws now.0 now.1 now.2 in
    let rest =
      run_accesses-run_ram cipher h n ks w' (ram_access k.op k.addr k.bytes mem).1 rep' later in
    rw run (ground (arith, rest))
