-- ===== src/Server/Gc.antt =====
-- The garbage collector of dmmr_server.c: scan_expired_entries, and gc_worker_routine on what it finds.
-- What the cursor fetches is a parameter.
use http_dmmr_nginx.Base.{
  ℕ, zero, suc, ◌&&◌, Bool, true, false, not, List, [], ◌∷◌, ◌++◌, none, some, if◌then◌else◌, Bytes,
  length, take, min, ltb,
}
use http_dmmr_nginx.Config.{max_key_len}
use http_dmmr_nginx.Db.Ops.{BerkeleyDb, db_del_key}
use http_dmmr_nginx.Db.Record.{sizeof_cache_entry, read_entry}
use http_dmmr_nginx.Server.Request.{Env, Cache, enqueue_broadcast, flag_tombstone}

abbrev pub ttl_scan_chunk_size : ℕ
ttl_scan_chunk_size = 100

-- One call of get on the cursor: a pair, DB_NOTFOUND, or another error.
pub data Scan : Type 0 where
  got : Bytes → Bytes → Scan
  at_end scan_failed : Scan

-- The queue of keys to delete, with the pair's key behind it if the pair has expired and the pool of
-- entries serves it.
unfoldable pub noticed : ℕ → (Bytes → Bool) → Bytes → Bytes → List Bytes → List Bytes
noticed now slot key d queue =
    if not (ltb (length d) sizeof_cache_entry) && ltb (read_entry d).expire_at now
    then (if slot key then queue ++ take (min (length key) max_key_len) key ∷ [] else queue)
    else queue

-- The loop, for as many pairs as are left of a chunk. At the end the cursor starts again. Whether the
-- cursor is still open, and the queue.
unfoldable pub scan_loop : ℕ → ℕ → (Bytes → Bool) → List Scan → List Bytes → Bool × List Bytes
scan_loop zero now slot events queue = (true, queue)
scan_loop (suc n) now slot [] queue = (true, queue)
scan_loop (suc n) now slot (scan_failed ∷ rest) queue = (false, queue)
scan_loop (suc n) now slot (got key d ∷ rest) queue =
    scan_loop n now slot rest (noticed now slot key d queue)
scan_loop (suc n) now slot (at_end ∷ got key d ∷ rest) queue =
    scan_loop n now slot rest (noticed now slot key d queue)
scan_loop (suc n) now slot (at_end ∷ _) queue = (true, queue)

-- `opens` says whether a cursor can be opened when there is none.
unfoldable pub scan_expired_entries :
    Bool → Bool → ℕ → (Bytes → Bool) → List Scan → List Bytes → Bool × List Bytes
scan_expired_entries opens has_cursor now slot events queue =
    if not has_cursor && not opens
    then (false, queue)
    else scan_loop ttl_scan_chunk_size now slot events queue

module _ (bdb : BerkeleyDb) (my_node_id : ℕ) where
  open bdb use {State}

  unfoldable pub gc_entry : Env → Cache State → Bytes → Cache State
  gc_entry env cache key = record cache {
    dbp = (db_del_key bdb env.alloc cache.dbp (some key) (length key) env.now my_node_id).1;
    control =
        enqueue_broadcast env key (length key) none 0 env.later my_node_id 0 flag_tombstone
          cache.control;
  }

  -- The worker's inner loop, until the queue is empty; `env i` is what entry i meets.
  unfoldable pub gc_flush : (ℕ → Env) → Cache State → List Bytes → Cache State
  gc_flush env cache [] = cache
  gc_flush env cache (key ∷ rest) = gc_flush (λ i. env (suc i)) (gc_entry (env 0) cache key) rest
