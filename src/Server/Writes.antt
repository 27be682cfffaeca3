-- ===== src/Server/Writes.antt =====
-- What the handlers of SET, SYNC and DEL in dmmr_server.c do to the entries of the database and to the
-- queue of commands.
use http_dmmr_nginx.Base.{
  ℕ, ◌≡◌, ◌+◌, ◌%◌, ◌^◌, ◌<◌, refl, ap, ◌∙◌, ◌⊎◌, Bool, true, false, ◌||◌, List, [], ◌∷◌, ◌++◌,
  Option, none, some, arith, Bytes, length, ◌==◌, if◌then◌else◌, bytes_eq,
}
use http_dmmr_nginx.Config.Op
use http_dmmr_nginx.Db.Codec.{Entry, IsEntry, encode}
use http_dmmr_nginx.Db.Converge.{pointer, bytes_at-pointer}
use http_dmmr_nginx.Db.Lww.{merge, result_of}
use http_dmmr_nginx.Db.Record.{DbResult, applied, ignored, not_found, error, sizeof_cache_entry}
use http_dmmr_nginx.Db.Ops.{BerkeleyDb, db_set_with_meta, db_del_key}
use http_dmmr_nginx.Db.Refine.{db_apply_record-merge}
use http_dmmr_nginx.Db.Views.{IsSound, view, holds, apply_entry}
use http_dmmr_nginx.Server.Pipeline.{Asked, IsAsked, handled}
use http_dmmr_nginx.Server.Request.{
  Env, Cache, Cmd, Response, Stats, handle, after_set, after_del, status_ok, status_error,
  ttl_default, count_set, count_del, bare,
}
use http_dmmr_nginx.Server.Store.{db_apply_record-append}
use http_dmmr_nginx.Server.Announce.{announce, pointer_behind, enqueue_broadcast-announce}

-- The entry that a SET stores and announces.
abbrev pub set_entry : Env → ℕ → Bytes → Entry
set_entry env my_node_id value = record {
  timestamp = env.now;
  node_id = my_node_id;
  expire_at = (env.later + ttl_default) % 2 ^ 64;
  tombstone = false;
  value = value;
}

-- The tombstone of a DEL, at a time.
abbrev pub del_entry : ℕ → ℕ → Entry
del_entry now my_node_id = record {
  timestamp = now;
  node_id = my_node_id;
  expire_at = 0;
  tombstone = true;
  value = [];
}

unfoldable pub is_applied : DbResult → Bool
is_applied applied = true
is_applied ignored = false
is_applied not_found = false
is_applied error = false

abbrev pub status_for : DbResult → ℕ
status_for r = if is_applied r then status_ok else status_error

module _ {State : Type 0} (queue : List Cmd) (cache : Cache State) where
  abbrev Leaves : Response × Cache State → DbResult → Option State → List Cmd → Type 0
  Leaves d code dbp control =
      (d.0 ≡ bare (status_for code)) × (d.1.dbp ≡ dbp) × (d.1.control ≡ control)

  after_set-Leaves :
      (r : DbResult × Option State) (code : DbResult)
      → r.0 ≡ code
      → Leaves
          (after_set false queue cache r)
          code
          r.1
          (if is_applied code then queue else cache.control)
  unfolding after_set is_applied
  after_set-Leaves (applied, dbp) code h = rw (← h) (refl, refl, refl)
  after_set-Leaves (ignored, dbp) code h = rw (← h) (refl, refl, refl)
  after_set-Leaves (not_found, dbp) code h = rw (← h) (refl, refl, refl)
  after_set-Leaves (error, dbp) code h = rw (← h) (refl, refl, refl)

  after_del-Leaves :
      (r : DbResult × Option State) (code : DbResult)
      → r.0 ≡ code
      → Leaves (after_del false queue cache r) code r.1 queue
  unfolding after_del is_applied
  after_del-Leaves (applied, dbp) code h = rw (← h) (refl, refl, refl)
  after_del-Leaves (ignored, dbp) code h = rw (← h) (refl, refl, refl)
  after_del-Leaves (not_found, dbp) code h = rw (← h) (refl, refl, refl)
  after_del-Leaves (error, dbp) code h = rw (← h) (refl, refl, refl)

module _ (bdb : BerkeleyDb) (my_node_id : ℕ) (env : Env) (stats : Stats) (control : List Cmd)
    (s : bdb.State) (r : Asked) (j : Bytes) (v : IsAsked r) (now_fits : env.now < 2 ^ 64)
    (node_fits : my_node_id < 2 ^ 64) (sound : IsSound bdb s r.key) (slot : env.cmd_slot ≡ true)
    (room : (n : ℕ) → env.malloc n ≡ true) (memory : (n : ℕ) → env.alloc n ≡ true) where
  open bdb use {State, put}

  abbrev before : Cache State
  before = record { dbp = some s; stats = stats; control = control }

  -- What a write of an entry under the key does: it answers OK exactly when the entry is newer than
  -- the one that is stored, and every key of the database holds what the merge says.
  abbrev Writes : Response × Cache State → Entry → List Cmd → Type 0
  Writes d e queue =
      (d.0 ≡ bare (status_for (result_of (view bdb s r.key) e)))
      × (holds bdb d.1.dbp j
          ≡ (if bytes_eq r.key j then merge (view bdb s r.key) e else view bdb s j))
      × (d.1.control ≡ queue)

  set_entry-IsEntry : IsEntry (set_entry env my_node_id r.value)
  set_entry-IsEntry = record {
    timestamp_fits = now_fits;
    node_id_fits = node_fits;
    expire_at_fits = omega arith;
    value_fits = v.value_fits;
    tombstone_empty = λ e. cc;
  }

  del_entry-IsEntry : IsEntry (del_entry env.now my_node_id)
  del_entry-IsEntry = record {
    timestamp_fits = now_fits;
    node_id_fits = node_fits;
    expire_at_fits = omega arith;
    value_fits = omega arith;
    tombstone_empty = λ e. refl;
  }

  -- A SET or a SYNC that a client sends, with memory and a free command and a put that succeeds,
  -- stores its value under its key, with the time of the request, unless what is stored there is
  -- newer, and then answers with an error; other keys are as they were. What is stored, and nothing
  -- else, is put at the end of the queue for the peers, with the same stamp, expiry and value.
  pub handled-set :
      (t : State)
      → (r.opcode ≡ Op.set) ⊎ (r.opcode ≡ Op.sync)
      → put s r.key (encode (set_entry env my_node_id r.value) (pointer r.value)) ≡ some t
      → Writes (handled bdb my_node_id env before r) (set_entry env my_node_id r.value) (
          if is_applied (result_of (view bdb s r.key) (set_entry env my_node_id r.value))
          then control ++ announce r.key (set_entry env my_node_id r.value) ∷ []
          else control)
  unfolding handle db_set_with_meta
  handled-set t op stored =
      let e = set_entry env my_node_id r.value in
      let not_get : (r.opcode == Op.get) ≡ false = ground (arith, op) in
      let is_set : ((r.opcode == Op.set) || (r.opcode == Op.sync)) ≡ true = ground (arith, op) in
      let seen =
        db_apply_record-merge bdb env.alloc s r.key j e (pointer r.value) v.key_fits
          set_entry-IsEntry (bytes_at-pointer r.value) t sound
          (memory (sizeof_cache_entry + length r.value)) stored in
      let left =
        after_set-Leaves (control ++ announce r.key e ∷ [])
          (record before { stats = count_set stats })
          (apply_entry bdb env.alloc s r.key e (pointer r.value)) (result_of (view bdb s r.key) e)
          seen.0 in
      rw
        (
          not_get,
          is_set,
          pointer_behind r.key r.value,
          enqueue_broadcast-announce env r.key v.key_fits e v.value_fits slot room r.value control,
          db_apply_record-append bdb env.alloc r.key r.value env.now my_node_id e.expire_at false
              (pointer r.value) (length r.value) (some s),
        )
        (left.0, ap (λ d. holds bdb d j) left.1 ∙ seen.1, left.2)

  -- A DEL that a client sends, with memory and a free command and a put that succeeds, leaves a
  -- tombstone with the time of the request under its key unless what is stored there is newer, and
  -- then answers with an error; other keys are as they were. In either case a tombstone with the
  -- later reading of the clock is put at the end of the queue for the peers.
  pub handled-del :
      (t : State)
      → r.opcode ≡ Op.del
      → put s r.key (encode (del_entry env.now my_node_id) none) ≡ some t
      → Writes
          (handled bdb my_node_id env before r)
          (del_entry env.now my_node_id)
          (control ++ announce r.key (del_entry env.later my_node_id) ∷ [])
  unfolding handle db_del_key
  handled-del t op stored =
      let e = del_entry env.now my_node_id in
      let not_get : (r.opcode == Op.get) ≡ false = ground (arith, op) in
      let not_set : ((r.opcode == Op.set) || (r.opcode == Op.sync)) ≡ false = ground (arith, op) in
      let is_del : (r.opcode == Op.del) ≡ true = ground (arith, op) in
      let seen =
        db_apply_record-merge bdb env.alloc s r.key j e none v.key_fits del_entry-IsEntry refl t
          sound (memory sizeof_cache_entry) stored in
      let queue = control ++ announce r.key (del_entry env.later my_node_id) ∷ [] in
      let left =
        after_del-Leaves queue (record before { stats = count_del stats })
          (apply_entry bdb env.alloc s r.key e none) (result_of (view bdb s r.key) e) seen.0 in
      rw
        (
          not_get,
          not_set,
          is_del,
          enqueue_broadcast-announce env r.key v.key_fits (del_entry env.later my_node_id)
              (omega arith) slot room r.value control,
          db_apply_record-append bdb env.alloc r.key r.value env.now my_node_id 0 true none 0
              (some s),
        )
        (left.0, ap (λ d. holds bdb d j) left.1 ∙ seen.1, left.2)
