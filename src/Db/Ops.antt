-- ===== src/Db/Ops.antt =====
-- The operations of dmmr_db.c, over a Berkeley DB handle.
use http_dmmr_nginx.Base.{
  ℕ, ◌+◌, ◌%◌, ◌^◌, Bool, true, false, not, ◌&&◌, ◌||◌, List, [], ◌++◌, Option, none, some, ◌≡◌,
  ◌≢◌, Bytes, ltb, ◌==◌, if◌then◌else◌, take, drop,
}
use http_dmmr_nginx.Config.{max_key_len, max_value_len}
use http_dmmr_nginx.Db.Record.{
  DbResult, applied, ignored, not_found, error, sizeof_cache_entry, record_tombstone,
  dmmr_record_is_tombstone, dmmr_record_value_len, write_entry, read_entry, entry_is_valid,
  incoming_wins,
}

-- What DB->get gives: the data, DB_NOTFOUND, or another error.
pub data Found : Type 0 where
  found : Bytes → Found
  absent failed : Found

-- What one call of cursor->get gives before DB_NOTFOUND.
pub data Fetch : Type 0 where
  fetched : Bytes → Bytes → Fetch
  fetch_failed : Fetch

-- Berkeley DB, as far as the cache calls it, with the documented laws of get after put. A put is atomic:
-- one that fails, `none`, leaves the database as it was.
pub record BerkeleyDb : Type 1 where
  pub State : Type 0
  pub get : State → Bytes → Found
  pub put : State → Bytes → Bytes → Option State
  pub open_cursor : State → Option (List Fetch)
  pub get-put : (s t : State) (k d : Bytes) → put s k d ≡ some t → get t k ≡ found d
  pub get-put_ne : (s t : State) (k j d : Bytes) → put s k d ≡ some t → k ≢ j → get t j ≡ get s j

-- The variables that db_get_with_meta writes through its pointers.
pub record GetOut : Type 0 where
  pub ts : ℕ
  pub node_id : ℕ
  pub value : Option Bytes
  pub value_len : ℕ
  pub expire_at : ℕ

abbrev pub bytes_at : Option Bytes → Bytes
bytes_at none = []
bytes_at (some bs) = bs

abbrev pub is_null : Option Bytes → Bool
is_null none = true
is_null (some _) = false

-- The tests on the key with which every operation begins.
abbrev pub bad_key : Option Bytes → ℕ → Bool
bad_key key key_len = is_null key || ((key_len == 0) || ltb max_key_len key_len)

-- The bytes that put_record_locked hands to DB->put.
unfoldable pub record_buffer : ℕ → ℕ → ℕ → Bool → Option Bytes → ℕ → Bytes
record_buffer timestamp node_id expire_at tombstone value value_len =
    write_entry (record {
      timestamp = timestamp;
      node_id = node_id;
      value_len = (if tombstone then record_tombstone else value_len) % 2 ^ 32;
      expire_at = expire_at;
    })
    ++ (if tombstone then [] else take value_len (bytes_at value))

unfoldable pub get_record : Bytes → GetOut → (ℕ → Bool) → DbResult × GetOut
get_record d out alloc =
    let entry = read_entry d in
    let value_len = dmmr_record_value_len entry in
    let out' : GetOut = record {
      ts = entry.timestamp;
      node_id = entry.node_id;
      value = none;
      value_len = value_len;
      expire_at = entry.expire_at;
    } in
    if not (entry_is_valid d)
    then (error, record out { value = none })
    else if dmmr_record_is_tombstone entry
    then (not_found, record out { value = none })
    else if value_len == 0
    then (applied, out')
    else if alloc value_len
    then (applied, record out' { value = some (take value_len (drop sizeof_cache_entry d)) })
    else (error, out')

module _ (bdb : BerkeleyDb) where
  open bdb use {State, get, put, open_cursor}

  unfoldable pub put_record_locked :
      (ℕ → Bool) → State → Bytes → ℕ → ℕ → ℕ → ℕ → Bool → Option Bytes → ℕ → DbResult × Option State
  put_record_locked alloc s key key_len timestamp node_id expire_at tombstone value value_len =
      if alloc (sizeof_cache_entry + (if tombstone then 0 else value_len))
      then (elim (put s (take key_len key)
          (record_buffer timestamp node_id expire_at tombstone value value_len)) [
            | some t ↦ (applied, some t)
            | none ↦ (error, some s)
          ])
      else (error, some s)

  unfoldable pub db_get_with_meta :
      (ℕ → Bool) → Option State → Option Bytes → ℕ → GetOut → DbResult × GetOut
  db_get_with_meta alloc dbp key key_len out =
      if bad_key key key_len then (error, out) else elim dbp [
        | none ↦ (error, record out { value = none })
        | some s ↦ elim (get s (take key_len (bytes_at key))) [
          | absent ↦ (not_found, record out { value = none })
          | failed ↦ (error, record out { value = none })
          | found d ↦ get_record d out alloc
        ]
      ]

  -- db_apply_record, from the answer of DB->get on.
  unfoldable pub apply_found :
      (ℕ → Bool)
      → State
      → Bytes
      → ℕ
      → ℕ
      → ℕ
      → ℕ
      → Bool
      → Option Bytes
      → ℕ
      → Found
      → DbResult × Option State
  apply_found alloc s key key_len timestamp node_id expire_at tombstone value value_len (found d) =
      if not (entry_is_valid d)
      then (error, some s)
      else if not (incoming_wins (read_entry d) timestamp node_id)
      then (ignored, some s)
      else put_record_locked alloc s key key_len timestamp node_id expire_at tombstone value
          value_len
  apply_found alloc s key key_len timestamp node_id expire_at tombstone value value_len absent =
      put_record_locked alloc s key key_len timestamp node_id expire_at tombstone value value_len
  apply_found alloc s key key_len timestamp node_id expire_at tombstone value value_len failed =
      (error, some s)

  unfoldable pub db_apply_record :
      (ℕ → Bool)
      → Option State
      → Option Bytes
      → ℕ
      → ℕ
      → ℕ
      → ℕ
      → Bool
      → Option Bytes
      → ℕ
      → DbResult × Option State
  db_apply_record alloc dbp key key_len timestamp node_id expire_at tombstone value value_len =
      if bad_key key key_len
        || (ltb max_value_len value_len
            || ((tombstone && not (value_len == 0))
                || (not tombstone && (not (value_len == 0) && is_null value))))
      then (error, dbp)
      else elim dbp [
        | none ↦ (error, none)
        | some s ↦
            apply_found alloc s (bytes_at key) key_len timestamp node_id expire_at tombstone value
              value_len (get s (take key_len (bytes_at key)))
      ]

  unfoldable pub db_set_with_meta :
      (ℕ → Bool)
      → Option State
      → Option Bytes
      → ℕ
      → ℕ
      → ℕ
      → Option Bytes
      → ℕ
      → ℕ
      → DbResult × Option State
  db_set_with_meta alloc dbp key key_len timestamp node_id value value_len expire_at =
      db_apply_record alloc dbp key key_len timestamp node_id expire_at false value value_len

  unfoldable pub db_del_key :
      (ℕ → Bool) → Option State → Option Bytes → ℕ → ℕ → ℕ → DbResult × Option State
  db_del_key alloc dbp key key_len now_micros my_node_id =
      db_apply_record alloc dbp key key_len now_micros my_node_id 0 true none 0

  unfoldable pub db_tombstone_if_match :
      (ℕ → Bool) → Option State → Option Bytes → ℕ → ℕ → ℕ → ℕ → ℕ → ℕ → DbResult × Option State
  db_tombstone_if_match alloc dbp key key_len obs_ts obs_node obs_expire ts node =
      if bad_key key key_len then (error, dbp) else elim dbp [
        | none ↦ (error, none)
        | some s ↦ elim (get s (take key_len (bytes_at key))) [
          | absent ↦ (not_found, some s)
          | failed ↦ (error, some s)
          | found d ↦
              if not (entry_is_valid d)
                || (dmmr_record_is_tombstone (read_entry d)
                    || (not ((read_entry d).timestamp == obs_ts)
                        || (not ((read_entry d).node_id == obs_node)
                            || not ((read_entry d).expire_at == obs_expire))))
              then (ignored, some s)
              else put_record_locked alloc s (bytes_at key) key_len ts node 0 true none 0
        ]
      ]

  unfoldable pub close_db : Option State → Option State
  close_db dbp = none
