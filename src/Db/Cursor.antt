-- ===== src/Db/Cursor.antt =====
-- db_snapshot_foreach of dmmr_db.c: the walk over all records with a cursor.
use http_dmmr_nginx.Base.{
  ℕ, Bool, not, ◌&&◌, ◌||◌, List, [], ◌∷◌, Option, none, some, Bytes, ltb, ◌==◌, if◌then◌else◌,
  length, take, drop,
}
use http_dmmr_nginx.Config.{max_key_len}
use http_dmmr_nginx.Db.Ops.{BerkeleyDb, Fetch, fetched, fetch_failed}
use http_dmmr_nginx.Db.Record.{
  DbResult, applied, error, sizeof_cache_entry, dmmr_record_is_tombstone, dmmr_record_value_len,
  read_entry, entry_is_valid,
}

-- struct dmmr_db_record
pub record DbRecord : Type 0 where
  pub key : Bytes
  pub value : Bytes
  pub timestamp : ℕ
  pub node_id : ℕ
  pub expire_at : ℕ
  pub tombstone : Bool

-- The record that db_snapshot_foreach builds from a fetched pair.
unfoldable pub snapshot_record : Bytes → Bytes → DbRecord
snapshot_record k d = record {
  key = k;
  value = take (dmmr_record_value_len (read_entry d)) (drop sizeof_cache_entry d);
  timestamp = (read_entry d).timestamp;
  node_id = (read_entry d).node_id;
  expire_at = (read_entry d).expire_at;
  tombstone = dmmr_record_is_tombstone (read_entry d);
}

-- The loop of db_snapshot_foreach. A callback returns its own state and 0 for success.
unfoldable pub snapshot_loop {ℓ} :
    {A : Type ℓ} → (ℕ → Bool) → (DbRecord → A → A × ℕ) → List Fetch → A → DbResult × A
snapshot_loop alloc callback [] a = (applied, a)
snapshot_loop alloc callback (fetch_failed ∷ rest) a = (error, a)
snapshot_loop alloc callback (fetched k d ∷ rest) a =
    let value_len = dmmr_record_value_len (read_entry d) in
    let called = callback (snapshot_record k d) a in
    let next = snapshot_loop alloc callback rest called.0 in
    if not (entry_is_valid d) || ((length k == 0) || ltb max_key_len (length k))
    then (error, a)
    else if not (alloc (length k)) || (not (value_len == 0) && not (alloc value_len))
    then (error, a)
    else if called.1 == 0
    then next
    else (error, called.0)

unfoldable pub db_snapshot_foreach {ℓ} :
    {A : Type ℓ} (bdb : BerkeleyDb)
    → (ℕ → Bool)
    → Option bdb.State
    → Option (DbRecord → A → A × ℕ)
    → A
    → DbResult × A
db_snapshot_foreach bdb alloc dbp none a = (error, a)
db_snapshot_foreach bdb alloc none (some callback) a = (error, a)
db_snapshot_foreach bdb alloc (some s) (some callback) a = elim (bdb.open_cursor s) [
  | none ↦ (error, a)
  | some fetches ↦ snapshot_loop alloc callback fetches a
]
