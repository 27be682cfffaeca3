-- ===== src/Db/Tests.antt =====
-- Runs of the operations of dmmr_db.c over a small store, and the theorems at concrete inputs.
use http_dmmr_nginx.Base.{
  ℕ, ◌≡◌, refl, true, false, [], ◌∷◌, none, some, arith, if◌then◌else◌, Bytes, bytes_eq, inl, inr,
  ◌⊎◌, ◌&&◌, ◌++◌, Bool-cases, ◌+◌, ◌==◌, le, of_le,
}
use http_dmmr_nginx.Db.Codec.{Entry, IsEntry, decode, encode, decode-encode, entry_is_valid-encode}
use http_dmmr_nginx.Db.Record.{
  applied, error, not_found, write_entry, read_entry, entry_is_valid, dmmr_record_is_tombstone,
  dmmr_record_value_len, incoming_wins,
}
use http_dmmr_nginx.Db.Lww.{merge, result_of}
use http_dmmr_nginx.Db.Ops.{
  GetOut, db_get_with_meta, record_buffer, db_tombstone_if_match, get_record, db_apply_record,
  apply_found, put_record_locked, fetch_failed,
}
use http_dmmr_nginx.Db.Cursor.{DbRecord, snapshot_loop}
use http_dmmr_nginx.Db.Views.{IsKey, view, holds, apply_entry, plenty}
use http_dmmr_nginx.Db.Refine.{db_apply_record-merge, db_apply_record_atomic}
use http_dmmr_nginx.Db.Sound.{AllSound, db_apply_record-AllSound, db_get_with_meta-view, read_out}
use http_dmmr_nginx.Db.Expire.{db_tombstone_if_match-view, dead, is_observed, declined}
use http_dmmr_nginx.Db.Snapshot.{as_fetches}
use http_dmmr_nginx.Db.Walk.{Walks, snapshot_loop-Walks}
use http_dmmr_nginx.Db.Converge.{Delivery, IsDelivery, pointer, replay, replay_converges}
use http_dmmr_nginx.Db.Toy.{Table, toy, table_get}
use mathlib.Core.List.Perm

abbrev pub key_a : Bytes
key_a = 97 ∷ []

abbrev pub early : Entry
early = record {
  timestamp = 5;
  node_id = 1;
  expire_at = 100;
  tombstone = false;
  value = 7 ∷ 8 ∷ [];
}

abbrev late : Entry
late = record { timestamp = 5; node_id = 2; expire_at = 0; tombstone = true; value = [] }

pub early-IsEntry : IsEntry early
early-IsEntry = record {
  timestamp_fits = omega arith;
  node_id_fits = omega arith;
  expire_at_fits = omega arith;
  value_fits = omega arith;
  tombstone_empty = λ e. cc;
}

late-IsEntry : IsEntry late
late-IsEntry = record {
  timestamp_fits = omega arith;
  node_id_fits = omega arith;
  expire_at_fits = omega arith;
  value_fits = omega arith;
  tombstone_empty = λ _. refl;
}

abbrev pub stored : Table
stored = (key_a, encode early (pointer early.value)) ∷ []

pub stored-AllSound : AllSound toy (some stored)
unfolding table_get
stored-AllSound j = elim (Bool-cases (bytes_eq key_a j)) [
  | inl same ↦ rw same (
      inr (
        encode early (pointer early.value),
        refl,
        entry_is_valid-encode early (pointer early.value) early-IsEntry refl,
      ))
  | inr other ↦ rw other (inl refl)
]

pub key_a-IsKey : IsKey key_a
key_a-IsKey = omega arith

decode-encode_example : decode (encode early (some early.value)) ≡ early
decode-encode_example = decode-encode early (some early.value) early-IsEntry refl

db_apply_record-merge_example :
    let r = apply_entry toy plenty stored key_a late none in
    (r.0 ≡ result_of (view toy stored key_a) late)
    × (holds toy r.1 key_a ≡ (
        if bytes_eq key_a key_a then merge (view toy stored key_a) late else view toy stored key_a))
db_apply_record-merge_example =
    db_apply_record-merge toy plenty stored key_a key_a late none key_a-IsKey late-IsEntry refl
      ((key_a, encode late none) ∷ stored) (stored-AllSound key_a) refl refl

db_apply_record_atomic_example :
    let r = apply_entry toy (λ n. false) stored key_a late none in
    (r ≡ (error, some stored))
    ⊎ ((r.0 ≡ result_of (view toy stored key_a) late)
        × (holds toy r.1 key_a ≡ (
            if bytes_eq key_a key_a
            then merge (view toy stored key_a) late
            else view toy stored key_a)))
db_apply_record_atomic_example =
    db_apply_record_atomic toy (λ n. false) stored key_a key_a late none key_a-IsKey late-IsEntry
      refl (stored-AllSound key_a)

db_apply_record-AllSound_example : AllSound toy (apply_entry toy plenty stored key_a late none).1
db_apply_record-AllSound_example =
    db_apply_record-AllSound toy stored key_a late none late-IsEntry refl stored-AllSound plenty
      key_a-IsKey

abbrev zeros : GetOut
zeros = record { ts = 0; node_id = 0; value = none; value_len = 0; expire_at = 0 }

db_get_with_meta-view_example :
    db_get_with_meta toy plenty (some stored) (some key_a) 1 zeros
    ≡ read_out toy (view toy stored key_a) zeros
db_get_with_meta-view_example =
    db_get_with_meta-view toy stored key_a zeros key_a-IsKey (stored-AllSound key_a)

db_tombstone_if_match-view_example :
    let r = db_tombstone_if_match toy plenty (some stored) (some key_a) 1 5 1 100 9 3 in
    let hit = is_observed 5 1 100 (view toy stored key_a) in
    (r.0 ≡ (if hit then applied else declined (view toy stored key_a)))
    × (holds toy r.1 key_a
        ≡ (if hit && bytes_eq key_a key_a then some (dead 9 3) else view toy stored key_a))
db_tombstone_if_match-view_example =
    db_tombstone_if_match-view toy stored ((key_a, encode (dead 9 3) none) ∷ stored) key_a key_a 5 1
      100 9 3 key_a-IsKey (omega arith) (omega arith) (stored-AllSound key_a) refl

abbrev count_records : DbRecord → ℕ → ℕ × ℕ
count_records r n = (n + 1, 0)

snapshot_loop-Walks_example :
    Walks plenty count_records
      (as_fetches stored ++ (fetch_failed ∷ []))
      0
      (snapshot_loop plenty count_records (as_fetches stored ++ (fetch_failed ∷ [])) 0)
snapshot_loop-Walks_example =
    snapshot_loop-Walks plenty count_records (as_fetches stored ++ (fetch_failed ∷ [])) 0

abbrev first : Delivery
first = record { key = key_a; entry = early }

abbrev second : Delivery
second = record { key = key_a; entry = late }

abbrev origin : Bytes → ℕ → ℕ → Entry
origin k ts node = if node == 1 then early else late

first-IsDelivery : IsDelivery first
first-IsDelivery = record { key_fits = key_a-IsKey; entry_fits = early-IsEntry }

second-IsDelivery : IsDelivery second
second-IsDelivery = record { key_fits = key_a-IsKey; entry_fits = late-IsEntry }

empty-AllSound : AllSound toy (some [])
unfolding table_get
empty-AllSound j = inl refl

replay_converges_example :
    holds toy (replay toy (first ∷ second ∷ []) (some [])) key_a
    ≡ holds toy (replay toy (second ∷ first ∷ []) (some [])) key_a
replay_converges_example =
    replay_converges toy (λ s k d. ((k, d) ∷ s, refl)) (first ∷ second ∷ []) (second ∷ first ∷ [])
      [] [] key_a origin (Perm.swap second first []) (first-IsDelivery, (second-IsDelivery, tt))
      (second-IsDelivery, (first-IsDelivery, tt)) (refl, (refl, tt)) empty-AllSound empty-AllSound
      refl

-- A tombstone that ties on the timestamp and comes from the higher node hides the value.
deleted_reads_absent :
    (db_get_with_meta toy plenty
      (apply_entry toy plenty stored key_a late none).1
      (some key_a)
      1
      zeros).0
    ≡ not_found
unfolding db_get_with_meta get_record db_apply_record apply_found put_record_locked record_buffer
    write_entry read_entry entry_is_valid dmmr_record_is_tombstone dmmr_record_value_len
    incoming_wins table_get bytes_eq le of_le
deleted_reads_absent = refl
