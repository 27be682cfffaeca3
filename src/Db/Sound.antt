-- ===== src/Db/Sound.antt =====
-- Stored records stay valid, and what a read of dmmr_db.c gives back.
use http_dmmr_nginx.Base.{
  ℕ, ◌+◌, ◌≡◌, refl, Bool, true, false, not, Option, none, some, arith, if◌then◌else◌, Bool-cases,
  inl, inr, Bytes, length, bytes_eq, bytes_eq_iff, ◌==◌, length-take, length-drop, take, drop,
  take-length,
}
use http_dmmr_nginx.Db.Codec.{Entry, IsEntry, decode, encode, entry_is_valid-encode}
use http_dmmr_nginx.Db.Ops.{
  BerkeleyDb, Found, found, absent, failed, bytes_at, GetOut, get_record, db_get_with_meta,
}
use http_dmmr_nginx.Db.Record.{
  DbResult, applied, ignored, not_found, sizeof_cache_entry, entry_is_valid, read_entry,
  incoming_wins, dmmr_record_value_len,
}
use http_dmmr_nginx.Db.Views.{
  IsKey, IsSound, view, view_found, apply_entry, written, put_of, answered, apply_entry-answered,
  plenty,
}

stored_value_len :
    (d : Bytes)
    → entry_is_valid d ≡ true
    → length (take (dmmr_record_value_len (read_entry d)) (drop sizeof_cache_entry d))
      ≡ dmmr_record_value_len (read_entry d)
unfolding entry_is_valid
stored_value_len d valid = ground (
  arith,
  length-take (dmmr_record_value_len (read_entry d)) (drop sizeof_cache_entry d),
  length-drop sizeof_cache_entry d,
)

module _ (bdb : BerkeleyDb) where
  open bdb use {State, get, put, get-put, get-put_ne}

  -- The handle is open, and every key holds nothing or a valid record.
  abbrev pub AllSound : Option State → Type 0
  AllSound none = ⊥
  AllSound (some s) = (j : Bytes) → IsSound bdb s j

  module _ (s : State) (key : Bytes) (e : Entry) (value : Option Bytes) (v : IsEntry e)
      (at : bytes_at value ≡ e.value) (sound : (j : Bytes) → IsSound bdb s j) where
    put-IsSound : (t : State) → put s key (encode e value) ≡ some t → (j : Bytes) → IsSound bdb t j
    put-IsSound t p j = elim (Bool-cases (bytes_eq key j)) [
      | inl same ↦ rw (← (bytes_eq_iff key j).0 same) (
          inr (
            encode e value,
            get-put s t key (encode e value) p,
            entry_is_valid-encode e value v at,
          ))
      | inr other ↦
          rw (get-put_ne s t key j (encode e value) p (λ q. cc ((bytes_eq_iff key j).1 q)))
            (sound j)
    ]

    put_of-AllSound :
        (o : Option State)
        → put s key (encode e value) ≡ o
        → AllSound (put_of bdb s key e value o).1
    unfolding put_of
    put_of-AllSound none p = sound
    put_of-AllSound (some t) p = put-IsSound t p

    written-AllSound : (alloc : ℕ → Bool) → AllSound (written bdb s key e value alloc).1
    unfolding written
    written-AllSound alloc =
        elim (Bool-cases
          (alloc (sizeof_cache_entry + (if e.tombstone then 0 else length e.value)))) [
            | inl served ↦ rw served (put_of-AllSound _ refl)
            | inr short ↦ rw short sound
          ]

    answered-AllSound :
        (alloc : ℕ → Bool) (x : Found) → AllSound (answered bdb s key e value alloc x).1
    unfolding answered
    answered-AllSound alloc absent = written-AllSound alloc
    answered-AllSound alloc failed = sound
    answered-AllSound alloc (found d) = elim (Bool-cases (entry_is_valid d)) [
      | inr bad ↦ rw bad sound
      | inl good ↦ rw good (losing_or_written (incoming_wins (read_entry d) e.timestamp e.node_id))
    ]
      where
        losing_or_written :
            (w : Bool)
            → AllSound (if not w then (ignored, some s) else written bdb s key e value alloc).1
        losing_or_written true = written-AllSound alloc
        losing_or_written false = sound

    -- A delivery of an entry within its bounds, under a key of a valid length, keeps an open handle open
    -- and every stored record valid, whatever calloc and DB->put do.
    pub db_apply_record-AllSound :
        (alloc : ℕ → Bool) → IsKey key → AllSound (apply_entry bdb alloc s key e value).1
    db_apply_record-AllSound alloc k =
        rw (apply_entry-answered bdb s key e value alloc k v at)
          (answered-AllSound alloc (get s key))

  -- What a read of an entry gives, with memory for the value.
  unfoldable pub read_out : Option Entry → GetOut → DbResult × GetOut
  read_out none out = (not_found, record out { value = none })
  read_out (some e) out = if e.tombstone then (not_found, record out { value = none }) else (
    applied,
    record {
      ts = e.timestamp;
      node_id = e.node_id;
      value = if length e.value == 0 then none else some e.value;
      value_len = length e.value;
      expire_at = e.expire_at;
    },
  )

  -- With memory for the value, on an open handle and a key of 1 to 1024 bytes that holds nothing or a
  -- valid record, a read answers by the entry there: not found for no entry and for a tombstone, and
  -- otherwise the stored stamp, expiry and value.
  pub db_get_with_meta-view :
      (s : State) (key : Bytes) (out : GetOut)
      → IsKey key
      → IsSound bdb s key
      → db_get_with_meta bdb plenty (some s) (some key) (length key) out
        ≡ read_out (view bdb s key) out
  unfolding db_get_with_meta read_out view view_found get_record decode
  db_get_with_meta-view s key out k (inl fresh) = rw (take-length key, fresh) (ground arith)
  db_get_with_meta-view s key out k (inr (d, stored, valid)) =
      rw (take-length key, stored, valid, stored_value_len d valid)
        (ground (arith, stored_value_len d valid, k))
