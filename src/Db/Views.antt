-- ===== src/Db/Views.antt =====
-- What an operation of dmmr_db.c does to the entries that a handle holds, on every branch.
use http_dmmr_nginx.Base.{
  ℕ, ◌+◌, ◌≤◌, ◌<◌, ◌≡◌, refl, ap, ◌⊎◌, Bool, true, not, Option, none, some, arith, if◌then◌else◌,
  Bool-cases, inl, inr, Bytes, length, take-length, bytes_eq, bytes_eq_iff,
}
use http_dmmr_nginx.Config.{max_key_len}
use http_dmmr_nginx.Db.Codec.{Entry, IsEntry, decode, encode, decode-encode}
use http_dmmr_nginx.Db.Ops.{
  BerkeleyDb, Found, found, absent, failed, bytes_at, is_null, put_record_locked, apply_found,
  db_apply_record,
}
use http_dmmr_nginx.Db.Record.{
  DbResult, applied, ignored, error, sizeof_cache_entry, entry_is_valid, read_entry, incoming_wins,
}

-- A key that db_apply_record accepts.
abbrev pub IsKey : Bytes → Type 0
IsKey key = (0 < length key) × (length key ≤ max_key_len)

-- A calloc that serves a request, and a calloc that does not.
abbrev pub plenty : ℕ → Bool
plenty n = true

module _ (bdb : BerkeleyDb) where
  open bdb use {State, get, put, get-put, get-put_ne}

  unfoldable pub view_found : Found → Option Entry
  view_found (found d) = some (decode d)
  view_found absent = none
  view_found failed = none

  -- The entry under a key.
  unfoldable pub view : State → Bytes → Option Entry
  unfolding view_found
  view s key = view_found (get s key)

  -- What is stored under a key, if anything, passes entry_is_valid.
  abbrev pub IsSound : State → Bytes → Type 0
  IsSound s key =
      (get s key ≡ absent) ⊎ ((d : Bytes) × (get s key ≡ found d) × (entry_is_valid d ≡ true))

  -- db_apply_record as its callers call it: with the length of the key and of the value.
  abbrev pub apply_entry :
      (ℕ → Bool) → State → Bytes → Entry → Option Bytes → DbResult × Option State
  apply_entry alloc s key e value =
      db_apply_record bdb alloc (some s) (some key) (length key) e.timestamp e.node_id e.expire_at
        e.tombstone value (length e.value)

  unfoldable pub view_open : Option State → Bytes → Option Entry
  view_open none j = none
  view_open (some t) j = view t j

  -- The entry under a key of a handle; a closed handle has none.
  unfoldable pub holds : Option State → Bytes → Option Entry
  unfolding view_open
  holds dbp j = view_open dbp j

  module _ (s : State) (key : Bytes) (e : Entry) (value : Option Bytes) where
    unfoldable pub put_of : Option State → DbResult × Option State
    put_of (some t) = (applied, some t)
    put_of none = (error, some s)

    -- put_record_locked, once its arguments are those of an entry.
    unfoldable pub written : (ℕ → Bool) → DbResult × Option State
    unfolding put_of
    written alloc =
        if alloc (sizeof_cache_entry + (if e.tombstone then 0 else length e.value))
        then put_of (put s key (encode e value))
        else (error, some s)

    pub put_record_locked-written :
        (alloc : ℕ → Bool)
        → put_record_locked bdb alloc s key
            (length key)
            e.timestamp
            e.node_id
            e.expire_at
            e.tombstone
            value
            (length e.value)
          ≡ written alloc
    unfolding put_record_locked written
    put_record_locked-written alloc = rw (take-length key) (ground arith)

    -- What is done with the answer of DB->get.
    unfoldable pub answered : (ℕ → Bool) → Found → DbResult × Option State
    answered alloc (found d) =
        if not (entry_is_valid d)
        then (error, some s)
        else if not (incoming_wins (read_entry d) e.timestamp e.node_id)
        then (ignored, some s)
        else written alloc
    answered alloc absent = written alloc
    answered alloc failed = (error, some s)

    apply_found-answered :
        (alloc : ℕ → Bool) (x : Found)
        → apply_found bdb alloc s key
            (length key)
            e.timestamp
            e.node_id
            e.expire_at
            e.tombstone
            value
            (length e.value)
            x
          ≡ answered alloc x
    unfolding apply_found answered
    apply_found-answered alloc (found d) = rw (put_record_locked-written alloc)
    apply_found-answered alloc absent = put_record_locked-written alloc
    apply_found-answered alloc failed = refl

    -- The guards of db_apply_record let an entry under an accepted key through.
    pub apply_entry-answered :
        (alloc : ℕ → Bool)
        → IsKey key
        → IsEntry e
        → bytes_at value ≡ e.value
        → apply_entry alloc s key e value ≡ answered alloc (get s key)
    unfolding db_apply_record
    apply_entry-answered alloc k v at = rw (take-length key) (
        ground (
          arith,
          v.value_fits,
          v.tombstone_empty,
          null value at,
          apply_found-answered alloc (get s key),
        ))
      where
        null : (p : Option Bytes) → bytes_at p ≡ e.value → is_null p ≡ true → length e.value ≡ 0
        null none h n = omega (arith, ap length h)
        null (some bs) h n = cc

    pub put-holds :
        {t : State} (j : Bytes)
        → IsEntry e
        → bytes_at value ≡ e.value
        → put s key (encode e value) ≡ some t
        → view t j ≡ (if bytes_eq key j then some e else view s j)
    unfolding view
    put-holds {t} j v at p = elim (Bool-cases (bytes_eq key j)) [
      | inl same ↦
          rw (same, ← (bytes_eq_iff key j).0 same, get-put s t key (encode e value) p)
            (ap some (decode-encode e value v at))
      | inr other ↦ rw other (
          ap view_found
            (get-put_ne s t key j (encode e value) p (λ q. cc ((bytes_eq_iff key j).1 q))))
    ]
