-- ===== src/Db/Expire.antt =====
-- db_tombstone_if_match of dmmr_db.c: a conditional delete of one observed version of a key.
use http_dmmr_nginx.Base.{
  ℕ, ◌≡◌, ◌<◌, ◌^◌, refl, Bool, true, false, not, ◌&&◌, [], Option, none, some, arith,
  if◌then◌else◌, inl, inr, Bytes, length, bytes_eq, ◌==◌, take-length,
}
use http_dmmr_nginx.Db.Codec.{Entry, IsEntry, decode, encode}
use http_dmmr_nginx.Db.Ops.{BerkeleyDb, db_tombstone_if_match}
use http_dmmr_nginx.Db.Record.{DbResult, applied, ignored, not_found}
use http_dmmr_nginx.Db.Views.{
  IsKey, IsSound, view, view_found, view_open, holds, written, put_of, put_record_locked-written,
  put-holds, plenty,
}

-- A live entry that is still the observed version.
unfoldable pub is_observed : ℕ → ℕ → ℕ → Option Entry → Bool
is_observed ts node expire none = false
is_observed ts node expire (some o) =
    not o.tombstone && ((o.timestamp == ts) && ((o.node_id == node) && (o.expire_at == expire)))

-- The tombstone that replaces it.
abbrev pub dead : ℕ → ℕ → Entry
dead ts node = record {
  timestamp = ts;
  node_id = node;
  expire_at = 0;
  tombstone = true;
  value = [];
}

-- What the call reports where it writes nothing.
unfoldable pub declined : Option Entry → DbResult
declined none = not_found
declined (some o) = ignored

module _ (bdb : BerkeleyDb) where
  -- On a key that holds nothing or a valid record, with a calloc and a DB->put that serve: the call
  -- writes the tombstone if the entry is live and has the observed stamp and expiry, and otherwise
  -- changes nothing and reports not found for no entry, ignored for any other.
  pub db_tombstone_if_match-view :
      (s t : bdb.State) (key j : Bytes) (obs_ts obs_node obs_expire ts node : ℕ)
      → IsKey key
      → ts < 2 ^ 64
      → node < 2 ^ 64
      → IsSound bdb s key
      → bdb.put s key (encode (dead ts node) none) ≡ some t
      → let r =
          db_tombstone_if_match bdb plenty
            (some s)
            (some key)
            (length key)
            obs_ts
            obs_node
            obs_expire
            ts
            node in
        let hit = is_observed obs_ts obs_node obs_expire (view bdb s key) in
        (r.0 ≡ (if hit then applied else declined (view bdb s key)))
        × (holds bdb r.1 j ≡ (if hit && bytes_eq key j then some (dead ts node) else view bdb s j))
  unfolding db_tombstone_if_match is_observed declined view view_found holds view_open decode
  db_tombstone_if_match-view s t key j obs_ts obs_node obs_expire ts node k ht hn (inl fresh)
        stored =
      rw (take-length key, fresh) (ground (arith, k))
  db_tombstone_if_match-view s t key j obs_ts obs_node obs_expire ts node k ht hn
        (inr (d, there, valid)) stored =
      rw
        (
          take-length key,
          there,
          valid,
          put_record_locked-written bdb s key (dead ts node) none plenty,
        )
        (ground (
          arith,
          k,
          dead_written,
          put-holds bdb s key (dead ts node) none j dead-IsEntry refl stored,
        ))
    where
      dead-IsEntry : IsEntry (dead ts node)
      dead-IsEntry = record {
        timestamp_fits = ht;
        node_id_fits = hn;
        expire_at_fits = omega arith;
        value_fits = omega arith;
        tombstone_empty = λ _. refl;
      }

      dead_written : written bdb s key (dead ts node) none plenty ≡ (applied, some t)
      dead_written = unfold written put_of in rw stored
