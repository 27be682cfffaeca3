-- ===== src/Db/Record.antt =====
-- struct cache_entry and its helpers (dmmr_protocol.h), entry_is_valid and incoming_wins (dmmr_db.c).
-- An entry is read from and written to bytes in the layout of a little-endian 64-bit target: two
-- 8-byte words, a 4-byte word with 4 bytes of padding, and an 8-byte word.
use http_dmmr_nginx.Base.{
  ℕ, ◌+◌, ◌/◌, ◌%◌, ◌^◌, Bool, true, false, not, ◌&&◌, ◌||◌, ◌++◌, Bytes, ltb, ◌==◌, if◌then◌else◌,
  length, take, drop, replicate, le, of_le,
}
use http_dmmr_nginx.Config.{max_value_len}

pub data DbResult : Type 0 where
  applied ignored not_found error : DbResult

pub record CacheEntry : Type 0 where
  pub timestamp : ℕ
  pub node_id : ℕ
  pub value_len : ℕ
  pub expire_at : ℕ

abbrev pub sizeof_cache_entry : ℕ
sizeof_cache_entry = 32

-- DMMR_RECORD_TOMBSTONE
abbrev pub record_tombstone : ℕ
record_tombstone = 0x8000_0000

-- The mask with the one bit 31, written as that bit.
unfoldable pub dmmr_record_is_tombstone : CacheEntry → Bool
dmmr_record_is_tombstone entry = not (entry.value_len / 2 ^ 31 % 2 == 0)

-- The mask 0x7fffffff keeps the low 31 bits.
unfoldable pub dmmr_record_value_len : CacheEntry → ℕ
dmmr_record_value_len entry = entry.value_len % 2 ^ 31

unfoldable pub write_entry : CacheEntry → Bytes
write_entry entry =
    le 8 entry.timestamp
    ++ (le 8 entry.node_id ++ (le 4 entry.value_len ++ (replicate 4 0 ++ le 8 entry.expire_at)))

unfoldable pub read_entry : Bytes → CacheEntry
read_entry d = record {
  timestamp = of_le (take 8 d);
  node_id = of_le (take 8 (drop 8 d));
  value_len = of_le (take 4 (drop 16 d));
  expire_at = of_le (take 8 (drop 24 d));
}

-- The DBT's size is the length of its bytes.
unfoldable pub entry_is_valid : Bytes → Bool
entry_is_valid d =
    let entry = read_entry d in
    let value_len = dmmr_record_value_len entry in
    if ltb (length d) sizeof_cache_entry
    then false
    else if ltb max_value_len value_len || ltb (length d) (sizeof_cache_entry + value_len)
    then false
    else if dmmr_record_is_tombstone entry && not (value_len == 0)
    then false
    else true

unfoldable pub incoming_wins : CacheEntry → ℕ → ℕ → Bool
incoming_wins existing timestamp node_id =
    ltb existing.timestamp timestamp
    || ((existing.timestamp == timestamp) && ltb existing.node_id node_id)
