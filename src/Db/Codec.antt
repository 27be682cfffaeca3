-- ===== src/Db/Codec.antt =====
-- The stored record as bytes: what put_record_locked writes, the readers of dmmr_db.c read back.
use http_dmmr_nginx.Base.{
  ℕ, ◌+◌, ◌%◌, ◌^◌, ◌≤◌, ◌<◌, ◌≡◌, refl, sym, ap, ◌∙◌, Bool, true, [], ◌++◌, Option, append_assoc,
  inl, inr, Bool-cases, empty_of_length, arith, Bytes, length, take, drop, replicate, le, of_le,
  length-le, of_le-le, length-append, take_prefix, drop_past, drop_prefix, take_all, if◌then◌else◌,
}
use http_dmmr_nginx.Config.{max_value_len}
use http_dmmr_nginx.Db.Record.{
  CacheEntry, sizeof_cache_entry, record_tombstone, dmmr_record_is_tombstone, dmmr_record_value_len,
  write_entry, read_entry, entry_is_valid,
}
use http_dmmr_nginx.Db.Ops.{bytes_at, record_buffer}

-- What a stored record means, its key left aside.
pub record Entry : Type 0 where
  pub timestamp : ℕ
  pub node_id : ℕ
  pub expire_at : ℕ
  pub tombstone : Bool
  pub value : Bytes

unfoldable pub decode : Bytes → Entry
decode d = record {
  timestamp = (read_entry d).timestamp;
  node_id = (read_entry d).node_id;
  expire_at = (read_entry d).expire_at;
  tombstone = dmmr_record_is_tombstone (read_entry d);
  value = take (dmmr_record_value_len (read_entry d)) (drop sizeof_cache_entry d);
}

-- The ranges of the C types, the size limit, and no value on a tombstone.
pub record IsEntry (e : Entry) : Type 0 where
  pub timestamp_fits : e.timestamp < 2 ^ 64
  pub node_id_fits : e.node_id < 2 ^ 64
  pub expire_at_fits : e.expire_at < 2 ^ 64
  pub value_fits : length e.value ≤ max_value_len
  pub tombstone_empty : e.tombstone ≡ true → length e.value ≡ 0

-- The five pieces of a written entry and what follows it, found at their offsets.
module _ (a b c p x rest : Bytes) (la : length a ≡ 8) (lb : length b ≡ 8) (lc : length c ≡ 4)
    (lp : length p ≡ 4) (lx : length x ≡ 8) where
  abbrev laid_out : Bytes
  laid_out = (a ++ (b ++ (c ++ (p ++ x)))) ++ rest

  flat : laid_out ≡ a ++ (b ++ (c ++ (p ++ (x ++ rest))))
  flat = simp append_assoc

  drop-first : drop 8 laid_out ≡ b ++ (c ++ (p ++ (x ++ rest)))
  drop-first = rw flat (drop_prefix 8 a _ la)

  drop_second : drop 16 laid_out ≡ c ++ (p ++ (x ++ rest))
  drop_second = rw flat (drop_past 8 8 16 a _ refl la ∙ drop_prefix 8 b _ lb)

  drop_fourth : drop 24 laid_out ≡ x ++ rest
  drop_fourth = rw flat (
      drop_past 8 16 24 a _ refl la
      ∙ (drop_past 8 8 16 b _ refl lb ∙ (drop_past 4 4 8 c _ refl lc ∙ drop_prefix 4 p _ lp)))

  drop_all : drop 32 laid_out ≡ rest
  drop_all = rw flat (
      drop_past 8 24 32 a _ refl la
      ∙ (drop_past 8 16 24 b _ refl lb
          ∙ (drop_past 4 12 16 c _ refl lc
              ∙ (drop_past 4 8 12 p _ refl lp ∙ drop_prefix 8 x _ lx))))

  take_first : take 8 laid_out ≡ a
  take_first = rw flat (take_prefix 8 a _ la)

  take_second : take 8 (drop 8 laid_out) ≡ b
  take_second = rw drop-first (take_prefix 8 b _ lb)

  take_third : take 4 (drop 16 laid_out) ≡ c
  take_third = rw drop_second (take_prefix 4 c _ lc)

  take_fifth : take 8 (drop 24 laid_out) ≡ x
  take_fifth = rw drop_fourth (take_prefix 8 x _ lx)

module _ (e : CacheEntry) (rest : Bytes) where
  drop-write_entry : drop 32 (write_entry e ++ rest) ≡ rest
  unfolding write_entry
  drop-write_entry =
      drop_all (le 8 e.timestamp) (le 8 e.node_id) (le 4 e.value_len) (replicate 4 0)
        (le 8 e.expire_at) rest (length-le 8 _) (length-le 8 _) (length-le 4 _) refl (length-le 8 _)

  read-write_entry :
      e.timestamp < 2 ^ 64
      → e.node_id < 2 ^ 64
      → e.value_len < 2 ^ 32
      → e.expire_at < 2 ^ 64
      → read_entry (write_entry e ++ rest) ≡ e
  unfolding read_entry write_entry
  read-write_entry ht hn hv hx = λ i. record {
    timestamp = (ap of_le (take_first a b c p x rest la lb lc refl lx) ∙ of_le-le 8 _ ht) i;
    node_id = (ap of_le (take_second a b c p x rest la lb lc refl lx) ∙ of_le-le 8 _ hn) i;
    value_len = (ap of_le (take_third a b c p x rest la lb lc refl lx) ∙ of_le-le 4 _ hv) i;
    expire_at = (ap of_le (take_fifth a b c p x rest la lb lc refl lx) ∙ of_le-le 8 _ hx) i;
  }
    where
      a : Bytes
      a = le 8 e.timestamp

      b : Bytes
      b = le 8 e.node_id

      c : Bytes
      c = le 4 e.value_len

      p : Bytes
      p = replicate 4 0

      x : Bytes
      x = le 8 e.expire_at

      la : length a ≡ 8
      la = length-le 8 _

      lb : length b ≡ 8
      lb = length-le 8 _

      lc : length c ≡ 4
      lc = length-le 4 _

      lx : length x ≡ 8
      lx = length-le 8 _

length-write_entry :
    (e : CacheEntry) (rest : Bytes) → length (write_entry e ++ rest) ≡ 32 + length rest
unfolding write_entry
length-write_entry e rest = omega (
  arith,
  length-append (write_entry e) rest,
  length-append (le 8 e.timestamp)
      (le 8 e.node_id ++ (le 4 e.value_len ++ (replicate 4 0 ++ le 8 e.expire_at))),
  length-append (le 8 e.node_id) (le 4 e.value_len ++ (replicate 4 0 ++ le 8 e.expire_at)),
  length-append (le 4 e.value_len) (replicate 4 0 ++ le 8 e.expire_at),
  length-le 8 e.timestamp,
  length-le 8 e.node_id,
  length-le 4 e.value_len,
  length-le 8 e.expire_at,
)

-- The bytes that are written for an entry whose value stands at a pointer.
abbrev pub encode : Entry → Option Bytes → Bytes
encode e value = record_buffer e.timestamp e.node_id e.expire_at e.tombstone value (length e.value)

module _ (e : Entry) (value : Option Bytes) (v : IsEntry e) (at : bytes_at value ≡ e.value) where
  header : CacheEntry
  header = record {
    timestamp = e.timestamp;
    node_id = e.node_id;
    value_len = (if e.tombstone then record_tombstone else length e.value) % 2 ^ 32;
    expire_at = e.expire_at;
  }

  payload : Bytes
  payload = if e.tombstone then [] else take (length e.value) (bytes_at value)

  payload-eq : payload ≡ e.value
  unfolding payload
  payload-eq = elim (Bool-cases e.tombstone) [
    | inl dead ↦ rw dead (sym (empty_of_length e.value (v.tombstone_empty dead)))
    | inr alive ↦ rw (alive, at) (take_all (length e.value) e.value (omega arith))
  ]

  read_header : read_entry (encode e value) ≡ header
  unfolding record_buffer header payload
  read_header =
      read-write_entry header payload v.timestamp_fits v.node_id_fits (omega arith) v.expire_at_fits

  header_len : dmmr_record_value_len header ≡ length e.value
  unfolding header dmmr_record_value_len
  header_len = elim (Bool-cases e.tombstone) [
    | inl dead ↦ rw dead (omega (arith, v.tombstone_empty dead))
    | inr alive ↦ rw alive (omega (arith, v.value_fits))
  ]

  header_tombstone : dmmr_record_is_tombstone header ≡ e.tombstone
  unfolding header dmmr_record_is_tombstone
  header_tombstone = elim (Bool-cases e.tombstone) [
    | inl dead ↦ rw dead
    | inr alive ↦ rw alive (ground (arith, v.value_fits))
  ]

  -- A record that is written for an entry within its bounds, from a pointer to its value, reads back
  -- as that entry.
  pub decode-encode : decode (encode e value) ≡ e
  unfolding decode header
  decode-encode = λ i. record {
    timestamp = (read_header i).timestamp;
    node_id = (read_header i).node_id;
    expire_at = (read_header i).expire_at;
    tombstone = (ap dmmr_record_is_tombstone read_header ∙ header_tombstone) i;
    value = value_read i;
  }
    where
      body : drop sizeof_cache_entry (encode e value) ≡ e.value
      body = unfold record_buffer payload header in (drop-write_entry header payload ∙ payload-eq)

      value_read :
          take
            (dmmr_record_value_len (read_entry (encode e value)))
            (drop sizeof_cache_entry (encode e value))
          ≡ e.value
      value_read = rw (body, read_header, header_len) (take_all _ e.value (omega arith))

  total : length (encode e value) ≡ 32 + length e.value
  unfolding record_buffer payload header
  total = length-write_entry header payload ∙ ap (λ bs. 32 + length bs) payload-eq

  -- And it passes the check that every reader makes.
  pub entry_is_valid-encode : entry_is_valid (encode e value) ≡ true
  unfolding entry_is_valid
  entry_is_valid-encode =
      rw (read_header, header_len, header_tombstone)
        (ground (arith, total, v.value_fits, v.tombstone_empty))
