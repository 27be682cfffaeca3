-- ===== src/Server/Legacy.antt =====
-- process_legacy_request of dmmr_server.c against the entries of the database.
use http_dmmr_nginx.Base.{
  ℕ, zero, suc, true, false, ◌≡◌, ◌%◌, ◌^◌, refl, [], ◌∷◌, ◌++◌, Option, none, some, List, arith,
  Bytes, length, ltb, ◌==◌, if◌then◌else◌, take, be, Bool-cases, inl, inr, ◌≤◌, ◌<◌,
}
use http_dmmr_nginx.Config.{max_key_len}
use http_dmmr_nginx.Config.Op
use http_dmmr_nginx.Db.Codec.{Entry}
use http_dmmr_nginx.Db.Ops.{BerkeleyDb, db_get_with_meta}
use http_dmmr_nginx.Db.Sound.{db_get_with_meta-view, read_out}
use http_dmmr_nginx.Db.Views.{IsKey, IsSound, view, plenty}
use http_dmmr_nginx.Server.Net.{Send, send_full}
use http_dmmr_nginx.Server.Request.{
  Env, Cache, no_out, process_legacy_request, legacy_answer, send_legacy_response, status_ok,
  status_error, status_not_found,
}
use http_dmmr_nginx.Server.Store.{live}

-- The answer to a legacy GET, or `none` where the handler writes past the end of its buffer.
unfoldable pub legacy_bytes : Option Bytes → Option (Bytes × List Send)
legacy_bytes none = some (be 2 status_error ++ be 2 0, [])
legacy_bytes (some v) =
    let len = length v % 2 ^ 16 in
    if ltb 4096 len then none else some (be 2 status_ok ++ (be 2 len ++ take len v), [])

module _ (bdb : BerkeleyDb) where
  legacy_answer-legacy_bytes :
      (v : Option Entry) → legacy_answer [] (read_out bdb v no_out) ≡ legacy_bytes (live v)
  unfolding legacy_answer legacy_bytes live read_out send_legacy_response be send_full
  legacy_answer-legacy_bytes none = refl
  legacy_answer-legacy_bytes (some e) = elim (Bool-cases e.tombstone) [
    | inl dead ↦ rw dead refl
    | inr alive ↦ rw alive (valued e.value)
  ]
    where
      valued :
          (v : Bytes)
          → send_legacy_response 0 (length v % 2 ^ 16) (if length v == 0 then none else some v) []
            ≡ (if ltb 4096 (length v % 2 ^ 16)
                then none
                else some (be 2 0 ++ (be 2 (length v % 2 ^ 16) ++ take (length v % 2 ^ 16) v), []))
      valued [] = refl
      valued (x ∷ xs) =
          let full : (length (x ∷ xs) == 0) ≡ false = ground arith in
          rw full (sized (length (x ∷ xs) % 2 ^ 16))
        where
          sized :
              (n : ℕ)
              → send_legacy_response 0 n (some (x ∷ xs)) []
                ≡ (if ltb 4096 n then none else some (be 2 0 ++ (be 2 n ++ take n (x ∷ xs)), []))
          sized zero = refl
          sized (suc n) =
              let pos : ltb 0 (suc n) ≡ true = ground arith in
              elim (Bool-cases (ltb 4096 (suc n))) [
                | inl over ↦ rw over refl
                | inr under ↦ rw (under, pos) refl
              ]

  within_bounds :
      (env : Env) (cache : Cache bdb.State) (s : bdb.State) (key : Bytes)
      → cache.dbp ≡ some s
      → ((n : ℕ) → env.alloc n ≡ true)
      → IsKey key
      → IsSound bdb s key
      → process_legacy_request bdb env cache [] Op.get (length key) (some key)
        ≡ legacy_bytes (live (view bdb s key))
  unfolding process_legacy_request
  within_bounds env cache s key open_db memory k sound =
      let full : (length key == 0) ≡ false = ground (arith, k.0) in
      let all : env.alloc ≡ plenty = λ i n. memory n i in
      rw (full, all, open_db, db_get_with_meta-view bdb s key no_out k sound)
        (legacy_answer-legacy_bytes (view bdb s key))

  too_long :
      (env : Env) (cache : Cache bdb.State) (key : Bytes)
      → max_key_len < length key
      → process_legacy_request bdb env cache [] Op.get (length key) (some key)
        ≡ some (be 2 status_not_found ++ be 2 0, [])
  unfolding process_legacy_request db_get_with_meta legacy_answer send_legacy_response be send_full
  too_long env cache key l =
      let full : (length key == 0) ≡ false = ground (arith, l) in
      let long : ltb max_key_len (length key) ≡ true = ground (arith, l) in rw (full, long) refl

  -- A legacy GET, with memory for the value and a send that takes all it is given, under a key that
  -- is not empty and holds nothing or a valid record: a key of more than 1024 bytes is answered NOT_FOUND,
  -- and any other key without a value ERROR; a value whose length modulo 65536 is at most 4096 is answered,
  -- cut to that length, and any other makes the handler write past the end of its buffer.
  pub process_legacy_request-legacy_bytes :
      (env : Env) (cache : Cache bdb.State) (s : bdb.State) (key : Bytes)
      → cache.dbp ≡ some s
      → ((n : ℕ) → env.alloc n ≡ true)
      → 1 ≤ length key
      → IsSound bdb s key
      → process_legacy_request bdb env cache [] Op.get (length key) (some key) ≡ (
          if ltb max_key_len (length key)
          then some (be 2 status_not_found ++ be 2 0, [])
          else legacy_bytes (live (view bdb s key)))
  process_legacy_request-legacy_bytes env cache s key open_db memory some_key sound =
      elim (Bool-cases (ltb max_key_len (length key))) [
        | inl long ↦ rw long (too_long env cache key (ground (arith, long)))
        | inr short ↦
            rw short
              (within_bounds env cache s key open_db memory (ground (arith, some_key, short)) sound)
      ]
