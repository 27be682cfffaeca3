-- ===== src/Pool/Payload.antt =====
-- dmmr_pool.c: the pool of payload buffers. The bytes of a buffer are those behind its pointer; what
-- realloc gives is a parameter. Each operation holds payload_mutex throughout.
use http_dmmr_nginx.Base.{
  ℕ, ◌+◌, ◌*◌, ◌≡◌, ◌≤◌, refl, Bool, true, false, ◌||◌, List, [], ◌∷◌, ◌++◌, Option, none, some,
  arith, All, All-append, Bytes, length, length-append, length-drop, length-replicate, drop,
  replicate, if◌then◌else◌, ltb, ◌==◌, Bool-cases, inl, inr,
}
use http_dmmr_nginx.Config.{max_key_len, max_value_len}

-- PAYLOAD_RETAIN_LIMIT and POOL_INITIAL_SIZE
abbrev pub payload_retain_limit : ℕ
payload_retain_limit = 64 * 1024

abbrev pub pool_initial_size : ℕ
pool_initial_size = 0x400

-- struct payload_buf; `bytes` is empty where the pointer is NULL.
pub record PayloadBuf : Type 0 where
  pub bytes : Bytes
  pub capacity : ℕ
  pub len : ℕ
  pub in_use : Bool

abbrev pub empty_buf : PayloadBuf
empty_buf = record { bytes = []; capacity = 0; len = 0; in_use = false }

-- The free list with a further chunk behind it, if calloc serves.
unfoldable pub add_payload_chunk : Bool → List PayloadBuf → Option (List PayloadBuf)
add_payload_chunk calloc free_list =
    if calloc then some (free_list ++ replicate pool_initial_size empty_buf) else none

unfoldable pub sized :
    (ℕ → Option Bytes) → ℕ → PayloadBuf → List PayloadBuf → Option PayloadBuf × List PayloadBuf
sized realloc required buf rest =
    if ltb buf.capacity required
    then grown (realloc required)
    else (some (record buf { in_use = true; len = required }), rest)
  where
    grown : Option Bytes → Option PayloadBuf × List PayloadBuf
    grown none = (none, rest ++ buf ∷ [])
    grown (some bytes) =
        (some (record { bytes = bytes; capacity = required; len = required; in_use = true }), rest)

-- The first buffer of the free list, which is not empty.
unfoldable pub take_first :
    (ℕ → Option Bytes)
    → ℕ
    → Option (List PayloadBuf)
    → List PayloadBuf
    → Option PayloadBuf × List PayloadBuf
take_first realloc required none before = (none, before)
take_first realloc required (some []) before = (none, before)
take_first realloc required (some (buf ∷ rest)) before = sized realloc required buf rest

unfoldable pub get_payload_buf :
    Bool → (ℕ → Option Bytes) → ℕ → List PayloadBuf → Option PayloadBuf × List PayloadBuf
get_payload_buf calloc realloc required free_list =
    if (required == 0) || ltb (max_key_len + max_value_len) required
    then (none, free_list)
    else take_first realloc required (stocked free_list) free_list
  where
    stocked : List PayloadBuf → Option (List PayloadBuf)
    stocked [] = add_payload_chunk calloc []
    stocked (buf ∷ rest) = some (buf ∷ rest)

-- What is left of a buffer that is given back: its payload is overwritten, and a large one is freed.
unfoldable pub cleared : PayloadBuf → PayloadBuf
cleared buf = if ltb payload_retain_limit buf.capacity then empty_buf else record {
  bytes = if length buf.bytes == 0 then [] else replicate buf.len 0 ++ drop buf.len buf.bytes;
  capacity = buf.capacity;
  len = 0;
  in_use = false;
}

unfoldable pub release_payload_buf : Option PayloadBuf → List PayloadBuf → List PayloadBuf
release_payload_buf none free_list = free_list
release_payload_buf (some buf) free_list = free_list ++ cleared buf ∷ []

unfoldable pub init_pools : Bool → Option (List PayloadBuf)
init_pools calloc = add_payload_chunk calloc []

-- A buffer with as many bytes as its capacity says, and no more in use.
abbrev pub IsBuf : PayloadBuf → Type 0
IsBuf buf = (length buf.bytes ≡ buf.capacity) × (buf.len ≤ buf.capacity)

-- A buffer of the free list: not in use, and of at most the size that is kept.
abbrev pub IsFree : PayloadBuf → Type 0
IsFree buf =
    (length buf.bytes ≡ buf.capacity)
    × (buf.capacity ≤ payload_retain_limit)
    × (buf.len ≡ 0)
    × (buf.in_use ≡ false)

cleared-IsFree : (buf : PayloadBuf) → IsBuf buf → IsFree (cleared buf)
unfolding cleared
cleared-IsFree buf v = elim (Bool-cases (ltb payload_retain_limit buf.capacity)) [
  | inl large ↦ rw large (omega arith, omega arith, refl, refl)
  | inr small ↦ rw small (filled buf.bytes v.0, ground (arith, small), refl, refl)
]
  where
    filled :
        (bs : Bytes)
        → length bs ≡ buf.capacity
        → length (if length bs == 0 then [] else replicate buf.len 0 ++ drop buf.len bs)
          ≡ buf.capacity
    filled [] e = e
    filled (b ∷ bs) e =
        let full : (length (b ∷ bs) == 0) ≡ false = ground arith in
        rw full (
          omega (
            arith,
            e,
            v.1,
            length-append (replicate buf.len 0) (drop buf.len (b ∷ bs)),
            length-replicate {A = ℕ} buf.len 0,
            length-drop buf.len (b ∷ bs),
          ))

-- A buffer that is given back leaves every buffer of the free list unused and at most 65536 bytes
-- large.
pub release_payload_buf-IsFree :
    (buf : Option PayloadBuf) (free_list : List PayloadBuf)
    → ((b : PayloadBuf) → buf ≡ some b → IsBuf b)
    → All IsFree free_list
    → All IsFree (release_payload_buf buf free_list)
unfolding release_payload_buf
release_payload_buf-IsFree none free_list v h = h
release_payload_buf-IsFree (some buf) free_list v h =
    All-append IsFree free_list (cleared buf ∷ []) h (cleared-IsFree buf (v buf refl), tt)
