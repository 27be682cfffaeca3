-- ===== src/Server/Store.antt =====
-- What the handlers of GET, SET and DEL in dmmr_server.c do to the entries of the database, and what
-- they answer.
use http_dmmr_nginx.Base.{
  ℕ, ◌≡◌, ◌%◌, ◌^◌, ◌<◌, refl, ap, Bool, true, false, not, ◌&&◌, ◌||◌, List, [], ◌∷◌, ◌++◌, Option,
  none, some, arith, Bytes, length, ltb, ◌==◌, if◌then◌else◌, take, drop, be, replicate,
  take_prefix, length-take, take-length, Bool-cases, inl, inr,
}
use http_dmmr_nginx.Config.{max_value_len}
use http_dmmr_nginx.Config.Op
use http_dmmr_nginx.Db.Codec.{Entry, decode}
use http_dmmr_nginx.Db.Record.{
  error, CacheEntry, dmmr_record_value_len, read_entry, sizeof_cache_entry,
}
use http_dmmr_nginx.Db.Ops.{
  BerkeleyDb, Found, found, absent, failed, GetOut, bytes_at, is_null, bad_key, db_get_with_meta,
  db_apply_record, apply_found, put_record_locked,
}
use http_dmmr_nginx.Db.Sound.{db_get_with_meta-view, read_out}
use http_dmmr_nginx.Db.Views.{IsKey, IsSound, view, view_found, plenty}
use http_dmmr_nginx.Server.Request.{
  Env, Cache, Cmd, Response, Stats, handle, after_get, header_of, no_out, status_ok,
  status_not_found, count_request,
}
use http_dmmr_nginx.Server.Pipeline.{Asked, handled, response_bytes}

-- The value that a reader of a key is to see.
unfoldable pub live : Option Entry → Option Bytes
live none = none
live (some e) = if e.tombstone then none else some e.value

-- A value whose length fits the field of the answer.
abbrev IsShort : Option Entry → Type 0
IsShort none = Unit
IsShort (some e) = length e.value < 2 ^ 32

abbrev pub IsShortValue : Option Bytes → Type 0
IsShortValue none = Unit
IsShortValue (some v) = length v < 2 ^ 32

live-IsShortValue : (v : Option Entry) → IsShort v → IsShortValue (live v)
unfolding live
live-IsShortValue none h = tt
live-IsShortValue (some e) h = elim (Bool-cases e.tombstone) [
  | inl dead ↦ rw dead tt
  | inr alive ↦ rw alive h
]

-- The answer to a GET: a status, a length and two zero bytes, and the value.
unfoldable pub answer_bytes : Option Bytes → Bytes
answer_bytes none = be 2 status_not_found ++ (be 4 0 ++ replicate 2 0)
answer_bytes (some v) = (be 2 status_ok ++ (be 4 (length v) ++ replicate 2 0)) ++ v

abbrev pub asks_get : Bytes → Asked
asks_get key = record { opcode = Op.get; flags = 0; timestamp = 0; key = key; value = [] }

value_len_small : (e : CacheEntry) → dmmr_record_value_len e < 2 ^ 31
unfolding dmmr_record_value_len
value_len_small e = omega arith

module _ (bdb : BerkeleyDb) where
  open bdb use {State, get}

  -- The operations of the database read as many bytes behind the key's pointer as its length says.
  db_get_with_meta-append :
      (alloc : ℕ → Bool) (dbp : Option State) (key tail : Bytes) (out : GetOut)
      → db_get_with_meta bdb alloc dbp (some (key ++ tail)) (length key) out
        ≡ db_get_with_meta bdb alloc dbp (some key) (length key) out
  unfolding db_get_with_meta
  db_get_with_meta-append alloc none key tail out = refl
  db_get_with_meta-append alloc (some s) key tail out =
      rw (take_prefix (length key) key tail refl, take-length key) refl

  module _ (alloc : ℕ → Bool) (key tail : Bytes) (ts node expire : ℕ) (tombstone : Bool)
      (value : Option Bytes) (n : ℕ) where
    apply_found-append :
        (s : State) (x : Found)
        → apply_found bdb alloc s (key ++ tail) (length key) ts node expire tombstone value n x
          ≡ apply_found bdb alloc s key (length key) ts node expire tombstone value n x
    unfolding apply_found put_record_locked
    apply_found-append s (found d) =
        rw (take_prefix (length key) key tail refl, take-length key) refl
    apply_found-append s absent = rw (take_prefix (length key) key tail refl, take-length key) refl
    apply_found-append s failed = refl

    abbrev refuses : Bool
    refuses =
        bad_key (some key) (length key)
        || (ltb max_value_len n
            || ((tombstone && not (n == 0)) || (not tombstone && (not (n == 0) && is_null value))))

    pub db_apply_record-append :
        (dbp : Option State)
        → db_apply_record bdb alloc dbp
            (some (key ++ tail))
            (length key)
            ts
            node
            expire
            tombstone
            value
            n
          ≡ db_apply_record bdb alloc dbp (some key) (length key) ts node expire tombstone value n
    unfolding db_apply_record
    db_apply_record-append none = refl
    db_apply_record-append (some s) =
        rw (take_prefix (length key) key tail refl, take-length key)
          (ap (λ r. if refuses then (error, some s) else r) (apply_found-append s (get s key)))

  module _ (my_node_id : ℕ) (env : Env) (stats : Stats) (control : List Cmd) (s : State) where
    abbrev cache : Cache State
    cache = record { dbp = some s; stats = stats; control = control }

    -- The value that a GET answers with, and that it changes neither the database nor the queue.
    abbrev AnswersGet : Response × Cache State → Option Bytes → Type 0
    AnswersGet d v =
        (response_bytes d.0 ≡ answer_bytes v) × (d.1.dbp ≡ some s) × (d.1.control ≡ control)

    after_get-AnswersGet :
        (stats' : Stats) (v : Option Entry)
        → IsShort v
        → AnswersGet (after_get (record cache { stats = stats' }) (read_out bdb v no_out)) (live v)
    unfolding after_get read_out live answer_bytes header_of be
    after_get-AnswersGet stats' none h = (refl, refl, refl)
    after_get-AnswersGet stats' (some e) h = elim (Bool-cases e.tombstone) [
      | inl dead ↦ rw dead (refl, refl, refl)
      | inr alive ↦ rw alive (valued e.value h, refl, refl)
    ]
      where
        valued :
            (v : Bytes)
            → length v < 2 ^ 32
            → (be 2 0 ++ (be 4 (length v % 2 ^ 32) ++ replicate 2 0))
                ++ take (length v % 2 ^ 32) (bytes_at (if length v == 0 then none else some v))
              ≡ (be 2 0 ++ (be 4 (length v) ++ replicate 2 0)) ++ v
        valued [] l = refl
        valued (x ∷ xs) l =
            let len : length (x ∷ xs) % 2 ^ 32 ≡ length (x ∷ xs) = omega arith in
            let full : (length (x ∷ xs) == 0) ≡ false = ground arith in
            rw (len, full, take-length (x ∷ xs)) refl

    view-IsShort : (key : Bytes) → IsShort (view bdb s key)
    unfolding view view_found decode
    view-IsShort key = short (get s key)
      where
        short : (x : Found) → IsShort (view_found bdb x)
        short (found d) = ground (
          arith,
          length-take (dmmr_record_value_len (read_entry d)) (drop sizeof_cache_entry d),
          value_len_small (read_entry d),
        )
        short absent = tt
        short failed = tt

    pub live-view-IsShortValue : (key : Bytes) → IsShortValue (live (view bdb s key))
    live-view-IsShortValue key = live-IsShortValue (view bdb s key) (view-IsShort key)

    -- A GET of a key of a valid length, with memory for the value, answers with the value that is
    -- stored under it, or with not found when there is none or it was deleted; neither the database
    -- nor the queue of commands changes.
    pub handled-get :
        (r : Asked)
        → r.opcode ≡ Op.get
        → IsKey r.key
        → IsSound bdb s r.key
        → ((n : ℕ) → env.alloc n ≡ true)
        → AnswersGet (handled bdb my_node_id env cache r) (live (view bdb s r.key))
    unfolding handle
    handled-get r op k sound served =
        let is_get : (r.opcode == Op.get) ≡ true = ground (arith, op) in
        let all : env.alloc ≡ plenty = λ i n. served n i in
        rw
          (
            is_get,
            db_get_with_meta-append env.alloc (some s) r.key r.value no_out,
            all,
            db_get_with_meta-view bdb s r.key no_out k sound,
          )
          (after_get-AnswersGet (count_request stats) (view bdb s r.key) (view-IsShort r.key))
