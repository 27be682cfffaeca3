-- ===== src/Server/Request.antt =====
-- The handlers of requests in dmmr_server.c: process_frame with enqueue_broadcast, and the request of
-- the legacy protocol.
use http_dmmr_nginx.Base.{
  ℕ, ◌+◌, ◌*◌, ◌%◌, ◌^◌, Bool, true, false, not, ◌&&◌, ◌||◌, List, [], ◌∷◌, ◌++◌, Option, none,
  some, if◌then◌else◌, Bytes, take, drop, min, replicate, be, ltb, ◌==◌,
}
use http_dmmr_nginx.Config.{max_key_len, max_value_len}
use http_dmmr_nginx.Config.Op
use http_dmmr_nginx.Db.Record.{DbResult, applied, ignored, not_found, error}
use http_dmmr_nginx.Db.Ops.{
  BerkeleyDb, GetOut, bytes_at, is_null, db_get_with_meta, db_set_with_meta, db_del_key,
}
use http_dmmr_nginx.Server.Frame.{DmmrFrame}
use http_dmmr_nginx.Server.Net.{Send, send_full, sent_more}

-- TTL_DEFAULT, in microseconds
abbrev pub ttl_default : ℕ
ttl_default = 3600 * 1_000_000

-- DMMR_PROTO_STATUS_OK, DMMR_PROTO_STATUS_NOT_FOUND and DMMR_PROTO_STATUS_ERROR
abbrev pub status_ok : ℕ
status_ok = 0

abbrev pub status_not_found : ℕ
status_not_found = 1

abbrev pub status_error : ℕ
status_error = 2

abbrev pub flag_none : ℕ
flag_none = 0

abbrev pub flag_tombstone : ℕ
flag_tombstone = 2

-- struct control_cmd_pooled with the type CMD_BROADCAST; no code of the program makes another.
pub record Cmd : Type 0 where
  pub ts : ℕ
  pub node_id : ℕ
  pub expire_at : ℕ
  pub flags : ℕ
  pub key : Bytes
  pub key_len : ℕ
  pub value : Option Bytes
  pub value_len : ℕ

-- What one request meets: the allocators, the first and the second reading of the clock, and whether
-- the pool of commands has a free slot.
pub record Env : Type 0 where
  pub payload_buf : ℕ → Bool
  pub alloc : ℕ → Bool
  pub malloc : ℕ → Bool
  pub now : ℕ
  pub later : ℕ
  pub cmd_slot : Bool

-- The counters of the cache.
pub record Stats : Type 0 where
  pub request_count : ℕ
  pub hit_count : ℕ
  pub miss_count : ℕ
  pub set_count : ℕ
  pub del_count : ℕ

-- The variables that handlers change. `control` is the queue of commands, first to be sent first.
pub record Cache (State : Type 0) : Type 0 where
  pub dbp : Option State
  pub stats : Stats
  pub control : List Cmd

-- `status`, `response_payload` and `response_len`.
pub record Response : Type 0 where
  pub status : ℕ
  pub payload : Option Bytes
  pub len : ℕ

abbrev pub bare : ℕ → Response
bare status = record { status = status; payload = none; len = 0 }

abbrev pub inc : ℕ → ℕ
inc n = (n + 1) % 2 ^ 64

unfoldable pub count_request : Stats → Stats
count_request s = record s { request_count = inc s.request_count }

unfoldable pub count_set : Stats → Stats
count_set s = record s { request_count = inc s.request_count; set_count = inc s.set_count }

unfoldable pub count_del : Stats → Stats
count_del s = record s { request_count = inc s.request_count; del_count = inc s.del_count }

unfoldable pub count_hit : Stats → Stats
count_hit s = record s { hit_count = inc s.hit_count }

unfoldable pub count_miss : Stats → Stats
count_miss s = record s { miss_count = inc s.miss_count }

unfoldable pub enqueue_broadcast :
    Env → Bytes → ℕ → Option Bytes → ℕ → ℕ → ℕ → ℕ → ℕ → List Cmd → List Cmd
enqueue_broadcast env key key_len value value_len ts node_id expire_at flags queue =
    let klen = min key_len max_key_len in
    let vlen = min value_len max_value_len in
    let empty : Cmd = record {
      ts = ts;
      node_id = node_id;
      expire_at = expire_at;
      flags = flags;
      key = take klen key;
      key_len = klen;
      value = none;
      value_len = 0;
    } in
    if not env.cmd_slot
    then queue
    else if not (is_null value) && ltb 0 value_len
    then (if env.malloc vlen
        then queue
          ++ record empty { value = some (take vlen (bytes_at value)); value_len = vlen } ∷ []
        else queue)
    else queue ++ empty ∷ []

unfoldable pub header_of : Response → Bytes
header_of r = be 2 r.status ++ (be 4 r.len ++ replicate 2 0)

unfoldable pub send_body : Response → Bool × Bytes × List Send → Bool × Bytes × List Send
send_body r (false, out, rest) = (false, out, rest)
send_body r (true, out, rest) =
    if ltb 0 r.len && not (is_null r.payload)
    then sent_more out (send_full (take r.len (bytes_at r.payload)) rest)
    else (true, out, rest)

-- The end of process_frame: whether it returns 0, what is sent, and the events left.
unfoldable pub respond : Response → List Send → Bool × Bytes × List Send
respond r sends = send_body r (send_full (header_of r) sends)

module _ {State : Type 0} where
  unfoldable pub after_get : Cache State → DbResult × GetOut → Response × Cache State
  after_get cache (applied, out) = (
    record { status = status_ok; payload = out.value; len = out.value_len % 2 ^ 32 },
    record cache { stats = count_hit cache.stats },
  )
  after_get cache (not_found, out) =
      (bare status_not_found, record cache { stats = count_miss cache.stats })
  after_get cache (ignored, out) =
      (bare status_error, record cache { stats = count_miss cache.stats })
  after_get cache (error, out) =
      (bare status_error, record cache { stats = count_miss cache.stats })

  -- `queue` is the queue with the command, for a request that does not come from a peer.
  unfoldable pub after_set :
      Bool → List Cmd → Cache State → DbResult × Option State → Response × Cache State
  after_set from_peer queue cache (applied, dbp) = (
    bare status_ok,
    record cache { dbp = dbp; control = if from_peer then cache.control else queue },
  )
  after_set from_peer queue cache (ignored, dbp) = (bare status_error, record cache { dbp = dbp })
  after_set from_peer queue cache (not_found, dbp) = (bare status_error, record cache { dbp = dbp })
  after_set from_peer queue cache (error, dbp) = (bare status_error, record cache { dbp = dbp })

  unfoldable pub after_del :
      Bool → List Cmd → Cache State → DbResult × Option State → Response × Cache State
  after_del from_peer queue cache (rc, dbp) =
      let cache' = record cache {
        dbp = dbp;
        control = if from_peer then cache.control else queue;
      } in
      (bare (status_of rc), cache')
    where
      status_of : DbResult → ℕ
      status_of applied = status_ok
      status_of ignored = status_error
      status_of not_found = status_error
      status_of error = status_error

-- The variables before the call of db_get_with_meta.
abbrev pub no_out : GetOut
no_out = record { ts = 0; node_id = 0; value = none; value_len = 0; expire_at = 0 }

-- `none` is undefined behaviour: a copy past the end of `resp`, or bytes of it that are sent and
-- were not written.
unfoldable pub send_legacy_response : ℕ → ℕ → Option Bytes → List Send → Option (Bytes × List Send)
send_legacy_response status payload_len payload sends =
    let given = ltb 0 payload_len && not (is_null payload) in
    let body = if given then take payload_len (bytes_at payload) else [] in
    if ltb 4096 payload_len || (ltb 0 payload_len && is_null payload)
    then none
    else (let sent = send_full (be 2 status ++ (be 2 payload_len ++ body)) sends in
        some (sent.1, sent.2))

unfoldable pub legacy_answer : List Send → DbResult × GetOut → Option (Bytes × List Send)
legacy_answer sends (applied, out) =
    send_legacy_response status_ok (out.value_len % 2 ^ 16) out.value sends
legacy_answer sends (error, out) = send_legacy_response status_not_found 0 none sends
legacy_answer sends (not_found, out) = send_legacy_response status_error 0 none sends
legacy_answer sends (ignored, out) = send_legacy_response status_error 0 none sends

module _ (bdb : BerkeleyDb) where
  open bdb use {State}

  unfoldable pub process_legacy_request :
      Env → Cache State → List Send → ℕ → ℕ → Option Bytes → Option (Bytes × List Send)
  process_legacy_request env cache sends opcode key_len payload =
      if not (opcode == Op.get) || ((key_len == 0) || is_null payload)
      then send_legacy_response status_error 0 none sends
      else legacy_answer sends (db_get_with_meta bdb env.alloc cache.dbp payload key_len no_out)

module _ (bdb : BerkeleyDb) (my_node_id : ℕ) where
  open bdb use {State}

  -- The switch of process_frame. `payload` is what the pointer leads to.
  unfoldable pub handle : Env → Cache State → DmmrFrame → Bytes → ℕ → Bool → Response × Cache State
  handle env cache frame payload source_node_id from_peer =
      let key_len = frame.key_len in
      let value = if ltb 0 frame.value_len then some (drop key_len payload) else none in
      let ts_use = if from_peer then frame.timestamp else env.now in
      let node_use = if from_peer then source_node_id else my_node_id in
      let expire_at = ((if from_peer then env.now else env.later) + ttl_default) % 2 ^ 64 in
      if frame.opcode == Op.get
      then after_get (record cache { stats = count_request cache.stats })
          (db_get_with_meta bdb env.alloc cache.dbp (some payload) key_len no_out)
      else if (frame.opcode == Op.set) || (frame.opcode == Op.sync)
      then after_set from_peer
          (enqueue_broadcast env payload key_len value frame.value_len ts_use node_use expire_at
            flag_none cache.control)
          (record cache { stats = count_set cache.stats })
          (db_set_with_meta bdb env.alloc cache.dbp (some payload) key_len ts_use node_use value
            frame.value_len expire_at)
      else if frame.opcode == Op.del
      then after_del from_peer
          (enqueue_broadcast env payload key_len none 0 env.later my_node_id 0 flag_tombstone
            cache.control)
          (record cache { stats = count_del cache.stats })
          (db_del_key bdb env.alloc cache.dbp (some payload) key_len env.now my_node_id)
      else (bare status_error, cache)

  -- Whether it returns 0, what is sent, the events left, and the cache.
  unfoldable pub process_frame :
      Env
      → Cache State
      → List Send
      → DmmrFrame
      → Bytes
      → ℕ
      → Bool
      → (Bool × Bytes × List Send) × Cache State
  process_frame env cache sends frame payload source_node_id from_peer =
      let done = handle env cache frame payload source_node_id from_peer in
      if (frame.key_len == 0)
        || (ltb max_key_len frame.key_len || ltb max_value_len frame.value_len)
      then ((false, [], sends), cache)
      else (respond done.0 sends, done.1)
