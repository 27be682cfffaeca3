-- ===== src/Server/Pipeline.antt =====
-- handle_client of dmmr_server.c on a connection that carries whole requests.
use http_dmmr_nginx.Base.{
  ℕ, zero, suc, ◌≡◌, ◌+◌, ◌^◌, ◌<◌, ◌≤◌, refl, ap, ◌∙◌, true, false, not, ◌&&◌, List, [], ◌∷◌, ◌++◌,
  Option, none, some, arith, All, Bytes, length, ltb, ◌==◌, if◌then◌else◌, take, append_assoc,
  append-nil, length-append,
}
use http_dmmr_nginx.Config.{max_key_len, max_value_len, dmmr_magic, dmmr_version}
use http_dmmr_nginx.Db.Ops.{BerkeleyDb, bytes_at, is_null}
use http_dmmr_nginx.Server.Net.{Recv, recv_full, send_full, sent_more}
use http_dmmr_nginx.Server.Frame.{DmmrFrame, Read, framed, read_frame, read_prefix}
use http_dmmr_nginx.Server.Request.{
  Env, Cache, Response, handle, header_of, send_body, respond, process_frame,
}
use http_dmmr_nginx.Server.Client.{
  Client, Turn, more, closed, undefined_behaviour, turn_of, turn, handle_client, answered_frame,
}
use http_dmmr_nginx.Server.Wire.{
  joined, AreAlive, IsFrame, header_bytes, Gives, read_frame-header_bytes, recv_full_lem,
}

-- A request with its key and value.
pub record Asked : Type 0 where
  pub opcode : ℕ
  pub flags : ℕ
  pub timestamp : ℕ
  pub key : Bytes
  pub value : Bytes

abbrev pub frame_for : Asked → DmmrFrame
frame_for r = record {
  magic = dmmr_magic;
  version = dmmr_version;
  opcode = r.opcode;
  flags = r.flags;
  key_len = length r.key;
  value_len = length r.value;
  timestamp = r.timestamp;
}

-- A request as a client writes it.
abbrev pub request_bytes : Asked → Bytes
request_bytes r = header_bytes (frame_for r) ++ (r.key ++ r.value)

pub record IsAsked (r : Asked) : Type 0 where
  pub opcode_fits : r.opcode < 2 ^ 16
  pub flags_fits : r.flags < 2 ^ 16
  pub timestamp_fits : r.timestamp < 2 ^ 64
  pub key_fits : (0 < length r.key) × (length r.key ≤ max_key_len)
  pub value_fits : length r.value ≤ max_value_len

pub frame_for-IsFrame : (r : Asked) → IsAsked r → IsFrame (frame_for r)
frame_for-IsFrame r v = record {
  magic_right = refl;
  version_right = refl;
  opcode_fits = v.opcode_fits;
  flags_fits = v.flags_fits;
  key_len_fits = v.key_fits.1;
  value_len_fits = v.value_fits;
  timestamp_fits = v.timestamp_fits;
}

abbrev pub all_requests : List Asked → Bytes
all_requests [] = []
all_requests (r ∷ rs) = request_bytes r ++ all_requests rs

-- A response as a client reads it.
abbrev pub response_bytes : Response → Bytes
response_bytes r = header_of r ++ take r.len (bytes_at r.payload)

pub respond-response_bytes : (r : Response) → respond r [] ≡ (true, response_bytes r, [])
unfolding respond send_body send_full
respond-response_bytes r = bodied r.len r.payload
  where
    bodied :
        (n : ℕ) (p : Option Bytes)
        → (if ltb 0 n && not (is_null p)
            then sent_more (header_of r) (true, take n (bytes_at p), [])
            else (true, header_of r, []))
          ≡ (true, header_of r ++ take n (bytes_at p), [])
    bodied zero p = rw (append-nil (header_of r)) refl
    bodied (suc n) none = rw (append-nil (header_of r)) (ground arith)
    bodied (suc n) (some bs) = let pos : ltb 0 (suc n) ≡ true = ground arith in rw pos refl

module _ (bdb : BerkeleyDb) (my_node_id : ℕ) where
  open bdb use {State}

  abbrev pub handled : Env → Cache State → Asked → Response × Cache State
  handled env cache r =
      handle bdb my_node_id env cache (frame_for r) (r.key ++ r.value) my_node_id false

  -- The requests one after the other: the cache behind them, and their answers.
  unfoldable pub serve_all : (ℕ → Env) → Cache State → List Asked → Cache State × Bytes
  serve_all env cache [] = (cache, [])
  serve_all env cache (r ∷ rs) =
      let done = handled (env 0) cache r in
      let later = serve_all (λ i. env (suc i)) done.1 rs in
      (later.0, response_bytes done.0 ++ later.1)

  abbrev pub at_rest : Cache State → List Recv → Bytes → Client State
  at_rest cache incoming output = record {
    cache = cache;
    incoming = incoming;
    sends = [];
    output = output;
  }

  process_frame-handled :
      (env : Env) (cache : Cache State) (r : Asked)
      → IsAsked r
      → process_frame bdb my_node_id env cache [] (frame_for r) (r.key ++ r.value) my_node_id false
        ≡ ((true, response_bytes (handled env cache r).0, []), (handled env cache r).1)
  unfolding process_frame
  process_frame-handled env cache r v =
      let empty : (length r.key == 0) ≡ false = ground (arith, v.key_fits) in
      let long_key : ltb max_key_len (length r.key) ≡ false = ground (arith, v.key_fits) in
      let long_value : ltb max_value_len (length r.value) ≡ false = ground (arith, v.value_fits) in
      rw (empty, long_key, long_value)
        (ap (λ x. (x, (handled env cache r).1)) (respond-response_bytes (handled env cache r).0))

  turn_of-handled :
      (env : Env) (cache : Cache State) (before : List Recv) (output : Bytes) (r : Asked)
      → IsAsked r
      → (s : List Recv)
      → turn_of bdb my_node_id env
          (at_rest cache before output)
          (framed (frame_for r) (some (r.key ++ r.value)), s)
        ≡ more
            (at_rest (handled env cache r).1 s (output ++ response_bytes (handled env cache r).0))
  unfolding turn_of answered_frame
  turn_of-handled env cache before output r v s =
      ap (λ x. answered_frame (at_rest cache s output) x) (process_frame-handled env cache r v)

  -- A request in front of a stream takes one turn.
  turn-handled :
      (env : Env) (cache : Cache State) (s : List Recv) (output rest : Bytes) (r : Asked)
      → IsAsked r
      → env.payload_buf (length r.key + length r.value) ≡ true
      → AreAlive s
      → joined s ≡ request_bytes r ++ rest
      → (s' : List Recv) × (turn bdb my_node_id env (at_rest cache s output)
          ≡ more (
              at_rest
                (handled env cache r).1
                s'
                (output ++ response_bytes (handled env cache r).0)))
        × (joined s' ≡ rest)
        × AreAlive s'
  unfolding turn
  turn-handled env cache s output rest r v served h e =
      let given =
        read_frame-header_bytes env.payload_buf (frame_for r) (r.key ++ r.value) rest
          (frame_for-IsFrame r v) (length-append r.key r.value) v.key_fits.0 served s h
          (e ∙ append_assoc (header_bytes (frame_for r)) (r.key ++ r.value) rest) in
      from (read_frame env.payload_buf s) given
    where
      from :
          (x : Read × List Recv)
          → Gives x (framed (frame_for r) (some (r.key ++ r.value))) rest
          → (s' : List Recv) × (turn_of bdb my_node_id env (at_rest cache s output) x
              ≡ more (
                  at_rest
                    (handled env cache r).1
                    s'
                    (output ++ response_bytes (handled env cache r).0)))
            × (joined s' ≡ rest)
            × AreAlive s'
      from (read, s') g = (
        s',
        ap (λ y. turn_of bdb my_node_id env (at_rest cache s output) (y, s')) g.0
            ∙ turn_of-handled env cache s output r v s',
        g.1,
        g.2,
      )

  turn_ends :
      (env : Env) (cache : Cache State) (s : List Recv) (output : Bytes)
      → AreAlive s
      → joined s ≡ []
      → (s' : List Recv) × (turn bdb my_node_id env (at_rest cache s output)
          ≡ closed (at_rest cache s' output))
  unfolding turn read_frame read_prefix turn_of
  turn_ends env cache s output h e =
      from (recv_full 4 s) ((recv_full_lem 4 s h).0 ∙ ap (λ x. some (take 4 x)) e)
    where
      from :
          (x : Option Bytes × List Recv)
          → x.0 ≡ some []
          → (s' : List Recv) × (turn_of bdb my_node_id env
                (at_rest cache s output)
                (read_prefix env.payload_buf x)
              ≡ closed (at_rest cache s' output))
      from (none, s') g = absurd cc
      from (some bs, s') g = let same : bs ≡ [] = cc in (s', rw same refl)

  -- The loop, by what its first turn does.
  unfoldable after_turn : ℕ → (ℕ → Env) → Turn State → Turn State
  after_turn fuel env (closed c) = closed c
  after_turn fuel env undefined_behaviour = undefined_behaviour
  after_turn fuel env (more c) = handle_client bdb my_node_id fuel (λ i. env (suc i)) c

  handle_client-after_turn :
      (fuel : ℕ) (env : ℕ → Env) (c : Client State)
      → handle_client bdb my_node_id (suc fuel) env c
        ≡ after_turn fuel env (turn bdb my_node_id (env 0) c)
  unfolding handle_client after_turn
  handle_client-after_turn fuel env c = refl

  -- A connection that carries requests one after the other, each with a key of 1 to 1024 bytes and a
  -- value of at most 1 MiB, and is then closed by the client, is served to its end in one turn for each
  -- request and one more: the cache handles each request once, in order, and each has one answer, in
  -- order, however recv cuts the stream, when send takes all it is given and payload buffers are there.
  pub handle_client-serve_all :
      (rs : List Asked) (fuel : ℕ) (env : ℕ → Env) (cache : Cache State) (s : List Recv)
      (output : Bytes)
      → All IsAsked rs
      → ((i n : ℕ) → (env i).payload_buf n ≡ true)
      → AreAlive s
      → joined s ≡ all_requests rs
      → length rs < fuel
      → (s' : List Recv) × (handle_client bdb my_node_id fuel env (at_rest cache s output)
          ≡ closed (at_rest (serve_all env cache rs).0 s' (output ++ (serve_all env cache rs).1)))
  unfolding serve_all after_turn
  handle_client-serve_all rs zero env cache s output v served h e l = absurd (omega arith)
  handle_client-serve_all [] (suc fuel) env cache s output v served h e l =
      let last = turn_ends (env 0) cache s output h e in
      (
        last.0,
        rw (handle_client-after_turn fuel env (at_rest cache s output), last.1, append-nil output)
            refl,
      )
  handle_client-serve_all (r ∷ rs) (suc fuel) env cache s output v served h e l =
      let first =
        turn-handled (env 0) cache s output (all_requests rs) r v.0
          (served 0 (length r.key + length r.value)) h e in
      let done = handled (env 0) cache r in
      let rest =
        handle_client-serve_all rs fuel (λ i. env (suc i)) done.1 first.0
          (output ++ response_bytes done.0) v.1 (λ i n. served (suc i) n) first.3 first.2
          (omega arith) in
      (
        rest.0,
        rw
            (
              handle_client-after_turn fuel env (at_rest cache s output),
              first.1,
              rest.1,
              append_assoc output (response_bytes done.0)
                  (serve_all (λ i. env (suc i)) done.1 rs).1,
            )
            refl,
      )
