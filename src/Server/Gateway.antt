-- ===== src/Server/Gateway.antt =====
-- The two programs together: the request that ngx_http_dmmr_send_cache_request
-- (nginx-dmmr-module-c/ngx_http_dmmr_auth.c) writes, served by handle_client (dmmr_server.c), and the
-- answer read by the module.
use http_dmmr_nginx.Base.{
  ℕ, ◌≡◌, ◌<◌, ◌≤◌, ◌^◌, ◌++◌, Bool-cases, inl, inr, refl, sym, ap, ◌∙◌, true, List, [], ◌∷◌,
  Option, none, some, arith, Bytes, length, ltb, if◌then◌else◌, be, of_be, of_be_from, of_be-be,
  take-length, append-nil,
}
use http_dmmr_nginx.Access.Cache.{Answer, no_answer, answered, attempt, request_of}
use http_dmmr_nginx.Access.Stream.{AreChunks, answer_in, attempt-answer_in}
use http_dmmr_nginx.Access.Stream
use http_dmmr_nginx.Config.{max_key_len}
use http_dmmr_nginx.Db.Ops.{BerkeleyDb}
use http_dmmr_nginx.Db.Views.{IsKey, IsSound, view}
use http_dmmr_nginx.Server.Client.{Turn, more, closed, undefined_behaviour, handle_client}
use http_dmmr_nginx.Server.Net.{Recv}
use http_dmmr_nginx.Server.Pipeline.{
  IsAsked, frame_for, handled, request_bytes, response_bytes, serve_all, at_rest,
  handle_client-serve_all,
}
use http_dmmr_nginx.Server.Request.{Env, Cache, Cmd, Stats}
use http_dmmr_nginx.Server.Store.{
  asks_get, live, answer_bytes, handled-get, IsShortValue, live-view-IsShortValue,
}
use http_dmmr_nginx.Server.Wire.{joined, AreAlive, IsHeader}
use http_dmmr_nginx.Server.Refused.{handle_client-refused}

-- What was sent on a connection that was closed.
unfoldable pub sent_by : {State : Type 0} → Turn State → Bytes
sent_by (closed c) = c.output
sent_by (more c) = []
sent_by undefined_behaviour = []

-- What the module makes of the value of a credential: status 0 with the value, status 1 when there is
-- none, and no answer when the value does not fit its buffer.
unfoldable pub credential_answer : Option Bytes → Answer
credential_answer none = answered 1 []
credential_answer (some v) = if ltb 4088 (length v) then no_answer else answered 0 v

request_of-request_bytes : (key : Bytes) → request_of key ≡ request_bytes (asks_get key)
unfolding request_of be
request_of-request_bytes key = rw (append-nil key) refl

answer_in-answer_bytes :
    (v : Option Bytes) → IsShortValue v → answer_in (answer_bytes v) ≡ credential_answer v
unfolding answer_in answer_bytes credential_answer be of_be_from
answer_in-answer_bytes none h = refl
answer_in-answer_bytes (some v) h =
    let len : of_be (be 4 (length v)) ≡ length v = of_be-be 4 (length v) h in
    rw (len, take-length v) (ground arith)

silence : answer_in [] ≡ no_answer
unfolding answer_in
silence = refl

abbrev pub cache_of : {State : Type 0} → Stats → List Cmd → State → Cache State
cache_of stats control s = record { dbp = some s; stats = stats; control = control }

module _ (bdb : BerkeleyDb) (my_node_id : ℕ) (env : ℕ → Env) (stats : Stats) (control : List Cmd)
    (s : bdb.State) where
  -- What handle_client sends on a connection that carries one request for a key.
  pub sent_by-handle_client :
      (key : Bytes) (fuel : ℕ) (incoming : List Recv)
      → IsKey key
      → IsSound bdb s key
      → ((i n : ℕ) → (env i).payload_buf n ≡ true)
      → ((n : ℕ) → (env 0).alloc n ≡ true)
      → AreAlive incoming
      → joined incoming ≡ request_of key
      → 1 < fuel
      → sent_by (
          handle_client bdb my_node_id fuel env
            (at_rest bdb my_node_id (cache_of stats control s) incoming []))
        ≡ answer_bytes (live (view bdb s key))
  unfolding sent_by serve_all
  sent_by-handle_client key fuel incoming k sound bufs memory h e l =
      let served =
        handle_client-serve_all bdb my_node_id (asks_get key ∷ []) fuel env
          (cache_of stats control s) incoming [] (asked, tt) bufs h
          (e ∙ (request_of-request_bytes key ∙ sym (append-nil (request_bytes (asks_get key)))))
          l in
      rw
        (
          served.1,
          append-nil (
              response_bytes
                (handled bdb my_node_id (env 0) (cache_of stats control s) (asks_get key)).0),
        )
        (handled-get bdb my_node_id (env 0) stats control s (asks_get key) refl k sound memory).0
    where
      asked : IsAsked (asks_get key)
      asked = record {
        opcode_fits = omega arith;
        flags_fits = omega arith;
        timestamp_fits = omega arith;
        key_fits = k;
        value_fits = omega arith;
      }

  -- Nothing is sent for a key that is too long.
  sent_by-long_key :
      (key : Bytes) (fuel : ℕ) (incoming : List Recv)
      → max_key_len < length key
      → length key < 2 ^ 32
      → AreAlive incoming
      → joined incoming ≡ request_of key
      → 1 < fuel
      → sent_by (
          handle_client bdb my_node_id fuel env
            (at_rest bdb my_node_id (cache_of stats control s) incoming []))
        ≡ []
  unfolding sent_by
  sent_by-long_key key fuel incoming long_key fits h e l =
      let (left, done) =
        handle_client-refused bdb my_node_id fuel env
          (at_rest bdb my_node_id (cache_of stats control s) incoming []) (frame_for (asks_get key))
          (key ++ []) header long_key h (e ∙ request_of-request_bytes key) (omega (arith, l)) in
      rw done refl
    where
      header : IsHeader (frame_for (asks_get key))
      header = record {
        magic_right = refl;
        version_right = refl;
        opcode_fits = omega arith;
        flags_fits = omega arith;
        key_len_fits = fits;
        value_len_fits = omega arith;
        timestamp_fits = omega arith;
      }

  -- A credential of 1 to 4072 bytes, under which the database holds nothing or a valid record. When the
  -- request that the module writes for it reaches handle_client, and what is sent back reaches the
  -- module, in any chunks, the module gets no answer for a credential of more than 1024 bytes; for
  -- any other it gets the status 0 with the value that the database has under the credential, the
  -- status 1 when it has none or it was deleted, and no answer when the value is longer than 4088 bytes.
  -- Memory and payload buffers are there, and send takes all it is given.
  pub attempt-handle_client :
      (key : Bytes) (fuel : ℕ) (incoming : List Recv) (chunks : List Bytes)
      → (1 ≤ length key) × (length key ≤ 4072)
      → IsSound bdb s key
      → ((i n : ℕ) → (env i).payload_buf n ≡ true)
      → ((n : ℕ) → (env 0).alloc n ≡ true)
      → AreAlive incoming
      → joined incoming ≡ request_of key
      → 1 < fuel
      → AreChunks chunks
      → Stream.joined chunks
        ≡ sent_by (
            handle_client bdb my_node_id fuel env
              (at_rest bdb my_node_id (cache_of stats control s) incoming []))
      → attempt (record { connected = true; sent = true; chunks = chunks }) ≡ (
          if ltb max_key_len (length key)
          then no_answer
          else credential_answer (live (view bdb s key)))
  attempt-handle_client key fuel incoming chunks k sound bufs memory h e l cs sent =
      elim (Bool-cases (ltb max_key_len (length key))) [
        | inl long ↦ rw long (
            attempt-answer_in chunks cs
            ∙ (ap answer_in (
                  sent
                  ∙ sent_by-long_key key fuel incoming (ground (arith, long)) (omega (arith, k)) h e
                      l)
                ∙ silence))
        | inr short ↦ rw short (
            attempt-answer_in chunks cs
            ∙ (ap answer_in (
                  sent
                  ∙ sent_by-handle_client key fuel incoming (ground (arith, k, short)) sound bufs
                      memory h e l)
                ∙ answer_in-answer_bytes (live (view bdb s key))
                    (live-view-IsShortValue bdb my_node_id env0 stats control s key)))
      ]
    where
      env0 : Env
      env0 = env 0
