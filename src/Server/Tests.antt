-- ===== src/Server/Tests.antt =====
-- The handlers of dmmr_server.c at concrete inputs.
use http_dmmr_nginx.Base.{
  ◌≡◌, refl, true, false, List, [], ◌∷◌, ◌++◌, none, some, arith, Bytes, inl, if◌then◌else◌,
  bytes_eq, be, le, of_le, sym, ◌∙◌,
}
use http_dmmr_nginx.Access.Stream
use http_dmmr_nginx.Access.Cache.{attempt, request_of}
use http_dmmr_nginx.Config.Op
use http_dmmr_nginx.Db.Codec.{encode, decode}
use http_dmmr_nginx.Db.Ops.{record_buffer}
use http_dmmr_nginx.Db.Record.{
  write_entry, read_entry, dmmr_record_is_tombstone, dmmr_record_value_len,
}
use http_dmmr_nginx.Db.Converge.{pointer}
use http_dmmr_nginx.Db.Lww.{merge, result_of}
use http_dmmr_nginx.Db.Tests.{early, key_a, stored, stored-AllSound, key_a-IsKey}
use http_dmmr_nginx.Db.Toy.{toy, Table, table_get}
use http_dmmr_nginx.Db.Views.{view, view_found, holds, plenty}
use http_dmmr_nginx.Server.Client.{closed, handle_client}
use http_dmmr_nginx.Server.Frame.{framed, read_frame}
use http_dmmr_nginx.Server.Gateway.{
  sent_by, sent_by-handle_client, credential_answer, cache_of, attempt-handle_client,
}
use http_dmmr_nginx.Pool.Heap.{no_slot, dmmr_heap_pool_alloc}
use http_dmmr_nginx.Server.Jobs.{
  Jobs, Step, came, took, IsJobs, queued, run, fds, enqueue_job, take_job, placed, first_job,
  run-IsJobs,
}
use http_dmmr_nginx.Server.Gc.{scan_expired_entries, scan_loop, noticed, got, at_end}
use http_dmmr_nginx.Server.Legacy.{legacy_bytes, process_legacy_request-legacy_bytes}
use http_dmmr_nginx.Server.Net.{Recv, arrived, recv_eintr}
use http_dmmr_nginx.Server.Pipeline.{
  Asked, IsAsked, frame_for, frame_for-IsFrame, request_bytes, response_bytes, handled, serve_all,
  at_rest, handle_client-serve_all,
}
use http_dmmr_nginx.Server.Request.{
  Env, Cache, Stats, bare, process_legacy_request, send_legacy_response,
}
use http_dmmr_nginx.Server.Store.{asks_get, live, answer_bytes, handled-get}
use http_dmmr_nginx.Server.Wire.{joined, AreAlive, IsAlive, header_bytes, read_frame-header_bytes}
use http_dmmr_nginx.Server.Announce.{announce}
use http_dmmr_nginx.Server.Writes.{
  set_entry, del_entry, is_applied, status_for, handled-set, handled-del,
}

abbrev env : Env
env = record {
  payload_buf = plenty;
  alloc = plenty;
  malloc = plenty;
  now = 50;
  later = 51;
  cmd_slot = true;
}

abbrev zeros : Stats
zeros = record { request_count = 0; hit_count = 0; miss_count = 0; set_count = 0; del_count = 0 }

abbrev cache : Cache Table
cache = record { dbp = some stored; stats = zeros; control = [] }

abbrev gets_a : Asked
gets_a = asks_get key_a

abbrev sets_a : Asked
sets_a = record { opcode = Op.set; flags = 0; timestamp = 0; key = key_a; value = 9 ∷ 9 ∷ 9 ∷ [] }

abbrev deletes_a : Asked
deletes_a = record { opcode = Op.del; flags = 0; timestamp = 0; key = key_a; value = [] }

gets_a-IsAsked : IsAsked gets_a
gets_a-IsAsked = record {
  opcode_fits = omega arith;
  flags_fits = omega arith;
  timestamp_fits = omega arith;
  key_fits = key_a-IsKey;
  value_fits = omega arith;
}

sets_a-IsAsked : IsAsked sets_a
sets_a-IsAsked = record {
  opcode_fits = omega arith;
  flags_fits = omega arith;
  timestamp_fits = omega arith;
  key_fits = key_a-IsKey;
  value_fits = omega arith;
}

deletes_a-IsAsked : IsAsked deletes_a
deletes_a-IsAsked = record {
  opcode_fits = omega arith;
  flags_fits = omega arith;
  timestamp_fits = omega arith;
  key_fits = key_a-IsKey;
  value_fits = omega arith;
}

-- A header in two pieces with a signal between them, the key, and a byte of what follows.
abbrev in_pieces : List Recv
in_pieces =
    arrived (212 ∷ 212 ∷ 0 ∷ 1 ∷ 0 ∷ 1 ∷ [])
    ∷ recv_eintr
    ∷ arrived (0 ∷ 0 ∷ 0 ∷ 0 ∷ 0 ∷ 1 ∷ 0 ∷ 0 ∷ 0 ∷ 0 ∷ 0 ∷ 0 ∷ 0 ∷ 0 ∷ 0 ∷ 0 ∷ 0 ∷ 0 ∷ [])
    ∷ arrived (97 ∷ 5 ∷ [])
    ∷ []

in_pieces-AreAlive : AreAlive in_pieces
unfolding IsAlive
in_pieces-AreAlive = (omega arith, (tt, (omega arith, (omega arith, tt))))

in_pieces-joined : joined in_pieces ≡ header_bytes (frame_for gets_a) ++ (key_a ++ 5 ∷ [])
unfolding joined be
in_pieces-joined = refl

read_frame-header_bytes_example :
    ((read_frame plenty in_pieces).0 ≡ framed (frame_for gets_a) (some key_a))
    × (joined (read_frame plenty in_pieces).1 ≡ 5 ∷ [])
    × AreAlive (read_frame plenty in_pieces).1
read_frame-header_bytes_example =
    read_frame-header_bytes plenty (frame_for gets_a) key_a (5 ∷ [])
      (frame_for-IsFrame gets_a gets_a-IsAsked) refl (omega arith) refl in_pieces in_pieces-AreAlive
      in_pieces-joined

abbrev whole : List Recv
whole = arrived (request_bytes sets_a ++ request_bytes gets_a) ∷ []

whole-AreAlive : AreAlive whole
unfolding IsAlive be
whole-AreAlive = (omega arith, tt)

whole-joined : joined whole ≡ request_bytes sets_a ++ (request_bytes gets_a ++ [])
unfolding joined be
whole-joined = refl

handle_client-serve_all_example :
    (s' : List Recv) × (handle_client toy 1 3 (λ i. env) (at_rest toy 1 cache whole [])
      ≡ closed (
          at_rest toy 1
            (serve_all toy 1 (λ i. env) cache (sets_a ∷ gets_a ∷ [])).0
            s'
            ([] ++ (serve_all toy 1 (λ i. env) cache (sets_a ∷ gets_a ∷ [])).1)))
handle_client-serve_all_example =
    handle_client-serve_all toy 1 (sets_a ∷ gets_a ∷ []) 3 (λ i. env) cache whole []
      (sets_a-IsAsked, (gets_a-IsAsked, tt)) (λ i n. refl) whole-AreAlive whole-joined (omega arith)

handled-get_example :
    (response_bytes (handled toy 1 env cache gets_a).0
      ≡ answer_bytes (live (view toy stored key_a)))
    × ((handled toy 1 env cache gets_a).1.dbp ≡ some stored)
    × ((handled toy 1 env cache gets_a).1.control ≡ [])
handled-get_example =
    handled-get toy 1 env zeros [] stored gets_a refl key_a-IsKey (stored-AllSound key_a)
      (λ n. refl)

handled-set_example :
    let e = set_entry env 1 (9 ∷ 9 ∷ 9 ∷ []) in
    let d = handled toy 1 env cache sets_a in
    (d.0 ≡ bare (status_for (result_of (view toy stored key_a) e)))
    × (holds toy d.1.dbp key_a
        ≡ (if bytes_eq key_a key_a then merge (view toy stored key_a) e else view toy stored key_a))
    × (d.1.control ≡ (
        if is_applied (result_of (view toy stored key_a) e)
        then [] ++ announce key_a e ∷ []
        else []))
handled-set_example =
    handled-set toy 1 env zeros [] stored sets_a key_a sets_a-IsAsked (omega arith) (omega arith)
      (stored-AllSound key_a) refl (λ n. refl) (λ n. refl)
      ((key_a, encode (set_entry env 1 (9 ∷ 9 ∷ 9 ∷ [])) (pointer (9 ∷ 9 ∷ 9 ∷ []))) ∷ stored)
      (inl refl) refl

handled-del_example :
    let e = del_entry 50 1 in
    let d = handled toy 1 env cache deletes_a in
    (d.0 ≡ bare (status_for (result_of (view toy stored key_a) e)))
    × (holds toy d.1.dbp key_a
        ≡ (if bytes_eq key_a key_a then merge (view toy stored key_a) e else view toy stored key_a))
    × (d.1.control ≡ [] ++ announce key_a (del_entry 51 1) ∷ [])
handled-del_example =
    handled-del toy 1 env zeros [] stored deletes_a key_a deletes_a-IsAsked (omega arith)
      (omega arith) (stored-AllSound key_a) refl (λ n. refl) (λ n. refl)
      ((key_a, encode (del_entry 50 1) none) ∷ stored) refl refl

abbrev asking : List Recv
asking = arrived (request_of key_a) ∷ []

asking-AreAlive : AreAlive asking
unfolding IsAlive request_of be
asking-AreAlive = (omega arith, tt)

asking-joined : joined asking ≡ request_of key_a
unfolding joined request_of be
asking-joined = refl

-- The status 0, the length 2, two zero bytes and the value, in two pieces.
abbrev reply : List Bytes
reply = (0 ∷ 0 ∷ 0 ∷ 0 ∷ []) ∷ (0 ∷ 2 ∷ 0 ∷ 0 ∷ 7 ∷ 8 ∷ []) ∷ []

reply-joined : Stream.joined reply ≡ answer_bytes (live (view toy stored key_a))
unfolding answer_bytes live view view_found decode record_buffer write_entry read_entry
    dmmr_record_is_tombstone dmmr_record_value_len table_get bytes_eq be le of_le
reply-joined = refl

reply_sent :
    Stream.joined reply
    ≡ sent_by
        (handle_client toy 1 2 (λ i. env) (at_rest toy 1 (cache_of zeros [] stored) asking []))
reply_sent =
    reply-joined
    ∙ sym (
        sent_by-handle_client toy 1 (λ i. env) zeros [] stored key_a 2 asking key_a-IsKey
          (stored-AllSound key_a) (λ i n. refl) (λ n. refl) asking-AreAlive asking-joined
          (omega arith))

attempt-handle_client_example :
    attempt (record { connected = true; sent = true; chunks = reply })
    ≡ credential_answer (live (view toy stored key_a))
attempt-handle_client_example =
    attempt-handle_client toy 1 (λ i. env) zeros [] stored key_a 2 asking reply
      (omega arith, omega arith) (stored-AllSound key_a) (λ i n. refl) (λ n. refl) asking-AreAlive
      asking-joined (omega arith) (omega arith, (omega arith, tt)) reply_sent

-- A value of more than 4096 bytes is past the end of the buffer of a legacy answer.
legacy_overrun : send_legacy_response 0 4097 (some []) [] ≡ none
unfolding send_legacy_response
legacy_overrun = refl

process_legacy_request-legacy_bytes_example :
    process_legacy_request toy env cache [] Op.get 1 (some key_a)
    ≡ legacy_bytes (live (view toy stored key_a))
process_legacy_request-legacy_bytes_example =
    process_legacy_request-legacy_bytes toy env cache stored key_a refl (λ n. refl) (omega arith)
      (stored-AllSound key_a)

abbrev two_slots : Jobs
two_slots = record {
  pool = record { slots = 1 ∷ no_slot ∷ []; obj_size = 32; capacity = 2; free_head = 0 };
  queue = [];
  queue_size = 0;
}

abbrev busy : List Step
busy = came 5 ∷ came 6 ∷ came 7 ∷ took ∷ came 8 ∷ []

-- Two connections find a slot, and the first of them is handed out.
busy_handed_out : (run busy two_slots).0 ++ fds (run busy two_slots).1.queue ≡ 5 ∷ 6 ∷ []
unfolding run enqueue_job take_job placed first_job dmmr_heap_pool_alloc
busy_handed_out = refl

run-IsJobs_example :
    IsJobs (run busy two_slots).1
    × ([] ++ queued busy two_slots ≡ (run busy two_slots).0 ++ fds (run busy two_slots).1.queue)
run-IsJobs_example = run-IsJobs busy two_slots (refl, omega arith)

-- A scan finds the expired entry, and, as the cursor starts again, finds it twice.
scanned_twice :
    scan_expired_entries true false 200
      (λ k. true)
      (got key_a (encode early (pointer early.value))
        ∷ at_end
        ∷ got key_a (encode early (pointer early.value))
        ∷ [])
      []
    ≡ (true, key_a ∷ key_a ∷ [])
unfolding scan_expired_entries scan_loop noticed record_buffer write_entry read_entry be le of_le
scanned_twice = refl
