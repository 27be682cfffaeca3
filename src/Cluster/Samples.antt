-- ===== src/Cluster/Samples.antt =====
-- A snapshot, a HELLO and an outbox at concrete inputs.
use http_dmmr_nginx.Base.{
  length, ℕ, bytes_eq, le, replicate, length-replicate, Option, ◌+◌, ◌*◌, ◌%◌, ◌^◌, if◌then◌else◌,
  ◌≡◌, refl, sym, ap, ◌∙◌, true, false, List, [], ◌∷◌, ◌++◌, none, some, arith, All, Bytes, inl,
  inr, ◌⊎◌, ◌≢◌, append-nil, be, of_be_from,
}
use http_dmmr_nginx.Config.Op
use http_dmmr_nginx.Db.Codec.{encode}
use http_dmmr_nginx.Db.Converge.{pointer, Delivery, IsDelivery, replay}
use http_dmmr_nginx.Db.Snapshot.{as_fetches}
use http_dmmr_nginx.Db.Sound.{AllSound}
use http_dmmr_nginx.Db.Tests.{key_a, key_a-IsKey, early, early-IsEntry, stored}
use http_dmmr_nginx.Db.Toy.{toy, table_get, table_fetches}
use http_dmmr_nginx.Db.Views.{plenty, view, holds}
use http_dmmr_nginx.Cluster.Bootstrap.{conf_of, send_snapshot, ended, request_snapshot}
use http_dmmr_nginx.Cluster.Fetch.{request_snapshot-send_snapshot}
use http_dmmr_nginx.Cluster.Orderly.{IsConn}
use http_dmmr_nginx.Cluster.Fifo.{Event, offered, turned, run, accepted, run-IsConn}
use http_dmmr_nginx.Cluster.Greeting.{IsSelf, IsName, hello_message}
use http_dmmr_nginx.Cluster.Hello.{take_answer, hello_value, handle_cluster_hello}
use http_dmmr_nginx.Cluster.Intake.{TakesIn, handle_cluster_hello-TakesIn}
use http_dmmr_nginx.Cluster.Offer.{AreOffered}
use http_dmmr_nginx.Cluster.Outbox.{OutboxMsg, PeerConn, SenderTurn}
use http_dmmr_nginx.Cluster.Peers.{
  Self, add_peer_internal, upsert, endpoint_is_self, is_known, new_peer,
}
use http_dmmr_nginx.Cluster.PeerList.{
  parse_peer_list, parse_loop, visit, read_endpoint, c_string, send_peer_list,
}
use http_dmmr_nginx.Cluster.Reaper.{Reaps, reap, locks_again, reap-Reaps}
use http_dmmr_nginx.Cluster.Replicate.{posted, send_posted, sync_received, announce-replicates}
use http_dmmr_nginx.Server.Control.{process_control_cmd}
use http_dmmr_nginx.Server.Announce.{announce}
use http_dmmr_nginx.Db.Lww.{merge}
use http_dmmr_nginx.Config.{auth_ttl_micros}
use http_dmmr_nginx.Cluster.Handshake.{auth_response_value, compute_auth_hmac, check_response}
use http_dmmr_nginx.Cluster.Trust.{response_message, check_response-auth_response_value}
use http_dmmr_nginx.Cluster.Seeds.{
  parse_seed, checked_seed, split_seed, bracketed, cut_first, cut_last, seed_at,
}
use http_dmmr_nginx.Cluster.Session.{authenticate_cluster_frame}
use http_dmmr_nginx.Cluster.Transfer.{
  record_message, record_message-IsMessage, pairs_of, snapshot_bytes, send_snapshot-snapshot_bytes,
}
use http_dmmr_nginx.Cluster.Transport.{header_for, message_bytes, cluster_send_frame-message_bytes}
use http_dmmr_nginx.Cluster.Wire.{
  Received, cluster_recv_frame, cluster_id_of, fnv1a_from, write_frame,
}
use http_dmmr_nginx.Server.Net.{Recv, arrived}
use http_dmmr_nginx.Server.Wire.{joined, AreAlive, IsAlive}

-- prod
abbrev prod : Bytes
prod = 112 ∷ 114 ∷ 111 ∷ 100 ∷ []

prod_authentic : authenticate_cluster_frame (conf_of prod) (cluster_id_of prod) ≡ true
unfolding authenticate_cluster_frame cluster_id_of fnv1a_from
prod_authentic = refl

abbrev records : List Delivery
records = record { key = key_a; entry = early } ∷ []

records_fit : All IsDelivery records
records_fit = (record { key_fits = key_a-IsKey; entry_fits = early-IsEntry }, tt)

stored_walked : toy.open_cursor stored ≡ some (as_fetches (pairs_of records))
unfolding table_fetches
stored_walked = refl

abbrev snapshot : List Recv
snapshot = arrived (snapshot_bytes prod 2 records) ∷ []

snapshot-AreAlive : AreAlive snapshot
unfolding IsAlive write_frame be
snapshot-AreAlive = (omega arith, tt)

snapshot-joined : joined snapshot ≡ (send_snapshot toy prod 2 plenty (some stored) []).1
unfolding joined
snapshot-joined =
    append-nil (snapshot_bytes prod 2 records)
    ∙ sym (
        ap (λ x. x.1)
          (send_snapshot-snapshot_bytes prod toy 2 stored records (omega arith) records_fit
            stored_walked))

empty-AllSound : AllSound toy (some [])
unfolding table_get
empty-AllSound j = inl refl

request_snapshot-send_snapshot_example :
    (s' : List Recv) × (request_snapshot toy prod 3 plenty true (some []) snapshot
      ≡ ended true (replay toy records (some [])) s')
request_snapshot-send_snapshot_example =
    request_snapshot-send_snapshot toy prod prod_authentic (λ s k d. ((k, d) ∷ s, refl)) toy 2
      stored records [] snapshot 3 (omega arith) records_fit stored_walked empty-AllSound
      snapshot-AreAlive snapshot-joined (omega arith)

abbrev node_a : Self
node_a = record { my_node_id = 7; advertise_address = 97 ∷ 98 ∷ []; advertise_port = 9081 }

abbrev node_b : Self
node_b = record { my_node_id = 8; advertise_address = 99 ∷ []; advertise_port = 9081 }

node_a-IsSelf : IsSelf node_a
node_a-IsSelf = record {
  node_id_set = λ e. omega arith;
  address_fits = (omega arith, omega arith);
  address_string = ((λ e. omega arith), ((λ e. omega arith), tt));
  port_fits = omega arith;
}

prod-IsName : IsName prod
prod-IsName = (
  omega arith,
  ((λ e. omega arith), ((λ e. omega arith), ((λ e. omega arith), ((λ e. omega arith), tt)))),
)

handle_cluster_hello-TakesIn_example :
    let r =
      handle_cluster_hello node_b prod plenty 5
        (header_for prod (hello_message node_a prod))
        (some (97 ∷ 98 ∷ [] ++ hello_value node_a prod))
        [] in
    (((prod ≡ []) ⊎ (prod ≡ prod))
      × TakesIn (97 ∷ 98 ∷ []) 9081 7 [] r.0
      × (r.1 ≡ send_peer_list plenty r.0))
    ⊎ ((prod ≢ []) × (prod ≢ prod) × (r ≡ ([], none)))
unfolding endpoint_is_self bytes_eq
handle_cluster_hello-TakesIn_example =
    handle_cluster_hello-TakesIn node_a prod node_b prod plenty 5 [] node_a-IsSelf prod-IsName
      (omega arith) refl refl

abbrev note : OutboxMsg
note = record {
  opcode = Op.sync;
  flags = 0;
  key = key_a;
  value = 7 ∷ [];
  timestamp = 5;
  node_id = 1;
  expire_at = 9;
  enqueued_at = 100;
}

abbrev idle_peer : PeerConn
idle_peer = record {
  node_id = 2;
  fd = true;
  outbox = [];
  outbox_count = 0;
  last_activity = 100;
  next_retry = 0;
  last_healthcheck = 0;
  retry_backoff = 1;
  stale_count = 0;
  active = true;
  is_seed = false;
  authenticated = true;
  auth_expire_at = 1_000;
}

idle_peer-IsConn : IsConn idle_peer
idle_peer-IsConn = record {
  counted = refl;
  bounded = omega arith;
  backoff = (omega arith, omega arith);
  session = inl refl;
}

abbrev busy_turn : SenderTurn
busy_turn = record {
  now = 101;
  micros = 500;
  connected = true;
  handshake = none;
  reauth = none;
  sent = true;
}

abbrev events : List Event
events = offered note ∷ offered note ∷ turned busy_turn ∷ []

run-IsConn_example :
    IsConn (run events idle_peer).1
    × ([] ++ accepted events idle_peer
        ≡ (run events idle_peer).0 ++ (run events idle_peer).1.outbox)
run-IsConn_example = run-IsConn events idle_peer idle_peer-IsConn

-- A peer whose last send failed; it answers the HELLO with a peer list that names x:80, node 4.
abbrev stale_peer : PeerConn
stale_peer = record idle_peer { stale_count = 1 }

abbrev one_name : PeerConn → Option Received
one_name peer = some (
  some (
    record {
      magic = 0;
      version = 1;
      opcode = Op.cluster_peer_list;
      flags = 0;
      cluster_id = 0;
      node_id = 4;
      key_len = 0;
      value_len = 14;
      timestamp = 0;
      expire_at = 0;
    },
    some (be 2 1 ++ (be 8 4 ++ (be 2 80 ++ (1 ∷ 120 ∷ [])))),
  ),
  [],
)

stale_peer-IsConn : IsConn stale_peer
stale_peer-IsConn = record {
  counted = refl;
  bounded = omega arith;
  backoff = (omega arith, omega arith);
  session = inl refl;
}

reap-Reaps_example :
    Reaps node_a 200 one_name
      (stale_peer ∷ idle_peer ∷ [])
      (reap node_a 200 one_name (stale_peer ∷ idle_peer ∷ []))
reap-Reaps_example =
    reap-Reaps node_a 200 one_name (stale_peer ∷ idle_peer ∷ [])
      (stale_peer-IsConn, (idle_peer-IsConn, tt))

-- The round blocks on the answer of the stale peer.
stale_peer_blocks : reap node_a 200 one_name (stale_peer ∷ idle_peer ∷ []) ≡ none
unfolding reap locks_again take_answer parse_peer_list parse_loop visit read_endpoint
    add_peer_internal upsert endpoint_is_self is_known c_string bytes_eq be new_peer of_be_from
stale_peer_blocks = refl

abbrev written : Delivery
written = record { key = key_a; entry = early }

written-IsDelivery : IsDelivery written
written-IsDelivery = record { key_fits = key_a-IsKey; entry_fits = early-IsEntry }

abbrev incoming : List Recv
incoming = arrived (message_bytes prod (record_message written)) ∷ []

incoming-AreAlive : AreAlive incoming
unfolding IsAlive write_frame be
incoming-AreAlive = (omega arith, tt)

incoming-joined : joined incoming ≡ (send_posted prod (posted 9 written) []).1 ++ []
unfolding joined
incoming-joined = sym (
    ap (λ x. x.1 ++ [])
      (cluster_send_frame-message_bytes prod (record_message written)
        (record_message-IsMessage written written-IsDelivery)))

announce-replicates_example :
    let r = sync_received toy prod true 50 40 (some []) (cluster_recv_frame plenty incoming) in
    AreOffered 1
      (λ p. true)
      (posted 9 written)
      (idle_peer ∷ [])
      (process_control_cmd 1 (λ p. true) 9 (announce key_a early) (idle_peer ∷ []))
    × (r.0 ≡ true)
    × (holds toy r.1 key_a
        ≡ (if bytes_eq key_a key_a then merge (view toy [] key_a) early else view toy [] key_a))
announce-replicates_example =
    announce-replicates toy [] ((key_a, encode early (pointer early.value)) ∷ []) written key_a
      written-IsDelivery (empty-AllSound key_a) (λ e. omega arith) refl 1 9 (λ p. true)
      (idle_peer ∷ []) prod [] true 50 40 incoming prod_authentic (inr (omega arith))
      incoming-AreAlive incoming-joined

-- A stand-in for the hash, of 32 bytes.
abbrev hash : Bytes → Bytes
hash bs = replicate 32 (length bs % 256)

hash_length : (bs : Bytes) → length (hash bs) ≡ 32
hash_length bs = length-replicate 32 (length bs % 256)

check_response-auth_response_value_example :
    let value = auth_response_value hash prod 11 50 (be 8 7) in
    let mac = compute_auth_hmac hash (be 8 7) (le 8 11) ((50 + auth_ttl_micros) % 2 ^ 64) in
    check_response hash prod 7 (some (header_for prod (response_message 2 value), some value), [])
    ≡ (if bytes_eq (mac prod) (mac prod) then some ((50 + auth_ttl_micros) % 2 ^ 64) else none)
check_response-auth_response_value_example =
    check_response-auth_response_value hash hash_length prod prod prod 7 11 2 50 [] (omega arith)

-- A stand-in for strtol on two digits, and the seeds [::1]:80 and db:80.
abbrev digits : Bytes → Option ℕ
digits text = some (length text * 40)

brackets_parsed :
    parse_seed digits (91 ∷ 58 ∷ 58 ∷ 49 ∷ 93 ∷ 58 ∷ 56 ∷ 48 ∷ [])
    ≡ some (record { addr = 58 ∷ 58 ∷ 49 ∷ []; port = 80; node_id = 0 })
unfolding parse_seed checked_seed split_seed bracketed cut_first seed_at
brackets_parsed = refl

host_parsed :
    parse_seed digits (100 ∷ 98 ∷ 58 ∷ 56 ∷ 48 ∷ [])
    ≡ some (record { addr = 100 ∷ 98 ∷ []; port = 80; node_id = 0 })
unfolding parse_seed checked_seed split_seed cut_last seed_at
host_parsed = refl
