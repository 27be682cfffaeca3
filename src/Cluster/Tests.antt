-- ===== src/Cluster/Tests.antt =====
-- Two nodes exchange their peers: the theorems on the peer list at concrete inputs.
use http_dmmr_nginx.Base.{List, All, ◌≡◌, refl, true, false, [], ◌∷◌, some, none, arith, bytes_eq}
use http_dmmr_nginx.Cluster.Peers.{Self, Peer, endpoint_is_self, snapshot_peer_endpoints}
use http_dmmr_nginx.Cluster.PeerList.{Parsed, parse_peer_list, send_peer_list}
use http_dmmr_nginx.Cluster.NoSelf.{IsPeer, parse_peer_list-IsPeer}
use http_dmmr_nginx.Cluster.Exchange.{IsEndpoint, others, parse_peer_list-send}
use http_dmmr_nginx.Base.{◌+◌, ◌%◌, ◌^◌, ◌⊎◌, ◌*◌, ◌++◌, ℕ, Bytes, Option, length}
use http_dmmr_nginx.Cluster.Seeds.{discover_once, discover_seeds, rediscover_from_known_peers}
use http_dmmr_nginx.Cluster.Seeded.{
  Seed, IsSeed, listed, text_of, other_seeds, discover_once-listed,
}
use http_dmmr_nginx.Config.{auth_ttl_micros}
use http_dmmr_nginx.Config.Op
use http_dmmr_nginx.Cluster.Session.{
  Frame, ClusterConf, challenge, apply_sync, authenticate_cluster_frame, dispatch, session,
  await_ok, reply, handle_cluster_connection, IsHarmless, IsTimely,
  handle_cluster_connection-IsTimely,
}

abbrev node_1 : Self
node_1 = record { my_node_id = 1; advertise_address = 97 ∷ []; advertise_port = 9081 }

abbrev peer_1 : Peer
peer_1 = record {
  addr = 97 ∷ [];
  port = 9081;
  node_id = 1;
  active = true;
  is_seed = false;
  retry_backoff = 1;
  last_activity = 0;
  authenticated = false;
  auth_expire_at = 0;
}

abbrev peer_3 : Peer
peer_3 = record peer_1 { addr = 98 ∷ 99 ∷ []; node_id = 3 }

-- The table of a third node, which knows both.
abbrev table : List Peer
table = peer_1 ∷ peer_3 ∷ []

abbrev blank : Parsed
blank = record { peers = peer_3 ∷ []; items = [] }

table-IsEndpoint : All IsEndpoint (snapshot_peer_endpoints 128 table)
unfolding snapshot_peer_endpoints
table-IsEndpoint = (
  record {
    node_id_fits = omega arith;
    port_fits = omega arith;
    addr_fits = (omega arith, omega arith);
    addr_string = ((λ e. omega arith), tt);
  },
  (
    record {
      node_id_fits = omega arith;
      port_fits = omega arith;
      addr_fits = (omega arith, omega arith);
      addr_string = ((λ e. omega arith), ((λ e. omega arith), tt));
    },
    tt,
  ),
)

parse_peer_list-send_example :
    let parsed = parse_peer_list node_1 (λ n. true) 7 (send_peer_list (λ n. true) table) blank in
    (parsed.0 ≡ true) × (parsed.1.items ≡ others node_1 (snapshot_peer_endpoints 128 table))
parse_peer_list-send_example =
    parse_peer_list-send node_1 (λ n. true) (λ n. true) 7 table blank table-IsEndpoint refl

peer_3-IsPeer : IsPeer node_1 peer_3
unfolding endpoint_is_self bytes_eq
peer_3-IsPeer = record {
  port_fits = (omega arith, omega arith);
  addr_fits = (omega arith, omega arith);
  other = refl;
}

parse_peer_list-IsPeer_example :
    All (IsPeer node_1) (parse_peer_list node_1 (λ n. true) 7 (some (0 ∷ 9 ∷ 1 ∷ [])) blank).1.peers
parse_peer_list-IsPeer_example =
    parse_peer_list-IsPeer node_1 (λ n. true) 7 (some (0 ∷ 9 ∷ 1 ∷ [])) blank (peer_3-IsPeer, tt)

abbrev asks : Frame
asks = record {
  opcode = Op.auth_request;
  cluster_id = 5;
  node_id = 3;
  key_len = 0;
  value_len = 8;
  at = 100;
  sendable = true;
}

abbrev agrees : Frame
agrees = record asks { opcode = Op.auth_ok; value_len = 0 }

abbrev syncs : Frame
syncs = record asks { opcode = Op.sync; at = 200 }

abbrev named : ClusterConf
named = record { has_name = true; name_hash = 5 }

handle_cluster_connection-IsTimely_example :
    let fs : List Frame = asks ∷ (agrees ∷ (syncs ∷ [])) in
    All IsHarmless (handle_cluster_connection named true fs)
    ⊎ ((f : Frame) × (g : Frame) × (rest : List Frame) × (fs ≡ f ∷ (g ∷ rest))
        × (f.opcode ≡ Op.auth_request)
        × (g.opcode ≡ Op.auth_ok)
        × All
            (IsTimely named ((f.at + auth_ttl_micros) % 2 ^ 64))
            (handle_cluster_connection named true fs))
handle_cluster_connection-IsTimely_example =
    handle_cluster_connection-IsTimely named (asks ∷ (agrees ∷ (syncs ∷ [])))

-- The sync is applied.
authenticated_sync_applied :
    handle_cluster_connection named true (asks ∷ (agrees ∷ (syncs ∷ [])))
    ≡ challenge ∷ (apply_sync syncs ∷ [])
unfolding handle_cluster_connection reply await_ok session dispatch authenticate_cluster_frame
authenticated_sync_applied = refl

-- A stand-in for strtol on two digits, and the seeds db:80 and [::1]:80.
abbrev two_digits : Bytes → Option ℕ
two_digits text = some (length text * 40)

abbrev seed_db : Seed
seed_db = record { host = 100 ∷ 98 ∷ []; port_text = 56 ∷ 48 ∷ []; port = 80; in_brackets = false }

abbrev seed_local : Seed
seed_local = record {
  host = 58 ∷ 58 ∷ 49 ∷ [];
  port_text = 56 ∷ 48 ∷ [];
  port = 80;
  in_brackets = true;
}

seed_db-IsSeed : IsSeed two_digits seed_db
seed_db-IsSeed = record {
  hosted = omega arith;
  unbracketed = ground arith;
  unblank = ground arith;
  whole = ground arith;
  last = ground arith;
  numbered = omega arith;
  number = refl;
  ranged = omega arith;
}

seed_local-IsSeed : IsSeed two_digits seed_local
seed_local-IsSeed = record {
  hosted = omega arith;
  unbracketed = ground arith;
  unblank = ground arith;
  whole = ground arith;
  last = ground arith;
  numbered = omega arith;
  number = refl;
  ranged = omega arith;
}

-- No node answers, and no snapshot comes.
discover_once-listed_example :
    let found =
      discover_seeds
        (λ e. none)
        (λ e. false)
        (other_seeds node_1 (seed_db ∷ seed_local ∷ []))
        false in
    discover_once two_digits
      (λ e. none)
      (λ e. false)
      node_1
      (listed (seed_db ∷ seed_local ∷ []))
      (peer_1 ∷ [])
      false
    ≡ (found.0 ++ rediscover_from_known_peers node_1 (peer_1 ∷ []), found.1)
unfolding listed text_of
discover_once-listed_example =
    discover_once-listed two_digits node_1 (λ e. none) (λ e. false) (seed_db ∷ seed_local ∷ [])
      (peer_1 ∷ []) false (seed_db-IsSeed, (seed_local-IsSeed, tt)) (omega arith)
