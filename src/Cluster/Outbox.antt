-- ===== src/Cluster/Outbox.antt =====
-- The outboxes of dmmr_cluster.c: broadcast_sync puts a message into each, the sender thread of a peer
-- takes them out, the reaper drops idle peers. The clock, connect, the handshakes and a send are
-- parameters of a turn. Seconds and microseconds are unsigned; a difference below zero counts as 0,
-- which is above no limit.
use http_dmmr_nginx.Base.{
  ℕ, ◌+◌, ◌-◌, ◌*◌, Bool, true, false, not, ◌&&◌, ◌||◌, List, [], ◌∷◌, ◌++◌, Option, none, some,
  if◌then◌else◌, Bytes, take, ltb, ◌==◌,
}
use http_dmmr_nginx.Config.{max_key_len, max_value_len}
use http_dmmr_nginx.Config.Op
use http_dmmr_nginx.Db.Ops.{bytes_at, is_null}

-- OUTBOX_MAX_MSG, OUTBOX_MSG_TTL, PEER_RETRY_BASE, PEER_RETRY_MAX, PEER_EVICT_TIMEOUT and
-- PEER_HEALTHCHECK_INTERVAL
abbrev pub outbox_max_msg : ℕ
outbox_max_msg = 256

abbrev pub outbox_msg_ttl : ℕ
outbox_msg_ttl = 120

abbrev pub peer_retry_base : ℕ
peer_retry_base = 1

abbrev pub peer_retry_max : ℕ
peer_retry_max = 30

abbrev pub peer_evict_timeout : ℕ
peer_evict_timeout = 300

abbrev pub peer_healthcheck_interval : ℕ
peer_healthcheck_interval = 15

-- struct outbox_msg; `value` is empty where the pointer is NULL.
pub record OutboxMsg : Type 0 where
  pub opcode : ℕ
  pub flags : ℕ
  pub key : Bytes
  pub value : Bytes
  pub timestamp : ℕ
  pub node_id : ℕ
  pub expire_at : ℕ
  pub enqueued_at : ℕ

-- struct peer_conn, as the sender and the reaper use it. `fd` says whether the descriptor is open.
pub record PeerConn : Type 0 where
  pub node_id : ℕ
  pub fd : Bool
  pub outbox : List OutboxMsg
  pub outbox_count : ℕ
  pub last_activity : ℕ
  pub next_retry : ℕ
  pub last_healthcheck : ℕ
  pub retry_backoff : ℕ
  pub stale_count : ℕ
  pub active : Bool
  pub is_seed : Bool
  pub authenticated : Bool
  pub auth_expire_at : ℕ

-- The end of the outbox, if there is room.
unfoldable pub enqueue : OutboxMsg → PeerConn → PeerConn
enqueue msg peer =
    if ltb peer.outbox_count outbox_max_msg
    then record peer { outbox = peer.outbox ++ msg ∷ []; outbox_count = peer.outbox_count + 1 }
    else peer

-- The loop over the peers. The flag at a peer says whether malloc serves its message.
unfoldable pub offer_all : ℕ → (PeerConn → Bool) → OutboxMsg → List PeerConn → List PeerConn
offer_all my_node_id room msg [] = []
offer_all my_node_id room msg (peer ∷ rest) =
    let later = offer_all my_node_id room msg rest in
    if not (peer.node_id == 0) && (peer.node_id == my_node_id)
    then peer ∷ later
    else if not (room peer)
    then peer ∷ later
    else enqueue msg peer ∷ later

unfoldable pub broadcast_sync :
    ℕ
    → (PeerConn → Bool)
    → ℕ
    → Option Bytes
    → ℕ
    → Option Bytes
    → ℕ
    → ℕ
    → ℕ
    → ℕ
    → ℕ
    → List PeerConn
    → List PeerConn
broadcast_sync my_node_id room now key key_len value value_len timestamp node_id expire_at flags
      peers =
    let msg : OutboxMsg = record {
      opcode = Op.sync;
      flags = flags;
      key = take key_len (bytes_at key);
      value = take value_len (bytes_at value);
      timestamp = timestamp;
      node_id = node_id;
      expire_at = expire_at;
      enqueued_at = now;
    } in
    if is_null key || ((key_len == 0) || (ltb max_key_len key_len || ltb max_value_len value_len))
    then peers
    else offer_all my_node_id room msg peers

-- What one turn of the sender's loop meets: the times, whether connect succeeds, the expiry that
-- cluster_handshake_client and the second handshake give, and whether the frame is sent.
pub record SenderTurn : Type 0 where
  pub now : ℕ
  pub micros : ℕ
  pub connected : Bool
  pub handshake : Option ℕ
  pub reauth : Option ℕ
  pub sent : Bool

-- What becomes of the message that a turn takes out of the outbox.
pub data Fate : Type 0 where
  delivered : OutboxMsg → Fate
  outdated : OutboxMsg → Fate

unfoldable pub doubled : ℕ → ℕ
doubled backoff = if ltb (backoff * 2) peer_retry_max then backoff * 2 else peer_retry_max

-- The handshake on a new connection. The flag says whether the turn goes on.
unfoldable pub shaken : SenderTurn → PeerConn → Bool × PeerConn
shaken t peer = shake t.handshake
  where
    shake : Option ℕ → Bool × PeerConn
    shake none = (false, record peer { fd = false; authenticated = false; auth_expire_at = 0 })
    shake (some expire_at) = (
      true,
      record peer { authenticated = true; auth_expire_at = expire_at; last_activity = t.now },
    )

-- The first part of a turn: a connection.
unfoldable pub ensure_connection : SenderTurn → PeerConn → Bool × PeerConn
ensure_connection t peer =
    let up = record peer {
      fd = true;
      retry_backoff = peer_retry_base;
      last_activity = t.now;
      authenticated = false;
      auth_expire_at = 0;
    } in
    let backoff = doubled peer.retry_backoff in
    if peer.fd
    then (true, peer)
    else if ltb t.now peer.next_retry
    then (false, peer)
    else if not t.connected
    then (false, record peer { retry_backoff = backoff; next_retry = t.now + backoff })
    else shaken t up

-- The second part: a session that has not expired. A turn that authenticates ends with it.
unfoldable pub ensure_session : SenderTurn → PeerConn → Bool × PeerConn
ensure_session t peer =
    let backoff = doubled peer.retry_backoff in
    if peer.authenticated && ltb t.micros peer.auth_expire_at
    then (true, peer)
    else (false, renewed t.reauth backoff)
  where
    renewed : Option ℕ → ℕ → PeerConn
    renewed none backoff = record peer {
      fd = false;
      authenticated = false;
      auth_expire_at = 0;
      retry_backoff = backoff;
      next_retry = t.now + backoff;
      stale_count = peer.stale_count + 1;
    }
    renewed (some expire_at) backoff = record peer {
      authenticated = true;
      auth_expire_at = expire_at;
      last_activity = t.now;
      retry_backoff = peer_retry_base;
    }

-- The third part, on the outbox: the fate of its first message, if it leaves.
unfoldable pub send_first : SenderTurn → PeerConn → List OutboxMsg → Option Fate × PeerConn
send_first t peer [] = (none, peer)
send_first t peer (msg ∷ rest) =
    let gone = record peer { outbox = rest; outbox_count = peer.outbox_count - 1 } in
    if ltb outbox_msg_ttl (t.now - msg.enqueued_at)
    then (some (outdated msg), gone)
    else if t.sent
    then (some (delivered msg), record gone { last_activity = t.now })
    else (
      none,
      record peer {
        fd = false;
        authenticated = false;
        auth_expire_at = 0;
        next_retry = t.now + peer.retry_backoff;
        retry_backoff = doubled peer.retry_backoff;
        stale_count = peer.stale_count + 1;
      },
    )

unfoldable pub after_session : SenderTurn → Bool × PeerConn → Option Fate × PeerConn
after_session t (false, peer) = (none, peer)
after_session t (true, peer) =
    if peer.active then send_first t peer peer.outbox else (none, record peer { fd = false })

unfoldable pub after_connection : SenderTurn → Bool × PeerConn → Option Fate × PeerConn
after_connection t (false, peer) = (none, peer)
after_connection t (true, peer) = after_session t (ensure_session t peer)

-- One turn of peer_sender_thread. A peer that is not active is left, and its descriptor closed.
unfoldable pub sender_turn : SenderTurn → PeerConn → Option Fate × PeerConn
sender_turn t peer =
    if not peer.active
    then (none, record peer { fd = false })
    else after_connection t (ensure_connection t peer)
