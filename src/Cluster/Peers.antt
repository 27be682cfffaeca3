-- ===== src/Cluster/Peers.antt =====
-- The table of peers of dmmr_cluster.c, under peers_mutex. The sender thread and the outbox that a
-- new peer gets are left aside.
use http_dmmr_nginx.Base.{
  ℕ, zero, suc, Bool, true, false, not, ◌&&◌, ◌||◌, List, [], ◌∷◌, if◌then◌else◌, Bytes, bytes_eq,
  length, ltb, ◌==◌,
}

-- my_node_id, cluster_advertise_address and cluster_advertise_port
pub record Self : Type 0 where
  pub my_node_id : ℕ
  pub advertise_address : Bytes
  pub advertise_port : ℕ

-- struct peer_endpoint, the address without its NUL
pub record Endpoint : Type 0 where
  pub addr : Bytes
  pub port : ℕ
  pub node_id : ℕ

-- struct peer_conn
pub record Peer : Type 0 where
  pub addr : Bytes
  pub port : ℕ
  pub node_id : ℕ
  pub active : Bool
  pub is_seed : Bool
  pub retry_backoff : ℕ
  pub last_activity : ℕ
  pub authenticated : Bool
  pub auth_expire_at : ℕ

unfoldable pub endpoint_is_self : Self → Bytes → ℕ → ℕ → Bool
endpoint_is_self self addr port node_id =
    (not (node_id == 0) && (node_id == self.my_node_id))
    || ((port == self.advertise_port) && bytes_eq addr self.advertise_address)

-- The test of the loop of add_peer_internal.
unfoldable pub is_known : Bytes → ℕ → ℕ → Peer → Bool
is_known addr port node_id peer =
    (not (node_id == 0) && (peer.node_id == node_id))
    || ((peer.port == port) && bytes_eq peer.addr addr)

unfoldable pub refreshed : ℕ → Bytes → ℕ → ℕ → Bool → Peer → Peer
refreshed now addr port node_id is_seed peer = record peer {
  addr = addr;
  port = port;
  node_id = if not (node_id == 0) then node_id else peer.node_id;
  is_seed = if is_seed then true else peer.is_seed;
  last_activity = now;
}

unfoldable pub new_peer : ℕ → Bytes → ℕ → ℕ → Bool → Peer
new_peer now addr port node_id is_seed = record {
  addr = addr;
  port = port;
  node_id = node_id;
  active = true;
  is_seed = is_seed;
  retry_backoff = 1;
  last_activity = now;
  authenticated = false;
  auth_expire_at = 0;
}

-- The loop over the table and what follows it: the first known peer is refreshed, and without one a
-- new peer goes to the end, if calloc gives room for it.
unfoldable pub upsert : Bool → ℕ → Bytes → ℕ → ℕ → Bool → List Peer → List Peer
upsert room now addr port node_id is_seed [] =
    if room then new_peer now addr port node_id is_seed ∷ [] else []
upsert room now addr port node_id is_seed (peer ∷ rest) =
    let later = upsert room now addr port node_id is_seed rest in
    if is_known addr port node_id peer
    then refreshed now addr port node_id is_seed peer ∷ rest
    else peer ∷ later

unfoldable pub add_peer_internal : Self → Bool → ℕ → Bytes → ℕ → ℕ → Bool → List Peer → List Peer
add_peer_internal self room now addr port node_id is_seed peers =
    if ltb port 1 || ltb 65535 port
    then peers
    else if (length addr == 0) || (ltb 255 (length addr) || endpoint_is_self self addr port node_id)
    then peers
    else upsert room now addr port node_id is_seed peers

abbrev pub add_peer_with_node : Self → Bool → ℕ → Bytes → ℕ → ℕ → List Peer → List Peer
add_peer_with_node self room now addr port node_id peers =
    add_peer_internal self room now addr port node_id false peers

abbrev pub add_peer : Self → Bool → ℕ → Bytes → ℕ → List Peer → List Peer
add_peer self room now addr port peers = add_peer_internal self room now addr port 0 true peers

-- The first `capacity` peers.
unfoldable pub snapshot_peer_endpoints : ℕ → List Peer → List Endpoint
snapshot_peer_endpoints capacity [] = []
snapshot_peer_endpoints zero (peer ∷ rest) = []
snapshot_peer_endpoints (suc n) (peer ∷ rest) =
    record { addr = peer.addr; port = peer.port; node_id = peer.node_id }
    ∷ snapshot_peer_endpoints n rest
