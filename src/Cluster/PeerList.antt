-- ===== src/Cluster/PeerList.antt =====
-- send_peer_list and parse_peer_list of dmmr_cluster.c. The payload is the bytes between the two; the
-- frame around it is left aside.
use http_dmmr_nginx.Base.{
  ℕ, zero, suc, ◌+◌, ◌%◌, ◌^◌, Bool, true, false, not, ◌&&◌, ◌||◌, List, [], ◌∷◌, ◌++◌, Option,
  none, some, if◌then◌else◌, Bytes, length, take, drop, get_or, be, of_be, ltb, ◌==◌,
}
use http_dmmr_nginx.Config.{max_value_len}
use http_dmmr_nginx.Cluster.Peers.{
  Self, Endpoint, Peer, endpoint_is_self, add_peer_with_node, snapshot_peer_endpoints,
}

unfoldable pub write_endpoint : Endpoint → Bytes
write_endpoint e =
    let addr_len = length e.addr % 256 in
    be 8 (e.node_id % 2 ^ 64)
    ++ (be 2 (e.port % 2 ^ 16) ++ ((addr_len ∷ []) ++ take addr_len e.addr))

-- The loop over the peers.
unfoldable pub write_endpoints : List Endpoint → Bytes
write_endpoints [] = []
write_endpoints (e ∷ rest) = write_endpoint e ++ write_endpoints rest

unfoldable pub total_len : List Endpoint → ℕ
total_len [] = 2
total_len (e ∷ rest) = (8 + 2 + 1 + length e.addr) + total_len rest

-- The payload of send_peer_list, when it is not too long and malloc gives room for it.
unfoldable pub send_peer_list : (ℕ → Bool) → List Peer → Option Bytes
send_peer_list alloc table =
    let peers = snapshot_peer_endpoints 128 table in
    if ltb max_value_len (total_len peers)
    then none
    else if not (alloc (total_len peers))
    then none
    else some (be 2 (length peers % 2 ^ 16) ++ write_endpoints peers)

-- A C string in a buffer: its bytes up to the first NUL.
unfoldable pub c_string : Bytes → Bytes
c_string [] = []
c_string (x ∷ xs) = let rest = c_string xs in if x == 0 then [] else x ∷ rest

-- The table of peers and the list that is filled.
pub record Parsed : Type 0 where
  pub peers : List Peer
  pub items : List Endpoint

-- What the loop of parse_peer_list does with an endpoint.
unfoldable pub visit : Self → (ℕ → Bool) → ℕ → Endpoint → Parsed → Parsed
visit self alloc now e st = record {
  peers = add_peer_with_node self (alloc 1) now e.addr e.port e.node_id st.peers;
  items =
      if not (endpoint_is_self self e.addr e.port e.node_id) && ltb (length st.items) 128
      then st.items ++ (e ∷ [])
      else st.items;
}

-- The endpoint at the start of what is left of the payload.
unfoldable pub read_endpoint : Bytes → Endpoint
read_endpoint rest = record {
  addr = c_string (take (get_or rest 10 0) (drop 11 rest));
  port = of_be (take 2 (drop 8 rest));
  node_id = of_be (take 8 rest);
}

-- The loop of parse_peer_list on what is left of the payload.
unfoldable pub parse_loop : Self → (ℕ → Bool) → ℕ → ℕ → Bytes → Parsed → Bool × Bytes × Parsed
parse_loop self alloc now zero rest st = (true, rest, st)
parse_loop self alloc now (suc n) rest st =
    let addr_len = get_or rest 10 0 in
    let later =
      parse_loop self alloc now n (drop addr_len (drop 11 rest))
        (visit self alloc now (read_endpoint rest) st) in
    if ltb (length rest) 11
    then (false, rest, st)
    else if (addr_len == 0) || ltb (length (drop 11 rest)) addr_len
    then (false, rest, st)
    else later

-- Whether it returns 0, and what it leaves.
unfoldable pub parse_peer_list : Self → (ℕ → Bool) → ℕ → Option Bytes → Parsed → Bool × Parsed
parse_peer_list self alloc now none st = (false, st)
parse_peer_list self alloc now (some payload) st =
    let (fine, rest, st') =
      parse_loop self alloc now (of_be (take 2 payload)) (drop 2 payload)
        (record st { items = [] }) in
    if ltb (length payload) 2 then (false, st) else (fine && (length rest == 0), st')
