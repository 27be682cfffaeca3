-- ===== src/Cluster/Hello.antt =====
-- HELLO in dmmr_cluster.c: the value that send_hello sends, and handle_cluster_hello.
use http_dmmr_nginx.Base.{
  ℕ, ◌+◌, ◌%◌, Bool, false, not, ◌&&◌, ◌||◌, List, [], ◌∷◌, ◌++◌, Option, none, some, if◌then◌else◌,
  Bytes, bytes_eq, length, take, drop, get_or, be, of_be, ltb, ◌==◌,
}
use http_dmmr_nginx.Config.{cluster_name_max}
use http_dmmr_nginx.Config.Op
use http_dmmr_nginx.Db.Ops.{bytes_at, is_null}
use http_dmmr_nginx.Cluster.PeerList.{Parsed, c_string, send_peer_list, parse_peer_list}
use http_dmmr_nginx.Cluster.Peers.{Self, Peer, add_peer_with_node}
use http_dmmr_nginx.Cluster.Wire.{ClusterFrame, cluster_send_frame, Received, cluster_recv_frame}
use http_dmmr_nginx.Server.Net.{Recv, Send}
use http_dmmr_nginx.Server.Request.{flag_none}

-- The port, the length of the name and the name.
unfoldable pub hello_value : Self → Bytes → Bytes
hello_value self cluster_name =
    be 2 self.advertise_port ++ ((length cluster_name % 256 ∷ []) ++ cluster_name)

-- The frame of send_hello: whether it is sent, what is sent, and the events left.
unfoldable pub write_hello : Self → Bytes → List Send → Bool × Bytes × List Send
write_hello self cluster_name sends =
    cluster_send_frame cluster_name Op.cluster_hello flag_none (some self.advertise_address)
      (length self.advertise_address) (some (hello_value self cluster_name))
      (2 + 1 + length cluster_name) 0 self.my_node_id 0 sends

-- The answer to a HELLO: whether send_hello returns 0, and the table and list it leaves. The list's
-- payload is as long as the frame says.
unfoldable pub take_answer : Self → (ℕ → Bool) → ℕ → Received → Parsed → Bool × Parsed
take_answer self alloc now (none, s) st = (false, st)
take_answer self alloc now (some (f, payload), s) st =
    if not (f.opcode == Op.cluster_peer_list)
    then (false, st)
    else parse_peer_list self alloc now (cut payload) st
  where
    cut : Option Bytes → Option Bytes
    cut none = none
    cut (some bs) = some (take f.value_len bs)

-- send_hello, once connected: what it sends, and what it makes of the answer.
unfoldable pub send_hello :
    Self → Bytes → (ℕ → Bool) → ℕ → List Send → List Recv → Parsed → Bytes × Bool × Parsed
send_hello self cluster_name alloc now sends s st =
    let said = write_hello self cluster_name sends in
    let answer = take_answer self alloc now (cluster_recv_frame alloc s) st in
    if said.0 then (said.1, answer.0, answer.1) else (said.1, false, st)

-- The name in the value of a HELLO, or `none` for a malformed one. The value is a port, and then
-- either nothing or a length byte and a name.
unfoldable pub peer_name_of : Bytes → ℕ → Option Bytes
peer_name_of value value_len =
    let name_len = get_or value 2 0 in
    if not (ltb 2 value_len)
    then some []
    else if ltb cluster_name_max name_len || ltb value_len (2 + 1 + name_len)
    then none
    else some (c_string (take name_len (drop 3 value)))

-- The test of the name, and the peer's entry in the table. `none` is the return of -1 before it.
unfoldable pub admitted :
    Self → Bytes → Bool → ℕ → ClusterFrame → Bytes → Option Bytes → List Peer → Option (List Peer)
admitted self cluster_name room now f payload none peers = none
admitted self cluster_name room now f payload (some peer_name) peers =
    let address = c_string (take f.key_len payload) in
    let port = of_be (take 2 (drop f.key_len payload)) in
    if not (length cluster_name == 0) && not (bytes_eq cluster_name peer_name)
    then none
    else some (add_peer_with_node self room now address port f.node_id peers)

-- The answer to a peer that is admitted, and the table before for one that is not.
unfoldable pub answer_peer : (ℕ → Bool) → List Peer → Option (List Peer) → List Peer × Option Bytes
answer_peer alloc peers none = (peers, none)
answer_peer alloc peers (some table) = (table, send_peer_list alloc table)

-- The table behind it, and the payload of the peer list that is to be sent.
unfoldable pub handle_cluster_hello :
    Self
    → Bytes
    → (ℕ → Bool)
    → ℕ
    → ClusterFrame
    → Option Bytes
    → List Peer
    → List Peer × Option Bytes
handle_cluster_hello self cluster_name alloc now f payload peers =
    let value = drop f.key_len (bytes_at payload) in
    if ((f.node_id == 0) || (f.key_len == 0))
      || (ltb 255 f.key_len || (ltb f.value_len 2 || is_null payload))
    then (peers, none)
    else answer_peer alloc peers (
        admitted self cluster_name (alloc 1) now f (bytes_at payload)
          (peer_name_of value f.value_len) peers)
