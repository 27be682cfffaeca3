-- ===== src/Cluster/Greeting.antt =====
-- A HELLO of one node, taken in by another (dmmr_cluster.c).
use http_dmmr_nginx.Base.{
  ℕ, ◌≡◌, ◌≢◌, ◌+◌, ◌%◌, ◌^◌, ◌<◌, ◌≤◌, refl, ap, ◌∙◌, Bool, true, false, not, ◌&&◌, ◌||◌, List, [],
  ◌∷◌, ◌++◌, Option, none, some, arith, All, Bytes, bytes_eq, length, length-be, ltb, ◌==◌,
  if◌then◌else◌, take, be, of_be, of_be-be, take_prefix, drop_prefix, take-length,
}
use http_dmmr_nginx.Config.{cluster_name_max}
use http_dmmr_nginx.Config.Op
use http_dmmr_nginx.Cluster.Exchange.{c_string_lem}
use http_dmmr_nginx.Cluster.Hello.{
  hello_value, peer_name_of, admitted, answer_peer, handle_cluster_hello,
}
use http_dmmr_nginx.Cluster.PeerList.{send_peer_list}
use http_dmmr_nginx.Cluster.Peers.{Self, Peer, add_peer_with_node}
use http_dmmr_nginx.Cluster.Transport.{Message, header_for}
use http_dmmr_nginx.Server.Request.{flag_none}

-- A node with an id, an address of 1 to 255 bytes and a 16-bit port.
pub record IsSelf (a : Self) : Type 0 where
  pub node_id_set : a.my_node_id ≢ 0
  pub address_fits : (0 < length a.advertise_address) × (length a.advertise_address ≤ 255)
  pub address_string : All (λ x. x ≢ 0) a.advertise_address
  pub port_fits : a.advertise_port < 2 ^ 16

-- A name that cluster_configure accepts.
abbrev pub IsName : Bytes → Type 0
IsName name = (length name ≤ cluster_name_max) × All (λ x. x ≢ 0) name

abbrev pub hello_message : Self → Bytes → Message
hello_message a name = record {
  opcode = Op.cluster_hello;
  flags = flag_none;
  key = a.advertise_address;
  value = hello_value a name;
  timestamp = 0;
  node_id = a.my_node_id;
  expire_at = 0;
}

-- What a HELLO from a node is to do: a node of another cluster is turned away.
abbrev pub welcomed :
    Self → Self → Bytes → Bytes → (ℕ → Bool) → ℕ → List Peer → List Peer × Option Bytes
welcomed a b name name' alloc now peers =
    let table =
      add_peer_with_node b (alloc 1) now a.advertise_address a.advertise_port a.my_node_id peers in
    if (length name' == 0) || bytes_eq name' name
    then (table, send_peer_list alloc table)
    else (peers, none)

module _ (a : Self) (name : Bytes) (v : IsSelf a) (n : IsName name) where
  value_length : length (hello_value a name) ≡ 3 + length name
  unfolding hello_value be
  value_length = omega arith

  peer_name_of-hello_value :
      peer_name_of (hello_value a name) (length (hello_value a name)) ≡ some name
  unfolding peer_name_of hello_value be
  peer_name_of-hello_value =
      let len : length name % 256 ≡ length name = omega (arith, n.0) in
      rw (len, take-length name, c_string_lem name n.1) (ground (arith, n.0))

  port_read : of_be (take 2 (hello_value a name)) ≡ a.advertise_port
  unfolding hello_value
  port_read =
      ap of_be (
        take_prefix 2 (be 2 a.advertise_port) ((length name % 256 ∷ []) ++ name)
          (length-be 2 a.advertise_port))
      ∙ of_be-be 2 a.advertise_port (ground (arith, v.port_fits))

  -- A node that receives the HELLO of another takes the sender into its table of peers, under the
  -- address, port and id that it announced, and answers with the peers it knows then, if it has no
  -- cluster name or the same one; otherwise it changes nothing and does not answer.
  pub handle_cluster_hello-welcomed :
      (b : Self) (name' : Bytes) (alloc : ℕ → Bool) (now : ℕ) (peers : List Peer)
      → handle_cluster_hello b name' alloc now
          (header_for name (hello_message a name))
          (some (a.advertise_address ++ hello_value a name))
          peers
        ≡ welcomed a b name name' alloc now peers
  unfolding handle_cluster_hello admitted answer_peer
  handle_cluster_hello-welcomed b name' alloc now peers =
      let addr = a.advertise_address in
      let value = hello_value a name in
      let id : (a.my_node_id == 0) ≡ false = ground (arith, v.node_id_set) in
      let some_key : (length addr == 0) ≡ false = ground (arith, v.address_fits) in
      let short_key : ltb 255 (length addr) ≡ false = ground (arith, v.address_fits) in
      let long_value : ltb (length value) 2 ≡ false = ground (arith, value_length) in
      rw
        (
          id,
          some_key,
          short_key,
          long_value,
          drop_prefix (length addr) addr value refl,
          peer_name_of-hello_value,
          take_prefix (length addr) addr value refl,
          drop_prefix (length addr) addr value refl,
          port_read,
          c_string_lem addr v.address_string,
        )
        (same (length name' == 0) (bytes_eq name' name))
    where
      same :
          (unnamed equal : Bool)
          → (let table =
                add_peer_with_node b
                  (alloc 1)
                  now
                  a.advertise_address
                  a.advertise_port
                  a.my_node_id
                  peers in
              answer_peer alloc peers (if not unnamed && not equal then none else some table)
              ≡ (if unnamed || equal then (table, send_peer_list alloc table) else (peers, none)))
      same true equal = refl
      same false true = refl
      same false false = refl
