-- ===== src/Cluster/NoSelf.antt =====
-- The table of peers of dmmr_cluster.c never lists the node itself.
use http_dmmr_nginx.Base.{
  ℕ, zero, suc, ◌≡◌, ◌<◌, ◌≤◌, Bool, true, false, ◌||◌, List, [], ◌∷◌, Option, none, some, arith,
  All, Bytes, length, ltb, ◌==◌, Bool-cases, inl, inr, get_or, take, drop, of_be,
}
use http_dmmr_nginx.Cluster.Peers.{
  Self, Peer, endpoint_is_self, is_known, refreshed, new_peer, upsert, add_peer_internal,
}
use http_dmmr_nginx.Cluster.PeerList.{Parsed, visit, read_endpoint, parse_loop, parse_peer_list}

module _ (self : Self) where
  -- A peer that can be connected to and is not the node itself.
  pub record IsPeer (p : Peer) : Type 0 where
    pub port_fits : (1 ≤ p.port) × (p.port ≤ 65535)
    pub addr_fits : (0 < length p.addr) × (length p.addr ≤ 255)
    pub other : endpoint_is_self self p.addr p.port p.node_id ≡ false

  module _ (now : ℕ) (addr : Bytes) (port node_id : ℕ) (is_seed : Bool)
      (port_ok : (1 ≤ port) × (port ≤ 65535)) (addr_ok : (0 < length addr) × (length addr ≤ 255))
      (other : endpoint_is_self self addr port node_id ≡ false) where
    refreshed-IsPeer : (p : Peer) → IsPeer p → IsPeer (refreshed now addr port node_id is_seed p)
    unfolding refreshed endpoint_is_self
    refreshed-IsPeer p v = record {
      port_fits = port_ok;
      addr_fits = addr_ok;
      other = ground (arith, other, v.other);
    }

    upsert-IsPeer :
        (room : Bool) (ps : List Peer)
        → All IsPeer ps
        → All IsPeer (upsert room now addr port node_id is_seed ps)
    unfolding upsert new_peer
    upsert-IsPeer true [] h =
        (record { port_fits = port_ok; addr_fits = addr_ok; other = other }, tt)
    upsert-IsPeer false [] h = tt
    upsert-IsPeer room (p ∷ rest) h = elim (Bool-cases (is_known addr port node_id p)) [
      | inl known ↦ rw known (refreshed-IsPeer p h.0, h.1)
      | inr new ↦ rw new (h.0, upsert-IsPeer room rest h.1)
    ]

  add_peer_internal-IsPeer :
      (room : Bool) (now : ℕ) (addr : Bytes) (port node_id : ℕ) (is_seed : Bool) (ps : List Peer)
      → All IsPeer ps
      → All IsPeer (add_peer_internal self room now addr port node_id is_seed ps)
  unfolding add_peer_internal
  add_peer_internal-IsPeer room now addr port node_id is_seed ps h =
      elim (Bool-cases (ltb port 1 || ltb 65535 port)) [
        | inl bad ↦ rw bad h
        | inr fits ↦
            elim (Bool-cases (
              (length addr == 0)
              || (ltb 255 (length addr) || endpoint_is_self self addr port node_id))) [
                | inl bad ↦ rw (fits, bad) h
                | inr fine ↦
                    rw (fits, fine)
                      (upsert-IsPeer now addr port node_id is_seed
                        (ground (arith, fits), ground (arith, fits))
                        (ground (arith, fine), ground (arith, fine)) (ground (arith, fine)) room ps
                        h)
              ]
      ]

  parse_loop-IsPeer :
      (alloc : ℕ → Bool) (now n : ℕ) (rest : Bytes) (st : Parsed)
      → All IsPeer st.peers
      → All IsPeer (parse_loop self alloc now n rest st).2.peers
  unfolding parse_loop visit
  parse_loop-IsPeer alloc now zero rest st h = h
  parse_loop-IsPeer alloc now (suc n) rest st h =
      let e = read_endpoint rest in
      let later =
        parse_loop-IsPeer alloc now n (drop (get_or rest 10 0) (drop 11 rest))
          (visit self alloc now e st)
          (add_peer_internal-IsPeer (alloc 1) now e.addr e.port e.node_id false st.peers h) in
      elim (Bool-cases (ltb (length rest) 11)) [
        | inl short ↦ rw short h
        | inr long ↦
            elim (Bool-cases
              ((get_or rest 10 0 == 0) || ltb (length (drop 11 rest)) (get_or rest 10 0))) [
                | inl bad ↦ rw (long, bad) h
                | inr fine ↦ rw (long, fine) later
              ]
      ]

  -- Whatever bytes come as a peer list: a table that has only other nodes, with an address and a
  -- port, still has only such after parse_peer_list.
  pub parse_peer_list-IsPeer :
      (alloc : ℕ → Bool) (now : ℕ) (payload : Option Bytes) (st : Parsed)
      → All IsPeer st.peers
      → All IsPeer (parse_peer_list self alloc now payload st).1.peers
  unfolding parse_peer_list
  parse_peer_list-IsPeer alloc now none st h = h
  parse_peer_list-IsPeer alloc now (some payload) st h =
      elim (Bool-cases (ltb (length payload) 2)) [
        | inl short ↦ rw short h
        | inr long ↦ rw long (
            parse_loop-IsPeer alloc now (of_be (take 2 payload)) (drop 2 payload)
              (record st { items = [] }) h)
      ]
