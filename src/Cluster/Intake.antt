-- ===== src/Cluster/Intake.antt =====
-- handle_cluster_hello of dmmr_cluster.c on the HELLO of another node: what becomes of the table of peers.
use http_dmmr_nginx.Base.{
  ℕ, ◌≡◌, ◌≢◌, ◌≤◌, ◌⊎◌, refl, ap, Bool, true, false, List, [], ◌∷◌, ◌++◌, none, some, arith, All,
  Bytes, bytes_eq, bytes_eq_iff, length, ltb, ◌==◌, Bool-cases, inl, inr, empty_of_length,
}
use http_dmmr_nginx.Cluster.Greeting.{IsSelf, IsName, hello_message, handle_cluster_hello-welcomed}
use http_dmmr_nginx.Cluster.Hello.{hello_value, handle_cluster_hello}
use http_dmmr_nginx.Cluster.PeerList.{send_peer_list}
use http_dmmr_nginx.Cluster.Peers.{
  Self, Peer, endpoint_is_self, is_known, refreshed, new_peer, upsert, add_peer_internal,
}
use http_dmmr_nginx.Cluster.Transport.{header_for}

module _ (addr : Bytes) (port node_id : ℕ) where
  -- The table has a peer with the address, port and id, in the place of the first one that was known
  -- under the id or the address and port, or at the end if there was none; all others are as they were.
  abbrev pub TakesIn : List Peer → List Peer → Type 0
  TakesIn peers table =
      (before : List Peer) × (p : Peer) × (after : List Peer) × (table ≡ before ++ p ∷ after)
      × ((p.addr ≡ addr) × (p.port ≡ port) × (p.node_id ≡ node_id))
      × All (λ q. is_known addr port node_id q ≡ false) before
      × (((peers ≡ before) × (after ≡ []))
          ⊎ ((old : Peer) × (peers ≡ before ++ old ∷ after)
              × (is_known addr port node_id old ≡ true)))

  behind :
      (peer : Peer) (rest table : List Peer)
      → is_known addr port node_id peer ≡ false
      → TakesIn rest table
      → TakesIn (peer ∷ rest) (peer ∷ table)
  behind peer rest table unknown (before, p, after, e, named, fresh, inl (was, last)) = (
    peer ∷ before,
    p,
    after,
    ap (◌∷◌ peer) e,
    named,
    (unknown, fresh),
    inl (ap (◌∷◌ peer) was, last),
  )
  behind peer rest table unknown (before, p, after, e, named, fresh, inr (old, was, known)) = (
    peer ∷ before,
    p,
    after,
    ap (◌∷◌ peer) e,
    named,
    (unknown, fresh),
    inr (old, ap (◌∷◌ peer) was, known),
  )

  upsert-TakesIn :
      (now : ℕ) (peers : List Peer)
      → node_id ≢ 0
      → TakesIn peers (upsert true now addr port node_id false peers)
  unfolding upsert new_peer refreshed
  upsert-TakesIn now [] h = ([], _, [], refl, (refl, refl, refl), tt, inl (refl, refl))
  upsert-TakesIn now (peer ∷ rest) h = elim (Bool-cases (is_known addr port node_id peer)) [
    | inl known ↦ rw known (
      [],
      refreshed now addr port node_id false peer,
      rest,
      refl,
      (refl, refl, ground (arith, h)),
      tt,
      inr (peer, refl, known),
    )
    | inr unknown ↦ rw unknown (behind peer rest _ unknown (upsert-TakesIn now rest h))
  ]

-- What handle_cluster_hello does on the HELLO of a node `a` with an id, an address of 1 to 255 bytes, a
-- port that is not 0 and a cluster name within its bound, when it runs on another node that has memory
-- for a peer. If that node has no cluster name or the same one, `a` is in its table afterwards with the
-- address, port and id that it announced, in the place of the first peer that was known under the id or
-- under the address and port, or else at the end, and every other peer is as it was; the answer is
-- the peer list of that table. Otherwise the table is as it was, and there is no answer.
pub handle_cluster_hello-TakesIn :
    (a : Self) (name : Bytes) (b : Self) (name' : Bytes) (alloc : ℕ → Bool) (now : ℕ)
    (peers : List Peer)
    → IsSelf a
    → IsName name
    → 1 ≤ a.advertise_port
    → endpoint_is_self b a.advertise_address a.advertise_port a.my_node_id ≡ false
    → alloc 1 ≡ true
    → let r =
        handle_cluster_hello b name' alloc now
          (header_for name (hello_message a name))
          (some (a.advertise_address ++ hello_value a name))
          peers in
      (((name' ≡ []) ⊎ (name' ≡ name))
        × TakesIn a.advertise_address a.advertise_port a.my_node_id peers r.0
        × (r.1 ≡ send_peer_list alloc r.0))
      ⊎ ((name' ≢ []) × (name' ≢ name) × (r ≡ (peers, none)))
unfolding add_peer_internal
handle_cluster_hello-TakesIn a name b name' alloc now peers v n port other room =
    let low : ltb a.advertise_port 1 ≡ false = ground (arith, port) in
    let high : ltb 65535 a.advertise_port ≡ false = ground (arith, v.port_fits) in
    let some_address : (length a.advertise_address == 0) ≡ false = ground (arith, v.address_fits) in
    let short : ltb 255 (length a.advertise_address) ≡ false = ground (arith, v.address_fits) in
    let taken =
      upsert-TakesIn a.advertise_address a.advertise_port a.my_node_id now peers v.node_id_set in
    rw (handle_cluster_hello-welcomed a name v n b name' alloc now peers) (
      rw (low, high, some_address, short, other, room)
        (elim (Bool-cases (length name' == 0)) [
          | inl unnamed ↦
              rw unnamed (inl (inl (empty_of_length name' (ground (arith, unnamed))), taken, refl))
          | inr named ↦ elim (Bool-cases (bytes_eq name' name)) [
            | inl same ↦
                rw (named, same) (inl (inr ((bytes_eq_iff name' name).0 same), taken, refl))
            | inr apart ↦
                rw (named, apart)
                  (inr (
                    (λ e. ground (arith, named, ap length e)),
                    (λ e. cc ((bytes_eq_iff name' name).1 e)),
                    refl,
                  ))
          ]
        ]))
