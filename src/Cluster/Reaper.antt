-- ===== src/Cluster/Reaper.antt =====
-- peer_reaper_thread of dmmr_cluster.c: a round over the peers, under peers_mutex. What comes back for a
-- HELLO is a parameter, `none` when it cannot be sent. A difference of times below zero counts as 0.
use http_dmmr_nginx.Base.{
  ℕ, ◌≡◌, ◌-◌, ◌<◌, refl, sym, ap, ◌∙◌, ◌⊎◌, Bool, true, false, not, ◌&&◌, ◌||◌, List, [], ◌∷◌,
  ◌++◌, Option, none, some, arith, All, empty_of_length, length, ltb, ◌==◌, Bool-cases, inl, inr,
  if◌then◌else◌,
}
use http_dmmr_nginx.Cluster.Hello.{take_answer}
use http_dmmr_nginx.Cluster.Orderly.{IsConn}
use http_dmmr_nginx.Cluster.Outbox.{
  OutboxMsg, PeerConn, peer_evict_timeout, peer_healthcheck_interval,
}
use http_dmmr_nginx.Cluster.Peers.{Self}
use http_dmmr_nginx.Cluster.Wire.{Received}

-- Whether parse_peer_list, on the answer to a HELLO, comes to the lock of add_peer_internal: on an
-- empty table with memory, exactly then a peer is added.
unfoldable pub locks_again : Self → ℕ → Option Received → Bool
locks_again self now none = false
locks_again self now (some answer) =
    let heard = (take_answer self (λ n. true) now answer (record { peers = []; items = [] })).1 in
    not (length heard.peers == 0)

unfoldable pub kept : PeerConn → Option (List PeerConn) → Option (List PeerConn)
kept peer none = none
kept peer (some rest) = some (peer ∷ rest)

-- One round over the table; `none` when the thread blocks on peers_mutex, which it holds already.
unfoldable pub reap :
    Self → ℕ → (PeerConn → Option Received) → List PeerConn → Option (List PeerConn)
reap self now hello [] = some []
reap self now hello (peer ∷ rest) =
    let later = reap self now hello rest in
    if peer.is_seed || (peer.node_id == self.my_node_id)
    then kept peer later
    else if (peer.outbox_count == 0) && ltb peer_evict_timeout (now - peer.last_activity)
    then later
    else if (peer.outbox_count == 0)
        && (ltb peer_healthcheck_interval (now - peer.last_healthcheck) && ltb 0 peer.stale_count)
    then (if locks_again self now (hello peer)
        then none
        else kept (record peer { last_healthcheck = now }) later)
    else kept peer later

-- The messages that wait for any peer.
abbrev pub pending : List PeerConn → List OutboxMsg
pending [] = []
pending (peer ∷ rest) = peer.outbox ++ pending rest

module _ (self : Self) (now : ℕ) (hello : PeerConn → Option Received) where
  -- A peer with nothing to send and a failed send behind it, whose answer to a HELLO names a peer to add.
  abbrev pub Blocks : PeerConn → Type 0
  Blocks peer =
      (peer.outbox_count ≡ 0) × (0 < peer.stale_count) × (locks_again self now (hello peer) ≡ true)

  abbrev pub AnyBlocks : List PeerConn → Type 0
  AnyBlocks [] = ⊥
  AnyBlocks (peer ∷ rest) = Blocks peer ⊎ AnyBlocks rest

  -- The peers that a round leaves are in good order, and have the messages that waited before.
  abbrev pub Leaves : List PeerConn → List PeerConn → Type 0
  Leaves peers ps = All IsConn ps × (pending ps ≡ pending peers)

  abbrev pub Reaps : List PeerConn → Option (List PeerConn) → Type 0
  Reaps peers o =
      ((ps : List PeerConn) × (o ≡ some ps) × Leaves peers ps) ⊎ ((o ≡ none) × AnyBlocks peers)

  kept-Reaps :
      (peer peer' : PeerConn) (rest : List PeerConn) (o : Option (List PeerConn))
      → IsConn peer'
      → peer'.outbox ≡ peer.outbox
      → Reaps rest o
      → Reaps (peer ∷ rest) (kept peer' o)
  unfolding kept
  kept-Reaps peer peer' rest o v same (inl (ps, e, (ok, msgs))) =
      rw e (inl (peer' ∷ ps, refl, ((v, ok), rw (same, msgs) refl)))
  kept-Reaps peer peer' rest o v same (inr (e, blocked)) = rw e (inr (refl, inr blocked))

  evicted-Reaps :
      (peer : PeerConn) (rest : List PeerConn) (o : Option (List PeerConn))
      → peer.outbox ≡ []
      → Reaps rest o
      → Reaps (peer ∷ rest) o
  evicted-Reaps peer rest o h (inl (ps, e, (ok, msgs))) =
      inl (ps, e, (ok, msgs ∙ ap (λ xs. xs ++ pending rest) (sym h)))
  evicted-Reaps peer rest o h (inr (e, blocked)) = inr (e, inr blocked)

  checked-Reaps :
      (peer : PeerConn) (rest : List PeerConn) (o : Option (List PeerConn))
      → IsConn peer
      → (peer.outbox_count ≡ 0) × (0 < peer.stale_count)
      → Reaps rest o
      → Reaps (peer ∷ rest) (
          if locks_again self now (hello peer)
          then none
          else kept (record peer { last_healthcheck = now }) o)
  checked-Reaps peer rest o v idle later = go (locks_again self now (hello peer)) refl
    where
      seen : PeerConn
      seen = record peer { last_healthcheck = now }

      seen-IsConn : IsConn seen
      seen-IsConn = record {
        counted = v.counted;
        bounded = v.bounded;
        backoff = v.backoff;
        session = v.session;
      }

      go :
          (locks : Bool)
          → locks_again self now (hello peer) ≡ locks
          → Reaps (peer ∷ rest) (if locks then none else kept seen o)
      go true locks = inr (refl, inl (idle.0, idle.1, locks))
      go false free = kept-Reaps peer seen rest o seen-IsConn refl later

  -- A round of the reaper over peers in good order either leaves peers in good order and every
  -- message that waits for a peer where it is, or blocks for good on peers_mutex, and then there is a
  -- peer with nothing to send and a failed send behind it whose answer to a HELLO names a peer to add.
  pub reap-Reaps :
      (peers : List PeerConn) → All IsConn peers → Reaps peers (reap self now hello peers)
  unfolding reap
  reap-Reaps [] v = inl ([], refl, (tt, refl))
  reap-Reaps (peer ∷ rest) v =
      let later = reap-Reaps rest v.1 in
      elim (Bool-cases (peer.is_seed || (peer.node_id == self.my_node_id))) [
        | inl exempt ↦ rw exempt (kept-Reaps peer peer rest _ v.0 refl later)
        | inr other ↦
            elim (Bool-cases
              ((peer.outbox_count == 0) && ltb peer_evict_timeout (now - peer.last_activity))) [
                | inl idle ↦
                    rw (other, idle)
                      (evicted-Reaps peer rest _
                        (empty_of_length peer.outbox (ground (arith, idle, v.0.counted))) later)
                | inr busy ↦
                    elim (Bool-cases (
                      (peer.outbox_count == 0)
                      && (ltb peer_healthcheck_interval (now - peer.last_healthcheck)
                          && ltb 0 peer.stale_count))) [
                            | inl check ↦
                                rw (other, busy, check)
                                  (checked-Reaps peer rest _ v.0 (ground (arith, check)) later)
                            | inr calm ↦
                                rw (other, busy, calm) (kept-Reaps peer peer rest _ v.0 refl later)
                          ]
              ]
      ]
