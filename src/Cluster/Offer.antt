-- ===== src/Cluster/Offer.antt =====
-- What broadcast_sync of dmmr_cluster.c does to each peer of the table.
use http_dmmr_nginx.Base.{
  ℕ, ◌≡◌, ◌≢◌, ◌+◌, ◌<◌, ◌≤◌, refl, Bool, true, false, not, ◌&&◌, List, [], ◌∷◌, ◌++◌, ◌⊎◌, arith,
  ltb, ◌==◌, Bool-cases, inl, inr,
}
use http_dmmr_nginx.Cluster.Outbox.{outbox_max_msg, OutboxMsg, PeerConn, enqueue, offer_all}

module _ (my_node_id : ℕ) (room : PeerConn → Bool) (msg : OutboxMsg) where
  -- Another node, with memory for the message and room for it in the outbox.
  abbrev pub Accepts : PeerConn → Type 0
  Accepts peer =
      ((peer.node_id ≡ 0) ⊎ (peer.node_id ≢ my_node_id))
      × (room peer ≡ true)
      × (peer.outbox_count < outbox_max_msg)

  abbrev pub Refuses : PeerConn → Type 0
  Refuses peer =
      ((peer.node_id ≢ 0) × (peer.node_id ≡ my_node_id))
      ⊎ ((room peer ≡ false) ⊎ (outbox_max_msg ≤ peer.outbox_count))

  -- A peer that accepts has the message as the last one of its outbox; one that refuses is as it was.
  abbrev pub IsOffered : PeerConn → PeerConn → Type 0
  IsOffered peer peer' =
      (Accepts peer
        × (peer' ≡ record peer {
          outbox = peer.outbox ++ msg ∷ [];
          outbox_count = peer.outbox_count + 1;
        }))
      ⊎ (Refuses peer × (peer' ≡ peer))

  abbrev pub AreOffered : List PeerConn → List PeerConn → Type 0
  AreOffered [] [] = Unit {0}
  AreOffered [] (peer' ∷ rest') = ⊥
  AreOffered (peer ∷ rest) [] = ⊥
  AreOffered (peer ∷ rest) (peer' ∷ rest') = IsOffered peer peer' × AreOffered rest rest'

  enqueue-IsOffered :
      (peer : PeerConn)
      → (peer.node_id ≡ 0) ⊎ (peer.node_id ≢ my_node_id)
      → room peer ≡ true
      → IsOffered peer (enqueue msg peer)
  unfolding enqueue
  enqueue-IsOffered peer other served = elim (Bool-cases (ltb peer.outbox_count outbox_max_msg)) [
    | inl free ↦ rw free (inl ((other, served, ground (arith, free)), refl))
    | inr full ↦ rw full (inr (inr (inr (ground (arith, full))), refl))
  ]

  pub offer_all-AreOffered :
      (peers : List PeerConn) → AreOffered peers (offer_all my_node_id room msg peers)
  unfolding offer_all
  offer_all-AreOffered [] = tt
  offer_all-AreOffered (peer ∷ rest) =
      let later = offer_all-AreOffered rest in
      elim (Bool-cases (not (peer.node_id == 0) && (peer.node_id == my_node_id))) [
        | inl own ↦ rw own ((inr (inl (ground (arith, own)), refl), later))
        | inr other ↦ elim (Bool-cases (room peer)) [
          | inr short ↦ rw (other, short) ((inr (inr (inl short), refl), later))
          | inl served ↦
              rw (other, served) ((enqueue-IsOffered peer (apart peer other) served, later))
        ]
      ]
    where
      apart :
          (peer : PeerConn)
          → (not (peer.node_id == 0) && (peer.node_id == my_node_id)) ≡ false
          → (peer.node_id ≡ 0) ⊎ (peer.node_id ≢ my_node_id)
      apart peer h = elim (Bool-cases (peer.node_id == 0)) [
        | inl zero_id ↦ inl (ground (arith, zero_id))
        | inr some_id ↦ inr (λ e. ground (arith, h, some_id, e))
      ]
