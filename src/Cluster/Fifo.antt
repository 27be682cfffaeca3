-- ===== src/Cluster/Fifo.antt =====
-- The outbox of one peer in dmmr_cluster.c, through broadcasts and turns of its sender in any order.
use http_dmmr_nginx.Base.{
  ◌≡◌, ◌+◌, refl, sym, ap, ◌∙◌, Bool, true, false, List, [], ◌∷◌, ◌++◌, ltb, if◌then◌else◌,
  append_assoc, append-nil,
}
use http_dmmr_nginx.Cluster.Orderly.{IsConn, taken, enqueue-IsConn}
use http_dmmr_nginx.Cluster.Outbox.{
  outbox_max_msg, OutboxMsg, PeerConn, enqueue, SenderTurn, sender_turn,
}
use http_dmmr_nginx.Cluster.Turns.{sender_turn-Keeps}

-- What happens to a peer: a broadcast's message is offered to it, or its sender takes a turn.
pub data Event : Type 0 where
  offered : OutboxMsg → Event
  turned : SenderTurn → Event

-- The fates of messages, in order, and the peer at the end.
unfoldable pub run : List Event → PeerConn → List OutboxMsg × PeerConn
run [] peer = ([], peer)
run (offered msg ∷ es) peer = run es (enqueue msg peer)
run (turned t ∷ es) peer =
    let r = sender_turn t peer in let later = run es r.1 in (taken r.0 ++ later.0, later.1)

-- The messages that find room.
unfoldable pub accepted : List Event → PeerConn → List OutboxMsg
accepted [] peer = []
accepted (offered msg ∷ es) peer =
    let later = accepted es (enqueue msg peer) in
    if ltb peer.outbox_count outbox_max_msg then msg ∷ later else later
accepted (turned t ∷ es) peer = accepted es (sender_turn t peer).1

-- Through any broadcasts and turns of the sender, from a peer in good order, the peer stays in good
-- order, and the messages leave the outbox in the order in which they were accepted, each once: those
-- that were there and those accepted are those that have left, sent or outdated, followed by those
-- still there.
pub run-IsConn :
    (es : List Event) (peer : PeerConn)
    → IsConn peer
    → IsConn (run es peer).1
      × (peer.outbox ++ accepted es peer ≡ (run es peer).0 ++ (run es peer).1.outbox)
unfolding run accepted enqueue
run-IsConn [] peer v = (v, append-nil peer.outbox)
run-IsConn (turned t ∷ es) peer v =
    let kept = sender_turn-Keeps t peer v in
    let r = sender_turn t peer in
    let later = run-IsConn es r.1 kept.0 in
    (
      later.0,
      ap (λ xs. xs ++ accepted es r.1) kept.1
          ∙ (append_assoc (taken r.0) r.1.outbox (accepted es r.1)
              ∙ (ap (λ xs. taken r.0 ++ xs) later.1
                  ∙ sym (append_assoc (taken r.0) (run es r.1).0 (run es r.1).1.outbox))),
    )
run-IsConn (offered msg ∷ es) peer v =
    let later = run-IsConn es (enqueue msg peer) (enqueue-IsConn msg peer v) in
    (later.0, placed (ltb peer.outbox_count outbox_max_msg) ∙ later.1)
  where
    placed :
        (room : Bool)
        → (let next =
              if room
              then record peer {
                outbox = peer.outbox ++ msg ∷ [];
                outbox_count = peer.outbox_count + 1;
              }
              else peer in
            peer.outbox ++ (if room then msg ∷ accepted es next else accepted es next)
            ≡ next.outbox ++ accepted es next)
    placed true = sym (append_assoc peer.outbox (msg ∷ []) (accepted es _))
    placed false = refl
