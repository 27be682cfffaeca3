-- ===== src/Cluster/Orderly.antt =====
-- The order that an outbox of dmmr_cluster.c keeps, and the parts of a turn that change its messages.
use http_dmmr_nginx.Base.{
  ℕ, ◌≡◌, ◌+◌, ◌-◌, ◌≤◌, refl, sym, ap, ◌⊎◌, true, false, List, [], ◌∷◌, ◌++◌, Option, none, some,
  arith, length, length-append, ltb, Bool-cases, inl, inr,
}
use http_dmmr_nginx.Cluster.Outbox.{
  outbox_max_msg, outbox_msg_ttl, peer_retry_base, peer_retry_max, OutboxMsg, PeerConn, enqueue,
  SenderTurn, Fate, delivered, outdated, doubled, send_first,
}

-- The count is the length of the outbox and within its bound, the wait before a retry is within its
-- limits, and a session of an active
-- peer has an open descriptor.
pub record IsConn (peer : PeerConn) : Type 0 where
  pub counted : peer.outbox_count ≡ length peer.outbox
  pub bounded : peer.outbox_count ≤ outbox_max_msg
  pub backoff : (peer_retry_base ≤ peer.retry_backoff) × (peer.retry_backoff ≤ peer_retry_max)
  pub session : (peer.fd ≡ true) ⊎ ((peer.authenticated ≡ false) ⊎ (peer.active ≡ false))

abbrev pub message_of : Fate → OutboxMsg
message_of (delivered msg) = msg
message_of (outdated msg) = msg

abbrev pub taken : Option Fate → List OutboxMsg
taken none = []
taken (some fate) = message_of fate ∷ []

-- A state in good order, with the messages of an outbox behind those that have left.
abbrev pub Keeps : List OutboxMsg → Option Fate × PeerConn → Type 0
Keeps ms r = IsConn r.1 × (ms ≡ taken r.0 ++ r.1.outbox)

pub enqueue-IsConn : (msg : OutboxMsg) (peer : PeerConn) → IsConn peer → IsConn (enqueue msg peer)
unfolding enqueue
enqueue-IsConn msg peer v = elim (Bool-cases (ltb peer.outbox_count outbox_max_msg)) [
  | inr full ↦ rw full v
  | inl free ↦ rw free (record {
    counted = omega (arith, v.counted, length-append peer.outbox (msg ∷ []));
    bounded = ground arith;
    backoff = v.backoff;
    session = v.session;
  })
]

pub doubled_bounds : (n : ℕ) → 1 ≤ n → (peer_retry_base ≤ doubled n) × (doubled n ≤ peer_retry_max)
unfolding doubled
doubled_bounds n h = ground arith

pub send_first-Keeps :
    (t : SenderTurn) (peer : PeerConn) (ms : List OutboxMsg)
    → peer.outbox ≡ ms
    → IsConn peer
    → Keeps ms (send_first t peer ms)
unfolding send_first
send_first-Keeps t peer [] e v = (v, sym e)
send_first-Keeps t peer (msg ∷ rest) e v =
    elim (Bool-cases (ltb outbox_msg_ttl (t.now - msg.enqueued_at))) [
      | inl old ↦ rw old (gone peer.last_activity, refl)
      | inr young ↦ elim (Bool-cases t.sent) [
        | inl sent ↦ rw (young, sent) (gone t.now, refl)
        | inr unsent ↦ rw (young, unsent) (failed, sym e)
      ]
    ]
  where
    gone :
        (now : ℕ)
        → IsConn (record peer {
          outbox = rest;
          outbox_count = peer.outbox_count - 1;
          last_activity = now;
        })
    gone now = record {
      counted = omega (arith, v.counted, ap length e);
      bounded = omega (arith, v.bounded);
      backoff = v.backoff;
      session = v.session;
    }

    failed : IsConn (record peer {
      fd = false;
      authenticated = false;
      auth_expire_at = 0;
      next_retry = t.now + peer.retry_backoff;
      retry_backoff = doubled peer.retry_backoff;
      stale_count = peer.stale_count + 1;
    })
    failed = record {
      counted = v.counted;
      bounded = v.bounded;
      backoff = doubled_bounds peer.retry_backoff v.backoff.0;
      session = inr (inl refl);
    }
