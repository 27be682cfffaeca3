-- ===== src/Cluster/Turns.antt =====
-- A turn of the sender of dmmr_cluster.c, part by part: it keeps the order of the outbox.
use http_dmmr_nginx.Base.{
  ◌≡◌, ◌+◌, refl, sym, ◌∙◌, ◌⊎◌, Bool, true, false, not, ◌&&◌, none, arith, ltb, if◌then◌else◌,
  Bool-cases, inl, inr, Option-cases,
}
use http_dmmr_nginx.Cluster.Outbox.{
  peer_retry_base, PeerConn, SenderTurn, doubled, shaken, ensure_connection, ensure_session,
  send_first, after_session, after_connection, sender_turn,
}
use http_dmmr_nginx.Cluster.Orderly.{IsConn, Keeps, doubled_bounds, send_first-Keeps}

-- A part of a turn that leaves the outbox alone.
abbrev Holds : PeerConn → Bool × PeerConn → Type 0
Holds peer r = IsConn r.1 × (r.1.outbox ≡ peer.outbox)

-- Whether a part of a turn that lets it go on leaves the descriptor open.
abbrev IsUp : Bool × PeerConn → Type 0
IsUp r = (r.0 ≡ false) ⊎ (r.1.fd ≡ true)

shaken-Holds :
    (t : SenderTurn) (peer : PeerConn)
    → IsConn peer
    → peer.fd ≡ true
    → Holds peer (shaken t peer) × IsUp (shaken t peer)
unfolding shaken
shaken-Holds t peer v up = elim (Option-cases t.handshake) [
  | inl refused ↦ rw refused (
    (
      record {
        counted = v.counted;
        bounded = v.bounded;
        backoff = v.backoff;
        session = inr (inl refl);
      },
      refl,
    ),
    inl refl,
  )
  | inr (expire_at, made) ↦ rw made (
    (
      record { counted = v.counted; bounded = v.bounded; backoff = v.backoff; session = inl up },
      refl,
    ),
    inr up,
  )
]

ensure_connection-Holds :
    (t : SenderTurn) (peer : PeerConn)
    → IsConn peer
    → Holds peer (ensure_connection t peer) × IsUp (ensure_connection t peer)
unfolding ensure_connection
ensure_connection-Holds t peer v = go peer.fd refl
  where
    opened : PeerConn
    opened = record peer {
      fd = true;
      retry_backoff = peer_retry_base;
      last_activity = t.now;
      authenticated = false;
      auth_expire_at = 0;
    }

    later : IsConn (record peer {
      retry_backoff = doubled peer.retry_backoff;
      next_retry = t.now + doubled peer.retry_backoff;
    })
    later = record {
      counted = v.counted;
      bounded = v.bounded;
      backoff = doubled_bounds peer.retry_backoff v.backoff.0;
      session = v.session;
    }

    fresh : IsConn opened
    fresh = record {
      counted = v.counted;
      bounded = v.bounded;
      backoff = omega arith;
      session = inl refl;
    }

    reached :
        (connected : Bool)
        → let r =
            if not connected
            then (
              false,
              record peer {
                retry_backoff = doubled peer.retry_backoff;
                next_retry = t.now + doubled peer.retry_backoff;
              },
            )
            else shaken t opened in
          Holds peer r × IsUp r
    reached false = ((later, refl), inl refl)
    reached true = shaken-Holds t opened fresh refl

    go :
        (open_fd : Bool)
        → peer.fd ≡ open_fd
        → let r =
            if open_fd
            then (true, peer)
            else if ltb t.now peer.next_retry
            then (false, peer)
            else if not t.connected
            then (
              false,
              record peer {
                retry_backoff = doubled peer.retry_backoff;
                next_retry = t.now + doubled peer.retry_backoff;
              },
            )
            else shaken t opened in
          Holds peer r × IsUp r
    go true up = ((v, refl), inr up)
    go false down = elim (Bool-cases (ltb t.now peer.next_retry)) [
      | inl early ↦ rw early ((v, refl), inl refl)
      | inr due ↦ rw due (reached t.connected)
    ]

ensure_session-Holds :
    (t : SenderTurn) (peer : PeerConn)
    → IsConn peer
    → peer.fd ≡ true
    → Holds peer (ensure_session t peer)
unfolding ensure_session
ensure_session-Holds t peer v up =
    elim (Bool-cases (peer.authenticated && ltb t.micros peer.auth_expire_at)) [
      | inl current ↦ rw current (v, refl)
      | inr stale ↦ elim (Option-cases t.reauth) [
        | inl refused ↦
            rw (stale, refused)
              (
                record {
                  counted = v.counted;
                  bounded = v.bounded;
                  backoff = doubled_bounds peer.retry_backoff v.backoff.0;
                  session = inr (inl refl);
                },
                refl,
              )
        | inr (expire_at, made) ↦
            rw (stale, made)
              (
                record {
                  counted = v.counted;
                  bounded = v.bounded;
                  backoff = omega arith;
                  session = inl up;
                },
                refl,
              )
      ]
    ]

after_session-Keeps :
    (t : SenderTurn) (peer : PeerConn) (r : Bool × PeerConn)
    → Holds peer r
    → Keeps peer.outbox (after_session t r)
unfolding after_session
after_session-Keeps t peer (false, next) h = (h.0, sym h.1)
after_session-Keeps t peer (true, next) h = go next.active refl
  where
    go :
        (active : Bool)
        → next.active ≡ active
        → Keeps peer.outbox
            (if active then send_first t next next.outbox else (none, record next { fd = false }))
    go false left = (
      record {
        counted = h.0.counted;
        bounded = h.0.bounded;
        backoff = h.0.backoff;
        session = inr (inr left);
      },
      sym h.1,
    )
    go true active =
        let kept = send_first-Keeps t next next.outbox refl h.0 in (kept.0, sym h.1 ∙ kept.1)

pub sender_turn-Keeps :
    (t : SenderTurn) (peer : PeerConn) → IsConn peer → Keeps peer.outbox (sender_turn t peer)
unfolding sender_turn after_connection
sender_turn-Keeps t peer v = go peer.active refl
  where
    connected :
        (r : Bool × PeerConn) → Holds peer r → IsUp r → Keeps peer.outbox (after_connection t r)
    connected (false, next) h up = (h.0, sym h.1)
    connected (true, next) h up =
        let open_fd : next.fd ≡ true = elim up [ inl closed ↦ absurd cc | inr opened ↦ opened ] in
        let second = ensure_session-Holds t next h.0 open_fd in
        after_session-Keeps t peer (ensure_session t next) (second.0, second.1 ∙ h.1)

    go :
        (active : Bool)
        → peer.active ≡ active
        → Keeps peer.outbox (
            if not active
            then (none, record peer { fd = false })
            else after_connection t (ensure_connection t peer))
    go false left = (
      record {
        counted = v.counted;
        bounded = v.bounded;
        backoff = v.backoff;
        session = inr (inr left);
      },
      refl,
    )
    go true active =
        let first = ensure_connection-Holds t peer v in
        connected (ensure_connection t peer) first.0 first.1
