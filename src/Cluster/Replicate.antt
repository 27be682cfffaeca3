-- ===== src/Cluster/Replicate.antt =====
-- A write on its way to a peer: the command that the handlers of dmmr_server.c announce, the outbox of
-- the peer, the frame, and handle_cluster_sync on the other side (dmmr_cluster.c).
use http_dmmr_nginx.Base.{
  ℕ, ◌≡◌, ◌≢◌, refl, ap, ◌∙◌, Bool, true, false, List, [], ◌∷◌, ◌++◌, ◌&&◌, ◌⊎◌, ◌<◌, leb, inl, inr,
  Option, none, some, arith, Bytes, bytes_eq, length, ltb, ◌==◌, if◌then◌else◌, take-length,
}
use http_dmmr_nginx.Config.{max_key_len, max_value_len}
use http_dmmr_nginx.Config.Op
use http_dmmr_nginx.Db.Codec.{Entry, encode}
use http_dmmr_nginx.Db.Converge.{Delivery, IsDelivery, pointer, bytes_at-pointer}
use http_dmmr_nginx.Db.Lww.{merge, result_of}
use http_dmmr_nginx.Db.Ops.{BerkeleyDb, is_null}
use http_dmmr_nginx.Db.Record.{DbResult, applied, ignored, not_found, error}
use http_dmmr_nginx.Db.Refine.{db_apply_record-merge}
use http_dmmr_nginx.Db.Views.{IsSound, view, holds, apply_entry, plenty}
use http_dmmr_nginx.Cluster.Bootstrap.{conf_of, handle_cluster_sync, unless_error}
use http_dmmr_nginx.Cluster.Fetch.{apply_frame-apply_entry, pointer_nonempty}
use http_dmmr_nginx.Cluster.Outbox.{OutboxMsg, PeerConn, offer_all, broadcast_sync}
use http_dmmr_nginx.Cluster.Offer.{AreOffered, offer_all-AreOffered}
use http_dmmr_nginx.Cluster.Session.{
  Frame, Action, say_hello, apply_sync, authenticate_cluster_frame, dispatch, session,
}
use http_dmmr_nginx.Cluster.Transfer.{record_message, record_message-IsMessage}
use http_dmmr_nginx.Cluster.Transport.{
  header_for, cluster_send_frame-message_bytes, cluster_recv_frame-message_bytes, Delivers,
}
use http_dmmr_nginx.Cluster.Wire.{
  ClusterFrame, cluster_id_of, cluster_send_frame, Received, cluster_recv_frame,
}
use http_dmmr_nginx.Server.Control.{process_control_cmd}
use http_dmmr_nginx.Server.Net.{Recv, Send}
use http_dmmr_nginx.Server.Request.{flag_none, flag_tombstone}
use http_dmmr_nginx.Server.Wire.{joined, AreAlive}
use http_dmmr_nginx.Server.Announce.{announce}

-- The message for an announced entry.
abbrev pub posted : ℕ → Delivery → OutboxMsg
posted now d = record {
  opcode = Op.sync;
  flags = if d.entry.tombstone then flag_tombstone else flag_none;
  key = d.key;
  value = d.entry.value;
  timestamp = d.entry.timestamp;
  node_id = d.entry.node_id;
  expire_at = d.entry.expire_at;
  enqueued_at = now;
}

-- What the sender hands to cluster_send_frame.
abbrev pub send_posted : Bytes → OutboxMsg → List Send → Bool × Bytes × List Send
send_posted cluster_name msg sends =
    cluster_send_frame cluster_name msg.opcode msg.flags (pointer msg.key) (length msg.key)
      (pointer msg.value) (length msg.value) msg.timestamp msg.node_id msg.expire_at sends

process_control_cmd-offer_all :
    (my_node_id now : ℕ) (room : PeerConn → Bool) (peers : List PeerConn) (d : Delivery)
    → IsDelivery d
    → process_control_cmd my_node_id room now (announce d.key d.entry) peers
      ≡ offer_all my_node_id room (posted now d) peers
unfolding process_control_cmd broadcast_sync
process_control_cmd-offer_all my_node_id now room peers d v =
    let some_key : (length d.key == 0) ≡ false = ground (arith, v.key_fits) in
    let key : ltb max_key_len (length d.key) ≡ false = ground (arith, v.key_fits) in
    let value : ltb max_value_len (length d.entry.value) ≡ false =
      ground (arith, v.entry_fits.value_fits) in
    rw
      (
        some_key,
        key,
        value,
        take-length d.key,
        bytes_at-pointer d.entry.value,
        take-length d.entry.value,
      )
      refl

unless_error_lem :
    {State : Type 0} (old : Option Entry) (e : Entry) (r : DbResult × Option State)
    → r.0 ≡ result_of old e
    → unless_error r ≡ (true, r.1)
unfolding unless_error result_of
unless_error_lem old e (applied, t) h = refl
unless_error_lem old e (ignored, t) h = refl
unless_error_lem old e (not_found, t) h = refl
unless_error_lem none e (error, t) h = absurd cc
unless_error_lem (some o) e (error, t) h = ground (arith, h)

-- A frame as the loop of handle_cluster_connection sees it, at a time.
abbrev pub frame_at : ℕ → ClusterFrame → Frame
frame_at at f = record {
  opcode = f.opcode;
  cluster_id = f.cluster_id;
  node_id = f.node_id;
  key_len = f.key_len;
  value_len = f.value_len;
  at = at;
  sendable = true;
}

-- What the first of the actions for a frame does to the database.
unfoldable pub carried_out :
    (bdb : BerkeleyDb)
    → Option bdb.State
    → ClusterFrame
    → Option Bytes
    → List Action
    → Bool × Option bdb.State
carried_out bdb dbp f payload (apply_sync _ ∷ _) = handle_cluster_sync bdb plenty dbp f payload
carried_out bdb dbp f payload _ = (false, dbp)

-- One round of the loop of handle_cluster_connection, in a session that is authenticated until
-- `auth_expire_at`, or without a secret.
unfoldable pub sync_received :
    (bdb : BerkeleyDb)
    → Bytes
    → Bool
    → ℕ
    → ℕ
    → Option bdb.State
    → Received
    → Bool × Option bdb.State
sync_received bdb cluster_name has_secret auth_expire_at at dbp (none, s) = (false, dbp)
sync_received bdb cluster_name has_secret auth_expire_at at dbp (some (f, payload), s) =
    carried_out bdb dbp f payload
      (session (conf_of cluster_name) has_secret auth_expire_at (frame_at at f ∷ []))

-- Without a secret, or before the session expires, a record of a node of the same cluster is applied.
session-record_message :
    (cluster_name : Bytes) (has_secret : Bool) (auth_expire_at at : ℕ) (d : Delivery)
    → authenticate_cluster_frame (conf_of cluster_name) (cluster_id_of cluster_name) ≡ true
    → (has_secret ≡ false) ⊎ (at < auth_expire_at)
    → let f = frame_at at (header_for cluster_name (record_message d)) in
      session (conf_of cluster_name) has_secret auth_expire_at (f ∷ []) ≡ apply_sync f ∷ []
unfolding session dispatch
session-record_message cluster_name has_secret auth_expire_at at d same timely =
    rw same (go has_secret timely)
  where
    go :
        (secret : Bool)
        → (secret ≡ false) ⊎ (at < auth_expire_at)
        → let f = frame_at at (header_for cluster_name (record_message d)) in
          (if secret && false
            then say_hello ∷ []
            else if secret && leb auth_expire_at at
            then []
            else apply_sync f ∷ [])
          ≡ apply_sync f ∷ []
    go false h = refl
    go true (inl h) = cc
    go true (inr h) = let early : leb auth_expire_at at ≡ false = ground (arith, h) in rw early refl

module _ (bdb : BerkeleyDb) (s t : bdb.State) (d : Delivery) (j : Bytes) (v : IsDelivery d)
    (sound : IsSound bdb s d.key) (from_node : d.entry.node_id ≢ 0)
    (stored : bdb.put s d.key (encode d.entry (pointer d.entry.value)) ≡ some t) where
  handle_cluster_sync-merge :
      (cluster_name : Bytes)
      → let r =
          handle_cluster_sync bdb plenty
            (some s)
            (header_for cluster_name (record_message d))
            (pointer (d.key ++ d.entry.value)) in
        (r.0 ≡ true)
        × (holds bdb r.1 j
            ≡ (if bytes_eq d.key j then merge (view bdb s d.key) d.entry else view bdb s j))
  unfolding handle_cluster_sync
  handle_cluster_sync-merge cluster_name =
      let id : (d.entry.node_id == 0) ≡ false = ground (arith, from_node) in
      let key : (length d.key == 0) ≡ false = ground (arith, v.key_fits) in
      let given : is_null (pointer (d.key ++ d.entry.value)) ≡ false =
        ap is_null (pointer_nonempty d.key d.entry.value v.key_fits) in
      let seen =
        db_apply_record-merge bdb plenty s d.key j d.entry (pointer d.entry.value) v.key_fits
          v.entry_fits (bytes_at-pointer d.entry.value) t sound refl stored in
      rw
        (
          id,
          key,
          given,
          apply_frame-apply_entry bdb cluster_name d s v,
          unless_error_lem (view bdb s d.key) d.entry
              (apply_entry bdb plenty s d.key d.entry (pointer d.entry.value)) seen.0,
        )
        (refl, seen.1)

  sync_received_lem :
      (cluster_name rest : Bytes) (has_secret : Bool) (auth_expire_at at : ℕ) (r : Received)
      → authenticate_cluster_frame (conf_of cluster_name) (cluster_id_of cluster_name) ≡ true
      → (has_secret ≡ false) ⊎ (at < auth_expire_at)
      → Delivers cluster_name r
          (header_for cluster_name (record_message d))
          (pointer (d.key ++ d.entry.value))
          rest
      → let r' = sync_received bdb cluster_name has_secret auth_expire_at at (some s) r in
        (r'.0 ≡ true)
        × (holds bdb r'.1 j
            ≡ (if bytes_eq d.key j then merge (view bdb s d.key) d.entry else view bdb s j))
  unfolding sync_received carried_out
  sync_received_lem cluster_name rest has_secret auth_expire_at at (o, left) same timely h =
      rw (h.0, session-record_message cluster_name has_secret auth_expire_at at d same timely)
        (handle_cluster_sync-merge cluster_name)

  -- A write of a node with an id, of a key and a value within the bounds, that the node announces to its
  -- peers, becomes the last message of the outbox of each peer that is another node, with memory for the
  -- message and fewer than 256 messages, and leaves every other peer as it was. When the sender's frame for
  -- it reaches a node of the same cluster, in any chunks and with more behind it, in a session that has
  -- not expired or without a secret, that node holds under the write's key the last-writer-wins merge
  -- of its own entry and the write, and under every other key what it held; the receiver has memory, its
  -- put succeeds, and it holds nothing or a valid record under the key.
  pub announce-replicates :
      (my_node_id now : ℕ) (room : PeerConn → Bool) (peers : List PeerConn)
      (cluster_name rest : Bytes) (has_secret : Bool) (auth_expire_at at : ℕ) (incoming : List Recv)
      → authenticate_cluster_frame (conf_of cluster_name) (cluster_id_of cluster_name) ≡ true
      → (has_secret ≡ false) ⊎ (at < auth_expire_at)
      → AreAlive incoming
      → joined incoming ≡ (send_posted cluster_name (posted now d) []).1 ++ rest
      → let r =
          sync_received bdb cluster_name has_secret auth_expire_at at
            (some s)
            (cluster_recv_frame plenty incoming) in
        AreOffered my_node_id room
          (posted now d)
          peers
          (process_control_cmd my_node_id room now (announce d.key d.entry) peers)
        × (r.0 ≡ true)
        × (holds bdb r.1 j
            ≡ (if bytes_eq d.key j then merge (view bdb s d.key) d.entry else view bdb s j))
  announce-replicates my_node_id now room peers cluster_name rest has_secret auth_expire_at at
        incoming same timely h e =
      let m = record_message d in
      let sent = cluster_send_frame-message_bytes cluster_name m (record_message-IsMessage d v) in
      let received =
        cluster_recv_frame-message_bytes cluster_name plenty m (record_message-IsMessage d v) rest
          (λ n. refl) incoming h (e ∙ ap (λ x. x.1 ++ rest) sent) in
      let done =
        sync_received_lem cluster_name rest has_secret auth_expire_at at
          (cluster_recv_frame plenty incoming) same timely received in
      (
        rw (process_control_cmd-offer_all my_node_id now room peers d v)
            (offer_all-AreOffered my_node_id room (posted now d) peers),
        done.0,
        done.1,
      )
