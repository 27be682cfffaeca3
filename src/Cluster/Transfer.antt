-- ===== src/Cluster/Transfer.antt =====
-- A snapshot sent by send_snapshot of one node and fetched by request_snapshot of another
-- (dmmr_cluster.c).
use http_dmmr_nginx.Base.{
  ℕ, ◌≡◌, ◌^◌, ◌<◌, refl, sym, ap, ◌∙◌, Bool, true, false, List, [], ◌∷◌, ◌++◌, none, some, arith,
  All, Bytes, if◌then◌else◌, append_assoc, append-nil,
}
use http_dmmr_nginx.Config.Op
use http_dmmr_nginx.Db.Codec.{Entry, decode, encode, decode-encode, entry_is_valid-encode}
use http_dmmr_nginx.Db.Converge.{Delivery, IsDelivery, pointer, bytes_at-pointer}
use http_dmmr_nginx.Db.Cursor.{DbRecord, snapshot_record, snapshot_loop, db_snapshot_foreach}
use http_dmmr_nginx.Db.Ops.{BerkeleyDb}
use http_dmmr_nginx.Db.Record.{applied, error}
use http_dmmr_nginx.Db.Snapshot.{IsFetched, as_fetches, send_all, AllSent, snapshot_loop-send_all}
use http_dmmr_nginx.Db.Views.{plenty}
use http_dmmr_nginx.Cluster.Transport.{
  Message, IsMessage, message_bytes, cluster_send_frame-message_bytes,
}
use http_dmmr_nginx.Cluster.Bootstrap.{
  send_mark, send_snapshot_item, after_items, after_begin, send_snapshot,
}
use http_dmmr_nginx.Server.Net.{sent_more}
use http_dmmr_nginx.Server.Request.{flag_none, flag_tombstone}

-- The message of a record.
abbrev pub record_message : Delivery → Message
record_message d = record {
  opcode = Op.sync;
  flags = if d.entry.tombstone then flag_tombstone else flag_none;
  key = d.key;
  value = d.entry.value;
  timestamp = d.entry.timestamp;
  node_id = d.entry.node_id;
  expire_at = d.entry.expire_at;
}

abbrev pub mark : ℕ → ℕ → Message
mark my_node_id opcode = record {
  opcode = opcode;
  flags = flag_none;
  key = [];
  value = [];
  timestamp = 0;
  node_id = my_node_id;
  expire_at = 0;
}

flags_fit : (tombstone : Bool) → (if tombstone then flag_tombstone else flag_none) < 2 ^ 16
flags_fit true = omega arith
flags_fit false = omega arith

pub record_message-IsMessage : (d : Delivery) → IsDelivery d → IsMessage (record_message d)
record_message-IsMessage d v = record {
  opcode_fits = omega arith;
  flags_fits = flags_fit d.entry.tombstone;
  key_fits = v.key_fits.1;
  value_fits = v.entry_fits.value_fits;
  timestamp_fits = v.entry_fits.timestamp_fits;
  node_id_fits = v.entry_fits.node_id_fits;
  expire_at_fits = v.entry_fits.expire_at_fits;
}

pub mark-IsMessage :
    (my_node_id opcode : ℕ)
    → my_node_id < 2 ^ 64
    → opcode < 2 ^ 16
    → IsMessage (mark my_node_id opcode)
mark-IsMessage my_node_id opcode h l = record {
  opcode_fits = l;
  flags_fits = omega arith;
  key_fits = omega arith;
  value_fits = omega arith;
  timestamp_fits = omega arith;
  node_id_fits = h;
  expire_at_fits = omega arith;
}

-- The pairs of key and data in which a database keeps the records.
abbrev pub pairs_of : List Delivery → List (Bytes × Bytes)
pairs_of [] = []
pairs_of (d ∷ ds) = (d.key, encode d.entry (pointer d.entry.value)) ∷ pairs_of ds

pairs_of-IsFetched : (ds : List Delivery) → All IsDelivery ds → All IsFetched (pairs_of ds)
pairs_of-IsFetched [] h = tt
pairs_of-IsFetched (d ∷ ds) h = (
  (
    h.0.key_fits,
    entry_is_valid-encode d.entry (pointer d.entry.value) h.0.entry_fits
        (bytes_at-pointer d.entry.value),
  ),
  pairs_of-IsFetched ds h.1,
)

record_of : Bytes → Entry → DbRecord
record_of key e = record {
  key = key;
  value = e.value;
  timestamp = e.timestamp;
  node_id = e.node_id;
  expire_at = e.expire_at;
  tombstone = e.tombstone;
}

snapshot_record-encode :
    (d : Delivery)
    → IsDelivery d
    → snapshot_record d.key (encode d.entry (pointer d.entry.value)) ≡ record_of d.key d.entry
unfolding snapshot_record record_of decode
snapshot_record-encode d v =
    ap (record_of d.key)
      (decode-encode d.entry (pointer d.entry.value) v.entry_fits (bytes_at-pointer d.entry.value))

module _ (cluster_name : Bytes) where
  -- The records, as they are on the wire.
  abbrev pub records_bytes : List Delivery → Bytes
  records_bytes [] = []
  records_bytes (d ∷ ds) = message_bytes cluster_name (record_message d) ++ records_bytes ds

  send_snapshot_item-record :
      (d : Delivery) (out : Bytes)
      → IsDelivery d
      → send_snapshot_item cluster_name
          (snapshot_record d.key (encode d.entry (pointer d.entry.value)))
          (out, [])
        ≡ ((out ++ message_bytes cluster_name (record_message d), []), 0)
  unfolding send_snapshot_item record_of
  send_snapshot_item-record d out v =
      rw
        (
          snapshot_record-encode d v,
          cluster_send_frame-message_bytes cluster_name (record_message d)
              (record_message-IsMessage d v),
        )
        refl

  sent_records :
      (ds : List Delivery) (out : Bytes)
      → All IsDelivery ds
      → AllSent (send_snapshot_item cluster_name) (pairs_of ds) (out, [])
        × (send_all (send_snapshot_item cluster_name) (pairs_of ds) (out, [])
            ≡ (out ++ records_bytes ds, []))
  sent_records [] out h = (tt, rw (append-nil out) refl)
  sent_records (d ∷ ds) out h =
      let later = sent_records ds (out ++ message_bytes cluster_name (record_message d)) h.1 in
      (
        rw (send_snapshot_item-record d out h.0) (refl, later.0),
        ap (λ x. send_all (send_snapshot_item cluster_name) (pairs_of ds) x.0)
              (send_snapshot_item-record d out h.0)
            ∙ (later.1
                ∙ ap (λ bs. (bs, []))
                    (append_assoc out (message_bytes cluster_name (record_message d))
                      (records_bytes ds))),
      )

  -- What send_snapshot sends for a database that holds the records.
  abbrev pub snapshot_bytes : ℕ → List Delivery → Bytes
  snapshot_bytes my_node_id ds =
      message_bytes cluster_name (mark my_node_id Op.cluster_sync_begin)
      ++ (records_bytes ds ++ message_bytes cluster_name (mark my_node_id Op.cluster_sync_end))

  send_mark-mark :
      (my_node_id opcode : ℕ)
      → my_node_id < 2 ^ 64
      → opcode < 2 ^ 16
      → send_mark cluster_name my_node_id opcode []
        ≡ (true, message_bytes cluster_name (mark my_node_id opcode), [])
  send_mark-mark my_node_id opcode h l =
      cluster_send_frame-message_bytes cluster_name (mark my_node_id opcode)
        (mark-IsMessage my_node_id opcode h l)

  walked :
      (bdb : BerkeleyDb) (s : bdb.State) (ds : List Delivery) (out : Bytes)
      → All IsDelivery ds
      → bdb.open_cursor s ≡ some (as_fetches (pairs_of ds))
      → db_snapshot_foreach bdb plenty (some s) (some (send_snapshot_item cluster_name)) (out, [])
        ≡ (applied, (out ++ records_bytes ds, []))
  unfolding db_snapshot_foreach
  walked bdb s ds out v e =
      ap
        (λ o. elim o [
          | none ↦ (error, (out, []))
          | some fetches ↦ snapshot_loop plenty (send_snapshot_item cluster_name) fetches (out, [])
        ])
        e
      ∙ (ap (λ fs. snapshot_loop plenty (send_snapshot_item cluster_name) fs (out, []))
            (sym (append-nil (as_fetches (pairs_of ds))))
          ∙ ((snapshot_loop-send_all (send_snapshot_item cluster_name) (pairs_of ds) [] (out, [])
                (pairs_of-IsFetched ds v) (sent_records ds out v).0).0
              ∙ ap (λ x. (applied, x)) (sent_records ds out v).1))

  pub send_snapshot-snapshot_bytes :
      (bdb : BerkeleyDb) (my_node_id : ℕ) (s : bdb.State) (ds : List Delivery)
      → my_node_id < 2 ^ 64
      → All IsDelivery ds
      → bdb.open_cursor s ≡ some (as_fetches (pairs_of ds))
      → send_snapshot bdb cluster_name my_node_id plenty (some s) []
        ≡ (true, snapshot_bytes my_node_id ds, [])
  unfolding send_snapshot after_begin after_items
  send_snapshot-snapshot_bytes bdb my_node_id s ds h v e =
      let first = message_bytes cluster_name (mark my_node_id Op.cluster_sync_begin) in
      let last = message_bytes cluster_name (mark my_node_id Op.cluster_sync_end) in
      ap (after_begin bdb cluster_name my_node_id plenty (some s))
        (send_mark-mark my_node_id Op.cluster_sync_begin h (omega arith))
      ∙ (ap (λ r. after_items cluster_name my_node_id (r.0, r.1.0, r.1.1))
            (walked bdb s ds first v e)
          ∙ (ap (sent_more (first ++ records_bytes ds))
                (send_mark-mark my_node_id Op.cluster_sync_end h (omega arith))
              ∙ ap (λ bs. (true, bs, [])) (append_assoc first (records_bytes ds) last)))
