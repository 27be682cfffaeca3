-- ===== src/Cluster/Fetch.antt =====
-- request_snapshot of dmmr_cluster.c on the snapshot that another node sends.
use http_dmmr_nginx.Base.{
  ℕ, zero, suc, ◌≡◌, ◌+◌, ◌/◌, ◌%◌, ◌^◌, ◌<◌, refl, sym, ap, ◌∙◌, Bool, true, false, not, List, [],
  ◌∷◌, ◌++◌, Option, none, some, arith, All, Bytes, length, ltb, ◌==◌, if◌then◌else◌, drop,
  drop_prefix, append_assoc, append-nil,
}
use http_dmmr_nginx.Config.Op
use http_dmmr_nginx.Db.Codec.{Entry, encode}
use http_dmmr_nginx.Db.Converge.{Delivery, IsDelivery, pointer, bytes_at-pointer, replay}
use http_dmmr_nginx.Db.Lww.{result_of}
use http_dmmr_nginx.Db.Ops.{BerkeleyDb}
use http_dmmr_nginx.Db.Record.{DbResult, applied, ignored, not_found, error}
use http_dmmr_nginx.Db.Refine.{db_apply_record-merge}
use http_dmmr_nginx.Db.Snapshot.{as_fetches}
use http_dmmr_nginx.Db.Sound.{AllSound, db_apply_record-AllSound}
use http_dmmr_nginx.Db.Views.{IsKey, view, apply_entry, plenty}
use http_dmmr_nginx.Cluster.Session.{authenticate_cluster_frame}
use http_dmmr_nginx.Cluster.Wire.{cluster_id_of, Received, cluster_recv_frame}
use http_dmmr_nginx.Cluster.Transport.{
  Message, header_for, message_bytes, Delivers, cluster_recv_frame-message_bytes,
}
use http_dmmr_nginx.Cluster.Bootstrap.{
  conf_of, send_snapshot, apply_frame, Fetching, going, ended, after_apply, on_frame, fetch_loop,
  request_snapshot,
}
use http_dmmr_nginx.Cluster.Transfer.{
  record_message, mark, record_message-IsMessage, mark-IsMessage, pairs_of, records_bytes,
  send_snapshot-snapshot_bytes,
}
use http_dmmr_nginx.Server.Net.{Recv}
use http_dmmr_nginx.Server.Request.{flag_none, flag_tombstone}
use http_dmmr_nginx.Server.Store.{db_apply_record-append}
use http_dmmr_nginx.Server.Wire.{joined, AreAlive}

flag_kept :
    (tombstone : Bool)
    → not ((if tombstone then flag_tombstone else flag_none) / 2 % 2 == 0) ≡ tombstone
flag_kept true = refl
flag_kept false = refl

pub pointer_nonempty : (key v : Bytes) → IsKey key → pointer (key ++ v) ≡ some (key ++ v)
pointer_nonempty [] v k = absurd (omega (arith, k.0))
pointer_nonempty (x ∷ xs) v k = refl

value_behind :
    (key v : Bytes)
    → (if ltb 0 (length v) then some (drop (length key) (key ++ v)) else none) ≡ pointer v
value_behind key [] = refl
value_behind key (x ∷ xs) =
    let full : ltb 0 (length (x ∷ xs)) ≡ true = ground arith in
    rw (full, drop_prefix (length key) key (x ∷ xs) refl) refl

not_error :
    {State : Type 0} (old : Option Entry) (e : Entry) (s : List Recv) (r : DbResult × Option State)
    → r.0 ≡ result_of old e
    → after_apply true s r ≡ going true r.1 s
unfolding after_apply result_of
not_error old e s (applied, dbp) h = refl
not_error old e s (ignored, dbp) h = refl
not_error old e s (not_found, dbp) h = refl
not_error none e s (error, dbp) h = absurd cc
not_error (some o) e s (error, dbp) h = ground (arith, h)

-- The same outcome with another rest of the stream.
moved : {State : Type 0} → Fetching State → List Recv → Fetching State
moved (going saw dbp _) s = going saw dbp s
moved (ended ok dbp _) s = ended ok dbp s

-- The payload of a record's message is applied as the record.
pub apply_frame-apply_entry :
    (bdb : BerkeleyDb) (cluster_name : Bytes) (d : Delivery) (s : bdb.State)
    → IsDelivery d
    → apply_frame bdb plenty
        (some s)
        (header_for cluster_name (record_message d))
        (pointer (d.key ++ d.entry.value))
      ≡ apply_entry bdb plenty s d.key d.entry (pointer d.entry.value)
apply_frame-apply_entry bdb cluster_name d s v =
    rw
      (
        pointer_nonempty d.key d.entry.value v.key_fits,
        flag_kept d.entry.tombstone,
        value_behind d.key d.entry.value,
      )
      (db_apply_record-append bdb plenty d.key d.entry.value d.entry.timestamp d.entry.node_id
        d.entry.expire_at d.entry.tombstone (pointer d.entry.value) (length d.entry.value) (some s))

module _ (bdb : BerkeleyDb) (cluster_name : Bytes)
    (authentic : authenticate_cluster_frame (conf_of cluster_name) (cluster_id_of cluster_name)
      ≡ true)
    (stores : (s : bdb.State) (k d : Bytes) → (t : bdb.State) × (bdb.put s k d ≡ some t)) where
  open bdb use {State}

  on_record :
      (d : Delivery) (s : State) (rest : List Recv)
      → IsDelivery d
      → AllSound bdb (some s)
      → on_frame bdb cluster_name plenty true (some s) (
        some (header_for cluster_name (record_message d), pointer (d.key ++ d.entry.value)),
        rest,
      )
        ≡ going true (apply_entry bdb plenty s d.key d.entry (pointer d.entry.value)).1 rest
  unfolding on_frame
  on_record d s rest v sound =
      let put = stores s d.key (encode d.entry (pointer d.entry.value)) in
      rw (authentic, apply_frame-apply_entry bdb cluster_name d s v)
        (not_error (view bdb s d.key) d.entry rest
          (apply_entry bdb plenty s d.key d.entry (pointer d.entry.value))
          (db_apply_record-merge bdb plenty s d.key d.key d.entry (pointer d.entry.value) v.key_fits
            v.entry_fits (bytes_at-pointer d.entry.value) put.0 (sound d.key) refl put.1).0)

  -- A message in front of the stream takes one turn of the loop.
  step_with :
      (m : Message) (p : Option Bytes) (r : Received) (rest : Bytes) (x : Fetching State)
      (saw : Bool) (dbp : Option State)
      → Delivers cluster_name r (header_for cluster_name m) p rest
      → ((s : List Recv)
          → on_frame bdb cluster_name plenty saw dbp (some (header_for cluster_name m, p), s)
            ≡ moved x s)
      → (s : List Recv) × (on_frame bdb cluster_name plenty saw dbp r ≡ moved x s)
        × (joined s ≡ rest)
        × AreAlive s
  step_with m p (o, s) rest x saw dbp d h =
      (s, ap (λ y. on_frame bdb cluster_name plenty saw dbp (y, s)) d.0 ∙ h s, d.1, d.2)

  fetch_records :
      (ds : List Delivery) (fuel my_node_id : ℕ) (dbp : Option State) (s : List Recv)
      → All IsDelivery ds
      → AllSound bdb dbp
      → my_node_id < 2 ^ 64
      → AreAlive s
      → joined s
        ≡ records_bytes cluster_name ds
          ++ message_bytes cluster_name (mark my_node_id Op.cluster_sync_end)
      → length ds < fuel
      → (s' : List Recv) × (fetch_loop bdb cluster_name fuel plenty (going true dbp s)
          ≡ ended true (replay bdb ds dbp) s')
  unfolding fetch_loop replay moved on_frame
  fetch_records ds fuel me none s v sound h alive e l = absurd sound
  fetch_records ds zero me (some t) s v sound h alive e l = absurd (omega arith)
  fetch_records [] (suc fuel) me (some t) s v sound h alive e l =
      let m = mark me Op.cluster_sync_end in
      let step =
        step_with m none (cluster_recv_frame plenty s) [] (ended true (some t) []) true (some t)
          (cluster_recv_frame-message_bytes cluster_name plenty m
            (mark-IsMessage me Op.cluster_sync_end h (omega arith)) [] (λ n. refl) s alive
            (e ∙ sym (append-nil (message_bytes cluster_name m))))
          (λ s'. rw authentic refl) in
      (step.0, ap (fetch_loop bdb cluster_name fuel plenty) step.1 ∙ done fuel (some t) step.0)
    where
      done :
          (n : ℕ) (dbp : Option State) (s' : List Recv)
          → fetch_loop bdb cluster_name n plenty (ended true dbp s') ≡ ended true dbp s'
      done zero dbp s' = refl
      done (suc n) dbp s' = refl
  fetch_records (d ∷ ds) (suc fuel) me (some t) s v sound h alive e l =
      let m = record_message d in
      let next = (apply_entry bdb plenty t d.key d.entry (pointer d.entry.value)).1 in
      let rest =
        records_bytes cluster_name ds ++ message_bytes cluster_name (mark me Op.cluster_sync_end) in
      let step =
        step_with m (pointer (d.key ++ d.entry.value)) (cluster_recv_frame plenty s) rest
          (going true next []) true (some t)
          (cluster_recv_frame-message_bytes cluster_name plenty m (record_message-IsMessage d v.0)
            rest (λ n. refl) s alive
            (e
              ∙ append_assoc (message_bytes cluster_name m) (records_bytes cluster_name ds)
                  (message_bytes cluster_name (mark me Op.cluster_sync_end))))
          (λ s'. on_record d t s' v.0 sound) in
      let later =
        fetch_records ds fuel me next step.0 v.1
          (db_apply_record-AllSound bdb t d.key d.entry (pointer d.entry.value) v.0.entry_fits
            (bytes_at-pointer d.entry.value) sound plenty v.0.key_fits)
          h step.3 step.2 (omega arith) in
      (later.0, ap (fetch_loop bdb cluster_name fuel plenty) step.1 ∙ later.1)

  -- A node that requests a snapshot, and receives what send_snapshot of another node of its cluster
  -- sends for the records its cursor walks over, in any chunks, succeeds and has applied each of these
  -- records once, in order, and nothing else; memory is there, the stores serve every write, every
  -- stored record is valid, and send takes all it is given.
  pub request_snapshot-send_snapshot :
      (bdb' : BerkeleyDb) (peer_node_id : ℕ) (peer : bdb'.State) (ds : List Delivery) (t : State)
      (s : List Recv) (fuel : ℕ)
      → peer_node_id < 2 ^ 64
      → All IsDelivery ds
      → bdb'.open_cursor peer ≡ some (as_fetches (pairs_of ds))
      → AllSound bdb (some t)
      → AreAlive s
      → joined s ≡ (send_snapshot bdb' cluster_name peer_node_id plenty (some peer) []).1
      → length ds + 1 < fuel
      → (s' : List Recv) × (request_snapshot bdb cluster_name fuel plenty true (some t) s
          ≡ ended true (replay bdb ds (some t)) s')
  unfolding request_snapshot fetch_loop moved on_frame
  request_snapshot-send_snapshot bdb' peer_node_id peer ds t s zero h v e sound alive sent l =
      absurd (omega arith)
  request_snapshot-send_snapshot bdb' peer_node_id peer ds t s (suc fuel) h v e sound alive sent l =
      let m = mark peer_node_id Op.cluster_sync_begin in
      let rest =
        records_bytes cluster_name ds
        ++ message_bytes cluster_name (mark peer_node_id Op.cluster_sync_end) in
      let whole : joined s ≡ message_bytes cluster_name m ++ rest =
        sent
        ∙ ap (λ x. x.1)
            (send_snapshot-snapshot_bytes cluster_name bdb' peer_node_id peer ds h v e) in
      let step =
        step_with m none (cluster_recv_frame plenty s) rest (going true (some t) []) false (some t)
          (cluster_recv_frame-message_bytes cluster_name plenty m
            (mark-IsMessage peer_node_id Op.cluster_sync_begin h (omega arith)) rest (λ n. refl) s
            alive whole)
          (λ s'. rw authentic refl) in
      let later =
        fetch_records ds fuel peer_node_id (some t) step.0 v sound h step.3 step.2 (omega arith) in
      (later.0, ap (fetch_loop bdb cluster_name fuel plenty) step.1 ∙ later.1)
