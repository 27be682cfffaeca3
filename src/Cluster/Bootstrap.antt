-- ===== src/Cluster/Bootstrap.antt =====
-- The snapshot that a new node asks for (dmmr_cluster.c): send_snapshot with send_snapshot_item on one
-- side, request_snapshot on the other, and handle_cluster_sync for single records.
use http_dmmr_nginx.Base.{
  ℕ, zero, suc, ◌/◌, ◌%◌, Bool, true, false, not, ◌&&◌, ◌||◌, List, ◌++◌, Option, none, some,
  if◌then◌else◌, Bytes, length, drop, ltb, ◌==◌,
}
use http_dmmr_nginx.Config.Op
use http_dmmr_nginx.Db.Converge.{pointer}
use http_dmmr_nginx.Db.Cursor.{DbRecord, db_snapshot_foreach}
use http_dmmr_nginx.Db.Ops.{BerkeleyDb, bytes_at, is_null, db_apply_record}
use http_dmmr_nginx.Db.Record.{DbResult, applied, ignored, not_found, error}
use http_dmmr_nginx.Cluster.Session.{ClusterConf, authenticate_cluster_frame}
use http_dmmr_nginx.Cluster.Wire.{
  ClusterFrame, dmmr_fnv1a_32, cluster_send_frame, Received, cluster_recv_frame,
}
use http_dmmr_nginx.Server.Net.{Recv, Send, sent_more}
use http_dmmr_nginx.Server.Request.{flag_none, flag_tombstone}

-- cluster_name, as the checks on a frame read it.
abbrev pub conf_of : Bytes → ClusterConf
conf_of cluster_name = record {
  has_name = not (length cluster_name == 0);
  name_hash = dmmr_fnv1a_32 cluster_name;
}

-- A frame that carries no key and no value.
abbrev pub send_mark : Bytes → ℕ → ℕ → List Send → Bool × Bytes × List Send
send_mark cluster_name my_node_id opcode sends =
    cluster_send_frame cluster_name opcode flag_none none 0 none 0 0 my_node_id 0 sends

-- The callback's state is what is sent and the events left. A record's pointers are NULL where it has
-- no bytes.
unfoldable pub send_snapshot_item : Bytes → DbRecord → Bytes × List Send → (Bytes × List Send) × ℕ
send_snapshot_item cluster_name r (out, sends) = counted (
    cluster_send_frame cluster_name Op.sync (if r.tombstone then flag_tombstone else flag_none)
      (pointer r.key) (length r.key) (pointer r.value) (length r.value) r.timestamp r.node_id
      r.expire_at sends)
  where
    counted : Bool × Bytes × List Send → (Bytes × List Send) × ℕ
    counted (true, more, rest) = ((out ++ more, rest), 0)
    counted (false, more, rest) = ((out ++ more, rest), 1)

unfoldable pub after_items : Bytes → ℕ → DbResult × Bytes × List Send → Bool × Bytes × List Send
after_items cluster_name my_node_id (applied, out, rest) =
    sent_more out (send_mark cluster_name my_node_id Op.cluster_sync_end rest)
after_items cluster_name my_node_id (ignored, out, rest) = (false, out, rest)
after_items cluster_name my_node_id (not_found, out, rest) = (false, out, rest)
after_items cluster_name my_node_id (error, out, rest) = (false, out, rest)

module _ (bdb : BerkeleyDb) (cluster_name : Bytes) (my_node_id : ℕ) where
  open bdb use {State}

  unfoldable pub after_begin :
      (ℕ → Bool) → Option State → Bool × Bytes × List Send → Bool × Bytes × List Send
  after_begin alloc dbp (false, out, rest) = (false, out, rest)
  after_begin alloc dbp (true, out, rest) =
      let r =
        db_snapshot_foreach bdb alloc dbp (some (send_snapshot_item cluster_name)) (out, rest) in
      after_items cluster_name my_node_id (r.0, r.1.0, r.1.1)

  -- Whether it returns 0, what is sent, and the events left.
  unfoldable pub send_snapshot : (ℕ → Bool) → Option State → List Send → Bool × Bytes × List Send
  send_snapshot alloc dbp sends =
      after_begin alloc dbp (send_mark cluster_name my_node_id Op.cluster_sync_begin sends)

-- The call of db_apply_record on a frame and its payload.
abbrev pub apply_frame :
    (bdb : BerkeleyDb)
    → (ℕ → Bool)
    → Option bdb.State
    → ClusterFrame
    → Option Bytes
    → DbResult × Option bdb.State
apply_frame bdb alloc dbp f payload =
    db_apply_record bdb alloc dbp payload f.key_len f.timestamp f.node_id f.expire_at
      (not (f.flags / 2 % 2 == 0))
      (if ltb 0 f.value_len then some (drop f.key_len (bytes_at payload)) else none) f.value_len

-- Whether a call of db_apply_record did not fail, and the handle behind it.
unfoldable pub unless_error : {State : Type 0} → DbResult × Option State → Bool × Option State
unless_error (applied, t) = (true, t)
unless_error (ignored, t) = (true, t)
unless_error (not_found, t) = (true, t)
unless_error (error, t) = (false, t)

unfoldable pub handle_cluster_sync :
    (bdb : BerkeleyDb)
    → (ℕ → Bool)
    → Option bdb.State
    → ClusterFrame
    → Option Bytes
    → Bool × Option bdb.State
handle_cluster_sync bdb alloc dbp f payload =
    if (f.node_id == 0) || ((f.key_len == 0) || is_null payload)
    then (false, dbp)
    else unless_error (apply_frame bdb alloc dbp f payload)

-- The loop of request_snapshot goes on, with saw_begin and the database, or has ended, with whether
-- request_snapshot returns 0.
pub data Fetching (State : Type 0) : Type 0 where
  going : Bool → Option State → List Recv → Fetching State
  ended : Bool → Option State → List Recv → Fetching State

unfoldable pub after_apply :
    {State : Type 0} → Bool → List Recv → DbResult × Option State → Fetching State
after_apply saw_begin s (applied, dbp) = going saw_begin dbp s
after_apply saw_begin s (ignored, dbp) = going saw_begin dbp s
after_apply saw_begin s (not_found, dbp) = going saw_begin dbp s
after_apply saw_begin s (error, dbp) = ended false dbp s

module _ (bdb : BerkeleyDb) (cluster_name : Bytes) where
  open bdb use {State}

  unfoldable pub on_frame : (ℕ → Bool) → Bool → Option State → Received → Fetching State
  on_frame alloc saw_begin dbp (none, s) = ended false dbp s
  on_frame alloc saw_begin dbp (some (f, payload), s) =
      if not (authenticate_cluster_frame (conf_of cluster_name) f.cluster_id)
      then ended false dbp s
      else if f.opcode == Op.cluster_sync_begin
      then going true dbp s
      else if (f.opcode == Op.sync) && saw_begin
      then after_apply saw_begin s (apply_frame bdb alloc dbp f payload)
      else if (f.opcode == Op.cluster_sync_end) && saw_begin
      then ended true dbp s
      else ended false dbp s

  -- The loop, on fuel, one unit for a frame.
  unfoldable pub fetch_loop : ℕ → (ℕ → Bool) → Fetching State → Fetching State
  fetch_loop zero alloc x = x
  fetch_loop (suc n) alloc (ended ok dbp s) = ended ok dbp s
  fetch_loop (suc n) alloc (going saw_begin dbp s) =
      fetch_loop n alloc (on_frame alloc saw_begin dbp (cluster_recv_frame alloc s))

  -- From the connection on; `ready` says whether the handshake and the request succeed.
  unfoldable pub request_snapshot :
      ℕ → (ℕ → Bool) → Bool → Option State → List Recv → Fetching State
  request_snapshot fuel alloc false dbp s = ended false dbp s
  request_snapshot fuel alloc true dbp s = fetch_loop fuel alloc (going false dbp s)
