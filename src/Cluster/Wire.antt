-- ===== src/Cluster/Wire.antt =====
-- struct dmmr_cluster_frame and dmmr_fnv1a_32 (dmmr_protocol.h), cluster_send_frame and
-- cluster_recv_frame (dmmr_cluster.c). The struct has 48 bytes, of which the last four are padding.
use http_dmmr_nginx.Base.{
  ℕ, ◌+◌, ◌*◌, ◌%◌, ◌^◌, Bool, true, false, not, ◌&&◌, ◌||◌, List, [], ◌∷◌, ◌++◌, Option, none,
  some, if◌then◌else◌, Bytes, length, take, drop, replicate, be, of_be, ltb, ◌==◌,
}
use http_dmmr_nginx.Config.{max_key_len, max_value_len, dmmr_magic, dmmr_cluster_version}
use http_dmmr_nginx.Db.Ops.{bytes_at, is_null}
use http_dmmr_nginx.Server.Net.{Recv, recv_full, Send, send_full, sent_more}
use Prim.Native.Nat.{bit_xor}

unfoldable pub fnv1a_from : ℕ → Bytes → ℕ
fnv1a_from hash [] = hash
fnv1a_from hash (b ∷ bs) = fnv1a_from (bit_xor hash b * 16777619 % 2 ^ 32) bs

abbrev pub dmmr_fnv1a_32 : Bytes → ℕ
dmmr_fnv1a_32 str = fnv1a_from 2166136261 str

pub record ClusterFrame : Type 0 where
  pub magic : ℕ
  pub version : ℕ
  pub opcode : ℕ
  pub flags : ℕ
  pub key_len : ℕ
  pub value_len : ℕ
  pub timestamp : ℕ
  pub node_id : ℕ
  pub expire_at : ℕ
  pub cluster_id : ℕ

-- The struct in network order.
unfoldable pub write_frame : ClusterFrame → Bytes
write_frame f =
    (be 2 f.magic ++ be 2 f.version)
    ++ (be 2 f.opcode
        ++ (be 2 f.flags
            ++ (be 4 f.key_len
                ++ (be 4 f.value_len
                    ++ (be 8 f.timestamp
                        ++ (be 8 f.node_id
                            ++ (be 8 f.expire_at ++ (be 4 f.cluster_id ++ replicate 4 0))))))))

unfoldable pub cluster_frame_of : Bytes → ClusterFrame
cluster_frame_of d = record {
  magic = of_be (take 2 d);
  version = of_be (take 2 (drop 2 d));
  opcode = of_be (take 2 (drop 4 d));
  flags = of_be (take 2 (drop 6 d));
  key_len = of_be (take 4 (drop 8 d));
  value_len = of_be (take 4 (drop 12 d));
  timestamp = of_be (take 8 (drop 16 d));
  node_id = of_be (take 8 (drop 24 d));
  expire_at = of_be (take 8 (drop 32 d));
  cluster_id = of_be (take 4 (drop 40 d));
}

-- The identity of a cluster, of its name; 0 without a name.
unfoldable pub cluster_id_of : Bytes → ℕ
cluster_id_of [] = 0
cluster_id_of (b ∷ bs) = dmmr_fnv1a_32 (b ∷ bs)

-- A further part of a frame, if it has bytes.
unfoldable pub send_part : ℕ → Option Bytes → Bool × Bytes × List Send → Bool × Bytes × List Send
send_part n p (false, out, rest) = (false, out, rest)
send_part n p (true, out, rest) =
    if ltb 0 n then sent_more out (send_full (take n (bytes_at p)) rest) else (true, out, rest)

-- Whether it returns 0, what is sent, and the events left.
unfoldable pub cluster_send_frame :
    Bytes
    → ℕ
    → ℕ
    → Option Bytes
    → ℕ
    → Option Bytes
    → ℕ
    → ℕ
    → ℕ
    → ℕ
    → List Send
    → Bool × Bytes × List Send
cluster_send_frame cluster_name opcode flags key key_len value value_len timestamp node_id expire_at
      sends =
    let frame : ClusterFrame = record {
      magic = dmmr_magic;
      version = dmmr_cluster_version;
      opcode = opcode;
      flags = flags;
      key_len = key_len;
      value_len = value_len;
      timestamp = timestamp;
      node_id = node_id;
      expire_at = expire_at;
      cluster_id = cluster_id_of cluster_name;
    } in
    if (ltb max_key_len key_len || ltb max_value_len value_len)
      || ((ltb 0 key_len && is_null key) || (ltb 0 value_len && is_null value))
    then (false, [], sends)
    else send_part value_len value (send_part key_len key (send_full (write_frame frame) sends))

-- A frame with its payload, which is NULL when it has no bytes; `none` for -1.
abbrev pub Received : Type 0
Received = Option (ClusterFrame × Option Bytes) × List Recv

unfoldable pub receive_payload : ClusterFrame → ℕ → Option Bytes × List Recv → Received
receive_payload frame total (none, s) = (none, s)
receive_payload frame total (some bs, s) =
    if length bs == total then (some (frame, some bs), s) else (none, s)

unfoldable pub receive_rest : (ℕ → Bool) → Bytes → Option Bytes × List Recv → Received
receive_rest malloc prefix (none, s) = (none, s)
receive_rest malloc prefix (some bs, s) =
    let frame = cluster_frame_of (prefix ++ bs) in
    let total_len = frame.key_len + frame.value_len in
    if not (length bs == 44)
    then (none, s)
    else if ltb max_key_len frame.key_len || ltb max_value_len frame.value_len
    then (none, s)
    else if total_len == 0
    then (some (frame, none), s)
    else if not (malloc total_len)
    then (none, s)
    else receive_payload frame total_len (recv_full total_len s)

unfoldable pub receive_prefix : (ℕ → Bool) → Option Bytes × List Recv → Received
receive_prefix malloc (none, s) = (none, s)
receive_prefix malloc (some prefix, s) =
    if not (length prefix == 4)
    then (none, s)
    else if not (of_be (take 2 prefix) == dmmr_magic)
        || not (of_be (take 2 (drop 2 prefix)) == dmmr_cluster_version)
    then (none, s)
    else receive_rest malloc prefix (recv_full 44 s)

unfoldable pub cluster_recv_frame : (ℕ → Bool) → List Recv → Received
cluster_recv_frame malloc s = receive_prefix malloc (recv_full 4 s)
