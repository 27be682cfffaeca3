-- ===== src/Cluster/Transport.antt =====
-- A frame that cluster_send_frame of dmmr_cluster.c sends, received by cluster_recv_frame.
use http_dmmr_nginx.Base.{
  ℕ, ◌≡◌, ◌+◌, ◌^◌, ◌<◌, ◌≤◌, refl, ap, ◌∙◌, true, false, ◌&&◌, List, [], ◌∷◌, ◌++◌, Option, none,
  some, arith, if◌then◌else◌, Bool, not, Bytes, length, ltb, ◌==◌, take, drop, be, of_be,
  of_be_from, of_be-be, replicate, append_assoc, append-nil, length-append, take-length, ◌%◌, ◌*◌,
}
use http_dmmr_nginx.Config.{max_key_len, max_value_len, dmmr_magic, dmmr_cluster_version}
use http_dmmr_nginx.Db.Converge.{pointer}
use http_dmmr_nginx.Db.Ops.{is_null}
use Prim.Native.Nat.{bit_xor}
use http_dmmr_nginx.Cluster.Wire.{
  ClusterFrame, write_frame, cluster_frame_of, fnv1a_from, cluster_id_of, send_part,
  cluster_send_frame, Received, receive_payload, receive_rest, receive_prefix, cluster_recv_frame,
}
use http_dmmr_nginx.Server.Net.{Recv, recv_full, send_full}
use http_dmmr_nginx.Server.Wire.{joined, AreAlive, Takes, recv_full_piece}

-- A frame with its key and value.
pub record Message : Type 0 where
  pub opcode : ℕ
  pub flags : ℕ
  pub key : Bytes
  pub value : Bytes
  pub timestamp : ℕ
  pub node_id : ℕ
  pub expire_at : ℕ

pub record IsMessage (m : Message) : Type 0 where
  pub opcode_fits : m.opcode < 2 ^ 16
  pub flags_fits : m.flags < 2 ^ 16
  pub key_fits : length m.key ≤ max_key_len
  pub value_fits : length m.value ≤ max_value_len
  pub timestamp_fits : m.timestamp < 2 ^ 64
  pub node_id_fits : m.node_id < 2 ^ 64
  pub expire_at_fits : m.expire_at < 2 ^ 64

module _ (cluster_name : Bytes) where
  abbrev pub header_for : Message → ClusterFrame
  header_for m = record {
    magic = dmmr_magic;
    version = dmmr_cluster_version;
    opcode = m.opcode;
    flags = m.flags;
    key_len = length m.key;
    value_len = length m.value;
    timestamp = m.timestamp;
    node_id = m.node_id;
    expire_at = m.expire_at;
    cluster_id = cluster_id_of cluster_name;
  }

  -- The message as it is on the wire.
  abbrev pub message_bytes : Message → Bytes
  message_bytes m = write_frame (header_for m) ++ (m.key ++ m.value)

  abbrev front : ClusterFrame → Bytes
  front f = be 2 f.magic ++ be 2 f.version

  abbrev back : ClusterFrame → Bytes
  back f =
      be 2 f.opcode
      ++ (be 2 f.flags
          ++ (be 4 f.key_len
              ++ (be 4 f.value_len
                  ++ (be 8 f.timestamp
                      ++ (be 8 f.node_id
                          ++ (be 8 f.expire_at ++ (be 4 f.cluster_id ++ replicate 4 0)))))))

  send_part-pointer :
      (v out : Bytes) → send_part (length v) (pointer v) (true, out, []) ≡ (true, out ++ v, [])
  unfolding send_part send_full
  send_part-pointer [] out = rw (append-nil out) refl
  send_part-pointer (x ∷ xs) out =
      let full : ltb 0 (length (x ∷ xs)) ≡ true = ground arith in
      rw (full, take-length (x ∷ xs)) refl

  null_of : (v : Bytes) → (ltb 0 (length v) && is_null (pointer v)) ≡ false
  null_of [] = refl
  null_of (x ∷ xs) = ground arith

  -- A send that takes all it is given sends the message.
  pub cluster_send_frame-message_bytes :
      (m : Message)
      → IsMessage m
      → cluster_send_frame cluster_name m.opcode m.flags
          (pointer m.key)
          (length m.key)
          (pointer m.value)
          (length m.value)
          m.timestamp
          m.node_id
          m.expire_at
          []
        ≡ (true, message_bytes m, [])
  unfolding cluster_send_frame send_full
  cluster_send_frame-message_bytes m v =
      let long_key : ltb max_key_len (length m.key) ≡ false = ground (arith, v.key_fits) in
      let long_value : ltb max_value_len (length m.value) ≡ false = ground (arith, v.value_fits) in
      rw (long_key, long_value, null_of m.key, null_of m.value)
        (ap
            (λ x.
              send_part (length m.value) (pointer m.value)
                (send_part (length m.key) (pointer m.key) x))
            (sent (write_frame (header_for m)))
          ∙ (ap (λ x. send_part (length m.value) (pointer m.value) x)
                (send_part-pointer m.key (write_frame (header_for m)))
              ∙ (send_part-pointer m.value (write_frame (header_for m) ++ m.key)
                  ∙ rw (append_assoc (write_frame (header_for m)) m.key m.value) refl)))
    where
      sent : (bs : Bytes) → send_full bs [] ≡ (true, bs, [])
      sent bs = refl

  fnv1a_from_bound : (hash : ℕ) (bs : Bytes) → hash < 2 ^ 32 → fnv1a_from hash bs < 2 ^ 32
  unfolding fnv1a_from
  fnv1a_from_bound hash [] h = h
  fnv1a_from_bound hash (b ∷ bs) h =
      fnv1a_from_bound (bit_xor hash b * 16777619 % 2 ^ 32) bs (omega arith)

  cluster_id_of_bound : (name : Bytes) → cluster_id_of name < 2 ^ 32
  unfolding cluster_id_of
  cluster_id_of_bound [] = omega arith
  cluster_id_of_bound (b ∷ bs) = fnv1a_from_bound 2166136261 (b ∷ bs) (omega arith)

  cluster_frame_of-write_frame :
      (m : Message)
      → IsMessage m
      → cluster_frame_of (front (header_for m) ++ back (header_for m)) ≡ header_for m
  unfolding cluster_frame_of be of_be_from
  cluster_frame_of-write_frame m v =
      let id = cluster_id_of cluster_name in
      let opcode : of_be (be 2 m.opcode) ≡ m.opcode =
        of_be-be 2 m.opcode (ground (arith, v.opcode_fits)) in
      let flags : of_be (be 2 m.flags) ≡ m.flags =
        of_be-be 2 m.flags (ground (arith, v.flags_fits)) in
      let key_len : of_be (be 4 (length m.key)) ≡ length m.key =
        of_be-be 4 (length m.key) (ground (arith, v.key_fits)) in
      let value_len : of_be (be 4 (length m.value)) ≡ length m.value =
        of_be-be 4 (length m.value) (ground (arith, v.value_fits)) in
      let timestamp : of_be (be 8 m.timestamp) ≡ m.timestamp =
        of_be-be 8 m.timestamp (ground (arith, v.timestamp_fits)) in
      let node_id : of_be (be 8 m.node_id) ≡ m.node_id =
        of_be-be 8 m.node_id (ground (arith, v.node_id_fits)) in
      let expire_at : of_be (be 8 m.expire_at) ≡ m.expire_at =
        of_be-be 8 m.expire_at (ground (arith, v.expire_at_fits)) in
      let cluster_id : of_be (be 4 id) ≡ id =
        of_be-be 4 id (ground (arith, cluster_id_of_bound cluster_name)) in
      λ i. record {
        magic = dmmr_magic;
        version = dmmr_cluster_version;
        opcode = opcode i;
        flags = flags i;
        key_len = key_len i;
        value_len = value_len i;
        timestamp = timestamp i;
        node_id = node_id i;
        expire_at = expire_at i;
        cluster_id = cluster_id i;
      }

  length-back : (f : ClusterFrame) → length (back f) ≡ 44
  unfolding be
  length-back f = refl

  length-front : (f : ClusterFrame) → length (front f) ≡ 4
  unfolding be
  length-front f = refl

  front_lem :
      (m : Message)
      → ((of_be (take 2 (front (header_for m))) == dmmr_magic) ≡ true)
        × ((of_be (take 2 (drop 2 (front (header_for m)))) == dmmr_cluster_version) ≡ true)
  unfolding be
  front_lem m =
      let magic : of_be (be 2 dmmr_magic) ≡ dmmr_magic = of_be-be 2 dmmr_magic (omega arith) in
      let version : of_be (be 2 dmmr_cluster_version) ≡ dmmr_cluster_version =
        of_be-be 2 dmmr_cluster_version (omega arith) in
      (rw magic refl, rw version refl)

  -- What is received, and the stream that is left.
  abbrev pub Delivers : Received → ClusterFrame → Option Bytes → Bytes → Type 0
  Delivers r f p rest = (r.0 ≡ some (f, p)) × (joined r.1 ≡ rest) × AreAlive r.1

  receive_payload-Delivers :
      (f : ClusterFrame) (n : ℕ) (x : Option Bytes × List Recv) (p rest : Bytes)
      → Takes x (some p) rest
      → length p ≡ n
      → Delivers (receive_payload f n x) f (some p) rest
  unfolding receive_payload
  receive_payload-Delivers f n (none, s) p rest h l = absurd cc
  receive_payload-Delivers f n (some bs, s) p rest h l =
      let same : bs ≡ p = cc in
      let whole : (length p == n) ≡ true = ground (arith, l) in rw (same, whole) (refl, h.1, h.2)

  module _ (malloc : ℕ → Bool) (m : Message) (v : IsMessage m) (rest : Bytes)
      (memory : (n : ℕ) → malloc n ≡ true) where
    receive_rest-Delivers :
        (x : Option Bytes × List Recv)
        → Takes x (some (back (header_for m))) ((m.key ++ m.value) ++ rest)
        → Delivers
            (receive_rest malloc (front (header_for m)) x)
            (header_for m)
            (pointer (m.key ++ m.value))
            rest
    unfolding receive_rest
    receive_rest-Delivers (none, s) h = absurd cc
    receive_rest-Delivers (some bs, s) h =
        let same : bs ≡ back (header_for m) = cc in
        let long : (length (back (header_for m)) == 44) ≡ true =
          ground (arith, length-back (header_for m)) in
        let key : ltb max_key_len (length m.key) ≡ false = ground (arith, v.key_fits) in
        let value : ltb max_value_len (length m.value) ≡ false = ground (arith, v.value_fits) in
        rw (same, cluster_frame_of-write_frame m v, long, key, value)
          (payload (m.key ++ m.value) (length-append m.key m.value) h.1)
      where
        payload :
            (p : Bytes)
            → length p ≡ length m.key + length m.value
            → joined s ≡ p ++ rest
            → Delivers
                (if length m.key + length m.value == 0
                  then (some (header_for m, none), s)
                  else if not (malloc (length m.key + length m.value))
                  then (none, s)
                  else receive_payload
                      (header_for m)
                      (length m.key + length m.value)
                      (recv_full (length m.key + length m.value) s))
                (header_for m)
                (pointer p)
                rest
        payload [] l e =
            let total : (length m.key + length m.value == 0) ≡ true = ground (arith, l) in
            rw total (refl, e, h.2)
        payload (b ∷ p) l e =
            let total : (length m.key + length m.value == 0) ≡ false = ground (arith, l) in
            rw (total, memory (length m.key + length m.value))
              (receive_payload-Delivers (header_for m) (length m.key + length m.value)
                (recv_full (length m.key + length m.value) s) (b ∷ p) rest
                (recv_full_piece (length m.key + length m.value) s (b ∷ p) rest h.2 e l) l)

    receive_prefix-Delivers :
        (x : Option Bytes × List Recv)
        → Takes x
            (some (front (header_for m)))
            (back (header_for m) ++ ((m.key ++ m.value) ++ rest))
        → Delivers (receive_prefix malloc x) (header_for m) (pointer (m.key ++ m.value)) rest
    unfolding receive_prefix
    receive_prefix-Delivers (none, s) h = absurd cc
    receive_prefix-Delivers (some bs, s) h =
        let same : bs ≡ front (header_for m) = cc in
        let long : (length (front (header_for m)) == 4) ≡ true =
          ground (arith, length-front (header_for m)) in
        let ours = front_lem m in
        rw (same, long, ours.0, ours.1)
          (receive_rest-Delivers (recv_full 44 s) (
            recv_full_piece 44 s (back (header_for m)) ((m.key ++ m.value) ++ rest) h.2 h.1
              (length-back (header_for m))))

    -- A message at the front of a stream is received whole, with its payload, and the stream goes on
    -- behind it, however recv cuts it.
    pub cluster_recv_frame-message_bytes :
        (s : List Recv)
        → AreAlive s
        → joined s ≡ message_bytes m ++ rest
        → Delivers (cluster_recv_frame malloc s) (header_for m) (pointer (m.key ++ m.value)) rest
    unfolding cluster_recv_frame write_frame
    cluster_recv_frame-message_bytes s h e = receive_prefix-Delivers (recv_full 4 s) (
        recv_full_piece 4 s (front (header_for m))
          (back (header_for m) ++ ((m.key ++ m.value) ++ rest)) h
          (e
            ∙ (append_assoc (front (header_for m) ++ back (header_for m)) (m.key ++ m.value) rest
                ∙ append_assoc (front (header_for m)) (back (header_for m))
                    ((m.key ++ m.value) ++ rest)))
          (length-front (header_for m)))
