-- ===== src/Server/Frame.antt =====
-- struct dmmr_frame (dmmr_protocol.h) and read_frame (dmmr_server.c).
use http_dmmr_nginx.Base.{
  ℕ, ◌+◌, Bool, not, ◌&&◌, ◌||◌, List, ◌++◌, Option, none, some, if◌then◌else◌, Bytes, length, take,
  drop, of_be, ltb, ◌==◌,
}
use http_dmmr_nginx.Config.{max_key_len, max_value_len, dmmr_magic, dmmr_version}
use http_dmmr_nginx.Config.Op
use http_dmmr_nginx.Server.Net.{Recv, recv_full}

pub record DmmrFrame : Type 0 where
  pub magic : ℕ
  pub version : ℕ
  pub opcode : ℕ
  pub flags : ℕ
  pub key_len : ℕ
  pub value_len : ℕ
  pub timestamp : ℕ

-- The 24 bytes of a header, each field in network order.
unfoldable pub frame_of : Bytes → DmmrFrame
frame_of d = record {
  magic = of_be (take 2 d);
  version = of_be (take 2 (drop 2 d));
  opcode = of_be (take 2 (drop 4 d));
  flags = of_be (take 2 (drop 6 d));
  key_len = of_be (take 4 (drop 8 d));
  value_len = of_be (take 4 (drop 12 d));
  timestamp = of_be (take 8 (drop 16 d));
}

-- What read_frame returns: a negative code, a frame or a legacy request, with the payload, which is
-- NULL when none is read.
pub data Read : Type 0 where
  refused : ℕ → Read
  framed : DmmrFrame → Option Bytes → Read
  legacy : ℕ → ℕ → Option Bytes → Read

-- The payload of `total` bytes, once it is received.
unfoldable pub read_payload :
    (Option Bytes → Read) → ℕ → Option Bytes × List Recv → Read × List Recv
read_payload give total (none, s) = (refused 5, s)
read_payload give total (some bs, s) =
    if length bs == total then (give (some bs), s) else (refused 5, s)

-- From the other 20 bytes of a header on.
unfoldable pub read_header : (ℕ → Bool) → Bytes → Option Bytes × List Recv → Read × List Recv
read_header payload_buf prefix (none, s) = (refused 1, s)
read_header payload_buf prefix (some bs, s) =
    let frame = frame_of (prefix ++ bs) in
    let total = frame.key_len + frame.value_len in
    if not (length bs == 20)
    then (refused 1, s)
    else if not (frame.magic == dmmr_magic) || not (frame.version == dmmr_version)
    then (refused 2, s)
    else if ltb max_key_len frame.key_len || ltb max_value_len frame.value_len
    then (refused 3, s)
    else if total == 0
    then (framed frame none, s)
    else if not (payload_buf total)
    then (refused 4, s)
    else read_payload (framed frame) total (recv_full total s)

unfoldable pub read_legacy : (ℕ → Bool) → ℕ → ℕ → List Recv → Read × List Recv
read_legacy payload_buf opcode key_len s =
    if not (opcode == Op.get) || (key_len == 0)
    then (legacy opcode key_len none, s)
    else if not (payload_buf key_len)
    then (refused 4, s)
    else read_payload (legacy opcode key_len) key_len (recv_full key_len s)

-- From the first four bytes on.
unfoldable pub read_prefix : (ℕ → Bool) → Option Bytes × List Recv → Read × List Recv
read_prefix payload_buf (none, s) = (refused 1, s)
read_prefix payload_buf (some prefix, s) =
    let magic = of_be (take 2 prefix) in
    let version = of_be (take 2 (drop 2 prefix)) in
    if not (length prefix == 4)
    then (refused 1, s)
    else if (magic == dmmr_magic) && (version == dmmr_version)
    then read_header payload_buf prefix (recv_full 20 s)
    else read_legacy payload_buf magic version s

-- `payload_buf n` says whether get_payload_buf gives a buffer of n bytes.
unfoldable pub read_frame : (ℕ → Bool) → List Recv → Read × List Recv
read_frame payload_buf s = read_prefix payload_buf (recv_full 4 s)
