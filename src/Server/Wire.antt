-- ===== src/Server/Wire.antt =====
-- recv_full of dmmr_net.c and read_frame of dmmr_server.c on a stream of bytes: how recv cuts the
-- stream does not matter, and a frame that a client writes is read back.
use http_dmmr_nginx.Base.{
  ℕ, zero, suc, ◌≡◌, ◌+◌, ◌-◌, ◌^◌, ◌<◌, ◌≤◌, refl, sym, ap, ◌∙◌, Bool, true, false, List, [], ◌∷◌,
  ◌++◌, Option, none, some, arith, All, Bytes, length, ltb, ◌==◌, Bool-cases, inl, inr, take, drop,
  of_be, be, of_be-be, take_prefix, drop_prefix, append_assoc, take-append_short, take-append_long,
  drop-append_short, drop-append_long, length-drop,
}
use http_dmmr_nginx.Config.{max_key_len, max_value_len, dmmr_magic, dmmr_version}
use http_dmmr_nginx.Server.Net.{Recv, arrived, recv_eintr, recv_failed, recv_full, with_more}
use http_dmmr_nginx.Server.Frame.{
  DmmrFrame, frame_of, Read, framed, read_frame, read_prefix, read_header, read_payload,
}

-- The bytes of a stream.
unfoldable pub joined : List Recv → Bytes
joined [] = []
joined (arrived c ∷ rest) = c ++ joined rest
joined (recv_eintr ∷ rest) = joined rest
joined (recv_failed ∷ rest) = joined rest

-- An event that brings bytes, or a signal.
unfoldable pub IsAlive : Recv → Type 0
IsAlive (arrived c) = 0 < length c
IsAlive recv_eintr = Unit
IsAlive recv_failed = 0 < 0

abbrev pub AreAlive : List Recv → Type 0
AreAlive = All IsAlive

-- What recv_full leaves of a stream: the bytes it gives, and the stream behind them.
abbrev pub Takes : Option Bytes × List Recv → Option Bytes → Bytes → Type 0
Takes r bs rest = (r.0 ≡ bs) × (joined r.1 ≡ rest) × AreAlive r.1

with_more-Takes :
    (c : Bytes) (r : Option Bytes × List Recv) (bs rest : Bytes)
    → Takes r (some bs) rest
    → Takes (with_more c r) (some (c ++ bs)) rest
with_more-Takes c (none, s) bs rest h = absurd cc
with_more-Takes c (some xs, s) bs rest h = let same : xs ≡ bs = cc in rw same (refl, h.1, h.2)

pub recv_full_lem :
    (n : ℕ) (s : List Recv)
    → AreAlive s
    → Takes (recv_full n s) (some (take n (joined s))) (drop n (joined s))
unfolding recv_full joined IsAlive
recv_full_lem zero [] h = (refl, refl, tt)
recv_full_lem (suc n) [] h = (refl, refl, tt)
recv_full_lem n (recv_failed ∷ rest) h = absurd (omega (arith, h.0))
recv_full_lem zero (recv_eintr ∷ rest) h = (refl, refl, h)
recv_full_lem (suc n) (recv_eintr ∷ rest) h =
    let wanted : (suc n == 0) ≡ false = ground arith in rw wanted (recv_full_lem (suc n) rest h.1)
recv_full_lem zero (arrived c ∷ rest) h = (refl, refl, h)
recv_full_lem (suc n) (arrived c ∷ rest) h = elim (Bool-cases (ltb (suc n) (length c))) [
  | inl cut ↦
      let wanted : (suc n == 0) ≡ false = ground arith in
      let some_of_it : (length c == 0) ≡ false = ground (arith, h.0) in
      rw (wanted, some_of_it, cut)
        (
          ap some (sym (take-append_short (suc n) c (joined rest) (ground arith))),
          sym (drop-append_short (suc n) c (joined rest) (ground arith)),
          (ground (arith, length-drop (suc n) c), h.1),
        )
  | inr whole ↦
      let wanted : (suc n == 0) ≡ false = ground arith in
      let some_of_it : (length c == 0) ≡ false = ground (arith, h.0) in
      rw
        (
          wanted,
          some_of_it,
          whole,
          take-append_long (suc n) c (joined rest) (ground arith),
          drop-append_long (suc n) c (joined rest) (ground arith),
        )
        (with_more-Takes c (recv_full (suc n - length c) rest)
          (take (suc n - length c) (joined rest)) (drop (suc n - length c) (joined rest))
          (recv_full_lem (suc n - length c) rest h.1))
]

-- recv_full takes a piece off the front of a stream.
pub recv_full_piece :
    (n : ℕ) (s : List Recv) (piece rest : Bytes)
    → AreAlive s
    → joined s ≡ piece ++ rest
    → length piece ≡ n
    → Takes (recv_full n s) (some piece) rest
recv_full_piece n s piece rest h e l =
    let r = recv_full_lem n s h in
    (
      r.0 ∙ ap some (ap (take n) e ∙ take_prefix n piece rest l),
      r.1 ∙ (ap (drop n) e ∙ drop_prefix n piece rest l),
      r.2,
    )

-- A header whose fields fit their widths.
pub record IsFrame (f : DmmrFrame) : Type 0 where
  pub magic_right : f.magic ≡ dmmr_magic
  pub version_right : f.version ≡ dmmr_version
  pub opcode_fits : f.opcode < 2 ^ 16
  pub flags_fits : f.flags < 2 ^ 16
  pub key_len_fits : f.key_len ≤ max_key_len
  pub value_len_fits : f.value_len ≤ max_value_len
  pub timestamp_fits : f.timestamp < 2 ^ 64

-- A header whose lengths fit their widths, and may be beyond the bounds.
pub record IsHeader (f : DmmrFrame) : Type 0 where
  pub magic_right : f.magic ≡ dmmr_magic
  pub version_right : f.version ≡ dmmr_version
  pub opcode_fits : f.opcode < 2 ^ 16
  pub flags_fits : f.flags < 2 ^ 16
  pub key_len_fits : f.key_len < 2 ^ 32
  pub value_len_fits : f.value_len < 2 ^ 32
  pub timestamp_fits : f.timestamp < 2 ^ 64

IsFrame-IsHeader : (f : DmmrFrame) → IsFrame f → IsHeader f
IsFrame-IsHeader f v = record {
  magic_right = v.magic_right;
  version_right = v.version_right;
  opcode_fits = v.opcode_fits;
  flags_fits = v.flags_fits;
  key_len_fits = ground (arith, v.key_len_fits);
  value_len_fits = ground (arith, v.value_len_fits);
  timestamp_fits = v.timestamp_fits;
}

abbrev pub front_of : DmmrFrame → Bytes
front_of f = be 2 f.magic ++ be 2 f.version

abbrev pub back_of : DmmrFrame → Bytes
back_of f =
    be 2 f.opcode ++ (be 2 f.flags ++ (be 4 f.key_len ++ (be 4 f.value_len ++ be 8 f.timestamp)))

-- A header as it is on the wire.
abbrev pub header_bytes : DmmrFrame → Bytes
header_bytes f = front_of f ++ back_of f

pub frame_of-header_bytes : (f : DmmrFrame) → IsHeader f → frame_of (header_bytes f) ≡ f
unfolding frame_of be
frame_of-header_bytes f v =
    let magic : of_be (be 2 f.magic) ≡ f.magic =
      of_be-be 2 f.magic (ground (arith, v.magic_right)) in
    let version : of_be (be 2 f.version) ≡ f.version =
      of_be-be 2 f.version (ground (arith, v.version_right)) in
    let opcode : of_be (be 2 f.opcode) ≡ f.opcode =
      of_be-be 2 f.opcode (ground (arith, v.opcode_fits)) in
    let flags : of_be (be 2 f.flags) ≡ f.flags =
      of_be-be 2 f.flags (ground (arith, v.flags_fits)) in
    let key_len : of_be (be 4 f.key_len) ≡ f.key_len =
      of_be-be 4 f.key_len (ground (arith, v.key_len_fits)) in
    let value_len : of_be (be 4 f.value_len) ≡ f.value_len =
      of_be-be 4 f.value_len (ground (arith, v.value_len_fits)) in
    let timestamp : of_be (be 8 f.timestamp) ≡ f.timestamp =
      of_be-be 8 f.timestamp (ground (arith, v.timestamp_fits)) in
    λ i. record {
      magic = magic i;
      version = version i;
      opcode = opcode i;
      flags = flags i;
      key_len = key_len i;
      value_len = value_len i;
      timestamp = timestamp i;
    }

pub length-back_of : (f : DmmrFrame) → length (back_of f) ≡ 20
unfolding be
length-back_of f = refl

pub front_length : (f : DmmrFrame) → length (front_of f) ≡ 4
unfolding be
front_length f = refl

pub front_of_lem :
    (f : DmmrFrame)
    → IsHeader f
    → ((length (front_of f) == 4) ≡ true)
      × ((of_be (take 2 (front_of f)) == dmmr_magic) ≡ true)
      × ((of_be (take 2 (drop 2 (front_of f))) == dmmr_version) ≡ true)
unfolding be
front_of_lem f v =
    let magic : of_be (be 2 f.magic) ≡ f.magic =
      of_be-be 2 f.magic (ground (arith, v.magic_right)) in
    let version : of_be (be 2 f.version) ≡ f.version =
      of_be-be 2 f.version (ground (arith, v.version_right)) in
    (refl, rw magic (ground (arith, v.magic_right)), rw version (ground (arith, v.version_right)))

-- What read_frame returns, and the stream it leaves.
abbrev pub Gives : Read × List Recv → Read → Bytes → Type 0
Gives r read rest = (r.0 ≡ read) × (joined r.1 ≡ rest) × AreAlive r.1

read_payload-Gives :
    (give : Option Bytes → Read) (n : ℕ) (x : Option Bytes × List Recv) (p rest : Bytes)
    → Takes x (some p) rest
    → length p ≡ n
    → Gives (read_payload give n x) (give (some p)) rest
unfolding read_payload
read_payload-Gives give n (none, s) p rest h l = absurd cc
read_payload-Gives give n (some bs, s) p rest h l =
    let same : bs ≡ p = cc in
    let whole : (length p == n) ≡ true = ground (arith, l) in rw (same, whole) (refl, h.1, h.2)

module _ (payload_buf : ℕ → Bool) (f : DmmrFrame) (p rest : Bytes) (v : IsFrame f)
    (filled : length p ≡ f.key_len + f.value_len) (some_key : 0 < f.key_len)
    (served : payload_buf (f.key_len + f.value_len) ≡ true) where
  read_header-Gives :
      (x : Option Bytes × List Recv)
      → Takes x (some (back_of f)) (p ++ rest)
      → Gives (read_header payload_buf (front_of f) x) (framed f (some p)) rest
  unfolding read_header
  read_header-Gives (none, s) h = absurd cc
  read_header-Gives (some bs, s) h =
      let same : bs ≡ back_of f = cc in
      let long : (length (back_of f) == 20) ≡ true = ground (arith, length-back_of f) in
      let magic : (f.magic == dmmr_magic) ≡ true = ground (arith, v.magic_right) in
      let version : (f.version == dmmr_version) ≡ true = ground (arith, v.version_right) in
      let key : ltb max_key_len f.key_len ≡ false = ground (arith, v.key_len_fits) in
      let value : ltb max_value_len f.value_len ≡ false = ground (arith, v.value_len_fits) in
      let total : (f.key_len + f.value_len == 0) ≡ false = ground (arith, some_key) in
      rw
        (
          same,
          frame_of-header_bytes f (IsFrame-IsHeader f v),
          long,
          magic,
          version,
          key,
          value,
          total,
          served,
        )
        (read_payload-Gives (framed f) (f.key_len + f.value_len)
          (recv_full (f.key_len + f.value_len) s) p rest
          (recv_full_piece (f.key_len + f.value_len) s p rest h.2 h.1 filled) filled)

  read_prefix-Gives :
      (x : Option Bytes × List Recv)
      → Takes x (some (front_of f)) (back_of f ++ (p ++ rest))
      → Gives (read_prefix payload_buf x) (framed f (some p)) rest
  unfolding read_prefix
  read_prefix-Gives (none, s) h = absurd cc
  read_prefix-Gives (some bs, s) h =
      let same : bs ≡ front_of f = cc in
      let front = front_of_lem f (IsFrame-IsHeader f v) in
      rw (same, front.0, front.1, front.2)
        (read_header-Gives (recv_full 20 s)
          (recv_full_piece 20 s (back_of f) (p ++ rest) h.2 h.1 (length-back_of f)))

  -- A frame with a key of 1 to 1024 bytes and a value of at most 1 MiB that is in front of a stream is
  -- read whole, with its payload, when get_payload_buf gives a buffer for it, and what is behind it is
  -- left in the stream, however recv cuts the stream.
  pub read_frame-header_bytes :
      (s : List Recv)
      → AreAlive s
      → joined s ≡ header_bytes f ++ (p ++ rest)
      → Gives (read_frame payload_buf s) (framed f (some p)) rest
  unfolding read_frame
  read_frame-header_bytes s h e = read_prefix-Gives (recv_full 4 s) (
      recv_full_piece 4 s (front_of f) (back_of f ++ (p ++ rest)) h
        (e ∙ append_assoc (front_of f) (back_of f) (p ++ rest)) (front_length f))
