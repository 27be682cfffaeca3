-- ===== src/Server/Refused.antt =====
-- A frame with a key that is too long, in read_frame and handle_client of dmmr_server.c.
use http_dmmr_nginx.Base.{
  ℕ, zero, suc, ◌≡◌, ◌<◌, refl, ◌∙◌, Bool, true, List, ◌++◌, Option, none, some, arith, Bytes,
  length, ltb, ◌==◌, append_assoc,
}
use http_dmmr_nginx.Config.{max_key_len, dmmr_magic, dmmr_version}
use http_dmmr_nginx.Db.Ops.{BerkeleyDb}
use http_dmmr_nginx.Server.Client.{Client, closed, turn_of, turn, handle_client}
use http_dmmr_nginx.Server.Frame.{DmmrFrame, Read, refused, read_frame, read_prefix, read_header}
use http_dmmr_nginx.Server.Net.{Recv, recv_full}
use http_dmmr_nginx.Server.Request.{Env}
use http_dmmr_nginx.Server.Wire.{
  joined, AreAlive, Takes, IsHeader, header_bytes, front_of, back_of, frame_of-header_bytes,
  front_of_lem, front_length, length-back_of, recv_full_piece,
}

module _ (payload_buf : ℕ → Bool) (f : DmmrFrame) (rest : Bytes) (v : IsHeader f)
    (long_key : max_key_len < f.key_len) where
  read_header-refused :
      (x : Option Bytes × List Recv)
      → Takes x (some (back_of f)) rest
      → (read_header payload_buf (front_of f) x).0 ≡ refused 3
  unfolding read_header
  read_header-refused (none, s) h = absurd cc
  read_header-refused (some bs, s) h =
      let same : bs ≡ back_of f = cc in
      let long : (length (back_of f) == 20) ≡ true = ground (arith, length-back_of f) in
      let magic : (f.magic == dmmr_magic) ≡ true = ground (arith, v.magic_right) in
      let version : (f.version == dmmr_version) ≡ true = ground (arith, v.version_right) in
      let key : ltb max_key_len f.key_len ≡ true = ground (arith, long_key) in
      rw (same, frame_of-header_bytes f v, long, magic, version, key) refl

  read_prefix-refused :
      (x : Option Bytes × List Recv)
      → Takes x (some (front_of f)) (back_of f ++ rest)
      → (read_prefix payload_buf x).0 ≡ refused 3
  unfolding read_prefix
  read_prefix-refused (none, s) h = absurd cc
  read_prefix-refused (some bs, s) h =
      let same : bs ≡ front_of f = cc in
      let front = front_of_lem f v in
      rw (same, front.0, front.1, front.2)
        (read_header-refused (recv_full 20 s)
          (recv_full_piece 20 s (back_of f) rest h.2 h.1 (length-back_of f)))

  read_frame-refused :
      (s : List Recv)
      → AreAlive s
      → joined s ≡ header_bytes f ++ rest
      → (read_frame payload_buf s).0 ≡ refused 3
  unfolding read_frame
  read_frame-refused s h e = read_prefix-refused (recv_full 4 s) (
      recv_full_piece 4 s (front_of f) (back_of f ++ rest) h
        (e ∙ append_assoc (front_of f) (back_of f) rest) (front_length f))

module _ (bdb : BerkeleyDb) (my_node_id : ℕ) where
  turn_of-refused :
      (env : Env) (c : Client bdb.State) (code : ℕ) (r : Read × List Recv)
      → r.0 ≡ refused code
      → turn_of bdb my_node_id env c r ≡ closed (record c { incoming = r.1 })
  unfolding turn_of
  turn_of-refused env c code (read, left) h = rw h refl

  -- The connection is closed, and nothing is sent for the frame.
  pub handle_client-refused :
      (fuel : ℕ) (env : ℕ → Env) (c : Client bdb.State) (f : DmmrFrame) (rest : Bytes)
      → IsHeader f
      → max_key_len < f.key_len
      → AreAlive c.incoming
      → joined c.incoming ≡ header_bytes f ++ rest
      → 0 < fuel
      → (left : List Recv) × (handle_client bdb my_node_id fuel env c
          ≡ closed (record c { incoming = left }))
  unfolding handle_client turn
  handle_client-refused zero env c f rest v long_key h e l = absurd (omega (arith, l))
  handle_client-refused (suc n) env c f rest v long_key h e l =
      let r = read_frame (env 0).payload_buf c.incoming in
      (
        r.1,
        rw
            (
              handle_client,
              turn_of-refused (env 0) c 3 r
                  (read_frame-refused (env 0).payload_buf f rest v long_key c.incoming h e),
            )
            refl,
      )
