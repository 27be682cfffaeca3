-- ===== src/Cluster/Handshake.antt =====
-- The handshake of dmmr_cluster.c: hmac_sha256, compute_auth_hmac, cluster_handshake_client, and the
-- answer to AUTH_REQUEST in handle_cluster_connection. `sha256` is the hash of all the bytes that are
-- given to a context of sha256.c, a parameter. Numbers lie in memory as on a little-endian machine.
use http_dmmr_nginx.Base.{
  ℕ, ◌+◌, ◌-◌, ◌%◌, ◌^◌, Bool, true, false, not, ◌||◌, List, [], ◌∷◌, ◌++◌, Option, none, some,
  if◌then◌else◌, Bytes, bytes_eq, length, take, drop, replicate, be, le, of_be, ltb, ◌==◌,
}
use http_dmmr_nginx.Config.{auth_ttl_micros}
use http_dmmr_nginx.Config.Op
use http_dmmr_nginx.Db.Ops.{bytes_at}
use http_dmmr_nginx.Cluster.Wire.{Received, cluster_send_frame, cluster_recv_frame}
use http_dmmr_nginx.Server.Net.{Recv, Send}
use http_dmmr_nginx.Server.Request.{flag_none}
use Prim.Native.Nat.{bit_xor}

unfoldable pub xor_all : ℕ → Bytes → Bytes
xor_all pad [] = []
xor_all pad (b ∷ bs) = bit_xor b pad ∷ xor_all pad bs

module _ (sha256 : Bytes → Bytes) where
  -- The key in a block of 64 bytes.
  unfoldable pub key_block : Bytes → Bytes
  key_block key =
      if ltb 64 (length key)
      then take 32 (sha256 key) ++ replicate 32 0
      else key ++ replicate (64 - length key) 0

  unfoldable pub hmac_sha256 : Bytes → Bytes → Bytes
  hmac_sha256 key text =
      let digest = sha256 (xor_all 0x36 (key_block key) ++ text) in
      take 32 (sha256 (xor_all 0x5c (key_block key) ++ take 32 digest))

  unfoldable pub compute_auth_hmac : Bytes → Bytes → ℕ → Bytes → Bytes
  compute_auth_hmac nonce_a nonce_b expire_at secret =
      hmac_sha256 secret (take 8 nonce_a ++ (take 8 nonce_b ++ be 8 expire_at))

  -- The value of AUTH_RESPONSE, for the value of an AUTH_REQUEST.
  unfoldable pub auth_response_value : Bytes → ℕ → ℕ → Bytes → Bytes
  auth_response_value secret nonce_b now value =
      let expire_at = (now + auth_ttl_micros) % 2 ^ 64 in
      be 8 nonce_b
      ++ (be 8 expire_at ++ compute_auth_hmac (take 8 value) (le 8 nonce_b) expire_at secret)

  -- The checks of the client on AUTH_RESPONSE: the expiry of the session, if they succeed.
  unfoldable pub check_response : Bytes → ℕ → Received → Option ℕ
  check_response secret nonce_a (none, s) = none
  check_response secret nonce_a (some (resp, payload), s) =
      let value = drop resp.key_len (bytes_at payload) in
      let nonce_b = of_be (take 8 value) in
      let expire_at = of_be (take 8 (drop 8 value)) in
      let recv_hmac = take 32 (drop 16 value) in
      if not (resp.opcode == Op.auth_response) || ltb resp.value_len 48
      then none
      else if bytes_eq recv_hmac (compute_auth_hmac (be 8 nonce_a) (le 8 nonce_b) expire_at secret)
      then some expire_at
      else none

  -- AUTH_OK, when the checks succeed: the expiry, and what is sent.
  unfoldable pub confirm : Bytes → ℕ → List Send → Option ℕ → Option ℕ × Bytes
  confirm cluster_name my_node_id sends none = (none, [])
  confirm cluster_name my_node_id sends (some expire_at) =
      sent_or_not
        (cluster_send_frame cluster_name Op.auth_ok flag_none none 0 none 0 0 my_node_id 0 sends)
    where
      sent_or_not : Bool × Bytes × List Send → Option ℕ × Bytes
      sent_or_not (true, out, rest) = (some expire_at, out)
      sent_or_not (false, out, rest) = (none, out)

  unfoldable pub after_request :
      Bytes → Bytes → ℕ → ℕ → Received → Bool × Bytes × List Send → Option ℕ × Bytes
  after_request cluster_name secret my_node_id nonce_a received (false, out, rest) = (none, out)
  after_request cluster_name secret my_node_id nonce_a received (true, out, rest) =
      let done = confirm cluster_name my_node_id rest (check_response secret nonce_a received) in
      (done.0, out ++ done.1)

  -- The expiry of the session, or `none` for -1, and what is sent. Without a secret nothing is sent, and
  -- the expiry stays 0.
  unfoldable pub cluster_handshake_client :
      Bytes → Bytes → ℕ → ℕ → (ℕ → Bool) → List Recv → List Send → Option ℕ × Bytes
  cluster_handshake_client cluster_name secret my_node_id nonce_a malloc s sends =
      if length secret == 0
      then (some 0, [])
      else after_request cluster_name secret my_node_id nonce_a (cluster_recv_frame malloc s) (
          cluster_send_frame cluster_name Op.auth_request flag_none none 0 (some (be 8 nonce_a)) 8 0
            my_node_id 0 sends)
