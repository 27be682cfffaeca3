-- ===== src/Cluster/Trust.antt =====
-- What the client of a handshake accepts (dmmr_cluster.c).
use http_dmmr_nginx.Base.{
  ℕ, ◌≡◌, ◌+◌, ◌%◌, ◌^◌, ◌<◌, refl, ap, ◌∙◌, false, List, [], ◌++◌, none, some, arith, Bytes,
  bytes_eq, length, length-append, length-be, ltb, if◌then◌else◌, take, drop, be, le, of_be,
  of_be-be, take_prefix, drop_prefix, drop_past, length-take, take_all,
}
use http_dmmr_nginx.Config.{auth_ttl_micros}
use http_dmmr_nginx.Config.Op
use http_dmmr_nginx.Cluster.Handshake.{
  hmac_sha256, compute_auth_hmac, auth_response_value, check_response,
}
use http_dmmr_nginx.Cluster.Transport.{Message, header_for}
use http_dmmr_nginx.Server.Net.{Recv}
use http_dmmr_nginx.Server.Request.{flag_none}

-- The frame in which a node answers AUTH_REQUEST.
abbrev pub response_message : ℕ → Bytes → Message
response_message node_id value = record {
  opcode = Op.auth_response;
  flags = flag_none;
  key = [];
  value = value;
  timestamp = 0;
  node_id = node_id;
  expire_at = 0;
}

module _ (sha256 : Bytes → Bytes) (digest : (bs : Bytes) → length (sha256 bs) ≡ 32) where
  length-digest : (bs : Bytes) → length (take 32 (sha256 bs)) ≡ 32
  length-digest bs = omega (arith, length-take 32 (sha256 bs), digest bs)

  length-compute_auth_hmac :
      (na nb : Bytes) (x : ℕ) (secret : Bytes)
      → length (compute_auth_hmac sha256 na nb x secret) ≡ 32
  unfolding compute_auth_hmac hmac_sha256
  length-compute_auth_hmac na nb x secret = length-digest _

  -- The client takes the answer of a node for the value of its request exactly when the HMAC that the
  -- node computed with its own secret over the two nonces and the expiry is the one that the client
  -- computes with its secret, and then the session's expiry is the node's.
  pub check_response-auth_response_value :
      (secret secret' cluster_name : Bytes) (nonce_a nonce_b node_id now : ℕ) (s : List Recv)
      → nonce_b < 2 ^ 64
      → let expire_at = (now + auth_ttl_micros) % 2 ^ 64 in
        let value = auth_response_value sha256 secret' nonce_b now (be 8 nonce_a) in
        let mac = compute_auth_hmac sha256 (be 8 nonce_a) (le 8 nonce_b) expire_at in
        check_response sha256 secret nonce_a
          (some (header_for cluster_name (response_message node_id value), some value), s)
        ≡ (if bytes_eq (mac secret') (mac secret) then some expire_at else none)
  unfolding check_response auth_response_value
  check_response-auth_response_value secret secret' cluster_name nonce_a nonce_b node_id now s
        fits =
      let x = (now + auth_ttl_micros) % 2 ^ 64 in
      let mac = compute_auth_hmac sha256 (be 8 nonce_a) (le 8 nonce_b) x secret' in
      let asked : take 8 (be 8 nonce_a) ≡ be 8 nonce_a =
        take_all 8 (be 8 nonce_a) (omega (arith, length-be 8 nonce_a)) in
      let first : of_be (take 8 (be 8 nonce_b ++ (be 8 x ++ mac))) ≡ nonce_b =
        ap of_be (take_prefix 8 (be 8 nonce_b) (be 8 x ++ mac) (length-be 8 nonce_b))
        ∙ of_be-be 8 nonce_b (ground (arith, fits)) in
      let second : of_be (take 8 (drop 8 (be 8 nonce_b ++ (be 8 x ++ mac)))) ≡ x =
        ap (λ bs. of_be (take 8 bs))
          (drop_prefix 8 (be 8 nonce_b) (be 8 x ++ mac) (length-be 8 nonce_b))
        ∙ (ap of_be (take_prefix 8 (be 8 x) mac (length-be 8 x)) ∙ of_be-be 8 x (omega arith)) in
      let third : take 32 (drop 16 (be 8 nonce_b ++ (be 8 x ++ mac))) ≡ mac =
        ap (take 32)
          (drop_past 8 8 16 (be 8 nonce_b) (be 8 x ++ mac) (omega arith) (length-be 8 nonce_b))
        ∙ (ap (take 32) (drop_prefix 8 (be 8 x) mac (length-be 8 x))
            ∙ take_all 32 mac (
                omega (arith, length-compute_auth_hmac (be 8 nonce_a) (le 8 nonce_b) x secret'))) in
      let long : ltb (length (be 8 nonce_b ++ (be 8 x ++ mac))) 48 ≡ false = ground (
        arith,
        length-append (be 8 nonce_b) (be 8 x ++ mac),
        length-append (be 8 x) mac,
        length-be 8 nonce_b,
        length-be 8 x,
        length-compute_auth_hmac (be 8 nonce_a) (le 8 nonce_b) x secret',
      ) in
      rw (asked, long, first, second, third) refl
