-- ===== src/Access/Connect.antt =====
-- ngx_http_dmmr_cache_connect_new and ngx_http_dmmr_cache_prepare_conn in
-- nginx-dmmr-module-c/ngx_http_dmmr_auth.c. Whether a connection to a target is made, and what
-- ngx_alloc gives, are parameters.
use http_dmmr_nginx.Base.{
  ℕ, ◌+◌, Bool, true, false, not, ◌||◌, [], ◌∷◌, Option, none, some, Bytes, length, drop, leb, ◌==◌,
  if◌then◌else◌,
}
use http_dmmr_nginx.Access.Router.{strncmp}

-- Where an address leads: the path of a Unix socket, or a host and a port.
pub data Target : Type 0 where
  unix : Bytes → Target
  tcp : Bytes → Bytes → Target

-- unix: and tcp:
abbrev pub unix_prefix : Bytes
unix_prefix = 117 ∷ 110 ∷ 105 ∷ 120 ∷ 58 ∷ []

abbrev pub tcp_prefix : Bytes
tcp_prefix = 116 ∷ 99 ∷ 112 ∷ 58 ∷ []

-- What is before the first colon, and what is behind it (ngx_strlchr).
unfoldable pub at_colon : Bytes → Option (Bytes × Bytes)
at_colon [] = none
at_colon (c ∷ cs) = if c == 58 then some ([], cs) else longer (at_colon cs)
  where
    longer : Option (Bytes × Bytes) → Option (Bytes × Bytes)
    longer none = none
    longer (some (host, port)) = some (c ∷ host, port)

unfoldable pub tcp_target : Option (Bytes × Bytes) → Option Target
tcp_target none = none
tcp_target (some (host, port)) =
    if ((length host == 0) || (length port == 0)) || (leb 256 (length host) || leb 16 (length port))
    then none
    else some (tcp host port)

-- The path of a sockaddr_un has room for 108 bytes.
unfoldable pub target_of : Bytes → Option Target
target_of cache_addr =
    let path = drop 5 cache_addr in
    if length cache_addr == 0
    then none
    else if strncmp cache_addr unix_prefix
    then (if (length path == 0) || leb 108 (length path) then none else some (unix path))
    else tcp_target
        (at_colon (if strncmp cache_addr tcp_prefix then drop 4 cache_addr else cache_addr))

unfoldable pub connects : (Target → Bool) → Option Target → Bool
connects reach none = false
connects reach (some target) = reach target

-- Whether it gives a descriptor.
unfoldable pub cache_connect_new : (Target → Bool) → Bytes → Bool
cache_connect_new reach cache_addr = connects reach (target_of cache_addr)

-- The connection that is kept: its address, while it is open.
unfoldable pub cache_close_conn : Option Bytes → Option Bytes
cache_close_conn conn = none

-- Whether it returns NGX_OK, and the connection that is kept.
unfoldable pub cache_prepare_conn :
    (Target → Bool) → (ℕ → Bool) → Bytes → Option Bytes → Bool × Option Bytes
cache_prepare_conn reach alloc cache_addr conn =
    if not (cache_connect_new reach cache_addr)
    then (false, cache_close_conn conn)
    else if not (alloc (length cache_addr + 1))
    then (false, cache_close_conn conn)
    else (true, some cache_addr)
