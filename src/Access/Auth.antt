-- ===== src/Access/Auth.antt =====
-- ngx_http_dmmr_auth in nginx-dmmr-module-c/ngx_http_dmmr_auth.c
use http_dmmr_nginx.Base.{
  ℕ, Bool, true, not, ◌&&◌, [], ◌∷◌, Option, none, some, if◌then◌else◌, Bytes, length, leb,
}
use http_dmmr_nginx.Access.Types.{Ctx, Request, NgxString}
use http_dmmr_nginx.Access.Router.{strncmp}
use http_dmmr_nginx.Access.Credential.{extract_credential}
use http_dmmr_nginx.Access.Cache.{Exchange, send_cache_request}
use http_dmmr_nginx.Rate.Zone.{
  Verdict, ok, error, unauthorized, forbidden, internal_server_error, service_unavailable,
}

-- /public
abbrev pub public_path : Bytes
public_path = 47 ∷ 112 ∷ 117 ∷ 98 ∷ 108 ∷ 105 ∷ 99 ∷ []

unfoldable pub is_public : Bytes → Bool
is_public uri = leb 7 (length uri) && strncmp uri public_path

-- From the cache's verdict on; `palloc` decides whether the user info is kept.
unfoldable pub authed : (ℕ → Bool) → Verdict × Option Bytes → Ctx → Verdict × Ctx
authed palloc (ok, user_info) ctx =
    (ok, record ctx { authenticated = true; auth_user = if palloc 16 then user_info else none })
authed palloc (error, _) ctx = (service_unavailable, ctx)
authed palloc (_, _) ctx = (forbidden, ctx)

module _ (str : NgxString) (net : ℕ → Bytes → Bytes → Exchange) where
  -- `palloc i` is the allocator at its i-th place in the access handler.
  unfoldable pub auth_with : (ℕ → ℕ → Bool) → Option Bytes → Option Bytes → Ctx → Verdict × Ctx
  auth_with palloc conf none ctx = (unauthorized, ctx)
  auth_with palloc conf (some api_key) ctx =
      if not (palloc 1 16)
      then (internal_server_error, ctx)
      else authed (palloc 3) (send_cache_request (palloc 2) net conf api_key) ctx

  unfoldable pub auth : (ℕ → ℕ → Bool) → Option Bytes → Request → Ctx → Verdict × Ctx
  auth palloc cache_addr r ctx =
      if is_public r.uri
      then (ok, record ctx { authenticated = true })
      else auth_with palloc cache_addr (extract_credential str r) ctx
