-- ===== src/Access/Upstream.antt =====
-- nginx-dmmr-module-c/ngx_http_dmmr_upstream.c
use http_dmmr_nginx.Base.{
  ℕ, ◌+◌, Bool, not, ◌∷◌, ◌++◌, Option, none, some, if◌then◌else◌, Bytes, length,
}
use http_dmmr_nginx.Access.Types.{Service, Ctx, Request}
use http_dmmr_nginx.Rate.Zone.{Verdict, ok, internal_server_error}

-- The request with the URI of the context, when there is one.
unfoldable pub rewritten : Option Bytes → Request → Request
rewritten none r = r
rewritten (some new_uri) r = record r { uri = new_uri }

-- host:port
unfoldable pub address_of : Service → Bytes
address_of service = service.host ++ (58 ∷ service.port)

-- By the service and the upstream name of the context.
unfoldable pub upstream_of :
    (ℕ → Bool) → Option Service → Option Bytes → Request → Ctx → Verdict × Ctx × Request
upstream_of palloc none name r ctx = (internal_server_error, ctx, r)
upstream_of palloc (some service) (some _) r ctx = (ok, ctx, rewritten ctx.new_uri r)
upstream_of palloc (some service) none r ctx =
    if not (palloc 16)
    then (internal_server_error, ctx, r)
    else if not (palloc (length service.host + 1 + length service.port))
    then (internal_server_error, ctx, r)
    else (ok, record ctx { upstream_name = some (address_of service) }, rewritten ctx.new_uri r)

unfoldable pub upstream : (ℕ → Bool) → Request → Ctx → Verdict × Ctx × Request
upstream palloc r ctx = upstream_of palloc ctx.service ctx.upstream_name r ctx

-- The value of $dmmr_upstream, with the context and the request after it: `none` for `not_found`.
unfoldable pub upstream_variable :
    (ℕ → Bool) → Request → Option Ctx → Option Bytes × Option Ctx × Request
upstream_variable palloc r none = (none, none, r)
upstream_variable palloc r (some ctx) = elim ctx.upstream_name [
  | some name ↦ (some name, some ctx, r)
  | none ↦ elim ctx.service [
    | none ↦ (none, some ctx, r)
    | some _ ↦ (let (rc, ctx', r') = upstream palloc r ctx in (ctx'.upstream_name, some ctx', r'))
  ]
]
