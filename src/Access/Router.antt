-- ===== src/Access/Router.antt =====
-- nginx-dmmr-module-c/ngx_http_dmmr_router.c
use http_dmmr_nginx.Base.{
  ℕ, ◌-◌, Bool, true, false, not, ◌&&◌, List, [], ◌∷◌, Option, none, some, if◌then◌else◌, Bytes,
  bytes_eq, length, drop, ltb, ◌==◌,
}
use http_dmmr_nginx.Access.Types.{Route, Service, Ctx, MainConf, Request, NgxString}
use http_dmmr_nginx.Rate.Zone.{Verdict, ok, declined, not_found, internal_server_error}

-- Whether ngx_strncmp over the length of the second string is 0.
unfoldable pub strncmp : Bytes → Bytes → Bool
strncmp xs [] = true
strncmp [] (y ∷ ys) = false
strncmp (x ∷ xs) (y ∷ ys) =
    let rest = strncmp xs ys in if x == y then (if x == 0 then true else rest) else false

unfoldable pub match_path : Bytes → Bytes → Verdict
match_path uri path =
    if length path == 0
    then ok
    else if ltb (length uri) (length path)
    then declined
    else if strncmp uri path
    then ok
    else declined

abbrev pub is_ok : Verdict → Bool
is_ok ok = true
is_ok _ = false

module _ (str : NgxString) where
  unfoldable pub match_method : Bytes → Bytes → Verdict
  match_method method route_method =
      if length route_method == 0
      then ok
      else if not (length method == length route_method)
      then declined
      else if str.strncasecmp method route_method (length method)
      then ok
      else declined

  -- The loop of ngx_http_dmmr_match_host.
  unfoldable pub match_hosts : Bytes → List Bytes → Verdict
  match_hosts host [] = declined
  match_hosts host (h ∷ rest) =
      let later = match_hosts host rest in
      if (length h == length host) && str.strncasecmp h host (length host) then ok else later

  unfoldable pub match_host : Option Bytes → Option (List Bytes) → Verdict
  match_host host none = ok
  match_host host (some []) = ok
  match_host none (some (h ∷ rest)) = declined
  match_host (some host) (some (h ∷ rest)) =
      if length host == 0 then declined else match_hosts host (h ∷ rest)

  -- The test on a route with hosts: without a Host header it does not match.
  unfoldable pub host_fits : Option Bytes → Option (List Bytes) → Bool
  host_fits host none = true
  host_fits host (some []) = true
  host_fits none (some (h ∷ rest)) = false
  host_fits (some host) (some (h ∷ rest)) = is_ok (match_host (some host) (some (h ∷ rest)))

  -- Whether the body of the loop over the routes reaches its end.
  unfoldable pub route_matches : Request → Route → Bool
  route_matches r route =
      if not (is_ok (match_path r.uri route.path))
      then false
      else if ltb 0 (length route.method) && not (is_ok (match_method r.method_name route.method))
      then false
      else host_fits r.host route.hosts

  unfoldable pub better : Request → Route → Option Route → Option Route
  better r route none = if route_matches r route then some route else none
  better r route (some best_route) =
      if route_matches r route && ltb best_route.priority route.priority
      then some route
      else some best_route

  -- The loop over the routes.
  unfoldable pub best_of : Request → List Route → Option Route → Option Route
  best_of r [] best_route = best_route
  best_of r (route ∷ rest) best_route = best_of r rest (better r route best_route)

-- The loop over the services.
unfoldable pub find_service : List Service → Bytes → Option Service
find_service [] name = none
find_service (s ∷ rest) name =
    let later = find_service rest name in if bytes_eq s.name name then some s else later

unfoldable pub found_or : Option Service → Option Service → Option Service
found_or none old = old
found_or (some s) old = some s

-- The URI below the path of the route, "/" when nothing is left.
unfoldable pub stripped : Bytes → Bytes → Bytes
stripped uri path = if length uri - length path == 0 then 47 ∷ [] else drop (length path) uri

-- The part under `if (best_route->strip_path)`.
unfoldable pub strip : (ℕ → Bool) → Request → Route → Ctx → Verdict × Ctx
strip palloc r route ctx =
    if not route.strip_path
    then (ok, ctx)
    else if not (palloc 16)
    then (internal_server_error, ctx)
    else if not (length r.uri - length route.path == 0) && not (palloc (length r.uri))
    then (internal_server_error, ctx)
    else (ok, record ctx { new_uri = some (stripped r.uri route.path) })

-- With the service that the route names, when there is one.
unfoldable pub with_service : (ℕ → Bool) → Request → Route → Option Service → Ctx → Verdict × Ctx
with_service palloc r route none ctx = (internal_server_error, ctx)
with_service palloc r route (some s) ctx = strip palloc r route (record ctx { service = some s })

-- From the test on the name of the service on.
unfoldable pub linked_to :
    (ℕ → Bool) → Option (List Service) → Option Bytes → Request → Route → Ctx → Verdict × Ctx
linked_to palloc services none r route ctx = strip palloc r route ctx
linked_to palloc none (some name) r route ctx = strip palloc r route ctx
linked_to palloc (some ss) (some name) r route ctx =
    with_service palloc r route (found_or (find_service ss name) ctx.service) ctx

-- From `ctx->route = best_route` on.
unfoldable pub routed : (ℕ → Bool) → Option (List Service) → Request → Route → Ctx → Verdict × Ctx
routed palloc services r route ctx =
    linked_to palloc services route.service_name r route (record ctx { route = some route })

unfoldable pub chosen :
    (ℕ → Bool) → Option (List Service) → Request → Option Route → Ctx → Verdict × Ctx
chosen palloc services r none ctx = (not_found, ctx)
chosen palloc services r (some best_route) ctx = routed palloc services r best_route ctx

module _ (str : NgxString) where
  unfoldable pub among :
      (ℕ → Bool) → Option (List Service) → Option (List Route) → Request → Ctx → Verdict × Ctx
  among palloc services none r ctx = (declined, ctx)
  among palloc services (some routes) r ctx =
      if length routes == 0
      then (declined, ctx)
      else chosen palloc services r (best_of str r routes none) ctx

  unfoldable pub router : (ℕ → Bool) → Option MainConf → Request → Ctx → Verdict × Ctx
  router palloc none r ctx = (declined, ctx)
  router palloc (some kcf) r ctx = among palloc kcf.services kcf.routes r ctx
