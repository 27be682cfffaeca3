-- ===== src/Access/Admission.antt =====
-- ngx_http_dmmr_handler: what holds of a request that every phase lets through.
use http_dmmr_nginx.Base.{
  ℕ, ◌≡◌, refl, sym, ap, ◌∙◌, Bool, true, false, List, [], ◌∷◌, Option, none, some, arith,
  if◌then◌else◌, Bytes, length, Bool-cases, subst, inl, inr, ◌⊎◌, ◌==◌,
}
use http_dmmr_nginx.Access.Types.{Route, Service, Ctx, MainConf, Request, NgxString}
use http_dmmr_nginx.Access.Router.{
  among, linked_to, with_service, router, chosen, routed, strip, best_of, find_service, found_or,
  stripped,
}
use http_dmmr_nginx.Access.Best.{IsBest, best_of-IsBest}
use http_dmmr_nginx.Access.Upstream.{upstream_of, address_of, rewritten}
use http_dmmr_nginx.Access.Credential.{extract_credential}
use http_dmmr_nginx.Access.Cache.{Exchange, send_cache_request}
use http_dmmr_nginx.Access.Auth.{auth, auth_with, authed, is_public}
use http_dmmr_nginx.Access.Handler.{new_ctx}
use http_dmmr_nginx.Rate.Zone.{
  Verdict, ok, too_many_requests, not_found, declined, error, forbidden, unauthorized,
  internal_server_error, service_unavailable,
}

-- The service that a route names, when the configuration has services.
abbrev pub linked : Option (List Service) → Option Bytes → Option Service
linked none name = none
linked services none = none
linked (some ss) (some name) = find_service ss name

abbrev pub new_uri_of : Request → Route → Option Bytes
new_uri_of r best = if best.strip_path then some (stripped r.uri best.path) else none

module _ (palloc : ℕ → Bool) (r : Request) where
  -- What the router leaves in the context.
  abbrev pub IsLinked : Option (List Service) → Route → Ctx → Type 0
  IsLinked services best ctx =
      (ctx.route ≡ some best)
      × (ctx.service ≡ linked services best.service_name)
      × (ctx.new_uri ≡ new_uri_of r best)
      × (ctx.upstream_name ≡ none)

  strip_lem :
      (best : Route) (ctx : Ctx)
      → (strip palloc r best ctx).0 ≡ ok
      → ctx.new_uri ≡ none
      → (strip palloc r best ctx).1 ≡ record ctx { new_uri = new_uri_of r best }
  unfolding strip
  strip_lem best ctx h e = ground arith

  linked_to_lem :
      (services : Option (List Service)) (name : Option Bytes) (best : Route) (ctx : Ctx)
      → ctx.service ≡ none
      → ctx.new_uri ≡ none
      → (linked_to palloc services name r best ctx).0 ≡ ok
      → (linked_to palloc services name r best ctx).1
        ≡ record ctx { service = linked services name; new_uri = new_uri_of r best }
  unfolding linked_to with_service found_or
  linked_to_lem none none best ctx e n h = strip_lem best ctx h n ∙ ground arith
  linked_to_lem (some ss) none best ctx e n h = strip_lem best ctx h n ∙ ground arith
  linked_to_lem none (some name) best ctx e n h = strip_lem best ctx h n ∙ ground arith
  linked_to_lem (some ss) (some name) best ctx e n h = go (find_service ss name) h
    where
      go :
          (f : Option Service)
          → (with_service palloc r best (found_or f ctx.service) ctx).0 ≡ ok
          → (with_service palloc r best (found_or f ctx.service) ctx).1
            ≡ record ctx { service = f; new_uri = new_uri_of r best }
      go (some s) k = strip_lem best (record ctx { service = some s }) k n
      go none k = absurd (clash (subst (λ o. (with_service palloc r best o ctx).0 ≡ ok) e k))
        where
          clash : internal_server_error ≡ ok → ⊥
          clash c = cc

  -- The routes and services of the main configuration, and the route chosen among them.
  abbrev pub IsRouted : NgxString → Option MainConf → Ctx → Type 0
  IsRouted str main_conf ctx =
      (kcf : MainConf) × (routes : List Route) × (best : Route) × (main_conf ≡ some kcf)
      × (kcf.routes ≡ some routes)
      × IsBest str r routes (some best)
      × (ctx ≡ record new_ctx {
        route = some best;
        service = linked kcf.services best.service_name;
        new_uri = new_uri_of r best;
      })

  chosen_lem :
      (str : NgxString) (services : Option (List Service)) (routes : List Route) (o : Option Route)
      → IsBest str r routes o
      → (chosen palloc services r o new_ctx).0 ≡ ok
      → (best : Route) × IsBest str r routes (some best)
        × ((chosen palloc services r o new_ctx).1 ≡ record new_ctx {
          route = some best;
          service = linked services best.service_name;
          new_uri = new_uri_of r best;
        })
  unfolding chosen routed
  chosen_lem str services routes none b h = absurd (clash h)
    where
      clash : not_found ≡ ok → ⊥
      clash c = cc
  chosen_lem str services routes (some best) b h = (
    best,
    b,
    linked_to_lem services best.service_name best (record new_ctx { route = some best }) refl refl
        h,
  )

  pub router-IsRouted :
      (str : NgxString) (main_conf : Option MainConf)
      → (router str palloc main_conf r new_ctx).0 ≡ ok
      → IsRouted str main_conf (router str palloc main_conf r new_ctx).1
  unfolding router among
  router-IsRouted str none h = absurd (clash h)
    where
      clash : declined ≡ ok → ⊥
      clash c = cc
  router-IsRouted str (some kcf) h = go kcf.routes refl h
    where
      clash : declined ≡ ok → ⊥
      clash c = cc

      go :
          (o : Option (List Route))
          → kcf.routes ≡ o
          → (among str palloc kcf.services o r new_ctx).0 ≡ ok
          → IsRouted str (some kcf) (among str palloc kcf.services o r new_ctx).1
      go none e k = absurd (clash k)
      go (some []) e k = absurd (clash k)
      go (some (x ∷ xs)) e k =
          let some_route : (length (x ∷ xs) == 0) ≡ false = ground arith in
          let k' : (chosen palloc kcf.services r (best_of str r (x ∷ xs) none) new_ctx).0 ≡ ok =
            rw some_route at k in
          let c =
            chosen_lem str kcf.services (x ∷ xs) (best_of str r (x ∷ xs) none)
              (best_of-IsBest str r (x ∷ xs)) k' in
          (kcf, x ∷ xs, c.0, refl, e, c.1, rw some_route c.2)

  -- Why a request counts as authenticated: it is public, or the cache answers NGX_OK for its
  -- credential.
  abbrev pub IsAuthentic : NgxString → (ℕ → Bytes → Bytes → Exchange) → Option Bytes → Type 0
  IsAuthentic str net cache_addr =
      (is_public r.uri ≡ true)
      ⊎ ((key : Bytes) × (extract_credential str r ≡ some key)
          × ((send_cache_request palloc net cache_addr key).0 ≡ ok))

  authed_lem :
      (v : Verdict × Option Bytes) (ctx : Ctx)
      → (authed palloc v ctx).0 ≡ ok
      → (v.0 ≡ ok)
        × ((user : Option Bytes) × ((authed palloc v ctx).1
              ≡ record ctx { authenticated = true; auth_user = user }))
  unfolding authed
  authed_lem (ok, u) ctx h = (refl, ((if palloc 16 then u else none), refl))
  authed_lem (error, _) ctx h = cc
  authed_lem (declined, _) ctx h = cc
  authed_lem (unauthorized, _) ctx h = cc
  authed_lem (forbidden, _) ctx h = cc
  authed_lem (not_found, _) ctx h = cc
  authed_lem (too_many_requests, _) ctx h = cc
  authed_lem (internal_server_error, _) ctx h = cc
  authed_lem (service_unavailable, _) ctx h = cc

  pub upstream_lem :
      (service : Option Service) (ctx : Ctx)
      → (upstream_of palloc service none r ctx).0 ≡ ok
      → (s : Service) × (service ≡ some s)
        × ((upstream_of palloc service none r ctx).1
            ≡ record ctx { upstream_name = some (address_of s) })
        × ((upstream_of palloc service none r ctx).2 ≡ rewritten ctx.new_uri r)
  unfolding upstream_of
  upstream_lem none ctx h = cc
  upstream_lem (some s) ctx h = (s, refl, ground arith, ground arith)

module _ (r : Request) (palloc : ℕ → ℕ → Bool) where
  pub auth-IsAuthentic :
      (str : NgxString) (net : ℕ → Bytes → Bytes → Exchange) (cache_addr : Option Bytes) (ctx : Ctx)
      → (auth str net palloc cache_addr r ctx).0 ≡ ok
      → IsAuthentic (palloc 2) r str net cache_addr
        × ((user : Option Bytes) × ((auth str net palloc cache_addr r ctx).1
              ≡ record ctx { authenticated = true; auth_user = user }))
  unfolding auth auth_with
  auth-IsAuthentic str net cache_addr ctx h = elim (Bool-cases (is_public r.uri)) [
    | inl public ↦ rw public (inl refl, (ctx.auth_user, refl))
    | inr private ↦
        let e : auth str net palloc cache_addr r ctx
            ≡ auth_with str net palloc cache_addr (extract_credential str r) ctx =
          rw private refl in
        subst
          (λ v.
            IsAuthentic (palloc 2) r str net cache_addr
            × ((user : Option Bytes) × (v.1
                  ≡ record ctx { authenticated = true; auth_user = user })))
          (sym e) (go (extract_credential str r) refl (ap (λ v. v.0) (sym e) ∙ h))
  ]
    where
      go :
          (o : Option Bytes)
          → extract_credential str r ≡ o
          → (auth_with str net palloc cache_addr o ctx).0 ≡ ok
          → IsAuthentic (palloc 2) r str net cache_addr
            × ((user : Option Bytes) × ((auth_with str net palloc cache_addr o ctx).1
                  ≡ record ctx { authenticated = true; auth_user = user }))
      go none e k = cc
      go (some key) e k = elim (Bool-cases (palloc 1 16)) [
        | inr full ↦ absurd (clash (rw full at k))
        | inl room ↦
            let a =
              authed_lem (palloc 3) r (send_cache_request (palloc 2) net cache_addr key) ctx
                (rw room at k) in
            rw room (inr (key, e, a.0), a.1)
      ]
        where
          clash : internal_server_error ≡ ok → ⊥
          clash c = cc
