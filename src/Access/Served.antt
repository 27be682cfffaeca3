-- ===== src/Access/Served.antt =====
-- ngx_http_dmmr_handler: what holds of a request that it lets through.
use http_dmmr_nginx.Base.{
  ℕ, ◌≡◌, refl, sym, ap, ◌∙◌, subst, Bool, true, List, Option, none, some, Bytes, Bool-cases, inl,
  inr,
}
use http_dmmr_nginx.Access.Types.{Route, Service, Ctx, MainConf, Request, NgxString}
use http_dmmr_nginx.Access.Router.{router}
use http_dmmr_nginx.Access.Best.{IsBest}
use http_dmmr_nginx.Access.Upstream.{upstream, upstream_of, address_of, rewritten}
use http_dmmr_nginx.Access.Cache.{Exchange}
use http_dmmr_nginx.Access.Auth.{auth}
use http_dmmr_nginx.Access.Handler.{
  LocConf, Outcome, handler, new_ctx, enabled, address_in, rate_in, when_ok, plugins,
}
use http_dmmr_nginx.Access.Admission.{
  linked, new_uri_of, IsRouted, router-IsRouted, IsAuthentic, auth-IsAuthentic, upstream_lem,
}
use http_dmmr_nginx.Rate.Zone.{
  Nginx, Zone, Verdict, ok, declined, internal_server_error, rate_limit, error, forbidden,
  unauthorized, not_found, too_many_requests, service_unavailable,
}

module _ (ngx : Nginx) (str : NgxString) (net : ℕ → Bytes → Bytes → Exchange) where
  when_ok_lem :
      (v : Verdict) (next stop : Outcome ngx str net)
      → stop.rc ≡ v
      → (when_ok v next stop).rc ≡ ok
      → (v ≡ ok) × (when_ok v next stop ≡ next)
  when_ok_lem ok next stop e h = (refl, refl)
  when_ok_lem declined next stop e h = cc
  when_ok_lem error next stop e h = cc
  when_ok_lem forbidden next stop e h = cc
  when_ok_lem unauthorized next stop e h = cc
  when_ok_lem not_found next stop e h = cc
  when_ok_lem too_many_requests next stop e h = cc
  when_ok_lem internal_server_error next stop e h = cc
  when_ok_lem service_unavailable next stop e h = cc

  module _ (palloc : ℕ → ℕ → Bool) (loc_conf : Option LocConf) (main_conf : Option MainConf)
      (zone : Option (Zone ngx)) (client_key : Bytes) (now : ℕ) (r : Request) where
    -- The context and the request that a served request ends with.
    abbrev pub IsForwarded : Outcome ngx str net → Type 0
    IsForwarded out =
        (kcf : MainConf) × (routes : List Route) × (best : Route) × (s : Service) × (user : Option
          Bytes)
        × (main_conf ≡ some kcf)
        × (kcf.routes ≡ some routes)
        × IsBest str r routes (some best)
        × (linked kcf.services best.service_name ≡ some s)
        × (out.ctx
            ≡ some (record new_ctx {
              route = some best;
              service = some s;
              new_uri = new_uri_of r best;
              authenticated = true;
              auth_user = user;
              upstream_name = some (address_of s);
            }))
        × (out.request ≡ rewritten (new_uri_of r best) r)

    -- A request that the handler lets through comes to an enabled location, is public or has a
    -- credential for which the cache answers NGX_OK, is within its client's rate, and goes to the
    -- service of the best route, with the URI stripped as that route says.
    pub handler-IsForwarded :
        (handler ngx str net palloc loc_conf main_conf zone client_key now r).rc ≡ ok
        → let out = handler ngx str net palloc loc_conf main_conf zone client_key now r in
          (enabled loc_conf ≡ true)
          × IsAuthentic (palloc 2) r str net (address_in loc_conf)
          × ((rate_limit ngx (rate_in loc_conf) zone client_key now).0 ≡ ok)
          × (out.zone ≡ (rate_limit ngx (rate_in loc_conf) zone client_key now).1)
          × IsForwarded out
    unfolding handler plugins upstream
    handler-IsForwarded h = elim (Bool-cases (enabled loc_conf)) [
      | inr off ↦ absurd (off_clash (rw off at h))
      | inl on ↦ elim (Bool-cases (palloc 5 56)) [
        | inr full ↦ absurd (full_clash (rw (on, full) at h))
        | inl room ↦
            let k = rw (on, room) at h in
            let a = when_ok_lem (router str (palloc 0) main_conf r new_ctx).0 _ _ refl k in
            let k1 = ap (λ (o : Outcome ngx str net). o.rc) (sym a.1) ∙ k in
            let b = when_ok_lem (auth str net palloc (address_in loc_conf) r ctx1).0 _ _ refl k1 in
            let k2 = ap (λ (o : Outcome ngx str net). o.rc) (sym b.1) ∙ k1 in
            let c = when_ok_lem limited.0 _ _ refl k2 in
            let k3 = ap (λ (o : Outcome ngx str net). o.rc) (sym c.1) ∙ k2 in
            let eq : handler ngx str net palloc loc_conf main_conf zone client_key now r ≡ last =
              rw (on, room) (a.1 ∙ (b.1 ∙ c.1)) in
            let auth' = auth-IsAuthentic r palloc str net (address_in loc_conf) ctx1 b.0 in
            subst
              (λ out.
                (enabled loc_conf ≡ true)
                × IsAuthentic (palloc 2) r str net (address_in loc_conf)
                × (limited.0 ≡ ok)
                × (out.zone ≡ limited.1)
                × IsForwarded out)
              (sym eq)
              (
                on,
                auth'.0,
                c.0,
                refl,
                forwarded (router-IsRouted (palloc 0) r str main_conf a.0) auth'.1.0 auth'.1.1 k3,
              )
      ]
    ]
      where
        off_clash : declined ≡ ok → ⊥
        off_clash e = cc

        full_clash : internal_server_error ≡ ok → ⊥
        full_clash e = cc

        ctx1 : Ctx
        ctx1 = (router str (palloc 0) main_conf r new_ctx).1

        ctx2 : Ctx
        ctx2 = (auth str net palloc (address_in loc_conf) r ctx1).1

        limited : Verdict × Option (Zone ngx)
        limited = rate_limit ngx (rate_in loc_conf) zone client_key now

        last : Outcome ngx str net
        last = record {
          rc = (upstream (palloc 4) r ctx2).0;
          ctx = some (upstream (palloc 4) r ctx2).1;
          request = (upstream (palloc 4) r ctx2).2;
          zone = limited.1;
        }

        forwarded :
            IsRouted (palloc 0) r str main_conf ctx1
            → (user : Option Bytes) → ctx2 ≡ record ctx1 { authenticated = true; auth_user = user }
            → (upstream (palloc 4) r ctx2).0 ≡ ok
            → IsForwarded last
        forwarded (kcf, routes, best, e1, e2, b, ec) user eu k =
            let name = linked kcf.services best.service_name in
            let left : Option Service → Option Bytes → Ctx = λ o n. record {
              route = some best;
              service = o;
              upstream_name = n;
              new_uri = new_uri_of r best;
              authenticated = true;
              auth_user = user;
            } in
            let ep : ctx2 ≡ left name none =
              eu ∙ ap (λ (x : Ctx). record x { authenticated = true; auth_user = user }) ec in
            let eq2 : upstream (palloc 4) r ctx2
                ≡ upstream_of (palloc 4) name none r (left name none) =
              ap (upstream (palloc 4) r) ep in
            let u = upstream_lem (palloc 4) r name (left name none) (ap (λ v. v.0) (sym eq2) ∙ k) in
            (
              kcf,
              routes,
              best,
              u.0,
              user,
              e1,
              e2,
              b,
              u.1,
              ap (λ v. some v.1) eq2
                  ∙ (ap some u.2 ∙ ap (λ o. some (left o (some (address_of u.0)))) u.1),
              ap (λ v. v.2) eq2 ∙ u.3,
            )
