-- ===== src/Access/Handler.antt =====
-- ngx_http_dmmr_handler in nginx-dmmr-module-c/ngx_http_dmmr_module.c, with the stub of
-- ngx_http_dmmr_plugins.c
use http_dmmr_nginx.Base.{ℕ, Bool, false, not, Option, none, some, if◌then◌else◌, Bytes}
use http_dmmr_nginx.Access.Types.{Ctx, Request, MainConf, NgxString}
use http_dmmr_nginx.Access.Router.{router}
use http_dmmr_nginx.Access.Upstream.{upstream}
use http_dmmr_nginx.Access.Cache.{Exchange}
use http_dmmr_nginx.Access.Auth.{auth}
use http_dmmr_nginx.Rate.Zone.{
  Nginx, RateConf, Zone, Verdict, ok, declined, internal_server_error, rate_limit,
}

-- The location's ngx_http_dmmr_conf_t. `enable` is NGX_CONF_UNSET when `none`.
pub record LocConf : Type 0 where
  pub enable : Option Bool
  pub cache_addr : Bytes
  pub rate : RateConf

unfoldable pub plugins : Request → Ctx → Verdict
plugins r ctx = ok

abbrev pub enabled : Option LocConf → Bool
enabled none = false
enabled (some conf) = elim conf.enable [ none ↦ false | some on ↦ on ]

abbrev pub address_in : Option LocConf → Option Bytes
address_in none = none
address_in (some conf) = some conf.cache_addr

abbrev pub rate_in : Option LocConf → Option RateConf
rate_in none = none
rate_in (some conf) = some conf.rate

abbrev pub new_ctx : Ctx
new_ctx = record {
  route = none;
  service = none;
  upstream_name = none;
  new_uri = none;
  authenticated = false;
  auth_user = none;
}

-- A phase goes on when the one before it returned NGX_OK.
abbrev pub when_ok {ℓ} : {A : Type ℓ} → Verdict → A → A → A
when_ok ok next stop = next
when_ok _ next stop = stop

module _ (ngx : Nginx) (str : NgxString) (net : ℕ → Bytes → Bytes → Exchange) where
  pub record Outcome : Type 0 where
    pub rc : Verdict
    pub ctx : Option Ctx
    pub request : Request
    pub zone : Option (Zone ngx)

  unfoldable pub handler :
      (ℕ → ℕ → Bool)
      → Option LocConf
      → Option MainConf
      → Option (Zone ngx)
      → Bytes
      → ℕ
      → Request
      → Outcome
  handler palloc loc_conf main_conf zone client_key now r =
      let stop : Verdict → Ctx → Option (Zone ngx) → Outcome =
        λ rc ctx zone. record { rc = rc; ctx = some ctx; request = r; zone = zone } in
      let (rc1, ctx1) = router str (palloc 0) main_conf r new_ctx in
      let (rc2, ctx2) = auth str net palloc (address_in loc_conf) r ctx1 in
      let (rc3, zone3) = rate_limit ngx (rate_in loc_conf) zone client_key now in
      let (rc5, ctx5, r5) = upstream (palloc 4) r ctx2 in
      if not (enabled loc_conf)
      then record { rc = declined; ctx = none; request = r; zone = zone }
      else if not (palloc 5 56)
      then record { rc = internal_server_error; ctx = none; request = r; zone = zone }
      else when_ok rc1
          (when_ok rc2
            (when_ok rc3
              (when_ok (plugins r ctx2)
                (record { rc = rc5; ctx = some ctx5; request = r5; zone = zone3 })
                (stop (plugins r ctx2) ctx2 zone3))
              (stop rc3 ctx2 zone3))
            (stop rc2 ctx2 zone))
          (stop rc1 ctx1 zone)
