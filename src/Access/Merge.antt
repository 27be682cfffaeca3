-- ===== src/Access/Merge.antt =====
-- The creation and the merging of configurations in nginx-dmmr-module-c/ngx_http_dmmr_module.c.
use http_dmmr_nginx.Base.{
  ℕ, ◌≡◌, refl, Bool, false, not, ◌&&◌, List, [], ◌∷◌, Option, none, some, Bytes, if◌then◌else◌,
  length, ◌==◌,
}
use http_dmmr_nginx.Access.Types.{Route, Service}
use http_dmmr_nginx.Access.Cache.{fallback_unix}

-- ngx_http_dmmr_conf_t. `none` is NGX_CONF_UNSET for a number or a flag and NULL for the rest; the
-- plugins are the address of their array.
pub record Conf : Type 0 where
  pub enable : Option Bool
  pub services : Option (List Service)
  pub routes : Option (List Route)
  pub plugins : Option ℕ
  pub cache_addr : Option Bytes
  pub rate_limit : Option ℕ
  pub rate_window : Option ℕ

unfoldable pub create_main_conf : Bool → Option Conf
create_main_conf allocated =
    if allocated
    then some (record {
      enable = none;
      services = none;
      routes = none;
      plugins = none;
      cache_addr = none;
      rate_limit = some 100;
      rate_window = some 60000;
    })
    else none

-- The own value, or the parent's.
unfoldable pub inherit {ℓ} : {A : Type ℓ} → Option A → Option A → Option A
inherit none prev = prev
inherit (some a) prev = some a

-- ngx_conf_merge_value and its kin.
unfoldable pub merge_value {ℓ} : {A : Type ℓ} → Option A → Option A → A → Option A
merge_value none none default = some default
merge_value none (some b) default = some b
merge_value (some a) prev default = some a

abbrev pub len_of : Option Bytes → ℕ
len_of none = 0
len_of (some s) = length s

abbrev pub is_number : ℕ → Option ℕ → Bool
is_number n none = false
is_number n (some m) = m == n

unfoldable pub merge_srv_conf : Conf → Conf → Conf
merge_srv_conf prev conf = record {
  enable = inherit conf.enable prev.enable;
  services = inherit conf.services prev.services;
  routes = inherit conf.routes prev.routes;
  plugins = inherit conf.plugins prev.plugins;
  cache_addr = if len_of conf.cache_addr == 0 then prev.cache_addr else conf.cache_addr;
  rate_limit =
      if is_number 100 conf.rate_limit && not (is_number 100 prev.rate_limit)
      then prev.rate_limit
      else conf.rate_limit;
  rate_window =
      if is_number 60000 conf.rate_window && not (is_number 60000 prev.rate_window)
      then prev.rate_window
      else conf.rate_window;
}

unfoldable pub merge_loc_conf : Conf → Conf → Conf
merge_loc_conf prev conf = record {
  enable = merge_value conf.enable prev.enable false;
  services = inherit conf.services prev.services;
  routes = inherit conf.routes prev.routes;
  plugins = inherit conf.plugins prev.plugins;
  cache_addr = merge_value conf.cache_addr prev.cache_addr fallback_unix;
  rate_limit = merge_value conf.rate_limit prev.rate_limit 100;
  rate_window = merge_value conf.rate_window prev.rate_window 60000;
}

-- The first value that is set, from the innermost level out.
abbrev pub nearest {ℓ} : {A : Type ℓ} → List (Option A) → Option A
nearest [] = none
nearest (none ∷ rest) = nearest rest
nearest (some a ∷ rest) = some a

abbrev pub or_default {ℓ} : {A : Type ℓ} → Option A → A → A
or_default none d = d
or_default (some a) d = a

merge_value_lem {ℓ} :
    {A : Type ℓ} (main srv loc : Option A) (d : A)
    → merge_value loc (merge_value srv main d) d
      ≡ some (or_default (nearest (loc ∷ srv ∷ main ∷ [])) d)
unfolding merge_value
merge_value_lem none none none d = refl
merge_value_lem (some a) none none d = refl
merge_value_lem main (some b) none d = refl
merge_value_lem main srv (some c) d = refl

inherit_lem {ℓ} :
    {A : Type ℓ} (main srv loc : Option A)
    → inherit loc (inherit srv main) ≡ nearest (loc ∷ srv ∷ main ∷ [])
unfolding inherit
inherit_lem none none none = refl
inherit_lem (some a) none none = refl
inherit_lem main (some b) none = refl
inherit_lem main srv (some c) = refl

-- The configuration of a location, merged into the one of its server and that into the main one:
-- every setting is the innermost one that is set, and the default when none is.
pub merge_loc_conf-nearest :
    (main srv loc : Conf)
    → let conf = merge_loc_conf (merge_loc_conf main srv) loc in
      (conf.enable ≡ some (or_default (nearest (loc.enable ∷ srv.enable ∷ main.enable ∷ [])) false))
      × (conf.services ≡ nearest (loc.services ∷ srv.services ∷ main.services ∷ []))
      × (conf.routes ≡ nearest (loc.routes ∷ srv.routes ∷ main.routes ∷ []))
      × (conf.plugins ≡ nearest (loc.plugins ∷ srv.plugins ∷ main.plugins ∷ []))
      × (conf.cache_addr
          ≡ some (
              or_default
                (nearest (loc.cache_addr ∷ srv.cache_addr ∷ main.cache_addr ∷ []))
                fallback_unix))
      × (conf.rate_limit
          ≡ some
              (or_default (nearest (loc.rate_limit ∷ srv.rate_limit ∷ main.rate_limit ∷ [])) 100))
      × (conf.rate_window
          ≡ some (
              or_default
                (nearest (loc.rate_window ∷ srv.rate_window ∷ main.rate_window ∷ []))
                60000))
unfolding merge_loc_conf
merge_loc_conf-nearest main srv loc = (
  merge_value_lem main.enable srv.enable loc.enable false,
  inherit_lem main.services srv.services loc.services,
  inherit_lem main.routes srv.routes loc.routes,
  inherit_lem main.plugins srv.plugins loc.plugins,
  merge_value_lem main.cache_addr srv.cache_addr loc.cache_addr fallback_unix,
  merge_value_lem main.rate_limit srv.rate_limit loc.rate_limit 100,
  merge_value_lem main.rate_window srv.rate_window loc.rate_window 60000,
)
