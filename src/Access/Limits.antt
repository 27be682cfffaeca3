-- ===== src/Access/Limits.antt =====
-- The configuration of a location in nginx-dmmr-module-c/ngx_http_dmmr_module.c, from its creation
-- over its directives to the merge. A block's dmmr_cache_addr is set by nginx.
use http_dmmr_nginx.Base.{
  ℕ, ◌≡◌, ◌≤◌, refl, subst, Bool, true, false, List, [], ◌∷◌, Option, none, some, Bytes, arith,
  Bool-cases, inl, inr, ◌==◌, bytes_eq, if◌then◌else◌,
}
use http_dmmr_nginx.Access.Directives.{
  Configured, conf_ok, conf_error, dmmr_enable, positive, with_limit, rate_limit_set, with_window,
  rate_window_set, on_word, off_word,
}
use http_dmmr_nginx.Access.Cache.{fallback_unix}
use http_dmmr_nginx.Access.Merge.{
  Conf, create_main_conf, merge_loc_conf, nearest, or_default, merge_loc_conf-nearest,
}

-- A directive that sets the configuration of a location, with its arguments.
pub data Directive : Type 0 where
  sets_enable sets_cache_addr sets_limit sets_window : List Bytes → Directive

-- What ngx_conf_set_str_slot makes of the arguments and the value that is set; `none` is an error.
module _ (atoi : Bytes → Option ℕ) (set_str_slot : List Bytes → Option Bytes → Option Bytes) where
  unfoldable pub with_addr : Conf → Option Bytes → Configured
  with_addr conf none = conf_error
  with_addr conf (some addr) = conf_ok (record conf { cache_addr = some addr })

  unfoldable pub directed : Directive → Conf → Configured
  directed (sets_enable args) conf = dmmr_enable args conf
  directed (sets_cache_addr args) conf = with_addr conf (set_str_slot args conf.cache_addr)
  directed (sets_limit args) conf = rate_limit_set atoi args conf
  directed (sets_window args) conf = rate_window_set atoi args conf

  -- The directives of a block, on the configuration that was created for it.
  unfoldable pub block : List Directive → Configured → Configured
  block ds conf_error = conf_error
  block [] (conf_ok conf) = conf_ok conf
  block (d ∷ ds) (conf_ok conf) = block ds (directed d conf)

  -- A limit and a window are set, and neither is 0.
  abbrev IsLimited : Configured → Type 0
  IsLimited conf_error = Unit {0}
  IsLimited (conf_ok conf) =
      ((n : ℕ) × (conf.rate_limit ≡ some n) × (1 ≤ n))
      × ((w : ℕ) × (conf.rate_window ≡ some w) × (1 ≤ w))

  enable-IsLimited :
      (args : List Bytes) (conf : Conf)
      → IsLimited (conf_ok conf)
      → IsLimited (dmmr_enable args conf)
  unfolding dmmr_enable
  enable-IsLimited [] conf v = tt
  enable-IsLimited (value ∷ []) conf v = go (bytes_eq value on_word) (bytes_eq value off_word)
    where
      go :
          (on off : Bool)
          → IsLimited (
              if on
              then conf_ok (record conf { enable = some true })
              else if off
              then conf_ok (record conf { enable = some false })
              else conf_error)
      go true off = v
      go false true = v
      go false false = tt
  enable-IsLimited (value ∷ next ∷ rest) conf v = tt

  addr-IsLimited :
      (conf : Conf) (addr : Option Bytes)
      → IsLimited (conf_ok conf)
      → IsLimited (with_addr conf addr)
  unfolding with_addr
  addr-IsLimited conf none v = tt
  addr-IsLimited conf (some addr) v = v

  limit-IsLimited :
      (conf : Conf) (o : Option ℕ)
      → IsLimited (conf_ok conf)
      → IsLimited (with_limit atoi conf (positive atoi o))
  unfolding with_limit
  limit-IsLimited conf none v = tt
  limit-IsLimited conf (some n) v = elim (Bool-cases (n == 0)) [
    | inl zero_limit ↦ rw zero_limit tt
    | inr some_limit ↦ rw some_limit ((n, refl, ground (arith, some_limit)), v.1)
  ]

  window-IsLimited :
      (conf : Conf) (o : Option ℕ)
      → IsLimited (conf_ok conf)
      → IsLimited (with_window atoi conf (positive atoi o))
  unfolding with_window
  window-IsLimited conf none v = tt
  window-IsLimited conf (some n) v = elim (Bool-cases (n == 0)) [
    | inl zero_window ↦ rw zero_window tt
    | inr some_window ↦ rw some_window (v.0, (n, refl, ground (arith, some_window)))
  ]

  directed-IsLimited :
      (d : Directive) (conf : Conf) → IsLimited (conf_ok conf) → IsLimited (directed d conf)
  unfolding directed rate_limit_set rate_window_set
  directed-IsLimited (sets_enable args) conf v = enable-IsLimited args conf v
  directed-IsLimited (sets_cache_addr args) conf v =
      addr-IsLimited conf (set_str_slot args conf.cache_addr) v
  directed-IsLimited (sets_limit []) conf v = tt
  directed-IsLimited (sets_limit (value ∷ [])) conf v = limit-IsLimited conf (atoi value) v
  directed-IsLimited (sets_limit (value ∷ next ∷ rest)) conf v = tt
  directed-IsLimited (sets_window []) conf v = tt
  directed-IsLimited (sets_window (value ∷ [])) conf v = window-IsLimited conf (atoi value) v
  directed-IsLimited (sets_window (value ∷ next ∷ rest)) conf v = tt

  block-IsLimited : (ds : List Directive) (c : Configured) → IsLimited c → IsLimited (block ds c)
  unfolding block
  block-IsLimited [] conf_error v = tt
  block-IsLimited (d ∷ ds) conf_error v = tt
  block-IsLimited [] (conf_ok conf) v = v
  block-IsLimited (d ∷ ds) (conf_ok conf) v =
      block-IsLimited ds (directed d conf) (directed-IsLimited d conf v)

  -- The configuration of a location that was created and then set by directives without an error,
  -- merged into those of its server and the http block: its limit and window are the ones of the
  -- location itself, not 0, whatever the outer blocks say;
  -- enable and the cache's address are those of the innermost block that sets them, or off and
  -- the fallback socket.
  pub merge_loc_conf-block :
      (ds : List Directive) (created loc srv main : Conf)
      → create_main_conf true ≡ some created
      → block ds (conf_ok created) ≡ conf_ok loc
      → let conf = merge_loc_conf (merge_loc_conf main srv) loc in
        (((n : ℕ) × (loc.rate_limit ≡ some n) × (conf.rate_limit ≡ some n) × (1 ≤ n))
          × ((w : ℕ) × (loc.rate_window ≡ some w) × (conf.rate_window ≡ some w) × (1 ≤ w)))
        × (conf.enable
            ≡ some (or_default (nearest (loc.enable ∷ srv.enable ∷ main.enable ∷ [])) false))
        × (conf.cache_addr
            ≡ some (
                or_default
                  (nearest (loc.cache_addr ∷ srv.cache_addr ∷ main.cache_addr ∷ []))
                  fallback_unix))
  unfolding create_main_conf
  merge_loc_conf-block ds created loc srv main c b =
      let base : IsLimited (conf_ok created) = ((100, cc, omega arith), (60000, cc, omega arith)) in
      let ((n, limit, some_limit), (w, window, some_window)) =
        subst IsLimited b (block-IsLimited ds (conf_ok created) base) in
      let near = merge_loc_conf-nearest main srv loc in
      (
        (
          (n, limit, rw (near.5, limit) refl, some_limit),
          (w, window, rw (near.6, window) refl, some_window),
        ),
        near.0,
        near.4,
      )
