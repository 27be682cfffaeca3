-- ===== src/Access/Tests.antt =====
-- Runs of the access handler, and the theorems at concrete inputs.
use http_dmmr_nginx.Base.{
  ℕ, ◌≡◌, ◌≤◌, length, refl, true, false, [], ◌∷◌, ◌++◌, List, Option, none, some, arith, Bytes,
  ◌⊎◌, bytes_eq,
}
use http_dmmr_nginx.Access.Types.{Route, MainConf, Request, NgxString}
use http_dmmr_nginx.Access.Router.{
  router, among, chosen, routed, linked_to, with_service, found_or, strip, best_of, better,
  route_matches, match_path, match_method, match_host, match_hosts, host_fits, strncmp, stripped,
  find_service,
}
use http_dmmr_nginx.Access.Best.{IsBest, best_of-IsBest}
use http_dmmr_nginx.Access.Strip.{stripped_lem}
use http_dmmr_nginx.Access.Stream.{joined, answer_in, attempt-answer_in}
use http_dmmr_nginx.Access.Cache.{
  fallback_unix, fallback_tcp, Exchange, attempt, candidates, request_of, send_cache_request,
}
use http_dmmr_nginx.Access.Connect.{target_of, tcp_target, at_colon, unix, tcp}
use http_dmmr_nginx.Access.Fallback.{answers, first_of, send_cache_request_lem}
use http_dmmr_nginx.Access.Upstream.{upstream, upstream_of, rewritten, address_of}
use http_dmmr_nginx.Access.Auth.{auth, is_public}
use http_dmmr_nginx.Access.Handler.{LocConf, handler, enabled, address_in, rate_in, plugins}
use http_dmmr_nginx.Access.Admission.{IsAuthentic}
use http_dmmr_nginx.Access.Served.{IsForwarded, handler-IsForwarded}
use http_dmmr_nginx.Access.Merge.{Conf, create_main_conf, merge_loc_conf, nearest, or_default}
use http_dmmr_nginx.Access.Directives.{dmmr_enable, rate_limit_set, with_limit}
use http_dmmr_nginx.Access.Limits.{sets_enable, sets_limit, block, directed, merge_loc_conf-block}
use http_dmmr_nginx.Rate.Order.{direction, memcmp}
use http_dmmr_nginx.Rate.Tree.{lookup}
use http_dmmr_nginx.Rate.Zone.{
  ok, rate_limit, limit_locked, limit_found, limit_known, charge, elapsed,
}
use http_dmmr_nginx.Rate.Toy.{toy, sum}
use http_dmmr_nginx.Rate.Tests.{zone, local}

-- Comparison without folding of case.
abbrev exact : NgxString
exact = record { strncasecmp = λ xs ys n. strncmp xs ys }

-- /public and /public/x
abbrev public : Bytes
public = 47 ∷ 112 ∷ 117 ∷ 98 ∷ 108 ∷ 105 ∷ 99 ∷ []

abbrev public_x : Bytes
public_x = 47 ∷ 112 ∷ 117 ∷ 98 ∷ 108 ∷ 105 ∷ 99 ∷ 47 ∷ 120 ∷ []

abbrev low : Route
low = record {
  path = [];
  method = [];
  service_name = none;
  hosts = none;
  strip_path = false;
  priority = 1;
}

abbrev high : Route
high = record {
  path = public;
  method = [];
  service_name = some (115 ∷ []);
  hosts = none;
  strip_path = true;
  priority = 5;
}

abbrev tables : MainConf
tables = record {
  routes = some (low ∷ high ∷ []);
  services = some (record { name = 115 ∷ []; host = 104 ∷ []; port = 56 ∷ 48 ∷ [] } ∷ []);
}

abbrev asked : Request
asked = record {
  uri = public_x;
  method_name = 71 ∷ [];
  host = none;
  headers = [];
  args = [];
  args_len = 0;
}

best_of-IsBest_example :
    IsBest exact asked (low ∷ high ∷ []) (best_of exact asked (low ∷ high ∷ []) none)
best_of-IsBest_example = best_of-IsBest exact asked (low ∷ high ∷ [])

stripped_lem_example :
    ((public_x ≡ public) × (stripped public_x public ≡ 47 ∷ []))
    ⊎ ((1 ≤ length (stripped public_x public)) × (public_x ≡ public ++ stripped public_x public))
unfolding match_path strncmp
stripped_lem_example =
    stripped_lem public_x public
      (
        (λ e. omega arith),
        (
          (λ e. omega arith),
          (
            (λ e. omega arith),
            (
              (λ e. omega arith),
              ((λ e. omega arith), ((λ e. omega arith), ((λ e. omega arith), tt))),
            ),
          ),
        ),
      )
      refl

-- An answer with status 0 and the body "u", in two chunks.
abbrev two_chunks : List Bytes
two_chunks = (0 ∷ 0 ∷ 0 ∷ []) ∷ (0 ∷ 0 ∷ 1 ∷ 0 ∷ 0 ∷ 117 ∷ []) ∷ []

attempt-answer_in_example :
    attempt (record { connected = true; sent = true; chunks = two_chunks })
    ≡ answer_in (joined two_chunks)
attempt-answer_in_example = attempt-answer_in two_chunks (omega arith, (omega arith, tt))

abbrev always : ℕ → Bytes → Bytes → Exchange
always n c request = record { connected = true; sent = true; chunks = two_chunks }

send_cache_request_lem_example :
    send_cache_request (λ n. true) always (some []) (107 ∷ [])
    ≡ first_of
        (λ n. true)
        (answers (λ c. always 0 c (request_of (107 ∷ []))) (candidates [])
          ++ answers (λ c. always 1 c (request_of (107 ∷ []))) (candidates []))
send_cache_request_lem_example =
    send_cache_request_lem (λ n. true) always [] (107 ∷ []) (omega arith)

abbrev here_conf : Option LocConf
here_conf = some (record {
  enable = some true;
  cache_addr = [];
  rate = record { rate_limit = 3; rate_window = 500 };
})

handler_lets_through :
    (handler toy exact always (λ i n. true) here_conf (some tables) (some zone) local 1200 asked).rc
    ≡ ok
unfolding handler router among chosen routed linked_to with_service found_or strip best_of better
    route_matches match_path match_method match_host match_hosts host_fits strncmp stripped
    find_service upstream upstream_of rewritten address_of auth is_public plugins rate_limit
    limit_locked limit_found limit_known charge elapsed lookup direction memcmp sum bytes_eq
handler_lets_through = refl

handler-IsForwarded_example :
    let out =
      handler toy exact always (λ i n. true) here_conf (some tables) (some zone) local 1200 asked in
    (enabled here_conf ≡ true)
    × IsAuthentic (λ n. true) asked exact always (address_in here_conf)
    × ((rate_limit toy (rate_in here_conf) (some zone) local 1200).0 ≡ ok)
    × (out.zone ≡ (rate_limit toy (rate_in here_conf) (some zone) local 1200).1)
    × IsForwarded toy exact always
        (λ i n. true)
        here_conf
        (some tables)
        (some zone)
        local
        1200
        asked
        out
handler-IsForwarded_example =
    handler-IsForwarded toy exact always (λ i n. true) here_conf (some tables) (some zone) local
      1200 asked handler_lets_through

abbrev bare : Conf
bare = record {
  enable = none;
  services = none;
  routes = none;
  plugins = none;
  cache_addr = none;
  rate_limit = some 100;
  rate_window = none;
}

abbrev switched_on : Conf
switched_on = record bare { enable = some true; rate_limit = some 10 }

-- As create_main_conf makes it.
abbrev as_created : Conf
as_created = record bare { rate_window = some 60000 }

-- The arguments on and 10, one digit of a number each, and the first argument for an address.
abbrev one_digit : Bytes → Option ℕ
one_digit text = some (length text)

abbrev first_arg : List Bytes → Option Bytes → Option Bytes
first_arg [] old = none
first_arg (value ∷ rest) old = some value

abbrev limited : Conf
limited = record as_created { enable = some true; rate_limit = some 2 }

merge_loc_conf-block_example :
    let conf = merge_loc_conf (merge_loc_conf switched_on as_created) limited in
    (((n : ℕ) × (some 2 ≡ some n) × (conf.rate_limit ≡ some n) × (1 ≤ n))
      × ((w : ℕ) × (some 60000 ≡ some w) × (conf.rate_window ≡ some w) × (1 ≤ w)))
    × (conf.enable ≡ some (or_default (nearest (some true ∷ none ∷ some true ∷ [])) false))
    × (conf.cache_addr ≡ some (or_default (nearest (none ∷ none ∷ none ∷ [])) fallback_unix))
unfolding create_main_conf block directed dmmr_enable rate_limit_set with_limit bytes_eq
merge_loc_conf-block_example =
    merge_loc_conf-block one_digit first_arg
      (sets_enable ((111 ∷ 110 ∷ []) ∷ []) ∷ sets_limit ((49 ∷ 48 ∷ []) ∷ []) ∷ []) as_created
      limited as_created switched_on refl refl

-- /tmp/dmmr_cache.sock
fallback_unix_target :
    target_of fallback_unix
    ≡ some (
        unix (
          47 ∷ 116 ∷ 109 ∷ 112 ∷ 47 ∷ 100 ∷ 109 ∷ 109 ∷ 114 ∷ 95 ∷ 99 ∷ 97 ∷ 99 ∷ 104 ∷ 101 ∷ 46
          ∷ 115 ∷ 111 ∷ 99 ∷ 107 ∷ []))
unfolding target_of strncmp
fallback_unix_target = refl

-- 127.0.0.1 and 9080
fallback_tcp_target :
    target_of fallback_tcp
    ≡ some (tcp (49 ∷ 50 ∷ 55 ∷ 46 ∷ 48 ∷ 46 ∷ 48 ∷ 46 ∷ 49 ∷ []) (57 ∷ 48 ∷ 56 ∷ 48 ∷ []))
unfolding target_of strncmp tcp_target at_colon
fallback_tcp_target = refl

-- An address without a port leads nowhere.
no_port_target : target_of (116 ∷ 99 ∷ 112 ∷ 58 ∷ 97 ∷ []) ≡ none
unfolding target_of strncmp tcp_target at_colon
no_port_target = refl
