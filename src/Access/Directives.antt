-- ===== src/Access/Directives.antt =====
-- The directives of nginx-dmmr-module-c/ngx_http_dmmr_module.c, and the rate zone's directive and
-- set-up in ngx_http_dmmr_rate_limit.c. `args` is the directive's arguments without its name; nginx
-- checks their number before it calls. ngx_atoi and ngx_parse_size are parameters: `none` is NGX_ERROR.
use http_dmmr_nginx.Base.{
  ℕ, ◌*◌, Bool, true, false, ◌||◌, List, [], ◌∷◌, ◌++◌, Option, none, some, if◌then◌else◌, Bytes,
  bytes_eq, length, ltb, ◌==◌,
}
use http_dmmr_nginx.Access.Connect.{at_colon}
use http_dmmr_nginx.Access.Merge.{Conf}
use http_dmmr_nginx.Access.Types.{Route}

-- NGX_CONF_OK with the new configuration, or an error.
pub data Configured : Type 0 where
  conf_ok : Conf → Configured
  conf_error : Configured

-- on and off
abbrev pub on_word : Bytes
on_word = 111 ∷ 110 ∷ []

abbrev pub off_word : Bytes
off_word = 111 ∷ 102 ∷ 102 ∷ []

unfoldable pub dmmr_enable : List Bytes → Conf → Configured
dmmr_enable (value ∷ []) conf =
    if bytes_eq value on_word
    then conf_ok (record conf { enable = some true })
    else if bytes_eq value off_word
    then conf_ok (record conf { enable = some false })
    else conf_error
dmmr_enable _ conf = conf_error

-- An array with one more element; NULL is an empty one that is created first.
abbrev pub pushed {ℓ} : {A : Type ℓ} → Option (List A) → A → List A
pushed none a = a ∷ []
pushed (some xs) a = xs ++ a ∷ []

-- `room` says whether the pool serves the array and its element.
unfoldable pub dmmr_service : Bool → List Bytes → Conf → Configured
dmmr_service room (name ∷ host ∷ port ∷ rest) conf =
    if room
    then conf_ok (record conf {
      services = some (pushed conf.services (record { name = name; host = host; port = port }));
    })
    else conf_error
dmmr_service room _ conf = conf_error

unfoldable pub dmmr_route : Bool → List Bytes → Conf → Configured
dmmr_route room (path ∷ service_name ∷ rest) conf =
    let made : Route = record {
      path = path;
      method = [];
      service_name = some service_name;
      hosts = none;
      strip_path = false;
      priority = 0;
    } in
    if room then conf_ok (record conf { routes = some (pushed conf.routes made) }) else conf_error
dmmr_route room _ conf = conf_error

module _ (atoi : Bytes → Option ℕ) where
  abbrev pub positive : Option ℕ → Option ℕ
  positive none = none
  positive (some n) = if n == 0 then none else some n

  unfoldable pub with_limit : Conf → Option ℕ → Configured
  with_limit conf none = conf_error
  with_limit conf (some n) = conf_ok (record conf { rate_limit = some n })

  unfoldable pub rate_limit_set : List Bytes → Conf → Configured
  rate_limit_set (value ∷ []) conf = with_limit conf (positive (atoi value))
  rate_limit_set _ conf = conf_error

  unfoldable pub with_window : Conf → Option ℕ → Configured
  with_window conf none = conf_error
  with_window conf (some n) = conf_ok (record conf { rate_window = some n })

  unfoldable pub rate_window_set : List Bytes → Conf → Configured
  rate_window_set (value ∷ []) conf = with_window conf (positive (atoi value))
  rate_window_set _ conf = conf_error

-- A shared memory zone: its name and size.
pub record ShmZone : Type 0 where
  pub name : Bytes
  pub size : ℕ

-- dmmr_rate_limit
abbrev pub default_zone_name : Bytes
default_zone_name =
    100 ∷ 109 ∷ 109 ∷ 114 ∷ 95 ∷ 114 ∷ 97 ∷ 116 ∷ 101 ∷ 95 ∷ 108 ∷ 105 ∷ 109 ∷ 105 ∷ 116 ∷ []

-- DMMR_DEFAULT_RATE_ZONE_SIZE
abbrev pub default_zone_size : ℕ
default_zone_size = 10 * 1024 * 1024

module _ (parse_size : Bytes → Option ℕ) (pagesize : ℕ) (add : Bytes → ℕ → Bool) where
  unfoldable pub zone_of_size : Bytes → Option ℕ → Option ShmZone
  zone_of_size name none = none
  zone_of_size name (some size) =
      if ltb size (8 * pagesize)
      then none
      else if add name size
      then some (record { name = name; size = size })
      else none

  unfoldable pub zone_of_parts : Option (Bytes × Bytes) → Option ShmZone
  zone_of_parts none = none
  zone_of_parts (some (name, size)) =
      if (length name == 0) || (length size == 0) then none else zone_of_size name (parse_size size)

  -- The zone of a directive name:size, for a configuration that has none yet.
  unfoldable pub rate_zone : Option ShmZone → Bytes → Option ShmZone
  rate_zone (some zone) value = none
  rate_zone none value = zone_of_parts (at_colon value)

  -- The zone behind the configuration, with the default name and size if there is none.
  unfoldable pub rate_init : Option ShmZone → Option ShmZone
  rate_init (some zone) = some zone
  rate_init none =
      if add default_zone_name default_zone_size
      then some (record { name = default_zone_name; size = default_zone_size })
      else none
