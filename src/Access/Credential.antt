-- ===== src/Access/Credential.antt =====
-- ngx_http_dmmr_extract_credential in nginx-dmmr-module-c/ngx_http_dmmr_auth.c
use http_dmmr_nginx.Base.{
  ◌&&◌, List, [], ◌∷◌, Option, none, some, if◌then◌else◌, Bytes, length, drop, ltb, ◌==◌,
}
use http_dmmr_nginx.Access.Types.{Request, NgxString}
use http_dmmr_nginx.Access.Router.{strncmp}

abbrev pub authorization : Bytes
authorization = 97 ∷ 117 ∷ 116 ∷ 104 ∷ 111 ∷ 114 ∷ 105 ∷ 122 ∷ 97 ∷ 116 ∷ 105 ∷ 111 ∷ 110 ∷ []

abbrev pub bearer_prefix : Bytes
bearer_prefix = 66 ∷ 101 ∷ 97 ∷ 114 ∷ 101 ∷ 114 ∷ 32 ∷ []

abbrev pub token_prefix : Bytes
token_prefix = 84 ∷ 111 ∷ 107 ∷ 101 ∷ 110 ∷ 32 ∷ []

abbrev pub x_api_key : Bytes
x_api_key = 120 ∷ 45 ∷ 97 ∷ 112 ∷ 105 ∷ 45 ∷ 107 ∷ 101 ∷ 121 ∷ []

abbrev pub apikey : Bytes
apikey = 97 ∷ 112 ∷ 105 ∷ 107 ∷ 101 ∷ 121 ∷ []

abbrev pub apikey_arg : Bytes
apikey_arg = 97 ∷ 112 ∷ 105 ∷ 107 ∷ 101 ∷ 121 ∷ 61 ∷ []

abbrev pub token_arg : Bytes
token_arg = 116 ∷ 111 ∷ 107 ∷ 101 ∷ 110 ∷ 61 ∷ []

-- strstr on a string that ends where the list does: the rest of it from the first match on.
unfoldable pub strstr : Bytes → Bytes → Option Bytes
strstr [] needle = if length needle == 0 then some [] else none
strstr (x ∷ xs) needle =
    let later = strstr xs needle in if strncmp (x ∷ xs) needle then some (x ∷ xs) else later

-- Up to the next &.
unfoldable pub until_amp : Bytes → Bytes
until_amp [] = []
until_amp (x ∷ xs) = let rest = until_amp xs in if x == 38 then [] else x ∷ rest

unfoldable pub or_else : Option Bytes → Option Bytes → Option Bytes
or_else none o = o
or_else (some x) o = some x

-- The credential at a match in the arguments, behind the name that the first byte tells.
unfoldable pub at_match : Option Bytes → Option Bytes
at_match none = none
at_match (some []) = some []
at_match (some (x ∷ xs)) = some (until_amp (drop (if x == 97 then 7 else 6) (x ∷ xs)))

module _ (str : NgxString) where
  unfoldable pub get_header_value : List (Bytes × Bytes) → Bytes → Option Bytes
  get_header_value [] name = none
  get_header_value ((key, value) ∷ rest) name =
      let later = get_header_value rest name in
      if (length key == length name) && str.strncasecmp key name (length name)
      then some value
      else later

  -- The credential of an Authorization header.
  unfoldable pub from_auth : Option Bytes → Option Bytes
  from_auth none = none
  from_auth (some h) =
      if ltb 7 (length h) && str.strncasecmp h bearer_prefix 7
      then some (drop 7 h)
      else if ltb 6 (length h) && str.strncasecmp h token_prefix 6
      then some (drop 6 h)
      else none

  unfoldable pub not_empty : Option Bytes → Option Bytes
  not_empty none = none
  not_empty (some h) = if ltb 0 (length h) then some h else none

  unfoldable pub from_args : Request → Option Bytes
  from_args r =
      if ltb 0 r.args_len
      then at_match (or_else (strstr r.args apikey_arg) (strstr r.args token_arg))
      else none

  -- `none` is NGX_DECLINED.
  unfoldable pub extract_credential : Request → Option Bytes
  extract_credential r = or_else (from_auth (get_header_value r.headers authorization)) (
      or_else (not_empty (get_header_value r.headers x_api_key))
        (or_else (not_empty (get_header_value r.headers apikey)) (from_args r)))
