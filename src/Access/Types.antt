-- ===== src/Access/Types.antt =====
-- The structures of nginx-dmmr-module-c/ngx_http_dmmr_module.h. An ngx_str_t is its bytes, a NULL
-- array or string is `none`.
use http_dmmr_nginx.Base.{ℕ, Bool, List, Option, Bytes}

-- ngx_http_dmmr_route_t
pub record Route : Type 0 where
  pub path : Bytes
  pub method : Bytes
  pub service_name : Option Bytes
  pub hosts : Option (List Bytes)
  pub strip_path : Bool
  pub priority : ℕ

-- ngx_http_dmmr_service_t
pub record Service : Type 0 where
  pub name : Bytes
  pub host : Bytes
  pub port : Bytes

-- ngx_http_dmmr_ctx_t
pub record Ctx : Type 0 where
  pub route : Option Route
  pub service : Option Service
  pub upstream_name : Option Bytes
  pub new_uri : Option Bytes
  pub authenticated : Bool
  pub auth_user : Option Bytes

-- The routing tables of the main ngx_http_dmmr_conf_t.
pub record MainConf : Type 0 where
  pub routes : Option (List Route)
  pub services : Option (List Service)

-- What the module reads of ngx_http_request_t. `args` is the memory from the arguments on up to the
-- next NUL, of which the first `args_len` bytes are the arguments.
pub record Request : Type 0 where
  pub uri : Bytes
  pub method_name : Bytes
  pub host : Option Bytes
  pub headers : List (Bytes × Bytes)
  pub args : Bytes
  pub args_len : ℕ

-- ngx_strncasecmp of two strings over their first n bytes, as its test for equality.
pub record NgxString : Type 0 where
  pub strncasecmp : Bytes → Bytes → ℕ → Bool
