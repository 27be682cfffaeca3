-- ===== src/Config.antt =====
-- Constants of http_dmmr_cache/dmmr_config.h, dmmr_protocol.h and dmmr_cluster.h.
pub mod Op
use http_dmmr_nginx.Base.{ℕ, ◌*◌}

abbrev pub max_key_len : ℕ
max_key_len = 1024

abbrev pub max_value_len : ℕ
max_value_len = 1024 * 1024

abbrev pub dmmr_magic : ℕ
dmmr_magic = 0xd4d4

abbrev pub dmmr_version : ℕ
dmmr_version = 1

abbrev pub dmmr_cluster_version : ℕ
dmmr_cluster_version = 3

abbrev pub cluster_name_max : ℕ
cluster_name_max = 63

abbrev pub auth_ttl_micros : ℕ
auth_ttl_micros = 10 * 60 * 1_000_000
