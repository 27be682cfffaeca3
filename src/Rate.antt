-- ===== src/Rate.antt =====
-- nginx-dmmr-module-c/ngx_http_dmmr_rate_limit.c
pub mod Order
pub mod Tree
pub mod Sorted
pub mod Ascending
pub mod Zone
pub mod Valid
pub mod Touch
pub mod Admit
pub mod Limit
pub mod Request
pub mod Window
pub mod Toy
pub mod Tests
