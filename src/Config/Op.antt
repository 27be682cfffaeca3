-- ===== src/Config/Op.antt =====
-- enum dmmr_opcode of http_dmmr_cache/dmmr_protocol.h, as the numbers on the wire.
use http_dmmr_nginx.Base.{ℕ}

abbrev pub get : ℕ
get = 1

abbrev pub set : ℕ
set = 2

abbrev pub del : ℕ
del = 3

abbrev pub sync : ℕ
sync = 4

abbrev pub cluster_hello : ℕ
cluster_hello = 5

abbrev pub cluster_peer_list : ℕ
cluster_peer_list = 6

abbrev pub cluster_sync_request : ℕ
cluster_sync_request = 7

abbrev pub cluster_sync_begin : ℕ
cluster_sync_begin = 8

abbrev pub cluster_sync_end : ℕ
cluster_sync_end = 9

abbrev pub auth_request : ℕ
auth_request = 13

abbrev pub auth_response : ℕ
auth_response = 14

abbrev pub auth_ok : ℕ
auth_ok = 15
