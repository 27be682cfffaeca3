-- ===== src/Db/Lww.antt =====
-- The specification of last-writer-wins replication: what one key of a store may become.
use http_dmmr_nginx.Base.{
  ◌≡◌, Bool, ◌&&◌, ◌||◌, Option, none, some, arith, ltb, ◌==◌, if◌then◌else◌,
}
use http_dmmr_nginx.Db.Codec.{Entry}
use http_dmmr_nginx.Db.Record.{DbResult, applied, ignored}

-- Whether a write replaces what is stored: a later timestamp, or the same one from a higher node.
unfoldable pub wins : Entry → Entry → Bool
wins old new =
    ltb old.timestamp new.timestamp
    || ((old.timestamp == new.timestamp) && ltb old.node_id new.node_id)

unfoldable pub merge : Option Entry → Entry → Option Entry
merge none new = some new
merge (some old) new = if wins old new then some new else some old

-- What a delivery reports.
unfoldable pub result_of : Option Entry → Entry → DbResult
result_of none new = applied
result_of (some old) new = if wins old new then applied else ignored

-- Two writes of a key agree if one stamp (timestamp and node) names at most one of them.
abbrev pub Agree : Entry → Entry → Type 0
Agree a b = a.timestamp ≡ b.timestamp → a.node_id ≡ b.node_id → a ≡ b

pub merge_comm :
    (v : Option Entry) (a b : Entry) → Agree a b → merge (merge v a) b ≡ merge (merge v b) a
unfolding merge wins
merge_comm none a b h = ground (arith, h)
merge_comm (some o) a b h = ground (arith, h)

pub merge_idem : (v : Option Entry) (a : Entry) → merge (merge v a) a ≡ merge v a
unfolding merge wins
merge_idem none a = ground arith
merge_idem (some o) a = ground arith
