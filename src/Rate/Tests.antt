-- ===== src/Rate/Tests.antt =====
-- Runs of the rate limiter over a small nginx, and the theorems at concrete inputs.
use http_dmmr_nginx.Base.{
  ℕ, ◌≡◌, ◌≢◌, refl, [], ◌∷◌, none, some, arith, if◌then◌else◌, ◌⊎◌, Bytes, leb, ◌-◌, List,
  bytes_eq, sym, ◌∙◌,
}
use http_dmmr_nginx.Rate.Order.{Ident, here, direction, memcmp}
use http_dmmr_nginx.Rate.Tree.{Tree, sentinel, node, inorder, lookup, rbtree_insert, Sorted}
use http_dmmr_nginx.Rate.Sorted.{insert_sorted, inorder-rbtree_insert}
use http_dmmr_nginx.Rate.Zone.{
  RateNode, Zone, charge, elapsed, ok, too_many_requests, service_unavailable, limit_locked,
  rate_limit,
}
use http_dmmr_nginx.Rate.Valid.{IsValid, entry_of}
use http_dmmr_nginx.Rate.Limit.{client_of, first_entry, Fades}
use http_dmmr_nginx.Rate.Request.{
  is_same, limit_locked-charge, limit_locked_admits, rate_limit-IsValid, ZoneIsValid,
}
use http_dmmr_nginx.Rate.Window.{Request, passed, made_by, passed_lem}
use http_dmmr_nginx.Rate.Toy.{toy, listed, sum}

-- A client at 127.0.0.1 that has made one request of three, in a zone with its entry alone.
abbrev pub local : Bytes
local = 49 ∷ 50 ∷ 55 ∷ []

abbrev pub used : RateNode
used = record { hash = 154; window_start = 1000; count = 1; key_len = 3; key = local }

abbrev pub zone : Zone toy
zone = record { tree = node sentinel 8 sentinel; lru = 8 ∷ []; heap = λ a. used; slab = 8 ∷ [] }

zone-IsValid : IsValid toy zone
unfolding listed inorder
zone-IsValid = record { sorted = (tt, tt); linked = λ a. refl; backed = λ a h. ground arith }

zone-used : entry_of toy zone (client_of toy local) ≡ some used
unfolding entry_of lookup direction memcmp sum
zone-used = refl

abbrev other : Bytes
other = 50 ∷ []

zone-other : entry_of toy zone (client_of toy other) ≡ none
unfolding entry_of lookup direction memcmp sum
zone-other = refl

limit_locked-charge_example :
    let r = limit_locked toy 3 500 1200 local zone in
    let after = charge 3 500 1200 used in
    IsValid toy r.1
    × (r.0 ≡ (if after.0 then too_many_requests else ok))
    × (entry_of toy r.1 (client_of toy other) ≡ (
        if is_same (client_of toy other) (client_of toy local)
        then some after.1
        else entry_of toy zone (client_of toy other)))
limit_locked-charge_example =
    limit_locked-charge toy zone zone-IsValid local 3 500 1200 used zone-used (client_of toy other)

limit_locked_admits_example :
    let r = limit_locked toy 3 500 1200 other zone in
    IsValid toy r.1
    × (((r.0 ≡ ok) × (entry_of toy r.1 (client_of toy other) ≡ some (first_entry toy 1200 other)))
        ⊎ ((r.0 ≡ service_unavailable) × (entry_of toy r.1 (client_of toy other) ≡ none)))
    × ((direction (client_of toy local) (client_of toy other) ≡ here)
        ⊎ Fades toy zone r.1 (client_of toy local))
limit_locked_admits_example =
    limit_locked_admits toy zone zone-IsValid other 3 500 1200 (omega arith) zone-other
      (client_of toy local)

rate_limit-IsValid_example : ZoneIsValid toy (rate_limit toy none (some zone) local 1200).1
rate_limit-IsValid_example = rate_limit-IsValid toy none (some zone) local 1200 zone-IsValid

abbrev run : List Request
run =
    record { key = local; now = 1100 }
    ∷ record { key = local; now = 1200 }
    ∷ record { key = local; now = 1300 }
    ∷ []

passed_lem_example :
    passed toy 3 500 local run zone
    ≡ (if leb (made_by local run) (3 - 1) then made_by local run else 3 - 1)
unfolding elapsed
passed_lem_example = passed_lem toy 3 500 (omega arith) local run zone used zone-IsValid zone-used (
  (listed_local, λ _. omega arith),
  ((listed_local, λ _. omega arith), ((listed_local, λ _. omega arith), tt)),
)
  where
    listed_local : entry_of toy zone (client_of toy local) ≢ none
    listed_local e = clash (sym zone-used ∙ e)
      where
        clash : some used ≡ none → ⊥
        clash c = cc

-- Three nodes with the hashes 3, 5 and 9.
abbrev hashed : ℕ → Ident
hashed a = record { hash = a; key = [] }

abbrev small : Tree
small = node (node sentinel 3 sentinel) 5 (node sentinel 9 sentinel)

small-Sorted : Sorted hashed (inorder small)
unfolding inorder direction
small-Sorted = ((refl, (refl, tt)), ((refl, tt), (tt, tt)))

inorder-rbtree_insert_example :
    inorder (rbtree_insert hashed small 4) ≡ insert_sorted hashed 4 (inorder small)
inorder-rbtree_insert_example = inorder-rbtree_insert hashed small 4 small-Sorted

-- Of three more requests under a limit of three, two are let through.
third_is_limited : passed toy 3 500 local run zone ≡ 2
third_is_limited = passed_lem_example ∙ (unfold bytes_eq in refl)
