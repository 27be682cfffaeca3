-- ===== src/Db/Toy.antt =====
-- A store that meets the assumptions on Berkeley DB: an association list, newest binding first.
use http_dmmr_nginx.Base.{
  ◌≡◌, ◌≢◌, Bool, true, false, List, [], ◌∷◌, some, arith, if◌then◌else◌, Bytes, bytes_eq,
  bytes_eq_iff, bytes_eq_refl,
}
use http_dmmr_nginx.Db.Ops.{BerkeleyDb, Found, found, absent, Fetch, fetched}

abbrev pub Table : Type 0
Table = List (Bytes × Bytes)

unfoldable pub table_get : Table → Bytes → Found
table_get [] k = absent
table_get ((j, d) ∷ rest) k = if bytes_eq j k then found d else table_get rest k

-- The shadowed bindings are not fetched.
unfoldable pub table_fetches : List Bytes → Table → List Fetch
table_fetches seen [] = []
table_fetches seen ((j, d) ∷ rest) =
    let more = table_fetches (j ∷ seen) rest in if mem j seen then more else fetched j d ∷ more
  where
    mem : Bytes → List Bytes → Bool
    mem k [] = false
    mem k (x ∷ xs) = if bytes_eq x k then true else mem k xs

pub table_get-put :
    (s t : Table) (k d : Bytes) → some ((k, d) ∷ s) ≡ some t → table_get t k ≡ found d
unfolding table_get
table_get-put s t k d p = let q : (k, d) ∷ s ≡ t = cc in rw (← q, bytes_eq_refl k)

pub table_get-put_ne :
    (s t : Table) (k j d : Bytes)
    → some ((k, d) ∷ s) ≡ some t
    → k ≢ j
    → table_get t j ≡ table_get s j
unfolding table_get
table_get-put_ne s t k j d p ne =
    let q : (k, d) ∷ s ≡ t = cc in rw (← q) (ground (arith, bytes_eq_iff k j))

abbrev pub toy : BerkeleyDb
toy = record {
  State = Table;
  get = table_get;
  put = λ s k d. some ((k, d) ∷ s);
  open_cursor = λ s. some (table_fetches [] s);
  get-put = table_get-put;
  get-put_ne = table_get-put_ne;
}
