-- ===== src/Db/Snapshot.antt =====
-- db_snapshot_foreach of dmmr_db.c: the cursor walk that sends a node's records to a new peer.
use http_dmmr_nginx.Base.{ℕ, ◌≡◌, refl, true, List, [], ◌∷◌, ◌++◌, arith, Bytes, All}
use http_dmmr_nginx.Db.Ops.{Fetch, fetched, fetch_failed}
use http_dmmr_nginx.Db.Cursor.{DbRecord, snapshot_loop, snapshot_record}
use http_dmmr_nginx.Db.Record.{applied, error, entry_is_valid}
use http_dmmr_nginx.Db.Views.{IsKey, plenty}

-- A pair that the walk accepts.
abbrev pub IsFetched : Bytes × Bytes → Type 0
IsFetched p = IsKey p.0 × (entry_is_valid p.1 ≡ true)

abbrev pub as_fetches : List (Bytes × Bytes) → List Fetch
as_fetches [] = []
as_fetches ((k, d) ∷ ps) = fetched k d ∷ as_fetches ps

module _ {ℓ} {A : Type ℓ} (send : DbRecord → A → A × ℕ) where
  -- The records of a walk handed to the callback in order, none left out.
  abbrev pub send_all : List (Bytes × Bytes) → A → A
  send_all [] a = a
  send_all ((k, d) ∷ ps) a = send_all ps (send (snapshot_record k d) a).0

  -- Every call of the callback along the walk returns 0.
  abbrev pub AllSent : List (Bytes × Bytes) → A → Type 0
  AllSent [] a = Unit {0}
  AllSent ((k, d) ∷ ps) a =
      ((send (snapshot_record k d) a).1 ≡ 0) × AllSent ps (send (snapshot_record k d) a).0

  -- If calloc serves, the fetched pairs are valid and the callback accepts their records, then the
  -- walk goes on from the state in which the callback has had each of those records once, in order.
  snapshot_loop-append :
      (ps : List (Bytes × Bytes)) (rest : List Fetch) (a : A)
      → All IsFetched ps
      → AllSent ps a
      → snapshot_loop plenty send (as_fetches ps ++ rest) a
        ≡ snapshot_loop plenty send rest (send_all ps a)
  unfolding snapshot_loop
  snapshot_loop-append [] rest a v sent = refl
  snapshot_loop-append ((k, d) ∷ ps) rest a v sent =
      ground (arith, snapshot_loop-append ps rest (send (snapshot_record k d) a).0 v.1 sent.1)

  -- When calloc serves and the callback accepts every record, a walk over valid pairs succeeds and
  -- hands every record to the callback, in order; and one that meets a failed fetch after some valid
  -- pairs does that with those pairs and is reported as an error.
  pub snapshot_loop-send_all :
      (ps : List (Bytes × Bytes)) (rest : List Fetch) (a : A)
      → All IsFetched ps
      → AllSent ps a
      → (snapshot_loop plenty send (as_fetches ps ++ []) a ≡ (applied, send_all ps a))
        × (snapshot_loop plenty send (as_fetches ps ++ (fetch_failed ∷ rest)) a
            ≡ (error, send_all ps a))
  unfolding snapshot_loop
  snapshot_loop-send_all ps rest a v sent =
      (snapshot_loop-append ps [] a v sent, snapshot_loop-append ps (fetch_failed ∷ rest) a v sent)
