-- ===== src/Db/Walk.antt =====
-- db_snapshot_foreach of dmmr_db.c on every branch: how far the walk gets, and what it reports.
use http_dmmr_nginx.Base.{
  ℕ, ◌≡◌, ◌≢◌, ◌⊎◌, refl, ap, Bool, true, false, not, ◌&&◌, ◌||◌, List, [], ◌∷◌, ◌++◌, arith, Bytes,
  All, length, ltb, ◌==◌, Bool-cases, inl, inr,
}
use http_dmmr_nginx.Config.{max_key_len}
use http_dmmr_nginx.Db.Cursor.{DbRecord, snapshot_loop, snapshot_record}
use http_dmmr_nginx.Db.Ops.{Fetch, fetched, fetch_failed}
use http_dmmr_nginx.Db.Record.{
  DbResult, applied, error, entry_is_valid, read_entry, dmmr_record_value_len,
}
use http_dmmr_nginx.Db.Snapshot.{IsFetched, as_fetches, send_all, AllSent}

fetched_lem :
    (k d : Bytes)
    → (not (entry_is_valid d) || ((length k == 0) || ltb max_key_len (length k))) ≡ false
    → IsFetched (k, d)
fetched_lem k d good = ground (arith, good)

no_memory :
    (key_room value_room with_value : Bool)
    → (not key_room || (with_value && not value_room)) ≡ true
    → (key_room ≡ false) ⊎ (value_room ≡ false)
no_memory false value_room with_value h = inl refl
no_memory true false with_value h = inr refl
no_memory true true true h = cc
no_memory true true false h = cc

module _ {ℓ} {A : Type ℓ} (alloc : ℕ → Bool) (send : DbRecord → A → A × ℕ) where
  -- What stops a walk at the cursor: a failed fetch, a pair that is no record under a key of a valid
  -- length, or no memory for one.
  abbrev pub Stops : List Fetch → Type 0
  Stops [] = ⊥
  Stops (fetch_failed ∷ rest) = Unit {0}
  Stops (fetched k d ∷ rest) =
      (IsFetched (k, d) → ⊥)
      ⊎ ((alloc (length k) ≡ false) ⊎ (alloc (dmmr_record_value_len (read_entry d)) ≡ false))

  -- The callback accepts every record but the last.
  abbrev pub Refuses : List (Bytes × Bytes) → A → Type 0
  Refuses [] a = ⊥
  Refuses ((k, d) ∷ ps) a =
      ((ps ≡ []) × ((send (snapshot_record k d) a).1 ≢ 0))
      ⊎ (((send (snapshot_record k d) a).1 ≡ 0) × Refuses ps (send (snapshot_record k d) a).0)

  abbrev pub Reports : List (Bytes × Bytes) → List Fetch → A → DbResult → Type 0
  Reports ps rest a r =
      ((r ≡ applied) × (rest ≡ []) × AllSent send ps a)
      ⊎ ((r ≡ error) × ((AllSent send ps a × Stops rest) ⊎ Refuses ps a))

  abbrev pub Walks : List Fetch → A → DbResult × A → Type ℓ
  Walks fs a r =
      (ps : List (Bytes × Bytes)) × (rest : List Fetch) × (fs ≡ as_fetches ps ++ rest)
      × All IsFetched ps
      × (r.1 ≡ send_all send ps a)
      × Reports ps rest a r.0

  module _ (k d : Bytes) (rest : List Fetch) (a : A) where
    abbrev called : A × ℕ
    called = send (snapshot_record k d) a

    stopped : Stops (fetched k d ∷ rest) → Walks (fetched k d ∷ rest) a (error, a)
    stopped h = ([], fetched k d ∷ rest, refl, tt, refl, inr (refl, inl (tt, h)))

    refused : IsFetched (k, d) → called.1 ≢ 0 → Walks (fetched k d ∷ rest) a (error, called.0)
    refused v h = ((k, d) ∷ [], rest, refl, (v, tt), refl, inr (refl, inr (inl (refl, h))))

    went_on :
        (r : DbResult × A)
        → IsFetched (k, d)
        → called.1 ≡ 0
        → Walks rest called.0 r
        → Walks (fetched k d ∷ rest) a r
    went_on r v h (ps, left, e, vs, state, inl (done, last, sent)) =
        ((k, d) ∷ ps, left, ap (◌∷◌ (fetched k d)) e, (v, vs), state, inl (done, last, (h, sent)))
    went_on r v h (ps, left, e, vs, state, inr (failed, inl (sent, stop))) = (
      (k, d) ∷ ps,
      left,
      ap (◌∷◌ (fetched k d)) e,
      (v, vs),
      state,
      inr (failed, inl ((h, sent), stop)),
    )
    went_on r v h (ps, left, e, vs, state, inr (failed, inr denied)) = (
      (k, d) ∷ ps,
      left,
      ap (◌∷◌ (fetched k d)) e,
      (v, vs),
      state,
      inr (failed, inr (inr (h, denied))),
    )

  -- Whatever the cursor gives, and whatever calloc and the callback do: the callback is handed the
  -- records of valid pairs with keys of 1 to 1024 bytes from the start of the walk, each once and in
  -- order. The walk succeeds only when the cursor has no more pairs and the callback accepted every
  -- record; it is an error only at a failed fetch, an invalid pair, a lack of memory, or the first record
  -- that the callback does not accept.
  pub snapshot_loop-Walks : (fs : List Fetch) (a : A) → Walks fs a (snapshot_loop alloc send fs a)
  unfolding snapshot_loop
  snapshot_loop-Walks [] a = ([], [], refl, tt, refl, inl (refl, refl, tt))
  snapshot_loop-Walks (fetch_failed ∷ rest) a =
      ([], fetch_failed ∷ rest, refl, tt, refl, inr (refl, inl (tt, tt)))
  snapshot_loop-Walks (fetched k d ∷ rest) a =
      let value_len = dmmr_record_value_len (read_entry d) in
      elim (Bool-cases
        (not (entry_is_valid d) || ((length k == 0) || ltb max_key_len (length k)))) [
          | inl bad ↦ rw bad (stopped k d rest a (inl (λ v. ground (arith, bad, v))))
          | inr good ↦
              elim (Bool-cases
                (not (alloc (length k)) || (not (value_len == 0) && not (alloc value_len)))) [
                  | inl short ↦
                      rw (good, short)
                        (stopped k d rest a (
                          inr (
                            no_memory (alloc (length k)) (alloc value_len) (not (value_len == 0))
                              short)))
                  | inr room ↦ elim (Bool-cases ((send (snapshot_record k d) a).1 == 0)) [
                    | inl fine ↦
                        rw (good, room, fine)
                          (went_on k d rest a _ (fetched_lem k d good) (ground (arith, fine))
                            (snapshot_loop-Walks rest (send (snapshot_record k d) a).0))
                    | inr denied ↦
                        rw (good, room, denied)
                          (refused k d rest a (fetched_lem k d good) (ground (arith, denied)))
                  ]
                ]
        ]
