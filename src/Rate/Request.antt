-- ===== src/Rate/Request.antt =====
-- A request between lock and unlock in ngx_http_dmmr_rate_limit, for a client with and without an
-- entry.
use http_dmmr_nginx.Base.{
  ℕ, ◌≡◌, ◌≢◌, Bool, true, false, ap, ◌∙◌, ◌<◌, refl, sym, ap, ◌∙◌, false, Option, none, some,
  arith, if◌then◌else◌, inl, inr, ◌⊎◌, ◌||◌, Bytes, length, ltb, ◌==◌, Bool-cases,
}
use http_dmmr_nginx.Rate.Order.{
  Ident, Dir, left, right, here, direction, direction_refl, direction_here,
}
use http_dmmr_nginx.Rate.Tree.{inorder}
use http_dmmr_nginx.Rate.Sorted.{find, lookup-find}
use http_dmmr_nginx.Rate.Zone.{
  RateNode, Nginx, RateConf, Zone, ident, charge, ok, too_many_requests, service_unavailable,
  limit_found, limit_locked, limit_of, window_of, rate_limit,
}
use http_dmmr_nginx.Rate.Valid.{IsValid, entry_of, entry_found, entry_of-find}
use http_dmmr_nginx.Rate.Limit.{client_of, first_entry, Fades, limit_known_lem, limit_new_lem}

abbrev pub is_here : Dir → Bool
is_here here = true
is_here _ = false

abbrev pub is_same : Ident → Ident → Bool
is_same q p = is_here (direction q p)

module _ (ngx : Nginx) where
  module _ (sh : Zone ngx) (v : IsValid ngx sh) (key : Bytes) (l w now : ℕ) where
    looked_up :
        (o : Option ℕ)
        → find (ident ngx sh) (inorder sh.tree) (client_of ngx key) ≡ o
        → limit_locked ngx l w now key sh ≡ limit_found ngx l w now key o sh
    unfolding limit_locked
    looked_up o e =
        ap (λ p. limit_found ngx l w now key p sh)
          (lookup-find (ident ngx sh) sh.tree (client_of ngx key) v.sorted ∙ e)

    pub charged :
        (n : RateNode)
        → entry_of ngx sh (client_of ngx key) ≡ some n
        → let r = limit_locked ngx l w now key sh in
          let after = charge l w now n in
          IsValid ngx r.1
          × (r.0 ≡ (if after.0 then too_many_requests else ok))
          × (entry_of ngx r.1 (client_of ngx key) ≡ some after.1)
          × ((q : Ident) → q ≢ client_of ngx key → entry_of ngx r.1 q ≡ entry_of ngx sh q)
    unfolding limit_found
    charged n e = go (find (ident ngx sh) (inorder sh.tree) (client_of ngx key)) refl
      where
        found :
            (o : Option ℕ)
            → find (ident ngx sh) (inorder sh.tree) (client_of ngx key) ≡ o
            → entry_found ngx sh o ≡ some n
        found o f =
            ap (entry_found ngx sh) (sym f) ∙ (sym (entry_of-find ngx sh (client_of ngx key) v) ∙ e)

        go :
            (o : Option ℕ)
            → find (ident ngx sh) (inorder sh.tree) (client_of ngx key) ≡ o
            → let r = limit_locked ngx l w now key sh in
              let after = charge l w now n in
              IsValid ngx r.1
              × (r.0 ≡ (if after.0 then too_many_requests else ok))
              × (entry_of ngx r.1 (client_of ngx key) ≡ some after.1)
              × ((q : Ident) → q ≢ client_of ngx key → entry_of ngx r.1 q ≡ entry_of ngx sh q)
        go none f = absurd (clash (found none f))
          where
            clash : none ≡ some n → ⊥
            clash c = cc
        go (some a) f =
            let same : sh.heap a ≡ n = cc (found (some a) f) in
            rw (looked_up (some a) f, ← same) (limit_known_lem ngx l w now a sh key v f)

    -- A request of a client with an entry, in a valid zone: what `charge` says of the entry decides
    -- between NGX_OK and NGX_HTTP_TOO_MANY_REQUESTS and is the entry after it. The zone stays valid
    -- and every other client keeps its entry as it was.
    pub limit_locked-charge :
        (n : RateNode)
        → entry_of ngx sh (client_of ngx key) ≡ some n
        → (q : Ident)
        → let r = limit_locked ngx l w now key sh in
          let after = charge l w now n in
          IsValid ngx r.1
          × (r.0 ≡ (if after.0 then too_many_requests else ok))
          × (entry_of ngx r.1 q
              ≡ (if is_same q (client_of ngx key) then some after.1 else entry_of ngx sh q))
    limit_locked-charge n e q = (step.0, step.1, go (direction q (client_of ngx key)) refl)
      where
        step :
            let r = limit_locked ngx l w now key sh in
            let after = charge l w now n in
            IsValid ngx r.1
            × (r.0 ≡ (if after.0 then too_many_requests else ok))
            × (entry_of ngx r.1 (client_of ngx key) ≡ some after.1)
            × ((q : Ident) → q ≢ client_of ngx key → entry_of ngx r.1 q ≡ entry_of ngx sh q)
        step = charged n e

        elsewhere :
            direction q (client_of ngx key) ≢ here
            → entry_of ngx (limit_locked ngx l w now key sh).1 q ≡ entry_of ngx sh q
        elsewhere ne = step.3 q (λ p.
            ne (ap (λ x. direction x (client_of ngx key)) p ∙ direction_refl (client_of ngx key)))

        go :
            (d : Dir)
            → direction q (client_of ngx key) ≡ d
            → entry_of ngx (limit_locked ngx l w now key sh).1 q ≡ (
                if is_same q (client_of ngx key)
                then some (charge l w now n).1
                else entry_of ngx sh q)
        go here d = rw d (
            ap (entry_of ngx (limit_locked ngx l w now key sh).1)
              (direction_here q (client_of ngx key) d)
            ∙ step.2)
        go left d = rw d (elsewhere (λ h. cc))
        go right d = rw d (elsewhere (λ h. cc))

    -- A request of a client without an entry, in a valid zone, with a key shorter than 256 bytes:
    -- it is let through and leaves a first entry, or it is answered NGX_HTTP_SERVICE_UNAVAILABLE
    -- and leaves none. The zone stays valid, and the entry of any other client is as it was or gone.
    pub limit_locked_admits :
        length key < 256
        → entry_of ngx sh (client_of ngx key) ≡ none
        → (q : Ident)
        → let r = limit_locked ngx l w now key sh in
          IsValid ngx r.1
          × (((r.0 ≡ ok) × (entry_of ngx r.1 (client_of ngx key) ≡ some (first_entry ngx now key)))
              ⊎ ((r.0 ≡ service_unavailable) × (entry_of ngx r.1 (client_of ngx key) ≡ none)))
          × ((direction q (client_of ngx key) ≡ here) ⊎ Fades ngx sh r.1 q)
    unfolding limit_found
    limit_locked_admits fits absent q =
        go (find (ident ngx sh) (inorder sh.tree) (client_of ngx key)) refl
      where
        go :
            (o : Option ℕ)
            → find (ident ngx sh) (inorder sh.tree) (client_of ngx key) ≡ o
            → let r = limit_locked ngx l w now key sh in
              IsValid ngx r.1
              × (((r.0 ≡ ok)
                    × (entry_of ngx r.1 (client_of ngx key) ≡ some (first_entry ngx now key)))
                  ⊎ ((r.0 ≡ service_unavailable) × (entry_of ngx r.1 (client_of ngx key) ≡ none)))
              × ((direction q (client_of ngx key) ≡ here) ⊎ Fades ngx sh r.1 q)
        go none f = rw (looked_up none f) (limit_new_lem ngx now key fits w sh q v absent)
        go (some a) f =
            let there : none ≡ some (sh.heap a) =
              sym absent
              ∙ (entry_of-find ngx sh (client_of ngx key) v ∙ ap (entry_found ngx sh) f) in
            absurd (clash there)
          where
            clash : none ≡ some (sh.heap a) → ⊥
            clash c = cc

    locked-IsValid : length key < 256 → IsValid ngx (limit_locked ngx l w now key sh).1
    locked-IsValid fits = go (entry_of ngx sh (client_of ngx key)) refl
      where
        go :
            (o : Option RateNode)
            → entry_of ngx sh (client_of ngx key) ≡ o
            → IsValid ngx (limit_locked ngx l w now key sh).1
        go none e = (limit_locked_admits fits e (client_of ngx key)).0
        go (some n) e = (charged n e).0

  abbrev pub ZoneIsValid : Option (Zone ngx) → Type 0
  ZoneIsValid none = Unit {0}
  ZoneIsValid (some sh) = IsValid ngx sh

  -- Every request keeps a valid zone valid, under any configuration, with any client key and at any time.
  pub rate_limit-IsValid :
      (conf : Option RateConf) (zone : Option (Zone ngx)) (key : Bytes) (now : ℕ)
      → ZoneIsValid zone
      → ZoneIsValid (rate_limit ngx conf zone key now).1
  unfolding rate_limit
  rate_limit-IsValid conf none key now v = v
  rate_limit-IsValid conf (some sh) key now v =
      elim (Bool-cases ((length key == 0) || ltb ngx.sockaddr_strlen (length key))) [
        | inl refused ↦ rw refused v
        | inr fine ↦ rw fine (
            locked-IsValid sh v key (limit_of ngx conf) (window_of ngx conf) now
              (ground (arith, ngx.key_len_fits)))
      ]
