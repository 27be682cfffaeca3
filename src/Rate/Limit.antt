-- ===== src/Rate/Limit.antt =====
-- ngx_http_dmmr_rate_limit against one entry per client: what a request does to the entry of its
-- client and to the others, on every branch, and that it keeps the zone's invariant.
use http_dmmr_nginx.Base.{
  ℕ, ◌≡◌, ◌≢◌, ◌<◌, refl, sym, ap, ◌∙◌, List, [], ◌∷◌, Option, none, some, arith, if◌then◌else◌,
  inl, inr, ◌⊎◌, Bytes, length, ◌%◌, leb, Bool-cases,
}
use http_dmmr_nginx.Rate.Order.{Ident, Dir, left, here, right, direction, direction_refl}
use http_dmmr_nginx.Rate.Tree.{inorder}
use http_dmmr_nginx.Rate.Sorted.{find}
use http_dmmr_nginx.Rate.Ascending.{find_hit}
use http_dmmr_nginx.Rate.Zone.{
  RateNode, ident_of, Nginx, Zone, ident, drop_head, charge, elapsed, expire_loop, rate_expire,
  Verdict, ok, too_many_requests, service_unavailable, limit_known, limit_new, admit_or_fail,
  admit_retry,
}
use http_dmmr_nginx.Rate.Valid.{
  IsValid, entry_of, entry_found, entry_of-find, drop_head-IsValid, entry_of-drop_head,
}
use http_dmmr_nginx.Rate.Touch.{touched-IsValid, entry_of-touched_self, entry_of-touched_ne}
use http_dmmr_nginx.Rate.Admit.{admitted-IsValid, entry_of-admitted_self, entry_of-admitted_ne}

charge_ident : (l w now : ℕ) (n : RateNode) → ident_of (charge l w now n).1 ≡ ident_of n
unfolding charge
charge_ident l w now n = ground arith

module _ (ngx : Nginx) where
  abbrev pub client_of : Bytes → Ident
  client_of key = record { hash = ngx.crc32 key; key = key }

  -- The entry that a first request leaves.
  abbrev pub first_entry : ℕ → Bytes → RateNode
  first_entry now key = record {
    hash = ngx.crc32 key;
    window_start = now;
    count = 1;
    key_len = length key % 256;
    key = key;
  }

  -- An entry is left alone or dropped.
  abbrev pub Fades : Zone ngx → Zone ngx → Ident → Type 0
  Fades sh sh' q = (entry_of ngx sh' q ≡ entry_of ngx sh q) ⊎ (entry_of ngx sh' q ≡ none)

  Fades-trans : (a b c : Zone ngx) (q : Ident) → Fades a b q → Fades b c q → Fades a c q
  Fades-trans a b c q (inl e) (inl f) = inl (f ∙ e)
  Fades-trans a b c q (inr e) (inl f) = inr (f ∙ e)
  Fades-trans a b c q e (inr f) = inr f

  Fades-none :
      (a b : Zone ngx) (q : Ident) → Fades a b q → entry_of ngx a q ≡ none → entry_of ngx b q ≡ none
  Fades-none a b q (inl e) h = e ∙ h
  Fades-none a b q (inr e) h = e

  expire_loop_lem :
      (now window : ℕ) (lru : List ℕ) (sh : Zone ngx) (q : Ident)
      → sh.lru ≡ lru
      → IsValid ngx sh
      → IsValid ngx (expire_loop ngx now window lru sh)
        × Fades sh (expire_loop ngx now window lru sh) q
  unfolding expire_loop
  expire_loop_lem now window [] sh q e v = (v, inl refl)
  expire_loop_lem now window (a ∷ rest) sh q e v =
      elim (Bool-cases (leb (elapsed now (sh.heap a).window_start) window)) [
        | inl young ↦ rw young (v, inl refl)
        | inr old ↦
            let later =
              expire_loop_lem now window rest (drop_head ngx sh a rest) q (unfold drop_head in refl)
                (drop_head-IsValid ngx sh a rest v e) in
            rw old (
              later.0,
              Fades-trans sh (drop_head ngx sh a rest) _ q (entry_of-drop_head ngx sh a rest v e q)
                  later.1,
            )
      ]

  module _ (now : ℕ) (key : Bytes) (fits : length key < 256) where
    -- What a request of a client without an entry leads to.
    abbrev pub Admits : Zone ngx → Verdict × Zone ngx → Ident → Type 0
    Admits sh r q =
        IsValid ngx r.1
        × (((r.0 ≡ ok) × (entry_of ngx r.1 (client_of key) ≡ some (first_entry now key)))
            ⊎ ((r.0 ≡ service_unavailable) × (entry_of ngx r.1 (client_of key) ≡ none)))
        × ((direction q (client_of key) ≡ here) ⊎ Fades sh r.1 q)

    after_drop :
        (sh sh' : Zone ngx) (q : Ident) (r : Verdict × Zone ngx)
        → Fades sh sh' q
        → Admits sh' r q
        → Admits sh r q
    after_drop sh sh' q r f (v, d, inl e) = (v, d, inl e)
    after_drop sh sh' q r f (v, d, inr g) = (v, d, inr (Fades-trans sh sh' r.1 q f g))

    module _ (q : Ident) (sh : Zone ngx) (v : IsValid ngx sh)
        (absent : entry_of ngx sh (client_of key) ≡ none) where
      unlisted_client : find (ident ngx sh) (inorder sh.tree) (client_of key) ≡ none
      unlisted_client = go (find (ident ngx sh) (inorder sh.tree) (client_of key)) refl
        where
          go :
              (o : Option ℕ)
              → find (ident ngx sh) (inorder sh.tree) (client_of key) ≡ o
              → find (ident ngx sh) (inorder sh.tree) (client_of key) ≡ none
          go none e = e
          go (some a) e =
              cc (sym absent ∙ (entry_of-find ngx sh (client_of key) v ∙ ap (entry_found ngx sh) e))

      others :
          (r : Zone ngx)
          → ((p : Ident) → p ≢ client_of key → entry_of ngx r p ≡ entry_of ngx sh p)
          → (direction q (client_of key) ≡ here) ⊎ Fades sh r q
      others r same = go (direction q (client_of key)) refl
        where
          go :
              (d : Dir)
              → direction q (client_of key) ≡ d
              → (direction q (client_of key) ≡ here) ⊎ Fades sh r q
          go here e = inl e
          go left e = inr (
              inl (
                same q (λ h. clash (
                  sym (direction_refl (client_of key))
                  ∙ (ap (λ p. direction p (client_of key)) (sym h) ∙ e)))))
            where
              clash : here ≡ left → ⊥
              clash e = cc
          go right e = inr (
              inl (
                same q (λ h. clash (
                  sym (direction_refl (client_of key))
                  ∙ (ap (λ p. direction p (client_of key)) (sym h) ∙ e)))))
            where
              clash : here ≡ right → ⊥
              clash e = cc

      admit_or_fail_lem :
          (o : Option (ℕ × ngx.Slab))
          → ngx.slab_alloc sh.slab ≡ o
          → Admits sh (admit_or_fail ngx now key o sh) q
      unfolding admit_or_fail
      admit_or_fail_lem none e = (v, inr (refl, absent), inr (inl refl))
      admit_or_fail_lem (some (a, slab)) e = (
        admitted-IsValid ngx sh a now key slab v e fits unlisted_client,
        inl (refl, entry_of-admitted_self ngx sh a now key slab v e fits unlisted_client),
        others _ (entry_of-admitted_ne ngx sh a now key slab v e fits unlisted_client),
      )

    admit_retry_lem :
        (q : Ident) (sh : Zone ngx)
        → IsValid ngx sh
        → entry_of ngx sh (client_of key) ≡ none
        → (o : Option (ℕ × ngx.Slab)) → ngx.slab_alloc sh.slab ≡ o
        → (lru : List ℕ) → sh.lru ≡ lru
        → Admits sh (admit_retry ngx now key o lru sh) q
    unfolding admit_retry admit_or_fail
    admit_retry_lem q sh v absent (some (a, slab)) e lru l =
        admit_or_fail_lem q sh v absent (some (a, slab)) e
    admit_retry_lem q sh v absent none e [] l = (v, inr (refl, absent), inr (inl refl))
    admit_retry_lem q sh v absent none e (victim ∷ rest) l =
        let sh' = drop_head ngx sh victim rest in
        let mine = entry_of-drop_head ngx sh victim rest v l (client_of key) in
        after_drop sh sh' q _ (entry_of-drop_head ngx sh victim rest v l q) (
          admit_or_fail_lem q sh' (drop_head-IsValid ngx sh victim rest v l)
            (Fades-none sh sh' (client_of key) mine absent) (ngx.slab_alloc sh'.slab) refl)

    -- A client without an entry: it is admitted under a fresh entry, or turned away with the zone
    -- full. The zone stays valid, and the entry of every other client is kept or dropped.
    pub limit_new_lem :
        (rate_window : ℕ) (sh : Zone ngx) (q : Ident)
        → IsValid ngx sh
        → entry_of ngx sh (client_of key) ≡ none
        → Admits sh (limit_new ngx rate_window now key sh) q
    unfolding limit_new rate_expire
    limit_new_lem rate_window sh q v absent =
        let expired = expire_loop ngx now rate_window sh.lru sh in
        let mine = expire_loop_lem now rate_window sh.lru sh (client_of key) refl v in
        let theirs = expire_loop_lem now rate_window sh.lru sh q refl v in
        after_drop sh expired q _ theirs.1 (
          admit_retry_lem q expired mine.0 (Fades-none sh expired (client_of key) mine.1 absent)
            (ngx.slab_alloc expired.slab) refl expired.lru refl)

  -- A client with an entry: what `charge` says of the entry decides and is written back. The zone
  -- stays valid and every other client keeps its entry.
  pub limit_known_lem :
      (l w now a : ℕ) (sh : Zone ngx) (key : Bytes)
      → IsValid ngx sh
      → find (ident ngx sh) (inorder sh.tree) (client_of key) ≡ some a
      → let r = limit_known ngx l w now a sh in
        let after = charge l w now (sh.heap a) in
        IsValid ngx r.1
        × (r.0 ≡ (if after.0 then too_many_requests else ok))
        × (entry_of ngx r.1 (client_of key) ≡ some after.1)
        × ((q : Ident) → q ≢ client_of key → entry_of ngx r.1 q ≡ entry_of ngx sh q)
  unfolding limit_known
  limit_known_lem l w now a sh key v hit =
      let n = (charge l w now (sh.heap a)).1 in
      let same = charge_ident l w now (sh.heap a) in
      let at = find_hit (ident ngx sh) a (inorder sh.tree) (client_of key) hit in
      (
        touched-IsValid ngx sh a n v same at.0,
        refl,
        entry_of-touched_self ngx sh a n v same at.0 (client_of key) hit,
        λ q ne. entry_of-touched_ne ngx sh a n v same at.0 q (λ e. ne (e ∙ sym at.1)),
      )
