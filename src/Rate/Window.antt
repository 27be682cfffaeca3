-- ===== src/Rate/Window.antt =====
-- ngx_http_dmmr_rate_limit over a run of requests: how many of one client's requests a window lets
-- through when other clients make requests in between.
use http_dmmr_nginx.Base.{
  ℕ, ◌≡◌, ◌≢◌, ◌<◌, ◌≤◌, ◌+◌, ◌-◌, ◌^◌, ◌%◌, Option-cases, refl, sym, ap, ◌∙◌, true, false, List,
  [], ◌∷◌, none, some, arith, if◌then◌else◌, inl, inr, ◌⊎◌, Bytes, bytes_eq, bytes_eq_iff, leb,
  Bool-cases, All, All-map,
}
use http_dmmr_nginx.Rate.Order.{Ident}
use http_dmmr_nginx.Rate.Zone.{
  RateNode, Nginx, Zone, charge, elapsed, Verdict, ok, too_many_requests, limit_locked,
}
use http_dmmr_nginx.Rate.Valid.{IsValid, entry_of}
use http_dmmr_nginx.Rate.Limit.{client_of}
use http_dmmr_nginx.Rate.Request.{charged}

pub record Request : Type 0 where
  pub key : Bytes
  pub now : ℕ

abbrev pub is_ok : Verdict → ℕ
is_ok ok = 1
is_ok _ = 0

abbrev pub made_by : Bytes → List Request → ℕ
made_by key [] = 0
made_by key (r ∷ rest) = (if bytes_eq r.key key then 1 else 0) + made_by key rest

module _ (ngx : Nginx) (l w : ℕ) where
  -- How many requests of the client `key` are let through.
  abbrev pub passed : Bytes → List Request → Zone ngx → ℕ
  passed key [] sh = 0
  passed key (r ∷ rest) sh =
      let step = limit_locked ngx l w r.now r.key sh in
      (if bytes_eq r.key key then is_ok step.0 else 0) + passed key rest step.1

  -- The client of a request has an entry, and the window of `key` is not over.
  abbrev pub IsWithin : Zone ngx → Bytes → ℕ → Request → Type 0
  IsWithin sh key start r =
      (entry_of ngx sh (client_of ngx r.key) ≢ none) × ((r.key ≡ key) → elapsed r.now start ≤ w)

  charge_within :
      (now : ℕ) (n : RateNode)
      → l < 2 ^ 64
      → elapsed now n.window_start ≤ w
      → ((n.count < l) × (charge l w now n ≡ (false, record n { count = n.count + 1 })))
        ⊎ ((l ≤ n.count) × (charge l w now n ≡ (true, n)))
  unfolding charge
  charge_within now n fits young = elim (Bool-cases (leb l n.count)) [
    | inl full ↦ inr (ground arith, ground arith)
    | inr room ↦
        let small : (n.count + 1) % 2 ^ 64 ≡ n.count + 1 = ground arith in
        inl (ground arith, ground (arith, small))
  ]

  -- A client that has an entry still has one after a request of a client with an entry.
  still_listed :
      (sh : Zone ngx) (v : IsValid ngx sh) (r : Request) (m : RateNode)
      → entry_of ngx sh (client_of ngx r.key) ≡ some m
      → (p : Bytes) → entry_of ngx sh (client_of ngx p) ≢ none
      → entry_of ngx (limit_locked ngx l w r.now r.key sh).1 (client_of ngx p) ≢ none
  still_listed sh v r m e p there gone = elim (Bool-cases (bytes_eq p r.key)) [
    | inl same ↦
        let at : p ≡ r.key = (bytes_eq_iff p r.key).0 same in
        clash (
          sym (charged ngx sh v r.key l w r.now m e).2
          ∙ (ap (λ k. entry_of ngx (limit_locked ngx l w r.now r.key sh).1 (client_of ngx k))
                (sym at)
              ∙ gone))
    | inr other ↦ there (
        sym (
          (charged ngx sh v r.key l w r.now m e).3 (client_of ngx p)
            (λ q. differ other (ap (λ i. i.key) q)))
        ∙ gone)
  ]
    where
      clash : {n : RateNode} → some n ≡ none → ⊥
      clash c = cc

      differ : bytes_eq p r.key ≡ false → p ≡ r.key → ⊥
      differ f e = ground (arith, bytes_eq_iff p r.key)

  IsWithin-after :
      (sh : Zone ngx) (v : IsValid ngx sh) (r : Request) (m : RateNode)
      → entry_of ngx sh (client_of ngx r.key) ≡ some m
      → (key : Bytes) (start : ℕ) (rest : List Request) → All (IsWithin sh key start) rest
      → All (IsWithin (limit_locked ngx l w r.now r.key sh).1 key start) rest
  IsWithin-after sh v r m e key start rest h =
      All-map (IsWithin sh key start) (IsWithin (limit_locked ngx l w r.now r.key sh).1 key start)
        rest (λ p k. (still_listed sh v r m e p.key k.0, k.1)) h

  -- In a valid zone, under a limit below 2 ^ 64: of the requests that a client with an entry makes
  -- before its window is over, as many are let through as its count leaves below the limit, or all
  -- of them when they are fewer. Other clients with entries may make requests in between.
  pub passed_lem :
      l < 2 ^ 64
      → (key : Bytes) (rs : List Request) (sh : Zone ngx) (n : RateNode) → IsValid ngx sh
      → entry_of ngx sh (client_of ngx key) ≡ some n
      → All (IsWithin sh key n.window_start) rs
      → passed key rs sh
        ≡ (if leb (made_by key rs) (l - n.count) then made_by key rs else l - n.count)
  passed_lem fits key [] sh n v e h = ground arith
  passed_lem fits key (r ∷ rest) sh n v e h =
      elim (Option-cases (entry_of ngx sh (client_of ngx r.key))) [
        | inl gone ↦ absurd (h.0.0 gone)
        | inr (m, at) ↦ elim (Bool-cases (bytes_eq r.key key)) [
          | inl same ↦ own (passed_lem fits key rest) same
          | inr other ↦ foreign m at (passed_lem fits key rest) other
        ]
      ]
    where
      after : Zone ngx
      after = (limit_locked ngx l w r.now r.key sh).1

      Rest : Type 0
      Rest =
          (sh : Zone ngx) (n : RateNode)
          → IsValid ngx sh
          → entry_of ngx sh (client_of ngx key) ≡ some n
          → All (IsWithin sh key n.window_start) rest
          → passed key rest sh
            ≡ (if leb (made_by key rest) (l - n.count) then made_by key rest else l - n.count)

      own :
          Rest
          → bytes_eq r.key key ≡ true
          → passed key (r ∷ rest) sh ≡ (
              if leb (made_by key (r ∷ rest)) (l - n.count)
              then made_by key (r ∷ rest)
              else l - n.count)
      own later same = elim (charge_within r.now n fits (h.0.1 at)) [
        | inl (room, e1) ↦
            let f = one_more e1 in
            let k =
              later after (record n { count = n.count + 1 }) step.0 f.1
                (IsWithin-after sh v r n mine key n.window_start rest h.1) in
            rw (same, f.0, k) (ground (arith, room))
        | inr (full, e1) ↦
            let f = as_before e1 in
            let k =
              later after n step.0 f.1 (IsWithin-after sh v r n mine key n.window_start rest h.1) in
            rw (same, f.0, k) (ground (arith, full))
      ]
        where
          at : r.key ≡ key
          at = (bytes_eq_iff r.key key).0 same

          mine : entry_of ngx sh (client_of ngx r.key) ≡ some n
          mine = ap (λ k. entry_of ngx sh (client_of ngx k)) at ∙ e

          step :
              IsValid ngx after
              × ((limit_locked ngx l w r.now r.key sh).0
                  ≡ (if (charge l w r.now n).0 then too_many_requests else ok))
              × (entry_of ngx after (client_of ngx r.key) ≡ some (charge l w r.now n).1)
              × ((q : Ident) → q ≢ client_of ngx r.key → entry_of ngx after q ≡ entry_of ngx sh q)
          step = charged ngx sh v r.key l w r.now n mine

          as_before :
              charge l w r.now n ≡ (true, n)
              → (is_ok (limit_locked ngx l w r.now r.key sh).0 ≡ 0)
                × (entry_of ngx after (client_of ngx key) ≡ some n)
          as_before c = (
            ap is_ok step.1 ∙ rw c refl,
            ap (λ k. entry_of ngx after (client_of ngx k)) (sym at)
                ∙ (step.2 ∙ ap (λ x. some x.1) c),
          )

          one_more :
              charge l w r.now n ≡ (false, record n { count = n.count + 1 })
              → (is_ok (limit_locked ngx l w r.now r.key sh).0 ≡ 1)
                × (entry_of ngx after (client_of ngx key) ≡ some (record n { count = n.count + 1 }))
          one_more c = (
            ap is_ok step.1 ∙ rw c refl,
            ap (λ k. entry_of ngx after (client_of ngx k)) (sym at)
                ∙ (step.2 ∙ ap (λ x. some x.1) c),
          )

      foreign :
          (m : RateNode)
          → entry_of ngx sh (client_of ngx r.key) ≡ some m
          → Rest
          → bytes_eq r.key key ≡ false
          → passed key (r ∷ rest) sh ≡ (
              if leb (made_by key (r ∷ rest)) (l - n.count)
              then made_by key (r ∷ rest)
              else l - n.count)
      foreign m at later other =
          let step = charged ngx sh v r.key l w r.now m at in
          let mine : entry_of ngx after (client_of ngx key) ≡ some n =
            step.3 (client_of ngx key) (λ q. differ (ap (λ i. i.key) q)) ∙ e in
          let k =
            later after n step.0 mine (IsWithin-after sh v r m at key n.window_start rest h.1) in
          rw (other, k) (ground arith)
        where
          differ : key ≡ r.key → ⊥
          differ q = ground (arith, bytes_eq_iff r.key key)
