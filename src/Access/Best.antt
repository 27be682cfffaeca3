-- ===== src/Access/Best.antt =====
-- The route that ngx_http_dmmr_router chooses.
use http_dmmr_nginx.Base.{
  ◌≡◌, ◌<◌, ◌≤◌, refl, sym, ap, ◌∙◌, true, false, List, [], ◌∷◌, ◌++◌, Option, none, some, arith,
  All, All-append, All-map, Bool-cases, append-nil, append_assoc, ◌⊎◌, inl, inr, ltb, ltb→lt, subst,
}
use http_dmmr_nginx.Access.Types.{Route, Request, NgxString}
use http_dmmr_nginx.Access.Router.{route_matches, better, best_of}

module _ (str : NgxString) (r : Request) where
  abbrev pub IsBelow : Route → Route → Type 0
  IsBelow b x = (route_matches str r x ≡ false) ⊎ (x.priority < b.priority)

  abbrev pub IsAtMost : Route → Route → Type 0
  IsAtMost b x = (route_matches str r x ≡ false) ⊎ (x.priority ≤ b.priority)

  -- The best route of a list: one that matches, the first of those with the highest priority among
  -- the matching ones; and none only when none matches.
  abbrev pub IsBest : List Route → Option Route → Type 0
  IsBest routes none = All (λ x. route_matches str r x ≡ false) routes
  IsBest routes (some b) =
      (before : List Route) × (after : List Route) × (routes ≡ before ++ (b ∷ after))
      × (route_matches str r b ≡ true)
      × All (IsBelow b) before
      × All (IsAtMost b) after

  none-IsBelow :
      (b : Route) (xs : List Route)
      → All (λ x. route_matches str r x ≡ false) xs
      → All (IsBelow b) xs
  none-IsBelow b xs h = All-map (λ x. route_matches str r x ≡ false) (IsBelow b) xs (λ x e. inl e) h

  keep :
      (seen : List Route) (x b : Route)
      → IsBest seen (some b)
      → IsAtMost b x
      → IsBest (seen ++ (x ∷ [])) (some b)
  keep seen x b (before, after, e, m, f, g) le = (
    before,
    after ++ (x ∷ []),
    ap (λ xs. xs ++ (x ∷ [])) e ∙ append_assoc before (b ∷ after) (x ∷ []),
    m,
    f,
    All-append (IsAtMost b) after (x ∷ []) g (le, tt),
  )

  lower : (b x y : Route) → b.priority < x.priority → IsAtMost b y → IsBelow x y
  lower b x y lt (inl e) = inl e
  lower b x y lt (inr h) = inr (omega arith)

  lower_too : (b x y : Route) → b.priority < x.priority → IsBelow b y → IsBelow x y
  lower_too b x y lt (inl e) = inl e
  lower_too b x y lt (inr h) = inr (omega arith)

  replace :
      (seen : List Route) (x b : Route)
      → IsBest seen (some b)
      → route_matches str r x ≡ true
      → b.priority < x.priority
      → IsBest (seen ++ (x ∷ [])) (some x)
  replace seen x b (before, after, e, m, f, g) n lt =
      let earlier = All-map (IsBelow b) (IsBelow x) before (λ y k. lower_too b x y lt k) f in
      let later = All-map (IsAtMost b) (IsBelow x) after (λ y k. lower b x y lt k) g in
      (
        seen,
        [],
        refl,
        n,
        subst (All (IsBelow x)) (sym e)
            (All-append (IsBelow x) before (b ∷ after) earlier (inr lt, later)),
        tt,
      )

  better-IsBest :
      (seen : List Route) (x : Route) (o : Option Route)
      → IsBest seen o
      → IsBest (seen ++ (x ∷ [])) (better str r x o)
  unfolding better
  better-IsBest seen x none h = elim (Bool-cases (route_matches str r x)) [
    | inl m ↦ rw m (seen, [], refl, m, none-IsBelow x seen h, tt)
    | inr m ↦ rw m (All-append (λ y. route_matches str r y ≡ false) seen (x ∷ []) h (m, tt))
  ]
  better-IsBest seen x (some b) h = elim (Bool-cases (route_matches str r x)) [
    | inr m ↦ rw m (keep seen x b h (inl m))
    | inl m ↦ elim (Bool-cases (ltb b.priority x.priority)) [
      | inl lt ↦ rw (m, lt) (replace seen x b h m (ltb→lt b.priority x.priority lt))
      | inr ge ↦ rw (m, ge) (keep seen x b h (inr (ground arith)))
    ]
  ]

  best_of-IsBest_from :
      (seen rest : List Route) (o : Option Route)
      → IsBest seen o
      → IsBest (seen ++ rest) (best_of str r rest o)
  unfolding best_of
  best_of-IsBest_from seen [] o h = subst (λ xs. IsBest xs o) (sym (append-nil seen)) h
  best_of-IsBest_from seen (x ∷ rest) o h =
      subst (λ xs. IsBest xs (best_of str r rest (better str r x o)))
        (append_assoc seen (x ∷ []) rest)
        (best_of-IsBest_from (seen ++ (x ∷ [])) rest (better str r x o) (better-IsBest seen x o h))

  -- The loop over the routes of the configuration ends with the first of the matching routes with the
  -- highest priority, and with none only when no route matches.
  pub best_of-IsBest : (routes : List Route) → IsBest routes (best_of str r routes none)
  best_of-IsBest routes = best_of-IsBest_from [] routes none tt
