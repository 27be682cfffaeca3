-- ===== src/Rate/Ascending.antt =====
-- What insertion and removal do to an ascending list of node addresses: the searches that follow,
-- the order, and how often an address occurs.
use http_dmmr_nginx.Base.{
  ℕ, ◌≡◌, ◌≢◌, ◌<◌, ◌≤◌, refl, false, List, [], ◌∷◌, none, some, arith, All, ◌==◌, subst,
  Bool-cases, inl, inr, ==_iff,
}
use http_dmmr_nginx.Rate.Order.{
  Ident, Dir, left, here, right, direction, direction_refl, direction_here, direction_flip,
}
use http_dmmr_nginx.Rate.Tree.{Sorted}
use http_dmmr_nginx.Rate.Sorted.{count, remove, find, insert_sorted, All-trans_right, find_after}

pub All-remove {κ} : (P : ℕ → Type κ) (a : ℕ) (xs : List ℕ) → All P xs → All P (remove a xs)
unfolding remove
All-remove P a [] h = tt
All-remove P a (x ∷ xs) h = ground (arith, All-remove P a xs h.1)

pub All-count {κ} : (P : ℕ → Type κ) (a : ℕ) (xs : List ℕ) → All P xs → 0 < count a xs → P a
All-count P a [] h c = absurd (omega arith)
All-count P a (x ∷ xs) h c = elim (Bool-cases (x == a)) [
  | inl same ↦ subst P ((==_iff x a).0 same) h.0
  | inr other ↦ All-count P a xs h.1 (ground arith)
]

module _ (ident : ℕ → Ident) where
  All-insert :
      (P : ℕ → Type 0) (new : ℕ) (xs : List ℕ)
      → P new
      → All P xs
      → All P (insert_sorted ident new xs)
  unfolding insert_sorted
  All-insert P new [] p h = (p, tt)
  All-insert P new (x ∷ xs) p h = ground (arith, All-insert P new xs p h.1)

  pub count-insert :
      (b new : ℕ) (xs : List ℕ) → count b (insert_sorted ident new xs) ≡ count b (new ∷ xs)
  unfolding insert_sorted
  count-insert b new [] = refl
  count-insert b new (x ∷ xs) = ground (arith, count-insert b new xs)

  -- A search after an insertion, for a node whose ident is not there yet.
  pub find-insert :
      (new : ℕ) (xs : List ℕ) (q : Ident)
      → find ident xs (ident new) ≡ none
      → find ident (insert_sorted ident new xs) q ≡ find ident (new ∷ xs) q
  unfolding insert_sorted find
  find-insert new [] q h = refl
  find-insert new (x ∷ xs) q h = ground (
    arith,
    find-insert new xs q,
    direction_here q (ident x),
    direction_here q (ident new),
    direction_refl q,
  )

  pub Sorted-insert :
      (new : ℕ) (xs : List ℕ)
      → find ident xs (ident new) ≡ none
      → Sorted ident xs
      → Sorted ident (insert_sorted ident new xs)
  unfolding insert_sorted find
  Sorted-insert new [] h s = (tt, tt)
  Sorted-insert new (x ∷ xs) h s = go (direction (ident new) (ident x)) refl (Sorted-insert new xs)
    where
      go :
          (d : Dir)
          → direction (ident new) (ident x) ≡ d
          → (find ident xs (ident new) ≡ none
              → Sorted ident xs
              → Sorted ident (insert_sorted ident new xs))
          → Sorted ident (insert_sorted ident new (x ∷ xs))
      go left e ih =
          rw (e, insert_sorted) ((e, All-trans_right ident (ident x) (ident new) xs e s.0), s)
      go here e ih = absurd (ground arith)
      go right e ih =
          rw (e, insert_sorted)
            (
              All-insert (λ b. direction (ident x) (ident b) ≡ left) new xs
                  (direction_flip (ident new) (ident x) e) s.0,
              ih (ground arith) s.1,
            )

  pub Sorted-remove : (a : ℕ) (xs : List ℕ) → Sorted ident xs → Sorted ident (remove a xs)
  unfolding remove
  Sorted-remove a [] s = tt
  Sorted-remove a (x ∷ xs) s = ground (
    arith,
    Sorted-remove a xs s.1,
    All-remove (λ b. direction (ident x) (ident b) ≡ left) a xs s.0,
  )

  -- Removing an address leaves the searches for other idents alone.
  pub find-remove_ne :
      (a : ℕ) (xs : List ℕ) (q : Ident)
      → direction q (ident a) ≢ here
      → find ident (remove a xs) q ≡ find ident xs q
  unfolding remove find
  find-remove_ne a [] q h = refl
  find-remove_ne a (x ∷ xs) q h = ground (arith, find-remove_ne a xs q)

  -- Once removed from an ascending list, a node is not found again.
  pub find-remove_self :
      (a : ℕ) (xs : List ℕ)
      → 0 < count a xs
      → Sorted ident xs
      → find ident (remove a xs) (ident a) ≡ none
  unfolding remove find
  find-remove_self a [] h s = absurd (omega arith)
  find-remove_self a (x ∷ xs) h s = elim (Bool-cases (x == a)) [
    | inl same ↦
        let e : x ≡ a = (==_iff x a).0 same in
        rw same (
          find_after ident (ident a) xs
            (subst (λ y. All (λ b. direction (ident y) (ident b) ≡ left) xs) e s.0))
    | inr other ↦ ground (
      arith,
      find-remove_self a xs,
      All-count (λ b. direction (ident x) (ident b) ≡ left) a xs s.0,
      direction_here (ident a) (ident x),
      direction_refl (ident x),
    )
  ]

  -- A hit is an address of the list whose ident is the one searched.
  pub find_hit :
      (a : ℕ) (xs : List ℕ) (q : Ident)
      → find ident xs q ≡ some a
      → (0 < count a xs) × (q ≡ ident a)
  unfolding find
  find_hit a [] q h = cc
  find_hit a (x ∷ xs) q h = ground (arith, find_hit a xs q, direction_here q (ident x))

  pub count-Sorted : (a : ℕ) (xs : List ℕ) → Sorted ident xs → count a xs ≤ 1
  count-Sorted a [] s = omega arith
  count-Sorted a (x ∷ xs) s = elim (Bool-cases (x == a)) [
    | inr other ↦ ground (arith, count-Sorted a xs s.1)
    | inl same ↦ ground (
      arith,
      All-count (λ b. direction (ident x) (ident b) ≡ left) x xs s.0,
      direction_refl (ident x),
      count-Sorted a xs s.1,
    )
  ]

-- Two families of idents that agree on a list give the same searches and the same order there.
module _ (i j : ℕ → Ident) where
  pub find_cong : (xs : List ℕ) (q : Ident) → All (λ b. i b ≡ j b) xs → find i xs q ≡ find j xs q
  unfolding find
  find_cong [] q h = refl
  find_cong (x ∷ xs) q h = rw (find, h.0) (ground (arith, find_cong xs q h.1))

  pub Sorted-cong : (xs : List ℕ) → All (λ b. i b ≡ j b) xs → Sorted i xs → Sorted j xs
  Sorted-cong [] h s = tt
  Sorted-cong (x ∷ xs) h s = (below xs h.1 s.0, Sorted-cong xs h.1 s.1)
    where
      below :
          (ys : List ℕ)
          → All (λ b. i b ≡ j b) ys
          → All (λ b. direction (i x) (i b) ≡ left) ys
          → All (λ b. direction (j x) (j b) ≡ left) ys
      below [] k t = tt
      below (y ∷ ys) k t = (cc, below ys k.1 t.1)

pub All-absent : (a : ℕ) (xs : List ℕ) → count a xs ≡ 0 → All (λ b. (a == b) ≡ false) xs
All-absent a [] h = tt
All-absent a (x ∷ xs) h = (ground arith, All-absent a xs (ground arith))
