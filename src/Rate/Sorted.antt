-- ===== src/Rate/Sorted.antt =====
-- The in-order list of the rate limiter's tree: search, insertion and removal on an ascending list
-- of node addresses, which the loops on the tree are shown to follow.
use http_dmmr_nginx.Base.{
  ℕ, ◌≡◌, ◌≢◌, ◌+◌, refl, sym, ap, ◌∙◌, List, [], ◌∷◌, ◌++◌, Option, none, some, arith, All,
  All-split, ◌<◌, ◌==◌, subst, if◌then◌else◌,
}
use http_dmmr_nginx.Rate.Order.{
  Ident, Dir, left, here, right, direction, direction_refl, direction_here, direction_flip,
  direction_trans,
}
use http_dmmr_nginx.Rate.Tree.{Tree, sentinel, node, inorder, lookup, rbtree_insert, Sorted}

abbrev pub count : ℕ → List ℕ → ℕ
count b [] = 0
count b (a ∷ xs) = (if a == b then 1 else 0) + count b xs

-- The list without the first occurrence of an address.
unfoldable pub remove : ℕ → List ℕ → List ℕ
remove a [] = []
remove a (b ∷ xs) = if b == a then xs else b ∷ remove a xs

pub count-remove :
    (b a : ℕ) (xs : List ℕ)
    → 0 < count a xs
    → count b (remove a xs) + (if a == b then 1 else 0) ≡ count b xs
unfolding remove
count-remove b a [] h = absurd (omega arith)
count-remove b a (x ∷ xs) h = ground (arith, count-remove b a xs)

pub count-append : (b : ℕ) (xs ys : List ℕ) → count b (xs ++ ys) ≡ count b xs + count b ys
count-append b [] ys = omega arith
count-append b (x ∷ xs) ys = omega (arith, count-append b xs ys)

module _ (ident : ℕ → Ident) where
  unfoldable pub find : List ℕ → Ident → Option ℕ
  find [] q = none
  find (a ∷ xs) q = elim (direction q (ident a)) [
    | here ↦ some a
    | left ↦ find xs q
    | right ↦ find xs q
  ]

  unfoldable pub insert_sorted : ℕ → List ℕ → List ℕ
  insert_sorted new [] = new ∷ []
  insert_sorted new (a ∷ xs) = elim (direction (ident new) (ident a)) [
    | left ↦ new ∷ (a ∷ xs)
    | here ↦ a ∷ insert_sorted new xs
    | right ↦ a ∷ insert_sorted new xs
  ]

  pub Sorted-append :
      (xs : List ℕ) (a : ℕ) (ys : List ℕ)
      → Sorted ident (xs ++ (a ∷ ys))
      → Sorted ident xs × All (λ b. direction (ident b) (ident a) ≡ left) xs × Sorted ident (a ∷ ys)
  Sorted-append [] a ys h = (tt, tt, h)
  Sorted-append (x ∷ xs) a ys h =
      let before = All-split (λ b. direction (ident x) (ident b) ≡ left) xs (a ∷ ys) h.0 in
      let rest = Sorted-append xs a ys h.1 in ((before.0, rest.0), (before.1.0, rest.1), rest.2)

  pub find_after :
      (q : Ident) (xs : List ℕ) → All (λ b. direction q (ident b) ≡ left) xs → find xs q ≡ none
  unfolding find
  find_after q [] h = refl
  find_after q (x ∷ xs) h = ground (arith, find_after q xs)

  find-append_after :
      (q : Ident) (xs ys : List ℕ) → find ys q ≡ none → find (xs ++ ys) q ≡ find xs q
  unfolding find
  find-append_after q [] ys h = h
  find-append_after q (x ∷ xs) ys h = ground (arith, find-append_after q xs ys)

  find-append_before :
      (q : Ident) (xs ys : List ℕ)
      → All (λ b. direction (ident b) q ≡ left) xs
      → find (xs ++ ys) q ≡ find ys q
  unfolding find
  find-append_before q [] ys h = refl
  find-append_before q (x ∷ xs) ys h =
      ground (arith, find-append_before q xs ys, direction_here q (ident x), direction_refl q)

  pub All-trans_right :
      (a q : Ident) (xs : List ℕ)
      → direction q a ≡ left
      → All (λ b. direction a (ident b) ≡ left) xs
      → All (λ b. direction q (ident b) ≡ left) xs
  All-trans_right a q [] h k = tt
  All-trans_right a q (x ∷ xs) h k =
      (direction_trans q a (ident x) h k.0, All-trans_right a q xs h k.1)

  All-trans_left :
      (a q : Ident) (xs : List ℕ)
      → direction a q ≡ left
      → All (λ b. direction (ident b) a ≡ left) xs
      → All (λ b. direction (ident b) q ≡ left) xs
  All-trans_left a q [] h k = tt
  All-trans_left a q (x ∷ xs) h k =
      (direction_trans (ident x) a q k.0 h, All-trans_left a q xs h k.1)

  -- On an ascending in-order list the descent finds what a search of the whole list finds.
  pub lookup-find :
      (t : Tree) (q : Ident) → Sorted ident (inorder t) → lookup ident t q ≡ find (inorder t) q
  unfolding lookup find inorder
  lookup-find sentinel q h = refl
  lookup-find (node l a r) q h = go (lookup-find l q) (lookup-find r q) (direction q (ident a)) refl
    where
      parts :
          Sorted ident (inorder l)
          × All (λ b. direction (ident b) (ident a) ≡ left) (inorder l)
          × Sorted ident (a ∷ inorder r)
      parts = Sorted-append (inorder l) a (inorder r) h

      go :
          (Sorted ident (inorder l) → lookup ident l q ≡ find (inorder l) q)
          → (Sorted ident (inorder r) → lookup ident r q ≡ find (inorder r) q)
          → (d : Dir) → direction q (ident a) ≡ d
          → lookup ident (node l a r) q ≡ find (inorder l ++ (a ∷ inorder r)) q
      go on_left on_right left e =
          rw (e, lookup)
            (on_left parts.0
              ∙ sym (
                  find-append_after q (inorder l) (a ∷ inorder r) (
                    rw (e, find)
                      (find_after q (inorder r)
                        (All-trans_right (ident a) q (inorder r) e parts.2.0)))))
      go on_left on_right here e =
          let same : ident a ≡ q = sym (direction_here q (ident a) e) in
          rw (e, lookup)
            (sym (
              find-append_before q (inorder l) (a ∷ inorder r)
                (subst (λ p. All (λ b. direction (ident b) p ≡ left) (inorder l)) same parts.1)
              ∙ rw (e, find)))
      go on_left on_right right e =
          rw (e, lookup)
            (on_right parts.2.1
              ∙ sym (
                  find-append_before q (inorder l) (a ∷ inorder r)
                    (All-trans_left (ident a) q (inorder l) (direction_flip q (ident a) e) parts.1)
                  ∙ rw (e, find)))

  insert_sorted-append_left :
      (new : ℕ) (xs ys : List ℕ) (a : ℕ)
      → direction (ident new) (ident a) ≡ left
      → insert_sorted new (xs ++ (a ∷ ys)) ≡ insert_sorted new xs ++ (a ∷ ys)
  unfolding insert_sorted
  insert_sorted-append_left new [] ys a e = ground arith
  insert_sorted-append_left new (x ∷ xs) ys a e =
      ground (arith, insert_sorted-append_left new xs ys a e)

  -- A new node that is not before a goes behind everything that is before a.
  insert_sorted-append_right :
      (new : ℕ) (xs ys : List ℕ) (a : ℕ)
      → direction (ident new) (ident a) ≢ left
      → All (λ b. direction (ident b) (ident a) ≡ left) xs
      → insert_sorted new (xs ++ (a ∷ ys)) ≡ xs ++ (a ∷ insert_sorted new ys)
  unfolding insert_sorted
  insert_sorted-append_right new [] ys a e h = ground arith
  insert_sorted-append_right new (x ∷ xs) ys a e h = ground (
    arith,
    insert_sorted-append_right new xs ys a,
    direction_trans (ident new) (ident x) (ident a),
  )

  -- On an ascending tree, the insertion loop puts the new node at its place in the in-order list.
  pub inorder-rbtree_insert :
      (t : Tree) (new : ℕ)
      → Sorted ident (inorder t)
      → inorder (rbtree_insert ident t new) ≡ insert_sorted new (inorder t)
  unfolding inorder rbtree_insert insert_sorted
  inorder-rbtree_insert sentinel new h = refl
  inorder-rbtree_insert (node l a r) new h =
      go (inorder-rbtree_insert l new) (inorder-rbtree_insert r new)
        (direction (ident new) (ident a)) refl
    where
      parts :
          Sorted ident (inorder l)
          × All (λ b. direction (ident b) (ident a) ≡ left) (inorder l)
          × Sorted ident (a ∷ inorder r)
      parts = Sorted-append (inorder l) a (inorder r) h

      after :
          (Sorted ident (inorder r)
            → inorder (rbtree_insert ident r new) ≡ insert_sorted new (inorder r))
          → direction (ident new) (ident a) ≢ left
          → inorder l ++ (a ∷ inorder (rbtree_insert ident r new))
            ≡ insert_sorted new (inorder l ++ (a ∷ inorder r))
      after on_right ne =
          ap (λ xs. inorder l ++ (a ∷ xs)) (on_right parts.2.1)
          ∙ sym (insert_sorted-append_right new (inorder l) (inorder r) a ne parts.1)

      go :
          (Sorted ident (inorder l)
            → inorder (rbtree_insert ident l new) ≡ insert_sorted new (inorder l))
          → (Sorted ident (inorder r)
              → inorder (rbtree_insert ident r new) ≡ insert_sorted new (inorder r))
          → (d : Dir) → direction (ident new) (ident a) ≡ d
          → inorder (rbtree_insert ident (node l a r) new)
            ≡ insert_sorted new (inorder l ++ (a ∷ inorder r))
      go on_left on_right left e =
          rw (e, rbtree_insert)
            (ap (λ xs. xs ++ (a ∷ inorder r)) (on_left parts.0)
              ∙ sym (insert_sorted-append_left new (inorder l) (inorder r) a e))
      go on_left on_right here e = rw (e, rbtree_insert) (after on_right (λ e'. cc))
      go on_left on_right right e = rw (e, rbtree_insert) (after on_right (λ e'. cc))
