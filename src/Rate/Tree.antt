-- ===== src/Rate/Tree.antt =====
-- The rbtree of the rate limiter as a search tree over node addresses:
-- ngx_http_dmmr_rate_rbtree_insert and ngx_http_dmmr_rate_lookup. Colours and rotations are nginx's
-- and keep the in-order sequence, which is all that the laws below speak of.
use http_dmmr_nginx.Base.{ℕ, ◌≡◌, List, [], ◌∷◌, ◌++◌, Option, none, some, All}
use http_dmmr_nginx.Rate.Order.{Ident, left, here, right, direction}

pub data Tree : Type 0 where
  sentinel : Tree
  node : Tree → ℕ → Tree → Tree

unfoldable pub inorder : Tree → List ℕ
inorder sentinel = []
inorder (node l a r) = inorder l ++ (a ∷ inorder r)

module _ (ident : ℕ → Ident) where
  -- The loop of ngx_http_dmmr_rate_lookup.
  unfoldable pub lookup : Tree → Ident → Option ℕ
  lookup sentinel q = none
  lookup (node l a r) q = elim (direction q (ident a)) [
    | left ↦ lookup l q
    | here ↦ some a
    | right ↦ lookup r q
  ]

  -- The loop of ngx_http_dmmr_rate_rbtree_insert, which hangs the new node under the last one.
  unfoldable pub rbtree_insert : Tree → ℕ → Tree
  rbtree_insert sentinel new = node sentinel new sentinel
  rbtree_insert (node l a r) new = elim (direction (ident new) (ident a)) [
    | left ↦ node (rbtree_insert l new) a r
    | here ↦ node l a (rbtree_insert r new)
    | right ↦ node l a (rbtree_insert r new)
  ]

  -- Strictly ascending in the tree's order.
  abbrev pub Sorted : List ℕ → Type 0
  Sorted [] = Unit {0}
  Sorted (a ∷ xs) = All (λ b. direction (ident a) (ident b) ≡ left) xs × Sorted xs
