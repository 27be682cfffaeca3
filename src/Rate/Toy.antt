-- ===== src/Rate/Toy.antt =====
-- An nginx that meets the assumptions of the rate limiter: a slab pool that lists its blocks in use,
-- a tree that is not rebalanced, and CRC-32 replaced by the sum of the bytes.
use http_dmmr_nginx.Base.{
  Option, ℕ, ◌≡◌, ◌+◌, ◌≤◌, refl, ap, Bool, true, false, not, ◌&&◌, ◌||◌, List, [], ◌∷◌, some,
  arith, if◌then◌else◌, ◌==◌,
}
use http_dmmr_nginx.Rate.Tree.{Tree, sentinel, node, inorder}
use http_dmmr_nginx.Rate.Sorted.{remove}
use http_dmmr_nginx.Rate.Zone.{Nginx}

unfoldable pub listed : List ℕ → ℕ → Bool
listed [] b = false
listed (a ∷ xs) b = (a == b) || listed xs b

unfoldable pub sum : List ℕ → ℕ
sum [] = 0
sum (a ∷ xs) = a + sum xs

unfoldable pub unlist : List ℕ → ℕ → List ℕ
unlist [] b = []
unlist (a ∷ xs) b = let rest = unlist xs b in if a == b then rest else a ∷ rest

abbrev pub spine : List ℕ → Tree
spine [] = sentinel
spine (a ∷ xs) = node sentinel a (spine xs)

pub inorder-spine : (xs : List ℕ) → inorder (spine xs) ≡ xs
unfolding inorder
inorder-spine [] = refl
inorder-spine (a ∷ xs) = ap (λ ys. a ∷ ys) (inorder-spine xs)

listed_small : (xs : List ℕ) (b : ℕ) → listed xs b ≡ true → b ≤ sum xs
unfolding listed sum
listed_small [] b h = cc
listed_small (a ∷ xs) b h = ground (arith, listed_small xs b)

pub listed_fresh : (xs : List ℕ) → listed xs (1 + sum xs) ≡ false
listed_fresh xs = ground (arith, listed_small xs (1 + sum xs))

pub listed-unlist : (xs : List ℕ) (a b : ℕ) → listed (unlist xs a) b ≡ (not (a == b) && listed xs b)
unfolding listed unlist
listed-unlist [] a b = ground arith
listed-unlist (x ∷ xs) a b = ground (arith, listed-unlist xs a b)

abbrev pub toy_alloc : List ℕ → Option (ℕ × List ℕ)
toy_alloc s = some (1 + sum s, (1 + sum s) ∷ s)

pub toy_fresh : (s t : List ℕ) (a : ℕ) → toy_alloc s ≡ some (a, t) → listed s a ≡ false
toy_fresh s t a e = let h : 1 + sum s ≡ a = cc in rw (← h) (listed_fresh s)

pub toy_given :
    (s t : List ℕ) (a b : ℕ) → toy_alloc s ≡ some (a, t) → listed t b ≡ ((a == b) || listed s b)
unfolding listed
toy_given s t a b e =
    let h : 1 + sum s ≡ a = cc in let k : (1 + sum s) ∷ s ≡ t = cc in rw (← k, ← h) refl

abbrev pub toy : Nginx
toy = record {
  Slab = List ℕ;
  slab_alloc = toy_alloc;
  slab_free = unlist;
  in_use = listed;
  rebalance = λ t. t;
  rbtree_delete = λ t a. spine (remove a (inorder t));
  crc32 = sum;
  sockaddr_strlen = 56;
  alloc_fresh = toy_fresh;
  alloc_in_use = toy_given;
  free_in_use = listed-unlist;
  inorder-rebalance = λ t. refl;
  inorder-delete = λ t a. inorder-spine (remove a (inorder t));
  key_len_fits = omega arith;
}
