-- ===== src/Rate/Valid.antt =====
-- The invariant of the rate-limit zone: the tree is ascending, the tree and the queue hold the same
-- entries, once each, and every one of them is a block that the slab pool has given out.
use http_dmmr_nginx.Base.{
  ℕ, ◌≡◌, ◌≢◌, ◌+◌, ◌<◌, refl, ap, ◌∙◌, true, List, ◌∷◌, Option, none, some, arith, ◌==◌,
  if◌then◌else◌, inl, inr, ◌⊎◌,
}
use http_dmmr_nginx.Rate.Order.{Ident, Dir, left, here, right, direction, direction_here}
use http_dmmr_nginx.Rate.Tree.{inorder, lookup, Sorted}
use http_dmmr_nginx.Rate.Sorted.{count, remove, find, count-remove, lookup-find}
use http_dmmr_nginx.Rate.Ascending.{Sorted-remove, find-remove_ne, find-remove_self, count-Sorted}
use http_dmmr_nginx.Rate.Zone.{RateNode, Nginx, Zone, ident, drop_head}

module _ (ngx : Nginx) where
  pub record IsValid (sh : Zone ngx) : Type 0 where
    pub sorted : Sorted (ident ngx sh) (inorder sh.tree)
    pub linked : (a : ℕ) → count a sh.lru ≡ count a (inorder sh.tree)
    pub backed : (a : ℕ) → 0 < count a sh.lru → ngx.in_use sh.slab a ≡ true

  abbrev pub entry_found : Zone ngx → Option ℕ → Option RateNode
  entry_found sh none = none
  entry_found sh (some a) = some (sh.heap a)

  -- The entry of a client.
  unfoldable pub entry_of : Zone ngx → Ident → Option RateNode
  entry_of sh q = entry_found sh (lookup (ident ngx sh) sh.tree q)

  pub entry_of-find :
      (sh : Zone ngx) (q : Ident)
      → IsValid sh
      → entry_of sh q ≡ entry_found sh (find (ident ngx sh) (inorder sh.tree) q)
  unfolding entry_of
  entry_of-find sh q v = ap (entry_found sh) (lookup-find (ident ngx sh) sh.tree q v.sorted)

  module _ (sh : Zone ngx) (a : ℕ) (rest : List ℕ) (v : IsValid sh) (head : sh.lru ≡ a ∷ rest) where
    present : (b : ℕ) → (if a == b then 1 else 0) + count b rest ≡ count b (inorder sh.tree)
    present b = rw (← v.linked b, head)

    held : 0 < count a (inorder sh.tree)
    held = ground (arith, present a)

    -- Taking the oldest entry out keeps the invariant.
    pub drop_head-IsValid : IsValid (drop_head ngx sh a rest)
    unfolding drop_head
    drop_head-IsValid = record {
      sorted =
          rw (ngx.inorder-delete sh.tree a)
            (Sorted-remove (ident ngx sh) a (inorder sh.tree) v.sorted);
      linked = λ b.
          rw (ngx.inorder-delete sh.tree a)
            (ground (arith, present b, count-remove b a (inorder sh.tree) held));
      backed = λ b inside. ground (
        arith,
        ngx.free_in_use sh.slab a b,
        v.backed b,
        v.linked b,
        present b,
        present a,
        count-Sorted (ident ngx sh) a (inorder sh.tree) v.sorted,
      );
    }

    -- It forgets at most that client, and makes no entry up.
    pub entry_of-drop_head :
        (q : Ident)
        → (entry_of (drop_head ngx sh a rest) q ≡ entry_of sh q)
          ⊎ (entry_of (drop_head ngx sh a rest) q ≡ none)
    unfolding drop_head
    entry_of-drop_head q =
        rw (entry_of-find (drop_head ngx sh a rest) q drop_head-IsValid, entry_of-find sh q v)
          (go (direction q (ident ngx sh a)) refl)
      where
        after :
            find (ident ngx sh) (inorder (drop_head ngx sh a rest).tree) q
            ≡ find (ident ngx sh) (remove a (inorder sh.tree)) q
        after = ap (λ xs. find (ident ngx sh) xs q) (ngx.inorder-delete sh.tree a)

        gone : q ≡ ident ngx sh a → find (ident ngx sh) (remove a (inorder sh.tree)) q ≡ none
        gone e =
            ap (find (ident ngx sh) (remove a (inorder sh.tree))) e
            ∙ find-remove_self (ident ngx sh) a (inorder sh.tree) held v.sorted

        other :
            direction q (ident ngx sh a) ≢ here
            → entry_found
                (drop_head ngx sh a rest)
                (find (ident ngx sh) (inorder (drop_head ngx sh a rest).tree) q)
              ≡ entry_found sh (find (ident ngx sh) (inorder sh.tree) q)
        other ne =
            ap (entry_found sh) (after ∙ find-remove_ne (ident ngx sh) a (inorder sh.tree) q ne)

        go :
            (d : Dir)
            → direction q (ident ngx sh a) ≡ d
            → (entry_found (drop_head ngx sh a rest) (
                  find
                    (ident ngx (drop_head ngx sh a rest))
                    (inorder (drop_head ngx sh a rest).tree)
                    q)
                ≡ entry_found sh (find (ident ngx sh) (inorder sh.tree) q))
              ⊎ (entry_found (drop_head ngx sh a rest) (
                    find
                      (ident ngx (drop_head ngx sh a rest))
                      (inorder (drop_head ngx sh a rest).tree)
                      q)
                  ≡ none)
        go left e = inl (other (λ h. cc))
        go right e = inl (other (λ h. cc))
        go here e = inr (
            ap (entry_found (drop_head ngx sh a rest))
              (after ∙ gone (direction_here q (ident ngx sh a) e)))
