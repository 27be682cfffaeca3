-- ===== src/Rate/Touch.antt =====
-- The rate-limit zone after a request of a client that has an entry: the branch of
-- ngx_http_dmmr_rate_limit that charges the entry and moves it to the end of the queue.
use http_dmmr_nginx.Base.{
  ℕ, ◌≡◌, ◌≢◌, ◌<◌, refl, sym, ap, ◌∙◌, [], ◌∷◌, ◌++◌, Option, none, some, arith, ◌==◌, subst,
  Bool-cases, inl, inr, ==_iff,
}
use mathlib.Core.Path.{fun_ext}
use http_dmmr_nginx.Rate.Order.{Ident}
use http_dmmr_nginx.Rate.Tree.{inorder, Sorted}
use http_dmmr_nginx.Rate.Sorted.{count, remove, find, count-remove, count-append}
use http_dmmr_nginx.Rate.Ascending.{find_hit}
use http_dmmr_nginx.Rate.Zone.{RateNode, ident_of, Nginx, Zone, ident, update}
use http_dmmr_nginx.Rate.Valid.{IsValid, entry_found, entry_of, entry_of-find}

module _ (ngx : Nginx) where
  -- A client whose entry is taken over under a new window or count, and moved to the queue's end.
  module _ (sh : Zone ngx) (a : ℕ) (n : RateNode) (v : IsValid ngx sh)
      (same : ident_of n ≡ ident ngx sh a) (there : 0 < count a (inorder sh.tree)) where
    abbrev touched : Zone ngx
    touched = record sh { lru = remove a sh.lru ++ (a ∷ []); heap = update sh.heap a n }

    ident-touched : ident ngx touched ≡ ident ngx sh
    ident-touched = fun_ext λ b. elim (Bool-cases (a == b)) [
      | inl e ↦ rw e (same ∙ ap (ident ngx sh) ((==_iff a b).0 e))
      | inr e ↦ rw e
    ]

    pub touched-IsValid : IsValid ngx touched
    touched-IsValid = record {
      sorted = subst (λ f. Sorted f (inorder sh.tree)) (sym ident-touched) v.sorted;
      linked = λ b. ground (
        arith,
        count-append b (remove a sh.lru) (a ∷ []),
        count-remove b a sh.lru,
        v.linked a,
        v.linked b,
      );
      backed = λ b inside. v.backed b (
          ground (
            arith,
            count-append b (remove a sh.lru) (a ∷ []),
            count-remove b a sh.lru,
            v.linked a,
            v.linked b,
          ));
    }

    pub entry_of-touched_self :
        (q : Ident)
        → find (ident ngx sh) (inorder sh.tree) q ≡ some a
        → entry_of ngx touched q ≡ some n
    entry_of-touched_self q hit =
        entry_of-find ngx touched q touched-IsValid
        ∙ (ap (λ f. entry_found ngx touched (find f (inorder sh.tree) q)) ident-touched
            ∙ (ap (entry_found ngx touched) hit ∙ ground arith))

    pub entry_of-touched_ne :
        (q : Ident) → q ≢ ident ngx sh a → entry_of ngx touched q ≡ entry_of ngx sh q
    entry_of-touched_ne q ne =
        entry_of-find ngx touched q touched-IsValid
        ∙ (ap (λ f. entry_found ngx touched (find f (inorder sh.tree) q)) ident-touched
            ∙ (go (find (ident ngx sh) (inorder sh.tree) q) refl ∙ sym (entry_of-find ngx sh q v)))
      where
        go :
            (o : Option ℕ)
            → find (ident ngx sh) (inorder sh.tree) q ≡ o
            → entry_found ngx touched o ≡ entry_found ngx sh o
        go none e = refl
        go (some b) e = elim (Bool-cases (a == b)) [
          | inl eq ↦ absurd (
              ne (
                (find_hit (ident ngx sh) b (inorder sh.tree) q e).1
                ∙ ap (ident ngx sh) (sym ((==_iff a b).0 eq))))
          | inr other ↦ rw other
        ]
