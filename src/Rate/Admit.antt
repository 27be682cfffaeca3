-- ===== src/Rate/Admit.antt =====
-- The rate-limit zone after a new entry: the end of ngx_http_dmmr_rate_limit, from ngx_memzero on.
use http_dmmr_nginx.Base.{
  ℕ, ◌≡◌, ◌≢◌, ◌<◌, refl, sym, ap, ◌∙◌, Bool, true, false, [], ◌∷◌, Option, none, some, arith, All,
  ◌==◌, subst, Bool-cases, inl, inr, ==_iff, Bytes, length, All-map, ltb, ◌%◌, take-length,
}
use http_dmmr_nginx.Rate.Order.{
  Ident, Dir, left, here, right, direction, direction_refl, direction_here,
}
use http_dmmr_nginx.Rate.Tree.{inorder, rbtree_insert, Sorted}
use http_dmmr_nginx.Rate.Sorted.{count, find, insert_sorted, count-append, inorder-rbtree_insert}
use http_dmmr_nginx.Rate.Ascending.{
  count-insert, find-insert, Sorted-insert, find_hit, find_cong, Sorted-cong, All-absent,
}
use http_dmmr_nginx.Rate.Zone.{RateNode, ident_of, Nginx, Zone, ident, admit, update}
use http_dmmr_nginx.Rate.Valid.{IsValid, entry_found, entry_of, entry_of-find}

module _ (ngx : Nginx) where
  -- A new entry at a fresh address.
  module _ (sh : Zone ngx) (a now : ℕ) (client_key : Bytes) (slab : ngx.Slab) (v : IsValid ngx sh)
      (given : ngx.slab_alloc sh.slab ≡ some (a, slab)) (fits : length client_key < 256) where
    abbrev client : Ident
    client = record { hash = ngx.crc32 client_key; key = client_key }

    unlisted : count a (inorder sh.tree) ≡ 0
    unlisted = elim (Bool-cases (ltb 0 (count a (inorder sh.tree)))) [
      | inr none_of_it ↦ ground arith
      | inl some_of_it ↦
          absurd
            (clash (ngx.alloc_fresh sh.slab slab a given) (v.backed a (ground (arith, v.linked a))))
    ]
      where
        clash : {b : Bool} → b ≡ false → b ≡ true → ⊥
        clash e f = cc

    abbrev admitted : Zone ngx
    admitted = admit ngx now client_key a slab sh

    abbrev new_entry : RateNode
    new_entry = record {
      hash = ngx.crc32 client_key;
      window_start = now;
      count = 1;
      key_len = length client_key % 256;
      key = client_key;
    }

    abbrev new_ident : ℕ → Ident
    new_ident b = ident_of (update sh.heap a new_entry b)

    new_ident_self : new_ident a ≡ client
    new_ident_self =
        let keep : length client_key % 256 ≡ length client_key = omega arith in
        (rw ((==_iff a a).1 refl, keep, take-length client_key))

    new_ident_other : All (λ b. ident ngx sh b ≡ new_ident b) (inorder sh.tree)
    new_ident_other =
        All-map (λ b. (a == b) ≡ false) (λ b. ident ngx sh b ≡ new_ident b) (inorder sh.tree)
          (λ b e. rw e) (All-absent a (inorder sh.tree) unlisted)

    module _ (absent : find (ident ngx sh) (inorder sh.tree) client ≡ none) where
      Sorted-before : Sorted new_ident (inorder sh.tree)
      Sorted-before =
          Sorted-cong (ident ngx sh) new_ident (inorder sh.tree) new_ident_other v.sorted

      absent_before : find new_ident (inorder sh.tree) (new_ident a) ≡ none
      absent_before =
          ap (find new_ident (inorder sh.tree)) new_ident_self
          ∙ (sym (find_cong (ident ngx sh) new_ident (inorder sh.tree) client new_ident_other)
              ∙ absent)

      inorder-admitted : inorder admitted.tree ≡ insert_sorted new_ident a (inorder sh.tree)
      unfolding admit
      inorder-admitted =
          ngx.inorder-rebalance (rbtree_insert new_ident sh.tree a)
          ∙ inorder-rbtree_insert new_ident sh.tree a Sorted-before

      pub admitted-IsValid : IsValid ngx admitted
      unfolding admit
      admitted-IsValid = record {
        sorted =
            subst (Sorted new_ident) (sym inorder-admitted)
              (Sorted-insert new_ident a (inorder sh.tree) absent_before Sorted-before);
        linked = λ b. ground (
          arith,
          count-append b sh.lru (a ∷ []),
          v.linked b,
          ap (count b) inorder-admitted,
          count-insert new_ident b a (inorder sh.tree),
        );
        backed = λ b inside. ground (
          arith,
          ngx.alloc_in_use sh.slab slab a b given,
          count-append b sh.lru (a ∷ []),
          v.backed b,
        );
      }

      find-admitted :
          (q : Ident)
          → find (ident ngx admitted) (inorder admitted.tree) q
            ≡ find new_ident (a ∷ inorder sh.tree) q
      unfolding admit
      find-admitted q =
          ap (λ xs. find new_ident xs q) inorder-admitted
          ∙ find-insert new_ident a (inorder sh.tree) q absent_before

      find_self : find new_ident (a ∷ inorder sh.tree) client ≡ some a
      unfolding find
      find_self =
          let e : direction client (new_ident a) ≡ here =
            ap (direction client) new_ident_self ∙ direction_refl client in
          rw (e, find)

      find_other :
          (q : Ident)
          → q ≢ client
          → find new_ident (a ∷ inorder sh.tree) q ≡ find (ident ngx sh) (inorder sh.tree) q
      unfolding find
      find_other q ne =
          past (direction q (new_ident a)) refl
          ∙ sym (find_cong (ident ngx sh) new_ident (inorder sh.tree) q new_ident_other)
        where
          past :
              (d : Dir)
              → direction q (new_ident a) ≡ d
              → find new_ident (a ∷ inorder sh.tree) q ≡ find new_ident (inorder sh.tree) q
          past left e = rw (e, find)
          past right e = rw (e, find)
          past here e = absurd (ne (direction_here q (new_ident a) e ∙ new_ident_self))

      pub entry_of-admitted_self : entry_of ngx admitted client ≡ some new_entry
      unfolding admit
      entry_of-admitted_self =
          entry_of-find ngx admitted client admitted-IsValid
          ∙ (ap (entry_found ngx admitted) (find-admitted client ∙ find_self)
              ∙ rw ((==_iff a a).1 refl))

      pub entry_of-admitted_ne :
          (q : Ident) → q ≢ client → entry_of ngx admitted q ≡ entry_of ngx sh q
      unfolding admit
      entry_of-admitted_ne q ne =
          entry_of-find ngx admitted q admitted-IsValid
          ∙ (ap (entry_found ngx admitted) (find-admitted q ∙ find_other q ne)
              ∙ (keeps (find (ident ngx sh) (inorder sh.tree) q) refl
                  ∙ sym (entry_of-find ngx sh q v)))
        where
          keeps :
              (o : Option ℕ)
              → find (ident ngx sh) (inorder sh.tree) q ≡ o
              → entry_found ngx admitted o ≡ entry_found ngx sh o
          keeps none e = refl
          keeps (some b) e = elim (Bool-cases (a == b)) [
            | inl eq ↦
                absurd
                  (ground (arith, (find_hit (ident ngx sh) b (inorder sh.tree) q e).0, unlisted))
            | inr other ↦ rw other
          ]
