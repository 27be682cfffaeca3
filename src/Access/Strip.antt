-- ===== src/Access/Strip.antt =====
-- strip_path of ngx_http_dmmr_router: the new URI is what the path of the route leaves.
use http_dmmr_nginx.Base.{
  ◌≡◌, ◌≢◌, ◌-◌, ◌≤◌, refl, ap, ◌∙◌, true, [], ◌∷◌, ◌++◌, arith, All, inl, inr, ◌⊎◌, Bytes, length,
  drop, ◌==◌, Bool-cases, append-nil, length-drop, empty_of_length,
}
use http_dmmr_nginx.Access.Router.{strncmp, match_path, stripped}
use http_dmmr_nginx.Rate.Zone.{ok}

-- No byte of a configured path is NUL.
abbrev pub HasNoNul : Bytes → Type 0
HasNoNul = All (λ x. x ≢ 0)

strncmp-prefix :
    (xs ys : Bytes) → HasNoNul ys → strncmp xs ys ≡ true → xs ≡ ys ++ drop (length ys) xs
unfolding strncmp
strncmp-prefix xs [] h e = refl
strncmp-prefix [] (y ∷ ys) h e = cc
strncmp-prefix (x ∷ xs) (y ∷ ys) h e = ground (arith, strncmp-prefix xs ys h.1, h.0)

match_path-prefix :
    (uri path : Bytes)
    → HasNoNul path
    → match_path uri path ≡ ok
    → uri ≡ path ++ drop (length path) uri
unfolding match_path
match_path-prefix uri [] h e = refl
match_path-prefix uri (y ∷ ys) h e = strncmp-prefix uri (y ∷ ys) h (ground (arith, e))

-- A URI that matches a path without NUL bytes, under strip_path: the new URI is "/" when the URI is
-- the path, and otherwise it is what follows the path in the URI, and is not empty.
pub stripped_lem :
    (uri path : Bytes)
    → HasNoNul path
    → match_path uri path ≡ ok
    → ((uri ≡ path) × (stripped uri path ≡ 47 ∷ []))
      ⊎ ((1 ≤ length (stripped uri path)) × (uri ≡ path ++ stripped uri path))
unfolding stripped
stripped_lem uri path h e = elim (Bool-cases (length uri - length path == 0)) [
  | inl all ↦ rw all (
      inl (
        match_path-prefix uri path h e
            ∙ (ap (λ xs. path ++ xs)
                  (empty_of_length (drop (length path) uri)
                    (length-drop (length path) uri ∙ ground (arith, all)))
                ∙ append-nil path),
        refl,
      ))
  | inr more ↦
      rw more
        (inr (ground (arith, length-drop (length path) uri, more), match_path-prefix uri path h e))
]
