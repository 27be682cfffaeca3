-- ===== src/Rate/Order.antt =====
-- The order of the rate-limit tree in nginx-dmmr-module-c/ngx_http_dmmr_rate_limit.c: by hash, then
-- by the length of the key, then by its bytes.
use http_dmmr_nginx.Base.{ℕ, ◌≡◌, refl, [], ◌∷◌, arith, ltb, ◌==◌, if◌then◌else◌, Bytes, length}

-- What a node is looked up by: node.key, and the first key_len bytes of key.
pub record Ident : Type 0 where
  pub hash : ℕ
  pub key : Bytes

-- Where a descent goes on, seen from a node.
pub data Dir : Type 0 where
  left here right : Dir

-- The sign of ngx_memcmp on byte strings of one length.
unfoldable pub memcmp : Bytes → Bytes → Dir
memcmp [] ys = here
memcmp (x ∷ xs) [] = here
memcmp (x ∷ xs) (y ∷ ys) =
    let rest = memcmp xs ys in if ltb x y then left else if ltb y x then right else rest

-- The three-way test that lookup and insertion share.
unfoldable pub direction : Ident → Ident → Dir
direction new node =
    if ltb new.hash node.hash
    then left
    else if ltb node.hash new.hash
    then right
    else if length new.key == length node.key
    then memcmp new.key node.key
    else if ltb (length new.key) (length node.key)
    then left
    else right

memcmp_refl : (xs : Bytes) → memcmp xs xs ≡ here
unfolding memcmp
memcmp_refl [] = refl
memcmp_refl (x ∷ xs) = ground (arith, memcmp_refl xs)

memcmp_here : (xs ys : Bytes) → length xs ≡ length ys → memcmp xs ys ≡ here → xs ≡ ys
unfolding memcmp
memcmp_here [] [] l h = refl
memcmp_here [] (y ∷ ys) l h = absurd (omega arith)
memcmp_here (x ∷ xs) [] l h = absurd (omega arith)
memcmp_here (x ∷ xs) (y ∷ ys) l h = ground (arith, memcmp_here xs ys)

memcmp_flip : (xs ys : Bytes) → length xs ≡ length ys → memcmp xs ys ≡ right → memcmp ys xs ≡ left
unfolding memcmp
memcmp_flip [] ys l h = cc
memcmp_flip (x ∷ xs) [] l h = cc
memcmp_flip (x ∷ xs) (y ∷ ys) l h = ground (arith, memcmp_flip xs ys)

memcmp_trans :
    (xs ys zs : Bytes)
    → length xs ≡ length ys
    → length ys ≡ length zs
    → memcmp xs ys ≡ left
    → memcmp ys zs ≡ left
    → memcmp xs zs ≡ left
unfolding memcmp
memcmp_trans [] ys zs k l g h = cc
memcmp_trans (x ∷ xs) [] zs k l g h = cc
memcmp_trans (x ∷ xs) (y ∷ ys) [] k l g h = cc
memcmp_trans (x ∷ xs) (y ∷ ys) (z ∷ zs) k l g h = ground (arith, memcmp_trans xs ys zs)

pub direction_refl : (a : Ident) → direction a a ≡ here
unfolding direction
direction_refl a = ground (arith, memcmp_refl a.key)

pub direction_here : (a b : Ident) → direction a b ≡ here → a ≡ b
unfolding direction
direction_here a b h = ground (arith, memcmp_here a.key b.key)

pub direction_flip : (a b : Ident) → direction a b ≡ right → direction b a ≡ left
unfolding direction
direction_flip a b h = ground (arith, memcmp_flip a.key b.key)

pub direction_trans :
    (a b c : Ident) → direction a b ≡ left → direction b c ≡ left → direction a c ≡ left
unfolding direction
direction_trans a b c g h = ground (arith, memcmp_trans a.key b.key c.key)
