-- ===== src/Base/Words.antt =====
-- Numbers as bytes in both byte orders, and reads of a field at an offset. No code is modelled here.
use Prim.Native.Nat.{ℕ, zero, suc, ◌+◌, ◌*◌, ◌/◌, ◌%◌, ◌^◌, ◌<◌}
use mathlib.Core.List.{List, [], ◌∷◌, ◌++◌}
use mathlib.Core.Path.{◌≡◌, refl}
use native.Mathlib.Nat.{pow-suc}
use native.Mathlib.Omega.{arith}
use http_dmmr_nginx.Base.Lists.{length, length-append, All, All-append}

abbrev pub Bytes : Type 0
Bytes = List ℕ

abbrev pub AreBytes : Bytes → Type 0
AreBytes = All (λ b. b < 256)

-- The n low bytes of a number, most significant first.
unfoldable pub be : ℕ → ℕ → Bytes
be zero x = []
be (suc n) x = be n (x / 256) ++ (x % 256) ∷ []

-- The n low bytes of a number, least significant first.
unfoldable pub le : ℕ → ℕ → Bytes
le zero x = []
le (suc n) x = (x % 256) ∷ le n (x / 256)

unfoldable pub of_be_from : ℕ → Bytes → ℕ
of_be_from acc [] = acc
of_be_from acc (b ∷ bs) = of_be_from (acc * 256 + b) bs

abbrev pub of_be : Bytes → ℕ
of_be = of_be_from 0

unfoldable pub of_le : Bytes → ℕ
of_le [] = 0
of_le (b ∷ bs) = b + 256 * of_le bs

pub length-be : (n x : ℕ) → length (be n x) ≡ n
unfolding be
length-be zero x = refl
length-be (suc n) x =
    omega (arith, length-append (be n (x / 256)) ((x % 256) ∷ []), length-be n (x / 256))

pub length-le : (n x : ℕ) → length (le n x) ≡ n
unfolding le
length-le zero x = refl
length-le (suc n) x = omega (arith, length-le n (x / 256))

pub be-AreBytes : (n x : ℕ) → AreBytes (be n x)
unfolding be
be-AreBytes zero x = tt
be-AreBytes (suc n) x =
    All-append _ (be n (x / 256)) ((x % 256) ∷ []) (be-AreBytes n (x / 256)) (omega arith, tt)

of_be_from-append :
    (acc : ℕ) (xs : Bytes) (b : ℕ) → of_be_from acc (xs ++ b ∷ []) ≡ of_be_from acc xs * 256 + b
unfolding of_be_from
of_be_from-append acc [] b = refl
of_be_from-append acc (x ∷ xs) b = of_be_from-append (acc * 256 + x) xs b

pub of_be-be : (n x : ℕ) → x < 256 ^ n → of_be (be n x) ≡ x
unfolding be of_be_from
of_be-be zero x h = omega arith
of_be-be (suc n) x h = omega (
  arith,
  of_be_from-append 0 (be n (x / 256)) (x % 256),
  of_be-be n (x / 256) (omega (arith, pow-suc 256 n)),
)

pub of_le-le : (n x : ℕ) → x < 256 ^ n → of_le (le n x) ≡ x
unfolding le of_le
of_le-le zero x h = omega arith
of_le-le (suc n) x h = omega (arith, of_le-le n (x / 256) (omega (arith, pow-suc 256 n)))
