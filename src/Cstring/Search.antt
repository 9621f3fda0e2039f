-- ===== src/Cstring/Search.antt =====
-- Where the searches find a byte.
use cifscp.Base.{ℕ, ◌≡◌, refl, Bool, false, ◌||◌, none, some, [], ◌∷◌, ◌++◌, arith, ◌==◌}
use cifscp.Base.Strings.{Bytes}
use cifscp.Cstring.{c_str, strchr, strrchr}

abbrev pub has : ℕ → Bytes → Bool
has c [] = false
has c (x ∷ xs) = x == c || has c xs

pub has-append : (c : ℕ) (xs ys : Bytes) → has c (xs ++ ys) ≡ (has c xs || has c ys)
has-append c [] ys = refl
has-append c (x ∷ xs) ys = ground (arith, has-append c xs ys)

pub strchr-append :
    (c : ℕ) (before after : Bytes)
    → has c before ≡ false
    → strchr (before ++ (c ∷ after)) c ≡ some (before, after)
unfolding strchr
strchr-append c [] after h = ground arith
strchr-append c (x ∷ xs) after h = ground (arith, strchr-append c xs after)

pub strchr-none : (c : ℕ) (s : Bytes) → has c s ≡ false → strchr s c ≡ none
unfolding strchr
strchr-none c [] h = refl
strchr-none c (x ∷ xs) h = ground (arith, strchr-none c xs)

pub strrchr-none : (c : ℕ) (s : Bytes) → has c s ≡ false → strrchr s c ≡ none
unfolding strrchr
strrchr-none c [] h = refl
strrchr-none c (x ∷ xs) h = ground (arith, strrchr-none c xs)

pub strrchr-append :
    (c : ℕ) (before after : Bytes)
    → has c after ≡ false
    → strrchr (before ++ (c ∷ after)) c ≡ some (before, after)
unfolding strrchr
strrchr-append c [] after h = ground (arith, strrchr-none c after h)
strrchr-append c (x ∷ xs) after h = ground (arith, strrchr-append c xs after h)

pub c_str_self : (s : Bytes) → has 0 s ≡ false → c_str s ≡ s
unfolding c_str
c_str_self [] h = refl
c_str_self (x ∷ xs) h = ground (arith, c_str_self xs)
