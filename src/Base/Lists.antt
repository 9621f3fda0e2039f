-- ===== src/Base/Lists.antt =====
-- Lists measured and cut by native numbers, under the library's names.
use Prim.Native.Nat.{ℕ, zero, suc, ◌+◌, ◌-◌, ◌≤◌, min}
use mathlib.Core.Path.{◌≡◌, refl, ap, sym, ◌∙◌}
use mathlib.Core.List.{List, [], ◌∷◌, ◌++◌, map}
use native.Mathlib.Nat.{zero-add}
use native.Mathlib.Omega.{arith}

module _ {ℓ} {A : Type ℓ} where
  abbrev pub length : List A → ℕ
  length [] = 0
  length (x ∷ xs) = suc (length xs)

  abbrev pub take : ℕ → List A → List A
  take zero xs = []
  take (suc n) [] = []
  take (suc n) (x ∷ xs) = x ∷ take n xs

  abbrev pub drop : ℕ → List A → List A
  drop zero xs = xs
  drop (suc n) [] = []
  drop (suc n) (x ∷ xs) = drop n xs

  abbrev pub replicate : ℕ → A → List A
  replicate zero a = []
  replicate (suc n) a = a ∷ replicate n a

module _ {ℓ} {A : Type ℓ} where
  pub length-append : (xs ys : List A) → length (xs ++ ys) ≡ length xs + length ys
  length-append [] ys = omega arith
  length-append (x ∷ xs) ys = omega (arith, length-append xs ys)

  pub length-take : (n : ℕ) (xs : List A) → length (take n xs) ≡ min n (length xs)
  length-take zero xs = omega arith
  length-take (suc n) [] = omega arith
  length-take (suc n) (x ∷ xs) = omega (arith, length-take n xs)

  pub length-drop : (n : ℕ) (xs : List A) → length (drop n xs) ≡ length xs - n
  length-drop zero xs = omega arith
  length-drop (suc n) [] = omega arith
  length-drop (suc n) (x ∷ xs) = omega (arith, length-drop n xs)

  pub take-append-drop : (n : ℕ) (xs : List A) → take n xs ++ drop n xs ≡ xs
  take-append-drop zero xs = refl
  take-append-drop (suc n) [] = refl
  take-append-drop (suc n) (x ∷ xs) = ap (◌∷◌ x) (take-append-drop n xs)

  pub take-all : (n : ℕ) (xs : List A) → length xs ≤ n → take n xs ≡ xs
  take-all zero [] h = refl
  take-all zero (x ∷ xs) h = absurd (omega arith)
  take-all (suc n) [] h = refl
  take-all (suc n) (x ∷ xs) h = ap (◌∷◌ x) (take-all n xs (omega arith))

  pub drop-all : (n : ℕ) (xs : List A) → length xs ≤ n → drop n xs ≡ []
  drop-all zero [] h = refl
  drop-all zero (x ∷ xs) h = absurd (omega arith)
  drop-all (suc n) [] h = refl
  drop-all (suc n) (x ∷ xs) h = drop-all n xs (omega arith)

  pub take-nil : (n : ℕ) → take {A = A} n [] ≡ []
  take-nil zero = refl
  take-nil (suc n) = refl

  pub take-add : (n k : ℕ) (xs : List A) → take (n + k) xs ≡ take n xs ++ take k (drop n xs)
  take-add zero k xs = rw zero-add
  take-add (suc n) k [] = take-nil (suc n + k) ∙ sym (take-nil k)
  take-add (suc n) k (x ∷ xs) =
      let e : suc n + k ≡ suc (n + k) = omega arith in rw e (ap (◌∷◌ x) (take-add n k xs))

  pub drop-drop : (k n : ℕ) (xs : List A) → drop k (drop n xs) ≡ drop (n + k) xs
  drop-drop k zero xs = rw zero-add
  drop-drop k (suc n) [] = drop-all k [] (omega arith) ∙ sym (drop-all (suc n + k) [] (omega arith))
  drop-drop k (suc n) (x ∷ xs) =
      let e : suc n + k ≡ suc (n + k) = omega arith in rw e (drop-drop k n xs)

  pub take-take : (k n : ℕ) (xs : List A) → take k (take n xs) ≡ take (min k n) xs
  take-take zero n xs = let e : min zero n ≡ zero = omega arith in rw e
  take-take (suc k) zero xs = let e : min (suc k) zero ≡ zero = omega arith in rw e
  take-take (suc k) (suc n) [] = let e : min (suc k) (suc n) ≡ suc (min k n) = omega arith in rw e
  take-take (suc k) (suc n) (x ∷ xs) =
      let e : min (suc k) (suc n) ≡ suc (min k n) = omega arith in
      rw e (ap (◌∷◌ x) (take-take k n xs))

  pub take_self : (n : ℕ) (xs : List A) → take n xs ≡ take (length (take n xs)) xs
  take_self zero xs = refl
  take_self (suc n) [] = refl
  take_self (suc n) (x ∷ xs) = ap (◌∷◌ x) (take_self n xs)

  pub length-map {κ} : {B : Type κ} (f : A → B) (xs : List A) → length (map f xs) ≡ length xs
  length-map f [] = refl
  length-map f (x ∷ xs) = ap suc (length-map f xs)

  pub length-replicate : (n : ℕ) (a : A) → length (replicate n a) ≡ n
  length-replicate zero a = refl
  length-replicate (suc n) a = ap suc (length-replicate n a)

  -- Where one of two cuts of a list comes first, what lies between them.
  pub append-split :
      (bs xs ys rest : List A)
      → bs ++ xs ≡ ys ++ rest
      → length bs ≤ length ys
      → (zs : List A) × (ys ≡ bs ++ zs) × (xs ≡ zs ++ rest)
  append-split [] xs ys rest e h = (ys, refl, e)
  append-split (b ∷ bs) xs [] rest e h = absurd (omega arith)
  append-split (b ∷ bs) xs (y ∷ ys) rest e h =
      let (zs, p, q) = append-split bs xs ys rest (cc) (omega arith) in (zs, cc, q)

  -- Two cuts at the same place are the same.
  pub append-cancel :
      (xs ys us vs : List A) → xs ++ us ≡ ys ++ vs → length xs ≡ length ys → (xs ≡ ys) × (us ≡ vs)
  append-cancel [] [] us vs e h = (refl, e)
  append-cancel [] (y ∷ ys) us vs e h = absurd (omega arith)
  append-cancel (x ∷ xs) [] us vs e h = absurd (omega arith)
  append-cancel (x ∷ xs) (y ∷ ys) us vs e h =
      let (p, q) = append-cancel xs ys us vs (cc) (omega arith) in (cc, q)
