-- ===== src/Fuse/Names.antt =====
-- Lists in which no name stands twice, and what a search by name says of them.
use mathlib.Core.Path.{subst}
use mathlib.Core.Option.{some-injective}
use cifscp.Base.{
  ◌≡◌, ◌≢◌, refl, sym, ap, inl, inr, Bool, true, Option, none, some, List, [], ◌∷◌, ◌++◌, map,
  arith, Bool-cases,
}
use cifscp.Base.Strings.{Bytes}
use cifscp.Fuse.Places.{Place, whole, find, further, found_start, found_name}

-- No two names of a list are the same.
abbrev pub Apart : Bytes → List Bytes → Type 0
Apart s [] = Unit
Apart s (x ∷ xs) = (s ≢ x) × Apart s xs

abbrev pub Distinct : List Bytes → Type 0
Distinct [] = Unit
Distinct (x ∷ xs) = Apart x xs × Distinct xs

pub found_start_self : (s : Bytes) → found_start s s ≡ true
unfolding found_start
found_start_self [] = refl
found_start_self (c ∷ cs) = ground (arith, found_start_self cs)

pub found_name_self : (s : Bytes) → found_name s s ≡ true
unfolding found_name
found_name_self [] = refl
found_name_self (c ∷ cs) = ground (arith, found_name_self cs)

missed : {A : Type 0} (x : A) (p : Option (Place A)) → further x p ≡ none → p ≡ none
missed x none e = refl
missed x (some p) e = cc

found_later :
    {A : Type 0} (x : A) (r : Option (Place A)) (p : Place A)
    → further x r ≡ some p
    → (q : Place A) × (r ≡ some q) × (p ≡ record q { before = x ∷ q.before })
found_later x none p e = cc
found_later x (some q) p e = (q, refl, sym (some-injective _ _ e))

-- A name that a search by it does not find is not in the list.
module _ {A : Type 0} (name : A → Bytes) (test : Bytes → Bytes → Bool)
    (self : (s : Bytes) → test s s ≡ true) where
  pub find-none-Apart :
      (s : Bytes) (xs : List A) → find (λ x. test s (name x)) xs ≡ none → Apart s (map name xs)
  unfolding find
  find-none-Apart s [] e = tt
  find-none-Apart s (x ∷ xs) e = elim (Bool-cases (test s (name x))) [
    | inl y ↦ cc (rw y at e)
    | inr n ↦ (
      (λ same. cc (subst (λ y. test s y ≡ true) same (self s))),
      find-none-Apart s xs (missed x (find (λ y. test s (name y)) xs) (rw n at e)),
    )
  ]

-- A search finds a place of its list.
pub find-whole :
    {A : Type 0} (test : A → Bool) (xs : List A) (p : Place A)
    → find test xs ≡ some p
    → xs ≡ whole p
unfolding find
find-whole test [] p e = cc
find-whole test (x ∷ xs) p e = elim (Bool-cases (test x)) [
  | inl y ↦ subst (λ (q : Place _). x ∷ xs ≡ whole q) (some-injective _ _ (rw y at e)) refl
  | inr n ↦
      let (q, found, same) = found_later x (find test xs) p (rw n at e) in
      rw (same) (ap (◌∷◌ x) (find-whole test xs q found))
]

module _ {A : Type 0} (P : A → Type 0) where
  abbrev pub All : List A → Type 0
  All [] = Unit
  All (x ∷ xs) = P x × All xs

  pub All-here : (xs : List A) (x : A) (ys : List A) → All (xs ++ (x ∷ ys)) → P x
  All-here [] x ys h = h.0
  All-here (z ∷ xs) x ys h = All-here xs x ys h.1

  pub All-change :
      (xs : List A) (x y : A) (ys : List A) → All (xs ++ (x ∷ ys)) → P y → All (xs ++ (y ∷ ys))
  All-change [] x y ys h k = (k, h.1)
  All-change (z ∷ xs) x y ys h k = (h.0, All-change xs x y ys h.1 k)

pub map-change :
    {A : Type 0} (name : A → Bytes) (xs : List A) (x y : A) (ys : List A)
    → name y ≡ name x
    → map name (xs ++ (y ∷ ys)) ≡ map name (xs ++ (x ∷ ys))
map-change name [] x y ys e = ap (λ n. n ∷ map name ys) e
map-change name (z ∷ xs) x y ys e = ap (◌∷◌ (name z)) (map-change name xs x y ys e)
