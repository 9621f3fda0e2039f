-- ===== src/Fuse/Places.antt =====
-- A place in a list that may be changed there, as a pointer into a linked list may.
use cifscp.Base.{Bool, Option, none, some, List, [], ◌∷◌, ◌++◌, length, if◌then◌else◌}
use cifscp.Base.Strings.{Bytes}
use cifscp.Cstring.{same_start, same_string}

pub record Place {ℓ} (A : Type ℓ) : Type ℓ where
  pub before : List A
  pub here : A
  pub after : List A

abbrev pub whole {ℓ} : {A : Type ℓ} → Place A → List A
whole p = p.before ++ (p.here ∷ p.after)

abbrev pub further {ℓ} : {A : Type ℓ} → A → Option (Place A) → Option (Place A)
further x none = none
further x (some p) = some (record p { before = x ∷ p.before })

-- The first place that passes a test.
unfoldable pub find {ℓ} : {A : Type ℓ} → (A → Bool) → List A → Option (Place A)
find test [] = none
find test (x ∷ xs) =
    if test x then some (record { before = []; here = x; after = xs }) else further x (find test xs)

-- `!strncmp(name, s, n)`, where `n` is the length of `s`, and `!strcmp(name, s)`.
unfoldable pub found_start : Bytes → Bytes → Bool
unfolding same_start
found_start s name = same_start name s (length s)

unfoldable pub found_name : Bytes → Bytes → Bool
unfolding same_string
found_name s name = same_string name s
