-- ===== src/Fuse/Paths.antt =====
-- What `fusecifs_parse_path` makes of a path.
use cifscp.Base.{
  ℕ, zero, suc, ◌≡◌, ◌≢◌, refl, ap, ◌∙◌, inl, inr, false, none, some, [], ◌∷◌, ◌++◌, arith, ◌==◌,
  Bool-cases, replicate,
}
use mathlib.Core.Path.{subst}
use mathlib.Core.List.{append-nil}
use cifscp.Base.Strings.{Bytes}
use cifscp.Cstring.Search.{has}
use cifscp.Fuse.{past_slashes, component, MountPath, split_share, split_host, split_path}

abbrev pub slashes : ℕ → Bytes
slashes n = replicate n b'/'

-- A name between slashes.
abbrev pub IsName : Bytes → Type 0
IsName s = (s ≢ []) × (has b'/' s ≡ false)

abbrev pub BeginsPath : Bytes → Type 0
BeginsPath [] = Unit
BeginsPath (c ∷ cs) = c ≡ b'/'

abbrev Stops : Bytes → Type 0
Stops [] = Unit
Stops (c ∷ cs) = c ≢ b'/'

past_split : (s : Bytes) → (n : ℕ) × (s ≡ slashes n ++ past_slashes s) × Stops (past_slashes s)
unfolding past_slashes
past_split [] = (0, refl, tt)
past_split (c ∷ cs) = elim (Bool-cases (c == b'/')) [
  | inl e ↦
      let (n, split, stops) = past_split cs in
      let same : c ≡ b'/' = ground arith in rw (e) (suc n, rw (same) (ap (◌∷◌ b'/') split), stops)
  | inr e ↦ rw (e) (0, refl, ground arith)
]

component_split :
    (s : Bytes)
    → (s ≡ (component s).0 ++ (component s).1)
      × (has b'/' (component s).0 ≡ false)
      × BeginsPath (component s).1
unfolding component
component_split [] = (refl, refl, tt)
component_split (c ∷ cs) = elim (Bool-cases (c == b'/')) [
  | inl e ↦ rw (e) (refl, refl, ground arith)
  | inr e ↦
      let (split, none_in, begins) = component_split cs in
      rw (e) (ap (◌∷◌ c) split, rw (e) none_in, begins)
]

component_some : (c : ℕ) (cs : Bytes) → c ≢ b'/' → (component (c ∷ cs)).0 ≢ []
unfolding component
component_some c cs h = ground arith

-- The three kinds of paths, and their parts.
pub data Splits (s : Bytes) : MountPath → Type 0 where
  root : (n : ℕ) → s ≡ slashes n → Splits s (record { host = none; share = none; path = none })
  host_only :
      (n m : ℕ) (host : Bytes)
      → IsName host
      → s ≡ slashes n ++ (host ++ slashes m)
      → Splits s (record { host = some host; share = none; path = none })
  whole_path :
      (n m : ℕ) (host share path : Bytes)
      → IsName host
      → IsName share
      → BeginsPath path
      → s ≡ slashes n ++ (host ++ (slashes (suc m) ++ (share ++ path)))
      → Splits s (record { host = some host; share = some share; path = some path })

IsName-component : (c : ℕ) (cs : Bytes) → c ≢ b'/' → IsName (component (c ∷ cs)).0
IsName-component c cs h = (component_some c cs h, (component_split (c ∷ cs)).1)

share_Splits :
    (s host rest t : Bytes) (n m : ℕ)
    → IsName host
    → s ≡ slashes n ++ (host ++ rest)
    → BeginsPath rest
    → rest ≡ slashes m ++ t
    → Stops t
    → Splits s (split_share host t)
unfolding split_share
share_Splits s host rest [] n m h e begins cut stops =
    host_only n m host h (e ∙ ap (λ r. slashes n ++ (host ++ r)) (cut ∙ append-nil (slashes m)))
share_Splits s host rest (c ∷ cs) n zero h e begins cut stops =
    absurd (stops (subst BeginsPath cut begins))
share_Splits s host rest (c ∷ cs) n (suc m) h e begins cut stops =
    let (split, _, goes_on) = component_split (c ∷ cs) in
    whole_path n m host (component (c ∷ cs)).0 (component (c ∷ cs)).1 h
      (IsName-component c cs stops) goes_on
      (e ∙ ap (λ r. slashes n ++ (host ++ r)) (cut ∙ ap (◌++◌ (slashes (suc m))) split))

host_Splits : (s t : Bytes) (n : ℕ) → s ≡ slashes n ++ t → Stops t → Splits s (split_host t)
unfolding split_host
host_Splits s [] n e stops = root n (e ∙ append-nil (slashes n))
host_Splits s (c ∷ cs) n e stops =
    let (split, _, begins) = component_split (c ∷ cs) in
    let (m, cut, stops') = past_split (component (c ∷ cs)).1 in
    share_Splits s (component (c ∷ cs)).0 (component (c ∷ cs)).1
      (past_slashes (component (c ∷ cs)).1) n m (IsName-component c cs stops)
      (e ∙ ap (◌++◌ (slashes n)) split) begins cut stops'

-- Every path is nothing but slashes, or a host between slashes, or a host, a share and what stands
-- behind it from its first slash on, and `fusecifs_parse_path` finds these parts. Hosts and
-- shares hold no slash and are not empty.
pub split_path-Splits : (s : Bytes) → Splits s (split_path s)
unfolding split_path
split_path-Splits s =
    let (n, split, stops) = past_split s in host_Splits s (past_slashes s) n split stops
