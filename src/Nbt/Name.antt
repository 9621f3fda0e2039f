-- ===== src/Nbt/Name.antt =====
-- The encoded name, read back.
use mathlib.Core.Path.{ap₂}
use cifscp.Base.{ℕ, zero, suc, ◌+◌, ◌-◌, ◌*◌, ◌<◌, ◌≡◌, refl, ap, [], ◌∷◌, ◌++◌, arith, length}
use cifscp.Base.Strings.{Bytes}
use cifscp.Nbt.{to_upper, nbt_letters, nbt_name}

-- The padded name that an encoded name stands for: `n` places.
abbrev pub padded : ℕ → Bytes → Bytes
padded zero name = []
padded (suc n) [] = b' ' ∷ padded n []
padded (suc n) (c ∷ name) = to_upper c ∷ padded n name

-- What a NetBIOS server reads: two letters to a byte.
abbrev pub decoded : Bytes → Bytes
decoded [] = []
decoded (a ∷ []) = []
decoded (a ∷ b ∷ letters) = ((a - b'A') * 16 + (b - b'A')) ∷ decoded letters

abbrev pub AreBytes : Bytes → Type 0
AreBytes [] = Unit
AreBytes (c ∷ cs) = (c < 256) × AreBytes cs

nbt_letters-decoded :
    (n : ℕ) (name : Bytes) → AreBytes name → decoded (nbt_letters n name) ≡ padded n name
unfolding nbt_letters
nbt_letters-decoded zero name h = refl
nbt_letters-decoded (suc n) [] h = ap (◌∷◌ b' ') (nbt_letters-decoded n [] h)
nbt_letters-decoded (suc n) (c ∷ name) h =
    ap₂ ◌∷◌ (ground (arith, h.0)) (nbt_letters-decoded n name h.1)

length-nbt_letters : (n : ℕ) (name : Bytes) → length (nbt_letters n name) ≡ 2 * n
unfolding nbt_letters
length-nbt_letters zero name = refl
length-nbt_letters (suc n) [] = omega (arith, length-nbt_letters n [])
length-nbt_letters (suc n) (c ∷ name) = omega (arith, length-nbt_letters n name)

-- An encoded name is a length byte of 32, two letters for each of 16 places, which decode to the
-- name in capitals, cut or padded with spaces to 16 bytes, and a closing 0: 34 bytes.
pub nbt_name-decoded :
    (name : Bytes)
    → AreBytes name
    → (letters : Bytes) × (nbt_name name ≡ 32 ∷ letters ++ (0 ∷ []))
      × (length letters ≡ 32)
      × (decoded letters ≡ padded 16 name)
unfolding nbt_name
nbt_name-decoded name h =
    (nbt_letters 16 name, refl, length-nbt_letters 16 name, nbt_letters-decoded 16 name h)
