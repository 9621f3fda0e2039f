-- ===== src/Human/Suffix.antt =====
-- `cifs_decode_hsize`: sizes with a suffix, and without one.
use cifscp.Base.{ℕ, ◌≡◌, ◌⊎◌, true, [], ◌∷◌}
use cifscp.Base.Strings.{Bytes}
use cifscp.Cstring.{is_digit}

-- Decimal digits, at least one.
abbrev pub AreDigits : Bytes → Type 0
AreDigits [] = Unit
AreDigits (c ∷ cs) = (is_digit c ≡ true) × AreDigits cs

abbrev pub IsSuffix : ℕ → Type 0
IsSuffix c = (c ≡ b'k') ⊎ (c ≡ b'm') ⊎ (c ≡ b'g') ⊎ (c ≡ b't')
