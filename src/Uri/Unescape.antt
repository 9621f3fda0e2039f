-- ===== src/Uri/Unescape.antt =====
-- `cifs_uri_unescape` against percent-encoding.
use mathlib.Core.Path.{ap₂}
use cifscp.Base.{
  ℕ, ◌+◌, ◌-◌, ◌*◌, ◌/◌, ◌%◌, ◌≤◌, ◌<◌, ◌≡◌, refl, ◌∙◌, ◌≢◌, false, [], ◌∷◌, arith, ltb,
  if◌then◌else◌, length,
}
use cifscp.Base.Strings.{Bytes}
use cifscp.Codepage.{escape_byte}
use cifscp.Cstring.Search.{has}
use cifscp.Uri.{hex_to_int, unescape}

-- The string is rewritten in place, and the result never outgrows what has been read.
pub length-unescape : (s : Bytes) → length (unescape s) ≤ length s
unfolding unescape
length-unescape [] = omega arith
length-unescape (c ∷ []) = ground arith
length-unescape (c ∷ a ∷ []) = ground (arith, length-unescape (a ∷ []))
length-unescape (c ∷ a ∷ b ∷ cs) = ground (arith, length-unescape cs, length-unescape (a ∷ b ∷ cs))

-- Text with no `%` is left alone.
pub unescape_self : (s : Bytes) → has b'%' s ≡ false → unescape s ≡ s
unfolding unescape
unescape_self [] h = refl
unescape_self (c ∷ []) h = ground arith
unescape_self (c ∷ a ∷ []) h = ground (arith, unescape_self (a ∷ []))
unescape_self (c ∷ a ∷ b ∷ cs) h = ground (arith, unescape_self (a ∷ b ∷ cs))

-- A hexadecimal digit, in capitals.
abbrev pub hex_digit : ℕ → ℕ
hex_digit n = if ltb n 10 then b'0' + n else b'A' + n - 10

-- Percent-encoding of every byte.
abbrev pub encode : Bytes → Bytes
encode [] = []
encode (c ∷ cs) = b'%' ∷ hex_digit (c / 16) ∷ hex_digit (c % 16) ∷ encode cs

abbrev pub AllBytes : Bytes → Type 0
AllBytes [] = Unit
AllBytes (c ∷ cs) = (c < 256) × AllBytes cs

hex_to_int-hex_digit : (n : ℕ) → n < 16 → hex_to_int (hex_digit n) ≡ n
unfolding hex_to_int
hex_to_int-hex_digit n h = ground arith

unescape-nil : unescape [] ≡ []
unfolding unescape
unescape-nil = refl

unescaped :
    (a b : ℕ) (cs : Bytes)
    → unescape (b'%' ∷ a ∷ b ∷ cs) ≡ (hex_to_int a * 16 + hex_to_int b) ∷ unescape cs
unfolding unescape
unescaped a b cs = refl

-- Unescaping undoes the percent-encoding of any string of bytes.
pub unescape-encode : (s : Bytes) → AllBytes s → unescape (encode s) ≡ s
unescape-encode [] h = unescape-nil
unescape-encode (c ∷ cs) h =
    let hi = hex_to_int-hex_digit (c / 16) (omega (arith, h.0)) in
    let lo = hex_to_int-hex_digit (c % 16) (omega arith) in
    unescaped (hex_digit (c / 16)) (hex_digit (c % 16)) (encode cs)
    ∙ ap₂ ◌∷◌ (omega (arith, hi, lo)) (unescape-encode cs h.1)

letter_value : (n : ℕ) → n < 16 → (hex_to_int (b'A' + n) < 16) × (hex_to_int (b'A' + n) ≢ n)
unfolding hex_to_int
letter_value n h = ground arith

-- No byte that the codepage conversion escapes comes back: for every byte, unescaping the escape of
-- `cifs_cp_buf` does not give that byte.
pub unescape-escape_byte : (b : ℕ) → b < 256 → unescape (escape_byte b) ≢ b ∷ []
unfolding escape_byte
unescape-escape_byte b h e =
    let (hi, hi_ne) = letter_value (b / 16) (omega arith) in
    let (lo, lo_ne) = letter_value (b % 16) (omega arith) in
    let same : hex_to_int (b'A' + b / 16) * 16 + hex_to_int (b'A' + b % 16) ≡ b =
      ground (arith, unescaped (b'A' + b / 16) (b'A' + b % 16) [], unescape-nil) in
    hi_ne (omega (arith, same, hi, lo))
