-- ===== src/Cstring.antt =====
-- The <string.h> and <stdlib.h> calls of the sources on C strings, which are lists of bytes without
-- their terminator.
pub mod Search
use cifscp.Base.{
  ℕ, zero, suc, ◌+◌, ◌-◌, ◌*◌, ◌/◌, ◌%◌, ◌^◌, ◌≤◌, ◌<◌, min, ◌≡◌, refl, sym, ap, ◌∙◌, ◌≢◌, ◌↔◌, ◌⊎◌,
  inl, inr, Bool, true, false, not, ◌&&◌, ◌||◌, Option, none, some, List, [], ◌∷◌, ◌++◌, map, arith,
  ltb, leb, ◌==◌, if◌then◌else◌, ltb→lt, lt→ltb, ==_iff, Bool-cases, Option-cases, length, take,
  drop, replicate, length-append, length-take, length-drop, take-append-drop, take-add,
  append-split, append-cancel, take-all, drop-all, length-map, length-replicate,
}
use cifscp.Base.Strings.{Bytes}

-- The integers, for `atoi`; `negsuc n` is -(n + 1).
pub data ℤ : Type 0 where
  pos : ℕ → ℤ
  negsuc : ℕ → ℤ

-- What a `char *` into a block of bytes stands for: the bytes up to the first NUL.
unfoldable pub c_str : Bytes → Bytes
c_str [] = []
c_str (c ∷ cs) = if c == 0 then [] else c ∷ c_str cs

-- `strchr(s, c)`: what stands before the first `c` and behind it.
abbrev push_before : ℕ → Option (Bytes × Bytes) → Option (Bytes × Bytes)
push_before x none = none
push_before x (some (before, after)) = some (x ∷ before, after)

unfoldable pub strchr : Bytes → ℕ → Option (Bytes × Bytes)
strchr [] c = none
strchr (x ∷ xs) c = if x == c then some ([], xs) else push_before x (strchr xs c)

-- `strrchr(s, c)`: the same at the last `c`.
abbrev last_or : ℕ → ℕ → Bytes → Option (Bytes × Bytes) → Option (Bytes × Bytes)
last_or x c xs none = if x == c then some ([], xs) else none
last_or x c xs (some (before, after)) = some (x ∷ before, after)

unfoldable pub strrchr : Bytes → ℕ → Option (Bytes × Bytes)
strrchr [] c = none
strrchr (x ∷ xs) c = last_or x c xs (strrchr xs c)

-- `!strncmp(s, t, n)`: both are compared up to `n` bytes, or to the terminator of both.
unfoldable pub same_start : Bytes → Bytes → ℕ → Bool
same_start s t zero = true
same_start [] [] (suc n) = true
same_start [] (d ∷ t) (suc n) = false
same_start (c ∷ s) [] (suc n) = false
same_start (c ∷ s) (d ∷ t) (suc n) = c == d && same_start s t n

unfoldable pub starts_with : Bytes → Bytes → Bool
starts_with [] s = true
starts_with (p ∷ ps) [] = false
starts_with (p ∷ ps) (c ∷ cs) = p == c && starts_with ps cs

-- `strstr(s, word)`: what stands before the first occurrence, and behind it.
unfoldable pub strstr : Bytes → Bytes → Option (Bytes × Bytes)
unfolding starts_with
strstr [] word = if starts_with word [] then some ([], []) else none
strstr (x ∷ xs) word =
    if starts_with word (x ∷ xs)
    then some ([], drop (length word) (x ∷ xs))
    else push_before x (strstr xs word)

abbrev pub is_digit : ℕ → Bool
is_digit c = leb b'0' c && leb c b'9'

-- The number that a run of digits at the front spells, behind `n`.
unfoldable pub digits_value : ℕ → Bytes → ℕ
digits_value n [] = n
digits_value n (c ∷ cs) = if is_digit c then digits_value (n * 10 + (c - b'0')) cs else n

abbrev is_space : ℕ → Bool
is_space c = c == b' ' || (leb 9 c && leb c 13)

-- What a minus sign makes of a number.
abbrev negated : ℕ → ℤ
negated zero = pos 0
negated (suc n) = negsuc n

-- `atoi`, for values that an `int` holds.
unfoldable pub atoi : Bytes → ℤ
unfolding digits_value
atoi [] = pos 0
atoi (c ∷ cs) =
    if is_space c
    then atoi cs
    else if c == b'-'
    then negated (digits_value 0 cs)
    else if c == b'+'
    then pos (digits_value 0 cs)
    else pos (digits_value 0 (c ∷ cs))

-- What stands behind a run of digits.
unfoldable pub digits_rest : Bytes → Bytes
digits_rest [] = []
digits_rest (c ∷ cs) = if is_digit c then digits_rest cs else c ∷ cs

abbrev starts_number : Bytes → Bool
starts_number [] = false
starts_number (c ∷ cs) = is_digit c

-- `strtol(s, &p, 10)` with a 64-bit `long`, to which the value is clamped: the value, and what `p`
-- points to. With no digit, `p` is `s`; the first argument keeps it.
unfoldable pub strtol_digits : Bytes → Bytes → Bool → ℤ × Bytes
unfolding digits_value digits_rest
strtol_digits s cs minus =
    if not (starts_number cs)
    then (pos 0, s)
    else let n = digits_value 0 cs in
      (
        if minus then negated (min n 9223372036854775808) else pos (min n 9223372036854775807),
        digits_rest cs,
      )

unfoldable pub strtol_from : Bytes → Bytes → ℤ × Bytes
unfolding strtol_digits
strtol_from s [] = (pos 0, s)
strtol_from s (c ∷ cs) =
    if is_space c
    then strtol_from s cs
    else if c == b'-'
    then strtol_digits s cs true
    else if c == b'+'
    then strtol_digits s cs false
    else strtol_digits s (c ∷ cs) false

-- `!strcmp(s, t)`.
unfoldable pub same_string : Bytes → Bytes → Bool
same_string [] [] = true
same_string [] (d ∷ t) = false
same_string (c ∷ s) [] = false
same_string (c ∷ s) (d ∷ t) = c == d && same_string s t
