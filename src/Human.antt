-- ===== src/Human.antt =====
-- human.c: sizes and times for people. `cifs_hsize` prints floating-point numbers and is left out.
pub mod Suffix
pub mod Clock
use cifscp.Base.{
  ℕ, zero, suc, ◌+◌, ◌-◌, ◌*◌, ◌/◌, ◌%◌, ◌^◌, ◌≤◌, ◌<◌, min, ◌≡◌, refl, sym, ap, ◌∙◌, ◌≢◌, ◌↔◌, ◌⊎◌,
  inl, inr, Bool, true, false, not, ◌&&◌, ◌||◌, Option, none, some, List, [], ◌∷◌, ◌++◌, map, arith,
  ltb, leb, ◌==◌, if◌then◌else◌, ltb→lt, lt→ltb, ==_iff, Bool-cases, Option-cases, length, take,
  drop, replicate, length-append, length-take, length-drop, take-append-drop, take-add,
  append-split, append-cancel, take-all, drop-all, length-map, length-replicate,
}
use cifscp.Base.Strings.{Bytes, codes}
use cifscp.Cstring.{ℤ, pos, negsuc, strtol_from}
use cifscp.Flow.{word64}

-- A `long long int` as 64 bits.
abbrev pub bits64 : ℤ → ℕ
bits64 (pos n) = n % word64
bits64 (negsuc n) = word64 - 1 - n % word64

-- How often the `switch`, which falls through, multiplies by 1024.
unfoldable pub suffix_power : ℕ → ℕ
suffix_power c =
    if c == b't' || c == b'T'
    then 4
    else if c == b'g' || c == b'G'
    then 3
    else if c == b'm' || c == b'M'
    then 2
    else if c == b'k' || c == b'K'
    then 1
    else 0

abbrev skip_b : Bytes → Bytes
skip_b [] = []
skip_b (c ∷ cs) = if c == b'b' || c == b'B' then cs else c ∷ cs

-- `none` is a read behind the memory that is given; -1 is the largest `uint64_t`.
abbrev at_end : ℕ → Bytes → Option ℕ
at_end x [] = none
at_end x (c ∷ cs) = some (if c == 0 then x else word64 - 1)

unfoldable pub decode_suffix : ℕ → Bytes → Option ℕ
unfolding suffix_power
decode_suffix x [] = none
decode_suffix x (c ∷ cs) = at_end (x * 1024 ^ suffix_power c % word64) (skip_b cs)

-- `cifs_decode_hsize`, on the string and the bytes that stand in memory behind its terminator:
-- whatever byte ends the number is stepped over, the terminator too.
unfoldable pub decode_hsize : Bytes → Bytes → Option ℕ
unfolding decode_suffix
decode_hsize s behind =
    let (x, rest) = strtol_from s s in decode_suffix (bits64 x) (rest ++ (0 ∷ behind))

-- `%d` of a number that is not negative: the digits in front of `tail`. The fuel exceeds the number.
unfoldable pub decimal_onto : ℕ → ℕ → Bytes → Bytes
decimal_onto zero n tail = tail
decimal_onto (suc fuel) n tail =
    let digits = (b'0' + n % 10) ∷ tail in
    if n / 10 == 0 then digits else decimal_onto fuel (n / 10) digits

abbrev pub decimal : ℕ → Bytes
decimal n = decimal_onto (n + 1) n []

-- `%02d`.
abbrev pub two_digits : ℕ → Bytes
two_digits n = if ltb n 10 then b'0' ∷ decimal n else decimal n

-- The variables `d`, `h`, `m` and `s` of `cifs_htime`, for a time that is not negative.
unfoldable pub htime_parts : ℕ → ℕ × ℕ × ℕ × ℕ
htime_parts time = (time / 86400, time / 3600 % 24, time / 60 % 60, time % 60)

unfoldable pub htime_text : ℕ → ℕ → ℕ → ℕ → Bytes
unfolding decimal_onto
htime_text d h m s =
    let clock = two_digits m ++ (b':' ∷ two_digits s) in
    if not (d == 0)
    then decimal d ++ (codes " days " ++ (two_digits h ++ (b':' ∷ clock)))
    else if not (h == 0)
    then two_digits h ++ (b':' ∷ clock)
    else clock

-- `cifs_htime`.
unfoldable pub htime : ℕ → Bytes
unfolding htime_parts htime_text
htime time = let (d, h, m, s) = htime_parts time in htime_text d h m s
