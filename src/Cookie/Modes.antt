-- ===== src/Cookie/Modes.antt =====
-- The modes of fopen(3).
use cifscp.Base.{ℕ, ◌≡◌, refl, Bool, true, false, [], ◌∷◌}
use cifscp.Base.Strings.{Bytes}
use cifscp.Cookie.{Mode, Access, rdonly, wronly, rdwr, parse_mode, no_mode}

pub data Kind : Type 0 where
  reading writing appending : Kind

abbrev letter : Kind → ℕ
letter reading = b'r'
letter writing = b'w'
letter appending = b'a'

abbrev pub marked : Bool → ℕ → Bytes → Bytes
marked true c s = c ∷ s
marked false c s = s

-- The letter, and the marks `+` and `x`.
abbrev pub mode_text : Kind → Bool → Bool → Bytes
mode_text k plus new = letter k ∷ marked plus b'+' (marked new b'x' [])

-- What fopen(3) says of them.
abbrev access_of : Kind → Bool → Access
access_of k true = rdwr
access_of reading false = rdonly
access_of writing false = wronly
access_of appending false = wronly

abbrev not_reading : Kind → Bool
not_reading reading = false
not_reading writing = true
not_reading appending = true

abbrev is_writing : Kind → Bool
is_writing reading = false
is_writing writing = true
is_writing appending = false

abbrev is_appending : Kind → Bool
is_appending reading = false
is_appending writing = false
is_appending appending = true

abbrev pub fopen_mode : Kind → Bool → Bool → Mode
fopen_mode k plus new = record {
  access = access_of k plus;
  creat = not_reading k;
  trunc = is_writing k;
  append = is_appending k;
  excl = new;
}

-- The modes of fopen(3), a letter with the marks `+` and `x` behind it, are read as it says: `+`
-- opens for both, `w` and `a` make the file, `w` empties it, `a` goes to its end, and `x` wants it
-- new.
pub parse_mode-mode_text :
    (k : Kind) (plus new : Bool) → parse_mode (mode_text k plus new) no_mode ≡ fopen_mode k plus new
unfolding parse_mode
parse_mode-mode_text reading true true = refl
parse_mode-mode_text reading true false = refl
parse_mode-mode_text reading false true = refl
parse_mode-mode_text reading false false = refl
parse_mode-mode_text writing true true = refl
parse_mode-mode_text writing true false = refl
parse_mode-mode_text writing false true = refl
parse_mode-mode_text writing false false = refl
parse_mode-mode_text appending true true = refl
parse_mode-mode_text appending true false = refl
parse_mode-mode_text appending false true = refl
parse_mode-mode_text appending false false = refl
