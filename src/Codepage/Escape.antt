-- ===== src/Codepage/Escape.antt =====
-- Conversion with a single-byte code page, such as 866 for ASCII text: iconv there is a table.
use mathlib.Core.List.{append_assoc, append-nil}
use cifscp.Base.{
  ℕ, zero, suc, ◌+◌, ◌-◌, ◌≤◌, ◌<◌, ◌≡◌, refl, ap, ◌∙◌, false, Option, none, some, [], ◌∷◌, ◌++◌,
  arith, ltb, length, drop, length-append,
}
use native.Mathlib.Numerals.{add-one}
use cifscp.Base.Strings.{Bytes}
use cifscp.Codepage.{
  Status, converted, illegal, incomplete, too_big, Call, Iconv, IsIconv, Converted, written,
  escape_byte, cp_escape, cp_after, cp_loop, cp_buf,
}

-- iconv over a table from bytes to bytes: it stops at the first byte that the table lacks, and at
-- a full output.
unfoldable pub add_taken : ℕ → Call → Call
add_taken v c = record c { taken = c.taken + 1; out = v ∷ c.out }

unfoldable pub table_stop : Status → Call
table_stop s = record { taken = 0; out = []; status = s }

unfoldable pub table_iconv : (ℕ → Option ℕ) → Iconv
unfolding add_taken table_stop
table_iconv table [] room = table_stop converted
table_iconv table (b ∷ rest) zero = elim (table b) [
  | none ↦ table_stop illegal
  | some v ↦ table_stop too_big
]
table_iconv table (b ∷ rest) (suc room) =
    let more = table_iconv table rest room in
    elim (table b) [ none ↦ table_stop illegal | some v ↦ add_taken v more ]

-- Its documented behaviour.
table_fits :
    (t : ℕ → Option ℕ) (inp : Bytes) (room : ℕ) → length (table_iconv t inp room).out ≤ room
unfolding table_iconv
table_fits t [] room = omega arith
table_fits t (b ∷ rest) zero = ground arith
table_fits t (b ∷ rest) (suc room) = ground (arith, table_fits t rest room)

table_takes :
    (t : ℕ → Option ℕ) (inp : Bytes) (room : ℕ) → (table_iconv t inp room).taken ≤ length inp
unfolding table_iconv
table_takes t [] room = omega arith
table_takes t (b ∷ rest) zero = ground arith
table_takes t (b ∷ rest) (suc room) = ground (arith, table_takes t rest room)

table_whole :
    (t : ℕ → Option ℕ) (inp : Bytes) (room : ℕ)
    → (table_iconv t inp room).status ≡ converted
    → (table_iconv t inp room).taken ≡ length inp
unfolding table_iconv
table_whole t [] room e = refl
table_whole t (b ∷ rest) zero e = ground arith
table_whole t (b ∷ rest) (suc room) e = ground (arith, table_whole t rest room)

table_stops_illegal :
    (t : ℕ → Option ℕ) (inp : Bytes) (room : ℕ)
    → (table_iconv t inp room).status ≡ illegal
    → (table_iconv t inp room).taken < length inp
unfolding table_iconv
table_stops_illegal t [] room e = ground arith
table_stops_illegal t (b ∷ rest) zero e = ground arith
table_stops_illegal t (b ∷ rest) (suc room) e = ground (arith, table_stops_illegal t rest room)

table_stops_incomplete :
    (t : ℕ → Option ℕ) (inp : Bytes) (room : ℕ)
    → (table_iconv t inp room).status ≡ incomplete
    → (table_iconv t inp room).taken < length inp
unfolding table_iconv
table_stops_incomplete t [] room e = ground arith
table_stops_incomplete t (b ∷ rest) zero e = ground arith
table_stops_incomplete t (b ∷ rest) (suc room) e =
    ground (arith, table_stops_incomplete t rest room)

pub table_iconv-IsIconv : (t : ℕ → Option ℕ) → IsIconv (table_iconv t)
table_iconv-IsIconv t = record {
  fits = table_fits t;
  takes = table_takes t;
  whole = table_whole t;
  stops_illegal = table_stops_illegal t;
  stops_incomplete = table_stops_incomplete t;
}

abbrev pub image : ℕ → Option ℕ → Bytes
image b none = escape_byte b
image b (some v) = v ∷ []

-- The output that is meant: each byte through the table, or escaped.
unfoldable pub transcribe : (ℕ → Option ℕ) → Bytes → Bytes
transcribe t [] = []
transcribe t (b ∷ rest) = image b (t b) ++ transcribe t rest

-- One round of the loop.
abbrev round : (ℕ → Option ℕ) → (Bytes → ℕ → Bytes → Converted) → Bytes → ℕ → Bytes → Converted
round t next inp room acc =
    let call = table_iconv t inp room in
    cp_after next call.status (drop call.taken inp) (room - length call.out) (acc ++ call.out)

pub table_mapped :
    (t : ℕ → Option ℕ) (b v : ℕ) (rest : Bytes) (room : ℕ)
    → t b ≡ some v
    → table_iconv t (b ∷ rest) (suc room) ≡ add_taken v (table_iconv t rest room)
unfolding table_iconv
table_mapped t b v rest room e = ground arith

pub table_unmapped :
    (t : ℕ → Option ℕ) (b : ℕ) (rest : Bytes) (room : ℕ)
    → t b ≡ none
    → table_iconv t (b ∷ rest) room ≡ table_stop illegal
unfolding table_iconv
table_unmapped t b rest zero e = ground arith
table_unmapped t b rest (suc room) e = ground arith

round_mapped :
    (t : ℕ → Option ℕ) (next : Bytes → ℕ → Bytes → Converted) (b v : ℕ) (rest acc : Bytes)
    (room : ℕ)
    → t b ≡ some v
    → round t next (b ∷ rest) (suc room) acc ≡ round t next rest room (acc ++ (v ∷ []))
unfolding add_taken
round_mapped t next b v rest acc room e = rw (table_mapped t b v rest room e) (
    let c = table_iconv t rest room in
    let e1 : drop (c.taken + 1) (b ∷ rest) ≡ drop c.taken rest = rw add-one in
    let e2 : suc room - suc (length c.out) ≡ room - length c.out = omega arith in
    rw (e1, e2, append_assoc acc (v ∷ []) c.out))

round_unmapped :
    (t : ℕ → Option ℕ) (next : Bytes → ℕ → Bytes → Converted) (b : ℕ) (rest acc : Bytes) (room : ℕ)
    → t b ≡ none
    → round t next (b ∷ rest) room acc ≡ cp_escape next (b ∷ rest) room acc
unfolding table_stop cp_after
round_unmapped t next b rest acc room e =
    rw (table_unmapped t b rest room e)
      (let e2 : room - 0 ≡ room = omega arith in rw (e2, append-nil))

abbrev Transcribes : (ℕ → Option ℕ) → Bytes → (Bytes → ℕ → Bytes → Converted) → Type 0
Transcribes t inp next =
    (rest acc : Bytes) (room : ℕ)
    → length rest < length inp
    → length (transcribe t rest) ≤ room
    → next rest room acc ≡ written (acc ++ transcribe t rest)

length-escape_byte : (b : ℕ) → length (escape_byte b) ≡ 3
unfolding escape_byte
length-escape_byte b = refl

round-transcribe_cons :
    (t : ℕ → Option ℕ) (next : Bytes → ℕ → Bytes → Converted) (b : ℕ) (rest acc : Bytes) (room : ℕ)
    (o : Option ℕ)
    → t b ≡ o
    → ((acc' : Bytes) (room' : ℕ)
        → length (transcribe t rest) ≤ room'
        → round t next rest room' acc' ≡ written (acc' ++ transcribe t rest))
    → length (image b o ++ transcribe t rest) ≤ room
    → Transcribes t (b ∷ rest) next
    → round t next (b ∷ rest) room acc ≡ written (acc ++ (image b o ++ transcribe t rest))
unfolding cp_escape
round-transcribe_cons t next b rest acc room none e ih h k =
    rw (round_unmapped t next b rest acc room e) (
      let n : length (escape_byte b ++ transcribe t rest) ≡ 3 + length (transcribe t rest) =
        omega
          (arith, length-append {0} (escape_byte b) (transcribe t rest), length-escape_byte b) in
      let big : ltb room 3 ≡ false = ground arith in
      rw big (
        k rest (acc ++ escape_byte b) (room - 3) (omega arith) (omega arith)
        ∙ ap written (append_assoc acc (escape_byte b) (transcribe t rest))))
round-transcribe_cons t next b rest acc zero (some v) e ih h k = absurd (omega arith)
round-transcribe_cons t next b rest acc (suc room) (some v) e ih h k =
    round_mapped t next b v rest acc room e
    ∙ ih (acc ++ (v ∷ [])) room (omega arith)
    ∙ ap written (append_assoc acc (v ∷ []) (transcribe t rest))

round-transcribe :
    (t : ℕ → Option ℕ) (next : Bytes → ℕ → Bytes → Converted) (inp acc : Bytes) (room : ℕ)
    → length (transcribe t inp) ≤ room
    → Transcribes t inp next
    → round t next inp room acc ≡ written (acc ++ transcribe t inp)
unfolding transcribe table_iconv cp_after
round-transcribe t next [] acc room h k = refl
round-transcribe t next (b ∷ rest) acc room h k =
    round-transcribe_cons t next b rest acc room (t b) refl
      (λ acc' room' h'.
        round-transcribe t next rest acc' room' h' (λ r a m l. k r a m (omega arith)))
      h k

cp_loop-transcribe :
    (t : ℕ → Option ℕ) (fuel : ℕ) (inp acc : Bytes) (room : ℕ)
    → length inp < fuel
    → length (transcribe t inp) ≤ room
    → cp_loop (table_iconv t) fuel inp room acc ≡ written (acc ++ transcribe t inp)
unfolding cp_loop
cp_loop-transcribe t zero inp acc room f h = absurd (omega arith)
cp_loop-transcribe t (suc fuel) inp acc room f h =
    round-transcribe t (cp_loop (table_iconv t) fuel) inp acc room h
      (λ r a m l n. cp_loop-transcribe t fuel r a m (omega arith) n)

-- With a single-byte code page and an output that holds the result, `cifs_cp_buf` writes each byte
-- as the table has it, and the three-byte escape for each byte that the table lacks.
pub cp_buf-transcribe :
    (t : ℕ → Option ℕ) (inp : Bytes) (size : ℕ)
    → length (transcribe t inp) ≤ size
    → cp_buf (table_iconv t) inp size ≡ written (transcribe t inp)
unfolding cp_buf
cp_buf-transcribe t inp size h = cp_loop-transcribe t (suc (length inp)) inp [] size (omega arith) h
