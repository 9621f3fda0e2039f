-- ===== src/Codepage/Bounds.antt =====
-- The conversion loop ends, and stays inside the output buffer.
use cifscp.Base.{
  ℕ, zero, suc, ◌+◌, ◌-◌, ◌≤◌, ◌<◌, ◌≡◌, ◌≢◌, inl, inr, [], ◌∷◌, ◌++◌, arith, ltb, length, drop,
  length-append, length-drop, Bool-cases, refl,
}
use cifscp.Base.Strings.{Bytes}
use cifscp.Codepage.{
  Status, converted, illegal, incomplete, too_big, other, Iconv, IsIconv, Converted, written,
  failed, stuck, escape_byte, cp_escape, cp_after, cp_loop, cp_buf, cp_image,
}

-- A conversion into `size` bytes has ended, with no more than that written.
abbrev pub EndsWithin : ℕ → Converted → Type 0
EndsWithin size (written out) = length out ≤ size
EndsWithin size (failed out) = length out ≤ size
EndsWithin size stuck = ⊥

length-escape_byte : (b : ℕ) → length (escape_byte b) ≡ 3
unfolding escape_byte
length-escape_byte b = refl

-- Every later round, on a shorter input, ends within `size`.
abbrev Continues : ℕ → Bytes → (Bytes → ℕ → Bytes → Converted) → Type 0
Continues size inp next =
    (rest acc : Bytes) (room : ℕ)
    → length rest < length inp
    → length acc + room ≡ size
    → EndsWithin size (next rest room acc)

cp_escape-EndsWithin :
    (next : Bytes → ℕ → Bytes → Converted) (size room : ℕ) (inp acc : Bytes)
    → 0 < length inp
    → length acc + room ≡ size
    → Continues size inp next
    → EndsWithin size (cp_escape next inp room acc)
unfolding cp_escape
cp_escape-EndsWithin next size room [] acc i h k = absurd (omega arith)
cp_escape-EndsWithin next size room (b ∷ rest) acc i h k = elim (Bool-cases (ltb room 3)) [
  | inl e ↦ rw e (omega arith)
  | inr e ↦ rw e (
      k rest (acc ++ escape_byte b) (room - 3) (omega arith)
        (ground (arith, length-append acc (escape_byte b), length-escape_byte b)))
]

cp_after-EndsWithin :
    (next : Bytes → ℕ → Bytes → Converted) (size room : ℕ) (s : Status) (inp acc : Bytes)
    → (s ≡ illegal → 0 < length inp)
    → (s ≡ incomplete → 0 < length inp)
    → length acc + room ≡ size
    → Continues size inp next
    → EndsWithin size (cp_after next s inp room acc)
unfolding cp_after
cp_after-EndsWithin next size room converted inp acc i j h k = omega arith
cp_after-EndsWithin next size room illegal inp acc i j h k =
    cp_escape-EndsWithin next size room inp acc (i refl) h k
cp_after-EndsWithin next size room incomplete inp acc i j h k =
    cp_escape-EndsWithin next size room inp acc (j refl) h k
cp_after-EndsWithin next size room too_big inp acc i j h k = omega arith
cp_after-EndsWithin next size room other inp acc i j h k = omega arith

EndsWithin-cp_image :
    (size : ℕ) (r : Converted) → EndsWithin size r → (r ≢ stuck) × (length (cp_image r size) ≤ size)
unfolding cp_image
EndsWithin-cp_image size (written out) h = ground (arith, length-append out (0 ∷ []))
EndsWithin-cp_image size (failed out) h = ground arith
EndsWithin-cp_image size stuck h = absurd h

module _ {iconv : Iconv} (laws : IsIconv iconv) where
  cp_loop-EndsWithin :
      (size fuel : ℕ) (inp : Bytes) (room : ℕ) (acc : Bytes)
      → length inp < fuel
      → length acc + room ≡ size
      → EndsWithin size (cp_loop iconv fuel inp room acc)
  unfolding cp_loop
  cp_loop-EndsWithin size zero inp room acc f h = absurd (omega arith)
  cp_loop-EndsWithin size (suc fuel) inp room acc f h =
      let call = iconv inp room in
      cp_after-EndsWithin (cp_loop iconv fuel) size (room - length call.out) call.status
        (drop call.taken inp) (acc ++ call.out)
        (λ e. omega (arith, laws.stops_illegal inp room e, length-drop call.taken inp))
        (λ e. omega (arith, laws.stops_incomplete inp room e, length-drop call.taken inp))
        (omega (arith, laws.fits inp room, length-append acc call.out))
        (λ rest acc' room' l e.
          cp_loop-EndsWithin size fuel rest room' acc' (omega (arith, length-drop call.taken inp))
            e)

  -- Whatever iconv answers within its documented behaviour, `cifs_cp_buf` ends, and all that it
  -- leaves in the output, the terminator and the bytes of a failed conversion included, lies
  -- within `size` bytes.
  pub cp_buf_bounds :
      (inp : Bytes) (size : ℕ)
      → (cp_buf iconv inp size ≢ stuck) × (length (cp_image (cp_buf iconv inp size) size) ≤ size)
  unfolding cp_buf
  cp_buf_bounds inp size =
      EndsWithin-cp_image size _
        (cp_loop-EndsWithin size (suc (length inp)) inp size [] (omega arith) (omega arith))
