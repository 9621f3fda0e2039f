-- ===== src/Codepage.antt =====
-- libcifs/codepage.c: `cifs_cp_buf`, the conversion of a string into a buffer of fixed size by
-- iconv, with an escape for what iconv refuses. iconv itself is a parameter: a function from the
-- input left and the room left to what one call takes, writes and returns. The code pages of the
-- program (UTF-8, 866, UCS-2LE) keep no shift state, so the reset call has no counterpart here.
pub mod Bounds
pub mod Escape
pub mod Growing
pub mod Grown
pub mod Transcribed
use cifscp.Base.{
  ℕ, zero, suc, ◌+◌, ◌-◌, ◌/◌, ◌%◌, ◌≤◌, ◌<◌, ◌≡◌, ◌≢◌, Bool, true, false, List, [], ◌∷◌, ◌++◌,
  Option, none, some, ltb, ◌==◌, if◌then◌else◌, length, drop,
}
use cifscp.Base.Strings.{Bytes}

-- 0, EILSEQ, EINVAL, E2BIG and any other errno of iconv.
pub data Status : Type 0 where
  converted illegal incomplete too_big other : Status

-- One call: bytes taken from the input, bytes written, and how it ended.
pub record Call : Type 0 where
  pub taken : ℕ
  pub out : Bytes
  pub status : Status

abbrev pub Iconv : Type 0
Iconv = Bytes → ℕ → Call

-- What the manual page of iconv promises of a call on `inp` with `room` bytes left.
pub record IsIconv (iconv : Iconv) : Type 0 where
  pub fits : (inp : Bytes) (room : ℕ) → length (iconv inp room).out ≤ room
  pub takes : (inp : Bytes) (room : ℕ) → (iconv inp room).taken ≤ length inp
  pub whole :
      (inp : Bytes) (room : ℕ)
      → (iconv inp room).status ≡ converted
      → (iconv inp room).taken ≡ length inp
  pub stops_illegal :
      (inp : Bytes) (room : ℕ)
      → (iconv inp room).status ≡ illegal
      → (iconv inp room).taken < length inp
  pub stops_incomplete :
      (inp : Bytes) (room : ℕ)
      → (iconv inp room).status ≡ incomplete
      → (iconv inp room).taken < length inp

-- What has been written, and whether `cifs_cp_buf` returned their number or -1. `stuck` is no
-- outcome of the code: the loop ran out of fuel, or read past the end of the input.
pub data Converted : Type 0 where
  written : Bytes → Converted
  failed : Bytes → Converted
  stuck : Converted

-- The three bytes that stand for an input byte which iconv refuses.
unfoldable pub escape_byte : ℕ → Bytes
escape_byte b = b'%' ∷ (b'A' + b / 16) ∷ (b'A' + b % 16) ∷ []

-- EILSEQ and EINVAL: write the escape of the byte at `in_ptr` and go on behind it.
unfoldable pub cp_escape : (Bytes → ℕ → Bytes → Converted) → Bytes → ℕ → Bytes → Converted
cp_escape next [] room acc = if ltb room 3 then failed acc else stuck
cp_escape next (b ∷ rest) room acc =
    if ltb room 3 then failed acc else next rest (room - 3) (acc ++ escape_byte b)

unfoldable pub cp_after : (Bytes → ℕ → Bytes → Converted) → Status → Bytes → ℕ → Bytes → Converted
cp_after next converted inp room acc = written acc
cp_after next illegal inp room acc = cp_escape next inp room acc
cp_after next incomplete inp room acc = cp_escape next inp room acc
cp_after next too_big inp room acc = failed acc
cp_after next other inp room acc = failed acc

-- The loop of `cifs_cp_buf`. `room` is `out_left`, and `acc` holds the bytes before `out_ptr`.
unfoldable pub cp_loop : Iconv → ℕ → Bytes → ℕ → Bytes → Converted
unfolding cp_escape cp_after
cp_loop iconv zero inp room acc = stuck
cp_loop iconv (suc fuel) inp room acc =
    let call = iconv inp room in
    cp_after (cp_loop iconv fuel) call.status (drop call.taken inp) (room - length call.out)
      (acc ++ call.out)

-- Each round but the last takes a byte of the input at least.
unfoldable pub cp_buf : Iconv → Bytes → ℕ → Converted
unfolding cp_loop
cp_buf iconv inp out_size = cp_loop iconv (suc (length inp)) inp out_size []

-- The bytes that `cifs_cp_buf` leaves in the output, with the terminator that it adds when there
-- is room for one.
unfoldable pub cp_image : Converted → ℕ → Bytes
cp_image (written out) size = if ltb (length out) size then out ++ (0 ∷ []) else out
cp_image (failed out) size = out
cp_image stuck size = []
