-- ===== src/Buffer.antt =====
-- libcifs/buffer.h and libcifs/buffer.c: a buffer is four pointers into a block of memory, here
-- offsets into the block. `p ≤ e` is not implied: `cifs_buf_left` is a signed difference, and the
-- tests on it are written as tests on `p` and `e`. A write that would leave the allocated block,
-- whose limit is `x`, is the `none` of the writers: undefined behaviour in C.
pub mod Inv
pub mod Write
use cifscp.Base.{
  ℕ, zero, suc, ◌+◌, ◌-◌, ◌*◌, ◌/◌, ◌%◌, ◌^◌, ◌≤◌, ◌<◌, min, ◌≡◌, refl, sym, ap, ◌∙◌, ◌≢◌, ◌↔◌, ◌⊎◌,
  inl, inr, Bool, true, false, not, ◌&&◌, ◌||◌, Option, none, some, List, [], ◌∷◌, ◌++◌, map, arith,
  ltb, leb, ◌==◌, if◌then◌else◌, ltb→lt, lt→ltb, ==_iff, Bool-cases, Option-cases, length, take,
  drop, replicate, length-append, length-take, length-drop, take-append-drop, take-all, drop-all,
  length-map, length-replicate,
}
use cifscp.Base.Strings.{Bytes}
use cifscp.Memory.{Mem, store, get16, le8, le16, le32}
use cifscp.Codepage.{Iconv, Converted, written, failed, stuck, cp_buf, cp_image}

pub record Buf : Type 0 where
  pub b : ℕ
  pub p : ℕ
  pub e : ℕ
  pub x : ℕ

-- `cifs_buf_new`: the offsets of a block of its own. For size 0 all pointers are NULL.
unfoldable pub buf_new : ℕ → Buf
buf_new size = record { b = 0; p = 0; e = size; x = size }

unfoldable pub buf_setup : ℕ → ℕ → Buf
buf_setup begin size = record { b = begin; p = begin; e = begin + size; x = begin + size }

-- `cifs_buf_resize(buf, -1)`, and the call with a size that is not negative (`none` is -1).
unfoldable pub buf_resize_full : Buf → Buf
buf_resize_full d = record d { e = d.x }

unfoldable pub buf_resize : Buf → ℕ → Option Buf
buf_resize d size = if ltb d.x (d.b + size) then none else some (record d { e = d.b + size })

abbrev pub buf_size : Buf → ℕ
buf_size d = d.e - d.b

abbrev pub buf_len : Buf → ℕ
buf_len d = d.p - d.b

abbrev pub buf_left : Buf → ℕ
buf_left d = d.e - d.p

unfoldable pub buf_set : Buf → ℕ → Buf
buf_set d i = record d { p = d.b + i }

unfoldable pub buf_inc : Buf → ℕ → Buf
buf_inc d i = record d { p = d.p + i }

-- `cifs_buf_range`: true when the range is not inside. Offsets and lengths are not negative.
unfoldable pub buf_range : Buf → ℕ → ℕ → Bool
buf_range d off len = ltb (d.b + off) d.b || ltb d.e (d.b + off + len)

-- A block with a buffer over it. A writer faults, leaves both, or moves `p`.
abbrev pub Writer : Type 0
Writer = Mem → Buf → Option (Mem × Buf)

infixl 5 ◌>>◌
abbrev pub ◌>>◌ : Writer → Writer → Writer
◌>>◌ f g m d = elim (f m d) [ none ↦ none | some (m', d') ↦ g m' d' ]

-- `cifs_write_buf`.
unfoldable pub write_buf : Bytes → Writer
write_buf bs m d =
    if ltb d.x (d.p + length bs) then none else some (store m d.p bs, buf_inc d (length bs))

unfoldable pub write_byte : ℕ → Writer
unfolding write_buf
write_byte v = write_buf (le8 v)

unfoldable pub write_word : ℕ → Writer
unfolding write_buf
write_word v = write_buf (le16 v)

unfoldable pub write_long : ℕ → Writer
unfolding write_buf
write_long v = write_buf (le32 v)

-- `cifs_write_str`: `strcpy` writes the terminator too, and `p` stops before it.
unfoldable pub write_str : Bytes → Writer
write_str s m d =
    if ltb d.x (d.p + length s + 1)
    then none
    else some (store m d.p (s ++ (0 ∷ [])), buf_inc d (length s))

unfoldable pub write_strz : Bytes → Writer
unfolding write_str write_byte
write_strz s = write_str s >> write_byte 0

-- What `cifs_write_oem` and `cifs_write_ucs` return, with the block and the buffer.
abbrev pub Wrote : Type 0
Wrote = Option (ℕ × Mem × Buf)

unfoldable pub after_cp : Converted → Mem → Buf → Wrote
after_cp (written out) m d =
    some (length out, store m d.p (cp_image (written out) (buf_left d)), buf_inc d (length out))
after_cp (failed out) m d = some (0, store m d.p (cp_image (failed out) (buf_left d)), d)
after_cp stuck m d = none

-- `cifs_write_oem`; the room is `cifs_buf_left`. A failed conversion leaves its bytes behind `p`.
unfoldable pub write_oem : Iconv → Bytes → Mem → Buf → Wrote
unfolding after_cp
write_oem oem src m d = after_cp (cp_buf oem src (buf_left d)) m d

-- `cifs_write_ucs` differs in the result alone: it counts the 16-bit units.
unfoldable pub write_ucs : Iconv → Bytes → Mem → Buf → Wrote
unfolding after_cp
write_ucs ucs src m d = elim (after_cp (cp_buf ucs src (buf_left d)) m d) [
  | none ↦ none
  | some (res, m', d') ↦ some (res / 2, m', d')
]

-- The loop that turns `'/'` into `'\\'` in `n` bytes from `a` on, and in `n` 16-bit units.
abbrev pub backslash : ℕ → ℕ
backslash c = if c == b'/' then b'\\' else c

unfoldable pub slashes_oem : ℕ → ℕ → Mem → Mem
slashes_oem zero a m = m
slashes_oem (suc n) a m = slashes_oem n (a + 1) (store m a (backslash (m a) ∷ []))

unfoldable pub slashes_ucs : ℕ → ℕ → Mem → Mem
slashes_ucs zero a m = m
slashes_ucs (suc n) a m = slashes_ucs n (a + 2) (store m a (le16 (backslash (get16 m a))))

-- Both loops run to `i <= len`, so they look at the byte or unit behind the text too.
unfoldable pub path_oem : ℕ → Wrote → Wrote
path_oem a none = none
path_oem a (some (len, m, d)) =
    if ltb d.x (a + len + 1) then none else some (len, slashes_oem (len + 1) a m, d)

unfoldable pub path_ucs : ℕ → Wrote → Wrote
path_ucs a none = none
path_ucs a (some (len, m, d)) =
    if ltb d.x (a + 2 * len + 2) then none else some (len, slashes_ucs (len + 1) a m, d)

unfoldable pub write_path_oem : Iconv → Bytes → Mem → Buf → Wrote
unfolding write_oem slashes_oem path_oem
write_path_oem oem path m d = path_oem d.p (write_oem oem path m d)

unfoldable pub write_path_ucs : Iconv → Bytes → Mem → Buf → Wrote
unfolding write_ucs slashes_ucs path_ucs
write_path_ucs ucs path m d = path_ucs d.p (write_ucs ucs path m d)

-- The callers that drop the count.
abbrev pub quietly : Wrote → Option (Mem × Buf)
quietly none = none
quietly (some (len, m, d)) = some (m, d)

-- `cifs_write_oemz` and its kin: the text, then the terminator.
abbrev pub then_byte : Wrote → Option (Mem × Buf)
then_byte none = none
then_byte (some (len, m, d)) = write_byte 0 m d

abbrev pub then_word : Wrote → Option (Mem × Buf)
then_word none = none
then_word (some (len, m, d)) = write_word 0 m d
