-- ===== src/Codepage/Growing.antt =====
-- libcifs/codepage.c: `cifs_cp_bufa`, the conversion into a buffer that grows.
use cifscp.Base.{
  ℕ, zero, suc, ◌+◌, ◌-◌, ◌*◌, ◌<◌, ◌≡◌, [], ◌∷◌, ◌++◌, ltb, if◌then◌else◌, length, drop,
}
use cifscp.Base.Strings.{Bytes}
use cifscp.Codepage.{
  Status, converted, illegal, incomplete, too_big, other, Iconv, Converted, written, failed, stuck,
  escape_byte,
}

-- What a round of the loop goes on with: the input left, `out_left`, `out_size` and the bytes
-- before `out_ptr`.
abbrev pub Grown : Type 0
Grown = Bytes → ℕ → ℕ → Bytes → Converted

-- E2BIG: the buffer is made twice as large.
unfoldable pub bufa_grow : Grown → Grown
bufa_grow next inp left size acc = next inp (left + size) (size * 2) acc

-- EILSEQ and EINVAL: the escape of the byte at `in_ptr`, or a larger buffer.
unfoldable pub bufa_escape : Grown → Grown
unfolding bufa_grow
bufa_escape next [] left size acc = if ltb left 3 then bufa_grow next [] left size acc else stuck
bufa_escape next (b ∷ rest) left size acc =
    if ltb left 3
    then bufa_grow next (b ∷ rest) left size acc
    else next rest (left - 3) size (acc ++ escape_byte b)

-- Another error frees the buffer.
unfoldable pub bufa_after : Grown → Status → Grown
unfolding bufa_escape
bufa_after next converted inp left size acc = written acc
bufa_after next illegal inp left size acc = bufa_escape next inp left size acc
bufa_after next incomplete inp left size acc = bufa_escape next inp left size acc
bufa_after next too_big inp left size acc = bufa_grow next inp left size acc
bufa_after next other inp left size acc = failed []

unfoldable pub bufa_loop : Iconv → ℕ → Grown
unfolding bufa_after
bufa_loop iconv zero inp left size acc = stuck
bufa_loop iconv (suc fuel) inp left size acc =
    let call = iconv inp left in
    bufa_after (bufa_loop iconv fuel) call.status (drop call.taken inp) (left - length call.out)
      size (acc ++ call.out)

-- The room in which every call takes some of its input.
abbrev pub roomy : ℕ
roomy = 16

-- Two rounds for each byte of the input, and one for each size of the buffer that is too small.
abbrev pub bufa_fuel : Bytes → ℕ
bufa_fuel inp = 2 * length inp + 2 + roomy

-- `cifs_cp_bufa`; behind what is written stands a terminator.
unfoldable pub cp_bufa : Iconv → Bytes → Converted
unfolding bufa_loop
cp_bufa iconv inp = bufa_loop iconv (bufa_fuel inp) inp (length inp + 1) (length inp + 1) []

-- A call that takes nothing for want of room has less of it, and what a call writes comes from what it
-- takes.
pub record IsRoomy (iconv : Iconv) : Type 0 where
  pub takes_some :
      (inp : Bytes) (room : ℕ)
      → (iconv inp room).status ≡ too_big
      → (iconv inp room).taken ≡ 0
      → room < roomy
  pub writes_taken :
      (inp : Bytes) (room : ℕ) → (iconv inp room).taken ≡ 0 → (iconv inp room).out ≡ []
