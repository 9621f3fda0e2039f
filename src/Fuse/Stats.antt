-- ===== src/Fuse/Stats.antt =====
-- fusecifs.c: what FUSE is told of a file, `fusecifs_make_stat`, and the names it takes.
use cifscp.Base.{ℕ, ◌+◌, ◌-◌, ◌/◌, ◌%◌, Bool, true, false, List, [], ◌∷◌, ◌++◌, ltb, if◌then◌else◌}
use cifscp.Base.Strings.{Bytes}
use cifscp.Cstring.{ℤ, pos, negsuc}
use cifscp.Proto.Files.{Stat}
use cifscp.Proto.Session.{cifs_time}
use cifscp.Find.{is_directory}

-- `struct stat`, as `fusecifs_make_stat` fills it: the type and the rights of `st_mode` (octal 775
-- and 664), sizes, and times. The other fields are 0 but for `st_nlink`, 1.
pub record FuseStat : Type 0 where
  pub directory : Bool
  pub rights : ℕ
  pub size : ℕ
  pub blksize : ℕ
  pub blocks : ℕ
  pub atime : ℤ
  pub mtime : ℤ
  pub ctime : ℤ

-- An `int64_t` from its bits.
abbrev as_time : ℕ → ℤ
as_time n = if ltb n 9223372036854775808 then pos n else negsuc (18446744073709551615 - n)

unfoldable pub make_stat : Stat → FuseStat
unfolding cifs_time
make_stat s = record {
  directory = is_directory s;
  rights = if is_directory s then 0o775 else 0o664;
  size = s.file_size;
  blksize = 65536;
  blocks = (s.file_size + 65536 - 1) % 18446744073709551616 / 65536;
  atime = cifs_time (as_time s.access_time);
  mtime = cifs_time (as_time s.write_time);
  ctime = cifs_time (as_time s.change_time);
}

-- `ZERO_STRUCT` and the mode of a directory.
abbrev pub plain_dir : FuseStat
plain_dir = record {
  directory = true;
  rights = 0o775;
  size = 0;
  blksize = 0;
  blocks = 0;
  atime = pos 0;
  mtime = pos 0;
  ctime = pos 0;
}

-- Whether FUSE takes the last of the names that it is given; `st_size` is below 2^63.
abbrev pub Filler : Type 0
Filler = List (Bytes × FuseStat) → Bool

abbrev pub Filled : Type 0
Filled = List (Bytes × FuseStat)

-- `filler(buf, name, &st, 0)` for each name; `false` when one is not taken.
unfoldable pub fill : Filler → Filled → Filled → Bool × Filled
fill takes shown [] = (true, shown)
fill takes shown (x ∷ xs) =
    let more = fill takes (shown ++ (x ∷ [])) xs in
    if takes (shown ++ (x ∷ [])) then more else (false, shown)

abbrev pub eio : ℕ
eio = 5
