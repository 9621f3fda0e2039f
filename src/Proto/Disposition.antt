-- ===== src/Proto/Disposition.antt =====
-- What the flags of `cifs_open` come to on the server.
use cifscp.Base.{ℕ, ◌≡◌, Bool, true, false, ◌&&◌, arith, ◌==◌, if◌then◌else◌}
use cifscp.Proto.Files.{OpenFlags, open_disposition}

-- What opening does: an error, or the file with its old content, emptied, or new.
pub data Opened : Type 0 where
  no_file kept emptied made : Opened

-- What libcifs/smb.h says of a disposition, for a file that is there or not.
abbrev pub on_server : ℕ → Bool → Opened
on_server d there =
    if d == 1
    then (if there then kept else no_file)
    else if d == 2
    then (if there then no_file else made)
    else if d == 3
    then (if there then kept else made)
    else if d == 4
    then (if there then emptied else no_file)
    else if there
    then emptied
    else made

-- What open(2) says of the flags.
abbrev pub posix_open : OpenFlags → Bool → Opened
posix_open f true = if f.creat && f.excl then no_file else if f.trunc then emptied else kept
posix_open f false = if f.creat then made else no_file

-- For every set of flags and whether the file is there or not, the disposition that `cifs_open`
-- sends makes the server do what open(2) says: create the file or not, fail when it must be new,
-- empty it or keep what it holds.
pub open_disposition_lem :
    (f : OpenFlags) (there : Bool) → on_server (open_disposition f) there ≡ posix_open f there
unfolding open_disposition
open_disposition_lem f true = ground arith
open_disposition_lem f false = ground arith
