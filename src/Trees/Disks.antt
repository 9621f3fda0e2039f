-- ===== src/Trees/Disks.antt =====
-- The local side of a copy: the calls of the system that cifscp.c makes on files and directories. A
-- file that is open goes by its path.
use cifscp.Base.{ℕ, ◌≡◌, ◌≢◌, Bool, Option, none, some, List, ◌++◌, take}
use cifscp.Base.Strings.{Bytes}

-- What `mkdir` says, where a directory that is there (EEXIST) is no error, and what `stat` tells.
pub data Made : Type 0 where
  made made_before not_made : Made

pub data Kind : Type 0 where
  regular directory special : Kind

-- `false` and `none` are -1 or NULL. `open_write` is `open` with O_CREAT and O_WRONLY, `seek_end`
-- the size that `lseek` finds, after which writes append; `names` is what `readdir` lists.
pub record Local : Type 1 where
  pub Disk : Type 0
  pub content : Disk → Bytes → Option Bytes
  pub open_write : Bytes → Disk → Bool × Disk
  pub seek_end : Bytes → Disk → Option ℕ
  pub write : Bytes → Bytes → Disk → Option ℕ × Disk
  pub mkdir : Bytes → Disk → Made × Disk
  pub open_read : Bytes → Disk → Bool
  pub pread : Bytes → ℕ → ℕ → Disk → Option Bytes
  pub names : Bytes → Disk → Option (List Bytes)
  pub kind : Bytes → Disk → Option Kind

-- What `write` has appended when it answers `n`.
abbrev pub appended : Bytes → Option ℕ → Option Bytes → Option Bytes
appended bs none s = s
appended bs (some n) none = none
appended bs (some n) (some s) = some (s ++ take n bs)

-- The documented effects: a call changes no other file, and `write` appends what it says.
pub record IsLocal (L : Local) : Type 0 where
  pub open-other :
      (p q : Bytes) (d : L.Disk) → q ≢ p → L.content (L.open_write p d).1 q ≡ L.content d q
  pub write-other :
      (p q bs : Bytes) (d : L.Disk) → q ≢ p → L.content (L.write p bs d).1 q ≡ L.content d q
  pub mkdir-other : (p q : Bytes) (d : L.Disk) → q ≢ p → L.content (L.mkdir p d).1 q ≡ L.content d q
  pub write-same :
      (p bs : Bytes) (d : L.Disk)
      → L.content (L.write p bs d).1 p ≡ appended bs (L.write p bs d).0 (L.content d p)
