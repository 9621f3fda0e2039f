-- ===== src/Copy.antt =====
-- cifscp.c: `cifs_download_file` and `cifs_upload_file`, which carry on a copy that has been broken
-- off. A remote or local file is what its calls answer: functions of the number of the call. The
-- progress line that is printed has no effect on the copy.
pub mod Follows
pub mod Download
pub mod Upload
use cifscp.Base.{
  ℕ, zero, suc, ◌+◌, ◌-◌, ◌*◌, ◌/◌, ◌%◌, ◌^◌, ◌≤◌, ◌<◌, min, ◌≡◌, refl, sym, ap, ◌∙◌, ◌≢◌, ◌↔◌, ◌⊎◌,
  inl, inr, Bool, true, false, not, ◌&&◌, ◌||◌, Option, none, some, List, [], ◌∷◌, ◌++◌, map, arith,
  ltb, leb, ◌==◌, if◌then◌else◌, ltb→lt, lt→ltb, ==_iff, Bool-cases, Option-cases, length, take,
  drop, replicate, length-append, length-take, length-drop, take-append-drop, take-add, take-take,
  append-split, append-cancel, take-all, drop-all, length-map, length-replicate,
}
use cifscp.Base.Strings.{Bytes}
use cifscp.Flow.{Flow, flow_step}

-- `cifs_read` and `pread`: call, offset and length; `none` is -1.
abbrev pub Reader : Type 0
Reader = ℕ → ℕ → ℕ → Option Bytes

-- How many of `n` bytes `write` takes: call and `n`.
abbrev pub Disk : Type 0
Disk = ℕ → ℕ → Option ℕ

-- `cifs_write`: call and length; the answer may be less.
abbrev pub Uploader : Type 0
Uploader = ℕ → ℕ → Option ℕ

abbrev pub Clock : Type 0
Clock = ℕ → ℕ

-- The loop's variables: the file that is written, the offset, what remains, and the meter.
pub record Copy : Type 0 where
  pub dst : Bytes
  pub off : ℕ
  pub rem : ℕ
  pub flow : Flow

-- `copy_hang` is no outcome of the code: the fuel ran out.
pub data Copied : Type 0 where
  copied : Copy → Copied
  copy_failed : Copy → Copied
  copy_hang : Copied

abbrev pub metered : Clock → ℕ → ℕ → Copy → Copy
metered clock t n s = record s { flow = (flow_step (clock t) s.flow n).0 }

-- `write` to the file of a download, of which less than all is an error.
unfoldable pub download_write : (Copy → Copied) → Clock → ℕ → Bytes → Option ℕ → Copy → Copied
download_write next clock t bs none s = copy_failed s
download_write next clock t bs (some k) s =
    let s' = record s { dst = s.dst ++ take k bs } in
    if k == length bs then next (metered clock t (length bs) s') else copy_failed s'

unfoldable pub download_got : (Copy → Copied) → Disk → Clock → ℕ → Option Bytes → Copy → Copied
unfolding download_write
download_got next disk clock t none s = copy_failed s
download_got next disk clock t (some []) s = next (metered clock t 0 s)
download_got next disk clock t (some (c ∷ cs)) s =
    let n = length (c ∷ cs) in
    download_write next clock t (c ∷ cs) (disk t n) (record s { off = s.off + n; rem = s.rem - n })

-- How much one turn asks for: `sizeof(buf)` at most.
abbrev pub asked : Copy → ℕ
asked s = if ltb s.rem 65536 then s.rem else 65536

-- The loop of `cifs_download_file`; `t` counts its turns. `rem` is signed in the source, and a
-- reader never gives more than is asked for, so it stops at 0.
unfoldable pub download_loop : Reader → Disk → Clock → ℕ → ℕ → Copy → Copied
unfolding download_got
download_loop reader disk clock zero t s = copy_hang
download_loop reader disk clock (suc fuel) t s = elim (s.rem == 0) [
  | true ↦ copied s
  | false ↦
      download_got (download_loop reader disk clock fuel (suc t)) disk clock t
        (reader t s.off (asked s)) s
]

-- `cifs_download_file` behind the calls that open both files: `size` is the remote file's size, and
-- the local file, `dst`, is written from its end on.
unfoldable pub download_file : Reader → Disk → Clock → ℕ → ℕ → Bytes → Flow → Copied
unfolding download_loop
download_file reader disk clock fuel size dst flow =
    download_loop reader disk clock fuel 0
      (record { dst = dst; off = length dst; rem = size - length dst; flow = flow })

-- What `cifs_write` answers: the bytes it took now stand at `off`. A server that takes none is asked
-- again.
unfoldable pub upload_wrote : (Copy → Copied) → Clock → ℕ → Bytes → Option ℕ → Copy → Copied
upload_wrote next clock t bs none s = copy_failed s
upload_wrote next clock t bs (some k) s = next (
    metered clock t k (record s {
      dst = take s.off s.dst ++ take k bs ++ drop (s.off + k) s.dst;
      off = s.off + k;
      rem = s.rem - k;
    }))

unfoldable pub upload_got : (Copy → Copied) → Uploader → Clock → ℕ → Option Bytes → Copy → Copied
unfolding upload_wrote
upload_got next server clock t none s = copy_failed s
upload_got next server clock t (some bs) s = upload_wrote next clock t bs (server t (length bs)) s

abbrev pub piece : Copy → ℕ
piece s = if ltb 61440 s.rem then 61440 else s.rem

-- The loop of `cifs_upload_file`.
unfoldable pub upload_loop : Reader → Uploader → Clock → ℕ → ℕ → Copy → Copied
unfolding upload_got
upload_loop reader server clock zero t s = copy_hang
upload_loop reader server clock (suc fuel) t s = elim (s.rem == 0) [
  | true ↦ copied s
  | false ↦
      upload_got (upload_loop reader server clock fuel (suc t)) server clock t
        (reader t s.off (piece s)) s
]

-- `cifs_upload_file` behind the calls that open both files: `size` is the local file's size, and the
-- remote file, `dst`, is written from its end on.
unfoldable pub upload_file : Reader → Uploader → Clock → ℕ → ℕ → Bytes → Flow → Copied
unfolding upload_loop
upload_file reader server clock fuel size dst flow =
    upload_loop reader server clock fuel 0
      (record { dst = dst; off = length dst; rem = size - length dst; flow = flow })
