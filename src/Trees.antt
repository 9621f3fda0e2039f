-- ===== src/Trees.antt =====
-- cifscp.c: `cifs_download_file`, `cifs_download_dir`, `cifs_upload_file` and `cifs_upload_dir`, over
-- a connection. The loops of the file copies are those of Copy, with the calls of the library in the
-- place of a reader and a server. What is printed is left out.
pub mod Disks
pub mod Send
pub mod Confined
pub mod Inside
pub mod Loops
pub mod Refined
pub mod Sent
pub mod Served
use cifscp.Base.{
  ℕ, zero, suc, ◌+◌, ◌-◌, ◌*◌, ◌/◌, ◌%◌, ◌^◌, ◌≤◌, ◌<◌, min, ◌≡◌, refl, sym, ap, ◌∙◌, ◌≢◌, ◌↔◌, ◌⊎◌,
  inl, inr, Bool, true, false, not, ◌&&◌, ◌||◌, Option, none, some, List, [], ◌∷◌, ◌++◌, map, arith,
  ltb, leb, ◌==◌, if◌then◌else◌, ltb→lt, lt→ltb, ==_iff, Bool-cases, Option-cases, length, take,
  drop, replicate, length-append, length-take, length-drop, take-append-drop, take-add, take-take,
  take_self, append-split, append-cancel, take-all, drop-all, length-map, length-replicate,
}
use cifscp.Base.Strings.{Bytes, codes}
use cifscp.Flow.{Flow, flow_step}
use cifscp.Connect.{Conn, Outcome, done, refused, fault, no_end, and_then}
use cifscp.Proto.Files.{OpenFlags, Stat, cifs_open, cifs_close, cifs_read}
use cifscp.Find.{Dir, Dirent, is_directory}
use cifscp.Find.Calls.{opendir, closedir}
use cifscp.Copy.{Clock}
use cifscp.Walk.{Setting, each_entry, dropped, closed_with}
use Disks.{Local, Made, made, made_before, not_made}

-- O_RDONLY.
abbrev pub read_only : OpenFlags
read_only = record {
  directory = false;
  rdwr = false;
  wronly = false;
  creat = false;
  excl = false;
  trunc = false;
}

-- `asprintf("%s/%s")`.
abbrev pub below : Bytes → Bytes → Bytes
below dir name = dir ++ (b'/' ∷ name)

-- How much one turn asks for: `sizeof(buf)` at most.
abbrev pub ask : ℕ → ℕ
ask rem = if ltb rem 65536 then rem else 65536

module _ (L : Local) where
  -- What a copy changes besides the connection: the disk, and the meter with its clock.
  pub record Work : Type 0 where
    pub disk : L.Disk
    pub flow : Flow
    pub turn : ℕ

  -- A call that returns 0 (`true`) or -1.
  abbrev pub Copying : Type 0
  Copying = Outcome (Bool × Work)

  abbrev pub measured : Clock → ℕ → Work → Work
  measured clock n w = record w { flow = (flow_step (clock w.turn) w.flow n).0; turn = suc w.turn }

  abbrev pub on_disk : Work → L.Disk → Work
  on_disk w d = record w { disk = d }

  -- The body of the loop of `cifs_download_file`: `next` goes on at an offset, with what remains.
  abbrev pub Onward : Type 0
  Onward = ℕ → ℕ → Work → Conn → Copying

  unfoldable pub fetch_written : Onward → Clock → Bytes → ℕ → ℕ → Work → Conn → Option ℕ → Copying
  fetch_written next clock bs off rem w c none = done (false, w) c
  fetch_written next clock bs off rem w c (some k) =
      let n = length bs in
      if k == n then next (off + n) (rem - n) (measured clock n w) c else done (false, w) c

  unfoldable pub fetch_got : Onward → Clock → Bytes → ℕ → ℕ → Work → Bytes → Conn → Copying
  unfolding fetch_written
  fetch_got next clock dst off rem w [] c = next off rem (measured clock 0 w) c
  fetch_got next clock dst off rem w (b ∷ bs) c =
      let (k, disk) = L.write dst (b ∷ bs) w.disk in
      fetch_written next clock (b ∷ bs) off rem (on_disk w disk) c k

  abbrev pub fetch_read : Onward → Clock → Bytes → ℕ → ℕ → Work → Outcome Bytes → Copying
  fetch_read next clock dst off rem w (done bs c) = fetch_got next clock dst off rem w bs c
  fetch_read next clock dst off rem w (refused why c) = done (false, w) c
  fetch_read next clock dst off rem w fault = fault
  fetch_read next clock dst off rem w no_end = no_end

  unfoldable pub fetch_loop : Setting → Clock → ℕ → Bytes → ℕ → ℕ → ℕ → Work → Conn → Copying
  unfolding fetch_got
  fetch_loop g clock fid dst zero off rem w c = no_end
  fetch_loop g clock fid dst (suc turns) off rem w c = elim (rem == 0) [
    | true ↦ done (true, w) c
    | false ↦
        fetch_read (fetch_loop g clock fid dst turns) clock dst off rem w
          (cifs_read g.fuel fid (ask rem) off c)
  ]

  -- Behind the opening of the remote file: the local file is written from its end on.
  unfoldable pub fetch_from : Setting → Clock → ℕ → Bytes → ℕ → Work → Conn → Option ℕ → Copying
  unfolding fetch_loop
  fetch_from g clock fid dst size w c none = done (false, w) c
  fetch_from g clock fid dst size w c (some off) =
      fetch_loop g clock fid dst g.fuel off (size - off) w c

  unfoldable pub fetch_into : Setting → Clock → ℕ → Bytes → ℕ → Work → Conn → Copying
  unfolding fetch_from
  fetch_into g clock fid dst size w c =
      let (opened, disk) = L.open_write dst w.disk in
      let w' = on_disk w disk in
      if opened
      then fetch_from g clock fid dst size w' c (L.seek_end dst disk)
      else done (false, w') c

  -- The remote file is closed, after an error only if its number is not 0.
  abbrev pub closing : Setting → ℕ → Bool × Work → Conn → Copying
  closing g fid r c =
      if r.0 || ltb 0 fid
      then and_then (dropped tt (cifs_close g.fuel fid c)) (λ _ c'. done r c')
      else done r c

  abbrev pub fetch_opened : Setting → Clock → Bytes → Work → Outcome (ℕ × Stat) → Copying
  fetch_opened g clock dst w (done (fid, st) c) =
      and_then (fetch_into g clock fid dst st.file_size w c) (closing g fid)
  fetch_opened g clock dst w (refused why c) = done (false, w) c
  fetch_opened g clock dst w fault = fault
  fetch_opened g clock dst w no_end = no_end

  -- `cifs_download_file`.
  unfoldable pub fetch_file : Setting → Clock → Bytes → Bytes → Work → Conn → Copying
  unfolding fetch_into
  fetch_file g clock src dst w c =
      fetch_opened g clock dst w (cifs_open g.fuel g.pages src read_only c)

  -- A result that is only printed.
  abbrev pub heedless : Copying → Outcome Work
  heedless (done r c) = done r.1 c
  heedless (refused why c) = refused why c
  heedless fault = fault
  heedless no_end = no_end

  abbrev pub fetch_entry :
      (Bytes → Bytes → Work → Conn → Copying)
      → Setting
      → Clock
      → Bytes
      → Dirent
      → Work
      → Conn
      → Outcome Work
  fetch_entry dir g clock dst e w c =
      let deeper = dir e.path (below dst e.name) w c in
      if is_directory e.st
      then heedless deeper
      else heedless (fetch_file g clock e.path (below dst e.name) w c)

  abbrev pub fetch_each :
      (Bytes → Bytes → Work → Conn → Copying)
      → Setting
      → Clock
      → Bytes
      → Dir
      → Work
      → Conn
      → Copying
  fetch_each dir g clock dst d w c =
      and_then (each_entry g (fetch_entry dir g clock dst) g.fuel d w c)
        (λ r c1. and_then (closed_with g r c1) (λ w' c2. done (true, w') c2))

  abbrev pub fetch_made :
      (Bytes → Bytes → Work → Conn → Copying)
      → Setting
      → Clock
      → Bytes
      → Dir
      → Work
      → Conn
      → Made
      → Copying
  fetch_made dir g clock dst d w c not_made =
      and_then (dropped tt (closedir g.fuel d c)) (λ _ c'. done (false, w) c')
  fetch_made dir g clock dst d w c made = fetch_each dir g clock dst d w c
  fetch_made dir g clock dst d w c made_before = fetch_each dir g clock dst d w c

  abbrev pub fetch_listed :
      (Bytes → Bytes → Work → Conn → Copying)
      → Setting
      → Clock
      → Bytes
      → Work
      → Outcome Dir
      → Copying
  fetch_listed dir g clock dst w (done d c) =
      let (r, disk) = L.mkdir dst w.disk in fetch_made dir g clock dst d (on_disk w disk) c r
  fetch_listed dir g clock dst w (refused why c) = done (false, w) c
  fetch_listed dir g clock dst w fault = fault
  fetch_listed dir g clock dst w no_end = no_end

  -- `cifs_download_dir`, with fuel for the depth.
  unfoldable pub fetch_dir : Setting → Clock → ℕ → Bytes → Bytes → Work → Conn → Copying
  unfolding fetch_file each_entry
  fetch_dir g clock zero src dst w c = no_end
  fetch_dir g clock (suc depth) src dst w c =
      fetch_listed (fetch_dir g clock depth) g clock dst w
        (opendir g.fuel g.pages src g.trans g.area c)
