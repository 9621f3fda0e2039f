-- ===== src/Trees/Send.antt =====
-- cifscp.c: `cifs_upload_file` and `cifs_upload_dir`.
use cifscp.Base.{
  ℕ, zero, suc, ◌+◌, ◌-◌, Bool, true, false, ◌||◌, Option, none, some, List, [], ◌∷◌, ltb, ◌==◌,
  if◌then◌else◌,
}
use cifscp.Base.Strings.{Bytes, codes}
use cifscp.Cstring.{same_string}
use cifscp.Connect.{Conn, Outcome, done, refused, fault, no_end, and_then}
use cifscp.Proto.Files.{OpenFlags, Stat, cifs_open, cifs_write}
use cifscp.Find.Calls.{mkdir}
use cifscp.Copy.{Clock}
use cifscp.Walk.{Setting}
use cifscp.Trees.Disks.{Local, Kind, regular, directory, special}
use cifscp.Trees.{below, Work, Copying, Onward, measured, closing, heedless}

-- O_WRONLY and O_CREAT.
abbrev pub write_create : OpenFlags
write_create = record {
  directory = false;
  rdwr = false;
  wronly = true;
  creat = true;
  excl = false;
  trunc = false;
}

-- How much one turn reads.
abbrev pub piece_of : ℕ → ℕ
piece_of rem = if ltb 61440 rem then 61440 else rem

abbrev pub is_dot_name : Bytes → Bool
is_dot_name name = same_string name (codes ".") || same_string name (codes "..")

module _ (L : Local) where
  -- `cifs_write` answers how much the server has taken.
  abbrev pub send_wrote : Onward L → Clock → ℕ → ℕ → Work L → Outcome ℕ → Copying L
  send_wrote next clock off rem w (done k c) = next (off + k) (rem - k) (measured L clock k w) c
  send_wrote next clock off rem w (refused why c) = done (false, w) c
  send_wrote next clock off rem w fault = fault
  send_wrote next clock off rem w no_end = no_end

  unfoldable pub send_read :
      Onward L → Setting → Clock → ℕ → ℕ → ℕ → Work L → Conn → Option Bytes → Copying L
  send_read next g clock fid off rem w c none = done (false, w) c
  send_read next g clock fid off rem w c (some bs) =
      send_wrote next clock off rem w (cifs_write g.fuel fid off bs c)

  -- The loop of `cifs_upload_file`. `rem` is signed in the source; a server that says it took more
  -- than is left ends the loop there too.
  unfoldable pub send_pieces : Setting → Clock → ℕ → Bytes → ℕ → ℕ → ℕ → Work L → Conn → Copying L
  unfolding send_read
  send_pieces g clock fid src zero off rem w c = no_end
  send_pieces g clock fid src (suc turns) off rem w c = elim (rem == 0) [
    | true ↦ done (true, w) c
    | false ↦
        send_read (send_pieces g clock fid src turns) g clock fid off rem w c
          (L.pread src (piece_of rem) off w.disk)
  ]

  -- Behind the opening of the remote file, which is written from its end on.
  unfoldable pub send_from : Setting → Clock → ℕ → Bytes → ℕ → Work L → Conn → Option ℕ → Copying L
  unfolding send_pieces
  send_from g clock fid src off w c none = done (false, w) c
  send_from g clock fid src off w c (some size) =
      send_pieces g clock fid src g.fuel off (size - off) w c

  abbrev pub send_opened : Setting → Clock → Bytes → Work L → Outcome (ℕ × Stat) → Copying L
  send_opened g clock src w (done (fid, st) c) =
      and_then
        (if L.open_read src w.disk
          then send_from g clock fid src st.file_size w c (L.seek_end src w.disk)
          else done (false, w) c)
        (closing L g fid)
  send_opened g clock src w (refused why c) = done (false, w) c
  send_opened g clock src w fault = fault
  send_opened g clock src w no_end = no_end

  -- `cifs_upload_file`.
  unfoldable pub send_file : Setting → Clock → Bytes → Bytes → Work L → Conn → Copying L
  unfolding send_from
  send_file g clock src dst w c =
      send_opened g clock src w (cifs_open g.fuel g.pages dst write_create c)

  -- One name of a local directory; what cannot be looked at, and what is neither file nor directory,
  -- is passed over.
  abbrev pub send_kind :
      (Bytes → Bytes → Work L → Conn → Copying L)
      → Setting
      → Clock
      → Bytes
      → Bytes
      → Work L
      → Conn
      → Option Kind
      → Outcome (Work L)
  send_kind dir g clock src dst w c none = done w c
  send_kind dir g clock src dst w c (some directory) = heedless L (dir src dst w c)
  send_kind dir g clock src dst w c (some regular) = heedless L (send_file g clock src dst w c)
  send_kind dir g clock src dst w c (some special) = done w c

  unfoldable pub send_names :
      (Bytes → Bytes → Work L → Conn → Copying L)
      → Setting
      → Clock
      → Bytes
      → Bytes
      → List Bytes
      → Work L
      → Conn
      → Copying L
  unfolding send_file same_string
  send_names dir g clock src dst [] w c = done (true, w) c
  send_names dir g clock src dst (name ∷ names) w c =
      and_then
        (if is_dot_name name
          then done w c
          else send_kind dir g clock (below src name) (below dst name) w c
              (L.kind (below src name) w.disk))
        (send_names dir g clock src dst names)

  -- `cifs_mkdir` returns 0 for a directory that is there; EEXIST is none of its errors.
  abbrev pub send_made : (Work L → Conn → Copying L) → Work L → Outcome Unit → Copying L
  send_made each w (done u c) = each w c
  send_made each w (refused why c) = done (false, w) c
  send_made each w fault = fault
  send_made each w no_end = no_end

  abbrev pub send_listed :
      (Bytes → Bytes → Work L → Conn → Copying L)
      → Setting
      → Clock
      → Bytes
      → Bytes
      → Work L
      → Conn
      → Option (List Bytes)
      → Copying L
  send_listed dir g clock src dst w c none = done (false, w) c
  send_listed dir g clock src dst w c (some names) =
      send_made (send_names dir g clock src dst names) w (mkdir g.fuel g.pages dst g.trans c)

  -- `cifs_upload_dir`, with fuel for the depth.
  unfoldable pub send_dir : Setting → Clock → ℕ → Bytes → Bytes → Work L → Conn → Copying L
  unfolding send_names
  send_dir g clock zero src dst w c = no_end
  send_dir g clock (suc depth) src dst w c =
      send_listed (send_dir g clock depth) g clock src dst w c (L.names src w.disk)
