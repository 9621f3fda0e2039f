-- ===== src/Trees/Sent.antt =====
-- An upload leaves the local files alone.
use cifscp.Base.{
  ℕ, zero, suc, ◌-◌, Bool, true, false, Option, none, some, List, [], ◌∷◌, ◌==◌, if◌then◌else◌,
}
use cifscp.Base.Strings.{Bytes}
use cifscp.Connect.{Conn, Outcome, done, refused, fault, no_end}
use cifscp.Connect.Request.{After, and_then-After}
use cifscp.Proto.Files.{Stat, cifs_open, cifs_write}
use cifscp.Find.Calls.{mkdir}
use cifscp.Copy.{Clock}
use cifscp.Walk.{Setting}
use cifscp.Trees.Disks.{Local, IsLocal, Kind, regular, directory, special}
use cifscp.Trees.Confined.{Same, Kept, closing-Kept}
use cifscp.Trees.Inside.{heedless-Kept}
use cifscp.Trees.{below, Work, Copying, Onward, closing}
use cifscp.Trees.Send.{
  write_create, piece_of, send_wrote, send_read, send_pieces, send_from, send_opened, send_file,
  send_kind, is_dot_name, send_names, send_made, send_listed, send_dir,
}

module _ (L : Local) (l : IsLocal L) (q : Bytes) (x : Option Bytes) where
  wrote-Kept :
      (next : Onward L) (clock : Clock) (off rem : ℕ) (w : Work L) (r : Outcome ℕ)
      → Same L l q x w
      → ((o n : ℕ) (w' : Work L) (c : Conn) → Same L l q x w' → Kept L l q x (next o n w' c))
      → Kept L l q x (send_wrote L next clock off rem w r)
  wrote-Kept next clock off rem w (done k c) s ih = ih _ _ _ c s
  wrote-Kept next clock off rem w (refused why c) s ih = s
  wrote-Kept next clock off rem w fault s ih = tt
  wrote-Kept next clock off rem w no_end s ih = tt

  read-Kept :
      (next : Onward L) (g : Setting) (clock : Clock) (fid off rem : ℕ) (w : Work L) (c : Conn)
      (a : Option Bytes)
      → Same L l q x w
      → ((o n : ℕ) (w' : Work L) (c' : Conn) → Same L l q x w' → Kept L l q x (next o n w' c'))
      → Kept L l q x (send_read L next g clock fid off rem w c a)
  unfolding send_read
  read-Kept next g clock fid off rem w c none s ih = s
  read-Kept next g clock fid off rem w c (some bs) s ih =
      wrote-Kept next clock off rem w (cifs_write g.fuel fid off bs c) s ih

  loop-Kept :
      (g : Setting) (clock : Clock) (fid : ℕ) (src : Bytes) (turns off rem : ℕ) (w : Work L)
      (c : Conn)
      → Same L l q x w
      → Kept L l q x (send_pieces L g clock fid src turns off rem w c)
  unfolding send_pieces
  loop-Kept g clock fid src zero off rem w c s = tt
  loop-Kept g clock fid src (suc turns) off rem w c s =
      elim (rem == 0)
        as (λ b. Kept L l q x (elim b [
          | true ↦ done (true, w) c
          | false ↦
              send_read L (send_pieces L g clock fid src turns) g clock fid off rem w c
                (L.pread src (piece_of rem) off w.disk)
        ])) [
          | true ↦ s
          | false ↦
              read-Kept (send_pieces L g clock fid src turns) g clock fid off rem w c
                (L.pread src (piece_of rem) off w.disk) s
                (λ o n w' c' s'. loop-Kept g clock fid src turns o n w' c' s')
        ]

  from-Kept :
      (g : Setting) (clock : Clock) (fid : ℕ) (src : Bytes) (off : ℕ) (w : Work L) (c : Conn)
      (size : Option ℕ)
      → Same L l q x w
      → Kept L l q x (send_from L g clock fid src off w c size)
  unfolding send_from
  from-Kept g clock fid src off w c none s = s
  from-Kept g clock fid src off w c (some size) s =
      loop-Kept g clock fid src g.fuel off (size - off) w c s

  either-Kept :
      (b : Bool) (r t : Copying L)
      → Kept L l q x r
      → Kept L l q x t
      → Kept L l q x (if b then r else t)
  either-Kept true r t h k = h
  either-Kept false r t h k = k

  pub send_file-Kept :
      (g : Setting) (clock : Clock) (src dst : Bytes) (w : Work L) (c : Conn)
      → Same L l q x w
      → Kept L l q x (send_file L g clock src dst w c)
  unfolding send_file
  send_file-Kept g clock src dst w c s = opened (cifs_open g.fuel g.pages dst write_create c)
    where
      opened : (r : Outcome (ℕ × Stat)) → Kept L l q x (send_opened L g clock src w r)
      opened (done (fid, st) c') =
          and_then-After (λ r c2. Same L l q x r.1)
            (if L.open_read src w.disk
              then send_from L g clock fid src st.file_size w c' (L.seek_end src w.disk)
              else done (false, w) c')
            (closing L g fid)
            (either-Kept (L.open_read src w.disk)
              (send_from L g clock fid src st.file_size w c' (L.seek_end src w.disk))
              (done (false, w) c')
              (from-Kept g clock fid src st.file_size w c' (L.seek_end src w.disk) s) s)
            (λ r c2 s'. closing-Kept L l q x g fid r c2 s')
      opened (refused why c') = s
      opened fault = tt
      opened no_end = tt

  abbrev WorkKept : Outcome (Work L) → Type 0
  WorkKept r = After (λ w c. Same L l q x w) r

  abbrev DirKept : (Bytes → Bytes → Work L → Conn → Copying L) → Type 0
  DirKept dir =
      (src dst : Bytes) (w : Work L) (c : Conn) → Same L l q x w → Kept L l q x (dir src dst w c)

  kind-Kept :
      (dir : Bytes → Bytes → Work L → Conn → Copying L) (g : Setting) (clock : Clock)
      (src dst : Bytes) (w : Work L) (c : Conn) (k : Option Kind)
      → DirKept dir
      → Same L l q x w
      → WorkKept (send_kind L dir g clock src dst w c k)
  kind-Kept dir g clock src dst w c none h s = s
  kind-Kept dir g clock src dst w c (some directory) h s =
      heedless-Kept L l q x (dir src dst w c) (h src dst w c s)
  kind-Kept dir g clock src dst w c (some regular) h s =
      heedless-Kept L l q x (send_file L g clock src dst w c) (send_file-Kept g clock src dst w c s)
  kind-Kept dir g clock src dst w c (some special) h s = s

  names-Kept :
      (dir : Bytes → Bytes → Work L → Conn → Copying L) (g : Setting) (clock : Clock)
      (src dst : Bytes) (names : List Bytes) (w : Work L) (c : Conn)
      → DirKept dir
      → Same L l q x w
      → Kept L l q x (send_names L dir g clock src dst names w c)
  unfolding send_names
  names-Kept dir g clock src dst [] w c h s = s
  names-Kept dir g clock src dst (name ∷ names) w c h s =
      let k =
        send_kind L dir g clock (below src name) (below dst name) w c
          (L.kind (below src name) w.disk) in
      and_then-After (λ r c'. Same L l q x r.1) (if is_dot_name name then done w c else k)
        (send_names L dir g clock src dst names)
        (elim (is_dot_name name) as (λ b. WorkKept (if b then done w c else k)) [
          | true ↦ s
          | false ↦
              kind-Kept dir g clock (below src name) (below dst name) w c
                (L.kind (below src name) w.disk) h s
        ])
        (λ w' c' s'. names-Kept dir g clock src dst names w' c' h s')

  made-Kept :
      (each : Work L → Conn → Copying L) (w : Work L) (r : Outcome Unit)
      → ((w' : Work L) (c : Conn) → Same L l q x w' → Kept L l q x (each w' c))
      → Same L l q x w
      → Kept L l q x (send_made L each w r)
  made-Kept each w (done u c) h s = h w c s
  made-Kept each w (refused why c) h s = s
  made-Kept each w fault h s = tt
  made-Kept each w no_end h s = tt

  listed-Kept :
      (dir : Bytes → Bytes → Work L → Conn → Copying L) (g : Setting) (clock : Clock)
      (src dst : Bytes) (w : Work L) (c : Conn) (names : Option (List Bytes))
      → DirKept dir
      → Same L l q x w
      → Kept L l q x (send_listed L dir g clock src dst w c names)
  listed-Kept dir g clock src dst w c none h s = s
  listed-Kept dir g clock src dst w c (some names) h s =
      made-Kept (send_names L dir g clock src dst names) w (mkdir g.fuel g.pages dst g.trans c)
        (λ w' c' s'. names-Kept dir g clock src dst names w' c' h s') s

  pub send_dir-Kept : (g : Setting) (clock : Clock) (depth : ℕ) → DirKept (send_dir L g clock depth)
  unfolding send_dir
  send_dir-Kept g clock zero src dst w c s = tt
  send_dir-Kept g clock (suc depth) src dst w c s =
      listed-Kept (send_dir L g clock depth) g clock src dst w c (L.names src w.disk)
        (send_dir-Kept g clock depth) s
