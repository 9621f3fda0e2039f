-- ===== src/Trees/Inside.antt =====
-- Where a download of a directory writes.
use cifscp.Base.{ℕ, zero, suc, ◌≡◌, refl, ◌∙◌, inl, inr, true, false, Option, Bool-cases}
use cifscp.Base.Strings.{Bytes}
use cifscp.Connect.{Conn, Outcome, done, refused, fault, no_end, and_then}
use cifscp.Connect.Request.{After, and_then-After}
use cifscp.Find.{Dir, Dirent, is_directory}
use cifscp.Find.Calls.{opendir, closedir}
use cifscp.Copy.{Clock}
use cifscp.Walk.{Setting, each_entry, dropped, closed_with}
use cifscp.Walk.Visits.{each_entry-After, nothing}
use cifscp.Trees.Disks.{Local, IsLocal, Made, made, made_before, not_made}
use cifscp.Trees.Confined.{Outside, Outside-below, Same, Kept, file-Kept}
use cifscp.Trees.{
  below, Work, Copying, on_disk, fetch_file, heedless, fetch_entry, fetch_each, fetch_made,
  fetch_listed, fetch_dir,
}

module _ (L : Local) (l : IsLocal L) (q : Bytes) (x : Option Bytes) where
  abbrev pub DirKept : (Bytes → Bytes → Work L → Conn → Copying L) → Type 0
  DirKept dir =
      (src dst : Bytes) (w : Work L) (c : Conn)
      → Outside dst q
      → Same L l q x w
      → Kept L l q x (dir src dst w c)

  pub heedless-Kept :
      (r : Copying L) → Kept L l q x r → After (λ w c. Same L l q x w) (heedless L r)
  heedless-Kept (done r c) h = h
  heedless-Kept (refused why c) h = tt
  heedless-Kept fault h = tt
  heedless-Kept no_end h = tt

  pub entry-Kept :
      (dir : Bytes → Bytes → Work L → Conn → Copying L) (g : Setting) (clock : Clock) (dst : Bytes)
      (e : Dirent) (w : Work L) (c : Conn)
      → DirKept dir
      → Outside dst q
      → Same L l q x w
      → After (λ w' c'. Same L l q x w') (fetch_entry L dir g clock dst e w c)
  entry-Kept dir g clock dst e w c h o s =
      let o' = Outside-below dst e.name q o in
      elim (Bool-cases (is_directory e.st)) [
        | inl y ↦ rw (y) (
            heedless-Kept (dir e.path (below dst e.name) w c)
              (h e.path (below dst e.name) w c o' s))
        | inr n ↦ rw (n) (
            heedless-Kept (fetch_file L g clock e.path (below dst e.name) w c)
              (file-Kept L l q x g clock e.path (below dst e.name) w c o'.apart s))
      ]

  closed-Kept :
      (g : Setting) (r : Work L × Dir) (c : Conn)
      → Same L l q x r.0
      → After (λ w' c'. Same L l q x w') (closed_with g r c)
  closed-Kept g r c s =
      and_then-After (λ w' c'. Same L l q x w') (dropped tt (closedir g.fuel r.1 c))
        (λ _ c'. done r.0 c') (nothing (dropped tt (closedir g.fuel r.1 c))) (λ _ c' _. s)

  each-Kept :
      (dir : Bytes → Bytes → Work L → Conn → Copying L) (g : Setting) (clock : Clock) (dst : Bytes)
      (d : Dir) (w : Work L) (c : Conn)
      → DirKept dir
      → Outside dst q
      → Same L l q x w
      → Kept L l q x (fetch_each L dir g clock dst d w c)
  each-Kept dir g clock dst d w c h o s =
      and_then-After (λ r c'. Same L l q x r.1)
        (each_entry g (fetch_entry L dir g clock dst) g.fuel d w c)
        (λ r c1. and_then (closed_with g r c1) (λ w' c2. done (true, w') c2))
        (each_entry-After (Same L l q x) g (fetch_entry L dir g clock dst) g.fuel d w c s
          (λ e w' c' s'. entry-Kept dir g clock dst e w' c' h o s'))
        (λ r c1 s1.
          and_then-After (λ r' c'. Same L l q x r'.1) (closed_with g r c1)
            (λ w' c2. done (true, w') c2) (closed-Kept g r c1 s1) (λ w' c2 s2. s2))

  made-Kept :
      (dir : Bytes → Bytes → Work L → Conn → Copying L) (g : Setting) (clock : Clock) (dst : Bytes)
      (d : Dir) (w : Work L) (c : Conn) (r : Made)
      → DirKept dir
      → Outside dst q
      → Same L l q x w
      → Kept L l q x (fetch_made L dir g clock dst d w c r)
  made-Kept dir g clock dst d w c not_made h o s =
      and_then-After (λ r' c'. Same L l q x r'.1) (dropped tt (closedir g.fuel d c))
        (λ _ c'. done (false, w) c') (nothing (dropped tt (closedir g.fuel d c))) (λ _ c' _. s)
  made-Kept dir g clock dst d w c made h o s = each-Kept dir g clock dst d w c h o s
  made-Kept dir g clock dst d w c made_before h o s = each-Kept dir g clock dst d w c h o s

  listed-Kept :
      (dir : Bytes → Bytes → Work L → Conn → Copying L) (g : Setting) (clock : Clock) (dst : Bytes)
      (w : Work L) (r : Outcome Dir)
      → DirKept dir
      → Outside dst q
      → Same L l q x w
      → Kept L l q x (fetch_listed L dir g clock dst w r)
  listed-Kept dir g clock dst w (done d c) h o s =
      made-Kept dir g clock dst d (on_disk L w (L.mkdir dst w.disk).1) c (L.mkdir dst w.disk).0 h o
        (l.mkdir-other dst q w.disk o.apart ∙ s)
  listed-Kept dir g clock dst w (refused why c) h o s = s
  listed-Kept dir g clock dst w fault h o s = tt
  listed-Kept dir g clock dst w no_end h o s = tt

  pub dir-Kept : (g : Setting) (clock : Clock) (depth : ℕ) → DirKept (fetch_dir L g clock depth)
  unfolding fetch_dir
  dir-Kept g clock zero src dst w c o s = tt
  dir-Kept g clock (suc depth) src dst w c o s =
      listed-Kept (fetch_dir L g clock depth) g clock dst w
        (opendir g.fuel g.pages src g.trans g.area c) (dir-Kept g clock depth) o s

-- A download of a directory, of whatever the server lists and however deep, writes to the
-- destination and to paths that begin with it and a slash, and leaves every other file as it was. Of
-- the local system it is assumed that a call changes the file that it names alone.
pub fetch_dir-Confined :
    (L : Local) (g : Setting) (clock : Clock) (depth : ℕ) (src dst q : Bytes) (w : Work L)
    (c : Conn)
    → IsLocal L
    → Outside dst q
    → After
        (λ r c'. L.content r.1.disk q ≡ L.content w.disk q)
        (fetch_dir L g clock depth src dst w c)
fetch_dir-Confined L g clock depth src dst q w c l o =
    dir-Kept L l q (L.content w.disk q) g clock depth src dst w c o refl
