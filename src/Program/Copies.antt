-- ===== src/Program/Copies.antt =====
-- cifscp.c: the downloads and the uploads of `main`.
use mathlib.Core.List.{reverse}
use cifscp.Base.{
  ℕ, Bool, true, false, not, ◌&&◌, Option, none, some, List, [], ◌∷◌, ◌++◌, ltb, if◌then◌else◌,
  length,
}
use cifscp.Base.Strings.{Bytes, codes}
use cifscp.Cstring.{pos, same_string}
use cifscp.Flow.{flow_reset}
use cifscp.Uri.{file, cifs, Uri, uri_parse}
use cifscp.Connect.{Conn, Outcome, done, refused, fault, no_end, and_then}
use cifscp.Proto.Files.{Stat}
use cifscp.Find.{Dir, Dirent, is_directory}
use cifscp.Find.Calls.{cifs_mask, cifs_stat}
use cifscp.Copy.{Clock}
use cifscp.Walk.{Setting, complaint, Options, each_entry}
use cifscp.Trees.Disks.{Local, directory}
use cifscp.Trees.{Work, below, heedless, fetch_file, fetch_dir}
use cifscp.Trees.Send.{send_file, send_dir}
use cifscp.Program.{
  Shown, line, usage, not_local, Reply, reply, faulty, endless, ◌>>=◌, called, Dial, connect_uri,
  minus_one, list_all, Opt, Flags, read_opts,
}

module _ (L : Local) where
  -- What the copies of `main` leave: the disk and the meter, and what has been printed.
  pub record Ran : Type 0 where
    pub work : Work L
    pub shown : List Shown

  abbrev pub complaining : Bytes → Ran → Ran
  complaining src r = record r { shown = r.shown ++ (line (complaint src) ∷ []) }

  -- `is_directory` of a local path.
  unfoldable pub is_local_dir : Bytes → Work L → Bool
  is_local_dir path w = elim (L.kind path w.disk) [
    | none ↦ false
    | some k ↦ elim k [ directory ↦ true | _ ↦ false ]
  ]

  -- One match of the mask of a source. A destination that is no directory gets every match.
  abbrev pub fetch_match :
      Setting → Clock → Bool → Bytes → Dirent → Work L → Conn → Outcome (Work L)
  fetch_match g clock into dst e w c =
      let name = if into then below dst e.name else dst in
      if is_directory e.st
      then heedless L (fetch_dir L g clock g.fuel e.path name w c)
      else heedless L (fetch_file L g clock e.path name w c)

  -- The matches; the search is not closed.
  abbrev pub fetch_masked :
      Setting → Clock → Bool → Bytes → Work L → Outcome Dir → Outcome (Option (Work L))
  fetch_masked g clock into dst w (done d c) =
      and_then (each_entry g (fetch_match g clock into dst) g.fuel d w c)
        (λ r c'. done (some r.0) c')
  fetch_masked g clock into dst w (refused why c) = done none c
  fetch_masked g clock into dst w fault = fault
  fetch_masked g clock into dst w no_end = no_end

  abbrev pub after_fetch : Bytes → Ran → Option (Option (Work L)) → Reply Ran
  after_fetch src r none = reply (complaining src r)
  after_fetch src r (some none) = reply (complaining src r)
  after_fetch src r (some (some w)) = reply (record r { work = w })

  abbrev pub fetch_connected :
      Setting → Clock → Bool → Bytes → Bytes → Uri → Ran → Option Conn → Reply Ran
  fetch_connected g clock into dst src u r none = reply (complaining src r)
  fetch_connected g clock into dst src u r (some c) =
      called (
        fetch_masked g clock into dst r.work
          (cifs_mask g.fuel g.pages u.dir (some u.name) g.trans g.area c))
      >>= after_fetch src r

  -- One source: what is no address of a share is passed over, and one that cannot be parsed is a
  -- step through NULL.
  abbrev pub fetch_parsed :
      Setting → Dial → Clock → Bool → Bytes → Bytes → Ran → Option Uri → Reply Ran
  fetch_parsed g dial clock into dst src r none = faulty
  fetch_parsed g dial clock into dst src r (some u) = elim u.scheme [
    | file ↦ reply r
    | cifs ↦ connect_uri g dial u >>= fetch_connected g clock into dst src u r
  ]

  unfoldable pub fetch_source : Setting → Dial → Clock → Bool → Bytes → Bytes → Ran → Reply Ran
  unfolding uri_parse connect_uri cifs_mask each_entry fetch_dir fetch_file
  fetch_source g dial clock into dst src r =
      fetch_parsed g dial clock into dst src r (uri_parse src)

  unfoldable pub fetch_sources :
      Setting → Dial → Clock → Bool → Bytes → List Bytes → Ran → Reply Ran
  unfolding fetch_source
  fetch_sources g dial clock into dst [] r = reply r
  fetch_sources g dial clock into dst (src ∷ srcs) r =
      fetch_source g dial clock into dst src r >>= fetch_sources g dial clock into dst srcs

  -- One local source of an upload, over the one connection.
  abbrev pub send_one : Setting → Clock → Bytes → Bytes → Work L → Conn → Outcome (Work L)
  send_one g clock src name w c =
      if is_local_dir src w
      then heedless L (send_dir L g clock g.fuel src name w c)
      else heedless L (send_file L g clock src name w c)

  abbrev pub sent : Ran → Outcome (Work L) → Reply (Ran × Conn)
  sent r (done w c) = reply (record r { work = w }, c)
  sent r (refused why c) = reply (r, c)
  sent r fault = faulty
  sent r no_end = endless

  abbrev pub sent_name : Bool → Uri → Uri → Bytes
  sent_name into d u = if into then below d.path u.name else d.path

  abbrev pub send_parsed :
      Setting → Clock → Bool → Uri → Bytes → Ran → Conn → Option Uri → Reply (Ran × Conn)
  send_parsed g clock into d src r c none = faulty
  send_parsed g clock into d src r c (some u) = elim u.scheme [
    | cifs ↦ reply (record r { shown = r.shown ++ (not_local src ∷ []) }, c)
    | file ↦ sent r (send_one g clock src (sent_name into d u) r.work c)
  ]

  unfoldable pub send_sources : Setting → Clock → Bool → Uri → List Bytes → Ran → Conn → Reply Ran
  unfolding uri_parse is_local_dir send_dir send_file
  send_sources g clock into d [] r c = reply r
  send_sources g clock into d (src ∷ srcs) r c =
      send_parsed g clock into d src r c (uri_parse src) >>= λ p.
      send_sources g clock into d srcs p.0 p.1

  -- How `main` ends.
  pub record Exit : Type 0 where
    pub status : ℕ
    pub ran : Ran

  abbrev pub exits : ℕ → Ran → Reply Exit
  exits n r = reply (record { status = n; ran = r })

  abbrev pub succeeds : Reply Ran → Reply Exit
  succeeds r = r >>= exits 0

  unfoldable pub download : Setting → Dial → Clock → Bytes → List Bytes → Ran → Reply Exit
  unfolding is_local_dir fetch_sources
  download g dial clock dst srcs r =
      let into = is_local_dir dst r.work in
      if ltb 1 (length srcs) && not into
      then exits 2 (complaining dst r)
      else succeeds (fetch_sources g dial clock into dst srcs r)

  -- Whether the destination of an upload is a directory; the root of a share is one.
  abbrev pub looked : Outcome Stat → Reply (Bool × Conn)
  looked (done st c) = reply (is_directory st, c)
  looked (refused why c) = reply (false, c)
  looked fault = faulty
  looked no_end = endless

  abbrev pub remote_dir : Setting → Bytes → Conn → Reply (Bool × Conn)
  remote_dir g [] c = reply (true, c)
  remote_dir g (p ∷ ps) c = looked (cifs_stat g.fuel g.pages (p ∷ ps) g.trans c)

  abbrev pub upload_to : Setting → Clock → Bytes → Uri → List Bytes → Ran → Bool × Conn → Reply Exit
  upload_to g clock dst d srcs r p =
      if ltb 1 (length srcs) && not p.0
      then exits 2 (complaining dst r)
      else succeeds (send_sources g clock p.0 d srcs r p.1)

  abbrev pub upload_connected :
      Setting → Clock → Bytes → Uri → List Bytes → Ran → Option Conn → Reply Exit
  upload_connected g clock dst d srcs r none = exits minus_one (complaining dst r)
  upload_connected g clock dst d srcs r (some c) =
      remote_dir g d.path c >>= upload_to g clock dst d srcs r

  unfoldable pub upload : Setting → Dial → Clock → Bytes → Uri → List Bytes → Ran → Reply Exit
  unfolding connect_uri cifs_stat send_sources
  upload g dial clock dst d srcs r = connect_uri g dial d >>= upload_connected g clock dst d srcs r

  -- The destination is the last operand.
  abbrev pub copy_parsed :
      Setting → Dial → Clock → Bytes → List Bytes → Ran → Option Uri → Reply Exit
  copy_parsed g dial clock dst srcs r none = exits 2 (complaining dst r)
  copy_parsed g dial clock dst srcs r (some d) = elim d.scheme [
    | file ↦ download g dial clock dst srcs r
    | cifs ↦ upload g dial clock dst d srcs r
  ]

  abbrev pub using : Ran → Reply Exit
  using r = exits 2 (record r { shown = r.shown ++ (usage ∷ []) })

  -- The operands, with the last one in front.
  abbrev pub copy_operands : Setting → Dial → Clock → List Bytes → Ran → Reply Exit
  copy_operands g dial clock [] r = using r
  copy_operands g dial clock (dst ∷ []) r = using r
  copy_operands g dial clock (dst ∷ src ∷ srcs) r =
      copy_parsed g dial clock dst (reverse (src ∷ srcs)) r (uri_parse dst)

  abbrev pub list_operands : Setting → Dial → Options → List Bytes → Ran → Reply Exit
  list_operands g dial o [] r = using r
  list_operands g dial o (src ∷ srcs) r = list_all g dial o (src ∷ srcs) >>= λ e.
      exits e.status (record r { shown = r.shown ++ e.shown })

  abbrev pub with_limit : Flags → Ran → Ran
  with_limit f r = record r {
    work = record (r.work) { flow = record (r.work.flow) { limit = f.limit } };
  }

  abbrev pub with_flags : Setting → Dial → Clock → List Bytes → Ran → Option Flags → Reply Exit
  with_flags g dial clock operands r none = exits 0 (record r { shown = r.shown ++ (usage ∷ []) })
  with_flags g dial clock operands r (some f) =
      if f.lists
      then list_operands g dial f.options operands (with_limit f r)
      else copy_operands g dial clock (reverse operands) (with_limit f r)

  -- `main`, with the name of the program, its options and operands, on a disk, when the clock shows
  -- `now`.
  abbrev pub first_flags : Bytes → Flags
  first_flags name = record {
    lists = same_string name (codes "cifsls");
    options = record { recursive = false; dirsize = false };
    limit = pos 0;
  }

  abbrev pub first_ran : ℕ → L.Disk → Ran
  first_ran now d = record {
    work = record { disk = d; flow = flow_reset now; turn = 0 };
    shown = [];
  }

  unfoldable pub program_main :
      Setting → Dial → Clock → ℕ → Bytes → List Opt → List Bytes → L.Disk → Reply Exit
  unfolding same_string flow_reset read_opts list_all download upload uri_parse
  program_main g dial clock now name [] [] d =
      exits 0 (record (first_ran now d) { shown = usage ∷ [] })
  program_main g dial clock now name opts operands d =
      read_opts opts (first_flags name) >>= with_flags g dial clock operands (first_ran now d)
