-- ===== src/Program/Status.antt =====
-- `main` of cifscp: what an exit status other than 0 means.
use mathlib.Core.List.{reverse, append_assoc}
use cifscp.Base.{
  ℕ, ◌≡◌, refl, sym, ◌⊎◌, inl, inr, Bool, true, false, not, ◌&&◌, Option, none, some, List, [], ◌∷◌,
  ◌++◌, ltb, if◌then◌else◌, length,
}
use cifscp.Base.Strings.{Bytes}
use cifscp.Uri.{file, cifs, Uri, uri_parse}
use cifscp.Connect.{Conn}
use cifscp.Copy.{Clock}
use cifscp.Walk.{Setting, complaint, Options}
use cifscp.Trees.Disks.{Local}
use cifscp.Program.{
  Shown, line, usage, Reply, reply, faulty, endless, ◌>>=◌, called, Dial, connect_uri, listing,
  Ended, printing, or_none, list_connected, list_parsed, list_all, Opt, Flags, read_opts,
}
use cifscp.Program.Copies.{
  Ran, complaining, is_local_dir, fetch_sources, send_sources, Exit, exits, succeeds, download,
  remote_dir, upload_to, upload_connected, upload, copy_parsed, copy_operands, list_operands, using,
  with_limit, with_flags, first_flags, first_ran, program_main,
}
use cifscp.Program.Confined.{Returns, >>=-Returns, anything}

-- The lines that say why nothing was done.
pub data IsReport : Shown → Type 0 where
  complains : (what : Bytes) → IsReport (line (complaint what))
  instructs : IsReport usage

-- The last line is one of them.
abbrev pub Reports : List Shown → Type 0
Reports ls = (before : List Shown) × (x : Shown) × IsReport x × (ls ≡ before ++ (x ∷ []))

Reports-append : (ks ls : List Shown) → Reports ls → Reports (ks ++ ls)
Reports-append ks ls (before, x, is, e) =
    (ks ++ before, x, is, rw (e) (sym (append_assoc ks before (x ∷ []))))

-- A listing ends with the status 0, or with -1 and a complaint.
abbrev Listed : Ended → Type 0
Listed e = (e.status ≡ 0) ⊎ ((e.status ≡ 255) × Reports e.shown)

printing-Listed : (ls : List Shown) (e : Ended) → Listed e → Listed (printing ls e)
printing-Listed ls e (inl z) = inl z
printing-Listed ls e (inr (z, r)) = inr (z, Reports-append ls e.shown r)

connected-Listed :
    (g : Setting) (o : Options) (src : Bytes) (u : Uri) (rest : Reply Ended) (c : Option Conn)
    → Returns Listed rest
    → Returns Listed (list_connected g o src u rest c)
connected-Listed g o src u rest none h = inr (refl, ([], line (complaint src), complains src, refl))
connected-Listed g o src u rest (some c) h =
    >>=-Returns (λ ls. Unit) Listed (called (listing g o u u.tree c)) _
      (anything (called (listing g o u u.tree c)))
      (λ ls _. >>=-Returns Listed Listed rest _ h (λ e l. printing-Listed (or_none ls) e l))

parsed-Listed :
    (g : Setting) (dial : Dial) (o : Options) (src : Bytes) (rest : Reply Ended) (u : Option Uri)
    → Returns Listed rest
    → Returns Listed (list_parsed g dial o src rest u)
parsed-Listed g dial o src rest none h = tt
parsed-Listed g dial o src rest (some u) h =
    elim u.scheme
      as (λ z.
        Returns Listed (elim z [
          | file ↦ rest
          | cifs ↦ connect_uri g dial u >>= list_connected g o src u rest
        ])) [
          | file ↦ h
          | cifs ↦
              >>=-Returns (λ c. Unit) Listed (connect_uri g dial u) (list_connected g o src u rest)
                (anything (connect_uri g dial u)) (λ c _. connected-Listed g o src u rest c h)
        ]

list_all-Listed :
    (g : Setting) (dial : Dial) (o : Options) (srcs : List Bytes)
    → Returns Listed (list_all g dial o srcs)
unfolding list_all
list_all-Listed g dial o [] = inl refl
list_all-Listed g dial o (src ∷ srcs) =
    parsed-Listed g dial o src (list_all g dial o srcs) (uri_parse src)
      (list_all-Listed g dial o srcs)

module _ (L : Local) (d : L.Disk) where
  -- An exit: with an error, the disk is as it was and the last line says why.
  abbrev pub Ends : Exit L → Type 0
  Ends e =
      (e.status ≡ 0)
      ⊎ (((e.status ≡ 2) ⊎ (e.status ≡ 255)) × (e.ran.work.disk ≡ d) × Reports e.ran.shown)

  -- Nothing has been copied yet.
  abbrev Unchanged : Ran L → Type 0
  Unchanged r = r.work.disk ≡ d

  complaint-Ends : (src : Bytes) (r : Ran L) → Unchanged r → Reports (complaining L src r).shown
  complaint-Ends src r h = (r.shown, line (complaint src), complains src, refl)

  using-Ends : (r : Ran L) → Unchanged r → Returns Ends (using L r)
  using-Ends r h = inr (inl refl, h, (r.shown, usage, instructs, refl))

  succeeds-Ends : (r : Reply (Ran L)) → Returns Ends (succeeds L r)
  succeeds-Ends (reply r) = inl refl
  succeeds-Ends faulty = tt
  succeeds-Ends endless = tt

  guarded-Ends :
      (b : Bool) (dst : Bytes) (r : Ran L) (rest : Reply (Ran L))
      → Unchanged r
      → Returns Ends (if b then exits L 2 (complaining L dst r) else succeeds L rest)
  guarded-Ends true dst r rest h = inr (inl refl, h, complaint-Ends dst r h)
  guarded-Ends false dst r rest h = succeeds-Ends rest

  upload-Ends :
      (g : Setting) (dial : Dial) (clock : Clock) (dst : Bytes) (u : Uri) (srcs : List Bytes)
      (r : Ran L)
      → Unchanged r
      → Returns Ends (upload L g dial clock dst u srcs r)
  unfolding upload
  upload-Ends g dial clock dst u srcs r h =
      >>=-Returns (λ c. Unit) Ends (connect_uri g dial u) (upload_connected L g clock dst u srcs r)
        (anything (connect_uri g dial u)) (λ c _. connected c)
    where
      connected : (c : Option Conn) → Returns Ends (upload_connected L g clock dst u srcs r c)
      connected none = inr (inr refl, h, complaint-Ends dst r h)
      connected (some c) =
          >>=-Returns (λ p. Unit) Ends (remote_dir L g u.path c) (upload_to L g clock dst u srcs r)
            (anything (remote_dir L g u.path c))
            (λ p _.
              guarded-Ends (ltb 1 (length srcs) && not p.0) dst r
                (send_sources L g clock p.0 u srcs r p.1) h)

  copy-Ends :
      (g : Setting) (dial : Dial) (clock : Clock) (operands : List Bytes) (r : Ran L)
      → Unchanged r
      → Returns Ends (copy_operands L g dial clock operands r)
  unfolding download
  copy-Ends g dial clock [] r h = using-Ends r h
  copy-Ends g dial clock (dst ∷ []) r h = using-Ends r h
  copy-Ends g dial clock (dst ∷ src ∷ srcs) r h = parsed (uri_parse dst)
    where
      parsed :
          (u : Option Uri)
          → Returns Ends (copy_parsed L g dial clock dst (reverse (src ∷ srcs)) r u)
      parsed none = inr (inl refl, h, complaint-Ends dst r h)
      parsed (some u) =
          elim u.scheme
            as (λ z. Returns Ends (elim z [
              | file ↦ download L g dial clock dst (reverse (src ∷ srcs)) r
              | cifs ↦ upload L g dial clock dst u (reverse (src ∷ srcs)) r
            ])) [
              | file ↦
                  guarded-Ends
                    (ltb 1 (length (reverse (src ∷ srcs))) && not (is_local_dir L dst r.work)) dst r
                    (fetch_sources L g dial clock (is_local_dir L dst r.work) dst
                      (reverse (src ∷ srcs)) r)
                    h
              | cifs ↦ upload-Ends g dial clock dst u (reverse (src ∷ srcs)) r h
            ]

  Listed-Ends :
      (r : Ran L) (e : Ended)
      → Unchanged r
      → Listed e
      → Returns Ends (exits L e.status (record r { shown = r.shown ++ e.shown }))
  Listed-Ends r e h (inl z) = inl z
  Listed-Ends r e h (inr (z, s)) = inr (inr z, h, Reports-append r.shown e.shown s)

  list-Ends :
      (g : Setting) (dial : Dial) (o : Options) (operands : List Bytes) (r : Ran L)
      → Unchanged r
      → Returns Ends (list_operands L g dial o operands r)
  list-Ends g dial o [] r h = using-Ends r h
  list-Ends g dial o (src ∷ srcs) r h =
      >>=-Returns Listed Ends (list_all g dial o (src ∷ srcs)) _
        (list_all-Listed g dial o (src ∷ srcs)) (λ e l. Listed-Ends r e h l)

  flags-Ends :
      (g : Setting) (dial : Dial) (clock : Clock) (operands : List Bytes) (r : Ran L)
      (f : Option Flags)
      → Unchanged r
      → Returns Ends (with_flags L g dial clock operands r f)
  flags-Ends g dial clock operands r none h = inl refl
  flags-Ends g dial clock operands r (some f) h =
      elim f.lists
        as (λ b. Returns Ends (
          if b
          then list_operands L g dial f.options operands (with_limit L f r)
          else copy_operands L g dial clock (reverse operands) (with_limit L f r))) [
            | true ↦ list-Ends g dial f.options operands (with_limit L f r) h
            | false ↦ copy-Ends g dial clock (reverse operands) (with_limit L f r) h
          ]

  opts-Ends :
      (g : Setting) (dial : Dial) (clock : Clock) (now : ℕ) (name : Bytes) (opts : List Opt)
      (operands : List Bytes)
      → Returns Ends (
          read_opts opts (first_flags L name)
          >>= with_flags L g dial clock operands (first_ran L now d))
  opts-Ends g dial clock now name opts operands =
      >>=-Returns (λ f. Unit) Ends (read_opts opts (first_flags L name))
        (with_flags L g dial clock operands (first_ran L now d))
        (anything (read_opts opts (first_flags L name)))
        (λ f _. flags-Ends g dial clock operands (first_ran L now d) f refl)

-- A run of cifscp that returns has one of the statuses 0, 2 and -1. If it is not 0, then the disk is
-- as it was before the run, and the last line that was printed is a complaint or the usage.
pub program_main-Ends :
    (L : Local) (g : Setting) (dial : Dial) (clock : Clock) (now : ℕ) (name : Bytes)
    (opts : List Opt) (operands : List Bytes) (d : L.Disk)
    → Returns (Ends L d) (program_main L g dial clock now name opts operands d)
unfolding program_main
program_main-Ends L g dial clock now name [] [] d = inl refl
program_main-Ends L g dial clock now name (o ∷ opts) operands d =
    opts-Ends L d g dial clock now name (o ∷ opts) operands
program_main-Ends L g dial clock now name [] (src ∷ srcs) d =
    opts-Ends L d g dial clock now name [] (src ∷ srcs)
