-- ===== src/Walk.antt =====
-- cifscp.c and cifs_spider.c: walks over directories. What is printed is a list of lines, each with
-- the values that its format takes; the formats themselves, and the
-- progress that `cifs_get_size_dir` shows, are not modelled. Walks run on fuel for
-- the depth, since a server may answer with directories without end.
pub mod Visits
pub mod Dump
use cifscp.Base.{
  ℕ, zero, suc, ◌+◌, ◌-◌, ◌*◌, ◌/◌, ◌%◌, ◌^◌, ◌≤◌, ◌<◌, min, ◌≡◌, refl, sym, ap, ◌∙◌, ◌≢◌, ◌↔◌, ◌⊎◌,
  inl, inr, Bool, true, false, not, ◌&&◌, ◌||◌, Option, none, some, List, [], ◌∷◌, ◌++◌, map, arith,
  ltb, leb, ◌==◌, if◌then◌else◌, ltb→lt, lt→ltb, ==_iff, Bool-cases, Option-cases, length, take,
  drop, replicate, length-append, length-take, length-drop, take-append-drop, take-add, take-take,
  take_self, append-split, append-cancel, take-all, drop-all, length-map, length-replicate,
}
use cifscp.Base.Strings.{Bytes}
use cifscp.Memory.{Mem}
use cifscp.Codepage.{Iconv}
use cifscp.Flow.{word64}
use cifscp.Transport.{Why}
use cifscp.Connect.{Conn, Outcome, done, refused, fault, no_end, and_then}
use cifscp.Transact.{Trans}
use cifscp.Proto.{Pages}
use cifscp.Proto.Files.{Stat}
use cifscp.Find.{Dir, Dirent, Next, entry, null, is_directory, readdir}
use cifscp.Find.Calls.{opendir, closedir, scandir}

-- What every call of a walk needs: fuel for loops and requests, the code pages, and what the blocks
-- of a new transaction and a new directory hold.
pub record Setting : Type 0 where
  pub fuel : ℕ
  pub pages : Pages
  pub page : Iconv
  pub trans : Trans
  pub area : Mem

-- `while ((e = cifs_readdir(d)))` with a body that changes a state.
abbrev pub visited :
    {S : Type 0}
    → (Dirent → S → Conn → Outcome S)
    → (Dir → S → Conn → Outcome (S × Dir))
    → Dir
    → S
    → Conn
    → Next
    → Outcome (S × Dir)
visited body next d s c (null w) = done (s, d) c
visited body next d s c (entry e) = and_then (body e s c) (next d)

unfoldable pub each_entry :
    {S : Type 0}
    → Setting
    → (Dirent → S → Conn → Outcome S)
    → ℕ
    → Dir
    → S
    → Conn
    → Outcome (S × Dir)
each_entry g body zero d s c = no_end
each_entry g body (suc turns) d s c =
    and_then (readdir g.fuel g.pages g.page g.fuel d c)
      (λ found c'. visited body (each_entry g body turns) found.0 s c' found.1)

-- The result of a call that is dropped: an error leaves the state as it was.
abbrev pub dropped : {S : Type 0} → S → Outcome S → Outcome S
dropped s (done s' c) = done s' c
dropped s (refused w c) = done s c
dropped s fault = fault
dropped s no_end = no_end

-- `cifs_closedir`, whose result is dropped, behind a walk.
abbrev pub closed_with : {S : Type 0} → Setting → (S × Dir) → Conn → Outcome S
closed_with g r c = and_then (dropped tt (closedir g.fuel r.1 c)) (λ _ c'. done r.0 c')

-- Open, walk, close.
unfoldable pub walk :
    {S : Type 0} → Setting → (Dirent → S → Conn → Outcome S) → Bytes → S → Conn → Outcome S
unfolding each_entry
walk g body path s c =
    and_then (opendir g.fuel g.pages path g.trans g.area c)
      (λ d c1. and_then (each_entry g body g.fuel d s c1) (closed_with g))

-- `cifs_get_size_dir`: what the files below a path come to, in 64 bits, added to `size`.
unfoldable pub size_dir : Setting → ℕ → Bytes → ℕ → Conn → Outcome ℕ
unfolding walk
size_dir g zero path size c = no_end
size_dir g (suc depth) path size c =
    walk g
      (λ e s c'.
        if is_directory e.st
        then dropped s (size_dir g depth e.path s c')
        else done ((s + e.st.file_size) % word64) c')
      path size c

-- `cifs_calc_size`: a directory gets the size of what is below it, on top of its own.
unfoldable pub calc_size : Setting → ℕ → Dirent → Conn → Outcome Dirent
unfolding size_dir
calc_size g depth e c =
    if is_directory e.st
    then and_then (dropped e.st.file_size (size_dir g depth e.path e.st.file_size c))
        (λ size c'. done (record e { st = record (e.st) { file_size = size } }) c')
    else done e c

-- A line that is printed: `path:`, an entry, a total, or an error for a path.
pub data Line : Type 0 where
  heading : Bytes → Line
  listed : Dirent → Line
  total : ℕ → Line
  complaint : Bytes → Line

-- `opt_recursive` and `opt_dirsize`.
pub record Options : Type 0 where
  pub recursive : Bool
  pub dirsize : Bool

-- The lines so far, and the sum.
abbrev Printed : Type 0
Printed = List Line × ℕ

abbrev with_size : Setting → ℕ → Options → Dirent → Conn → Outcome Dirent
with_size g depth o e c = if is_directory e.st && o.dirsize then calc_size g depth e c else done e c

unfoldable pub print_entry : Setting → ℕ → Options → Dirent → Printed → Conn → Outcome Printed
unfolding calc_size
print_entry g depth o e s c =
    and_then (with_size g depth o e c)
      (λ e' c'. done (s.0 ++ (listed e' ∷ []), (s.1 + e'.st.file_size) % word64) c')

-- The first loop of the recursive listing, over the list of `cifs_scandir`.
unfoldable pub print_entries :
    Setting → ℕ → Options → List Dirent → Printed → Conn → Outcome Printed
unfolding print_entry
print_entries g depth o [] s c = done s c
print_entries g depth o (e ∷ es) s c =
    and_then (print_entry g depth o e s c) (print_entries g depth o es)

-- The second loop: the directories in turn, whose errors are printed.
unfoldable pub list_below :
    (Bytes → List Line → Conn → Outcome (List Line))
    → List Dirent
    → List Line
    → Conn
    → Outcome (List Line)
list_below list [] lines c = done lines c
list_below list (e ∷ es) lines c =
    if is_directory e.st
    then and_then (list e.path lines c) (list_below list es)
    else list_below list es lines c

-- An error on opening is printed for the path.
abbrev complained : Bytes → List Line → Outcome (List Line) → Outcome (List Line)
complained path lines (done ls c) = done ls c
complained path lines (refused w c) = done (lines ++ (complaint path ∷ [])) c
complained path lines fault = fault
complained path lines no_end = no_end

-- `cifs_list_dir`: the lines that it adds.
abbrev list_flat : Setting → ℕ → Options → Bytes → List Line → Conn → Outcome (List Line)
list_flat g depth o path lines c =
    and_then (walk g (print_entry g depth o) path (lines ++ (heading path ∷ []), 0) c)
      (λ s c'. done (s.0 ++ (total s.1 ∷ [])) c')

abbrev list_deep :
    (Bytes → List Line → Conn → Outcome (List Line))
    → Setting
    → ℕ
    → Options
    → Bytes
    → List Line
    → Conn
    → Outcome (List Line)
list_deep list g depth o path lines c =
    and_then (scandir g.fuel g.pages g.page path g.trans g.area c) (λ es c1.
      and_then (print_entries g depth o es (lines ++ (heading path ∷ []), 0) c1)
        (λ s c2. list_below list es (s.0 ++ (total s.1 ∷ [])) c2))

unfoldable pub list_dir : Setting → Options → ℕ → Bytes → List Line → Conn → Outcome (List Line)
unfolding print_entries list_below walk
list_dir g o zero path lines c = no_end
list_dir g o (suc depth) path lines c = complained path lines (
    if o.recursive
    then list_deep (list_dir g o depth) g depth o path lines c
    else list_flat g depth o path lines c)

-- A line of cifs_spider.c: number, the number of the directory above, and the entry.
pub record Record : Type 0 where
  pub id : ℕ
  pub pid : ℕ
  pub file : Dirent

-- The next number, and its line.
abbrev pub numbered : ℕ → Dirent → ℕ × List Record → ℕ × List Record
numbered pid e r = (suc r.0, r.1 ++ (record { id = suc r.0; pid = pid; file = e } ∷ []))

-- `cifs_dump_dir`: `*id` and the lines; `deep` limits the depth.
unfoldable pub dump_dir :
    Setting → ℕ → Bytes → ℕ → ℕ × List Record → Conn → Outcome (ℕ × List Record)
unfolding walk
dump_dir g zero path pid s c = walk g (λ e r c'. done (numbered pid e r) c') path s c
dump_dir g (suc deep) path pid s c =
    walk g
      (λ e r c'.
        if is_directory e.st
        then dropped (numbered pid e r) (dump_dir g deep e.path (suc r.0) (numbered pid e r) c')
        else done (numbered pid e r) c')
      path s c
