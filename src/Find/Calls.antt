-- ===== src/Find/Calls.antt =====
-- libcifs/find.c: opening, closing and listing a directory, and asking for one file; and
-- libcifs/proto.c's `cifs_mkdir`, which asks too.
use cifscp.Base.{
  ℕ, zero, suc, ◌+◌, Option, none, some, List, [], ◌∷◌, ◌++◌, ltb, ◌==◌, if◌then◌else◌, length,
}
use cifscp.Base.Strings.{Bytes, codes}
use cifscp.Memory.{Mem, get16}
use cifscp.Codepage.{Iconv}
use cifscp.Packet.{enotdir, emlink}
use cifscp.Transport.{Why, code}
use cifscp.Connect.{Conn, Outcome, done, refused, fault, no_end, and_then, request}
use cifscp.Transact.{Trans, trans_request}
use cifscp.Proto.{Pages, with_request}
use cifscp.Proto.Files.{Stat, mkdir_draft}
use cifscp.Find.{
  Dir, Dirent, Next, entry, null, path_room, find_first_draft, find_close_draft, build_stat,
  is_directory, readdir,
}

-- `cifs_find_first_res_s` begins the parameters.
abbrev first_sid : Trans → ℕ
first_sid t = get16 t.param.mem t.param.buf.p

abbrev first_count : Trans → ℕ
first_count t = get16 t.param.mem (t.param.buf.p + 2)

abbrev first_end : Trans → ℕ
first_end t = get16 t.param.mem (t.param.buf.p + 4)

-- `cifs_mask`, with a new transaction `t` and a new block `area` for names.
unfoldable pub cifs_mask : ℕ → Pages → Bytes → Option Bytes → Trans → Mem → Conn → Outcome Dir
unfolding find_first_draft
cifs_mask fuel pages path mask t area c = with_request c (find_first_draft pages path mask c) (λ c1.
    and_then (trans_request fuel fuel t c1) (λ t' c2.
      if ltb path_room (length path + 2)
      then fault
      else done
          (record {
            trans = t';
            sid = first_sid t';
            end = first_end t';
            count = first_count t';
            base = path ++ (b'/' ∷ []);
            area = area;
          })
          c2))

unfoldable pub opendir : ℕ → Pages → Bytes → Trans → Mem → Conn → Outcome Dir
unfolding cifs_mask
opendir fuel pages path t area c = cifs_mask fuel pages path (some (codes "*")) t area c

unfoldable pub closedir : ℕ → Dir → Conn → Outcome Unit
unfolding find_close_draft
closedir fuel d c =
    if d.end == 0 then request fuel (record c { o = find_close_draft d.sid c.o }) else done tt c

-- Where the result of a request is dropped.
abbrev whatever : {A : Type 0} → Outcome Unit → (Conn → Outcome A) → Outcome A
whatever (done u c) f = f c
whatever (refused w c) f = f c
whatever fault f = fault
whatever no_end f = no_end

-- `cifs_stat`: a search that finds one file.
abbrev stat_found : ℕ → Trans → Conn → Outcome Stat
stat_found fuel t c =
    if first_count t == 1
    then done (build_stat t.data_block.mem t.data_block.buf.p) c
    else if first_end t == 0
    then whatever (request fuel (record c { o = find_close_draft (first_sid t) c.o }))
        (refused (code emlink))
    else refused (code emlink) c

unfoldable pub cifs_stat : ℕ → Pages → Bytes → Trans → Conn → Outcome Stat
unfolding find_first_draft find_close_draft build_stat
cifs_stat fuel pages path t c =
    with_request c (find_first_draft pages path none c)
      (λ c1. and_then (trans_request fuel fuel t c1) (stat_found fuel))

-- `cifs_mkdir`: a directory that is there already will do.
abbrev mkdir_looked : Why → Outcome Stat → Outcome Unit
mkdir_looked w (done st c) = if is_directory st then done tt c else refused (code enotdir) c
mkdir_looked w (refused _ c) = refused w c
mkdir_looked w fault = fault
mkdir_looked w no_end = no_end

abbrev mkdir_asked : ℕ → Pages → Bytes → Trans → Outcome Unit → Outcome Unit
mkdir_asked fuel pages path t (done u c) = done tt c
mkdir_asked fuel pages path t (refused w c) = mkdir_looked w (cifs_stat fuel pages path t c)
mkdir_asked fuel pages path t fault = fault
mkdir_asked fuel pages path t no_end = no_end

unfoldable pub mkdir : ℕ → Pages → Bytes → Trans → Conn → Outcome Unit
unfolding mkdir_draft cifs_stat
mkdir fuel pages path t c =
    with_request c (mkdir_draft pages path c)
      (λ c1. mkdir_asked fuel pages path t (request fuel c1))

-- The loop of `cifs_scandir`: every entry that `cifs_readdir` returns, in order, until it returns
-- NULL for whatever reason.
abbrev scanned :
    ℕ → (Dir → Conn → Outcome (List Dirent × Dir)) → Dir → Conn → Next → Outcome (List Dirent × Dir)
scanned fuel next d c (null w) = done ([], d) c
scanned fuel next d c (entry e) = and_then (next d c) (λ found c'. done (e ∷ found.0, found.1) c')

unfoldable pub scan_loop : ℕ → Pages → Iconv → ℕ → Dir → Conn → Outcome (List Dirent × Dir)
unfolding readdir
scan_loop fuel pages page zero d c = no_end
scan_loop fuel pages page (suc turns) d c =
    and_then (readdir fuel pages page fuel d c)
      (λ found c'. scanned fuel (scan_loop fuel pages page turns) found.0 c' found.1)

-- `cifs_scandir`; the result of closing is dropped.
unfoldable pub scandir : ℕ → Pages → Iconv → Bytes → Trans → Mem → Conn → Outcome (List Dirent)
unfolding opendir scan_loop closedir
scandir fuel pages page path t area c = and_then (opendir fuel pages path t area c) (λ d c1.
    and_then (scan_loop fuel pages page fuel d c1)
      (λ found c2. whatever (closedir fuel found.1 c2) (done found.0)))
