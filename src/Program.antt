-- ===== src/Program.antt =====
-- cifscp.c: options, connections, and the listings of `main`. `getopt` has parsed the command line:
-- its options and the operands behind them are arguments, and so is what opens a socket. What is
-- printed is a list of lines, without their formats.
pub mod Copies
pub mod Confined
pub mod Main
pub mod Status
use cifscp.Base.{
  ℕ, zero, suc, ◌+◌, ◌-◌, ◌*◌, ◌/◌, ◌%◌, ◌^◌, ◌≤◌, ◌<◌, min, ◌≡◌, refl, sym, ap, ◌∙◌, ◌≢◌, ◌↔◌, ◌⊎◌,
  inl, inr, Bool, true, false, not, ◌&&◌, ◌||◌, Option, none, some, List, [], ◌∷◌, ◌++◌, map, arith,
  ltb, leb, ◌==◌, if◌then◌else◌, ltb→lt, lt→ltb, ==_iff, Bool-cases, Option-cases, length, take,
  drop, replicate, length-append, length-take, length-drop, take-append-drop, take-add, take-take,
  take_self, append-split, append-cancel, take-all, drop-all, length-map, length-replicate,
}
use cifscp.Base.Strings.{Bytes, codes}
use cifscp.Cstring.{ℤ, pos, same_string}
use cifscp.Cstring.Search.{has}
use cifscp.Flow.{Flow, flow_reset}
use cifscp.Human.{decode_hsize}
use cifscp.Uri.{Scheme, file, cifs, Uri, uri_parse}
use cifscp.Connect.{Conn, Outcome, done, refused, fault, no_end, and_then}
use cifscp.Proto.{as_int}
use cifscp.Proto.Split.{cifs_connect}
use cifscp.Rap.{NodeType, share, server, domain, Node, scannode}
use cifscp.Find.{Dirent, is_directory}
use cifscp.Find.Calls.{cifs_mask}
use cifscp.Walk.{
  Setting, Line, heading, listed, complaint, Options, each_entry, closed_with, list_dir,
}

-- What `main` prints: the lines of a listing, and nodes, usage and blank lines.
pub data Shown : Type 0 where
  line : Line → Shown
  node : Node → Shown
  blank : Shown
  usage : Shown
  not_local : Bytes → Shown

-- A part of `main` that goes on with a value, or does not: a step through NULL or outside a block, or
-- a loop without end.
pub data Reply (A : Type 0) : Type 0 where
  reply : A → Reply A
  faulty : Reply A
  endless : Reply A

infixl 5 ◌>>=◌
abbrev pub ◌>>=◌ : {A B : Type 0} → Reply A → (A → Reply B) → Reply B
reply a >>= f = f a
faulty >>= f = faulty
endless >>= f = endless

-- What a call on a connection comes to: `none` is an error.
abbrev pub called : {A : Type 0} → Outcome A → Reply (Option A)
called (done a c) = reply (some a)
called (refused w c) = reply none
called fault = faulty
called no_end = endless

-- `cifs_resolve`, `cifs_connect_sock` and `cifs_connect_new`: address, port and host.
abbrev pub Dial : Type 0
Dial = Option Bytes → ℤ → Option Bytes → Option Conn

abbrev dialled : Outcome Unit → Reply (Option Conn)
dialled (done u c) = reply (some c)
dialled (refused w c) = reply none
dialled fault = faulty
dialled no_end = endless

-- `addr` falls back on the host.
abbrev address : Uri → Option Bytes
address u = elim u.addr [ none ↦ u.host | some a ↦ some a ]

-- `cifs_connect` to the place of an address.
unfoldable pub connect_uri : Setting → Dial → Uri → Reply (Option Conn)
unfolding cifs_connect
connect_uri g dial u = elim (dial (address u) u.port u.host) [
  | none ↦ reply none
  | some c ↦ dialled (cifs_connect g.fuel g.pages u.tree c)
]

-- `cifs_list_node`: an error of `cifs_scannode` is printed, and the next list is asked for.
abbrev or_complaint :
    Bytes → (List Node → Conn → Outcome (List Shown)) → Outcome (List Node) → Outcome (List Shown)
or_complaint what next (done ns c) = next ns c
or_complaint what next (refused w c) = done (line (complaint what) ∷ []) c
or_complaint what next fault = fault
or_complaint what next no_end = no_end

abbrev printed : List Node → Conn → Outcome (List Shown)
printed ns c = done (map node ns) c

unfoldable pub list_servers : Setting → Bytes → Conn → Outcome (List Shown)
list_servers g name c =
    or_complaint (codes "list servers") printed
      (scannode g.fuel g.pages g.page server name g.trans c)

unfoldable pub list_domains : Setting → List Node → Conn → Outcome (List Shown)
unfolding list_servers
list_domains g [] c = done [] c
list_domains g (d ∷ ds) c = and_then (list_servers g d.name c) (λ ls c1.
    and_then (list_domains g ds c1)
      (λ rest c2. done ((line (heading d.name) ∷ ls) ++ (blank ∷ rest)) c2))

abbrev all_domains : Setting → List Node → Conn → Outcome (List Shown)
all_domains g ds c = and_then (list_domains g ds c) (λ ls c'. done (map node ds ++ (blank ∷ ls)) c')

unfoldable pub list_node : Setting → Conn → Outcome (List Shown)
unfolding list_domains
list_node g c =
    and_then
      (or_complaint (codes "list domains") (all_domains g)
        (scannode g.fuel g.pages g.page domain [] g.trans c))
      (λ ls c1.
        and_then
          (or_complaint (codes "list shares") printed
            (scannode g.fuel g.pages g.page share [] g.trans c1))
          (λ ss c2. done (ls ++ ss) c2))

-- The lines of a listing behind others.
abbrev lines_of : Outcome (List Line) → Outcome (List Shown)
lines_of r = and_then r (λ ls c. done (map line ls) c)

-- One match of a mask.
abbrev show_match : Setting → Options → Dirent → List Shown → Conn → Outcome (List Shown)
show_match g o e shown c =
    if is_directory e.st
    then and_then (lines_of (list_dir g o g.fuel e.path [] c)) (λ ls c'. done (shown ++ ls) c')
    else done (shown ++ (line (listed e) ∷ [])) c

abbrev list_masked : Setting → Options → Uri → Conn → Outcome (List Shown)
list_masked g o u c = elim (cifs_mask g.fuel g.pages u.dir (some u.name) g.trans g.area c) [
  | done d c1 ↦ and_then (each_entry g (show_match g o) g.fuel d [] c1) (closed_with g)
  | refused w c1 ↦ done (line (complaint u.path) ∷ []) c1
  | fault ↦ fault
  | no_end ↦ no_end
]

-- What is listed for one address: the matches of a mask, a directory, or the nodes of a host.
abbrev pub listing : Setting → Options → Uri → Option Bytes → Conn → Outcome (List Shown)
listing g o u none c = list_node g c
listing g o u (some tree) c =
    if has b'*' u.name || has b'?' u.name
    then list_masked g o u c
    else lines_of (list_dir g o g.fuel u.path [] c)

-- How `main` ends: its status, and what it has printed.
pub record Ended : Type 0 where
  pub status : ℕ
  pub shown : List Shown

abbrev pub printing : List Shown → Ended → Ended
printing ls e = record e { shown = ls ++ e.shown }

abbrev pub or_none : Option (List Shown) → List Shown
or_none none = []
or_none (some ls) = ls

-- `-1` as a status.
abbrev pub minus_one : ℕ
minus_one = 255

-- The loop of the listing: a host that cannot be reached ends it.
abbrev pub list_connected :
    Setting → Options → Bytes → Uri → Reply Ended → Option Conn → Reply Ended
list_connected g o src u rest none =
    reply (record { status = minus_one; shown = line (complaint src) ∷ [] })
list_connected g o src u rest (some c) =
    called (listing g o u u.tree c) >>= λ ls. rest >>= λ e. reply (printing (or_none ls) e)

abbrev pub list_parsed : Setting → Dial → Options → Bytes → Reply Ended → Option Uri → Reply Ended
list_parsed g dial o src rest none = faulty
list_parsed g dial o src rest (some u) = elim u.scheme [
  | file ↦ rest
  | cifs ↦ connect_uri g dial u >>= list_connected g o src u rest
]

unfoldable pub list_all : Setting → Dial → Options → List Bytes → Reply Ended
unfolding uri_parse connect_uri list_node
list_all g dial o [] = reply (record { status = 0; shown = [] })
list_all g dial o (src ∷ srcs) = list_parsed g dial o src (list_all g dial o srcs) (uri_parse src)

-- The options in order. An argument of `-s` has what lies behind it in memory.
pub data Opt : Type 0 where
  verbose list recursive dirsize help : Opt
  speed : Bytes → Bytes → Opt

pub record Flags : Type 0 where
  pub lists : Bool
  pub options : Options
  pub limit : ℤ

-- A size as an `int`.
abbrev limit_of : ℕ → ℤ
limit_of n = as_int (n % 4294967296)

-- The loop over the options; `none` is `usage` and the status 0.
abbrev limit_read : (Flags → Reply (Option Flags)) → Flags → Option ℕ → Reply (Option Flags)
limit_read next f none = faulty
limit_read next f (some n) = next (record f { limit = limit_of n })

unfoldable pub read_opts : List Opt → Flags → Reply (Option Flags)
unfolding decode_hsize
read_opts [] f = reply (some f)
read_opts (verbose ∷ os) f = read_opts os f
read_opts (list ∷ os) f = read_opts os (record f { lists = true })
read_opts (recursive ∷ os) f =
    read_opts os (record f { options = record (f.options) { recursive = true } })
read_opts (dirsize ∷ os) f =
    read_opts os (record f { lists = true; options = record (f.options) { dirsize = true } })
read_opts (help ∷ os) f = reply none
read_opts (speed s behind ∷ os) f = limit_read (read_opts os) f (decode_hsize s behind)
