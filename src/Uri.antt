-- ===== src/Uri.antt =====
-- uri.c: `cifs_uri_unescape` and `cifs_uri_parse`. A string field of `cifs_uri_s` that stays NULL is
-- `none`.
pub mod Unescape
pub mod Text
pub mod Parts
use cifscp.Base.{
  ℕ, zero, suc, ◌+◌, ◌-◌, ◌*◌, ◌/◌, ◌%◌, ◌^◌, ◌≤◌, ◌<◌, min, ◌≡◌, refl, sym, ap, ◌∙◌, ◌≢◌, ◌↔◌, ◌⊎◌,
  inl, inr, Bool, true, false, not, ◌&&◌, ◌||◌, Option, none, some, List, [], ◌∷◌, ◌++◌, map, arith,
  ltb, leb, ◌==◌, if◌then◌else◌, ltb→lt, lt→ltb, ==_iff, Bool-cases, Option-cases, length, take,
  drop, replicate, length-append, length-take, length-drop, take-append-drop, take-add,
  append-split, append-cancel, take-all, drop-all, length-map, length-replicate,
}
use cifscp.Base.Strings.{Bytes, codes}
use cifscp.Cstring.{ℤ, pos, c_str, strchr, strrchr, same_start, starts_with, strstr, atoi}

-- `HEX_TO_INT`; any other byte counts as 0.
unfoldable pub hex_to_int : ℕ → ℕ
hex_to_int c =
    if leb b'0' c && leb c b'9'
    then c - b'0'
    else if leb b'A' c && leb c b'F'
    then c - b'A' + 10
    else if leb b'a' c && leb c b'f'
    then c - b'a' + 10
    else 0

-- The loop of `cifs_uri_unescape`: a `%` with less than two bytes behind it is dropped.
unfoldable pub unescape : Bytes → Bytes
unfolding hex_to_int
unescape [] = []
unescape (c ∷ []) = if c == b'%' then [] else c ∷ []
unescape (c ∷ a ∷ []) = let rest = unescape (a ∷ []) in if c == b'%' then rest else c ∷ rest
unescape (c ∷ a ∷ b ∷ cs) = elim (c == b'%') [
  | true ↦ (hex_to_int a * 16 + hex_to_int b) ∷ unescape cs
  | false ↦ c ∷ unescape (a ∷ b ∷ cs)
]

pub data Scheme : Type 0 where
  file cifs : Scheme

pub record Uri : Type 0 where
  pub scheme : Scheme
  pub host : Option Bytes
  pub user : Option Bytes
  pub password : Option Bytes
  pub addr : Option Bytes
  pub port : ℤ
  pub tree : Option Bytes
  pub path : Bytes
  pub dir : Bytes
  pub name : Bytes

abbrev slash : ℕ → ℕ
slash c = if c == b'\\' then b'/' else c

-- The scheme, and what stands behind it (`none` is the error).
unfoldable pub scheme_named : Bytes → Bytes → Option (Scheme × Bytes)
scheme_named before after =
    let n = length before in
    if same_start before (codes "file") n
    then some (file, after)
    else if same_start before (codes "cifs") n || same_start before (codes "smb") n
    then some (cifs, after)
    else none

unfoldable pub parse_scheme : Bytes → Option (Scheme × Bytes)
unfolding scheme_named
parse_scheme buf =
    if starts_with (b'\\' ∷ b'\\' ∷ []) buf
    then some (cifs, drop 2 (map slash buf))
    else elim (strstr buf (codes "://")) [
      | none ↦ some (file, buf)
      | some (before, after) ↦ scheme_named before after
    ]

-- `calloc`.
abbrev pub blank : Scheme → Uri
blank s = record {
  scheme = s;
  host = none;
  user = none;
  password = none;
  addr = none;
  port = pos 0;
  tree = none;
  path = [];
  dir = [];
  name = [];
}

unfoldable pub parse_user : Bytes → Uri → Uri
parse_user info u = elim (strchr info b':') [
  | none ↦ record u { user = some info }
  | some (user, password) ↦ record u { user = some user; password = some password }
]

-- `host[:[addr:]port]`: `co` is the first colon and `at` the last, `tail` what follows the first.
unfoldable pub parse_port : Bytes → Uri → Uri
parse_port tail u = elim (strrchr tail b':') [
  | none ↦ record u { port = atoi tail }
  | some (addr, port) ↦ record u { addr = some addr; port = atoi port }
]

unfoldable pub parse_host : Bytes → Uri → Uri
unfolding parse_port
parse_host s u = elim (strchr s b':') [
  | none ↦ record u { host = some s }
  | some (host, tail) ↦ parse_port tail (record u { host = some host })
]

-- `[user[:password]@]host[:[addr:]port]`.
unfoldable pub parse_authority : Bytes → Uri → Uri
unfolding parse_user parse_host
parse_authority s u = elim (strchr s b'@') [
  | none ↦ parse_host s u
  | some (info, rest) ↦ parse_host rest (parse_user info u)
]

-- The path, and its last component.
unfoldable pub parse_path : Bytes → Uri → Uri
parse_path a u = elim (strrchr a b'/') [
  | none ↦ record u { path = a; name = a; dir = [] }
  | some (before, after) ↦ record u { path = a; name = after; dir = before }
]

unfoldable pub parse_tree : Bytes → Uri → Uri
unfolding parse_path
parse_tree [] u = parse_path [] u
parse_tree (c ∷ cs) u = elim (strchr (c ∷ cs) b'/') [
  | none ↦ parse_path [] (record u { tree = some (c ∷ cs) })
  | some (before, after) ↦ parse_path after (record u { tree = some before })
]

unfoldable pub parse_rest : Scheme → Bytes → Uri
unfolding parse_authority parse_tree parse_path
parse_rest file a = parse_path a (blank file)
parse_rest cifs a = elim (strchr a b'/') [
  | none ↦ parse_tree [] (parse_authority a (blank cifs))
  | some (before, after) ↦ parse_tree after (parse_authority before (blank cifs))
]

abbrev pub parsed : Option (Scheme × Bytes) → Option Uri
parsed none = none
parsed (some (scheme, a)) = some (parse_rest scheme a)

-- `cifs_uri_parse`; `none` is NULL.
unfoldable pub uri_parse : Bytes → Option Uri
unfolding unescape parse_scheme parse_rest
uri_parse str = parsed (parse_scheme (c_str (unescape str)))
