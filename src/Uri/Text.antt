-- ===== src/Uri/Text.antt =====
-- The text of an address, from its parts.
use cifscp.Base.{◌≡◌, ◌≢◌, false, Option, none, some, [], ◌∷◌, ◌++◌}
use cifscp.Base.Strings.{Bytes, codes}
use cifscp.Cstring.{atoi}
use cifscp.Cstring.Search.{has}
use cifscp.Uri.{Uri, cifs, blank}

-- `user:password`, of which the password may be missing.
pub data User : Type 0 where
  user_only : Bytes → User
  with_password : Bytes → Bytes → User

-- What follows the host: nothing, a port, or an address and a port.
pub data Port : Type 0 where
  no_port : Port
  port_only : Bytes → Port
  addr_port : Bytes → Bytes → Port

-- The path within the share: its directory, if it has one, and the last component.
pub data Tail : Type 0 where
  in_root : Bytes → Tail
  in_dir : Bytes → Bytes → Tail

pub record Parts : Type 0 where
  pub user : Option User
  pub host : Bytes
  pub port : Port
  pub tree : Bytes
  pub tail : Tail

abbrev pub user_text : Option User → Bytes → Bytes
user_text none rest = rest
user_text (some (user_only u)) rest = u ++ (b'@' ∷ rest)
user_text (some (with_password u p)) rest = (u ++ (b':' ∷ p)) ++ (b'@' ∷ rest)

abbrev pub host_text : Bytes → Port → Bytes
host_text host no_port = host
host_text host (port_only p) = host ++ (b':' ∷ p)
host_text host (addr_port a p) = host ++ (b':' ∷ (a ++ (b':' ∷ p)))

abbrev pub tail_text : Tail → Bytes
tail_text (in_root n) = n
tail_text (in_dir d n) = d ++ (b'/' ∷ n)

-- `cifs://[user[:password]@]host[:[addr:]port]/tree/path`.
abbrev pub rest_text : Parts → Bytes
rest_text p =
    user_text p.user (host_text p.host p.port) ++ (b'/' ∷ (p.tree ++ (b'/' ∷ tail_text p.tail)))

abbrev pub uri_text : Parts → Bytes
uri_text p = codes "cifs://" ++ rest_text p

-- A component holds none of the bytes that end it.
abbrev pub Plain : Bytes → Bytes → Type 0
Plain [] s = Unit
Plain (c ∷ cs) s = (has c s ≡ false) × Plain cs s

abbrev pub UserPlain : Option User → Type 0
UserPlain none = Unit
UserPlain (some (user_only u)) = Plain (codes ":@/") u
UserPlain (some (with_password u p)) = Plain (codes ":@/") u × Plain (codes "@/") p

abbrev pub PortPlain : Port → Type 0
PortPlain no_port = Unit
PortPlain (port_only p) = Plain (codes ":@/") p
PortPlain (addr_port a p) = Plain (codes "@/") a × Plain (codes ":@/") p

abbrev pub TailPlain : Tail → Type 0
TailPlain (in_root n) = Plain (codes "/") n
TailPlain (in_dir d n) = Plain (codes "/") n

pub record IsParts (p : Parts) : Type 0 where
  pub user_plain : UserPlain p.user
  pub host_plain : Plain (codes ":@/") p.host
  pub port_plain : PortPlain p.port
  pub tree_plain : Plain (codes "/") p.tree
  pub tree_some : p.tree ≢ []
  pub tail_plain : TailPlain p.tail
  pub no_escape : has b'%' (uri_text p) ≡ false
  pub no_nul : has 0 (uri_text p) ≡ false

-- The record that the parts stand for.
abbrev pub with_user : Option User → Uri → Uri
with_user none u = u
with_user (some (user_only n)) u = record u { user = some n }
with_user (some (with_password n p)) u = record u { user = some n; password = some p }

abbrev pub with_port : Bytes → Port → Uri → Uri
with_port host no_port u = record u { host = some host }
with_port host (port_only p) u = record u { host = some host; port = atoi p }
with_port host (addr_port a p) u = record u { host = some host; addr = some a; port = atoi p }

abbrev pub with_tail : Tail → Uri → Uri
with_tail (in_root n) u = record u { path = n; dir = []; name = n }
with_tail (in_dir d n) u = record u { path = d ++ (b'/' ∷ n); dir = d; name = n }

abbrev pub parts_uri : Parts → Uri
parts_uri p =
    with_tail p.tail
      (record (with_port p.host p.port (with_user p.user (blank cifs))) { tree = some p.tree })
