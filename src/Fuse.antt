-- ===== src/Fuse.antt =====
-- fusecifs.c: the path of a file system in user space, and the lists of hosts and shares that it
-- keeps. The file is written against an earlier library, some of whose calls are gone, so the
-- library is an interface here. A pointer to a host or a share is its place in its list.
pub mod Places
pub mod Interface
pub mod Stats
pub mod Calls
pub mod Paths
pub mod Reading
pub mod Serve
pub mod Names
pub mod Hosts
pub mod Kept
pub mod Keeping
pub mod Order
use cifscp.Base.{
  ℕ, zero, suc, ◌+◌, ◌-◌, ◌*◌, ◌/◌, ◌%◌, ◌^◌, ◌≤◌, ◌<◌, min, ◌≡◌, refl, sym, ap, ◌∙◌, ◌≢◌, ◌↔◌, ◌⊎◌,
  inl, inr, Bool, true, false, not, ◌&&◌, ◌||◌, Option, none, some, List, [], ◌∷◌, ◌++◌, map, arith,
  ltb, leb, ◌==◌, if◌then◌else◌, ltb→lt, lt→ltb, ==_iff, Bool-cases, Option-cases, length, take,
  drop, replicate, length-append, length-take, length-drop, take-append-drop, take-add, take-take,
  take_self, append-split, append-cancel, take-all, drop-all, length-map, length-replicate,
}
use cifscp.Base.Strings.{Bytes, codes}
use cifscp.Cstring.{same_string}
use Places.{Place, whole, find, found_name, found_start}
use Interface.{Library}

-- What `strspn(s, "/")` steps over, and what `strcspn(s, "/")` cuts off.
unfoldable pub past_slashes : Bytes → Bytes
past_slashes [] = []
past_slashes (c ∷ cs) = if c == b'/' then past_slashes cs else c ∷ cs

unfoldable pub component : Bytes → Bytes × Bytes
component [] = ([], [])
component (c ∷ cs) =
    let rest = component cs in if c == b'/' then ([], c ∷ cs) else (c ∷ rest.0, rest.1)

-- `fusecifs_path_s`: NULL is `none`, and the text of a pointer with a length is its bytes.
pub record MountPath : Type 0 where
  pub host : Option Bytes
  pub share : Option Bytes
  pub path : Option Bytes

-- `fusecifs_parse_path`.
unfoldable pub split_share : Bytes → Bytes → MountPath
unfolding component
split_share host [] = record { host = some host; share = none; path = none }
split_share host (c ∷ cs) =
    let (share, path) = component (c ∷ cs) in
    record { host = some host; share = some share; path = some path }

unfoldable pub split_host : Bytes → MountPath
unfolding component past_slashes split_share
split_host [] = record { host = none; share = none; path = none }
split_host (c ∷ cs) = let (host, rest) = component (c ∷ cs) in split_share host (past_slashes rest)

unfoldable pub split_path : Bytes → MountPath
unfolding past_slashes split_host
split_path path = split_host (past_slashes path)

-- What `strncmp` and `strndup` make of a pointer that is NULL with the length 0.
abbrev pub text : Option Bytes → Bytes
text none = []
text (some s) = s

module _ (L : Library) where
  open L use {World, Handle}

  -- `fusecifs_share_s`: a share that is only known by name has the tid -1.
  pub record Share : Type 0 where
    pub name : Bytes
    pub tid : Option ℕ

  -- `fusecifs_host_s`.
  pub record Host : Type 0 where
    pub name : Bytes
    pub conn : Option Handle
    pub shares : List Share

  -- The list of hosts, and all that lies behind the library.
  pub record Fuse : Type 0 where
    pub hosts : List Host
    pub world : World

  -- `fusecifs_host_find` and `fusecifs_share_find` compare no further than the text of the path
  -- goes.
  unfoldable pub host_find : Bytes → List Host → Option (Place Host)
  unfolding find found_start
  host_find s = find (λ h. found_start s h.name)

  unfoldable pub share_find : Bytes → List Share → Option (Place Share)
  unfolding find found_start
  share_find s = find (λ h. found_start s h.name)

  abbrev pub with_host : Fuse → Place Host → Fuse
  with_host f p = record f { hosts = whole p }

  -- A connection for a host that has none: one in the list, or a new one.
  abbrev pub Reached : Type 0
  Reached = Option (Place Host × Handle) × Fuse

  abbrev first_of_all : Host → List Host → Place Host
  first_of_all h hs = record { before = []; here = h; after = hs }

  unfoldable pub host_connected : Bytes → Option (Place Host) → Fuse → Option Handle → Reached
  host_connected s p f none = (none, f)
  host_connected s none f (some k) =
      let p = first_of_all (record { name = s; conn = some k; shares = [] }) f.hosts in
      (some (p, k), with_host f p)
  host_connected s (some p) f (some k) =
      let p' = record p { here = record (p.here) { conn = some k } } in
      (some (p', k), with_host f p')

  unfoldable pub host_connecting : Bytes → Option (Place Host) → Fuse → Reached
  unfolding host_connected
  host_connecting s p f =
      let (k, w) = L.connect s f.world in host_connected s p (record f { world = w }) k

  abbrev pub known : Place Host → Fuse → Reached → Option Handle → Reached
  known p f other none = other
  known p f other (some k) = (some (p, k), f)

  unfoldable pub host_found : Bytes → Fuse → Option (Place Host) → Reached
  unfolding host_connecting
  host_found s f none = host_connecting s none f
  host_found s f (some p) = known p f (host_connecting s (some p) f) p.here.conn

  -- `fusecifs_connect_host`.
  unfoldable pub connect_host : Bytes → Fuse → Reached
  unfolding host_find host_found
  connect_host s f = host_found s f (host_find s f.hosts)

  -- `fusecifs_connect_share` on the host at a place, whose connection is `k`: whether a share was
  -- returned, and where the host is now.
  abbrev pub Switched : Type 0
  Switched = Bool × Place Host × Fuse

  abbrev pub with_shares : Place Host → List Share → Place Host
  with_shares p ss = record p { here = record (p.here) { shares = ss } }

  unfoldable pub share_connected :
      Bytes → Option (Place Share) → Place Host → Fuse → Option ℕ → Switched
  share_connected s q p f none = (false, p, f)
  share_connected s none p f (some tid) =
      let p' = with_shares p (record { name = s; tid = some tid } ∷ p.here.shares) in
      (true, p', with_host f p')
  share_connected s (some q) p f (some tid) =
      let p' = with_shares p (whole (record q { here = record (q.here) { tid = some tid } })) in
      (true, p', with_host f p')

  unfoldable pub share_connecting :
      Bytes → Option (Place Share) → Place Host → Handle → Fuse → Switched
  unfolding share_connected
  share_connecting s q p k f =
      let (tid, w) = L.tree_connect k s f.world in
      share_connected s q p (record f { world = w }) tid

  abbrev pub switched : Place Host → Handle → Fuse → Switched → Option ℕ → Switched
  switched p k f other none = other
  switched p k f other (some tid) = (true, p, record f { world = L.tree_switch k tid f.world })

  unfoldable pub share_found : Bytes → Place Host → Handle → Fuse → Option (Place Share) → Switched
  unfolding share_connecting
  share_found s p k f none = share_connecting s none p k f
  share_found s p k f (some q) = switched p k f (share_connecting s (some q) p k f) q.here.tid

  unfoldable pub connect_share : Bytes → Place Host → Handle → Fuse → Switched
  unfolding share_find share_found
  connect_share s p k f = share_found s p k f (share_find s p.here.shares)

  -- The names of an enumeration that are new: `fusecifs_list_share`'s loop, on the shares of a host,
  -- and `fusecifs_list_host`'s, which compares whole names.
  unfoldable pub add_share : Bytes → List Share → List Share
  unfolding share_find
  add_share s ss = elim (share_find s ss) [
    | none ↦ record { name = s; tid = none } ∷ ss
    | some q ↦ ss
  ]

  unfoldable pub add_shares : List Bytes → List Share → List Share
  unfolding add_share
  add_shares [] ss = ss
  add_shares (s ∷ names) ss = add_shares names (add_share s ss)

  unfoldable pub add_host : Bytes → List Host → List Host
  unfolding find found_name
  add_host s hs = elim (find (λ h. found_name s h.name) hs) [
    | none ↦ record { name = s; conn = none; shares = [] } ∷ hs
    | some q ↦ hs
  ]

  unfoldable pub add_hosts : List Bytes → List Host → List Host
  unfolding add_host
  add_hosts [] hs = hs
  add_hosts (s ∷ names) hs = add_hosts names (add_host s hs)
