-- ===== src/Fuse/Order.antt =====
-- Whatever FUSE calls, the lists stay in order.
use cifscp.Base.{ℕ, Option, none, some, List, [], ◌∷◌}
use cifscp.Base.Strings.{Bytes, codes}
use cifscp.Fuse.{split_path, Fuse}
use cifscp.Fuse.Interface.{Library}
use cifscp.Fuse.Calls.{
  Served, answer, failed, crash, endless, with_world, hosts_listed, server_reached, list_host,
  getattr, fuse_readdir, open_at, fuse_open, fuse_release, read_loop, fuse_read,
}
use cifscp.Fuse.Serve.{
  FuseCall, getattrs, readdirs, opens, releases, reads, left, behind, handle, handle_all, fuse_main,
}
use cifscp.Fuse.Hosts.{IsFuse, world-IsFuse}
use cifscp.Fuse.Kept.{add_hosts-Kept}
use cifscp.Fuse.Keeping.{
  Keeps, stat_parts-Keeps, shown_at-Keeps, connect-Keeps, open_at-Keeps, read_loop-Keeps,
}

module _ (L : Library) where
  -- The lists behind a call.
  abbrev pub LeftKept : Option (Fuse L) → Type 0
  LeftKept none = Unit
  LeftKept (some f) = IsFuse L f

  left-Kept : {A : Type 0} (r : Served L A) → Keeps L r → LeftKept (left L r)
  left-Kept (answer a f) v = v
  left-Kept (failed e f) v = v
  left-Kept crash v = tt
  left-Kept endless v = tt

  handle-Kept : (fuel : ℕ) (c : FuseCall) (f : Fuse L) → IsFuse L f → LeftKept (handle L fuel c f)
  unfolding handle
  handle-Kept fuel (getattrs path) f v =
      left-Kept (getattr L path f)
        (let p = split_path path in stat_parts-Keeps L p p.host p.share p.path f v)
  handle-Kept fuel (readdirs takes path) f v =
      left-Kept (fuse_readdir L takes fuel path f)
        (let p = split_path path in shown_at-Keeps L takes fuel p p.host p.share f v)
  handle-Kept fuel (opens path flags) f v = left-Kept (fuse_open L path flags f) (
      let p = split_path path in
      connect-Keeps L p (open_at L flags p.path) f v (open_at-Keeps L flags p.path))
  handle-Kept fuel (releases path fh) f v = left-Kept (fuse_release L path fh f) (
      connect-Keeps L (split_path path)
        (λ k f'. answer 0 (with_world L f' (L.close_file k fh f'.world))) f v
        (λ k f' v'. world-IsFuse L f' (L.close_file k fh f'.world) v'))
  handle-Kept fuel (reads path fh size off) f v = left-Kept (fuse_read L fuel path fh size off f) (
      connect-Keeps L (split_path path) (λ k f'. read_loop L k fh fuel f' [] size off f'.world) f v
        (λ k f' v'. read_loop-Keeps L k fh fuel f' [] size off f'.world v'))

  handle_all-Kept :
      (fuel : ℕ) (cs : List FuseCall) (f : Fuse L) → IsFuse L f → LeftKept (handle_all L fuel cs f)
  unfolding handle_all
  handle_all-Kept fuel [] f v = v
  handle_all-Kept fuel (c ∷ cs) f v =
      next (handle L fuel c f) (handle-Kept fuel c f v) (handle_all-Kept fuel cs)
    where
      next :
          (r : Option (Fuse L))
          → LeftKept r
          → ((f' : Fuse L) → IsFuse L f' → LeftKept (handle_all L fuel cs f'))
          → LeftKept (elim r [ none ↦ none | some f' ↦ handle_all L fuel cs f' ])
      next none h ih = tt
      next (some f') h ih = ih f' h

  hosts_listed-Keeps :
      (k : L.Handle) (f : Fuse L) (r : Option (List Bytes) × L.World)
      → IsFuse L f
      → Keeps L (hosts_listed L k f r)
  hosts_listed-Keeps k f (none, w) v = world-IsFuse L f (L.disconnect k w) v
  hosts_listed-Keeps k f (some names, w) v =
      let (distinct, in_order) =
        add_hosts-Kept L names f.hosts (v.hosts_distinct, v.hosts_in_order) in
      record { hosts_distinct = distinct; hosts_in_order = in_order }

  server-Keeps :
      (workgroup : Bytes) (f : Fuse L) (r : Option L.Handle × L.World)
      → IsFuse L f
      → Keeps L (server_reached L workgroup f r)
  server-Keeps workgroup f (none, w) v = world-IsFuse L f w v
  server-Keeps workgroup f (some k, w) v =
      hosts_listed-Keeps k (with_world L f w) (L.enum_server k workgroup w) (world-IsFuse L f w v)

  behind-Kept :
      (next : Fuse L → Option (Fuse L)) (r : Option (Fuse L))
      → LeftKept r
      → ((f : Fuse L) → IsFuse L f → LeftKept (next f))
      → LeftKept (behind L next r)
  behind-Kept next none h ih = tt
  behind-Kept next (some f) h ih = ih f h

-- From the start on, whatever the library answers and in whatever order FUSE calls, the lists stay
-- in order behind each call that returns: no two hosts have the same name, no two shares of a host
-- have the same name, and a host without a connection has no share that is connected.
pub fuse_main-IsFuse :
    (L : Library) (fuel : ℕ) (cs : List FuseCall) (w : L.World) → LeftKept L (fuse_main L fuel cs w)
unfolding fuse_main list_host
fuse_main-IsFuse L fuel cs w =
    let empty : Fuse L = record { hosts = []; world = w } in
    behind-Kept L (handle_all L fuel cs)
      (left L (list_host L (codes "server") (codes "HACKERS") empty))
      (left-Kept L (list_host L (codes "server") (codes "HACKERS") empty) (
        server-Keeps L (codes "HACKERS") empty (L.connect_tree (codes "server") (codes "IPC$") w)
          (record { hosts_distinct = tt; hosts_in_order = tt })))
      (handle_all-Kept L fuel cs)
