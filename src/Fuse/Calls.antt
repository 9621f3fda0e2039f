-- ===== src/Fuse/Calls.antt =====
-- fusecifs.c: the operations that the file system answers to, and the lists that it shows. A call
-- returns a value, or an error number with a minus sign; `crash` is a step through a NULL pointer.
use cifscp.Base.{
  ℕ, zero, suc, ◌+◌, ◌-◌, Bool, true, false, Option, none, some, List, [], ◌∷◌, ◌++◌, map, ◌==◌,
  if◌then◌else◌, length,
}
use cifscp.Base.Strings.{Bytes, codes}
use cifscp.Proto.Files.{Stat}
use cifscp.Fuse.{
  MountPath, split_path, text, Host, Fuse, with_host, Reached, host_find, connect_host, with_shares,
  connect_share, add_shares, add_hosts,
}
use cifscp.Fuse.Places.{Place}
use cifscp.Fuse.Interface.{Entry, Library}
use cifscp.Fuse.Stats.{FuseStat, make_stat, plain_dir, Filler, Filled, fill, eio}

module _ (L : Library) where
  open L use {World, Handle, Dir}

  pub data Served (A : Type 0) : Type 0 where
    answer : A → Fuse L → Served A
    failed : ℕ → Fuse L → Served A
    crash : Served A
    endless : Served A

  abbrev pub with_world : Fuse L → World → Fuse L
  with_world f w = record f { world = w }

  -- `return -errno`.
  abbrev pub with_errno : {A : Type 0} → Fuse L → Served A
  with_errno f = failed (L.errno f.world) f

  -- `fusecifs_connect` goes on with a host that is NULL, and does not look at the share that it
  -- gets.
  abbrev pub host_reached :
      {A : Type 0} → Bytes → (Handle → Fuse L → Served A) → Reached L → Served A
  host_reached share next (none, f) = crash
  host_reached share next (some (p, k), f) = next k (connect_share L share p k f).2

  unfoldable pub fuse_connect :
      {A : Type 0} → MountPath → (Handle → Fuse L → Served A) → Fuse L → Served A
  unfolding connect_host connect_share
  fuse_connect p next f = host_reached (text p.share) next (connect_host L (text p.host) f)

  -- `fusecifs_list_share`: 0 or an error.
  abbrev pub listed : Place (Host L) → Fuse L → Option (List Bytes) × World → Served Unit
  listed p f (none, w) = with_errno (with_world f w)
  listed p f (some names, w) =
      answer tt (with_host L (with_world f w) (with_shares L p (add_shares L names p.here.shares)))

  abbrev pub share_listed : Handle → Bool × Place (Host L) × Fuse L → Served Unit
  share_listed k (false, p, f) = with_errno f
  share_listed k (true, p, f) = listed p f (L.enum_share k f.world)

  abbrev pub host_listed : Reached L → Served Unit
  host_listed (none, f) = with_errno f
  host_listed (some (p, k), f) = share_listed k (connect_share L (codes "IPC$") p k f)

  unfoldable pub list_share : Bytes → Fuse L → Served Unit
  unfolding connect_host connect_share add_shares
  list_share host f = host_listed (connect_host L host f)

  -- `fusecifs_list_host`, which asks a server for the hosts of a workgroup.
  abbrev pub hosts_listed : Handle → Fuse L → Option (List Bytes) × World → Served Unit
  hosts_listed k f (none, w) = with_errno (with_world f (L.disconnect k w))
  hosts_listed k f (some names, w) =
      answer tt (record f { hosts = add_hosts L names f.hosts; world = L.disconnect k w })

  abbrev pub server_reached : Bytes → Fuse L → Option Handle × World → Served Unit
  server_reached workgroup f (none, w) = with_errno (with_world f w)
  server_reached workgroup f (some k, w) =
      hosts_listed k (with_world f w) (L.enum_server k workgroup w)

  unfoldable pub list_host : Bytes → Bytes → Fuse L → Served Unit
  unfolding add_hosts
  list_host server workgroup f =
      server_reached workgroup f (L.connect_tree server (codes "IPC$") f.world)

  -- `fusecifs_getattr`.
  abbrev pub stat_answer : Fuse L → Option Stat × World → Served FuseStat
  stat_answer f (none, w) = with_errno (with_world f w)
  stat_answer f (some s, w) = answer (make_stat s) (with_world f w)

  abbrev pub stat_parts :
      MountPath → Option Bytes → Option Bytes → Option Bytes → Fuse L → Served FuseStat
  stat_parts p (some h) (some s) (some (c ∷ cs)) f =
      fuse_connect p (λ k f'. stat_answer f' (L.stat k (c ∷ cs) f'.world)) f
  stat_parts p h s path f = answer plain_dir f

  unfoldable pub getattr : Bytes → Fuse L → Served FuseStat
  unfolding split_path fuse_connect make_stat
  getattr path f = let p = split_path path in stat_parts p p.host p.share p.path f

  -- `fusecifs_readdir`: hosts, the shares of a host, or a directory.
  abbrev pub filled : Fuse L → Bool × Filled → Served Filled
  filled f (true, shown) = answer shown f
  filled f (false, shown) = failed eio f

  abbrev pub show_hosts : Filler → Fuse L → Served Filled
  show_hosts takes f = filled f (fill takes [] (map (λ h. (h.name, plain_dir)) f.hosts))

  abbrev pub shares_of : Filler → Fuse L → Option (Place (Host L)) → Served Filled
  shares_of takes f none = with_errno f
  shares_of takes f (some p) =
      filled f (fill takes [] (map (λ s. (s.name, plain_dir)) p.here.shares))

  abbrev pub show_shares : Filler → Bytes → Served Unit → Served Filled
  show_shares takes host (answer u f) = shares_of takes f (host_find L host f.hosts)
  show_shares takes host (failed e f) = with_errno f
  show_shares takes host crash = crash
  show_shares takes host endless = endless

  -- The loop over a directory; one that FUSE does not take to its end stays open.
  abbrev pub taken :
      (Filled → Dir → World → Served Filled)
      → Filler
      → Filled
      → Fuse L
      → Option Entry × Dir × World
      → Served Filled
  taken next takes shown f (none, d, w) = answer shown (with_world f (L.closedir d w))
  taken next takes shown f (some e, d, w) =
      let shown' = shown ++ ((e.name, make_stat e.stat) ∷ []) in
      let more = next shown' d w in if takes shown' then more else failed eio (with_world f w)

  unfoldable pub dir_loop : Filler → ℕ → Fuse L → Filled → Dir → World → Served Filled
  unfolding make_stat
  dir_loop takes zero f shown d w = endless
  dir_loop takes (suc fuel) f shown d w =
      taken (dir_loop takes fuel f) takes shown f (L.readdir d w)

  abbrev pub opened : Filler → ℕ → Fuse L → Option Dir × World → Served Filled
  opened takes fuel f (none, w) = with_errno (with_world f w)
  opened takes fuel f (some d, w) = dir_loop takes fuel f [] d w

  abbrev pub show_dir : Filler → ℕ → Option Bytes → Handle → Fuse L → Served Filled
  show_dir takes fuel none k f = crash
  show_dir takes fuel (some path) k f = opened takes fuel f (L.opendir k path f.world)

  abbrev pub shown_at :
      Filler → ℕ → MountPath → Option Bytes → Option Bytes → Fuse L → Served Filled
  shown_at takes fuel p none s f = show_hosts takes f
  shown_at takes fuel p (some h) none f = show_shares takes h (list_share h f)
  shown_at takes fuel p (some h) (some s) f = fuse_connect p (show_dir takes fuel p.path) f

  unfoldable pub fuse_readdir : Filler → ℕ → Bytes → Fuse L → Served Filled
  unfolding split_path fuse_connect list_share host_find fill dir_loop
  fuse_readdir takes fuel path f = let p = split_path path in shown_at takes fuel p p.host p.share f

  -- `fusecifs_open` (every error is EIO), `fusecifs_release` and `fusecifs_read`.
  abbrev pub open_answer : Fuse L → Option ℕ × World → Served ℕ
  open_answer f (none, w) = failed eio (with_world f w)
  open_answer f (some fid, w) = answer fid (with_world f w)

  abbrev pub open_at : ℕ → Option Bytes → Handle → Fuse L → Served ℕ
  open_at flags none k f = crash
  open_at flags (some path) k f = open_answer f (L.open_file k path flags f.world)

  unfoldable pub fuse_open : Bytes → ℕ → Fuse L → Served ℕ
  unfolding split_path fuse_connect
  fuse_open path flags f = let p = split_path path in fuse_connect p (open_at flags p.path) f

  unfoldable pub fuse_release : Bytes → ℕ → Fuse L → Served ℕ
  unfolding split_path fuse_connect
  fuse_release path fh f =
      fuse_connect (split_path path) (λ k f'. answer 0 (with_world f' (L.close_file k fh f'.world)))
        f

  -- The loop of `fusecifs_read`: the bytes so far, what is still wanted, and where it stands. A read
  -- is taken to give no more than it is asked for.
  abbrev pub read_got :
      (Bytes → ℕ → ℕ → World → Served Bytes)
      → Fuse L
      → Bytes
      → ℕ
      → ℕ
      → Option Bytes × World
      → Served Bytes
  read_got next f buf size off (none, w) = with_errno (with_world f w)
  read_got next f buf size off (some [], w) = answer buf (with_world f w)
  read_got next f buf size off (some (c ∷ cs), w) =
      let n = length (c ∷ cs) in next (buf ++ (c ∷ cs)) (size - n) (off + n) w

  unfoldable pub read_loop : Handle → ℕ → ℕ → Fuse L → Bytes → ℕ → ℕ → World → Served Bytes
  read_loop k fh zero f buf size off w = endless
  read_loop k fh (suc fuel) f buf size off w = elim (size == 0) [
    | true ↦ answer buf (with_world f w)
    | false ↦ read_got (read_loop k fh fuel f) f buf size off (L.read k fh size off w)
  ]

  unfoldable pub fuse_read : ℕ → Bytes → ℕ → ℕ → ℕ → Fuse L → Served Bytes
  unfolding split_path fuse_connect read_loop
  fuse_read fuel path fh size off f =
      fuse_connect (split_path path) (λ k f'. read_loop k fh fuel f' [] size off f'.world) f
