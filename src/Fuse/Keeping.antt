-- ===== src/Fuse/Keeping.antt =====
-- Each operation of fusecifs.c keeps the lists in order.
use cifscp.Base.{
  ℕ, zero, suc, ◌≡◌, Bool, true, false, Option, none, some, List, [], ◌∷◌, ◌++◌, ◌==◌,
  if◌then◌else◌,
}
use cifscp.Base.Strings.{Bytes, codes}
use cifscp.Proto.Files.{Stat}
use cifscp.Fuse.{
  MountPath, text, Host, Fuse, Reached, host_find, connect_host, connect_share, add_shares,
}
use cifscp.Fuse.Places.{Place}
use cifscp.Fuse.Interface.{Entry, Library}
use cifscp.Fuse.Stats.{Filler, Filled, make_stat}
use cifscp.Fuse.Calls.{
  Served, answer, failed, crash, endless, with_world, host_reached, fuse_connect, listed,
  share_listed, host_listed, list_share, stat_answer, stat_parts, filled, shares_of, show_shares,
  taken, dir_loop, opened, show_dir, shown_at, open_answer, open_at, read_got, read_loop,
}
use cifscp.Fuse.Hosts.{
  IsFuse, At, ReachedKept, world-IsFuse, connect_host-Kept, here-IsHost, world-At,
}
use cifscp.Fuse.Kept.{SwitchedKept, connect_share-Kept, shares-At, add_shares-Distinct}

module _ (L : Library) where
  abbrev pub Keeps : {A : Type 0} → Served L A → Type 0
  Keeps (answer a f) = IsFuse L f
  Keeps (failed e f) = IsFuse L f
  Keeps crash = Unit
  Keeps endless = Unit

  host_reached-Keeps :
      {A : Type 0} (share : Bytes) (next : L.Handle → Fuse L → Served L A) (r : Reached L)
      → ReachedKept L r
      → ((k : L.Handle) (f : Fuse L) → IsFuse L f → Keeps (next k f))
      → Keeps (host_reached L share next r)
  host_reached-Keeps share next (none, f) v ih = tt
  host_reached-Keeps share next (some (p, k), f) v ih =
      ih k _ (connect_share-Kept L share p k f v.0 v.1).0.kept

  pub connect-Keeps :
      {A : Type 0} (p : MountPath) (next : L.Handle → Fuse L → Served L A) (f : Fuse L)
      → IsFuse L f
      → ((k : L.Handle) (f' : Fuse L) → IsFuse L f' → Keeps (next k f'))
      → Keeps (fuse_connect L p next f)
  unfolding fuse_connect
  connect-Keeps p next f v ih =
      host_reached-Keeps (text p.share) next (connect_host L (text p.host) f)
        (connect_host-Kept L (text p.host) f v) ih

  stat-Keeps : (f : Fuse L) (r : Option Stat × L.World) → IsFuse L f → Keeps (stat_answer L f r)
  stat-Keeps f (none, w) v = world-IsFuse L f w v
  stat-Keeps f (some s, w) v = world-IsFuse L f w v

  pub stat_parts-Keeps :
      (p : MountPath) (h s path : Option Bytes) (f : Fuse L)
      → IsFuse L f
      → Keeps (stat_parts L p h s path f)
  stat_parts-Keeps p none s path f v = v
  stat_parts-Keeps p (some h) none path f v = v
  stat_parts-Keeps p (some h) (some s) none f v = v
  stat_parts-Keeps p (some h) (some s) (some []) f v = v
  stat_parts-Keeps p (some h) (some s) (some (c ∷ cs)) f v =
      connect-Keeps p _ f v (λ k f' v'. stat-Keeps f' (L.stat k (c ∷ cs) f'.world) v')

  filled-Keeps : (f : Fuse L) (r : Bool × Filled) → IsFuse L f → Keeps (filled L f r)
  filled-Keeps f (true, shown) v = v
  filled-Keeps f (false, shown) v = v

  listed-Keeps :
      (p : Place (Host L)) (k : L.Handle) (f : Fuse L) (r : Option (List Bytes) × L.World)
      → At L p f
      → p.here.conn ≡ some k
      → Keeps (listed L p f r)
  listed-Keeps p k f (none, w) a e = world-IsFuse L f w a.kept
  listed-Keeps p k f (some names, w) a e =
      (shares-At L p (add_shares L names p.here.shares) k (with_world L f w) (world-At L p f w a) e
        (add_shares-Distinct L names p.here.shares (here-IsHost L p f a).shares_distinct)).kept

  share_listed-Keeps :
      (k : L.Handle) (r : Bool × Place (Host L) × Fuse L)
      → SwitchedKept L k r
      → Keeps (share_listed L k r)
  share_listed-Keeps k (false, p, f) h = h.0.kept
  share_listed-Keeps k (true, p, f) h = listed-Keeps p k f (L.enum_share k f.world) h.0 h.1

  host_listed-Keeps : (r : Reached L) → ReachedKept L r → Keeps (host_listed L r)
  host_listed-Keeps (none, f) h = h
  host_listed-Keeps (some (p, k), f) h =
      share_listed-Keeps k (connect_share L (codes "IPC$") p k f)
        (connect_share-Kept L (codes "IPC$") p k f h.0 h.1)

  shares_of-Keeps :
      (takes : Filler) (f : Fuse L) (r : Option (Place (Host L)))
      → IsFuse L f
      → Keeps (shares_of L takes f r)
  shares_of-Keeps takes f none v = v
  shares_of-Keeps takes f (some p) v = filled-Keeps f _ v

  show_shares-Keeps :
      (takes : Filler) (host : Bytes) (r : Served L Unit)
      → Keeps r
      → Keeps (show_shares L takes host r)
  show_shares-Keeps takes host (answer u f) v = shares_of-Keeps takes f (host_find L host f.hosts) v
  show_shares-Keeps takes host (failed e f) v = v
  show_shares-Keeps takes host crash v = tt
  show_shares-Keeps takes host endless v = tt

  either-Keeps :
      {A : Type 0} (b : Bool) (r s : Served L A) → Keeps r → Keeps s → Keeps (if b then r else s)
  either-Keeps true r s h k = h
  either-Keeps false r s h k = k

  taken-Keeps :
      (next : Filled → L.Dir → L.World → Served L Filled) (takes : Filler) (shown : Filled)
      (f : Fuse L) (r : Option Entry × L.Dir × L.World)
      → IsFuse L f
      → ((s : Filled) (d : L.Dir) (w : L.World) → Keeps (next s d w))
      → Keeps (taken L next takes shown f r)
  taken-Keeps next takes shown f (none, d, w) v ih = world-IsFuse L f (L.closedir d w) v
  taken-Keeps next takes shown f (some e, d, w) v ih =
      either-Keeps (takes (shown ++ ((e.name, make_stat e.stat) ∷ []))) _ _ (ih _ d w)
        (world-IsFuse L f w v)

  dir_loop-Keeps :
      (takes : Filler) (fuel : ℕ) (f : Fuse L) (shown : Filled) (d : L.Dir) (w : L.World)
      → IsFuse L f
      → Keeps (dir_loop L takes fuel f shown d w)
  unfolding dir_loop
  dir_loop-Keeps takes zero f shown d w v = tt
  dir_loop-Keeps takes (suc fuel) f shown d w v =
      taken-Keeps (dir_loop L takes fuel f) takes shown f (L.readdir d w) v
        (λ s d' w'. dir_loop-Keeps takes fuel f s d' w' v)

  opened-Keeps :
      (takes : Filler) (fuel : ℕ) (f : Fuse L) (r : Option L.Dir × L.World)
      → IsFuse L f
      → Keeps (opened L takes fuel f r)
  opened-Keeps takes fuel f (none, w) v = world-IsFuse L f w v
  opened-Keeps takes fuel f (some d, w) v = dir_loop-Keeps takes fuel f [] d w v

  show_dir-Keeps :
      (takes : Filler) (fuel : ℕ) (path : Option Bytes) (k : L.Handle) (f : Fuse L)
      → IsFuse L f
      → Keeps (show_dir L takes fuel path k f)
  show_dir-Keeps takes fuel none k f v = tt
  show_dir-Keeps takes fuel (some path) k f v =
      opened-Keeps takes fuel f (L.opendir k path f.world) v

  pub shown_at-Keeps :
      (takes : Filler) (fuel : ℕ) (p : MountPath) (h s : Option Bytes) (f : Fuse L)
      → IsFuse L f
      → Keeps (shown_at L takes fuel p h s f)
  unfolding list_share
  shown_at-Keeps takes fuel p none s f v = filled-Keeps f _ v
  shown_at-Keeps takes fuel p (some h) none f v =
      show_shares-Keeps takes h (list_share L h f)
        (host_listed-Keeps (connect_host L h f) (connect_host-Kept L h f v))
  shown_at-Keeps takes fuel p (some h) (some s) f v =
      connect-Keeps p (show_dir L takes fuel p.path) f v (show_dir-Keeps takes fuel p.path)

  open_answer-Keeps : (f : Fuse L) (r : Option ℕ × L.World) → IsFuse L f → Keeps (open_answer L f r)
  open_answer-Keeps f (none, w) v = world-IsFuse L f w v
  open_answer-Keeps f (some fid, w) v = world-IsFuse L f w v

  pub open_at-Keeps :
      (flags : ℕ) (path : Option Bytes) (k : L.Handle) (f : Fuse L)
      → IsFuse L f
      → Keeps (open_at L flags path k f)
  open_at-Keeps flags none k f v = tt
  open_at-Keeps flags (some path) k f v = open_answer-Keeps f (L.open_file k path flags f.world) v

  read_got-Keeps :
      (next : Bytes → ℕ → ℕ → L.World → Served L Bytes) (f : Fuse L) (buf : Bytes) (size off : ℕ)
      (r : Option Bytes × L.World)
      → IsFuse L f
      → ((b : Bytes) (n o : ℕ) (w : L.World) → Keeps (next b n o w))
      → Keeps (read_got L next f buf size off r)
  read_got-Keeps next f buf size off (none, w) v ih = world-IsFuse L f w v
  read_got-Keeps next f buf size off (some [], w) v ih = world-IsFuse L f w v
  read_got-Keeps next f buf size off (some (c ∷ cs), w) v ih = ih _ _ _ w

  pub read_loop-Keeps :
      (k : L.Handle) (fh fuel : ℕ) (f : Fuse L) (buf : Bytes) (size off : ℕ) (w : L.World)
      → IsFuse L f
      → Keeps (read_loop L k fh fuel f buf size off w)
  unfolding read_loop
  read_loop-Keeps k fh zero f buf size off w v = tt
  read_loop-Keeps k fh (suc fuel) f buf size off w v =
      elim (size == 0)
        as (λ b. Keeps (elim b [
          | true ↦ answer buf (with_world L f w)
          | false ↦ read_got L (read_loop L k fh fuel f) f buf size off (L.read k fh size off w)
        ])) [
          | true ↦ world-IsFuse L f w v
          | false ↦
              read_got-Keeps (read_loop L k fh fuel f) f buf size off (L.read k fh size off w) v
                (λ b n o w'. read_loop-Keeps k fh fuel f b n o w' v)
        ]
