-- ===== src/Fuse/Kept.antt =====
-- What every call keeps of the lists of hosts and shares.
use mathlib.Core.Path.{subst}
use cifscp.Base.{ℕ, ◌≡◌, refl, sym, Option, none, some, List, [], ◌∷◌}
use cifscp.Base.Strings.{Bytes}
use cifscp.Fuse.{
  Share, Host, Fuse, with_host, switched, share_find, share_connected, share_connecting,
  share_found, Switched, with_shares, connect_share, add_share, add_shares, add_host, add_hosts,
}
use cifscp.Fuse.Places.{Place, whole, find, found_start, found_name}
use cifscp.Fuse.Names.{
  Distinct, All, map-change, find-none-Apart, find-whole, found_start_self, found_name_self,
}
use cifscp.Fuse.Interface.{Library}
use cifscp.Fuse.Hosts.{share_names, host_names, IsHost, At, changed-At, here-IsHost, world-At}

module _ (L : Library) where
  -- Other shares of a host that is connected.
  pub shares-At :
      (p : Place (Host L)) (ss : List (Share L)) (k : L.Handle) (f : Fuse L)
      → At L p f
      → p.here.conn ≡ some k
      → Distinct (share_names L ss)
      → At L (with_shares L p ss) (with_host L f (with_shares L p ss))
  shares-At p ss k f a e d =
      changed-At L p (record (p.here) { shares = ss }) f a refl
        (record { shares_distinct = d; connected = λ e'. cc })

  abbrev pub SwitchedKept : L.Handle → Switched L → Type 0
  SwitchedKept k (b, p, f) = At L p f × (p.here.conn ≡ some k)

  share_connected-Kept :
      (s : Bytes) (q : Option (Place (Share L))) (p : Place (Host L)) (k : L.Handle) (f : Fuse L)
      (tid : Option ℕ)
      → At L p f
      → p.here.conn ≡ some k
      → share_find L s p.here.shares ≡ q
      → SwitchedKept k (share_connected L s q p f tid)
  unfolding share_connected share_find
  share_connected-Kept s q p k f none a e h = (a, e)
  share_connected-Kept s none p k f (some tid) a e h = (
    shares-At p (record { name = s; tid = some tid } ∷ p.here.shares) k f a e (
      find-none-Apart (λ x. x.name) found_start found_start_self s p.here.shares h,
      (here-IsHost L p f a).shares_distinct,
    ),
    e,
  )
  share_connected-Kept s (some q) p k f (some tid) a e h = (
    shares-At p (whole (record q { here = record (q.here) { tid = some tid } })) k f a e (
        subst Distinct
          (sym (
            map-change (λ x. x.name) q.before q.here (record (q.here) { tid = some tid }) q.after
              refl))
          (subst (λ ss. Distinct (share_names L ss))
            (find-whole (λ x. found_start s x.name) p.here.shares q h)
            (here-IsHost L p f a).shares_distinct)),
    e,
  )

  switched-Kept :
      (s : Bytes) (q : Place (Share L)) (p : Place (Host L)) (k : L.Handle) (f : Fuse L)
      (tid : Option ℕ)
      → At L p f
      → p.here.conn ≡ some k
      → share_find L s p.here.shares ≡ some q
      → SwitchedKept k (switched L p k f (share_connecting L s (some q) p k f) tid)
  unfolding share_connecting
  switched-Kept s q p k f none a e h =
      share_connected-Kept s (some q) p k _ (L.tree_connect k s f.world).0
        (world-At L p f (L.tree_connect k s f.world).1 a) e h
  switched-Kept s q p k f (some tid) a e h = (world-At L p f (L.tree_switch k tid f.world) a, e)

  pub connect_share-Kept :
      (s : Bytes) (p : Place (Host L)) (k : L.Handle) (f : Fuse L)
      → At L p f
      → p.here.conn ≡ some k
      → SwitchedKept k (connect_share L s p k f)
  unfolding connect_share
  connect_share-Kept s p k f a e = found (share_find L s p.here.shares) refl
    where
      found :
          (r : Option (Place (Share L)))
          → share_find L s p.here.shares ≡ r
          → SwitchedKept k (share_found L s p k f r)
      found none h =
          share_connected-Kept s none p k _ (L.tree_connect k s f.world).0
            (world-At L p f (L.tree_connect k s f.world).1 a) e h
      found (some q) h = switched-Kept s q p k f q.here.tid a e h

  add_share-Distinct :
      (s : Bytes) (ss : List (Share L))
      → Distinct (share_names L ss)
      → Distinct (share_names L (add_share L s ss))
  unfolding add_share
  add_share-Distinct s ss d = found (share_find L s ss) refl
    where
      found :
          (r : Option (Place (Share L)))
          → share_find L s ss ≡ r
          → Distinct
              (share_names L (elim r [ none ↦ record { name = s; tid = none } ∷ ss | some q ↦ ss ]))
      found none h = (find-none-Apart (λ x. x.name) found_start found_start_self s ss h, d)
      found (some q) h = d

  pub add_shares-Distinct :
      (names : List Bytes) (ss : List (Share L))
      → Distinct (share_names L ss)
      → Distinct (share_names L (add_shares L names ss))
  unfolding add_shares
  add_shares-Distinct [] ss d = d
  add_shares-Distinct (s ∷ names) ss d =
      add_shares-Distinct names (add_share L s ss) (add_share-Distinct s ss d)

  abbrev pub HostsKept : List (Host L) → Type 0
  HostsKept hs = Distinct (host_names L hs) × All (IsHost L) hs

  add_host-Kept : (s : Bytes) (hs : List (Host L)) → HostsKept hs → HostsKept (add_host L s hs)
  unfolding add_host
  add_host-Kept s hs v = found (find (λ h. found_name s h.name) hs) refl
    where
      found :
          (r : Option (Place (Host L)))
          → find (λ h. found_name s h.name) hs ≡ r
          → HostsKept
              (elim r [ none ↦ record { name = s; conn = none; shares = [] } ∷ hs | some q ↦ hs ])
      found none h = (
        (find-none-Apart (λ x. x.name) found_name found_name_self s hs h, v.0),
        (record { shares_distinct = tt; connected = λ e. tt }, v.1),
      )
      found (some q) h = v

  pub add_hosts-Kept :
      (names : List Bytes) (hs : List (Host L)) → HostsKept hs → HostsKept (add_hosts L names hs)
  unfolding add_hosts
  add_hosts-Kept [] hs v = v
  add_hosts-Kept (s ∷ names) hs v = add_hosts-Kept names (add_host L s hs) (add_host-Kept s hs v)
