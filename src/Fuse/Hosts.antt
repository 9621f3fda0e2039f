-- ===== src/Fuse/Hosts.antt =====
-- Well-formed lists of hosts, and what connecting a host keeps of them.
use mathlib.Core.Path.{subst}
use cifscp.Base.{◌≡◌, refl, sym, Option, none, some, List, map}
use cifscp.Base.Strings.{Bytes}
use cifscp.Fuse.{
  Share, Host, Fuse, with_host, Reached, host_find, host_connected, host_connecting, host_found,
  known, connect_host,
}
use cifscp.Fuse.Places.{Place, whole, found_start}
use cifscp.Fuse.Names.{
  Apart, Distinct, All, All-here, All-change, map-change, find-none-Apart, find-whole,
  found_start_self,
}
use cifscp.Fuse.Interface.{Library}

module _ (L : Library) where
  abbrev pub share_names : List (Share L) → List Bytes
  share_names ss = map (λ s. s.name) ss

  abbrev pub host_names : List (Host L) → List Bytes
  host_names hs = map (λ h. h.name) hs

  -- A host has one share of a name at most, and none that is connected if it is not itself.
  pub record IsHost (h : Host L) : Type 0 where
    pub shares_distinct : Distinct (share_names h.shares)
    pub connected : h.conn ≡ none → All (λ (s : Share L). s.tid ≡ none) h.shares

  pub record IsFuse (f : Fuse L) : Type 0 where
    pub hosts_distinct : Distinct (host_names f.hosts)
    pub hosts_in_order : All IsHost f.hosts

  -- A place of the list of hosts.
  pub record At (p : Place (Host L)) (f : Fuse L) : Type 0 where
    pub place : f.hosts ≡ whole p
    pub kept : IsFuse f

  -- Another host of the same name in its place.
  pub changed-At :
      (p : Place (Host L)) (h : Host L) (f : Fuse L)
      → At p f
      → h.name ≡ p.here.name
      → IsHost h
      → At (record p { here = h }) (with_host L f (record p { here = h }))
  changed-At p h f a e k = record {
    place = refl;
    kept = record {
      hosts_distinct =
          subst Distinct (sym (map-change (λ x. x.name) p.before p.here h p.after e))
            (subst (λ hs. Distinct (host_names hs)) a.place a.kept.hosts_distinct);
      hosts_in_order =
          All-change IsHost p.before p.here h p.after
            (subst (All IsHost) a.place a.kept.hosts_in_order) k;
    };
  }

  pub here-IsHost : (p : Place (Host L)) (f : Fuse L) → At p f → IsHost p.here
  here-IsHost p f a =
      All-here IsHost p.before p.here p.after (subst (All IsHost) a.place a.kept.hosts_in_order)

  -- What connecting a host leaves: the lists in order, and the host, connected, at its place.
  abbrev pub ReachedKept : Reached L → Type 0
  ReachedKept (none, f) = IsFuse f
  ReachedKept (some (p, k), f) = At p f × (p.here.conn ≡ some k)

  connected-Kept :
      (s : Bytes) (p : Place (Host L)) (f : Fuse L) (k : Option L.Handle)
      → At p f
      → ReachedKept (host_connected L s (some p) f k)
  unfolding host_connected
  connected-Kept s p f none a = a.kept
  connected-Kept s p f (some k) a = (
    changed-At p (record (p.here) { conn = some k }) f a refl
        (record { shares_distinct = (here-IsHost p f a).shares_distinct; connected = λ e. cc }),
    refl,
  )

  new_host-Kept :
      (s : Bytes) (f : Fuse L) (k : Option L.Handle)
      → IsFuse f
      → Apart s (host_names f.hosts)
      → ReachedKept (host_connected L s none f k)
  unfolding host_connected
  new_host-Kept s f none v a = v
  new_host-Kept s f (some k) v a = (
    record {
      place = refl;
      kept = record {
        hosts_distinct = (a, v.hosts_distinct);
        hosts_in_order = (record { shares_distinct = tt; connected = λ e. tt }, v.hosts_in_order);
      };
    },
    refl,
  )

  pub world-IsFuse : (f : Fuse L) (w : L.World) → IsFuse f → IsFuse (record f { world = w })
  world-IsFuse f w v = record {
    hosts_distinct = v.hosts_distinct;
    hosts_in_order = v.hosts_in_order;
  }

  pub world-At :
      (p : Place (Host L)) (f : Fuse L) (w : L.World) → At p f → At p (record f { world = w })
  world-At p f w a = record { place = a.place; kept = world-IsFuse f w a.kept }

  found-Kept :
      (s : Bytes) (f : Fuse L) (p : Place (Host L)) (k : Option L.Handle)
      → At p f
      → p.here.conn ≡ k
      → ReachedKept (known L p f (host_connecting L s (some p) f) k)
  unfolding host_connecting
  found-Kept s f p none a e =
      connected-Kept s p (record f { world = (L.connect s f.world).1 }) (L.connect s f.world).0
        (world-At p f (L.connect s f.world).1 a)
  found-Kept s f p (some k) a e = (a, e)

  pub connect_host-Kept : (s : Bytes) (f : Fuse L) → IsFuse f → ReachedKept (connect_host L s f)
  unfolding connect_host
  connect_host-Kept s f v = found (host_find L s f.hosts) refl
    where
      found :
          (r : Option (Place (Host L)))
          → host_find L s f.hosts ≡ r
          → ReachedKept (host_found L s f r)
      found none e =
          new_host-Kept s (record f { world = (L.connect s f.world).1 }) (L.connect s f.world).0
            (world-IsFuse f (L.connect s f.world).1 v)
            (find-none-Apart (λ h. h.name) found_start found_start_self s f.hosts e)
      found (some p) e =
          found-Kept s f p p.here.conn
            (record { place = find-whole (λ h. found_start s h.name) f.hosts p e; kept = v }) refl
