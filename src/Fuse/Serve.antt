-- ===== src/Fuse/Serve.antt =====
-- fusecifs.c: `fusecifs_oper` and `main`. FUSE makes calls in any order; each returns, and the next
-- finds the lists that it leaves.
use cifscp.Base.{ℕ, Option, none, some, List, [], ◌∷◌}
use cifscp.Base.Strings.{Bytes, codes}
use cifscp.Fuse.{Fuse}
use cifscp.Fuse.Interface.{Library}
use cifscp.Fuse.Stats.{Filler}
use cifscp.Fuse.Calls.{
  Served, answer, failed, crash, endless, list_host, getattr, fuse_readdir, fuse_open, fuse_release,
  fuse_read,
}

pub data FuseCall : Type 0 where
  getattrs : Bytes → FuseCall
  readdirs : Filler → Bytes → FuseCall
  opens : Bytes → ℕ → FuseCall
  releases : Bytes → ℕ → FuseCall
  reads : Bytes → ℕ → ℕ → ℕ → FuseCall

module _ (L : Library) where
  -- The lists behind a call; `none` is a crash, or a call that does not return.
  abbrev pub left : {A : Type 0} → Served L A → Option (Fuse L)
  left (answer a f) = some f
  left (failed e f) = some f
  left crash = none
  left endless = none

  unfoldable pub handle : ℕ → FuseCall → Fuse L → Option (Fuse L)
  unfolding getattr fuse_readdir fuse_open fuse_release fuse_read
  handle fuel (getattrs path) f = left (getattr L path f)
  handle fuel (readdirs takes path) f = left (fuse_readdir L takes fuel path f)
  handle fuel (opens path flags) f = left (fuse_open L path flags f)
  handle fuel (releases path fh) f = left (fuse_release L path fh f)
  handle fuel (reads path fh size off) f = left (fuse_read L fuel path fh size off f)

  unfoldable pub handle_all : ℕ → List FuseCall → Fuse L → Option (Fuse L)
  unfolding handle
  handle_all fuel [] f = some f
  handle_all fuel (c ∷ cs) f = elim (handle fuel c f) [
    | none ↦ none
    | some f' ↦ handle_all fuel cs f'
  ]

  -- `main`: the result of the first listing is dropped.
  abbrev pub behind : (Fuse L → Option (Fuse L)) → Option (Fuse L) → Option (Fuse L)
  behind next none = none
  behind next (some f) = next f

  unfoldable pub fuse_main : ℕ → List FuseCall → L.World → Option (Fuse L)
  unfolding list_host handle_all
  fuse_main fuel cs w =
      behind (handle_all fuel cs)
        (left (list_host L (codes "server") (codes "HACKERS") (record { hosts = []; world = w })))
