-- ===== src/Trees/Refined.antt =====
-- Every download over a connection is one of Copy's.
use cifscp.Base.{ℕ, ◌≡◌, Option, some}
use cifscp.Base.Strings.{Bytes}
use cifscp.Connect.{Conn}
use cifscp.Copy.{Clock}
use cifscp.Walk.{Setting}
use cifscp.Trees.Disks.{Local, IsLocal}
use cifscp.Trees.{Work, Onward}
use cifscp.Trees.Loops.{Refines, at_work}

module _ (L : Local) (l : IsLocal L) (g : Setting) (clock : Clock) (fid : ℕ) (dst : Bytes) where
  -- What is asked of the rest of a loop.
  abbrev Rest : ℕ → Onward L → Type 0
  Rest fuel next =
      (s : Bytes) (off rem : ℕ) (w : Work L) (c : Conn)
      → L.content w.disk dst ≡ some s
      → Refines L g clock fid dst fuel w.turn (at_work L g clock fid dst s off rem w)
          (next off rem w c)
