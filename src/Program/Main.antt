-- ===== src/Program/Main.antt =====
-- `main` of cifscp against the local disk.
use cifscp.Base.{Option, List, [], ◌∷◌}
use cifscp.Base.Strings.{Bytes}
use cifscp.Uri.{Uri}
use cifscp.Connect.{Conn}
use cifscp.Trees.Disks.{Local, IsLocal}
use cifscp.Trees.Confined.{Outside}
use cifscp.Program.{Reply}
use cifscp.Program.Copies.{Ran, Exit}
use cifscp.Program.Confined.{Returns, Held}

-- The destination of a copy, the first of the operands from behind, if there is one.
abbrev pub Avoids : List Bytes → Bytes → Type 0
Avoids [] q = Unit
Avoids (dst ∷ rest) q = Outside dst q

module _ (L : Local) (l : IsLocal L) (q : Bytes) (x : Option Bytes) where
  abbrev Sent : Ran L × Conn → Type 0
  Sent p = Held L l q x p.0

  abbrev ExitKept : Reply (Exit L) → Type 0
  ExitKept r = Returns (λ e. Held L l q x e.ran) r
