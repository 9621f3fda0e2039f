-- ===== src/Walk/Dump.antt =====
-- The numbers that cifs_spider.c gives to what it finds.
use cifscp.Base.{ℕ, suc, ◌≤◌, ◌<◌, ◌≡◌, ◌⊎◌, true, List, [], ◌∷◌, ◌++◌, length}
use cifscp.Find.{is_directory}
use cifscp.Walk.{Record}

-- The lines are numbered from `k + 1` on, and each names a smaller number than its own.
abbrev pub Numbered : ℕ → List Record → Type 0
Numbered k [] = Unit
Numbered k (r ∷ rs) = (r.id ≡ suc k) × (r.pid < r.id) × Numbered (suc k) rs

-- The number 0, or that of a directory in the list.
abbrev pub IsPlace : List Record → ℕ → Type 0
IsPlace ls pid =
    (pid ≡ 0)
    ⊎ ((before : List Record) × (d : Record) × (after : List Record) × (ls ≡ before ++ (d ∷ after))
        × (d.id ≡ pid)
        × (is_directory d.file.st ≡ true))

abbrev pub ArePlaced : List Record → List Record → Type 0
ArePlaced ls [] = Unit
ArePlaced ls (r ∷ rs) = IsPlace ls r.pid × ArePlaced ls rs

-- `*id` is the number of the last line.
abbrev pub IsDump : ℕ × List Record → Type 0
IsDump s = (s.0 ≡ length s.1) × Numbered 0 s.1 × ArePlaced s.1 s.1

-- A list goes on behind another one.
abbrev Extends : List Record → List Record → Type 0
Extends base ls = (more : List Record) × (ls ≡ base ++ more)

-- The state of a walk below the directory `pid`, which began behind the lines `base`.
pub record Below (base : List Record) (pid : ℕ) (s : ℕ × List Record) : Type 0 where
  pub dump : IsDump s
  pub low : pid ≤ s.0
  pub place : IsPlace s.1 pid
  pub goes_on : Extends base s.1
