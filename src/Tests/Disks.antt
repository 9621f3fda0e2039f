-- ===== src/Tests/Disks.antt =====
-- Downloads to a disk that is a function from paths to files.
use cifscp.Base.{
  ℕ, List, ◌≡◌, ◌≢◌, refl, inl, inr, true, Option, none, some, [], ◌∷◌, arith, if◌then◌else◌,
  Bool-cases, length, take, drop,
}
use cifscp.Base.Strings.{Bytes, codes}
use cifscp.Cstring.{same_string, starts_with}
use cifscp.Flow.{flow_reset}
use cifscp.Trees.Disks.{Local, IsLocal, made, regular, appended}
use cifscp.Trees.{Work}
use cifscp.Program.{Reply, reply, faulty, endless}
use cifscp.Program.Copies.{Exit, program_main}
use cifscp.Program.Status.{Ends, program_main-Ends}
use cifscp.Program.Confined.{Returns}
use cifscp.Walk.{Setting}
use cifscp.Tests.Answers.{asking}
use cifscp.Tests.Walks.{setting}

abbrev Files : Type 0
Files = Bytes → Option Bytes

abbrev set_file : Bytes → Option Bytes → Files → Files
set_file p v d q = if same_string q p then v else d q

same_string_self : (p : Bytes) → same_string p p ≡ true
unfolding same_string
same_string_self [] = refl
same_string_self (c ∷ p) = ground (arith, same_string_self p)

same_string_eq : (p q : Bytes) → same_string p q ≡ true → p ≡ q
unfolding same_string
same_string_eq [] [] h = refl
same_string_eq [] (d ∷ q) h = cc
same_string_eq (c ∷ p) [] h = cc
same_string_eq (c ∷ p) (d ∷ q) h = ground (arith, same_string_eq p q)

set-other : (p q : Bytes) (v : Option Bytes) (d : Files) → q ≢ p → set_file p v d q ≡ d q
set-other p q v d h = elim (Bool-cases (same_string q p)) [
  | inl e ↦ absurd (h (same_string_eq q p e))
  | inr e ↦ rw e
]

set-same : (p : Bytes) (v : Option Bytes) (d : Files) → set_file p v d p ≡ v
set-same p v d = rw (same_string_self p)

abbrev or_empty : Option Bytes → Bytes
or_empty none = []
or_empty (some s) = s

-- Every call does what it can, and `write` takes all.
abbrev pub simple : Local
simple = record {
  Disk = Files;
  content = λ d p. d p;
  open_write = λ p d. (true, set_file p (some (or_empty (d p))) d);
  seek_end = λ p d. some (length (or_empty (d p)));
  write = λ p bs d. (some (length bs), set_file p (appended bs (some (length bs)) (d p)) d);
  mkdir = λ p d. (made, d);
  open_read = λ p d. true;
  pread = λ p len off d. some (take len (drop off (or_empty (d p))));
  names = λ p d. some [];
  kind = λ p d. some regular;
}

pub simple-IsLocal : IsLocal simple
simple-IsLocal = record {
  open-other = λ p q d h. set-other p q (some (or_empty (d p))) d h;
  write-other = λ p q bs d h. set-other p q (appended bs (some (length bs)) (d p)) d h;
  mkdir-other = λ p q d h. refl;
  write-same = λ p bs d. set-same p (appended bs (some (length bs)) (d p)) d;
}

abbrev pub patient : Setting
patient = record setting { fuel = 300 }

abbrev pub nothing_yet : Work simple
nothing_yet = record {
  disk = set_file (codes "pub") (some (codes "ab")) (λ p. none);
  flow = flow_reset 0;
  turn = 0;
}

abbrev command : List Bytes
command = codes "cifs://SRV/pub/a*" ∷ codes "pub" ∷ []

-- Two sources for a destination that is no directory: the run ends with the status 2.
abbrev two_sources : List Bytes
two_sources = codes "cifs://SRV/pub/a" ∷ codes "cifs://SRV/pub/b" ∷ codes "pub" ∷ []

program_main-Ends_example : Returns (Ends simple nothing_yet.disk) (
    program_main simple patient
      (λ a p h. some asking)
      (λ t. t)
      0
      (codes "cifscp")
      []
      two_sources
      nothing_yet.disk)
program_main-Ends_example =
    program_main-Ends simple patient (λ a p h. some asking) (λ t. t) 0 (codes "cifscp") []
      two_sources nothing_yet.disk

abbrev status_of : Reply (Exit simple) → Option ℕ
status_of (reply e) = some e.status
status_of faulty = none
status_of endless = none

is_refused :
    status_of (
      program_main simple patient
        (λ a p h. some asking)
        (λ t. t)
        0
        (codes "cifscp")
        []
        two_sources
        nothing_yet.disk)
    ≡ some 2
unfolding program_main starts_with cifscp.Cstring.c_str cifscp.Cstring.strstr cifscp.Cstring.strrchr
is_refused = refl
