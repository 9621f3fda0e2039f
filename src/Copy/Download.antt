-- ===== src/Copy/Download.antt =====
-- A download against the remote file: what it writes, and that it ends.
use mathlib.Core.Path.{subst}
use cifscp.Base.{
  ℕ, zero, suc, ◌-◌, ◌≤◌, ◌<◌, ◌≡◌, refl, sym, ◌∙◌, inl, inr, false, some, ◌∷◌, ◌++◌, arith, ◌==◌,
  Bool-cases, length, take, take-all,
}
use cifscp.Base.Strings.{Bytes}
use cifscp.Flow.{Flow}
use cifscp.Copy.{
  Reader, Disk, Clock, asked, Copy, Copied, copied, metered, download_got, download_loop,
  download_file,
}
use cifscp.Copy.Follows.{
  Reads, Lively, Takes, Follows, IsBeginning, write_all, ahead, Follows-ahead, got-Follows,
}

loop_stop :
    (reader : Reader) (disk : Disk) (clock : Clock) (fuel t : ℕ) (s : Copy)
    → s.rem ≡ 0
    → download_loop reader disk clock (suc fuel) t s ≡ copied s
unfolding download_loop
loop_stop reader disk clock fuel t s h = rw h

loop_turn :
    (reader : Reader) (disk : Disk) (clock : Clock) (fuel t : ℕ) (s : Copy)
    → s.rem == 0 ≡ false
    → download_loop reader disk clock (suc fuel) t s
      ≡ download_got
          (download_loop reader disk clock fuel (suc t))
          disk
          clock
          t
          (reader t s.off (asked s))
          s
unfolding download_loop
loop_turn reader disk clock fuel t s h = rw (h, download_loop)

asked_le : (s : Copy) → asked s ≤ s.rem
asked_le s = ground arith

loop-IsBeginning :
    (file : Bytes) (reader : Reader) (disk : Disk) (clock : Clock) (fuel t : ℕ) (s : Copy)
    → Reads file reader
    → Follows file s
    → IsBeginning file (download_loop reader disk clock fuel t s)
unfolding download_loop
loop-IsBeginning file reader disk clock zero t s hr v = tt
loop-IsBeginning file reader disk clock (suc fuel) t s hr v = elim (Bool-cases (s.rem == 0)) [
  | inl y ↦
      subst (IsBeginning file) (sym (loop_stop reader disk clock fuel t s (ground arith)))
        (v.begins ∙ take-all s.off file (ground (arith, v.rest)))
  | inr n ↦ subst (IsBeginning file) (sym (loop_turn reader disk clock fuel t s n)) (
      got-Follows file (download_loop reader disk clock fuel (suc t)) disk clock t
        (reader t s.off (asked s)) s v
        (λ bs e.
          let (same, le) = hr.honest t s.off (asked s) bs e in
          (same, omega (arith, le, asked_le s)))
        (λ s'. loop-IsBeginning file reader disk clock fuel (suc t) s' hr))
]

-- Whatever fails on the way, a download that starts from a beginning of the remote file leaves a
-- beginning of it, from which the next one can carry on; and when it reports success the whole file
-- is there. Assumed is that reads give the file's bytes, and no more than asked for.
pub download_file-IsBeginning :
    (file dst : Bytes) (reader : Reader) (disk : Disk) (clock : Clock) (fuel : ℕ) (flow : Flow)
    → Reads file reader
    → dst ≡ take (length dst) file
    → length dst ≤ length file
    → IsBeginning file (download_file reader disk clock fuel (length file) dst flow)
unfolding download_file
download_file-IsBeginning file dst reader disk clock fuel flow hr h le =
    loop-IsBeginning file reader disk clock fuel 0 _ hr (record { begins = h; rest = omega arith })

-- The call succeeds, and the copy is whole.
abbrev pub Succeeds : Bytes → Copied → Type 0
Succeeds file r = (s : Copy) × (r ≡ copied s) × (s.dst ≡ file)

loop_gives :
    (reader : Reader) (disk : Disk) (clock : Clock) (fuel t : ℕ) (s : Copy) (c : ℕ) (cs : Bytes)
    → Takes disk
    → s.rem == 0 ≡ false
    → reader t s.off (asked s) ≡ some (c ∷ cs)
    → download_loop reader disk clock (suc fuel) t s
      ≡ download_loop reader disk clock fuel (suc t) (
          metered clock t
            (length (c ∷ cs))
            (record (ahead s (length (c ∷ cs))) { dst = s.dst ++ (c ∷ cs) }))
unfolding download_got
loop_gives reader disk clock fuel t s c cs hd h e =
    loop_turn reader disk clock fuel t s h
    ∙ rw (e, hd t (length (c ∷ cs)), download_got)
        (write_all (download_loop reader disk clock fuel (suc t)) clock t (c ∷ cs) (length (c ∷ cs))
          (ahead s (length (c ∷ cs))) refl)

loop-Succeeds :
    (file : Bytes) (reader : Reader) (disk : Disk) (clock : Clock) (fuel t : ℕ) (s : Copy)
    → Reads file reader
    → Lively file reader
    → Takes disk
    → Follows file s
    → s.rem < fuel
    → Succeeds file (download_loop reader disk clock fuel t s)
loop-Succeeds file reader disk clock zero t s hr hl hd v h = absurd (omega arith)
loop-Succeeds file reader disk clock (suc fuel) t s hr hl hd v h = elim (Bool-cases (s.rem == 0)) [
  | inl y ↦ (
    s,
    loop_stop reader disk clock fuel t s (ground arith),
    v.begins ∙ take-all s.off file (ground (arith, v.rest)),
  )
  | inr n ↦
      given n (hl.answers t s.off (asked s) (ground (arith, v.rest)) (ground arith))
        (λ s'. loop-Succeeds file reader disk clock fuel (suc t) s' hr hl hd)
]
  where
    given :
        s.rem == 0 ≡ false
        → (c : ℕ) × (cs : Bytes) × (reader t s.off (asked s) ≡ some (c ∷ cs))
        → ((s' : Copy)
            → Follows file s'
            → s'.rem < fuel
            → Succeeds file (download_loop reader disk clock fuel (suc t) s'))
        → Succeeds file (download_loop reader disk clock (suc fuel) t s)
    given n (c, cs, e) ih =
        let (same, le) = hr.honest t s.off (asked s) (c ∷ cs) e in
        subst (Succeeds file) (sym (loop_gives reader disk clock fuel t s c cs hd n e)) (
          ih _ (Follows-ahead file (c ∷ cs) s clock t v same (omega (arith, le, asked_le s)))
            (ground (arith, le, asked_le s)))

-- A download that meets no error carries a beginning of the remote file on to the whole file and
-- reports success, after at most one turn for each byte that was missing.
pub download_file-Succeeds :
    (file dst : Bytes) (reader : Reader) (disk : Disk) (clock : Clock) (fuel : ℕ) (flow : Flow)
    → Reads file reader
    → Lively file reader
    → Takes disk
    → dst ≡ take (length dst) file
    → length dst ≤ length file
    → length file - length dst < fuel
    → Succeeds file (download_file reader disk clock fuel (length file) dst flow)
unfolding download_file
download_file-Succeeds file dst reader disk clock fuel flow hr hl hd h le enough =
    loop-Succeeds file reader disk clock fuel 0 _ hr hl hd
      (record { begins = h; rest = omega arith }) enough
