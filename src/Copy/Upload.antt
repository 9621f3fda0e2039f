-- ===== src/Copy/Upload.antt =====
-- An upload against the local file: when it succeeds, and with what.
use mathlib.Core.Path.{subst}
use mathlib.Core.List.{append-nil}
use cifscp.Base.{
  ℕ, zero, suc, ◌+◌, ◌-◌, ◌≤◌, ◌<◌, min, ◌≡◌, sym, ap, ◌∙◌, inl, inr, false, some, ◌∷◌, ◌++◌, arith,
  ◌==◌, Bool-cases, length, take, drop, length-take, take-add, take-take, take-all, drop-all,
}
use cifscp.Base.Strings.{Bytes}
use cifscp.Flow.{Flow}
use cifscp.Copy.{
  Reader, Uploader, Clock, piece, Copy, copied, metered, upload_wrote, upload_got, upload_loop,
  upload_file,
}
use cifscp.Copy.Follows.{Reads, Lively, Follows}
use cifscp.Copy.Download.{Succeeds}

-- A server that takes some of what it is given.
abbrev pub Accepts : Uploader → Type 0
Accepts server = (t n : ℕ) → 0 < n → (k : ℕ) × (server t n ≡ some k) × (0 < k) × (k ≤ n)

-- The state after the server has taken `k` bytes of `bs`.
abbrev written_on : Copy → Bytes → ℕ → Copy
written_on s bs k = record s {
  dst = take s.off s.dst ++ take k bs ++ drop (s.off + k) s.dst;
  off = s.off + k;
  rem = s.rem - k;
}

overwritten :
    (file bs dst : Bytes) (off k : ℕ)
    → dst ≡ take off file
    → off ≤ length file
    → bs ≡ take (length bs) (drop off file)
    → k ≤ length bs
    → take off dst ++ take k bs ++ drop (off + k) dst ≡ take (off + k) file
overwritten file bs dst off k h inside e le =
    let self : min off off ≡ off = omega arith in
    let low : min k (length bs) ≡ k = omega arith in
    let short : length (take off file) ≤ off + k = omega (arith, length-take off file) in
    let piece_lem : take k bs ≡ take k (drop off file) =
      ap (take k) e ∙ take-take k (length bs) (drop off file) ∙ rw (low) in
    rw
      (
        h,
        take-take off off file,
        self,
        drop-all (off + k) (take off file) short,
        piece_lem,
        append-nil (take off file ++ take k (drop off file)),
      )
      (sym (take-add off k file))

loop_stop :
    (reader : Reader) (server : Uploader) (clock : Clock) (fuel t : ℕ) (s : Copy)
    → s.rem ≡ 0
    → upload_loop reader server clock (suc fuel) t s ≡ copied s
unfolding upload_loop
loop_stop reader server clock fuel t s h = rw h

loop_gives :
    (reader : Reader) (server : Uploader) (clock : Clock) (fuel t : ℕ) (s : Copy) (bs : Bytes)
    (k : ℕ)
    → s.rem == 0 ≡ false
    → reader t s.off (piece s) ≡ some bs
    → server t (length bs) ≡ some k
    → upload_loop reader server clock (suc fuel) t s
      ≡ upload_loop reader server clock fuel (suc t) (metered clock t k (written_on s bs k))
unfolding upload_loop upload_got upload_wrote
loop_gives reader server clock fuel t s bs k h e f = rw (h, e, f, upload_loop, upload_got)

loop-Succeeds :
    (file : Bytes) (reader : Reader) (server : Uploader) (clock : Clock) (fuel t : ℕ) (s : Copy)
    → Reads file reader
    → Lively file reader
    → Accepts server
    → Follows file s
    → s.rem < fuel
    → Succeeds file (upload_loop reader server clock fuel t s)
loop-Succeeds file reader server clock zero t s hr hl hd v h = absurd (omega arith)
loop-Succeeds file reader server clock (suc fuel) t s hr hl hd v h =
    elim (Bool-cases (s.rem == 0)) [
      | inl y ↦ (
        s,
        loop_stop reader server clock fuel t s (ground arith),
        v.begins ∙ take-all s.off file (ground (arith, v.rest)),
      )
      | inr n ↦
          given n (hl.answers t s.off (piece s) (ground (arith, v.rest)) (ground arith))
            (λ s'. loop-Succeeds file reader server clock fuel (suc t) s' hr hl hd)
    ]
  where
    given :
        s.rem == 0 ≡ false
        → (c : ℕ) × (cs : Bytes) × (reader t s.off (piece s) ≡ some (c ∷ cs))
        → ((s' : Copy)
            → Follows file s'
            → s'.rem < fuel
            → Succeeds file (upload_loop reader server clock fuel (suc t) s'))
        → Succeeds file (upload_loop reader server clock (suc fuel) t s)
    given n (c, cs, e) ih =
        let (same, le) = hr.honest t s.off (piece s) (c ∷ cs) e in
        let (k, f, some_taken, low) = hd t (length (c ∷ cs)) (omega arith) in
        let asked_le : piece s ≤ s.rem = ground arith in
        subst (Succeeds file) (sym (loop_gives reader server clock fuel t s (c ∷ cs) k n e f)) (
          ih _
            (record {
              begins =
                  overwritten file (c ∷ cs) s.dst s.off k v.begins (omega (arith, v.rest)) same low;
              rest = omega (arith, v.rest, le, asked_le, low);
            })
            (omega (arith, le, asked_le, low, some_taken, h)))

-- An upload whose reads and writes do not fail carries a beginning of the local file, which stands
-- on the server, on to the whole file and reports success, after at most one turn for each byte that
-- was missing. The server may take less than it is given, but takes something.
pub upload_file-Succeeds :
    (file dst : Bytes) (reader : Reader) (server : Uploader) (clock : Clock) (fuel : ℕ)
    (flow : Flow)
    → Reads file reader
    → Lively file reader
    → Accepts server
    → dst ≡ take (length dst) file
    → length dst ≤ length file
    → length file - length dst < fuel
    → Succeeds file (upload_file reader server clock fuel (length file) dst flow)
unfolding upload_file
upload_file-Succeeds file dst reader server clock fuel flow hr hl hd h le enough =
    loop-Succeeds file reader server clock fuel 0 _ hr hl hd
      (record { begins = h; rest = omega arith }) enough
