-- ===== src/Tests/Copies.antt =====
-- Copies, the meter, and sizes.
use mathlib.Core.Path.{subst}
use mathlib.Core.Option.{some-injective}
use cifscp.Base.{
  ℕ, zero, suc, ◌+◌, ◌-◌, ◌*◌, ◌<◌, min, ◌≡◌, refl, ap, some, List, [], ◌∷◌, arith, ◌==◌,
  if◌then◌else◌, length, take, drop, length-take, length-drop, take_self,
}
use cifscp.Base.Strings.{Bytes, codes}
use cifscp.Cstring.{pos}
use cifscp.Flow.{Flow, word64, flow_reset, flow_step}
use cifscp.Flow.Inv.{IsFlow, flow_step_limit}
use cifscp.Human.{decode_hsize, htime}
use cifscp.Copy.{Reader, Disk, Uploader, Clock, download_file, upload_file}
use cifscp.Copy.Follows.{Reads, Lively, IsBeginning}
use cifscp.Copy.Download.{Succeeds, download_file-IsBeginning}
use cifscp.Copy.Upload.{Accepts, upload_file-Succeeds}

abbrev text : Bytes
text = codes "abcdefg"

-- A reader that gives at most two bytes at a time.
abbrev slow : Reader
slow t off len = some (take (min 2 len) (drop off text))

slow-Reads : Reads text slow
slow-Reads = record {
  honest = λ t off len bs e.
      let same = some-injective _ _ e in
      (
        subst (λ z. z ≡ take (length z) (drop off text)) same
            (take_self (min 2 len) (drop off text)),
        omega (arith, ap length same, length-take (min 2 len) (drop off text)),
      );
}

cut_some :
    (n : ℕ) (xs : Bytes)
    → 0 < n
    → 0 < length xs
    → (c : ℕ) × (cs : Bytes) × (some (take n xs) ≡ some (c ∷ cs))
cut_some zero xs h k = absurd (omega arith)
cut_some (suc n) [] h k = absurd (omega arith)
cut_some (suc n) (x ∷ xs) h k = (x, take n xs, refl)

slow-Lively : Lively text slow
slow-Lively = record {
  answers = λ t off len inside asks.
      cut_some (min 2 len) (drop off text) (omega (arith, asks))
        (omega (arith, inside, length-drop off text));
}

abbrev all : Disk
all t n = some n

abbrev tick : Clock
tick t = 5 + t

-- A server that takes one byte at a time.
abbrev one : Uploader
one t n = some (min 1 n)

one-Accepts : Accepts one
one-Accepts t n h = (min 1 n, refl, omega (arith, h), omega arith)

download_file-IsBeginning_example : IsBeginning text (
    download_file slow
      (λ t n. if t == 1 then some 1 else some n)
      tick
      9
      7
      (codes "abc")
      (flow_reset 0))
download_file-IsBeginning_example =
    download_file-IsBeginning text (codes "abc") slow (λ t n. if t == 1 then some 1 else some n)
      tick 9 (flow_reset 0) slow-Reads refl (omega arith)

upload_file-Succeeds_example :
    Succeeds text (upload_file slow one tick 9 7 (codes "abc") (flow_reset 0))
upload_file-Succeeds_example =
    upload_file-Succeeds text (codes "abc") slow one tick 9 (flow_reset 0) slow-Reads slow-Lively
      one-Accepts refl (omega arith) (omega arith)

abbrev calls : List (ℕ × ℕ)
calls = (600000, 100) ∷ (700000, 50) ∷ (1300000, 7) ∷ []

-- 1000 bytes a second at most, and 500 in the first tenth of a second.
abbrev limited : Flow
limited = record (flow_reset 0) { limit = pos 1000 }

limited-IsFlow : IsFlow limited
unfolding flow_reset
limited-IsFlow = omega arith

flow_step_limit_example :
    (limited.d + 500) * 1000000 < (100000 - limited.a + (flow_step 100000 limited 500).1 + 1) * 1000
unfolding flow_reset
flow_step_limit_example =
    flow_step_limit 100000 limited 500 999 limited-IsFlow refl (omega arith) (omega arith)
      (omega arith)

waits : (flow_step 100000 limited 500).1 ≡ 400000
unfolding flow_step flow_reset
waits = refl

-- A number without a suffix: what happens to stand behind its terminator decides.
plain_refused : decode_hsize (codes "10") (b'-' ∷ []) ≡ some (word64 - 1)
unfolding decode_hsize cifscp.Cstring.strtol_from
plain_refused = refl

a_day : htime 90061 ≡ codes "1 days 01:01:01"
unfolding htime
a_day = refl
