-- ===== src/Copy/Follows.antt =====
-- A download whose file is a beginning of the remote one, and the writes that keep it one.
use mathlib.Core.Path.{subst}
use cifscp.Base.{
  ℕ, ◌+◌, ◌-◌, ◌≤◌, ◌<◌, min, ◌≡◌, refl, sym, ap, ◌∙◌, ◌≢◌, inl, inr, Option, none, some, [], ◌∷◌,
  ◌++◌, arith, ◌==◌, Bool-cases, length, take, take_self, drop, take-add, take-take, take-all,
}
use cifscp.Base.Strings.{Bytes}
use cifscp.Copy.{
  Reader, Disk, Clock, Copy, Copied, copied, copy_failed, copy_hang, metered, download_write,
  download_got,
}

-- A reader of `file`: an answer is the file's bytes at the offset, at most as many as asked for.
pub record Reads (file : Bytes) (reader : Reader) : Type 0 where
  pub honest :
      (t off len : ℕ) (bs : Bytes)
      → reader t off len ≡ some bs
      → (bs ≡ take (length bs) (drop off file)) × (length bs ≤ len)

-- A reader that does not fail, and gives something inside the file.
pub record Lively (file : Bytes) (reader : Reader) : Type 0 where
  pub answers :
      (t off len : ℕ)
      → off < length file
      → 0 < len
      → (c : ℕ) × (cs : Bytes) × (reader t off len ≡ some (c ∷ cs))

-- A disk that takes all.
abbrev pub Takes : Disk → Type 0
Takes disk = (t n : ℕ) → disk t n ≡ some n

-- The file that is written holds a beginning of the remote one, up to the offset.
pub record Follows (file : Bytes) (s : Copy) : Type 0 where
  pub begins : s.dst ≡ take s.off file
  pub rest : s.off + s.rem ≡ length file

-- What a call leaves is a beginning of the remote file.
abbrev pub IsBeginning : Bytes → Copied → Type 0
IsBeginning file (copied s) = s.dst ≡ file
IsBeginning file (copy_failed s) = s.dst ≡ take (length s.dst) file
IsBeginning file copy_hang = Unit

take_ahead :
    (file : Bytes) (off k n : ℕ) (bs : Bytes)
    → bs ≡ take n (drop off file)
    → take off file ++ take k bs ≡ take (off + min k n) file
take_ahead file off k n bs h =
    rw (h, take-take k n (drop off file)) (sym (take-add off (min k n) file))

pub write_all :
    (next : Copy → Copied) (clock : Clock) (t : ℕ) (bs : Bytes) (k : ℕ) (s : Copy)
    → k ≡ length bs
    → download_write next clock t bs (some k) s
      ≡ next (metered clock t (length bs) (record s { dst = s.dst ++ bs }))
unfolding download_write
write_all next clock t bs k s h = rw (h, take-all (length bs) bs (omega arith)) (ground arith)

write_some :
    (next : Copy → Copied) (clock : Clock) (t : ℕ) (bs : Bytes) (k : ℕ) (s : Copy)
    → k ≢ length bs
    → download_write next clock t bs (some k) s
      ≡ copy_failed (record s { dst = s.dst ++ take k bs })
unfolding download_write
write_some next clock t bs k s h = ground arith

-- The state after `n` bytes of the file.
abbrev pub ahead : Copy → ℕ → Copy
ahead s n = record s { off = s.off + n; rem = s.rem - n }

pub Follows-ahead :
    (file bs : Bytes) (s : Copy) (clock : Clock) (t : ℕ)
    → Follows file s
    → bs ≡ take (length bs) (drop s.off file)
    → length bs ≤ s.rem
    → Follows file
        (metered clock t (length bs) (record (ahead s (length bs)) { dst = s.dst ++ bs }))
Follows-ahead file bs s clock t v e le = record {
  begins = rw (v.begins) (ap (λ z. take s.off file ++ z) e ∙ sym (take-add s.off (length bs) file));
  rest = omega (arith, v.rest);
}

-- What a call writes continues the beginning, also when the disk takes only some of it.
write-Follows :
    (file : Bytes) (next : Copy → Copied) (clock : Clock) (t : ℕ) (bs : Bytes) (k : Option ℕ)
    (s : Copy)
    → Follows file s
    → bs ≡ take (length bs) (drop s.off file)
    → length bs ≤ s.rem
    → ((s' : Copy) → Follows file s' → IsBeginning file (next s'))
    → IsBeginning file (download_write next clock t bs k (ahead s (length bs)))
unfolding download_write
write-Follows file next clock t bs none s v e le ih = rw (v.begins) (take_self s.off file)
write-Follows file next clock t bs (some k) s v e le ih = elim (Bool-cases (k == length bs)) [
  | inl y ↦
      subst (IsBeginning file)
        (sym (write_all next clock t bs k (ahead s (length bs)) (ground arith)))
        (ih _ (Follows-ahead file bs s clock t v e le))
  | inr n ↦
      subst (IsBeginning file)
        (sym (write_some next clock t bs k (ahead s (length bs)) (ground arith)))
        (rw (v.begins, take_ahead file s.off k (length bs) bs e)
          (take_self (s.off + min k (length bs)) file))
]

pub got-Follows :
    (file : Bytes) (next : Copy → Copied) (disk : Disk) (clock : Clock) (t : ℕ) (r : Option Bytes)
    (s : Copy)
    → Follows file s
    → ((bs : Bytes) → r ≡ some bs → (bs ≡ take (length bs) (drop s.off file)) × (length bs ≤ s.rem))
    → ((s' : Copy) → Follows file s' → IsBeginning file (next s'))
    → IsBeginning file (download_got next disk clock t r s)
unfolding download_got
got-Follows file next disk clock t none s v hr ih = rw (v.begins) (take_self s.off file)
got-Follows file next disk clock t (some []) s v hr ih =
    ih _ (record { begins = v.begins; rest = v.rest })
got-Follows file next disk clock t (some (c ∷ cs)) s v hr ih =
    let (e, le) = hr (c ∷ cs) refl in
    write-Follows file next clock t (c ∷ cs) (disk t (length (c ∷ cs))) s v e le ih
