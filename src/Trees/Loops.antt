-- ===== src/Trees/Loops.antt =====
-- The loop of a download over a connection, against the loop of Copy.
use mathlib.Core.Path.{subst}
use cifscp.Base.{
  ℕ, zero, suc, ◌+◌, ◌-◌, ◌≤◌, ◌≡◌, refl, sym, ap, ◌∙◌, inl, inr, Bool, true, false, Option, none,
  some, [], ◌∷◌, arith, ◌==◌, if◌then◌else◌, Bool-cases, ==_iff, ◌&&◌, length,
}
use cifscp.Base.Strings.{Bytes}
use cifscp.Connect.{Conn, done, refused, fault, no_end}
use cifscp.Connect.Request.{After}
use cifscp.Proto.Files.{cifs_read}
use cifscp.Copy.{
  Clock, Reader, Disk, Copy, Copied, copied, copy_failed, copy_hang, asked, download_write,
  download_got, download_loop,
}
use cifscp.Walk.{Setting}
use cifscp.Trees.Disks.{Local}
use cifscp.Trees.{Work, Copying}

abbrev SameReader : ℕ → Reader → Reader → Type 0
SameReader t r s = (u off len : ℕ) → t ≤ u → r u off len ≡ s u off len

abbrev SameDisk : ℕ → Disk → Disk → Type 0
SameDisk t d e = (u n : ℕ) → t ≤ u → d u n ≡ e u n

write-next :
    (next next' : Copy → Copied) (clock : Clock) (t : ℕ) (bs : Bytes) (k : Option ℕ) (s : Copy)
    → ((s' : Copy) → next s' ≡ next' s')
    → download_write next clock t bs k s ≡ download_write next' clock t bs k s
unfolding download_write
write-next next next' clock t bs none s h = refl
write-next next next' clock t bs (some k) s h = elim (Bool-cases (k == length bs)) [
  | inl e ↦ rw (e) (h _)
  | inr e ↦ rw (e)
]

got-next :
    (next next' : Copy → Copied) (d d' : Disk) (clock : Clock) (t : ℕ) (r : Option Bytes) (s : Copy)
    → ((s' : Copy) → next s' ≡ next' s')
    → ((n : ℕ) → d t n ≡ d' t n)
    → download_got next d clock t r s ≡ download_got next' d' clock t r s
unfolding download_got
got-next next next' d d' clock t none s h k = refl
got-next next next' d d' clock t (some []) s h k = h _
got-next next next' d d' clock t (some (c ∷ cs)) s h k =
    let n = length (c ∷ cs) in
    let s' = record s { off = s.off + n; rem = s.rem - n } in
    write-next next next' clock t (c ∷ cs) (d t n) s' h
    ∙ ap (λ a. download_write next' clock t (c ∷ cs) a s') (k n)

and_right : (a b : Bool) → (a && b) ≡ true → b ≡ true
and_right true b h = h
and_right false b h = cc

-- A turn of the loop of Copy.
loop_turn :
    (r : Reader) (d : Disk) (clock : Clock) (fuel t : ℕ) (s : Copy)
    → s.rem == 0 ≡ false
    → download_loop r d clock (suc fuel) t s
      ≡ download_got (download_loop r d clock fuel (suc t)) d clock t (r t s.off (asked s)) s
unfolding download_loop
loop_turn r d clock fuel t s e = rw (e, download_loop)

pub loop_stop :
    (r : Reader) (d : Disk) (clock : Clock) (fuel t : ℕ) (s : Copy)
    → s.rem == 0 ≡ true
    → download_loop r d clock (suc fuel) t s ≡ copied s
unfolding download_loop
loop_stop r d clock fuel t s e = rw (e, download_loop)

-- The loop asks about the turns that come, and no others.
loop-turns :
    (r r' : Reader) (d d' : Disk) (clock : Clock) (fuel t : ℕ) (s : Copy)
    → SameReader t r r'
    → SameDisk t d d'
    → download_loop r d clock fuel t s ≡ download_loop r' d' clock fuel t s
unfolding download_loop
loop-turns r r' d d' clock zero t s h k = refl
loop-turns r r' d d' clock (suc fuel) t s h k = elim (Bool-cases (s.rem == 0)) [
  | inl e ↦ loop_stop r d clock fuel t s e ∙ sym (loop_stop r' d' clock fuel t s e)
  | inr e ↦
      loop_turn r d clock fuel t s e
      ∙ ap (λ a. download_got (download_loop r d clock fuel (suc t)) d clock t a s)
          (h t s.off (asked s) (omega arith))
      ∙ got-next (download_loop r d clock fuel (suc t)) (download_loop r' d' clock fuel (suc t)) d
          d' clock t (r' t s.off (asked s)) s
          (λ s'.
            loop-turns r r' d d' clock fuel (suc t) s' (λ u o n le. h u o n (omega arith))
              (λ u n le. k u n (omega arith)))
          (λ n. k t n (omega arith))
      ∙ sym (loop_turn r' d' clock fuel t s e)
]

module _ (L : Local) (g : Setting) (clock : Clock) (fid : ℕ) (dst : Bytes) where
  -- What a copy of Copy has reached, on the disk.
  abbrev pub Mirrors : Copied → Bool × Work L → Type 0
  Mirrors (copied s) (ok, w) = (ok ≡ true) × (L.content w.disk dst ≡ some s.dst) × (w.flow ≡ s.flow)
  Mirrors (copy_failed s) (ok, w) =
      (ok ≡ false) × (L.content w.disk dst ≡ some s.dst) × (w.flow ≡ s.flow)
  Mirrors copy_hang r = ⊥

  -- An answer of `cifs_read`, for an offset and a length.
  abbrev pub Reads : ℕ → ℕ → Option Bytes → Type 0
  Reads off len a =
      (bs : Bytes) → a ≡ some bs → (c c' : Conn) × (cifs_read g.fuel fid len off c ≡ done bs c')

  abbrev pub IsRemote : Reader → Type 0
  IsRemote r = (u off len : ℕ) → Reads off len (r u off len)

  -- The run is one of Copy's, for a reader with answers of `cifs_read` and some disk.
  abbrev pub Refines : ℕ → ℕ → Copy → Copying L → Type 0
  Refines fuel t s r =
      After
        (λ a c.
          (reader : Reader) × (disk : Disk) × IsRemote reader
          × Mirrors (download_loop reader disk clock fuel t s) a)
        r

  -- The copy that a run has got to.
  abbrev pub at_work : Bytes → ℕ → ℕ → Work L → Copy
  at_work s off rem w = record { dst = s; off = off; rem = rem; flow = w.flow }

  -- A reader and a disk that answer `a` and `k` at turn `t`, and as others do behind it.
  abbrev reader_at : ℕ → Copy → Option Bytes → Reader → Reader
  reader_at t s a r u off len =
      if u == t && (off == s.off && len == asked s) then a else r u off len

  IsRemote-reader_at :
      (t : ℕ) (s : Copy) (a : Option Bytes) (r : Reader)
      → Reads s.off (asked s) a
      → IsRemote r
      → IsRemote (reader_at t s a r)
  IsRemote-reader_at t s a r h v u off len bs e =
      elim (Bool-cases (u == t && (off == s.off && len == asked s))) [
        | inl y ↦
            let same_off : off ≡ s.off = ground arith in
            let same_len : len ≡ asked s = (==_iff len (asked s)).0 (
              and_right (off == s.off) (len == asked s)
                (and_right (u == t) (off == s.off && len == asked s) y)) in
            rw (same_off, same_len) (h bs (rw y at e))
        | inr n ↦ v u off len bs (rw n at e)
      ]

  abbrev disk_at : ℕ → Option ℕ → Disk → Disk
  disk_at t k d u n = if u == t then k else d u n

  -- What one turn makes of its answers.
  abbrev pub Turns : ℕ → Copy → Option Bytes → Option ℕ → ((Copy → Copied) → Copied) → Type 0
  Turns t s a k result =
      (next : Copy → Copied) (d : Disk)
      → ((n : ℕ) → d t n ≡ k)
      → download_got next d clock t a s ≡ result next

  turn_lem :
      (fuel t : ℕ) (s : Copy) (a : Option Bytes) (k : Option ℕ) (result : (Copy → Copied) → Copied)
      (r : Reader) (d : Disk)
      → s.rem == 0 ≡ false
      → Turns t s a k result
      → download_loop (reader_at t s a r) (disk_at t k d) clock (suc fuel) t s
        ≡ result (download_loop (reader_at t s a r) (disk_at t k d) clock fuel (suc t))
  turn_lem fuel t s a k result r d e h =
      let self : (t == t) ≡ true = ground arith in
      let here : (s.off == s.off) ≡ true = ground arith in
      let this : (asked s == asked s) ≡ true = (==_iff (asked s) (asked s)).1 refl in
      loop_turn (reader_at t s a r) (disk_at t k d) clock fuel t s e
      ∙ rw (self, here, this)
          (h (download_loop (reader_at t s a r) (disk_at t k d) clock fuel (suc t)) (disk_at t k d)
            (λ n. rw self))

  pub ends-Refines :
      (fuel t : ℕ) (s : Copy) (a : Option Bytes) (k : Option ℕ) (end : Copied) (x : Bool × Work L)
      (c : Conn)
      → s.rem == 0 ≡ false
      → Turns t s a k (λ next. end)
      → Reads s.off (asked s) a
      → Mirrors end x
      → Refines (suc fuel) t s (done x c)
  ends-Refines fuel t s a k end x c e h f m =
      let r : Reader = λ u o n. none in
      let d : Disk = λ u n. none in
      (
        reader_at t s a r,
        disk_at t k d,
        IsRemote-reader_at t s a r f (λ u o n bs e'. cc),
        subst (λ z. Mirrors z x) (sym (turn_lem fuel t s a k (λ next. end) r d e h)) m,
      )

  pub goes-Refines :
      (fuel t : ℕ) (s s2 : Copy) (a : Option Bytes) (k : Option ℕ) (out : Copying L)
      → s.rem == 0 ≡ false
      → Turns t s a k (λ next. next s2)
      → Reads s.off (asked s) a
      → Refines fuel (suc t) s2 out
      → Refines (suc fuel) t s out
  goes-Refines fuel t s s2 a k (done x c) e h f (r, d, v, m) =
      let other : (u : ℕ) → suc t ≤ u → (u == t) ≡ false = λ u le. ground arith in
      (
        reader_at t s a r,
        disk_at t k d,
        IsRemote-reader_at t s a r f v,
        subst (λ z. Mirrors z x)
            (sym (
              turn_lem fuel t s a k (λ next. next s2) r d e h
              ∙ loop-turns (reader_at t s a r) r (disk_at t k d) d clock fuel (suc t) s2
                  (λ u o n le. rw (other u le)) (λ u n le. rw (other u le))))
            m,
      )
  goes-Refines fuel t s s2 a k (refused w c) e h f i = tt
  goes-Refines fuel t s s2 a k fault e h f i = tt
  goes-Refines fuel t s s2 a k no_end e h f i = tt
