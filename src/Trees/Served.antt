-- ===== src/Trees/Served.antt =====
-- A download from a server that answers every read with the next piece of the file.
use mathlib.Core.Path.{subst}
use cifscp.Base.{
  ℕ, zero, suc, ◌+◌, ◌-◌, ◌≤◌, ◌<◌, ◌≡◌, refl, sym, ap, ◌∙◌, true, false, some, ◌∷◌, ◌++◌, arith,
  ◌==◌, length, take, drop, take-add, take-all,
}
use cifscp.Base.Strings.{Bytes}
use cifscp.Connect.{Conn, done}
use cifscp.Proto.Files.{cifs_read}
use cifscp.Copy.{Clock}
use cifscp.Walk.{Setting}
use cifscp.Trees.Disks.{Local, IsLocal}
use cifscp.Trees.{
  Work, Copying, on_disk, measured, ask, fetch_written, fetch_got, fetch_loop, fetch_from,
  fetch_into,
}

-- From an offset on, each read gives some of the bytes that are missing, until the file is whole.
pub data Serves (g : Setting) (fid : ℕ) (file : Bytes) : ℕ → Conn → Conn → Type 0 where
  whole : {off : ℕ} {c : Conn} → off ≡ length file → Serves g fid file off c c
  piece :
      {off b : ℕ} {bs : Bytes} {c c1 c2 : Conn}
      → off + length (b ∷ bs) ≤ length file
      → cifs_read g.fuel fid (ask (length file - off)) off c ≡ done (b ∷ bs) c1
      → b ∷ bs ≡ take (length (b ∷ bs)) (drop off file)
      → Serves g fid file (off + length (b ∷ bs)) c1 c2
      → Serves g fid file off c c2

module _ (L : Local) where
  -- The local disk takes all that is written to this file.
  abbrev pub TakesAll : Bytes → Type 0
  TakesAll dst = (bs : Bytes) (d : L.Disk) → (L.write dst bs d).0 ≡ some (length bs)

  -- The call has succeeded, the file is there, and the connection is `c`.
  abbrev pub Fetched : Bytes → Bytes → Conn → Copying L → Type 0
  Fetched dst file c r = (w : Work L) × (r ≡ done (true, w) c) × (L.content w.disk dst ≡ some file)

  abbrev after_write : Clock → Bytes → Bytes → Work L → Work L
  after_write clock dst bs w = measured L clock (length bs) (on_disk L w (L.write dst bs w.disk).1)

  got_all :
      (next : ℕ → ℕ → Work L → Conn → Copying L) (clock : Clock) (dst : Bytes) (off rem b : ℕ)
      (bs : Bytes) (w : Work L) (c : Conn)
      → TakesAll dst
      → fetch_got L next clock dst off rem w (b ∷ bs) c
        ≡ next (off + length (b ∷ bs)) (rem - length (b ∷ bs)) (after_write clock dst (b ∷ bs) w) c
  unfolding fetch_got fetch_written
  got_all next clock dst off rem b bs w c t =
      let same : length (b ∷ bs) == length (b ∷ bs) ≡ true = ground arith in
      rw (t (b ∷ bs) w.disk, same)

  turn_gives :
      (g : Setting) (clock : Clock) (fid turns : ℕ) (dst : Bytes) (off rem b : ℕ) (bs : Bytes)
      (w : Work L) (c c1 : Conn)
      → TakesAll dst
      → rem == 0 ≡ false
      → cifs_read g.fuel fid (ask rem) off c ≡ done (b ∷ bs) c1
      → fetch_loop L g clock fid dst (suc turns) off rem w c
        ≡ fetch_loop L g clock fid dst turns
            (off + length (b ∷ bs))
            (rem - length (b ∷ bs))
            (after_write clock dst (b ∷ bs) w)
            c1
  unfolding fetch_loop
  turn_gives g clock fid turns dst off rem b bs w c c1 t e r =
      rw (e, r, fetch_loop)
        (got_all (fetch_loop L g clock fid dst turns) clock dst off rem b bs w c1 t)

  -- What a piece leaves behind the beginning of the file.
  piece_written :
      (l : IsLocal L) (dst file : Bytes) (off b : ℕ) (bs : Bytes) (w : Work L) (clock : Clock)
      → TakesAll dst
      → L.content w.disk dst ≡ some (take off file)
      → b ∷ bs ≡ take (length (b ∷ bs)) (drop off file)
      → L.content (after_write clock dst (b ∷ bs) w).disk dst
        ≡ some (take (off + length (b ∷ bs)) file)
  piece_written l dst file off b bs w clock t h e =
      l.write-same dst (b ∷ bs) w.disk
      ∙ rw (t (b ∷ bs) w.disk, h)
          (ap some (
            ap (λ x. take off file ++ x) (take_self_all (b ∷ bs) ∙ e)
            ∙ sym (take-add off (length (b ∷ bs)) file)))
    where
      take_self_all : (xs : Bytes) → take (length xs) xs ≡ xs
      take_self_all xs = take-all (length xs) xs (omega arith)

  loop-Fetched :
      (l : IsLocal L) (g : Setting) (clock : Clock) (fid turns : ℕ) (dst file : Bytes) (off : ℕ)
      (w : Work L) (c c2 : Conn)
      → TakesAll dst
      → length file - off < turns
      → L.content w.disk dst ≡ some (take off file)
      → Serves g fid file off c c2
      → Fetched dst file c2 (fetch_loop L g clock fid dst turns off (length file - off) w c)
  unfolding fetch_loop
  loop-Fetched l g clock fid zero dst file off w c c2 t f h s = absurd (omega arith)
  loop-Fetched l g clock fid (suc turns) dst file off w c c2 t f h (whole e) =
      let z : (length file - off) == 0 ≡ true = ground arith in
      rw (z, fetch_loop) (w, refl, h ∙ ap some (take-all off file (omega arith)))
  loop-Fetched l g clock fid (suc turns) dst file off w c c2 t f h
        (piece {b = b} {bs = bs} {c1 = c1} fits r e s) =
      let n = length (b ∷ bs) in
      let left : (length file - off) == 0 ≡ false = ground arith in
      let w1 = after_write clock dst (b ∷ bs) w in
      let rest : length file - off - n ≡ length file - (off + n) = omega arith in
      subst (Fetched dst file c2)
        (sym (turn_gives g clock fid turns dst off (length file - off) b bs w c c1 t left r))
        (subst (λ m. Fetched dst file c2 (fetch_loop L g clock fid dst turns (off + n) m w1 c1))
          (sym rest)
          (loop-Fetched l g clock fid turns dst file (off + n) w1 c1 c2 t (omega arith)
            (piece_written l dst file off b bs w clock t h e) s))

-- A download that carries on a beginning of the remote file, from a server that answers every read
-- with some of the bytes that are missing, succeeds: the local file is then the whole remote one. Of
-- the local system it is assumed that the file opens with its beginning in it, and that writes
-- append all they are given. Fuel beyond the number of bytes that are missing is enough.
pub fetch_into-Fetched :
    (L : Local) (g : Setting) (clock : Clock) (fid off : ℕ) (dst file : Bytes) (w : Work L)
    (d : L.Disk) (c c2 : Conn)
    → IsLocal L
    → TakesAll L dst
    → L.open_write dst w.disk ≡ (true, d)
    → L.seek_end dst d ≡ some off
    → L.content d dst ≡ some (take off file)
    → length file - off < g.fuel
    → Serves g fid file off c c2
    → Fetched L dst file c2 (fetch_into L g clock fid dst (length file) w c)
unfolding fetch_into fetch_from
fetch_into-Fetched L g clock fid off dst file w d c c2 l t opens ends h f s =
    rw (opens, ends) (loop-Fetched L l g clock fid g.fuel dst file off (on_disk L w d) c c2 t f h s)
