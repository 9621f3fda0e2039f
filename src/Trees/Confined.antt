-- ===== src/Trees/Confined.antt =====
-- Where a download writes.
use mathlib.Core.List.{append_assoc}
use cifscp.Base.{
  ℕ, zero, suc, ◌-◌, ◌≡◌, ◌≢◌, refl, sym, ◌∙◌, inl, inr, Bool, true, false, ◌||◌, Option, none,
  some, [], ◌∷◌, ◌++◌, arith, ltb, ◌==◌, Bool-cases, length,
}
use cifscp.Base.Strings.{Bytes}
use cifscp.Cstring.{starts_with}
use cifscp.Connect.{Conn, Outcome, done, refused, fault, no_end}
use cifscp.Connect.Request.{After, and_then-After}
use cifscp.Proto.Files.{Stat, cifs_open, cifs_close, cifs_read}
use cifscp.Copy.{Clock}
use cifscp.Walk.{Setting, dropped}
use cifscp.Walk.Visits.{nothing}
use cifscp.Trees.Disks.{Local, IsLocal}
use cifscp.Trees.{
  below, read_only, Work, Copying, Onward, on_disk, ask, fetch_written, fetch_got, fetch_read,
  fetch_loop, fetch_from, fetch_into, closing, fetch_opened, fetch_file,
}

-- Neither `dst` nor below it.
pub record Outside (dst q : Bytes) : Type 0 where
  pub apart : q ≢ dst
  pub not_below : starts_with (dst ++ (b'/' ∷ [])) q ≡ false

starts_with-longer : (p s q : Bytes) → starts_with p q ≡ false → starts_with (p ++ s) q ≡ false
unfolding starts_with
starts_with-longer [] s q h = cc
starts_with-longer (c ∷ p) s [] h = refl
starts_with-longer (c ∷ p) s (d ∷ q) h = ground (arith, starts_with-longer p s q)

starts_with-append : (p s : Bytes) → starts_with p (p ++ s) ≡ true
unfolding starts_with
starts_with-append [] s = refl
starts_with-append (c ∷ p) s = ground (arith, starts_with-append p s)

-- What is outside of a directory is outside of what is in it.
pub Outside-below : (dst name q : Bytes) → Outside dst q → Outside (below dst name) q
Outside-below dst name q o =
    let deeper : below dst name ≡ (dst ++ (b'/' ∷ [])) ++ name =
      sym (append_assoc dst (b'/' ∷ []) name) in
    record {
      apart =
          λ e. cc (rw (e ∙ deeper, starts_with-append (dst ++ (b'/' ∷ [])) name) at o.not_below);
      not_below =
          rw (deeper, append_assoc (dst ++ (b'/' ∷ [])) name (b'/' ∷ []))
            (starts_with-longer (dst ++ (b'/' ∷ [])) (name ++ (b'/' ∷ [])) q o.not_below);
    }

module _ (L : Local) (l : IsLocal L) (q : Bytes) (x : Option Bytes) where
  -- The file `q` still holds `x`.
  abbrev pub Same : Work L → Type 0
  Same w = L.content w.disk q ≡ x

  abbrev pub Kept : Copying L → Type 0
  Kept r = After (λ s c. Same s.1) r

  written-Kept :
      (next : Onward L) (clock : Clock) (bs : Bytes) (off rem : ℕ) (w : Work L) (c : Conn)
      (k : Option ℕ)
      → Same w
      → ((o r : ℕ) (w' : Work L) (c' : Conn) → Same w' → Kept (next o r w' c'))
      → Kept (fetch_written L next clock bs off rem w c k)
  unfolding fetch_written
  written-Kept next clock bs off rem w c none s ih = s
  written-Kept next clock bs off rem w c (some k) s ih = elim (Bool-cases (k == length bs)) [
    | inl e ↦ rw (e) (ih _ _ _ c s)
    | inr e ↦ rw (e) s
  ]

  got-Kept :
      (next : Onward L) (clock : Clock) (dst : Bytes) (off rem : ℕ) (w : Work L) (bs : Bytes)
      (c : Conn)
      → q ≢ dst
      → Same w
      → ((o r : ℕ) (w' : Work L) (c' : Conn) → Same w' → Kept (next o r w' c'))
      → Kept (fetch_got L next clock dst off rem w bs c)
  unfolding fetch_got
  got-Kept next clock dst off rem w [] c a s ih = ih _ _ _ c s
  got-Kept next clock dst off rem w (b ∷ bs) c a s ih =
      written-Kept next clock (b ∷ bs) off rem (on_disk L w (L.write dst (b ∷ bs) w.disk).1) c
        (L.write dst (b ∷ bs) w.disk).0 (l.write-other dst q (b ∷ bs) w.disk a ∙ s) ih

  read-Kept :
      (next : Onward L) (clock : Clock) (dst : Bytes) (off rem : ℕ) (w : Work L) (r : Outcome Bytes)
      → q ≢ dst
      → Same w
      → ((o r' : ℕ) (w' : Work L) (c' : Conn) → Same w' → Kept (next o r' w' c'))
      → Kept (fetch_read L next clock dst off rem w r)
  read-Kept next clock dst off rem w (done bs c) a s ih =
      got-Kept next clock dst off rem w bs c a s ih
  read-Kept next clock dst off rem w (refused why c) a s ih = s
  read-Kept next clock dst off rem w fault a s ih = tt
  read-Kept next clock dst off rem w no_end a s ih = tt

  loop-Kept :
      (g : Setting) (clock : Clock) (fid : ℕ) (dst : Bytes) (turns off rem : ℕ) (w : Work L)
      (c : Conn)
      → q ≢ dst
      → Same w
      → Kept (fetch_loop L g clock fid dst turns off rem w c)
  unfolding fetch_loop
  loop-Kept g clock fid dst zero off rem w c a s = tt
  loop-Kept g clock fid dst (suc turns) off rem w c a s =
      elim (rem == 0)
        as (λ b. Kept (elim b [
          | true ↦ done (true, w) c
          | false ↦
              fetch_read L (fetch_loop L g clock fid dst turns) clock dst off rem w
                (cifs_read g.fuel fid (ask rem) off c)
        ])) [
          | true ↦ s
          | false ↦
              read-Kept (fetch_loop L g clock fid dst turns) clock dst off rem w
                (cifs_read g.fuel fid (ask rem) off c) a s
                (λ o r w' c' s'. loop-Kept g clock fid dst turns o r w' c' a s')
        ]

  from-Kept :
      (g : Setting) (clock : Clock) (fid : ℕ) (dst : Bytes) (size : ℕ) (w : Work L) (c : Conn)
      (end : Option ℕ)
      → q ≢ dst
      → Same w
      → Kept (fetch_from L g clock fid dst size w c end)
  unfolding fetch_from
  from-Kept g clock fid dst size w c none a s = s
  from-Kept g clock fid dst size w c (some off) a s =
      loop-Kept g clock fid dst g.fuel off (size - off) w c a s

  into-Kept :
      (g : Setting) (clock : Clock) (fid : ℕ) (dst : Bytes) (size : ℕ) (w : Work L) (c : Conn)
      → q ≢ dst
      → Same w
      → Kept (fetch_into L g clock fid dst size w c)
  unfolding fetch_into
  into-Kept g clock fid dst size w c a s =
      let w' = on_disk L w (L.open_write dst w.disk).1 in
      let s' : Same w' = l.open-other dst q w.disk a ∙ s in
      elim (Bool-cases (L.open_write dst w.disk).0) [
        | inl e ↦ rw (e) (from-Kept g clock fid dst size w' c (L.seek_end dst w'.disk) a s')
        | inr e ↦ rw (e) s'
      ]

  pub closing-Kept :
      (g : Setting) (fid : ℕ) (r : Bool × Work L) (c : Conn) → Same r.1 → Kept (closing L g fid r c)
  closing-Kept g fid r c s = elim (Bool-cases (r.0 || ltb 0 fid)) [
    | inl e ↦ rw (e) (
        and_then-After (λ s' c'. Same s'.1) (dropped tt (cifs_close g.fuel fid c))
          (λ _ c'. done r c') (nothing (dropped tt (cifs_close g.fuel fid c))) (λ _ c' _. s))
    | inr e ↦ rw (e) s
  ]

  pub file-Kept :
      (g : Setting) (clock : Clock) (src dst : Bytes) (w : Work L) (c : Conn)
      → q ≢ dst
      → Same w
      → Kept (fetch_file L g clock src dst w c)
  unfolding fetch_file
  file-Kept g clock src dst w c a s = opened (cifs_open g.fuel g.pages src read_only c)
    where
      opened : (r : Outcome (ℕ × Stat)) → Kept (fetch_opened L g clock dst w r)
      opened (done (fid, st) c') =
          and_then-After (λ s' c'. Same s'.1) (fetch_into L g clock fid dst st.file_size w c')
            (closing L g fid) (into-Kept g clock fid dst st.file_size w c' a s)
            (λ r c2 s'. closing-Kept g fid r c2 s')
      opened (refused why c') = s
      opened fault = tt
      opened no_end = tt
