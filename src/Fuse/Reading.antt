-- ===== src/Fuse/Reading.antt =====
-- `fusecifs_read` on a file that the library serves.
use mathlib.Core.List.{append-nil, append_assoc}
use cifscp.Base.{
  ℕ, zero, suc, ◌+◌, ◌-◌, ◌≤◌, ◌<◌, ◌≡◌, sym, ap, ◌∙◌, inl, inr, false, some, [], ◌∷◌, ◌++◌, arith,
  ◌==◌, Bool-cases, length, take, drop, take-add, take-nil, drop-drop, drop-all,
}
use native.Mathlib.Decide.{dec_le}
use cifscp.Base.Strings.{Bytes}
use cifscp.Fuse.{split_path, text, Host, Fuse, connect_host, connect_share}
use cifscp.Fuse.Places.{Place}
use cifscp.Fuse.Interface.{Library}
use cifscp.Fuse.Calls.{Served, answer, with_world, read_loop, fuse_connect, host_reached, fuse_read}

-- The library reads from a file: inside it something, at most as much as is asked for, and at its
-- end nothing.
pub record Serves (L : Library) (file : Bytes) (k : L.Handle) (fid : ℕ) : Type 0 where
  pub inside :
      (size off : ℕ) (w : L.World)
      → 0 < size
      → off < length file
      → (c : ℕ) × (cs : Bytes) × (w' : L.World) × (L.read k fid size off w ≡ (some (c ∷ cs), w'))
        × (c ∷ cs ≡ take (length (c ∷ cs)) (drop off file))
        × (length (c ∷ cs) ≤ size)
  pub behind :
      (size off : ℕ) (w : L.World)
      → length file ≤ off
      → (w' : L.World) × (L.read k fid size off w ≡ (some [], w'))

-- Two reads in a row are one.
take_in_two :
    (bs file : Bytes) (off size n : ℕ)
    → bs ≡ take n (drop off file)
    → n ≤ size
    → bs ++ take (size - n) (drop (off + n) file) ≡ take size (drop off file)
take_in_two bs file off size n e le =
    let sum : size ≡ n + (size - n) = omega (arith, le) in
    rw (e) (
      ap (λ t. take n (drop off file) ++ take (size - n) t) (sym (drop-drop n off file))
      ∙ sym (take-add n (size - n) (drop off file))
      ∙ ap (λ t. take t (drop off file)) (sym sum))

module _ (L : Library) (file : Bytes) (k : L.Handle) (fid : ℕ) (serves : Serves L file k fid) where
  -- The answer, and the world that it leaves.
  abbrev Gives : Fuse L → Bytes → Served L Bytes → Type 0
  Gives f bs r = (w : L.World) × (r ≡ answer bs (with_world L f w))

  loop_stop :
      (fuel : ℕ) (f : Fuse L) (buf : Bytes) (size off : ℕ) (w : L.World)
      → size ≡ 0
      → read_loop L k fid (suc fuel) f buf size off w ≡ answer buf (with_world L f w)
  unfolding read_loop
  loop_stop fuel f buf size off w h = rw h

  loop_behind :
      (fuel : ℕ) (f : Fuse L) (buf : Bytes) (size off : ℕ) (w : L.World)
      → length file ≤ off
      → Gives f buf (read_loop L k fid (suc fuel) f buf size off w)
  unfolding read_loop
  loop_behind fuel f buf size off w h = elim (Bool-cases (size == 0)) [
    | inl e ↦ (w, loop_stop fuel f buf size off w (ground arith))
    | inr e ↦ let (w', got) = serves.behind size off w h in (w', rw (e, got, read_loop))
  ]

  loop_turn :
      (fuel : ℕ) (f : Fuse L) (buf : Bytes) (size off : ℕ) (w w' : L.World) (c : ℕ) (cs : Bytes)
      → size == 0 ≡ false
      → L.read k fid size off w ≡ (some (c ∷ cs), w')
      → read_loop L k fid (suc fuel) f buf size off w
        ≡ read_loop L k fid fuel f
            (buf ++ (c ∷ cs))
            (size - length (c ∷ cs))
            (off + length (c ∷ cs))
            w'
  unfolding read_loop
  loop_turn fuel f buf size off w w' c cs e got = rw (e, got, read_loop)

  loop-Gives :
      (fuel : ℕ) (f : Fuse L) (buf : Bytes) (size off : ℕ) (w : L.World)
      → size < fuel
      → Gives f (buf ++ take size (drop off file)) (read_loop L k fid fuel f buf size off w)
  loop-Gives zero f buf size off w h = absurd (omega arith)
  loop-Gives (suc fuel) f buf size off w h = elim (dec_le (length file) off) [
    | yes past ↦
        rw (drop-all off file past, take-nil size, append-nil buf)
          (loop_behind fuel f buf size off w past)
    | no before ↦ elim (Bool-cases (size == 0)) [
      | inl e ↦
          let none_left : size ≡ 0 = ground arith in
          (
            w,
            loop_stop fuel f buf size off w none_left
                ∙ ap (λ bs. answer bs (with_world L f w)) (rw (none_left) (sym (append-nil buf))),
          )
      | inr e ↦
          let (c, cs, w', got, same, most) =
            serves.inside size off w (ground arith) (omega (arith, before)) in
          let (w2, rest) =
            loop-Gives fuel f (buf ++ (c ∷ cs)) (size - length (c ∷ cs)) (off + length (c ∷ cs)) w'
              (omega (arith, h)) in
          (
            w2,
            loop_turn fuel f buf size off w w' c cs e got
                ∙ rest
                ∙ ap (λ bs. answer bs (with_world L f w2))
                    (append_assoc buf (c ∷ cs) _
                      ∙ ap (◌++◌ buf)
                          (take_in_two (c ∷ cs) file off size (length (c ∷ cs)) same most)),
          )
    ]
  ]

-- On a file that the library serves, `fusecifs_read` returns the bytes of the file from the offset
-- on, as many as are asked for or as there are, over as many reads as it takes, and the lists
-- stay as connecting has left them. Fuel beyond the size is enough.
pub fuse_read-take :
    (L : Library) (file path : Bytes) (k : L.Handle) (fid fuel size off : ℕ) (f f1 : Fuse L)
    (p : Place (Host L))
    → Serves L file k fid
    → connect_host L (text (split_path path).host) f ≡ (some (p, k), f1)
    → size < fuel
    → (w : L.World) × (fuse_read L fuel path fid size off f
        ≡ answer
            (take size (drop off file))
            (with_world L (connect_share L (text (split_path path).share) p k f1).2 w))
unfolding fuse_read fuse_connect
fuse_read-take L file path k fid fuel size off f f1 p serves connects enough =
    let f2 = (connect_share L (text (split_path path).share) p k f1).2 in
    let (w, gives) = loop-Gives L file k fid serves fuel f2 [] size off f2.world enough in
    (w, rw (connects, host_reached) gives)
