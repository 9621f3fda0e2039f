-- ===== src/Buffer/Write.antt =====
-- `cifs_write_path_oem` on a single-byte code page: which bytes a path becomes.
use mathlib.Core.Path.{ap₂}
use cifscp.Base.{
  ℕ, zero, suc, ◌+◌, ◌≤◌, ◌<◌, ◌≡◌, refl, ap, ◌∙◌, true, false, Option, some, [], ◌∷◌, ◌++◌, map,
  arith, ltb, length,
}
use cifscp.Base.Strings.{Bytes}
use cifscp.Memory.{Mem, store, load}
use cifscp.Memory.Frame.{
  store-below, store-above, load-store, load-agree, load-store_below, store-append,
}
use cifscp.Codepage.{cp_image}
use cifscp.Codepage.Escape.{table_iconv, transcribe, cp_buf-transcribe}
use cifscp.Buffer.{Buf, buf_inc, buf_left, backslash, slashes_oem, write_oem, write_path_oem}
use cifscp.Buffer.Inv.{IsBuf}

slashes_oem-below : (n a i : ℕ) (m : Mem) → i < a → slashes_oem n a m i ≡ m i
unfolding slashes_oem
slashes_oem-below zero a i m h = refl
slashes_oem-below (suc n) a i m h =
    slashes_oem-below n (a + 1) i (store m a (backslash (m a) ∷ [])) (omega arith)
    ∙ store-below (backslash (m a) ∷ []) m a i h

poked : (m : Mem) (a v : ℕ) → store m a (v ∷ []) a ≡ v
unfolding store
poked m a v = ground arith

slashes_oem-map :
    (n k a : ℕ) (m : Mem) → k ≤ n → load (slashes_oem n a m) a k ≡ map backslash (load m a k)
unfolding slashes_oem load
slashes_oem-map n zero a m h = refl
slashes_oem-map zero (suc k) a m h = absurd (omega arith)
slashes_oem-map (suc n) (suc k) a m h =
    let m1 : Mem = store m a (backslash (m a) ∷ []) in
    ap₂ ◌∷◌ (slashes_oem-below n (a + 1) a m1 (omega arith) ∙ poked m a (backslash (m a))) (
      slashes_oem-map n k (a + 1) m1 (omega arith)
      ∙ ap (map backslash) (
          load-agree k m1 m (a + 1)
            (λ i lo hi. store-above (backslash (m a) ∷ []) m a i (omega arith))))

-- What `cifs_write_oem` leaves when the text fits with its terminator.
write_oem-transcribe :
    (t : ℕ → Option ℕ) (src : Bytes) (m : Mem) (d : Buf)
    → length (transcribe t src) < buf_left d
    → let out = transcribe t src in
      write_oem (table_iconv t) src m d
      ≡ some (length out, store m d.p (out ++ (0 ∷ [])), buf_inc d (length out))
unfolding write_oem cp_image
write_oem-transcribe t src m d h =
    let fits : ltb (length (transcribe t src)) (buf_left d) ≡ true = ground arith in
    let n : length (transcribe t src) ≤ buf_left d = omega arith in
    rw (cp_buf-transcribe t src (buf_left d) n) (rw fits)

load-store_terminated :
    (bs : Bytes) (m : Mem) (a : ℕ) → load (store m a (bs ++ (0 ∷ []))) a (length bs) ≡ bs
load-store_terminated bs m a = rw (store-append bs (0 ∷ []) m a) (
    load-store_below (length bs) (0 ∷ []) (store m a bs) (a + length bs) a (omega arith)
    ∙ load-store bs m a)

-- With a single-byte code page and a buffer whose pointers are in order, a path that fits with its
-- terminator is written as its transcription with every slash turned
-- round; the point moves behind it, the count is its length, and nothing before the old point
-- changes.
pub write_path_oem_lem :
    (t : ℕ → Option ℕ) (path : Bytes) (m : Mem) (d : Buf)
    → IsBuf d
    → length (transcribe t path) < buf_left d
    → (m' : Mem) × (write_path_oem (table_iconv t) path m d
        ≡ some (length (transcribe t path), m', buf_inc d (length (transcribe t path))))
      × (load m' d.p (length (transcribe t path)) ≡ map backslash (transcribe t path))
      × ((i : ℕ) → i < d.p → m' i ≡ m i)
unfolding write_path_oem buf_inc
write_path_oem_lem t path m d v h =
    let out : Bytes = transcribe t path in
    let k : Mem = store m d.p (out ++ (0 ∷ [])) in
    let inside : ltb d.x (d.p + length out + 1) ≡ false = ground arith in
    (
      slashes_oem (length out + 1) d.p k,
      rw (write_oem-transcribe t path m d h) (rw inside),
      slashes_oem-map (length out + 1) (length out) d.p k (omega arith)
          ∙ ap (map backslash) (load-store_terminated out m d.p),
      λ i lt.
          slashes_oem-below (length out + 1) d.p i k lt ∙ store-below (out ++ (0 ∷ [])) m d.p i lt,
    )
