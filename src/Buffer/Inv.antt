-- ===== src/Buffer/Inv.antt =====
-- The four pointers stay in order, and a writer touches nothing but the bytes that it passes.
use mathlib.Core.Path.{subst}
use mathlib.Core.Option.{some-injective}
use cifscp.Base.{ℕ, ◌+◌, ◌≤◌, ◌<◌, ◌≡◌, refl, inl, inr, false, some, arith, ltb, Bool-cases, length}
use cifscp.Base.Strings.{Bytes}
use cifscp.Memory.{Mem, store, load}
use cifscp.Memory.Frame.{store-below, load-store}
use cifscp.Buffer.{
  Buf, buf_new, buf_setup, buf_resize, buf_resize_full, buf_inc, buf_range, buf_size, write_buf,
}

-- Both `p` and `e` lie inside the block that `b` and `x` bound.
pub record IsBuf (d : Buf) : Type 0 where
  pub point_from : d.b ≤ d.p
  pub point_to : d.p ≤ d.x
  pub end_from : d.b ≤ d.e
  pub end_to : d.e ≤ d.x

pub buf_new-IsBuf : (size : ℕ) → IsBuf (buf_new size)
unfolding buf_new
buf_new-IsBuf size = omega arith

pub buf_setup-IsBuf : (begin size : ℕ) → IsBuf (buf_setup begin size)
unfolding buf_setup
buf_setup-IsBuf begin size = omega arith

pub buf_resize-IsBuf :
    (d d' : Buf) (n : ℕ)
    → IsBuf d
    → buf_resize d n ≡ some d'
    → IsBuf d' × (buf_size d' ≡ n) × (d'.p ≡ d.p) × (d'.b ≡ d.b) × (d'.x ≡ d.x)
unfolding buf_resize
buf_resize-IsBuf d d' n v h = ground arith

pub buf_resize_full-IsBuf : (d : Buf) → IsBuf d → IsBuf (buf_resize_full d)
unfolding buf_resize_full
buf_resize_full-IsBuf d v = omega arith

pub buf_range_inside : (d : Buf) (off len : ℕ) → buf_range d off len ≡ false → d.b + off + len ≤ d.e
unfolding buf_range
buf_range_inside d off len h = ground arith

-- What a writer has done to a block and a buffer when it appended `bs`.
pub record Appended (bs : Bytes) (m : Mem) (d : Buf) (m' : Mem) (d' : Buf) : Type 0 where
  pub point : d'.p ≡ d.p + length bs
  pub begin : d'.b ≡ d.b
  pub end : d'.e ≡ d.e
  pub limit : d'.x ≡ d.x
  pub inside : d'.p ≤ d.x
  pub bytes : load m' d.p (length bs) ≡ bs
  pub before : (i : ℕ) → i < d.p → m' i ≡ m i

store-Appended :
    (bs : Bytes) (m : Mem) (d : Buf)
    → d.p + length bs ≤ d.x
    → Appended bs m d (store m d.p bs) (buf_inc d (length bs))
unfolding buf_inc
store-Appended bs m d h = record {
  point = refl;
  begin = refl;
  end = refl;
  limit = refl;
  inside = h;
  bytes = load-store bs m d.p;
  before = λ i lt. store-below bs m d.p i lt;
}

pub write_buf-Appended :
    (bs : Bytes) (m m' : Mem) (d d' : Buf)
    → write_buf bs m d ≡ some (m', d')
    → Appended bs m d m' d'
unfolding write_buf
write_buf-Appended bs m m' d d' h = elim (Bool-cases (ltb d.x (d.p + length bs))) [
  | inl e ↦ cc (rw (e) at h)
  | inr e ↦
      subst (λ (r : Mem × Buf). Appended bs m d r.0 r.1) (some-injective _ _ (rw e at h))
        (store-Appended bs m d (ground arith))
]

-- A write goes through exactly when the block has room for it.
pub write_buf_room :
    (bs : Bytes) (m : Mem) (d : Buf)
    → d.p + length bs ≤ d.x
    → write_buf bs m d ≡ some (store m d.p bs, buf_inc d (length bs))
unfolding write_buf
write_buf_room bs m d h = ground arith
