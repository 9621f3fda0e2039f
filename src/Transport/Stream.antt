-- ===== src/Transport/Stream.antt =====
-- The bytes of a connection, however they are cut into chunks.
use mathlib.Core.List.{append_assoc}
use cifscp.Base.{
  ℕ, zero, suc, ◌≤◌, ◌<◌, ◌≡◌, refl, sym, ap, ◌∙◌, true, [], ◌∷◌, ◌++◌, arith, length, take, drop,
  length-take, take-append-drop,
}
use cifscp.Base.Strings.{Bytes}
use cifscp.Transport.{broken, chunk, Input, got, unread, recv, Skip, skip_got, skipped, skip_sock}

abbrev pub stream : Input → Bytes
stream [] = []
stream (broken ∷ inp) = []
stream (chunk bs ∷ inp) = bs ++ stream inp

-- No error, and no chunk without a byte: the connection stays open up to its last byte.
abbrev pub IsLive : Input → Type 0
IsLive [] = Unit
IsLive (broken ∷ inp) = ⊥
IsLive (chunk bs ∷ inp) = (0 < length bs) × IsLive inp

unread-stream : (bs : Bytes) (inp : Input) → stream (unread bs inp) ≡ bs ++ stream inp
unread-stream [] inp = refl
unread-stream (c ∷ cs) inp = refl

unread-IsLive : (bs : Bytes) (inp : Input) → IsLive inp → IsLive (unread bs inp)
unread-IsLive [] inp h = h
unread-IsLive (c ∷ cs) inp h = (omega arith, h)

-- What a call finds on a live connection that has a byte left.
pub record Takes (n : ℕ) (inp : Input) (bs : Bytes) (inp' : Input) : Type 0 where
  pub result : recv n inp ≡ (got bs, inp')
  pub some_bytes : 0 < length bs
  pub at_most : length bs ≤ n
  pub splits : stream inp ≡ bs ++ stream inp'
  pub live : IsLive inp'

pub recv-Takes :
    (n : ℕ) (inp : Input)
    → IsLive inp
    → 0 < n
    → 0 < length (stream inp)
    → (bs : Bytes) × (inp' : Input) × Takes n inp bs inp'
unfolding recv
recv-Takes n [] v h k = absurd (omega arith)
recv-Takes n (broken ∷ inp) v h k = absurd v
recv-Takes n (chunk bs ∷ inp) v h k = (
  take n bs,
  unread (drop n bs) inp,
  record {
    result = refl;
    some_bytes = omega (arith, length-take {0} n bs, v.0);
    at_most = omega (arith, length-take {0} n bs);
    splits =
        ap (λ x. x ++ stream inp) (sym (take-append-drop n bs))
        ∙ append_assoc (take n bs) (drop n bs) (stream inp)
        ∙ ap (◌++◌ (take n bs)) (sym (unread-stream (drop n bs) inp));
    live = unread-IsLive (drop n bs) inp v.1;
  },
)

one_byte :
    (bs : Bytes) (inp' : Input) (j : ℕ) (behind : Bytes) {inp : Input}
    → j ∷ behind ≡ bs ++ stream inp'
    → Takes 1 inp bs inp'
    → (stream inp' ≡ behind)
      × ((next : ℕ → Input → Skip) (size : ℕ) → skip_got next size (got bs) inp' ≡ next size inp')
unfolding skip_got
one_byte [] inp' j behind e t = absurd (omega (arith, t.some_bytes))
one_byte (b ∷ []) inp' j behind e t = (cc, λ next size. refl)
one_byte (b ∷ c ∷ bs) inp' j behind e t = absurd (omega (arith, t.at_most))

-- Skipping `size` bytes of a live connection that has them takes exactly those.
pub skip_sock-Takes :
    (fuel size : ℕ) (inp : Input) (junk rest : Bytes)
    → IsLive inp
    → stream inp ≡ junk ++ rest
    → length junk ≡ size
    → size < fuel
    → (inp' : Input) × (skip_sock fuel size inp ≡ skipped true inp')
      × (stream inp' ≡ rest)
      × IsLive inp'
unfolding skip_sock
skip_sock-Takes zero size inp junk rest v s n f = absurd (omega arith)
skip_sock-Takes (suc fuel) zero inp [] rest v s n f = (inp, refl, s, v)
skip_sock-Takes (suc fuel) zero inp (j ∷ junk) rest v s n f = absurd (omega arith)
skip_sock-Takes (suc fuel) (suc size) inp [] rest v s n f = absurd (omega arith)
skip_sock-Takes (suc fuel) (suc size) inp (j ∷ junk) rest v s n f =
    let (bs, inp', t) = recv-Takes 1 inp v (omega arith) (rw s (omega arith)) in
    let (after, v') = one_byte bs inp' j (junk ++ rest) (sym s ∙ t.splits) t in
    let (out, e, s', w) =
      skip_sock-Takes fuel size inp' junk rest t.live after (omega arith) (omega arith) in
    (out, rw t.result (v' (skip_sock fuel) size ∙ e), s', w)
