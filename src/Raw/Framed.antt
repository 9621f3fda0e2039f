-- ===== src/Raw/Framed.antt =====
-- `cifs_recv_raw` on a stream of messages.
use mathlib.Core.Path.{subst}
use mathlib.Core.List.{append_assoc, append-nil}
use cifscp.Base.{
  ℕ, zero, suc, ◌+◌, ◌-◌, ◌*◌, ◌≤◌, ◌<◌, ◌≡◌, refl, sym, ap, ◌∙◌, ◌≢◌, ◌⊎◌, inl, inr, true, [], ◌∷◌,
  ◌++◌, arith, ltb, Bool-cases, length, drop, length-append, length-drop, append-split,
}
use cifscp.Base.Strings.{Bytes}
use cifscp.Packet.{enomem}
use cifscp.Transport.{Input, skipped, skip_sock, code}
use cifscp.Transport.Stream.{stream, IsLive, recv-Takes, skip_sock-Takes}
use cifscp.Transport.Framing.Header.{Frames, session, other, nbt}
use cifscp.Raw.{
  filled, fill_loop, fill_got, Sized, sized, size_header, size_filled, size_skipped, recv_size, Raw,
  raw_done, raw_failed, raw_filled, raw_skipped, raw_sized, recv_raw,
}

joined : (acc bs zs body : Bytes) → body ≡ bs ++ zs → (acc ++ bs) ++ zs ≡ acc ++ body
joined acc bs zs body e = append_assoc acc bs zs ∙ ap (λ z. acc ++ z) (sym e)

-- The loop takes the bytes it is to take, from a live connection that has them.
fill_loop-filled :
    (fuel l : ℕ) (acc body rest : Bytes) (inp : Input)
    → IsLive inp
    → stream inp ≡ body ++ rest
    → length body ≡ l
    → l < fuel
    → (inp' : Input) × (fill_loop fuel l acc inp ≡ filled (acc ++ body) inp')
      × (stream inp' ≡ rest)
      × IsLive inp'
unfolding fill_loop fill_got
fill_loop-filled zero l acc body rest inp v s n f = absurd (omega arith)
fill_loop-filled (suc fuel) zero acc [] rest inp v s n f =
    (inp, ap (λ z. filled z inp) (sym (append-nil acc)), s, v)
fill_loop-filled (suc fuel) zero acc (b ∷ body) rest inp v s n f = absurd (omega arith)
fill_loop-filled (suc fuel) (suc l) acc body rest inp v s n f =
    let (bs, inp', t) =
      recv-Takes (suc l) inp v (omega arith)
        (omega (arith, ap length s, length-append {0} body rest)) in
    let (zs, e, s') =
      append-split bs (stream inp') body rest (sym t.splits ∙ s) (omega (arith, t.at_most)) in
    let (out, e', s'', w) =
      fill_loop-filled fuel (suc l - length bs) (acc ++ bs) zs rest inp' t.live s'
        (omega (arith, ap length e, length-append {0} bs zs, n)) (omega (arith, t.some_bytes, f)) in
    (out, rw (t.result, e', joined acc bs zs body e), s'', w)

recv_size_step :
    (fuel : ℕ) (inp : Input)
    → recv_size (suc fuel) inp ≡ size_filled fuel (recv_size fuel) (fill_loop fuel 4 [] inp)
unfolding recv_size
recv_size_step fuel inp = refl

size_session :
    (fuel flags hi lo : ℕ) (next : Input → Sized) (inp : Input)
    → size_filled fuel next (filled (nbt 0 flags hi lo) inp) ≡ sized (lo + hi * 256) inp
unfolding size_filled size_header
size_session fuel flags hi lo next inp = ap (λ n. sized n inp) (omega arith)

size_empty :
    (fuel type flags hi lo : ℕ) (next : Input → Sized) (inp : Input)
    → type ≢ 0
    → lo + hi * 256 ≡ 0
    → size_filled fuel next (filled (nbt type flags hi lo) inp) ≡ next inp
unfolding size_filled size_header
size_empty fuel type flags hi lo next inp t z = ground (arith, t, z)

size_other :
    (fuel type flags hi lo : ℕ) (next : Input → Sized) (inp inp' : Input)
    → type ≢ 0
    → lo + hi * 256 ≢ 0
    → skip_sock fuel (lo + hi * 256) inp ≡ skipped true inp'
    → size_filled fuel next (filled (nbt type flags hi lo) inp) ≡ next inp'
unfolding size_filled size_header size_skipped
size_other fuel type flags hi lo next inp inp' t z e =
    let e' : skip_sock fuel (hi * 256 + lo) inp ≡ skipped true inp' =
      ap (λ n. skip_sock fuel n inp) (omega arith) ∙ e in
    ground (arith, t, z, e')

zero_or : (n : ℕ) → (n ≡ 0) ⊎ (n ≢ 0)
zero_or zero = inl refl
zero_or (suc n) = inr (omega arith)

no_bytes : (bs cs : Bytes) → length bs ≡ 0 → bs ++ cs ≡ cs
no_bytes [] cs h = refl
no_bytes (b ∷ bs) cs h = absurd (omega arith)

-- What `cifs_recv_size` has found: the size of `body`, which comes next.
abbrev Sees : Bytes → Bytes → Sized → Type 0
Sees body rest r =
    (inp' : Input) × (r ≡ sized (length body) inp') × (stream inp' ≡ body ++ rest) × IsLive inp'

-- A session message whose header tells its length, after messages of other types.
recv_size-Frames :
    {msg rest s : Bytes} (fuel : ℕ) (inp : Input)
    → Frames msg rest s
    → IsLive inp
    → stream inp ≡ s
    → suc (length s) < fuel
    → Sees (drop 4 msg) rest (recv_size fuel inp)
recv_size-Frames zero inp fr v s f = absurd (omega arith)
recv_size-Frames {msg} {rest} (suc fuel) inp (session flags hi lo payload k m e) v s f =
    let split = s ∙ e ∙ ap (λ z. z ++ rest) m in
    let count = ap length (sym s ∙ split) in
    let (inp', e', s', w) =
      fill_loop-filled fuel 4 [] (nbt 0 flags hi lo) (payload ++ rest) inp v split refl
        (omega (arith, count, f)) in
    let ends =
      recv_size_step fuel inp
      ∙ ap (size_filled fuel (recv_size fuel)) e'
      ∙ size_session fuel flags hi lo (recv_size fuel) inp'
      ∙ ap (λ n. sized n inp') (sym k.size) in
    subst (λ z. Sees (drop 4 z) rest (recv_size (suc fuel) inp)) (sym m) (inp', ends, s', w)
recv_size-Frames {msg} {rest} (suc fuel) inp (other {s' = s'} type flags hi lo payload t k e fr) v s
      f =
    let split : stream inp ≡ nbt type flags hi lo ++ (payload ++ s') = s ∙ e in
    let count = ap length split in
    let long = ap length s in
    let both = length-append {0} payload s' in
    let (inp', e', s'', w) =
      fill_loop-filled fuel 4 [] (nbt type flags hi lo) (payload ++ s') inp v split refl
        (omega (arith, count, long, f)) in
    let begins = recv_size_step fuel inp ∙ ap (size_filled fuel (recv_size fuel)) e' in
    elim (zero_or (lo + hi * 256)) [
      | inl z ↦
          let nothing : payload ++ s' ≡ s' = no_bytes payload s' (omega (arith, z, k.size)) in
          let (out, ends, rest_lem, live) =
            recv_size-Frames fuel inp' fr w (s'' ∙ nothing) (omega (arith, count, long, both, f)) in
          (
            out,
            begins ∙ size_empty fuel type flags hi lo (recv_size fuel) inp' t z ∙ ends,
            rest_lem,
            live,
          )
      | inr z ↦
          let (inp'', skips, s3, w') =
            skip_sock-Takes fuel (lo + hi * 256) inp' payload s' w s'' k.size
              (omega (arith, count, long, both, f, k.size)) in
          let (out, ends, rest_lem, live) =
            recv_size-Frames fuel inp'' fr w' s3 (omega (arith, count, long, both, f)) in
          (
            out,
            begins ∙ size_other fuel type flags hi lo (recv_size fuel) inp' inp'' t z skips ∙ ends,
            rest_lem,
            live,
          )
    ]

length-Frames : {msg rest s : Bytes} → Frames msg rest s → length msg ≤ length s
length-Frames {msg} {rest} (session flags hi lo payload k m e) =
    omega (arith, ap length e, length-append {0} msg rest)
length-Frames {msg} {rest} (other {s' = s'} type flags hi lo payload t k e fr) =
    omega (arith, ap length e, length-append {0} payload s', length-Frames fr)

raw_fits :
    (fuel len : ℕ) (body rest : Bytes) (inp inp' : Input)
    → length body ≤ len
    → fill_loop fuel (length body) [] inp ≡ filled body inp'
    → raw_sized fuel len (sized (length body) inp) ≡ raw_done body inp'
unfolding raw_sized raw_filled
raw_fits fuel len body rest inp inp' le e = ground (arith, le, e)

raw_too_big :
    (fuel len : ℕ) (body : Bytes) (inp inp' : Input)
    → len < length body
    → skip_sock fuel (length body) inp ≡ skipped true inp'
    → raw_sized fuel len (sized (length body) inp) ≡ raw_failed (code enomem) inp'
unfolding raw_sized raw_skipped
raw_too_big fuel len body inp inp' lt e = ground (arith, lt, e)

-- What is left of a message with the body `body`: it has been received, or it did not fit.
abbrev pub Ends : ℕ → Bytes → Bytes → Raw → Type 0
Ends len body rest r =
    (inp' : Input) × (((length body ≤ len) × (r ≡ raw_done body inp'))
      ⊎ ((len < length body) × (r ≡ raw_failed (code enomem) inp')))
    × (stream inp' ≡ rest)

-- On a live connection whose next session message is `msg`, `cifs_recv_raw` returns what stands
-- behind the four bytes of its header when the buffer has room for it, and ENOMEM otherwise, with
-- the message skipped; either way the connection stands behind the message, whatever messages of
-- other types came before it and however the stream was cut.
pub recv_raw-Frames :
    {msg rest s : Bytes} (fuel len : ℕ) (inp : Input)
    → Frames msg rest s
    → IsLive inp
    → stream inp ≡ s
    → suc (length s) < fuel
    → Ends len (drop 4 msg) rest (recv_raw fuel len inp)
unfolding recv_raw
recv_raw-Frames {msg} {rest} {s} fuel len inp fr v e f =
    let (inp', sees, s', w) = recv_size-Frames fuel inp fr v e f in
    let body = drop 4 msg in
    let enough : length (drop 4 msg) < fuel =
      omega (arith, length-Frames fr, length-drop 4 msg, f) in
    let turn = ap (raw_sized fuel len) sees in
    elim (Bool-cases (ltb len (length body))) [
      | inl y ↦
          let (out, skips, behind, live) =
            skip_sock-Takes fuel (length body) inp' body rest w s' refl enough in
          let lt : len < length body = ground arith in
          (out, inr (lt, turn ∙ raw_too_big fuel len body inp' out lt skips), behind)
      | inr n ↦
          let (out, fills, behind, live) =
            fill_loop-filled fuel (length body) [] body rest inp' w s' refl enough in
          let le : length body ≤ len = ground arith in
          (out, inl (le, turn ∙ raw_fits fuel len body rest inp' out le fills), behind)
    ]
