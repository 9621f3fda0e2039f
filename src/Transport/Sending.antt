-- ===== src/Transport/Sending.antt =====
-- The send loop against partial sends.
use mathlib.Core.List.{append-nil, append_assoc}
use cifscp.Base.{
  ℕ, ◌+◌, ◌<◌, ◌≡◌, refl, sym, ap, ◌∙◌, true, false, List, [], ◌∷◌, ◌++◌, arith, length, take, drop,
  length-drop, take-append-drop, take-add,
}
use cifscp.Base.Strings.{Bytes}
use cifscp.Transport.{Answer, refuse, accept, send_loop}

-- However the system cuts the message up, the loop puts the bytes on the wire in order and none
-- twice: all of them when it returns 0, and when it returns -1 a beginning that is not all.
pub send_loop_prefix :
    (answers : List Answer) (bs wire : Bytes)
    → let (all, wire', _) = send_loop answers bs wire in
      (k : ℕ) × (wire' ≡ wire ++ take k bs)
      × (all ≡ true → take k bs ≡ bs)
      × (all ≡ false → k < length bs)
unfolding send_loop
send_loop_prefix answers [] wire = (0, sym (append-nil wire), λ _. refl, λ e. cc)
send_loop_prefix [] (c ∷ cs) wire = (0, sym (append-nil wire), λ e. cc, λ _. omega arith)
send_loop_prefix (refuse ∷ answers) (c ∷ cs) wire =
    (0, sym (append-nil wire), λ e. cc, λ _. omega arith)
send_loop_prefix (accept n ∷ answers) (c ∷ cs) wire =
    let (k, sent, whole, part) =
      send_loop_prefix answers (drop n (c ∷ cs)) (wire ++ take n (c ∷ cs)) in
    let cut : take (n + k) (c ∷ cs) ≡ take n (c ∷ cs) ++ take k (drop n (c ∷ cs)) =
      take-add n k (c ∷ cs) in
    (
      n + k,
      sent ∙ append_assoc wire _ _ ∙ ap (◌++◌ wire) (sym cut),
      λ e. cut ∙ ap (◌++◌ (take n (c ∷ cs))) (whole e) ∙ take-append-drop n (c ∷ cs),
      λ e. omega (arith, part e, length-drop {0} n (c ∷ cs)),
    )
