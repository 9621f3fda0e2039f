-- ===== src/Codepage/Transcribed.antt =====
-- The growing conversion with a single-byte code page.
use cifscp.Base.{
  ℕ, zero, suc, ◌<◌, ◌≡◌, refl, ◌⊎◌, inl, inr, Option, none, [], ◌∷◌, ◌++◌, arith, Option-cases,
  drop,
}
use cifscp.Base.Strings.{Bytes}
use cifscp.Codepage.{
  Status, converted, illegal, incomplete, too_big, other, Call, Converted, written, stuck,
}
use cifscp.Codepage.Escape.{add_taken, table_stop, table_iconv, transcribe}
use cifscp.Codepage.Growing.{Grown, roomy, IsRoomy}

module _ (t : ℕ → Option ℕ) where
  -- What a call leaves is still to be transcribed, and it stops at the end, at a byte without a
  -- code, or at the end of the room.
  abbrev Stopped : Bytes → Status → Type 0
  Stopped rest converted = rest ≡ []
  Stopped rest illegal = (b : ℕ) × (more : Bytes) × (rest ≡ b ∷ more) × (t b ≡ none)
  Stopped rest incomplete = ⊥
  Stopped rest too_big = Unit
  Stopped rest other = ⊥

  abbrev Splits : Bytes → Call → Type 0
  Splits inp c =
      (transcribe t inp ≡ c.out ++ transcribe t (drop c.taken inp))
      × Stopped (drop c.taken inp) c.status

  -- A round that has room for it takes something.
  table_some :
      (inp : Bytes) (room : ℕ)
      → (table_iconv t inp room).status ≡ too_big
      → (table_iconv t inp room).taken ≡ 0
      → room < roomy
  unfolding table_iconv table_stop add_taken
  table_some [] room e z = cc
  table_some (b ∷ rest) zero e z = omega arith
  table_some (b ∷ rest) (suc room) e z = elim (Option-cases (t b)) [
    | inl n ↦ ground (arith, n, e)
    | inr (v, n) ↦ ground (arith, n, z)
  ]

  table_idle :
      (inp : Bytes) (room : ℕ)
      → (table_iconv t inp room).taken ≡ 0
      → (table_iconv t inp room).out ≡ []
  unfolding table_iconv table_stop add_taken
  table_idle [] room z = refl
  table_idle (b ∷ rest) zero z = elim (Option-cases (t b)) [
    | inl n ↦ ground (arith, n)
    | inr (v, n) ↦ ground (arith, n)
  ]
  table_idle (b ∷ rest) (suc room) z = elim (Option-cases (t b)) [
    | inl n ↦ ground (arith, n)
    | inr (v, n) ↦ ground (arith, n, z)
  ]

  pub table-IsRoomy : IsRoomy (table_iconv t)
  table-IsRoomy = record { takes_some = table_some; writes_taken = table_idle }

  -- A loop that ends writes what is meant.
  abbrev Finishes : Bytes → Bytes → Converted → Type 0
  Finishes acc inp r = (r ≡ stuck) ⊎ (r ≡ written (acc ++ transcribe t inp))

  abbrev AllFinish : Grown → Type 0
  AllFinish next = (inp acc : Bytes) (left size : ℕ) → Finishes acc inp (next inp left size acc)
