-- ===== src/Memory/Frame.antt =====
-- What a store leaves in a block, and what it leaves alone.
use native.Mathlib.Decide.{dec_lt}
use native.Mathlib.Nat.{zero-add, add-zero}
use cifscp.Base.{ℕ, zero, suc, ◌+◌, ◌≤◌, ◌<◌, ◌≡◌, refl, [], ◌∷◌, ◌++◌, arith, length, ◌%◌, ap}
use cifscp.Base.Strings.{Bytes}
use cifscp.Memory.{Mem, poke, store, load, le16, le32, get16, get32}

pub store-below : (bs : Bytes) (m : Mem) (a i : ℕ) → i < a → store m a bs i ≡ m i
unfolding store
store-below [] m a i h = refl
store-below (c ∷ cs) m a i h = ground (arith, store-below cs (poke m a c) (a + 1) i)

pub store-above : (bs : Bytes) (m : Mem) (a i : ℕ) → a + length bs ≤ i → store m a bs i ≡ m i
unfolding store
store-above [] m a i h = refl
store-above (c ∷ cs) m a i h = ground (arith, store-above cs (poke m a c) (a + 1) i)

pub load-store : (bs : Bytes) (m : Mem) (a : ℕ) → load (store m a bs) a (length bs) ≡ bs
unfolding store load
load-store [] m a = refl
load-store (c ∷ cs) m a =
    ground (arith, store-below cs (poke m a c) (a + 1) a, load-store cs (poke m a c) (a + 1))

-- Two blocks that agree on a range load the same bytes from it.
pub load-agree :
    (n : ℕ) (m k : Mem) (a : ℕ)
    → ((i : ℕ) → a ≤ i → i < a + n → m i ≡ k i)
    → load m a n ≡ load k a n
unfolding load
load-agree zero m k a h = refl
load-agree (suc n) m k a h =
    ground (arith, h a, load-agree n m k (a + 1) (λ i lo hi. h i (omega arith) (omega arith)))

pub load-store_below :
    (n : ℕ) (bs : Bytes) (m : Mem) (a b : ℕ) → b + n ≤ a → load (store m a bs) b n ≡ load m b n
load-store_below n bs m a b h =
    load-agree n (store m a bs) m b (λ i lo hi. store-below bs m a i (omega arith))

pub load-append : (n k : ℕ) (m : Mem) (a : ℕ) → load m a (n + k) ≡ load m a n ++ load m (a + n) k
unfolding load
load-append zero k m a = rw (zero-add, add-zero)
load-append (suc n) k m a =
    let e : suc n + k ≡ suc (n + k) = omega arith in
    let e' : a + suc n ≡ a + 1 + n = omega arith in
    rw (e, e') (ap (◌∷◌ (m a)) (load-append n k m (a + 1)))

pub store-append :
    (bs cs : Bytes) (m : Mem) (a : ℕ)
    → store m a (bs ++ cs) ≡ store (store m a bs) (a + length bs) cs
unfolding store
store-append [] cs m a = rw add-zero
store-append (b ∷ bs) cs m a = ground (arith, store-append bs cs (poke m a b) (a + 1))

pub length-load : (n : ℕ) (m : Mem) (a : ℕ) → length (load m a n) ≡ n
unfolding load
length-load zero m a = refl
length-load (suc n) m a = ap suc (length-load n m (a + 1))

pub get16-store-le16 : (m : Mem) (a v : ℕ) → get16 (store m a (le16 v)) a ≡ v % 65536
unfolding store le16 get16
get16-store-le16 m a v = ground arith

pub get32-store-le32 : (m : Mem) (a v : ℕ) → get32 (store m a (le32 v)) a ≡ v % 4294967296
unfolding store le32 get32
get32-store-le32 m a v = ground arith

-- What was loaded from one block and stored in another is there.
pub store-load : (n : ℕ) (m k : Mem) (a i : ℕ) → a ≤ i → i < a + n → store k a (load m a n) i ≡ m i
unfolding store load
store-load zero m k a i lo hi = absurd (omega arith)
store-load (suc n) m k a i lo hi = ground (
  arith,
  store-below (load m (a + 1) n) (poke k a (m a)) (a + 1) i,
  store-load n m (poke k a (m a)) (a + 1) i,
)

pub get16-agree : (m k : Mem) (a : ℕ) → m a ≡ k a → m (a + 1) ≡ k (a + 1) → get16 m a ≡ get16 k a
unfolding get16
get16-agree m k a e e' = ground arith

pub get32-agree :
    (m k : Mem) (a : ℕ) → ((i : ℕ) → a ≤ i → i < a + 4 → m i ≡ k i) → get32 m a ≡ get32 k a
unfolding get32
get32-agree m k a h = ground (arith, h a, h (a + 1), h (a + 2), h (a + 3))

-- Blocks that load the same bytes from a range agree on it.
pub load-injective :
    (n : ℕ) (m k : Mem) (a : ℕ) → load m a n ≡ load k a n → (i : ℕ) → a ≤ i → i < a + n → m i ≡ k i
unfolding load
load-injective zero m k a e i lo hi = absurd (omega arith)
load-injective (suc n) m k a e i lo hi = elim (dec_lt a i) [
  | yes h ↦ load-injective n m k (a + 1) (cc) i (omega arith) (omega arith)
  | no h ↦ let at : i ≡ a = omega arith in rw at (cc)
]
