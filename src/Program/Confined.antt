-- ===== src/Program/Confined.antt =====
-- What a run of cifscp leaves alone on the local disk.
use cifscp.Base.{
  inl, inr, Bool, true, false, Option, none, some, List, [], ◌∷◌, if◌then◌else◌, Bool-cases,
}
use cifscp.Base.Strings.{Bytes}
use cifscp.Uri.{file, cifs, Uri, uri_parse}
use cifscp.Connect.{Conn, Outcome, done, refused, fault, no_end}
use cifscp.Connect.Request.{After, and_then-After}
use cifscp.Find.{Dir, Dirent, is_directory}
use cifscp.Find.Calls.{cifs_mask}
use cifscp.Copy.{Clock}
use cifscp.Walk.{Setting, each_entry}
use cifscp.Walk.Visits.{each_entry-After}
use cifscp.Trees.Disks.{Local, IsLocal}
use cifscp.Trees.Confined.{Outside, Outside-below, Same, file-Kept}
use cifscp.Trees.Inside.{heedless-Kept, dir-Kept}
use cifscp.Trees.{Work, below, heedless, fetch_file, fetch_dir}
use cifscp.Program.{Reply, reply, faulty, endless, ◌>>=◌, called, Dial, connect_uri}
use cifscp.Program.Copies.{
  Ran, fetch_match, fetch_masked, after_fetch, fetch_connected, fetch_parsed, fetch_source,
  fetch_sources,
}

-- What holds of what a part of `main` returns.
abbrev pub Returns : {A : Type 0} → (A → Type 0) → Reply A → Type 0
Returns P (reply a) = P a
Returns P faulty = Unit
Returns P endless = Unit

pub >>=-Returns :
    {A B : Type 0} (P : A → Type 0) (Q : B → Type 0) (r : Reply A) (f : A → Reply B)
    → Returns P r
    → ((a : A) → P a → Returns Q (f a))
    → Returns Q (r >>= f)
>>=-Returns P Q (reply a) f h k = k a h
>>=-Returns P Q faulty f h k = tt
>>=-Returns P Q endless f h k = tt

pub anything : {A : Type 0} (r : Reply A) → Returns (λ a. Unit) r
anything (reply a) = tt
anything faulty = tt
anything endless = tt

module _ (L : Local) (l : IsLocal L) (q : Bytes) (x : Option Bytes) where
  abbrev pub Held : Ran L → Type 0
  Held r = Same L l q x r.work

  match-Kept :
      (g : Setting) (clock : Clock) (into : Bool) (dst : Bytes) (e : Dirent) (w : Work L) (c : Conn)
      → Outside dst q
      → Same L l q x w
      → After (λ w' c'. Same L l q x w') (fetch_match L g clock into dst e w c)
  match-Kept g clock into dst e w c o s = at (if into then below dst e.name else dst) (inside into)
    where
      inside : (b : Bool) → Outside (if b then below dst e.name else dst) q
      inside true = Outside-below dst e.name q o
      inside false = o

      at :
          (name : Bytes)
          → Outside name q
          → After
              (λ w' c'. Same L l q x w')
              (if is_directory e.st
                then heedless L (fetch_dir L g clock g.fuel e.path name w c)
                else heedless L (fetch_file L g clock e.path name w c))
      at name o' = elim (Bool-cases (is_directory e.st)) [
        | inl y ↦ rw (y) (
            heedless-Kept L l q x (fetch_dir L g clock g.fuel e.path name w c)
              (dir-Kept L l q x g clock g.fuel e.path name w c o' s))
        | inr n ↦ rw (n) (
            heedless-Kept L l q x (fetch_file L g clock e.path name w c)
              (file-Kept L l q x g clock e.path name w c o'.apart s))
      ]

  abbrev MaybeKept : Option (Work L) → Type 0
  MaybeKept none = Unit
  MaybeKept (some w) = Same L l q x w

  masked-Kept :
      (g : Setting) (clock : Clock) (into : Bool) (dst : Bytes) (w : Work L) (r : Outcome Dir)
      → Outside dst q
      → Same L l q x w
      → After (λ o c. MaybeKept o) (fetch_masked L g clock into dst w r)
  masked-Kept g clock into dst w (done d c) o s =
      and_then-After (λ m c'. MaybeKept m)
        (each_entry g (fetch_match L g clock into dst) g.fuel d w c) (λ r c'. done (some r.0) c')
        (each_entry-After (Same L l q x) g (fetch_match L g clock into dst) g.fuel d w c s
          (λ e w' c' s'. match-Kept g clock into dst e w' c' o s'))
        (λ r c' h. h)
  masked-Kept g clock into dst w (refused why c) o s = tt
  masked-Kept g clock into dst w fault o s = tt
  masked-Kept g clock into dst w no_end o s = tt

  called-Kept :
      (src : Bytes) (r : Ran L) (out : Outcome (Option (Work L)))
      → Held r
      → After (λ m c. MaybeKept m) out
      → Returns Held (called out >>= after_fetch L src r)
  called-Kept src r (done none c) s h = s
  called-Kept src r (done (some w) c) s h = h
  called-Kept src r (refused why c) s h = s
  called-Kept src r fault s h = tt
  called-Kept src r no_end s h = tt

  source-Kept :
      (g : Setting) (dial : Dial) (clock : Clock) (into : Bool) (dst src : Bytes) (r : Ran L)
      → Outside dst q
      → Held r
      → Returns Held (fetch_source L g dial clock into dst src r)
  unfolding fetch_source
  source-Kept g dial clock into dst src r o s = parsed (uri_parse src)
    where
      reached :
          (u : Uri) (c : Option Conn) → Returns Held (fetch_connected L g clock into dst src u r c)
      reached u none = s
      reached u (some c) =
          called-Kept src r
            (fetch_masked L g clock into dst r.work
              (cifs_mask g.fuel g.pages u.dir (some u.name) g.trans g.area c))
            s
            (masked-Kept g clock into dst r.work
              (cifs_mask g.fuel g.pages u.dir (some u.name) g.trans g.area c) o s)

      parsed : (u : Option Uri) → Returns Held (fetch_parsed L g dial clock into dst src r u)
      parsed none = tt
      parsed (some u) =
          elim u.scheme
            as (λ z. Returns Held (elim z [
              | file ↦ reply r
              | cifs ↦ connect_uri g dial u >>= fetch_connected L g clock into dst src u r
            ])) [
              | file ↦ s
              | cifs ↦
                  >>=-Returns (λ c. Unit) Held (connect_uri g dial u)
                    (fetch_connected L g clock into dst src u r) (anything (connect_uri g dial u))
                    (λ c _. reached u c)
            ]

  pub sources-Kept :
      (g : Setting) (dial : Dial) (clock : Clock) (into : Bool) (dst : Bytes) (srcs : List Bytes)
      (r : Ran L)
      → Outside dst q
      → Held r
      → Returns Held (fetch_sources L g dial clock into dst srcs r)
  unfolding fetch_sources
  sources-Kept g dial clock into dst [] r o s = s
  sources-Kept g dial clock into dst (src ∷ srcs) r o s =
      >>=-Returns Held Held (fetch_source L g dial clock into dst src r)
        (fetch_sources L g dial clock into dst srcs) (source-Kept g dial clock into dst src r o s)
        (λ r' s'. sources-Kept g dial clock into dst srcs r' o s')
