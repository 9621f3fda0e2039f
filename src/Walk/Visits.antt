-- ===== src/Walk/Visits.antt =====
-- What every visit keeps, a walk keeps.
use cifscp.Base.{ℕ, zero, suc}
use cifscp.Base.Strings.{Bytes}
use cifscp.Connect.{Conn, Outcome, done, refused, fault, no_end}
use cifscp.Connect.Request.{After, and_then-After}
use cifscp.Find.{Dir, Dirent, Next, entry, null, readdir}
use cifscp.Find.Calls.{opendir, closedir}
use cifscp.Walk.{Setting, visited, each_entry, dropped, closed_with, walk}

-- A call whose error is dropped leaves the state as it was, or as the call made it.
pub dropped-After :
    {S : Type 0} (P : S → Type 0) (s : S) (r : Outcome S)
    → P s
    → After (λ s' c. P s') r
    → After (λ s' c. P s') (dropped s r)
dropped-After P s (done s' c) h k = k
dropped-After P s (refused w c) h k = h
dropped-After P s fault h k = tt
dropped-After P s no_end h k = tt

pub After-weaken :
    {S : Type 0} (P Q : S → Type 0) (r : Outcome S)
    → ((s : S) → P s → Q s)
    → After (λ s c. P s) r
    → After (λ s c. Q s) r
After-weaken P Q (done s c) f h = f s h
After-weaken P Q (refused w c) f h = tt
After-weaken P Q fault f h = tt
After-weaken P Q no_end f h = tt

visited-After :
    {S : Type 0} (P : S → Type 0) (body : Dirent → S → Conn → Outcome S)
    (next : Dir → S → Conn → Outcome (S × Dir)) (d : Dir) (s : S) (c : Conn) (n : Next)
    → P s
    → ((e : Dirent) (s' : S) (c' : Conn) → P s' → After (λ s'' c''. P s'') (body e s' c'))
    → ((d' : Dir) (s' : S) (c' : Conn) → P s' → After (λ r c''. P r.0) (next d' s' c'))
    → After (λ r c'. P r.0) (visited body next d s c n)
visited-After P body next d s c (null w) h k ih = h
visited-After P body next d s c (entry e) h k ih =
    and_then-After _ (body e s c) (next d) (k e s c h) (λ s' c' h'. ih d s' c' h')

pub nothing : {A : Type 0} (r : Outcome A) → After (λ a c. Unit) r
nothing (done a c) = tt
nothing (refused w c) = tt
nothing fault = tt
nothing no_end = tt

pub each_entry-After :
    {S : Type 0} (P : S → Type 0) (g : Setting) (body : Dirent → S → Conn → Outcome S) (turns : ℕ)
    (d : Dir) (s : S) (c : Conn)
    → P s
    → ((e : Dirent) (s' : S) (c' : Conn) → P s' → After (λ s'' c''. P s'') (body e s' c'))
    → After (λ r c'. P r.0) (each_entry g body turns d s c)
unfolding each_entry
each_entry-After P g body zero d s c h k = tt
each_entry-After P g body (suc turns) d s c h k =
    and_then-After _ (readdir g.fuel g.pages g.page g.fuel d c) _
      (nothing (readdir g.fuel g.pages g.page g.fuel d c))
      (λ found c' _.
        visited-After P body (each_entry g body turns) found.0 s c' found.1 h k
          (λ d' s' c'' h'. each_entry-After P g body turns d' s' c'' h' k))

pub walk-After :
    {S : Type 0} (P : S → Type 0) (g : Setting) (body : Dirent → S → Conn → Outcome S)
    (path : Bytes) (s : S) (c : Conn)
    → P s
    → ((e : Dirent) (s' : S) (c' : Conn) → P s' → After (λ s'' c''. P s'') (body e s' c'))
    → After (λ s' c'. P s') (walk g body path s c)
unfolding walk
walk-After P g body path s c h k =
    and_then-After _ (opendir g.fuel g.pages path g.trans g.area c) _
      (nothing (opendir g.fuel g.pages path g.trans g.area c))
      (λ d c1 _.
        and_then-After _ (each_entry g body g.fuel d s c1) (closed_with g)
          (each_entry-After P g body g.fuel d s c1 h k)
          (λ r c2 h'.
            and_then-After _ (dropped tt (closedir g.fuel r.1 c2)) _
              (nothing (dropped tt (closedir g.fuel r.1 c2))) (λ _ c3 _. h')))
