-- ===== src/Download/Requests.antt =====
-- The requests that a download sends.
use mathlib.Core.Path.{subst}
use biblichor.Prelude.{
  ℕ, zero, suc, ◌+◌, ◌≤◌, ◌≡◌, refl, String, Option, none, some, List, [], ◌∷◌, leb, length, All,
  if-both, arith,
}
use biblichor.Prelude.Text.{codes, is_empty}
use biblichor.Prelude.Result.{Result, ok, err}
use biblichor.Security.Urls.{UnsafeUrl}
use biblichor.Download.{
  Fault, Failure, HeadReply, Client, UrlTools, Md5, Disk, FileSystem, max_redirects, is_redirect,
  Walk, check_url, hop, follow, after_head, walk_loop, walk_checked, walk_redirects, after_walk,
  download,
}

same_url : (w : Result Failure String) (u v : String) → w ≡ ok u → w ≡ ok v → u ≡ v
same_url w u v h k = cc

module _ (tools : UrlTools) where
  -- `assert_safe_url` accepts the URL.
  abbrev pub IsAccepted : String → Type 0
  IsAccepted url = check_url tools url ≡ ok tt

  -- At most `n` requests, all to accepted URLs, and so is the URL at the end.
  record IsGuarded (n : ℕ) (w : Walk) : Type 0 where
    accepted : All IsAccepted w.1
    bounded : length w.1 ≤ n
    target : (url : String) → w.0 ≡ ok url → IsAccepted url

  stopped :
      (n : ℕ) (sent : List String) (e : Failure)
      → All IsAccepted sent
      → length sent ≤ n
      → IsGuarded n (err e, sent)
  stopped n sent e a b = record { accepted = a; bounded = b; target = λ v h. cc }

  module _ (n : ℕ) (walk : String → List String → Walk) (sent : List String) where
    hop-IsGuarded :
        ((url : String) → IsAccepted url → IsGuarded n (walk url sent))
        → All IsAccepted sent
        → length sent ≤ n
        → (url : String) (x : Result UnsafeUrl (Unit {0})) → check_url tools url ≡ x
        → IsGuarded n (hop tools walk url sent x)
    hop-IsGuarded rest a b url (ok tt) e = rest url e
    hop-IsGuarded rest a b url (err u) e = stopped n sent _ a b

    follow-IsGuarded :
        ((url : String) → IsAccepted url → IsGuarded n (walk url sent))
        → All IsAccepted sent
        → length sent ≤ n
        → (current : String) (location : Option String)
        → IsGuarded n (follow tools walk current location sent)
    follow-IsGuarded rest a b current none = stopped n sent _ a b
    follow-IsGuarded rest a b current (some loc) =
        if-both (IsGuarded n) (is_empty (codes loc)) _ _ (λ e. stopped n sent _ a b)
          (λ e. hop-IsGuarded rest a b (tools.urljoin current loc) _ refl)

    after_head-IsGuarded :
        ((url : String) → IsAccepted url → IsGuarded n (walk url sent))
        → All IsAccepted sent
        → length sent ≤ n
        → (current : String) (x : Result Fault HeadReply) → IsAccepted current
        → IsGuarded n (after_head tools walk current x sent)
    after_head-IsGuarded rest a b current (err f) safe = stopped n sent _ a b
    after_head-IsGuarded rest a b current (ok r) safe =
        if-both (IsGuarded n) (is_redirect r.status_code) _ _
          (λ e. follow-IsGuarded rest a b current r.location)
          (λ e.
            if-both (IsGuarded n) (leb 400 r.status_code) _ _ (λ e. stopped n sent _ a b)
              (λ e. record {
                accepted = a;
                bounded = b;
                target = λ v h. subst IsAccepted (same_url _ current v refl h) safe;
              }))

  walk_loop-IsGuarded :
      (client : Client) (n k : ℕ) (current : String) (sent : List String)
      → IsAccepted current
      → All IsAccepted sent
      → length sent + k ≤ n
      → IsGuarded n (walk_loop tools client k current sent)
  unfolding walk_loop
  walk_loop-IsGuarded client n zero current sent safe a b = stopped n sent _ a (omega (arith, b))
  walk_loop-IsGuarded client n (suc k) current sent safe a b =
      after_head-IsGuarded n (walk_loop tools client k) (current ∷ sent)
        (λ url s.
          walk_loop-IsGuarded client n k url (current ∷ sent) s (safe, a) (omega (arith, b)))
        (safe, a) (omega (arith, b)) current (client.head sent current) safe

  walk_checked-IsGuarded :
      (client : Client) (url : String) (x : Result UnsafeUrl (Unit {0}))
      → check_url tools url ≡ x
      → IsGuarded max_redirects (walk_checked tools client url x)
  walk_checked-IsGuarded client url (ok tt) e =
      walk_loop-IsGuarded client max_redirects max_redirects url [] e tt (omega arith)
  walk_checked-IsGuarded client url (err u) e = stopped max_redirects [] _ tt (omega arith)

  after_walk_guarded :
      (H : Md5) (fs : FileSystem) (client : Client) (expected : Option String) (w : Walk) (d : Disk)
      → IsGuarded max_redirects w
      → All IsAccepted (after_walk H fs client expected w d).1
        × (length (after_walk H fs client expected w d).1 ≤ 6)
  after_walk_guarded H fs client expected (err e, sent) d g = (g.accepted, omega (arith, g.bounded))
  after_walk_guarded H fs client expected (ok url, sent) d g =
      ((g.target url refl, g.accepted), omega (arith, g.bounded))

  -- Whatever the servers answer, a download sends at most six requests, and `assert_safe_url` accepts
  -- the URL of each, that of every redirect and of the final GET included.
  pub download_requests_safe :
      (H : Md5) (fs : FileSystem) (client : Client) (expected : Option String) (url : String)
      (d : Disk)
      → All IsAccepted (download H fs tools client expected url d).1
        × (length (download H fs tools client expected url d).1 ≤ 6)
  unfolding download walk_redirects
  download_requests_safe H fs client expected url d =
      after_walk_guarded H fs client expected _ d (walk_checked-IsGuarded client url _ refl)
