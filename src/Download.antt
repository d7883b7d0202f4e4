-- ===== src/Download.antt =====
-- src/endless_library/download.py: `_walk_redirects` and `download`.
pub mod Requests
pub mod Outcome
mod Tests
use biblichor.Prelude.{
  ℕ, zero, suc, ◌+◌, String, Bool, true, false, not, ◌&&◌, Option, none, some, List, [], ◌∷◌, ◌++◌,
  ◌≡◌, ◌==◌, leb, length, any, str_eq, if◌then◌else◌,
}
use biblichor.Prelude.Text.{codes, is_empty, lower, contains}
use biblichor.Prelude.Result.{Result, ok, err}
use biblichor.Security.Urls.{UnsafeUrl, ParsedUrl, Resolver, assert_safe_url}

abbrev pub Bytes : Type 0
Bytes = List ℕ

-- What httpx or the disk raises: an `httpx.HTTPError` or any other exception.
pub data Fault : Type 0 where
  http_error other_error : Fault

-- The exceptions of `download`; all but the last are a `DownloadError`.
pub data Failure : Type 0 where
  unsafe_url unsafe_redirect : UnsafeUrl → Failure
  no_location too_many_redirects network not_book empty_body md5_mismatch rename_failed : Failure
  http_status : ℕ → Failure
  other : Failure

-- The handlers around the requests.
abbrev pub raised : Fault → Failure
raised http_error = network
raised other_error = other

-- The answer to a HEAD.
pub record HeadReply : Type 0 where
  pub status_code : ℕ
  pub location : Option String

-- The answer to a GET: its body in chunks, and the exception that ends their reading or writing.
pub record Stream : Type 0 where
  pub status_code : ℕ
  pub content_type : Option String
  pub chunks : List Bytes
  pub fault : Option Fault

-- `httpx.Client`: what the servers answer after the requests sent before, the newest first.
pub record Client : Type 0 where
  pub head : List String → String → Result Fault HeadReply
  pub stream : List String → String → Result Fault Stream

-- Python's library on URLs, and the names of the network.
pub record UrlTools : Type 0 where
  pub urlparse : String → ParsedUrl
  pub urljoin : String → String → String
  pub resolver : Resolver

-- `hashlib.md5`; feeding two parts one after the other is feeding them at once.
pub record Md5 : Type 1 where
  pub Hash : Type 0
  pub md5 : Hash
  pub update : Hash → Bytes → Hash
  pub hexdigest : Hash → String
  pub update_nothing : (h : Hash) → update h [] ≡ h
  pub update_append : (h : Hash) (b c : Bytes) → update (update h b) c ≡ update h (b ++ c)

-- The two files that a download touches, the staging file and the final one.
pub record Disk : Type 0 where
  pub part : Option Bytes
  pub final : Option Bytes

-- Which calls of the file system succeed.
pub record FileSystem : Type 0 where
  pub can_open : Bool
  pub can_unlink : Bool
  pub can_replace : Bool

-- `DownloadResult`, without the path.
pub record DownloadResult : Type 0 where
  pub size : ℕ
  pub md5 : String
  pub content_type : Option String

abbrev pub max_redirects : ℕ
max_redirects = 5

abbrev pub is_redirect : ℕ → Bool
is_redirect code = any (λ n. n == code) (301 ∷ 302 ∷ 303 ∷ 307 ∷ 308 ∷ [])

-- A walk: the URL that it ends at, and the requests sent.
abbrev pub Walk : Type 0
Walk = Result Failure String × List String

module _ (tools : UrlTools) where
  abbrev pub check_url : String → Result UnsafeUrl (Unit {0})
  check_url url = assert_safe_url tools.resolver false (tools.urlparse url)

  -- One redirect, whose target has been checked; `walk` is the rest of the loop.
  abbrev pub hop :
      (String → List String → Walk) → String → List String → Result UnsafeUrl (Unit {0}) → Walk
  hop walk next sent (ok u) = walk next sent
  hop walk next sent (err e) = (err (unsafe_redirect e), sent)

  abbrev pub follow : (String → List String → Walk) → String → Option String → List String → Walk
  follow walk current none sent = (err no_location, sent)
  follow walk current (some loc) sent =
      let next = tools.urljoin current loc in
      if is_empty (codes loc) then (err no_location, sent) else hop walk next sent (check_url next)

  abbrev pub after_head :
      (String → List String → Walk) → String → Result Fault HeadReply → List String → Walk
  after_head walk current (err f) sent = (err (raised f), sent)
  after_head walk current (ok r) sent =
      if is_redirect r.status_code
      then follow walk current r.location sent
      else if leb 400 r.status_code
      then (err (http_status r.status_code), sent)
      else (ok current, sent)

  -- The loop of `_walk_redirects`, with the number of rounds left.
  unfoldable pub walk_loop : Client → ℕ → String → List String → Walk
  walk_loop client zero current sent = (err too_many_redirects, sent)
  walk_loop client (suc n) current sent =
      after_head (walk_loop client n) current (client.head sent current) (current ∷ sent)

  abbrev pub walk_checked : Client → String → Result UnsafeUrl (Unit {0}) → Walk
  walk_checked client url (err e) = (err (unsafe_url e), [])
  walk_checked client url (ok u) = walk_loop client max_redirects url []

  -- `_walk_redirects`
  unfoldable pub walk_redirects : Client → String → Walk
  unfolding walk_loop
  walk_redirects client url = walk_checked client url (check_url url)

-- `content_type and "text/html" in content_type.lower()`
abbrev pub is_html : Option String → Bool
is_html none = false
is_html (some t) = contains (codes "text/html") (lower (codes t))

-- `r.read()` of a page that is no book
abbrev pub html_failure : Option Fault → Failure
html_failure none = not_book
html_failure (some f) = raised f

module _ (H : Md5) (fs : FileSystem) where
  open H use {Hash, md5, update, hexdigest}

  -- The file written, the hash and `total`.
  pub record Progress : Type 0 where
    pub written : Bytes
    pub hash : Hash
    pub total : ℕ

  abbrev pub add_chunk : Progress → Bytes → Progress
  add_chunk p [] = p
  add_chunk p (b ∷ bs) = record {
    written = p.written ++ b ∷ bs;
    hash = update p.hash (b ∷ bs);
    total = p.total + length (b ∷ bs);
  }

  unfoldable pub write_chunks : List Bytes → Progress → Progress
  write_chunks [] p = p
  write_chunks (chunk ∷ chunks) p = write_chunks chunks (add_chunk p chunk)

  abbrev pub no_bytes : Progress
  no_bytes = record { written = []; hash = md5; total = 0 }

  -- `part.unlink(missing_ok=True)`, where an OSError is suppressed
  abbrev pub unlink_part : Disk → Disk
  unlink_part d = if fs.can_unlink then record d { part = none } else d

  abbrev pub after_chunks : Option Fault → Progress → Disk → Result Failure Progress × Disk
  after_chunks none p d = (ok p, record d { part = some p.written })
  after_chunks (some f) p d = (err (raised f), record d { part = some p.written })

  -- The body of `with client.stream(…)`.
  unfoldable pub save_body : Stream → Disk → Result Failure Progress × Disk
  unfolding write_chunks
  save_body r d =
      if not (r.status_code == 200)
      then (err (http_status r.status_code), d)
      else if is_html r.content_type
      then (err (html_failure r.fault), d)
      else if fs.can_open
      then after_chunks r.fault (write_chunks r.chunks no_bytes) d
      else (err other, d)

  -- `expected_md5 and digest != expected_md5`
  abbrev pub is_mismatch : Option String → String → Bool
  is_mismatch none digest = false
  is_mismatch (some e) digest = not (is_empty (codes e)) && not (str_eq digest e)

  -- The checks after the transfer, and the rename.
  unfoldable pub finish :
      Option String → Option String → Progress → Disk → Result Failure DownloadResult × Disk
  finish expected content_type p d =
      if p.total == 0
      then (err empty_body, unlink_part d)
      else if is_mismatch expected (hexdigest p.hash)
      then (err md5_mismatch, unlink_part d)
      else if fs.can_replace
      then (
        ok (record { size = p.total; md5 = hexdigest p.hash; content_type = content_type }),
        record { part = none; final = d.part },
      )
      else (err rename_failed, unlink_part d)

  -- The end of the `try`.
  abbrev pub after_body :
      Option String
      → Option String
      → Result Failure Progress × Disk
      → Result Failure DownloadResult × Disk
  after_body expected content_type (err e, d) = (err e, unlink_part d)
  after_body expected content_type (ok p, d) = finish expected content_type p d

  abbrev pub after_get :
      Option String → Result Fault Stream → Disk → Result Failure DownloadResult × Disk
  after_get expected (err f) d = (err (raised f), unlink_part d)
  after_get expected (ok r) d = after_body expected r.content_type (save_body r d)

  abbrev pub after_walk :
      Client → Option String → Walk → Disk → (Result Failure DownloadResult × Disk) × List String
  after_walk client expected (err e, sent) d = ((err e, unlink_part d), sent)
  after_walk client expected (ok url, sent) d =
      (after_get expected (client.stream sent url) d, url ∷ sent)

  -- `download`, with the requests that it sends; the paths of the two files are given.
  unfoldable pub download :
      UrlTools
      → Client
      → Option String
      → String
      → Disk
      → (Result Failure DownloadResult × Disk) × List String
  unfolding walk_redirects save_body finish
  download tools client expected url d =
      after_walk client expected (walk_redirects tools client url) d
