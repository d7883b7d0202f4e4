-- ===== src/Download/Tests.antt =====
-- A download that one redirect leads to its book.
use biblichor.Prelude.{
  ◌≤◌, ◌≡◌, refl, true, none, some, [], ◌∷◌, ◌++◌, length, All, str_eq, if◌then◌else◌,
}
use mathlib.Core.List.{append-nil, append_assoc}
use biblichor.Prelude.Text.{codes}
use biblichor.Prelude.Result.{ok}
use biblichor.Security.Urls.{assert_safe_url, is_blocked_ip, check_host, refuse_if}
use biblichor.Download.{
  Bytes, Client, UrlTools, Md5, Disk, FileSystem, walk_loop, walk_redirects, write_chunks,
  save_body, finish, download,
}
use biblichor.Download.Requests.{IsAccepted, download_requests_safe}
use biblichor.Download.Outcome.{IsSettled, download_settles}

abbrev tools : UrlTools
tools = record {
  urlparse = λ u. record { scheme = codes "https"; hostname = codes u };
  urljoin = λ u loc. loc;
  resolver = record { ip_address = λ t. none; getaddrinfo = λ t. some [] };
}

abbrev client : Client
client = record {
  head = λ sent u.
      if str_eq u "library.org"
      then ok (record { status_code = 302; location = some "mirror.org" })
      else ok (record { status_code = 200; location = none });
  stream = λ sent u. ok (record {
    status_code = 200;
    content_type = some "application/epub+zip";
    chunks = (80 ∷ 75 ∷ []) ∷ [] ∷ (3 ∷ []) ∷ [];
    fault = none;
  });
}

abbrev hashing : Md5
hashing = record {
  Hash = Bytes;
  md5 = [];
  update = λ h b. h ++ b;
  hexdigest = λ h. "0cc1";
  update_nothing = append-nil;
  update_append = append_assoc;
}

abbrev disk : FileSystem
disk = record { can_open = true; can_unlink = true; can_replace = true }

abbrev empty_disk : Disk
empty_disk = record { part = none; final = none }

downloaded : download hashing disk tools client (some "0cc1") "library.org" empty_disk ≡ (
  (
    ok (record { size = 3; md5 = "0cc1"; content_type = some "application/epub+zip" }),
    record { part = none; final = some (80 ∷ 75 ∷ 3 ∷ []) },
  ),
  "mirror.org" ∷ "mirror.org" ∷ "library.org" ∷ [],
)
unfolding download walk_redirects walk_loop save_body write_chunks finish assert_safe_url check_host
    is_blocked_ip refuse_if
downloaded = refl

download_requests_safe_example :
    All
      (IsAccepted tools)
      (download hashing disk tools client (some "0cc1") "library.org" empty_disk).1
    × (length (download hashing disk tools client (some "0cc1") "library.org" empty_disk).1 ≤ 6)
download_requests_safe_example =
    download_requests_safe tools hashing disk client (some "0cc1") "library.org" empty_disk

download_settles_example :
    IsSettled hashing disk
      (some "0cc1")
      empty_disk
      (download hashing disk tools client (some "0cc1") "library.org" empty_disk).0
download_settles_example =
    download_settles hashing disk tools client (some "0cc1") "library.org" empty_disk
