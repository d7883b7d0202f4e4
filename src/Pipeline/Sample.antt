-- ===== src/Pipeline/Sample.antt =====
-- Two books, services that send the first, and a shelf with one entry.

use biblichor.Prelude.{◌*◌, List, if◌then◌else◌}
use biblichor.Prelude.Text.{same_codes, lower}
use biblichor.Prelude.{ℕ, ◌+◌, true, false, none, some, [], ◌∷◌}
use biblichor.Prelude.Result.{ok}
use biblichor.Domain.Status.{queued}
use biblichor.Domain.Tests.{nat_floats}
use biblichor.Db.Books.Row.{Book}
use biblichor.Db.Candidates.{Candidate}
use biblichor.Kindle.Session.{Env}
use biblichor.Pipeline.Run.{State, returned, found, PipelineConfig, Services}
use biblichor.Pipeline.Poll.{BookRef, SourceServices}
use biblichor.Db.Sources.{SourceAccount}

abbrev pub dune : Book
dune = record {
  id = 1;
  title = "Dune";
  author = some "Herbert";
  isbn13 = none;
  goodreads_id = some "44767458";
  hardcover_id = none;
  source = "goodreads";
  source_added_at = none;
  status = queued;
  format = none;
  file_path = none;
  file_size = none;
  md5 = none;
  picked_candidate_id = none;
  attempts = 0;
  last_error = none;
  created_at = 10;
  updated_at = 10;
  searched_at = none;
  downloaded_at = none;
  converted_at = none;
  sent_at = none;
  series = none;
  tags = none;
  sent_method = none;
}

abbrev pub emma : Book
emma = record dune { id = 2; title = "Emma"; goodreads_id = some "6969" }

abbrev pub hit : Candidate
hit = record {
  provider = "annas";
  md5 = some "abcdef0123";
  title = some "Dune";
  author = some "Herbert";
  language = none;
  format = some "epub";
  filesize_bytes = some 60;
  year = none;
  publisher = none;
  edition_hints = none;
  detail_url = "/md5/abcdef0123";
  raw = "{}";
}

abbrev pub outside : Env
outside = record {
  is_configured = true;
  secrets_failure = λ n. none;
  quota_failure = λ n. none;
  insert_failure = λ n. none;
  lost = λ n t. none;
  build_failure = none;
  client = λ n. ok "sku";
  smtp = λ n. none;
  now = λ n. 1000 + n;
  elapsed_ms = λ n. n;
  smtp_log_readable = true;
  repr = λ t. "name";
}

abbrev pub sum : List ℕ → ℕ
sum [] = 0
sum (x ∷ xs) = x + sum xs

abbrev pub services : Services nat_floats
services = record {
  kindle = outside;
  year = λ n. 2026;
  search = λ n name b. found (hit ∷ []);
  resolve_cdn = λ n name c. found (some "https://cdn/dune.epub");
  download =
      λ n url b md5. returned (record { path = "/b/dune.epub"; size = 60; md5 = "abcdef0123" });
  unpack = λ n path. returned (record { path = path; was_archive = false });
  exists = λ n path. true;
  size_of = λ n path. returned 60;
  convert_to_epub = λ n path. returned path;
  enrich_metadata = λ n path b. returned tt;
  try_compress = λ n path size. returned none;
  drop_into_library = λ n root b. returned root;
  stk_configured = λ n. returned false;
  score_ops = record {
    mul = λ x y. x * y;
    of_nat = λ n. n;
    neg = λ x. 0;
    sum = sum;
    similarity = λ s t. if same_codes s t then 1 else 0;
    lower = lower;
    row_text = λ raw. [];
  };
  isbns = λ raw. [];
  loads = λ raw. some raw;
  inflate = λ n. n + n;
  show_time = λ n. "now";
  show_fixed = λ d x. "x";
}

abbrev pub config : PipelineConfig nat_floats
config = record {
  max_attempts = 3;
  max_search_attempts_before_skip = 5;
  zombie_stale_minutes = 30;
  quality_floor = 40;
  quality_floor_non_latin = 30;
  auto_pick = record {
    threshold = 70;
    gap = 10;
    min_score_for_failure = 20;
    high_confidence_bonus = 15;
    isbn_title_override_min_similarity = 1;
  };
  auto_pick_threshold_non_latin = 50;
  min_score_for_failure_non_latin = 10;
  smtp_cap = 1000;
  max_attachment_mb = 25;
  calibre_enabled = false;
  bookorbit_enabled = false;
  library_root = none;
  router = record {
    daily_cap = some 10;
    max_attempts = 3;
    min_send_interval = false;
    per_file_interval = false;
    max_batch_bytes = 1000;
    max_batch_files = 5;
    smtp_daily_cap = 20;
  };
  scrapers = record {
    order = "annas_curl" ∷ "libgen_curl" ∷ [];
    enabled = ("annas_curl", true) ∷ ("libgen_curl", false) ∷ [];
  };
  recent_release_window_years = 1;
  scoring = record {
    isbn_match = 35;
    title_weight = 40;
    author_weight = 40;
    format_bonus = ("epub", 5) ∷ [];
    language_bonus = 10;
    filesize_min_bytes = 20;
    filesize_max_bytes = 8000;
    scan_penalty = 10;
    audio_keywords = "audiobook" ∷ [];
    non_latin_title_multiplier = 2;
  };
  language = "en";
}

abbrev pub start : State ℕ
start = record {
  books = dune ∷ emma ∷ [];
  cands = [];
  accounts = [];
  world = record { events = []; uploads = []; mails = []; pauses = []; reads = 0 };
  notices = [];
  deliverable_max_bytes = none;
}

abbrev pub listed : BookRef
listed = record {
  title = "Persuasion";
  author = some "Austen";
  isbn13 = none;
  source = "goodreads";
  source_id = "2156";
  source_added_at = none;
}

abbrev pub reading_list : SourceServices
reading_list = record {
  list_to_read = λ n a seen. returned (listed ∷ listed ∷ []);
  find_isbn = λ n title author. returned (some "978-0141439686");
}

abbrev pub shelf : SourceAccount
shelf = record {
  id = 1;
  source = "goodreads";
  identifier = "me";
  token = none;
  enabled = true;
  poll_interval_minutes = 60;
  last_polled_at = none;
}

abbrev pub subscribed : State ℕ
subscribed = record start { accounts = shelf ∷ [] }
