-- ===== src/Pipeline/Poll.antt =====
-- `poll_source_account` and `poll_sources` of src/endless_library/pipeline.py.
pub mod Growth
pub mod Added
use Prim.Native.String.{◌++◌ as ◌++ˢ◌}
use biblichor.Prelude.{
  ℕ, suc, ◌+◌, String, Bool, true, false, not, ◌&&◌, Option, none, some, List, [], ◌∷◌, ltb, str_eq,
  if◌then◌else◌,
}
use biblichor.Prelude.Path.{without, strip_blanks}
use biblichor.Prelude.Result.{ok, err}
use biblichor.Db.Books.Row.{Book, Books}
use biblichor.Db.Books.Upsert.{uses_hardcover, NewBook, upsert, count}
use biblichor.Db.Events.{MetaValue, append}
use biblichor.Db.Sources.{SourceAccount}
use biblichor.Db.Sources
use biblichor.Kindle.Session.{Env}
use biblichor.Kindle.Smtp.{read}
use biblichor.Pipeline.Run.{
  State, Answer, returned, raised, crashed, Program, ◌>>=◌, ◌>>◌, done, raise, call, get, log,
}
use biblichor.Pipeline.Search.{is_given, or_empty}

-- `BookRef`
pub record BookRef : Type 0 where
  pub title : String
  pub author : Option String
  pub isbn13 : Option String
  pub source : String
  pub source_id : String
  pub source_added_at : Option String

-- The calls out of a poll, by the number of calls before: `list_to_read` of the account's source
-- with the ids that are there already, and the `isbn` that Open Library has for a title and an
-- author, if any.
pub record SourceServices : Type 0 where
  pub list_to_read : ℕ → SourceAccount → List String → Answer (List BookRef)
  pub find_isbn : ℕ → String → String → Answer (Option String)

-- `seen_source_ids`: the column of the source, where it is not NULL.
abbrev pub seen_source_ids : String → Books → List String
seen_source_ids source [] = []
seen_source_ids source (b ∷ t) =
    let rest = seen_source_ids source t in
    if str_eq b.source source
    then elim (if uses_hardcover source then b.hardcover_id else b.goodreads_id) [
      | some i ↦ i ∷ rest
      | none ↦ rest
    ]
    else rest

-- `meta["isbn"].replace("-", "").strip() or None`
abbrev pub clean_isbn : String → Option String
clean_isbn s =
    let isbn = strip_blanks (without b'-' s) in if str_eq isbn "" then none else some isbn

-- The lookup; an exception leaves the ISBN as it was.
abbrev pub isbn_or : Option String → Answer (Option String) → Option String
isbn_or isbn (returned none) = isbn
isbn_or isbn (returned (some s)) = if str_eq s "" then isbn else clean_isbn s
isbn_or isbn (raised e) = isbn
isbn_or isbn (crashed e) = isbn

abbrev pub new_book : BookRef → Option String → NewBook
new_book ref isbn = record {
  title = ref.title;
  author = ref.author;
  isbn13 = isbn;
  source = ref.source;
  source_id = ref.source_id;
  source_added_at = ref.source_added_at;
}

abbrev pub text_or_absent : Option String → MetaValue
text_or_absent none = MetaValue.absent
text_or_absent (some s) = MetaValue.text s

module _ {S : Type 0} (env : Env) (src : SourceServices) where
  -- The ISBN of an entry, looked up where the source has none.
  unfoldable pub backfill : BookRef → Program S (Option String)
  backfill ref =
      if not (is_given ref.isbn13) && not (str_eq ref.title "") && is_given ref.author
      then (do
        answer ← call (λ n. src.find_isbn n ref.title (or_empty ref.author))
        done (isbn_or ref.isbn13 answer))
      else done ref.isbn13

  unfoldable pub log_added : BookRef → ℕ → Program S (Unit {0})
  unfolding append
  log_added ref i s =
      let t =
        (append (env.now s.world.reads)
          (record {
            book_id = some i;
            kind = "state_change";
            scraper = none;
            message = "added from " ++ˢ ref.source;
            meta =
                ("isbn13", text_or_absent ref.isbn13)
                ∷ ("source_id", MetaValue.text ref.source_id)
                ∷ [];
          })
          s.world.events).1 in
      (ok tt, record s { world = read (record s.world { events = t }) })

  -- `deps.books.upsert`
  unfoldable pub upsert_result : Option ℕ × Books → Program S ℕ
  upsert_result (some i, t) s = (ok i, record s { books = t; world = read s.world })
  upsert_result (none, t) s = (err "IntegrityError", record s { books = t; world = read s.world })

  unfoldable pub upsert_book : NewBook → Program S ℕ
  unfolding upsert_result
  upsert_book n s = upsert_result (upsert (env.now s.world.reads) n s.books) s

  -- `if deps.books.count() > existing`
  unfoldable pub after_upsert : BookRef → ℕ → ℕ → ℕ → ℕ → Program S ℕ
  unfolding log_added
  after_upsert ref existing added i now_there =
      if ltb existing now_there then (do log_added ref i; done (suc added)) else done added

  -- The loop over the entries; `added` is the count so far.
  unfoldable pub add_ref : ℕ → BookRef → Program S ℕ
  unfolding backfill upsert_book after_upsert
  add_ref added ref = do
    s ← get
    isbn ← backfill ref
    i ← upsert_book (new_book ref isbn)
    s' ← get
    after_upsert ref (count s.books) added i (count s'.books)

  unfoldable pub add_refs : ℕ → List BookRef → Program S ℕ
  unfolding add_ref
  add_refs added [] = done added
  add_refs added (ref ∷ refs) = add_ref added ref >>= λ n. add_refs n refs

  unfoldable pub mark_polled : ℕ → Program S (Unit {0})
  mark_polled i s = (
    ok tt,
    record s {
      accounts = Sources.mark_polled (env.now s.world.reads) i s.accounts;
      world = read s.world;
    },
  )

  abbrev pub failed_poll : SourceAccount → String → Program S ℕ
  failed_poll a e = do
    log env none "error" none
        ("poll " ++ˢ (a.source ++ˢ (" " ++ˢ (a.identifier ++ˢ (" failed: " ++ˢ e)))))
    done 0

  -- The source's answer.
  unfoldable pub after_list : SourceAccount → Answer (List BookRef) → Program S ℕ
  unfolding add_refs mark_polled
  after_list a (raised e) = failed_poll a e
  after_list a (crashed e) = failed_poll a e
  after_list a (returned refs) = do added ← add_refs 0 refs; mark_polled a.id; done added

  unfoldable pub poll_account : Option SourceAccount → Program S ℕ
  unfolding after_list
  poll_account none = done 0
  poll_account (some a) = if not a.enabled then done 0 else (do
    s ← get
    answer ← call (λ n. src.list_to_read n a (seen_source_ids a.source s.books))
    after_list a answer)

  -- `poll_source_account`
  unfoldable pub poll_source_account : ℕ → Program S ℕ
  unfolding poll_account
  poll_source_account i = do s ← get; poll_account (Sources.get i s.accounts)

  unfoldable pub poll_each : ℕ → List SourceAccount → Program S ℕ
  unfolding poll_source_account
  poll_each total [] = done total
  poll_each total (a ∷ accounts) = do n ← poll_source_account a.id; poll_each (total + n) accounts

  -- `poll_sources`
  unfoldable pub poll_sources : Program S ℕ
  unfolding poll_each
  poll_sources = do s ← get; poll_each 0 (Sources.list_enabled s.accounts)
