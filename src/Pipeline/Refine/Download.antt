-- ===== src/Pipeline/Refine/Download.antt =====
-- The download records no failure, and `_search_fail_or_skip` at most one.
use biblichor.Prelude.{ℕ, ==_refl, String, Option, none, some, List, [], ◌∷◌, arith}
use biblichor.Prelude.Number.{Floats}
use biblichor.Db.Books.Row.{Book}
use biblichor.Db.Candidates.{Candidate}
use biblichor.Pipeline.Run.{
  Answer, returned, raised, crashed, Scraped, found, not_implemented, failed, Downloaded, Unpacked,
  PipelineConfig, Services, Program,
}
use biblichor.Pipeline.Download.{
  fail_with, Resolved, keep_file, after_unpack, after_download, after_resolve, resolve_loop,
  duplicate_of, after_dedup, resolve_and_download, search_fail_or_skip,
}
use biblichor.Pipeline.Search.{book_chain}
use biblichor.Pipeline.Refine.{
  Keeps-ask, Keeps, quietly, Keeps-then, Keeps-done, Keeps-raise, Keeps-call, Keeps-get, Keeps-log,
  Keeps-when, Keeps-if, Keeps-update,
}

module _ (F : Floats) (env : Services F) (cfg : PipelineConfig F) (book : Book) where
  open F use {Float}

  keep_file-Keeps :
      (name : String) (result : Downloaded) (u : Unpacked)
      → Keeps book.id 0 0 (keep_file F env cfg book name result u)
  unfolding keep_file
  keep_file-Keeps name result u =
      quietly book.id 0 0 _ _ (Keeps-when book.id _ _ (Keeps-log book.id env.kindle _ _ _ _)) (λ a.
        quietly book.id 0 0 _ _ (Keeps-ask book.id _) (λ size.
          quietly book.id 0 0 _ _
            (Keeps-update book.id env.kindle 0 0 _ (==_refl book.id) (omega arith))
            (λ b.
              quietly book.id 0 0 _ _
                (Keeps-update book.id env.kindle 0 0 _ (==_refl book.id) (omega arith))
                (λ c. Keeps-done book.id 0 0 _))))

  module _ (continue : Option String → Program Float Resolved)
      (h : (last : Option String) → Keeps book.id 0 0 (continue last)) (name : String) where
    after_unpack-Keeps :
        (result : Downloaded) (a : Answer Unpacked)
        → Keeps book.id 0 0 (after_unpack F env cfg book name result continue a)
    unfolding after_unpack
    after_unpack-Keeps result (returned u) = keep_file-Keeps name result u
    after_unpack-Keeps result (crashed e) = Keeps-raise book.id Resolved 0 0 e
    after_unpack-Keeps result (raised e) =
        quietly book.id 0 0 _ _ (Keeps-log book.id env.kindle _ _ _ _) (λ a. h _)

    after_download-Keeps :
        (a : Answer Downloaded) → Keeps book.id 0 0 (after_download F env cfg book name continue a)
    unfolding after_download
    after_download-Keeps (crashed e) = Keeps-raise book.id Resolved 0 0 e
    after_download-Keeps (raised e) =
        quietly book.id 0 0 _ _ (Keeps-log book.id env.kindle _ _ _ _) (λ a. h _)
    after_download-Keeps (returned result) =
        quietly book.id 0 0 _ _ (Keeps-log book.id env.kindle _ _ _ _) (λ a.
          quietly book.id 0 0 _ _ (Keeps-call book.id _)
            (λ unpacked. after_unpack-Keeps result unpacked))

    after_resolve-Keeps :
        (c : Candidate) (last : Option String) (a : Scraped (Option String))
        → Keeps book.id 0 0 (after_resolve F env cfg book c name last continue a)
    unfolding after_resolve
    after_resolve-Keeps c last not_implemented = h last
    after_resolve-Keeps c last (failed e) =
        quietly book.id 0 0 _ _ (Keeps-log book.id env.kindle _ _ _ _) (λ a. h _)
    after_resolve-Keeps c last (found none) =
        quietly book.id 0 0 _ _ (Keeps-log book.id env.kindle _ _ _ _) (λ a. h _)
    after_resolve-Keeps c last (found (some url)) =
        quietly book.id 0 0 _ _ (Keeps-log book.id env.kindle _ _ _ _)
          (λ a. quietly book.id 0 0 _ _ (Keeps-call book.id _) (λ r. after_download-Keeps r))

  resolve_loop-Keeps :
      (c : Candidate) (names : List String) (last : Option String)
      → Keeps book.id 0 0 (resolve_loop F env cfg book c names last)
  unfolding resolve_loop
  resolve_loop-Keeps c [] last = Keeps-done book.id 0 0 _
  resolve_loop-Keeps c (name ∷ names) last =
      quietly book.id 0 0 _ _ (Keeps-call book.id (λ n. env.resolve_cdn n name c)) (
        after_resolve-Keeps (resolve_loop F env cfg book c names) (resolve_loop-Keeps c names) name
          c last)

  after_dedup-Keeps :
      (c : Candidate) (o : Option Book) → Keeps book.id 0 0 (after_dedup F env cfg book c o)
  unfolding after_dedup
  after_dedup-Keeps c none =
      quietly book.id 0 0 _ _ (Keeps-call book.id env.year)
        (λ year. resolve_loop-Keeps c (book_chain F env cfg year book) none)
  after_dedup-Keeps c (some existing) =
      quietly book.id 0 0 _ _ (Keeps-log book.id env.kindle _ _ _ _) (λ a.
        quietly book.id 0 0 _ _
          (Keeps-update book.id env.kindle 0 0 _ (==_refl book.id) (omega arith))
          (λ b. Keeps-done book.id 0 0 _))

  pub resolve_and_download-Keeps :
      (c : Candidate) → Keeps book.id 0 0 (resolve_and_download F env cfg book c)
  unfolding resolve_and_download
  resolve_and_download-Keeps c =
      quietly book.id 0 0 _ _ (Keeps-get book.id)
        (λ s. after_dedup-Keeps c (duplicate_of F env cfg book c s))

  -- The failure that a program ends with.
  pub Keeps-fail :
      {A : Type 0} (n : ℕ) (e : String) (a : A) → Keeps book.id 1 n (fail_with F env book e a)
  unfolding fail_with
  Keeps-fail n e a =
      Keeps-then book.id 1 0 0 n 1 n _ _ (omega arith) (omega arith)
        (Keeps-update book.id env.kindle 1 0 _ (==_refl book.id) (ground (arith, ==_refl book.id)))
        (λ u. Keeps-done book.id 0 n a)

  pub search_fail_or_skip-Keeps :
      (e : String) → Keeps book.id 1 1 (search_fail_or_skip F env cfg book e)
  unfolding search_fail_or_skip
  search_fail_or_skip-Keeps e =
      Keeps-if book.id 1 1 _ _ _
        (quietly book.id 1 1 _ _
          (Keeps-update book.id env.kindle 0 0 _ (==_refl book.id) (omega arith))
          (λ a.
            quietly book.id 1 1 _ _ (Keeps-log book.id env.kindle _ _ _ _)
              (λ b. Keeps-done book.id 1 1 _)))
        (Keeps-fail 1 e _)
