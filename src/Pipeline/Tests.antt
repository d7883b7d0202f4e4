-- ===== src/Pipeline/Tests.antt =====
-- A run over one queued book, which one scraper finds and which is sent by a session.
use biblichor.Prelude.{◌+◌, ◌≤◌, All}
use biblichor.Pipeline.Search.{Scored, score_and_persist}
use biblichor.Pipeline.Search.Best.{IsFit, IsDescending, score_and_persist_best}
use biblichor.Prelude.{List}
use biblichor.Prelude.{◌≡◌, ◌≢◌, refl, false, none, some, [], ◌∷◌, ◌++◌, length, arith}
use biblichor.Prelude.Result.{ok}
use biblichor.Domain.Tests.{nat_floats}
use biblichor.Db.Books.Row.{Book, get, Books}
use biblichor.Db.Books.Queue.{pending, claim_for_processing, find_downloaded_by_md5}
use biblichor.Db.Books.Ops.{Op, apply}
use biblichor.Kindle.Deliver.{deliver}
use biblichor.Db.Books.Stages.{mark_stage}
use biblichor.Domain.FormatRouter.{decide_format_action}
use biblichor.Prelude.Path.{file_suffix}
use biblichor.Db.Events.{recent_for_book, append}
use biblichor.Pipeline.Run.{
  ask, ◌>>=◌, claim, log, call, get as get_state, update, done, when, notify,
}
use biblichor.Pipeline.Download.{sent, resolve_and_download}
use biblichor.Pipeline.Process.{process_one}
use biblichor.Pipeline.Queue.{Tally, total, process_queue}
use biblichor.Pipeline.Queue.Counts.{process_queue_counts}
use biblichor.Pipeline.Refine.{Refines}
use biblichor.Pipeline.Refine.Process.{process_one-Refines}
use biblichor.Pipeline.Refine.Effect.{process_one_attempts, process_one_spares}
use biblichor.Pipeline.Search.{search_with_strategies, peek_top_score, score_and_persist}
use biblichor.Domain.Script.{is_non_latin}
use biblichor.Domain.AutoPick.{decide_auto_pick}
use biblichor.Pipeline.Deliver.{process_from_downloaded}
use biblichor.Pipeline.Poll.{poll_sources}
use biblichor.Pipeline.Poll.Added.{poll_sources_appends}
use biblichor.Db.Sources.{list_enabled, get as get_account}
use biblichor.Db.Books.Upsert.{upsert, count}
use biblichor.Prelude.Path.{strip_blanks, without}
use biblichor.Pipeline.Settle.{SettledAs}
use biblichor.Pipeline.Settle.Process.{process_one_settles}
use biblichor.Pipeline.Sample.{
  dune, emma, hit, outside, services, config, start, reading_list, subscribed,
}

process_one-Refines_example :
    Refines 1 1 1 start (process_one nat_floats services config false dune start).1
process_one-Refines_example = process_one-Refines nat_floats services config false dune start

dune-found : get 1 start.books ≡ some dune
unfolding get
dune-found = refl

dune_sent : (process_one nat_floats services config false dune start).0 ≡ ok sent
unfolding process_one ◌>>=◌ claim log call ask get_state update done when notify
    claim_for_processing find_downloaded_by_md5 search_with_strategies peek_top_score
    score_and_persist is_non_latin decide_auto_pick resolve_and_download process_from_downloaded
    apply mark_stage decide_format_action file_suffix recent_for_book append deliver
dune_sent = refl

emma-not_dune : emma.id ≢ dune.id
emma-not_dune h = omega (arith, h)

process_one_attempts_example :
    (b' : Book) × (get 1 (process_one nat_floats services config false dune start).1.books
      ≡ some b')
    × (dune.attempts ≤ b'.attempts)
    × (b'.attempts ≤ dune.attempts + 1)
process_one_attempts_example =
    process_one_attempts nat_floats services config false dune start dune dune-found

process_one_spares_example :
    get emma.id (process_one nat_floats services config false dune start).1.books
    ≡ get emma.id start.books
process_one_spares_example =
    process_one_spares nat_floats services config false dune start emma.id emma-not_dune

process_one_settles_example :
    SettledAs 1 sent (process_one nat_floats services config false dune start).1.books
process_one_settles_example =
    process_one_settles nat_floats services config false dune start sent dune_sent

process_queue_counts_example :
    (t : Tally) × ((process_queue nat_floats services config start).0 ≡ ok t)
    × (total t ≡ length (pending 3 (apply 1000 (Op.zombies 30) start.books)))
process_queue_counts_example =
    process_queue_counts nat_floats services config start false
      (λ n. refl, λ n. refl, λ n. refl, λ n t. refl, λ n path. refl) refl

one_added : (poll_sources outside reading_list subscribed).0 ≡ ok 1
unfolding poll_sources ◌>>=◌ get_state list_enabled get_account call done upsert strip_blanks
    without count
one_added = refl

poll_sources_appends_example :
    (new : Books) × ((poll_sources outside reading_list subscribed).1.books
      ≡ subscribed.books ++ new)
    × (length new ≡ 1)
poll_sources_appends_example = poll_sources_appends outside reading_list subscribed 1 one_added

score_and_persist_best_example :
    (xs : List (Scored nat_floats services config)) × ((score_and_persist nat_floats services config
        dune
        (hit ∷ [])
        start).0
      ≡ ok xs)
    × All (IsFit nat_floats services config dune none) xs
    × IsDescending nat_floats services config xs
score_and_persist_best_example =
    score_and_persist_best nat_floats services config dune (hit ∷ []) start
