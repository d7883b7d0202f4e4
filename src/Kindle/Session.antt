-- ===== src/Kindle/Session.antt =====
-- `KindleStkService.send_file` and `send_files` of src/endless_library/kindle_stk/service.py, with
-- what they and their callers touch: the event log, the calls of the vendored client, the mails
-- and the pauses.

use Prim.Native.String.{◌++◌}
use biblichor.Prelude.{
  ℕ, ◌+◌, ◌/◌, String, Bool, true, false, Option, none, some, List, [], ◌∷◌, ◌++◌ as ◌++ˡ◌, length,
  ltb, if◌then◌else◌,
}
use biblichor.Prelude.Decimal.{decimal}
use biblichor.Prelude.Text.{Text, path_name}
use biblichor.Prelude.Result.{Result, ok, err}
use biblichor.Db.Events.{Events}
use biblichor.Kindle.Errors.{
  StkError, not_configured, batch_overflow, upload_failed, ClientError, other, typed_error,
}

-- `FileEntry`; `size` is `path.stat().st_size`.
pub record FileEntry : Type 0 where
  pub path : Text
  pub title : Text
  pub author : Text
  pub format : String
  pub size : ℕ

-- A call of `send_to_kindle`.
pub record Mail : Type 0 where
  pub attachment : Text
  pub title : Text
  pub author : Text

-- A call of `time.sleep`: the interval before a call or a batch, the one between the files of a
-- batch, the seconds that Amazon asked for, and the initial backoff after `k` multiplications by
-- the factor.
pub data Pause : Type 0 where
  between_sends between_files : Pause
  retry_after backoff : ℕ → Pause

-- `reads` counts the readings of the clocks.
pub record World : Type 0 where
  pub events : Events
  pub uploads : List FileEntry
  pub mails : List Mail
  pub pauses : List Pause
  pub reads : ℕ

-- What lies outside: whether the certificate and the token are stored, what reading them from the
-- secrets, counting the events of the last day, inserting an event or asking once more for the size
-- of a file raises at the n-th reading, what building the client raises, what the client answers to
-- its n-th call (a sku, or an exception), what `send_to_kindle` raises at its n-th call, the wall
-- clock in seconds and the milliseconds since the start of the operation at the n-th reading, and
-- how the number of sent mails reads. The printed forms of a path and of its name in quotes are
-- Python's.
pub record Env : Type 0 where
  pub is_configured : Bool
  pub secrets_failure : ℕ → Option String
  pub quota_failure : ℕ → Option String
  pub insert_failure : ℕ → Option String
  pub lost : ℕ → Text → Option String
  pub build_failure : Option String
  pub client : ℕ → Result ClientError String
  pub smtp : ℕ → Option String
  pub now : ℕ → ℕ
  pub elapsed_ms : ℕ → ℕ
  pub smtp_log_readable : Bool
  pub repr : Text → String

-- What a call raises: a typed exception, or another one with its text.
pub data Raised : Type 0 where
  typed : StkError → Raised
  untyped : String → Raised

-- An exception of a call at the start of a function, before the rest.
abbrev pub unless_raised :
    {E A : Type 0} → (String → E) → Option String → World → Result E A × World → Result E A × World
unless_raised error none w rest = rest
unless_raised error (some e) w rest = (err (error e), w)

pub unless_raised-both :
    {E A : Type 0} (P : Result E A × World → Type 0) (error : String → E) (o : Option String)
    (w : World) (rest : Result E A × World)
    → P rest
    → ((e : String) → P (err (error e), w))
    → P (unless_raised error o w rest)
unless_raised-both P error none w rest h k = h
unless_raised-both P error (some e) w rest h k = k e

abbrev pub pause : Pause → World → World
pause p w = record w { pauses = w.pauses ++ˡ p ∷ [] }

abbrev pub upload : FileEntry → World → World
upload fe w = record w { uploads = w.uploads ++ˡ fe ∷ [] }

-- `_require_configured`
abbrev pub require_configured : Env → Option StkError
require_configured env =
    if env.is_configured
    then none
    else some (not_configured "No device certificate stored. Complete OAuth setup first.")

-- `_require_configured` and `_build_client`
abbrev pub build_client : Env → Option Raised
build_client env = elim (require_configured env) [
  | some e ↦ some (typed e)
  | none ↦ elim env.build_failure [ some m ↦ some (untyped m) | none ↦ none ]
]

-- `send_file`
unfoldable pub send_file : Env → FileEntry → World → Result Raised String × World
send_file env fe w = elim (build_client env) [
  | some e ↦ (err e, w)
  | none ↦ elim (env.client (length w.uploads)) [
    | ok sku ↦ (ok sku, upload fe w)
    | err e ↦ (err (typed (typed_error e)), upload fe w)
  ]
]

abbrev total_size : List FileEntry → ℕ
total_size [] = 0
total_size (fe ∷ fes) = fe.size + total_size fes

-- The loop of the pre-flight checks, then the check of the total.
unfoldable pub preflight_loop : Env → ℕ → ℕ → ℕ → List FileEntry → Option StkError
preflight_loop env max_batch_bytes count total [] =
    if ltb max_batch_bytes total
    then some (
        batch_overflow (
          "Batch total "
          ++ (decimal (total / 1048576)
              ++ (" MB exceeds 200 MB STK limit ("
                  ++ (decimal count ++ " files); caller should split into smaller chunks")))))
    else none
preflight_loop env max_batch_bytes count total (fe ∷ fes) =
    if ltb max_batch_bytes fe.size
    then some (
        batch_overflow (
          "File "
          ++ (env.repr (path_name fe.path)
              ++ (" (" ++ (decimal (fe.size / 1048576) ++ " MB) exceeds 200 MB STK hard limit")))))
    else preflight_loop env max_batch_bytes count (total + fe.size) fes

unfoldable pub preflight : Env → ℕ → List FileEntry → Option StkError
unfolding preflight_loop
preflight env max_batch_bytes fes = preflight_loop env max_batch_bytes (length fes) 0 fes

-- The `except` clauses of `send_files`, whose last message names the file.
abbrev pub typed_error_of : Env → FileEntry → ClientError → StkError
typed_error_of env fe (other text) =
    upload_failed
      ("Unexpected stkclient failure on " ++ (env.repr (path_name fe.path) ++ (": " ++ text)))
typed_error_of env fe (ClientError.http_error s r t) = typed_error (ClientError.http_error s r t)
typed_error_of env fe (ClientError.api_error m t) = typed_error (ClientError.api_error m t)
typed_error_of env fe (ClientError.urllib_error s t) = typed_error (ClientError.urllib_error s t)

-- The pause before every file but the first: `i > 0 and self._per_file_interval_sec > 0`.
abbrev pub file_pause : Bool → Bool → World → World
file_pause is_first per_file_interval w =
    if is_first then w else if per_file_interval then pause between_files w else w

-- A round of the loop whose call answered, with the rest of the loop.
unfoldable pub after_call :
    Env
    → FileEntry
    → World
    → Result Raised (List (String × Text)) × World
    → Result ClientError String
    → Result Raised (List (String × Text)) × World
after_call env fe w rest (err e) = (err (typed (typed_error_of env fe e)), w)
after_call env fe w (ok sent, w') (ok sku) = (ok ((sku, fe.path) ∷ sent), w')
after_call env fe w (err e, w') (ok sku) = (err e, w')

-- The loop over the files of one session: the sku and the path of each, or the first exception.
unfoldable pub session_loop :
    Env → Bool → Bool → List FileEntry → World → Result Raised (List (String × Text)) × World
unfolding after_call
session_loop env is_first per_file_interval [] w = (ok [], w)
session_loop env is_first per_file_interval (fe ∷ fes) w =
    let w' = file_pause is_first per_file_interval w in
    after_call env fe (upload fe w') (session_loop env false per_file_interval fes (upload fe w'))
      (env.client (length w'.uploads))

-- What follows the pre-flight checks and the building of the client.
unfoldable pub in_session :
    Env
    → Bool
    → List FileEntry
    → World
    → Option Raised
    → Result Raised (List (String × Text)) × World
unfolding session_loop
in_session env per_file_interval fes w none = session_loop env true per_file_interval fes w
in_session env per_file_interval fes w (some e) = (err e, w)

-- The exceptions before a call of the client, in the order of the source.
abbrev pub first_raised : Option StkError → Option Raised → Option Raised
first_raised none later = later
first_raised (some e) later = some (typed e)

-- `send_files`
unfoldable pub send_files :
    Env → Bool → ℕ → List FileEntry → World → Result Raised (List (String × Text)) × World
unfolding preflight in_session
send_files env per_file_interval max_batch_bytes fes w = in_session env per_file_interval fes w (
    first_raised (require_configured env)
      (first_raised (preflight env max_batch_bytes fes) (build_client env)))
