-- ===== src/Kindle/Errors.antt =====
-- src/endless_library/kindle_stk/exceptions.py, and the translation of the client's exceptions in
-- src/endless_library/kindle_stk/service.py.
use Prim.Native.String.{◌++◌}
use biblichor.Prelude.{
  ℕ, ◌+◌, ◌*◌, ◌-◌, String, Bool, false, ◌&&◌, ◌||◌, Option, none, some, [], ◌∷◌, leb, ◌==◌,
  if◌then◌else◌,
}
use biblichor.Prelude.Decimal.{decimal}
use biblichor.Prelude.Text.{Text, codes, has_prefix, contains}

-- The typed exceptions.
pub data StkError : Type 0 where
  not_configured auth_expired upload_failed batch_overflow : String → StkError
  rate_limited : String → ℕ → StkError

-- `str(e)`
abbrev pub message_of : StkError → String
message_of (not_configured m) = m
message_of (auth_expired m) = m
message_of (upload_failed m) = m
message_of (batch_overflow m) = m
message_of (rate_limited m n) = m

-- The header `Retry-After` of a response, by what `int(…)` makes of it.
pub data RetryAfter : Type 0 where
  absent malformed : RetryAfter
  seconds : ℕ → RetryAfter

-- What the vendored client raises: a `requests.HTTPError` with the status and the header of its
-- response, if it has one; an `APIError` with its text; a `urllib.error.HTTPError`; or any other
-- exception. `text` is `str(exc)`.
pub data ClientError : Type 0 where
  http_error : Option ℕ → RetryAfter → String → ClientError
  api_error : Text → String → ClientError
  urllib_error : Option ℕ → String → ClientError
  other : String → ClientError

-- An f-string's `{status}`
abbrev pub show_status : Option ℕ → String
show_status none = "None"
show_status (some n) = decimal n

-- `status in (401, 403)`
abbrev pub is_rejected : Option ℕ → Bool
is_rejected none = false
is_rejected (some n) = n == 401 || n == 403

abbrev pub is_throttled : Option ℕ → Bool
is_throttled none = false
is_throttled (some n) = n == 429

abbrev pub retry_seconds : RetryAfter → ℕ
retry_seconds absent = 5
retry_seconds malformed = 5
retry_seconds (seconds n) = n

-- `_raise_typed_from_http_error`
unfoldable pub typed_from_http_error : Option ℕ → RetryAfter → String → StkError
typed_from_http_error status retry text =
    if is_rejected status
    then auth_expired (
        "Amazon rejected the device cert (HTTP " ++ (show_status status ++ "). Re-OAuth required."))
    else if is_throttled status
    then rate_limited
        ("Rate-limited by Amazon (Retry-After " ++ (decimal (retry_seconds retry) ++ "s)"))
        (retry_seconds retry)
    else upload_failed ("HTTP " ++ (show_status status ++ (": " ++ text)))

-- `_raise_typed_from_urllib_error`
unfoldable pub typed_from_urllib_error : Option ℕ → String → StkError
typed_from_urllib_error status text =
    if is_rejected status
    then auth_expired (
        "Amazon rejected the device cert (HTTP " ++ (show_status status ++ "). Re-OAuth required."))
    else if is_throttled status
    then rate_limited "Rate-limited by Amazon (HTTP 429)" 5
    else upload_failed ("HTTP " ++ (show_status status ++ (": " ++ text)))

-- The number that the digits at the front of a text spell, if there are any.
abbrev leading_number : Option ℕ → Text → Option ℕ
leading_number found [] = found
leading_number found (c ∷ t) =
    let longer =
      leading_number (some ((elim found [ none ↦ 0 | some n ↦ n ]) * 10 + (c - b'0'))) t in
    if leb b'0' c && leb c b'9' then longer else found

abbrev after_prefix : Text → Text → Text
after_prefix [] t = t
after_prefix (p ∷ ps) [] = []
after_prefix (p ∷ ps) (c ∷ t) = after_prefix ps t

-- `re.search(r"HTTP Error (\d+)", msg)`: the number at the first place that fits.
unfoldable pub http_error_number : Text → Option ℕ
http_error_number [] = none
http_error_number (c ∷ t) =
    let later = http_error_number t in
    if has_prefix (codes "HTTP Error ") (c ∷ t)
    then elim (leading_number none (after_prefix (codes "HTTP Error ") (c ∷ t))) [
      | some n ↦ some n
      | none ↦ later
    ]
    else later

-- `_raise_typed_from_api_error`; `text` is the message as the f-strings print it.
unfoldable pub typed_from_api_error : Text → String → StkError
typed_from_api_error msg text =
    let status = http_error_number msg in
    if is_rejected status || contains (codes "DeviceInfoToken") msg
    then auth_expired
        ("Amazon rejected the device cert (APIError). Re-OAuth required. detail=" ++ text)
    else if is_throttled status
    then rate_limited "Rate-limited by Amazon (APIError 429)" 5
    else upload_failed ("APIError: " ++ text)

-- The `except` clauses of `send_file`.
unfoldable pub typed_error : ClientError → StkError
unfolding typed_from_http_error typed_from_api_error typed_from_urllib_error
typed_error (http_error status retry text) = typed_from_http_error status retry text
typed_error (api_error msg text) = typed_from_api_error msg text
typed_error (urllib_error status text) = typed_from_urllib_error status text
typed_error (other text) = upload_failed ("Unexpected stkclient failure: " ++ text)
