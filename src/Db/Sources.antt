-- ===== src/Db/Sources.antt =====
-- src/endless_library/db/sources.py: the accounts that are polled, and the methods of
-- `SourceAccountRepo`.
use biblichor.Prelude.{
  ℕ, String, Bool, true, Option, none, some, List, [], ◌∷◌, ◌++◌, ◌==◌, select, find?, any, ◌&&◌,
  str_eq, if◌then◌else◌,
}
use biblichor.Prelude.Sql.{update_where, delete_where, order_by, next_rowid}

-- A row.
pub record SourceAccount : Type 0 where
  pub id : ℕ
  pub source : String
  pub identifier : String
  pub token : Option String
  pub enabled : Bool
  pub poll_interval_minutes : ℕ
  pub last_polled_at : Option ℕ

abbrev pub SourceAccounts : Type 0
SourceAccounts = List SourceAccount

abbrev pub has_id : ℕ → SourceAccount → Bool
has_id i a = a.id == i

abbrev pub same_account : String → String → SourceAccount → Bool
same_account source identifier a = str_eq a.source source && str_eq a.identifier identifier

-- `add`; a new account is enabled by the schema's default, and `none` is the exception of
-- UNIQUE(source, identifier).
unfoldable pub add :
    String → String → Option String → ℕ → SourceAccounts → Option (ℕ × SourceAccounts)
add source identifier token minutes t =
    let i = next_rowid (λ (a : SourceAccount). a.id) t in
    if any (same_account source identifier) t
    then none
    else some (
      i,
      t
          ++ record {
            id = i;
            source = source;
            identifier = identifier;
            token = token;
            enabled = true;
            poll_interval_minutes = minutes;
            last_polled_at = none;
          }
            ∷ [],
    )

-- `get`
unfoldable pub get : ℕ → SourceAccounts → Option SourceAccount
get i t = find? (has_id i) t

-- `list_all`
unfoldable pub list_all : SourceAccounts → List SourceAccount
list_all t = order_by (λ a. a.id) t

-- `list_enabled`
unfoldable pub list_enabled : SourceAccounts → List SourceAccount
unfolding list_all
list_enabled t = select (λ a. a.enabled) (list_all t)

-- `set_enabled`
unfoldable pub set_enabled : ℕ → Bool → SourceAccounts → SourceAccounts
set_enabled i on t = update_where (has_id i) (λ a. record a { enabled = on }) t

-- `set_interval`
unfoldable pub set_interval : ℕ → ℕ → SourceAccounts → SourceAccounts
set_interval i minutes t =
    update_where (has_id i) (λ a. record a { poll_interval_minutes = minutes }) t

-- `mark_polled`
unfoldable pub mark_polled : ℕ → ℕ → SourceAccounts → SourceAccounts
mark_polled now i t = update_where (has_id i) (λ a. record a { last_polled_at = some now }) t

-- `delete`
unfoldable pub delete : ℕ → SourceAccounts → SourceAccounts
delete i t = delete_where (has_id i) t
