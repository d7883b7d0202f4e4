-- ===== src/Pipeline/Hoare.antt =====
-- Programs of the pipeline and assertions about the table of books.
use biblichor.Prelude.{ℕ, ◌≡◌, refl, String, Bool, true, false, Option, if◌then◌else◌}
use biblichor.Prelude.Result.{Result, ok, err}
use biblichor.Db.Books.Row.{Books}
use biblichor.Kindle.Session.{Env}
use biblichor.Pipeline.Run.{
  State, Notice, Program, then_run, ◌>>=◌, done, raise, when, call, get, log, notify,
}

abbrev pub Post : {S A : Type 0} → (A → Books → Type 0) → Result String A × State S → Type 0
Post Q (ok a, s) = Q a s.books
Post Q (err e, s) = Unit

-- From a table with `P` the program either raises or ends with `Q`.
pub record Hoare {S A : Type 0} (P : Books → Type 0) (p : Program S A) (Q : A → Books → Type 0)
    : Type 0 where
  pub at : (s : State S) → P s.books → Post Q (p s)

abbrev pub Always : Books → Type 0
Always t = Unit {0}

module _ {S : Type 0} where
  then_run-Post :
      {A B : Type 0} (P : A → Books → Type 0) (Q : B → Books → Type 0) (f : A → Program S B)
      (x : Result String A × State S)
      → Post P x
      → ((a : A) → Hoare (P a) (f a) Q)
      → Post Q (then_run f x)
  then_run-Post P Q f (ok a, s) h k = (k a).at s h
  then_run-Post P Q f (err e, s) h k = tt

  pub Post-weaken :
      {A : Type 0} (P Q : A → Books → Type 0) (x : Result String A × State S)
      → ((a : A) (t : Books) → P a t → Q a t)
      → Post P x
      → Post Q x
  Post-weaken P Q (ok a, s) h o = h a s.books o
  Post-weaken P Q (err e, s) h o = tt

  pub Hoare-then :
      {A B : Type 0} (O : Books → Type 0) (P : A → Books → Type 0) (Q : B → Books → Type 0)
      (p : Program S A) (f : A → Program S B)
      → Hoare O p P
      → ((a : A) → Hoare (P a) (f a) Q)
      → Hoare O (p >>= f) Q
  unfolding ◌>>=◌
  Hoare-then O P Q p f h k = record { at = λ s o. then_run-Post P Q f (p s) (h.at s o) k }

  pub always-Post : {A : Type 0} (x : Result String A × State S) → Post (λ a t. Unit {0}) x
  always-Post (ok a, s) = tt
  always-Post (err e, s) = tt

  pub Hoare-done :
      {A : Type 0} (P : Books → Type 0) (Q : A → Books → Type 0) (a : A)
      → ((t : Books) → P t → Q a t)
      → Hoare P (done {S = S} a) Q
  unfolding done
  Hoare-done P Q a h = record { at = λ s o. h s.books o }

  pub Hoare-log :
      (P : Books → Type 0) (env : Env) (b : Option ℕ) (kind : String) (scraper : Option String)
      (m : String)
      → Hoare P (log {S = S} env b kind scraper m) (λ u. P)
  unfolding log
  Hoare-log P env b kind scraper m = record { at = λ s o. o }

  pub Hoare-notify : (P : Books → Type 0) (n : Notice) → Hoare P (notify {S = S} n) (λ u. P)
  unfolding notify
  Hoare-notify P n = record { at = λ s o. o }

  pub Hoare-when :
      (P : Books → Type 0) (b : Bool) (p : Program S (Unit {0}))
      → Hoare P p (λ u. P)
      → Hoare P (when b p) (λ u. P)
  unfolding when done
  Hoare-when P true p h = h
  Hoare-when P false p h = record { at = λ s o. o }

  pub Hoare-call : {A : Type 0} (P : Books → Type 0) (f : ℕ → A) → Hoare P (call {S = S} f) (λ a. P)
  unfolding call
  Hoare-call P f = record { at = λ s o. o }

  -- The state that is read is the one at that point.
  pub Hoare-get : (P : Books → Type 0) → Hoare P (get {S = S}) (λ s t. P t × (s.books ≡ t))
  unfolding get
  Hoare-get P = record { at = λ s o. (o, refl) }

  pub Hoare-if :
      {A : Type 0} (P : Books → Type 0) (Q : A → Books → Type 0) (b : Bool) (x y : Program S A)
      → Hoare P x Q
      → Hoare P y Q
      → Hoare P (if b then x else y) Q
  Hoare-if P Q true x y h k = h
  Hoare-if P Q false x y h k = k

  pub Hoare-raise :
      {A : Type 0} (P : Books → Type 0) (Q : A → Books → Type 0) (e : String)
      → Hoare P (raise {S = S} {A = A} e) Q
  unfolding raise
  Hoare-raise P Q e = record { at = λ s o. tt }
