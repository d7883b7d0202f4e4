-- ===== src/Pipeline/Refine.antt =====
-- Programs of the pipeline as sequences of `BookRepo` operations on one book: the relation between
-- the states before and after, and its rules.
pub mod Search
pub mod Download
pub mod Deliver
pub mod Process
pub mod Effect
use biblichor.Prelude.{
  ℕ, ◌+◌, ◌≤◌, ◌≡◌, refl, sym, ap, ◌∙◌, String, Bool, true, false, Option, List, [], ◌∷◌, ◌++◌,
  length, All, All-append, ◌==◌, ==_refl, if◌then◌else◌, arith,
}
use biblichor.Prelude.Result.{Result, ok, err}
use biblichor.Db.Books.Row.{Books}
use biblichor.Db.Books.Ops.{Op, apply, run, counts, failures}
use biblichor.Kindle.Session.{Env}
use biblichor.Pipeline.Run.{
  Answer, returned, raised, crashed, answered, ask, State, Notice, Program, then_run, ◌>>=◌, ◌>>◌,
  done, raise, when, call, get, update, claim, log, notify,
}

-- An operation on book `i` that is no reset and no sweep.
abbrev pub is_own : ℕ → Op → Bool
is_own i (Op.claim j) = j == i
is_own i (Op.increment j) = j == i
is_own i (Op.research j) = false
is_own i (Op.redownload j) = false
is_own i (Op.fail j _) = j == i
is_own i (Op.skip j _) = j == i
is_own i (Op.zombies _) = false
is_own i (Op.dedup j _ _) = j == i
is_own i (Op.status j _ _) = j == i
is_own i (Op.stage j _) = j == i
is_own i (Op.clear j _) = j == i
is_own i (Op.tag j _ _) = j == i
is_own i (Op.kindle j _) = j == i

abbrev pub AllOwn : ℕ → List (ℕ × Op) → Type 0
AllOwn i ops = All (λ o. is_own i o.1 ≡ true) ops

pub run-append : (xs ys : List (ℕ × Op)) (t : Books) → run (xs ++ ys) t ≡ run ys (run xs t)
unfolding run
run-append [] ys t = refl
run-append ((now, op) ∷ xs) ys t = run-append xs ys (apply now op t)

pub failures-append :
    (i : ℕ) (xs ys : List (ℕ × Op)) → failures i (xs ++ ys) ≡ failures i xs + failures i ys
unfolding failures
failures-append i [] ys = omega arith
failures-append i ((now, op) ∷ xs) ys = omega (arith, failures-append i xs ys)

-- The books after are those before under operations on book `i`, which record at most `m`
-- failures, and at most `n` mails are sent.
pub record Refines {S : Type 0} (i m n : ℕ) (s s' : State S) : Type 0 where
  pub ops : List (ℕ × Op)
  pub ran : s'.books ≡ run ops s.books
  pub own : AllOwn i ops
  pub failed : failures i ops ≤ m
  pub mailed : length s'.world.mails ≤ length s.world.mails + n

-- The program is such a sequence from any state.
pub record Keeps {S A : Type 0} (i m n : ℕ) (p : Program S A) : Type 0 where
  pub keep : (s : State S) → Refines i m n s (p s).1

module _ {S : Type 0} (i : ℕ) where
  pub Refines-same :
      (m n : ℕ) (s s' : State S)
      → s'.books ≡ s.books
      → s'.world.mails ≡ s.world.mails
      → Refines i m n s s'
  unfolding run failures
  Refines-same m n s s' b w = record {
    ops = [];
    ran = b;
    own = tt;
    failed = omega arith;
    mailed = omega (arith, ap length w);
  }

  pub Refines-trans :
      (m n m' n' o p : ℕ) (a b c : State S)
      → m + m' ≤ o
      → n + n' ≤ p
      → Refines i m n a b
      → Refines i m' n' b c
      → Refines i o p a c
  Refines-trans m n m' n' o p a b c x y f g = record {
    ops = f.ops ++ g.ops;
    ran = g.ran ∙ ap (run g.ops) f.ran ∙ sym (run-append f.ops g.ops a.books);
    own = All-append (λ o. is_own i o.1 ≡ true) f.ops g.ops f.own g.own;
    failed = omega (arith, failures-append i f.ops g.ops, f.failed, g.failed, x);
    mailed = omega (arith, f.mailed, g.mailed, y);
  }

  then_run-Refines :
      {A B : Type 0} (m n m' n' o p : ℕ) (s : State S) (f : A → Program S B)
      (x : Result String A × State S)
      → m + m' ≤ o
      → n + n' ≤ p
      → Refines i m n s x.1
      → ((a : A) → Keeps i m' n' (f a))
      → Refines i o p s (then_run f x).1
  then_run-Refines m n m' n' o p s f (ok a, s') x y h k =
      Refines-trans m n m' n' o p s s' (f a s').1 x y h ((k a).keep s')
  then_run-Refines m n m' n' o p s f (err e, s') x y h k =
      Refines-trans m n 0 0 o p s s' s' (omega arith) (omega arith) h
        (Refines-same 0 0 s' s' refl refl)

  -- One program and then another.
  pub Keeps-then :
      {A B : Type 0} (m n m' n' o p : ℕ) (x : Program S A) (f : A → Program S B)
      → m + m' ≤ o
      → n + n' ≤ p
      → Keeps i m n x
      → ((a : A) → Keeps i m' n' (f a))
      → Keeps i o p (x >>= f)
  unfolding ◌>>=◌
  Keeps-then m n m' n' o p x f l l' h k = record {
    keep = λ s. then_run-Refines m n m' n' o p s f (x s) l l' (h.keep s) k;
  }

  -- A first program that records nothing and mails nothing.
  pub quietly :
      {A B : Type 0} (m n : ℕ) (x : Program S A) (f : A → Program S B)
      → Keeps i 0 0 x
      → ((a : A) → Keeps i m n (f a))
      → Keeps i m n (x >>= f)
  quietly m n x f h k = Keeps-then 0 0 m n m n x f (omega arith) (omega arith) h k

  pub Keeps-done : {A : Type 0} (m n : ℕ) (a : A) → Keeps i m n (done {S = S} a)
  unfolding done
  Keeps-done m n a = record { keep = λ s. Refines-same m n s s refl refl }

  pub Keeps-raise : (A : Type 0) (m n : ℕ) (e : String) → Keeps i m n (raise {S = S} {A = A} e)
  unfolding raise
  Keeps-raise A m n e = record { keep = λ s. Refines-same m n s s refl refl }

  pub Keeps-call : {A : Type 0} (f : ℕ → A) → Keeps i 0 0 (call {S = S} f)
  unfolding call
  Keeps-call f = record { keep = λ s. Refines-same 0 0 s _ refl refl }

  answered-Keeps : {A : Type 0} (a : Answer A) → Keeps i 0 0 (answered {S = S} a)
  answered-Keeps (returned a) = record { keep = λ s. Refines-same 0 0 s s refl refl }
  answered-Keeps (raised e) = record { keep = λ s. Refines-same 0 0 s s refl refl }
  answered-Keeps (crashed e) = record { keep = λ s. Refines-same 0 0 s s refl refl }

  pub Keeps-ask : {A : Type 0} (f : ℕ → Answer A) → Keeps i 0 0 (ask {S = S} f)
  unfolding ask
  Keeps-ask f = quietly 0 0 _ _ (Keeps-call f) answered-Keeps

  pub Keeps-get : Keeps i 0 0 (get {S = S})
  unfolding get
  Keeps-get = record { keep = λ s. Refines-same 0 0 s s refl refl }

  pub Keeps-log :
      (env : Env) (b : Option ℕ) (kind : String) (scraper : Option String) (m : String)
      → Keeps i 0 0 (log {S = S} env b kind scraper m)
  unfolding log
  Keeps-log env b kind scraper m = record { keep = λ s. Refines-same 0 0 s _ refl refl }

  pub Keeps-notify : (x : Notice) → Keeps i 0 0 (notify {S = S} x)
  unfolding notify
  Keeps-notify x = record { keep = λ s. Refines-same 0 0 s _ refl refl }

  pub Keeps-when : (b : Bool) (x : Program S (Unit {0})) → Keeps i 0 0 x → Keeps i 0 0 (when b x)
  unfolding when
  Keeps-when true x h = h
  Keeps-when false x h = Keeps-done 0 0 tt

  pub Keeps-if :
      {A : Type 0} (m n : ℕ) (b : Bool) (x y : Program S A)
      → Keeps i m n x
      → Keeps i m n y
      → Keeps i m n (if b then x else y)
  Keeps-if m n true x y h k = h
  Keeps-if m n false x y h k = k

  -- An operation on the book.
  pub Keeps-update :
      (env : Env) (m n : ℕ) (op : Op)
      → is_own i op ≡ true
      → (if counts i op then 1 else 0) ≤ m
      → Keeps i m n (update {S = S} env op)
  unfolding update run failures
  Keeps-update env m n op own c = record {
    keep = λ s. record {
      ops = (env.now s.world.reads, op) ∷ [];
      ran = refl;
      own = (own, tt);
      failed = omega (arith, c);
      mailed = omega arith;
    };
  }

  pub Keeps-claim : (env : Env) → Keeps i 0 0 (claim {S = S} env i)
  unfolding claim run failures apply
  Keeps-claim env = record {
    keep = λ s. record {
      ops = (env.now s.world.reads, Op.claim i) ∷ [];
      ran = refl;
      own = (==_refl i, tt);
      failed = omega arith;
      mailed = omega arith;
    };
  }
