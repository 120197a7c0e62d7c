-- ===== src/Base/Invariants.antt =====
-- Predicates on the state that an action keeps, whether it returns or throws.
use mathlib.Core.Bool.{Bool, true, false}
use agentdesk_nestjs.Base.Tests.{if◌then◌else◌}
use agentdesk_nestjs.Base.Actions.{
  Action, Result, Exception, ok, raise, proceed, handle, ◌>>=◌, try_catch,
}

module _ {S : Type 0} (I : S → Type 0) where
  abbrev pub Keeps : {A : Type 0} → Action S A → Type 0
  Keeps m = (s : S) → I s → I (m s).1

  pub Keeps-bind :
      {A B : Type 0} (m : Action S A) (k : A → Action S B)
      → Keeps m
      → ((a : A) → Keeps (k a))
      → Keeps (m >>= k)
  Keeps-bind {A} {B} m k first later s h = go (m s).0 (m s).1 (first s h)
    where
      go : (r : Result A) (t : S) → I t → I (proceed r t k).1
      go (ok a) t i = later a t i
      go (raise e) t i = i

  pub Keeps-try_catch :
      {A : Type 0} (m : Action S A) (k : Exception → Action S A)
      → Keeps m
      → ((e : Exception) → Keeps (k e))
      → Keeps (try_catch m k)
  Keeps-try_catch {A} m k first later s h = go (m s).0 (m s).1 (first s h)
    where
      go : (r : Result A) (t : S) → I t → I (handle r t k).1
      go (ok a) t i = i
      go (raise e) t i = later e t i

  pub Keeps-if :
      {A : Type 0} (b : Bool) (m k : Action S A) → Keeps m → Keeps k → Keeps (if b then m else k)
  Keeps-if true m k first other = first
  Keeps-if false m k first other = other
