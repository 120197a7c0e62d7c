-- ===== src/Base/Actions.antt =====
-- A method of the source: a step on a state that returns a value or throws. What was written
-- before a throw stays written. An awaited call is a call.
use mathlib.Core.Path.{◌≡◌, refl, ap}
use agentdesk_nestjs.Base.Units.{Text}
use Prim.Native.String.{String}

-- The exceptions that the program throws or passes on. `failure` is a plain `Error`; `prisma` is
-- an error of the database client with its code.
pub data Exception : Type 0 where
  bad_request unauthorized not_found conflict failure : Text → Exception
  prisma : String → Text → Exception

pub data Result (A : Type 0) : Type 0 where
  ok : A → Result A
  raise : Exception → Result A

abbrev pub Action : Type 0 → Type 0 → Type 0
Action S A = S → Result A × S

module _ {S A : Type 0} where
  abbrev pub pure : A → Action S A
  pure a s = (ok a, s)

  abbrev pub throw : Exception → Action S A
  throw e s = (raise e, s)

-- Goes on with a result and a state.
abbrev pub proceed : {S A B : Type 0} → Result A → S → (A → Action S B) → Result B × S
proceed (ok a) s k = k a s
proceed (raise e) s k = (raise e, s)

infixl 5 ◌>>=◌ ◌>>◌
abbrev pub ◌>>=◌ : {S A B : Type 0} → Action S A → (A → Action S B) → Action S B
◌>>=◌ m k s = proceed (m s).0 (m s).1 k

abbrev pub ◌>>◌ : {S A B : Type 0} → Action S A → Action S B → Action S B
m >> k = m >>= λ _. k

-- `try { … } catch (err) { … }`
abbrev pub handle : {S A : Type 0} → Result A → S → (Exception → Action S A) → Result A × S
handle (ok a) s k = (ok a, s)
handle (raise e) s k = k e s

abbrev pub try_catch : {S A : Type 0} → Action S A → (Exception → Action S A) → Action S A
try_catch m k s = handle (m s).0 (m s).1 k

-- `err.message`
abbrev pub message_of : Exception → Text
message_of (bad_request m) = m
message_of (unauthorized m) = m
message_of (not_found m) = m
message_of (conflict m) = m
message_of (failure m) = m
message_of (prisma code m) = m

-- Results alone, with no state.
abbrev pub and_then : {A B : Type 0} → Result A → (A → Result B) → Result B
and_then (ok a) k = k a
and_then (raise e) k = raise e

-- `and_then` succeeds exactly through both of its parts.
pub and_then-eq-ok :
    {A B : Type 0} (r : Result A) (k : A → Result B) {b : B}
    → and_then r k ≡ ok b
    → (a : A) × (r ≡ ok a) × (k a ≡ ok b)
and_then-eq-ok (ok a) k h = (a, refl, h)
and_then-eq-ok (raise e) k h = cc

-- Equal parts make equal steps.
pub bind_cong :
    {S A B : Type 0} {m m' : Action S A} {k k' : A → Action S B}
    → m ≡ m'
    → ((a : A) → k a ≡ k' a)
    → (m >>= k) ≡ (m' >>= k')
bind_cong first later = λ i s. proceed (first i s).0 (first i s).1 (λ a. later a i)

pub later_cong :
    {S A B : Type 0} (m : Action S A) {k k' : A → Action S B}
    → ((a : A) → k a ≡ k' a)
    → (m >>= k) ≡ (m >>= k')
later_cong m later = λ i s. proceed (m s).0 (m s).1 (λ a. later a i)

pub try_catch_cong :
    {S A : Type 0} (m : Action S A) {k k' : Exception → Action S A}
    → ((e : Exception) → k e ≡ k' e)
    → try_catch m k ≡ try_catch m k'
try_catch_cong m later = λ i s. handle (m s).0 (m s).1 (λ e. later e i)

-- A result as a step that leaves the state alone.
abbrev pub lift : {S A : Type 0} → Result A → Action S A
lift r s = (r, s)

-- What follows a result need agree only on a value that the result has.
pub lift_cong :
    {S A B : Type 0} (r : Result A) {k k' : A → Action S B}
    → ((a : A) → r ≡ ok a → k a ≡ k' a)
    → (lift r >>= k) ≡ (lift r >>= k')
lift_cong (ok a) later = later a refl
lift_cong (raise e) later = refl

-- A step that succeeds does so through both of its parts.
pub >>=-eq-ok :
    {S A B : Type 0} (m : Action S A) (k : A → Action S B) (s : S) {b : B} {t : S}
    → (m >>= k) s ≡ (ok b, t)
    → (a : A) × (u : S) × (m s ≡ (ok a, u)) × (k a u ≡ (ok b, t))
>>=-eq-ok {S} {A} {B} m k s {b} {t} h = go (m s).0 (m s).1 refl h
  where
    go :
        (r : Result A) (u : S)
        → m s ≡ (r, u)
        → proceed r u k ≡ (ok b, t)
        → (a : A) × (v : S) × (m s ≡ (ok a, v)) × (k a v ≡ (ok b, t))
    go (ok a) u e p = (a, u, e, p)
    go (raise x) u e p = cc

pub ok-injective :
    {S A : Type 0} {a b : A} {s t : S} → ◌≡◌ {A = Result A × S} (ok a, s) (ok b, t) → a ≡ b
ok-injective {S} {A} h = let e : ok _ ≡ ok _ = ap (λ (x : Result A × S). x.0) h in cc e

pub state_eq :
    {S A : Type 0} {a b : Result A} {s t : S} → ◌≡◌ {A = Result A × S} (a, s) (b, t) → s ≡ t
state_eq {S} {A} h = ap (λ (x : Result A × S). x.1) h

-- A throw ends the whole step.
pub bind_raise :
    {S A B : Type 0} (m : Action S A) (k : A → Action S B) (s : S) {e : Exception} {t : S}
    → m s ≡ (raise e, t)
    → (m >>= k) s ≡ (raise e, t)
bind_raise {S} {A} m k s h = ap (λ (x : Result A × S). proceed x.0 x.1 k) h
