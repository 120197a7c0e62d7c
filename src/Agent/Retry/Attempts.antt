-- ===== src/Agent/Retry/Attempts.antt =====
-- The attempts of `callLlmWithRetry`, against their plain description.
use mathlib.Core.Path.{subst}
use agentdesk_nestjs.Base.{
  ℕ, zero, suc, ◌+◌, ◌-◌, ◌*◌, ◌^◌, ◌≤◌, ◌≡◌, refl, sym, ap, ◌∙◌, List, [], ◌∷◌, ◌++◌, append-nil,
  append_assoc, Option, none, some, or_else, Text, ltb, Exception, Result, ok, raise, handle, ◌>>◌,
  arith, true, false,
}
use agentdesk_nestjs.Llm.{LlmRequest, LlmResponse, ChatMessage, ToolDefinition}
use agentdesk_nestjs.Agent.{World, AgentService}
use agentdesk_nestjs.Agent.Retry.{
  retry, call_llm_with_retry, request_for, backoff_ms, no_attempts, back_off,
}

-- The waits between `n` attempts, the first of them after attempt number `k`.
abbrev waits_from : ℕ → ℕ → List ℕ
waits_from k zero = []
waits_from k (suc zero) = []
waits_from k (suc (suc n)) = backoff_ms k ∷ waits_from (suc k) (suc n)

-- The waits between `n` attempts, told without the code: the first is `ms`, each is twice the last.
abbrev pub doubled_from : ℕ → ℕ → List ℕ
doubled_from ms zero = []
doubled_from ms (suc zero) = []
doubled_from ms (suc (suc n)) = ms ∷ doubled_from (2 * ms) (suc n)

pred_suc : (k : ℕ) → suc k - 1 ≡ k
pred_suc k = omega arith

waits_from-doubled_from : (n k : ℕ) → waits_from (suc k) n ≡ doubled_from (500 * 2 ^ k) n
waits_from-doubled_from zero k = refl
waits_from-doubled_from (suc zero) k = refl
waits_from-doubled_from (suc (suc n)) k =
    let next : 500 * 2 ^ suc k ≡ 2 * (500 * 2 ^ k) = omega arith in
    let first : backoff_ms (suc k) ≡ 500 * 2 ^ k = ap (λ (j : ℕ). 500 * 2 ^ j) (pred_suc k) in
    let ih = waits_from-doubled_from (suc n) (suc k) in rw (first, ih, next) refl

module _ {Schema S P : Type 0} (service : AgentService Schema S P)
    (request : LlmRequest Schema) where
  abbrev after_attempt :
      Result LlmResponse → P → (Exception → Result LlmResponse × P × ℕ) → Result LlmResponse × P × ℕ
  after_attempt (ok response) p next = (ok response, p, 1)
  after_attempt (raise e) p next = ((next e).0, (next e).1, suc (next e).2)

  -- The result of asking the provider at most `n` times: the first response, or else the last
  -- error; with the state of the provider, and the number of attempts made.
  unfoldable pub attempts : ℕ → Option Exception → P → Result LlmResponse × P × ℕ
  attempts zero last_error p = (raise (or_else last_error no_attempts), p, 0)
  attempts (suc n) last_error p =
      let (r, p') = service.llm request p in after_attempt r p' (λ e. attempts n (some e) p')

  -- The world after `made` attempts, numbered from `attempt`, that left the provider at `p`.
  abbrev attempted : ℕ → World S P → Result LlmResponse × P × ℕ → Result LlmResponse × World S P
  attempted attempt w (r, p, made) =
      (r, record w { provider = p; delays = w.delays ++ waits_from attempt made })

  attempts-pos :
      (n : ℕ) (last_error : Option Exception) (p : P)
      → (m : ℕ) × ((attempts (suc n) last_error p).2 ≡ suc m)
  unfolding attempts
  attempts-pos n last_error p =
      go (service.llm request p).0 (λ e. attempts n (some e) (service.llm request p).1)
    where
      go :
          (r : Result LlmResponse) (next : Exception → Result LlmResponse × P × ℕ)
          → (m : ℕ) × ((after_attempt r (service.llm request p).1 next).2 ≡ suc m)
      go (ok x) next = (0, refl)
      go (raise e) next = ((next e).2, refl)

  waits_from-attempts :
      (n k : ℕ) (last_error : Option Exception) (p : P)
      → waits_from k (suc (attempts (suc n) last_error p).2)
        ≡ backoff_ms k ∷ waits_from (suc k) (attempts (suc n) last_error p).2
  waits_from-attempts n k last_error p = let (m, e) = attempts-pos n last_error p in rw e

  pub attempts-le :
      (n : ℕ) (last_error : Option Exception) (p : P) → (attempts n last_error p).2 ≤ n
  unfolding attempts
  attempts-le zero last_error p = omega arith
  attempts-le (suc n) last_error p =
      go (service.llm request p).0 _ (λ e. attempts-le n (some e) (service.llm request p).1)
    where
      go :
          (r : Result LlmResponse) (next : Exception → Result LlmResponse × P × ℕ)
          → ((e : Exception) → (next e).2 ≤ n)
          → (after_attempt r (service.llm request p).1 next).2 ≤ suc n
      go (ok x) next h = omega arith
      go (raise e) next h = omega (arith, h e)

  abbrev FollowsFrom : ℕ → ℕ → Exception → Type 0
  FollowsFrom left attempt e =
      (w : World S P)
      → retry service request left attempt (some e) w
        ≡ attempted attempt w (attempts left (some e) w.provider)

  -- After a failed attempt: a wait unless it was the last one, and the attempts that are left.
  failed-attempted :
      (left attempt : ℕ) (e : Exception) (p : P) (w : World S P)
      → suc left + attempt ≡ suc service.max_retries
      → FollowsFrom left (suc attempt) e
      → (back_off service attempt >> retry service request left (suc attempt) (some e))
          (record w { provider = p })
        ≡ attempted attempt w (after_attempt (raise e) p (λ x. attempts left (some x) p))
  unfolding attempts
  failed-attempted zero attempt e p w h ih =
      let last : ltb attempt service.max_retries ≡ false = ground arith in
      rw last (ih (record w { provider = p }))
  failed-attempted (suc left) attempt e p w h ih =
      let more : ltb attempt service.max_retries ≡ true = ground arith in
      let (r, p', made) = attempts (suc left) (some e) p in
      rw (more, waits_from-attempts left attempt (some e) p)
        (ih (record w { provider = p; delays = w.delays ++ backoff_ms attempt ∷ [] })
          ∙ ap (λ (ds : List ℕ). (r, record w { provider = p'; delays = ds }))
              (append_assoc w.delays (backoff_ms attempt ∷ []) (waits_from (suc attempt) made)))

  retry-attempts :
      (left attempt : ℕ) (last_error : Option Exception) (w : World S P)
      → left + attempt ≡ suc service.max_retries
      → retry service request left attempt last_error w
        ≡ attempted attempt w (attempts left last_error w.provider)
  unfolding retry attempts
  retry-attempts zero attempt last_error w h =
      ap (λ (ds : List ℕ). (raise (or_else last_error no_attempts), record w { delays = ds }))
        (sym (append-nil w.delays))
  retry-attempts (suc left) attempt last_error w h =
      go (service.llm request w.provider).0 (service.llm request w.provider).1
        (λ e v. retry-attempts left (suc attempt) (some e) v (omega arith))
    where
      go :
          (r : Result LlmResponse) (p : P)
          → ((e : Exception) → FollowsFrom left (suc attempt) e)
          → handle r
              (record w { provider = p })
              (λ err.
                back_off service attempt >> retry service request left (suc attempt) (some err))
            ≡ attempted attempt w (after_attempt r p (λ e. attempts left (some e) p))
      go (ok x) p ih =
          ap (λ (ds : List ℕ). (ok x, record w { provider = p; delays = ds }))
            (sym (append-nil w.delays))
      go (raise e) p ih = failed-attempted left attempt e p w h (ih e)

-- `callLlmWithRetry` gives the first response among at most `maxRetries` attempts, and otherwise
-- throws the error of the last one (a fixed error if no attempt is allowed). It changes nothing
-- but the provider and the waits, which are 500, 1000, 2000, … ms between one attempt and the
-- next, each twice the one before, none after the last.
pub call_llm-attempts :
    {Schema S P : Type 0} (service : AgentService Schema S P) (messages : List ChatMessage)
    (tools : List (ToolDefinition Schema)) (system : Text) (w : World S P)
    → let (r, p, made) =
        attempts service
          (request_for service messages tools system)
          service.max_retries
          none
          w.provider in
      (call_llm_with_retry service messages tools system w
        ≡ (r, record w { provider = p; delays = w.delays ++ doubled_from 500 made }))
      × (made ≤ service.max_retries)
unfolding call_llm_with_retry
call_llm-attempts service messages tools system w = (
  subst
      (λ (waits : List ℕ). call_llm_with_retry service messages tools system w ≡ (
        (attempts service (request_for service messages tools system) service.max_retries none
            w.provider).0,
        record w {
          provider =
              (attempts service (request_for service messages tools system) service.max_retries none
                w.provider).1;
          delays = w.delays ++ waits;
        },
      ))
      (waits_from-doubled_from
        (attempts service (request_for service messages tools system) service.max_retries none
          w.provider).2
        0)
      (retry-attempts service (request_for service messages tools system) service.max_retries 1 none
        w (omega arith)),
  attempts-le service (request_for service messages tools system) service.max_retries none
      w.provider,
)
