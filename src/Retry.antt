-- ===== src/Retry.antt =====
-- Retrying a call (packages/solana/src/tx/retry.ts). The call's result at each attempt, the abort
-- signal at each attempt, the classification of errors and `toServiceError` are parameters;
-- `computeBackoff` is arithmetic on floating-point numbers, and a parameter too.
pub mod Attempts
pub mod Tests
use solana_snake_arena.Base.{
  ℕ, zero, suc, ◌+◌, Bool, true, false, not, ◌||◌, Option, none, some, List, [], ◌∷◌, if◌then◌else◌,
  leb,
}

pub data Result {ℓ κ} (E : Type ℓ) (T : Type κ) : Type (ℓ ⊔ κ) where
  done : T → Result E T
  threw : E → Result E T

-- What a run comes to: its result, the attempts it made, and the delays it slept, in order.
pub record Run {ℓ κ} (E : Type ℓ) (T : Type κ) : Type (ℓ ⊔ κ) where
  pub result : Result E T
  pub attempts : List ℕ
  pub slept : List ℕ

pub record RetryOptions {ℓ} (E : Type ℓ) : Type ℓ where
  pub max_attempts : ℕ
  pub aborted : ℕ → Bool
  pub should_retry : E → Bool
  pub backoff : ℕ → ℕ
  pub to_service_error : E → E
  pub abort_error : E

module _ {ℓ κ} {E : Type ℓ} {T : Type κ} (o : RetryOptions E) (fn : ℕ → Result E T) where
  abbrev pub after_attempt : ℕ → Run E T → Run E T
  after_attempt attempt later = record later {
    attempts = attempt ∷ later.attempts;
    slept = o.backoff attempt ∷ later.slept;
  }

  abbrev pub stops : ℕ → Result E T → Run E T
  stops attempt result = record { result = result; attempts = attempt ∷ []; slept = [] }

  -- One turn of the loop, given the rest of it.
  abbrev pub attempt_once : ℕ → Run E T → Run E T
  attempt_once attempt later =
      if o.aborted attempt
      then record { result = threw o.abort_error; attempts = []; slept = [] }
      else elim (fn attempt) [
        | done a ↦ stops attempt (done a)
        | threw e ↦
            if leb o.max_attempts attempt || not (o.should_retry e)
            then stops attempt (threw (o.to_service_error e))
            else after_attempt attempt later
      ]

  -- The loop from an attempt on, with the turns that are left; `last` is `lastError`.
  pub retry_from : ℕ → ℕ → E → Run E T
  retry_from zero attempt last = record {
    result = threw (o.to_service_error last);
    attempts = [];
    slept = [];
  }
  retry_from (suc left) attempt last =
      attempt_once attempt
        (retry_from left (attempt + 1) (elim (fn attempt) [ done a ↦ last | threw e ↦ e ]))

  pub with_retry : E → Run E T
  with_retry unset = retry_from o.max_attempts 1 unset
