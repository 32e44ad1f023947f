-- ===== src/Retry.antt =====
-- nativelink-util/src/retry.rs: which errors are retried, after which delays, and the retry loop.
pub mod Attempts
use native_link.Base.{
  ℕ, ◌*◌, ◌/◌, ◌^◌, ◌++◌, zero, suc, ltb, u64_max, ℤ, pos, negsuc, Bool, true, false, Option, none,
  some, List, [], ◌∷◌, ite, Result, ok, err, Code, Code-discrete, Error, make_err, append,
  if◌then◌else◌,
}
use Prim.Native.Nat.{min}

-- nativelink-config/src/stores.rs: `ErrorCode` and the fields of `Retry` that this file reads.
pub data ErrorCode : Type 0 where
  cancelled unknown invalid_argument deadline_exceeded not_found already_exists : ErrorCode
  permission_denied resource_exhausted failed_precondition aborted out_of_range : ErrorCode
  unimplemented internal unavailable data_loss unauthenticated : ErrorCode

unfoldable pub ErrorCode-discrete : Discrete ErrorCode
ErrorCode-discrete = hlevel

-- The values of an `f32`: whether it is negative and, if it is finite, a mantissa and the power of
-- two that it is multiplied by.
pub data F32 : Type 0 where
  nan : F32
  infinite : Bool → F32
  finite : Bool → ℕ → ℤ → F32

pub record Retry : Type 0 where
  pub max_retries : ℕ
  pub delay : F32
  pub retry_on_errors : Option (List ErrorCode)

pub data RetryResult {ℓ} (T : Type ℓ) : Type ℓ where
  done : T → RetryResult T
  retry_with : Error → RetryResult T
  fail_with : Error → RetryResult T

unfoldable pub to_error_code : Code → ErrorCode
to_error_code Code.cancelled = cancelled
to_error_code Code.invalid_argument = invalid_argument
to_error_code Code.deadline_exceeded = deadline_exceeded
to_error_code Code.not_found = not_found
to_error_code Code.already_exists = already_exists
to_error_code Code.permission_denied = permission_denied
to_error_code Code.resource_exhausted = resource_exhausted
to_error_code Code.failed_precondition = failed_precondition
to_error_code Code.aborted = aborted
to_error_code Code.out_of_range = out_of_range
to_error_code Code.unimplemented = unimplemented
to_error_code Code.internal = internal
to_error_code Code.unavailable = unavailable
to_error_code Code.data_loss = data_loss
to_error_code Code.unauthenticated = unauthenticated
to_error_code _ = unknown

-- `retry_codes.contains`.
unfoldable pub contains : List ErrorCode → ErrorCode → Bool
contains [] c = false
contains (d ∷ ds) c = ite (ErrorCode-discrete d c) true (contains ds c)

-- The codes that are permanent when the configuration names none.
unfoldable pub retry_by_default : Code → Bool
retry_by_default Code.invalid_argument = false
retry_by_default Code.failed_precondition = false
retry_by_default Code.out_of_range = false
retry_by_default Code.unimplemented = false
retry_by_default Code.not_found = false
retry_by_default Code.already_exists = false
retry_by_default Code.permission_denied = false
retry_by_default Code.unauthenticated = false
retry_by_default _ = true

unfoldable pub retry_by_config : Option (List ErrorCode) → Code → Bool
retry_by_config none c = retry_by_default c
retry_by_config (some codes) c = contains codes (to_error_code c)

unfoldable pub should_retry : Retry → Code → Bool
should_retry config c =
    ite (Code-discrete c Code.success) false (retry_by_config config.retry_on_errors c)

-- A finite value without its sign, rounded towards zero.
unfoldable pub truncated : ℕ → ℤ → ℕ
truncated mantissa (pos e) = mantissa * 2 ^ e
truncated mantissa (negsuc e) = mantissa / 2 ^ suc e

-- `as u64` of a float: towards zero, to the nearest number that there is, and zero if it is none.
unfoldable pub as_u64 : F32 → ℕ
unfolding truncated
as_u64 nan = 0
as_u64 (infinite true) = 0
as_u64 (infinite false) = u64_max
as_u64 (finite true mantissa exponent) = 0
as_u64 (finite false mantissa exponent) = min (truncated mantissa exponent) u64_max

-- The milliseconds that a `Duration` holds are below this bound.
abbrev pub duration_bound : ℕ
duration_bound = 18446744073709551616000

-- `ExponentialBackoff::next`, jittered and taken `left` times: `none` is the panic of a duration
-- that is too long to double, with which the delays end. The durations are in milliseconds, of
-- which all are whole; what `jitter_fn` makes of them is slept, in nanoseconds.
unfoldable pub backoff : (ℕ → ℕ) → ℕ → ℕ → List (Option ℕ)
backoff jitter_fn current zero = []
backoff jitter_fn current (suc left) =
    let rest = backoff jitter_fn (current * 2) left in
    if ltb (current * 2) duration_bound then some (jitter_fn (current * 2)) ∷ rest else none ∷ []

unfoldable pub get_retry_config : (ℕ → ℕ) → Retry → List (Option ℕ)
unfolding as_u64
get_retry_config jitter_fn config = backoff jitter_fn (as_u64 config.delay) config.max_retries

abbrev pub slept_first {ℓ} :
    {T : Type ℓ} → List ℕ → Option (List ℕ × Result T) → Option (List ℕ × Result T)
slept_first delays none = none
slept_first delays (some (slept, r)) = some (delays ++ slept, r)

-- The loop over the operation's results, with the delays that are left: the calls of `sleep_fn`, in
-- order, and the result, or nothing for a panic.
unfoldable pub retry_loop {ℓ} :
    {T : Type ℓ} → Retry → List (RetryResult T) → List (Option ℕ) → Option (List ℕ × Result T)
retry_loop config [] iter =
    some ([], err (make_err Code.internal "Retry stream ended abruptly on attempt"))
retry_loop config (done value ∷ operation) iter = some ([], ok value)
retry_loop config (fail_with e ∷ operation) iter = some ([], err (append e "On attempt"))
retry_loop config (retry_with e ∷ operation) [] =
    some ([], err (if should_retry config e.code then append e "On attempt" else e))
retry_loop config (retry_with e ∷ operation) (none ∷ iter) =
    if should_retry config e.code then none else some ([], err e)
retry_loop config (retry_with e ∷ operation) (some delay ∷ iter) =
    let rest = retry_loop config operation iter in
    if should_retry config e.code then slept_first (delay ∷ []) rest else some ([], err e)

unfoldable pub retry {ℓ} :
    {T : Type ℓ} → (ℕ → ℕ) → Retry → List (RetryResult T) → Option (List ℕ × Result T)
retry jitter_fn config operation = retry_loop config operation (get_retry_config jitter_fn config)
