-- ===== src/Examples/Retries.antt =====
-- The theorems on the retrier, for an operation that is unavailable twice.
use native_link.Base.{
  ℕ, true, false, none, List, [], ◌∷◌, ◌≡◌, refl, arith, ok, err, Error, Code, Code-discrete,
  make_err, append, some, pos, ◌*◌, ◌^◌, ◌<◌,
}
use native_link.Retry.{
  Retry, finite, as_u64, duration_bound, truncated, RetryResult, done, retry_with, should_retry,
  retry_by_config, retry_by_default, retry,
}
use native_link.Retry.Attempts.{
  Temporary, start, again, base_delay, attempts, delays, retry-recovers, retry-exhausts,
  retry-permanent,
}

abbrev config : Retry
config = record { max_retries = 2; delay = finite false 100 (pos 0); retry_on_errors = none }

abbrev unavailable : Error
unavailable = make_err Code.unavailable "down"

abbrev missing : Error
missing = make_err Code.not_found "gone"

abbrev down_twice : List (RetryResult ℕ)
down_twice = retry_with unavailable ∷ retry_with unavailable ∷ []

unavailable-retries : should_retry config Code.unavailable ≡ true
unfolding should_retry Code-discrete retry_by_config retry_by_default
unavailable-retries = refl

missing-ends : should_retry config Code.not_found ≡ false
unfolding should_retry Code-discrete retry_by_config retry_by_default
missing-ends = refl

down_twice-Temporary : Temporary config down_twice
down_twice-Temporary =
    again unavailable unavailable-retries (again unavailable unavailable-retries start)

down_twice-attempts : attempts down_twice ≡ 2
unfolding attempts
down_twice-attempts = refl

-- 100 * 2 ^ 2 milliseconds are a `Duration`.
down_twice-short : base_delay config * 2 ^ attempts down_twice < duration_bound
unfolding as_u64 truncated
down_twice-short = rw down_twice-attempts (omega arith)

retry-recovers_example :
    retry {T = ℕ}
      (λ d. d * 1000000)
      config
      (retry_with unavailable ∷ retry_with unavailable ∷ done 42 ∷ [])
    ≡ some
        (delays config (λ d. d * 1000000) down_twice down_twice-Temporary down_twice-short, ok 42)
retry-recovers_example =
    retry-recovers config (λ d. d * 1000000) down_twice down_twice-Temporary down_twice-short 42 []
      (omega (arith, down_twice-attempts))

retry-exhausts_example :
    retry {T = ℕ}
      (λ d. d * 1000000)
      config
      (retry_with unavailable ∷ retry_with unavailable ∷ retry_with unavailable ∷ [])
    ≡ some (
      delays config (λ d. d * 1000000) down_twice down_twice-Temporary down_twice-short,
      err (append unavailable "On attempt"),
    )
retry-exhausts_example =
    retry-exhausts config (λ d. d * 1000000) down_twice down_twice-Temporary down_twice-short
      unavailable [] down_twice-attempts unavailable-retries

retry-permanent_example :
    retry {T = ℕ}
      (λ d. d * 1000000)
      config
      (retry_with unavailable ∷ retry_with unavailable ∷ retry_with missing ∷ [])
    ≡ some (
      delays config (λ d. d * 1000000) down_twice down_twice-Temporary down_twice-short,
      err missing,
    )
retry-permanent_example =
    retry-permanent config (λ d. d * 1000000) down_twice down_twice-Temporary down_twice-short
      missing [] (omega (arith, down_twice-attempts)) missing-ends
