-- ===== src/Retry/Attempts.antt =====
-- The retry loop's attempts: how often it runs, how long it sleeps, and what it returns.
use mathlib.Core.List.{append_assoc}
use native_link.Base.{
  Option, none, some, Result, append-nil, ltb, ◌<◌, ℕ, ◌+◌, ◌*◌, ◌^◌, ◌≤◌, zero, suc, true, false,
  List, [], ◌∷◌, ◌++◌, ◌≡◌, refl, sym, ap, ◌∙◌, subst, ◌-◌, ok, err, Error, append, arith,
}
use native.Mathlib.Nat.{pow-suc}
use native_link.Retry.{
  Retry, RetryResult, done, retry_with, should_retry, as_u64, duration_bound, slept_first, backoff,
  get_retry_config, retry_loop, retry,
}

-- The configured delay, in the milliseconds that the code takes it for.
abbrev pub base_delay : Retry → ℕ
base_delay config = as_u64 config.delay

-- Attempts that all ask for a retry that the configuration allows.
pub data Temporary {ℓ} {T : Type ℓ} (config : Retry) : List (RetryResult T) → Type ℓ where
  start : Temporary config []
  again :
      (e : Error) {rs : List (RetryResult T)}
      → should_retry config e.code ≡ true
      → Temporary config rs
      → Temporary config (retry_with e ∷ rs)

-- The delays by their number: the n-th one is the jitter of `delay * 2 ^ n`.
unfoldable pub doublings : (ℕ → ℕ) → ℕ → ℕ → ℕ → List ℕ
doublings jitter_fn delay from zero = []
doublings jitter_fn delay from (suc n) =
    jitter_fn (delay * 2 ^ from) ∷ doublings jitter_fn delay (suc from) n

unfoldable pub attempts {ℓ} : {T : Type ℓ} → List (RetryResult T) → ℕ
attempts [] = 0
attempts (r ∷ rs) = suc (attempts rs)

double : (delay from : ℕ) → (delay * 2 ^ from) * 2 ≡ delay * 2 ^ suc from
double delay from = rw (pow-suc 2 from) (omega arith)

zero_left : (n : ℕ) → 0 + n ≡ n
zero_left n = omega arith

zero_right : (n : ℕ) → n + 0 ≡ n
zero_right n = omega arith

suc_left : (m n : ℕ) → suc m + n ≡ suc (m + n)
suc_left m n = omega arith

suc_right : (m n : ℕ) → m + suc n ≡ suc m + n
suc_right m n = omega arith

-- A later delay is no shorter.
longer : (delay from n : ℕ) → delay * 2 ^ from ≤ delay * 2 ^ (from + n)
longer delay from zero = rw (zero_right from) (omega arith)
longer delay from (suc n) =
    rw (suc_right from n) (omega (arith, longer delay (suc from) n, double delay from))

shorter : {m n b : ℕ} → m ≤ n → n < b → ltb m b ≡ true
shorter l less = ground arith

module _ {ℓ} {T : Type ℓ} (config : Retry) where
  slept-append :
      (xs ys : List ℕ) (o : Option (List ℕ × Result T))
      → slept_first xs (slept_first ys o) ≡ slept_first (xs ++ ys) o
  slept-append xs ys none = refl
  slept-append xs ys (some (zs, r)) = ap (λ l. some (l, r)) (sym (append_assoc xs ys zs))

  slept-nil : (o : Option (List ℕ × Result T)) → slept_first [] o ≡ o
  slept-nil none = refl
  slept-nil (some (zs, r)) = refl

  -- While delays are left and short enough, the loop sleeps through the temporary failures and goes
  -- on.
  loop-skips :
      (failed operation : List (RetryResult T)) (n from : ℕ) (jitter_fn : ℕ → ℕ) (delay : ℕ)
      → Temporary config failed
      → delay * 2 ^ (from + attempts failed) < duration_bound
      → retry_loop config
          (failed ++ operation)
          (backoff jitter_fn (delay * 2 ^ from) (attempts failed + n))
        ≡ slept_first (doublings jitter_fn delay (suc from) (attempts failed)) (
            retry_loop config operation
              (backoff jitter_fn (delay * 2 ^ (from + attempts failed)) n))
  unfolding retry_loop backoff doublings attempts
  loop-skips _ operation n from jitter_fn delay start l =
      rw (zero_left n, zero_right from) (sym (slept-nil _))
  loop-skips _ operation n from jitter_fn delay (again e {rs} s t) l =
      rw
        (
          suc_left (attempts rs) n,
          fits,
          s,
          double delay from,
          loop-skips rs operation n (suc from) jitter_fn delay t l',
          slept-append (jitter_fn (delay * 2 ^ suc from) ∷ []),
        )
        (rw (suc_right from (attempts rs)) refl)
    where
      l' : delay * 2 ^ (suc from + attempts rs) < duration_bound
      l' = subst (λ k. delay * 2 ^ k < duration_bound) (suc_right from (attempts rs)) l

      fits : ltb ((delay * 2 ^ from) * 2) duration_bound ≡ true
      fits = rw (double delay from) (shorter (longer delay (suc from) (attempts rs)) l')

  loop-permanent :
      (e : Error) (rest : List (RetryResult T)) (iter : List (Option ℕ))
      → should_retry config e.code ≡ false
      → retry_loop config (retry_with e ∷ rest) iter ≡ some ([], err e)
  unfolding retry_loop
  loop-permanent e rest [] p = rw p refl
  loop-permanent e rest (none ∷ iter) p = rw p refl
  loop-permanent e rest (some d ∷ iter) p = rw p refl

  module _ (jitter_fn : ℕ → ℕ) (failed : List (RetryResult T)) (t : Temporary config failed)
      (short : base_delay config * 2 ^ attempts failed < duration_bound) where
    -- The delays before the attempt that follows `failed`.
    pub delays : List ℕ
    delays = doublings jitter_fn (base_delay config) 1 (attempts failed)

    retry-skips :
        (operation : List (RetryResult T)) (n : ℕ) (res : Result T)
        → attempts failed + n ≡ config.max_retries
        → retry_loop config operation
            (backoff jitter_fn (base_delay config * 2 ^ (0 + attempts failed)) n)
          ≡ some ([], res)
        → retry jitter_fn config (failed ++ operation) ≡ some (delays, res)
    unfolding retry get_retry_config delays retry_loop backoff
    retry-skips operation n res e last =
        ap (λ m. retry_loop config (failed ++ operation) (backoff jitter_fn (base_delay config) m))
          (sym e)
        ∙ ap
            (λ d.
              retry_loop config (failed ++ operation) (backoff jitter_fn d (attempts failed + n)))
            (omega arith)
        ∙ loop-skips failed operation n 0 jitter_fn (base_delay config) t (
            subst (λ k. base_delay config * 2 ^ k < duration_bound)
              (sym (zero_left (attempts failed))) short)
        ∙ ap (slept_first delays) last
        ∙ ap (λ ds. some (ds, res)) (append-nil delays)

    -- When temporary failures, no more than the retries that are configured, precede a value, the
    -- retrier sleeps once after each of them, for the jitter of delay * 2 ^ n milliseconds after
    -- the n-th, and returns the value; delay is the configured float cut to a whole number, and
    -- the last of these durations has to be one that a Duration can hold.
    pub retry-recovers :
        (value : T) (rest : List (RetryResult T))
        → attempts failed ≤ config.max_retries
        → retry jitter_fn config (failed ++ done value ∷ rest) ≡ some (delays, ok value)
    retry-recovers value rest small =
        retry-skips (done value ∷ rest) (config.max_retries - attempts failed) (ok value)
          (omega arith) (unfold retry_loop in refl)

    -- After as many temporary failures as retries are configured, one more failure of that kind
    -- ends the loop with that failure's error, tagged, after one sleep for each retry, when the
    -- last sleep is one that a Duration can hold.
    pub retry-exhausts :
        (e : Error) (rest : List (RetryResult T))
        → attempts failed ≡ config.max_retries
        → should_retry config e.code ≡ true
        → retry jitter_fn config (failed ++ retry_with e ∷ rest)
          ≡ some (delays, err (append e "On attempt"))
    unfolding retry_loop backoff
    retry-exhausts e rest all again_true =
        retry-skips (retry_with e ∷ rest) 0 (err (append e "On attempt")) (omega arith)
          (rw again_true refl)

    -- A failure that the configuration takes for permanent, after no more temporary failures than
    -- the retries configured, ends the loop at once with its own error, untagged, when the sleeps
    -- before it are ones that a Duration can hold.
    pub retry-permanent :
        (e : Error) (rest : List (RetryResult T))
        → attempts failed ≤ config.max_retries
        → should_retry config e.code ≡ false
        → retry jitter_fn config (failed ++ retry_with e ∷ rest) ≡ some (delays, err e)
    retry-permanent e rest small permanent =
        retry-skips (retry_with e ∷ rest) (config.max_retries - attempts failed) (err e)
          (omega arith) (loop-permanent e rest _ permanent)
