-- ===== src/FastCdc/Frames.antt =====
-- One call of `decode`: a decoder that was interrupted anywhere finds the frame that a new one finds
-- in the whole buffer.
use native_link.Base.{
  ℕ, zero, suc, ◌+◌, ◌≤◌, ◌<◌, true, false, none, some, List, [], ◌∷◌, ◌++◌, ◌≡◌, refl, sym, ◌∙◌,
  ap, arith, inl, inr, ◌⊎◌, length, take, drop, take-append-drop, length-take, length-drop,
  take_all, drop_all, drop-append_le, leb, ◌==◌, if◌then◌else◌,
}
use Prim.Native.Nat.{max}
use native.Mathlib.Decide.{dec_le}
use native_link.FastCdc.{FastCdc, roll, is_boundary, scan, decode}
use native_link.FastCdc.Scan.{scan_cases, scan-append}

-- The sizes that a decoder needs: `new` asserts the second, and the first is left to the caller.
pub record Sized (c : FastCdc) : Type 0 where
  pub positive : 0 < c.min_size
  pub ordered : c.min_size < c.max_size

-- The decoder `c` at some place.
abbrev pub at : FastCdc → ℕ → ℕ → FastCdc
at c h p = record c { hash = h; position = p }

-- What a new decoder finds in a buffer: a split point, or zero.
unfoldable pub cut : FastCdc → List ℕ → ℕ
unfolding scan
cut c buf = (scan c 0 c.min_size (drop c.min_size buf)).1

-- The place is one at which a new decoder has found nothing yet.
pub record Resumes (c : FastCdc) (h p : ℕ) (buf : List ℕ) : Type 0 where
  pub reached : p ≤ length buf
  pub within : p ≤ c.max_size
  pub so_far : scan c 0 c.min_size (drop c.min_size (take (max p c.min_size) buf)) ≡ (h, 0)

scan-at :
    (c : FastCdc) (h p hash i : ℕ) (bytes : List ℕ)
    → scan (at c h p) hash i bytes ≡ scan c hash i bytes
unfolding scan is_boundary
scan-at c h p hash i [] = refl
scan-at c h p hash i (b ∷ bs) = rw (scan-at c h p (roll hash b) (suc i) bs) refl

pub drop-take_self : (n : ℕ) (xs : List ℕ) → drop n (take n xs) ≡ []
drop-take_self zero xs = refl
drop-take_self (suc n) [] = refl
drop-take_self (suc n) (x ∷ xs) = drop-take_self n xs

drop_split :
    (n m : ℕ) (xs : List ℕ) → n ≤ m → m ≤ length xs → drop n xs ≡ drop n (take m xs) ++ drop m xs
drop_split n m xs h l =
    ap (drop n) (sym (take-append-drop m xs))
    ∙ drop-append_le n (take m xs) (drop m xs) (omega (arith, length-take m xs))

pub max_zero : (n : ℕ) → max 0 n ≡ n
max_zero n = omega arith

pub fresh-Resumes : (c : FastCdc) (buf : List ℕ) → Resumes c 0 0 buf
unfolding scan
fresh-Resumes c buf = record {
  reached = omega arith;
  within = omega arith;
  so_far =
      ap (λ xs. scan c 0 c.min_size xs)
        (ap (λ k. drop c.min_size (take k buf)) (max_zero c.min_size)
          ∙ drop-take_self c.min_size buf);
}

module _ (c : FastCdc) (h p : ℕ) (buf : List ℕ) (s : Sized c) (r : Resumes c h p buf) where
  abbrev start : ℕ
  start = max p c.min_size

  abbrev before : List ℕ
  before = drop c.min_size (take start buf)

  before-length : c.min_size < length buf → c.min_size + length before ≡ start
  before-length long =
      omega (arith, r.reached, length-take start buf, length-drop c.min_size (take start buf))

  resumed :
      c.min_size < length buf
      → scan (at c h p) h start (drop start buf) ≡ scan c 0 c.min_size (drop c.min_size buf)
  resumed long =
      let whole : drop c.min_size buf ≡ before ++ drop start buf =
        drop_split c.min_size start buf (omega arith) (omega (arith, r.reached)) in
      let stop = ap (λ x. x.1) r.so_far in
      scan-at c h p h start (drop start buf)
      ∙ (elim (scan-append c 0 c.min_size before (drop start buf) s.positive) [
        | inl (found, e) ↦ absurd (found stop)
        | inr (z, e) ↦ sym (
            ap (λ xs. scan c 0 c.min_size xs) whole
            ∙ (e
                ∙ (ap (λ x. scan c x.0 (c.min_size + length before) (drop start buf)) r.so_far
                    ∙ ap (λ k. scan c h k (drop start buf)) (before-length long))))
      ])

  abbrev result : ℕ × ℕ
  result = scan c 0 c.min_size (drop c.min_size buf)

  -- What `decode` returns, by the length of the buffer and by what a new decoder finds.
  decode-short :
      length buf ≤ c.min_size
      → decode (at c h p) buf ≡ record { state = at c h p; buf = buf; frame = none }
  unfolding decode
  decode-short small = ground arith

  decode-long :
      c.min_size < length buf
      → decode (at c h p) buf ≡ (
          if leb c.min_size result.1
          then record {
            state = at c 0 0;
            buf = drop result.1 buf;
            frame = some (take result.1 buf);
          }
          else record {
            state = at c result.0 (if result.1 == 0 then length buf else result.1);
            buf = buf;
            frame = none;
          })
  unfolding decode
  decode-long long =
      let test : leb (length buf) c.min_size ≡ false = ground arith in rw (resumed long, test)

  -- `decode` gives the frame that `cut` says, and otherwise keeps its place.
  pub decode_cases :
      ((h' p' : ℕ) × (decode (at c h p) buf
          ≡ record { state = at c h' p'; buf = buf; frame = none })
        × Resumes c h' p' buf
        × (cut c buf ≡ 0)
        × (length buf ≤ c.max_size))
      ⊎ ((decode (at c h p) buf ≡ record {
        state = at c 0 0;
        buf = drop (cut c buf) buf;
        frame = some (take (cut c buf) buf);
      })
          × (c.min_size ≤ cut c buf)
          × (cut c buf ≤ c.max_size)
          × (cut c buf < length buf))
  unfolding cut scan
  decode_cases = elim (dec_le (length buf) c.min_size) [
    | yes small ↦ inl (
      h,
      p,
      decode-short small,
      r,
      ap (λ xs. (scan c 0 c.min_size xs).1) (drop_all c.min_size buf small),
      omega (arith, s.ordered),
    )
    | no n ↦
        let long : c.min_size < length buf = omega arith in
        let rest = length-drop c.min_size buf in
        elim (scan_cases c 0 c.min_size (drop c.min_size buf) (omega (arith, s.ordered))) [
          | inl (z, m) ↦
              let short : length buf ≤ c.max_size = omega (arith, rest, m) in
              let t1 : leb c.min_size result.1 ≡ false = ground (arith, s.positive) in
              let t2 : (result.1 == 0) ≡ true = ground arith in
              inl (
                result.0,
                length buf,
                decode-long long ∙ rw (t1, t2),
                record {
                  reached = omega arith;
                  within = short;
                  so_far =
                      ap (λ xs. scan c 0 c.min_size (drop c.min_size xs))
                        (take_all (max (length buf) c.min_size) buf (omega arith))
                      ∙ ap (λ k. (result.0, k)) z;
                },
                z,
                short,
              )
          | inr (lo, hi, m) ↦
              let t1 : leb c.min_size result.1 ≡ true = ground arith in
              inr (decode-long long ∙ rw t1, lo, m, omega (arith, rest, hi))
        ]
  ]
