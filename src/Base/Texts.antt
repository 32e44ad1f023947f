-- ===== src/Base/Texts.antt =====
-- Texts as lists of bytes, for code that takes them apart: `str::rsplitn`, `join`, `parse`.
use Prim.Native.Nat.{ℕ, zero, suc, ◌+◌, ◌-◌, ◌*◌}
use Prim.Native.Char.{code}
use Prim.Native.String.{String}
use mathlib.Core.Path.{◌≡◌, refl, sym, ap, ◌∙◌}
use mathlib.Core.Logic.{◌≢◌}
use mathlib.Core.Bool.{Bool, ◌&&◌}
use mathlib.Core.Option.{Option, none, some}
use mathlib.Core.List.{List, [], ◌∷◌, ◌++◌, append_assoc}
use native.Mathlib.Omega.{arith}
use native.Mathlib.Decide.{ℕ_discrete}
use native_link.Base.Tests.{ltb, leb, ◌==◌, if◌then◌else◌}
use native_link.Base.Lists.{length, length-append}

abbrev pub Text : Type 0
Text = List ℕ

unfoldable pub Text-discrete : Discrete Text
Text-discrete = hlevel ℕ_discrete

-- The bytes of a literal.
abbrev pub codes : String → Text
codes String.[] = []
codes (String.◌∷◌ c s) = code c ∷ codes s

-- What stands before and after the last occurrence of a byte.
unfoldable pub split_last : ℕ → Text → Option (Text × Text)
split_last sep [] = none
split_last sep (c ∷ s) = elim (split_last sep s) [
  | some (before, after) ↦ some (c ∷ before, after)
  | none ↦ if c == sep then some ([], s) else none
]

-- `str::rsplitn`: the last parts first, and what is left of the text as the n-th.
unfoldable pub rsplitn : ℕ → ℕ → Text → List Text
unfolding split_last
rsplitn zero sep s = []
rsplitn (suc zero) sep s = s ∷ []
rsplitn (suc (suc n)) sep s = elim (split_last sep s) [
  | none ↦ s ∷ []
  | some (before, after) ↦ after ∷ rsplitn (suc n) sep before
]

-- `join`.
unfoldable pub join : ℕ → List Text → Text
join sep [] = []
join sep (p ∷ []) = p
join sep (p ∷ q ∷ ps) = p ++ sep ∷ join sep (q ∷ ps)

unfoldable pub is_digit : ℕ → Bool
is_digit c = leb b'0' c && leb c b'9'

-- The digits of `str::parse::<usize>`, from the value so far; `none` is an error.
unfoldable pub parse_digits : ℕ → ℕ → Text → Option ℕ
unfolding is_digit
parse_digits bound value [] = some value
parse_digits bound value (c ∷ s) =
    let value' = value * 10 + (c - b'0') in
    let rest = parse_digits bound value' s in if is_digit c && ltb value' bound then rest else none

unfoldable pub parse_usize : Text → Option ℕ
unfolding parse_digits
parse_usize [] = none
parse_usize (c ∷ []) = parse_digits 18446744073709551616 0 (c ∷ [])
parse_usize (c ∷ d ∷ s) =
    if c == b'+'
    then parse_digits 18446744073709551616 0 (d ∷ s)
    else parse_digits 18446744073709551616 0 (c ∷ d ∷ s)

-- The byte does not occur.
abbrev pub Lacks : ℕ → Text → Type 0
Lacks sep [] = Unit
Lacks sep (c ∷ s) = (c ≢ sep) × Lacks sep s

split_last-none : (sep : ℕ) (s : Text) → Lacks sep s → split_last sep s ≡ none
unfolding split_last
split_last-none sep [] l = refl
split_last-none sep (c ∷ s) l = ground (arith, split_last-none sep s l.1)

zero_add : (n : ℕ) → n ≡ 0 + n
zero_add n = omega arith

pub split_last-append :
    (sep : ℕ) (before after : Text)
    → Lacks sep after
    → split_last sep (before ++ sep ∷ after) ≡ some (before, after)
unfolding split_last
split_last-append sep [] after l = ground (arith, split_last-none sep after l)
split_last-append sep (c ∷ s) after l = rw (split_last-append sep s after l)

-- A text and parts that follow it, each behind a separator.
abbrev pub extend : ℕ → Text → List Text → Text
extend sep s [] = s
extend sep s (p ∷ ps) = extend sep (s ++ sep ∷ p) ps

abbrev pub AllLack : ℕ → List Text → Type 0
AllLack sep [] = Unit
AllLack sep (p ∷ ps) = Lacks sep p × AllLack sep ps

-- Parts in reverse, before some others.
abbrev pub rev_onto : List Text → List Text → List Text
rev_onto [] acc = acc
rev_onto (p ∷ ps) acc = rev_onto ps (p ∷ acc)

pub rsplitn-append :
    (n sep : ℕ) (s p : Text)
    → Lacks sep p
    → rsplitn (suc (suc n)) sep (s ++ sep ∷ p) ≡ p ∷ rsplitn (suc n) sep s
unfolding rsplitn
rsplitn-append n sep s p l = rw (split_last-append sep s p l, rsplitn)

pub rsplitn_lack : (n sep : ℕ) (s : Text) → Lacks sep s → rsplitn (suc n) sep s ≡ s ∷ []
unfolding rsplitn
rsplitn_lack zero sep s l = refl
rsplitn_lack (suc n) sep s l = rw (split_last-none sep s l, rsplitn)

add_shift : (m n : ℕ) → suc m + n ≡ m + suc n
add_shift m n = omega arith

pub rsplitn-extend :
    (ps : List Text) (n sep : ℕ) (s : Text)
    → AllLack sep ps
    → rsplitn (suc (length ps + n)) sep (extend sep s ps) ≡ rev_onto ps (rsplitn (suc n) sep s)
rsplitn-extend [] n sep s l = ap (λ k. rsplitn (suc k) sep s) (sym (zero_add n))
rsplitn-extend (p ∷ ps) n sep s l =
    ap (λ k. rsplitn (suc k) sep (extend sep (s ++ sep ∷ p) ps)) (add_shift (length ps) n)
    ∙ (rsplitn-extend ps (suc n) sep (s ++ sep ∷ p) l.1
        ∙ ap (rev_onto ps) (rsplitn-append n sep s p l.0))

pub extend-append :
    (sep : ℕ) (s t : Text) (ps : List Text) → extend sep (s ++ t) ps ≡ s ++ extend sep t ps
extend-append sep s t [] = refl
extend-append sep s t (p ∷ ps) =
    ap (λ u. extend sep u ps) (append_assoc s t (sep ∷ p)) ∙ extend-append sep s (t ++ sep ∷ p) ps

pub join-extend : (sep : ℕ) (p : Text) (ps : List Text) → join sep (p ∷ ps) ≡ extend sep p ps
unfolding join
join-extend sep p [] = refl
join-extend sep p (q ∷ ps) =
    ap (λ u. p ++ sep ∷ u) (join-extend sep q ps)
    ∙ (ap (λ u. p ++ u) (sym (extend-append sep (sep ∷ []) q ps))
        ∙ sym (extend-append sep p (sep ∷ q) ps))

unfoldable pub weight : List Text → ℕ
weight [] = 0
weight (p ∷ ps) = suc (length p) + weight ps

pub length-extend :
    (sep : ℕ) (s : Text) (ps : List Text) → length (extend sep s ps) ≡ length s + weight ps
unfolding weight
length-extend sep s [] = omega arith
length-extend sep s (p ∷ ps) =
    omega (arith, length-extend sep (s ++ sep ∷ p) ps, length-append s (sep ∷ p))
