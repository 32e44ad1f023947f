-- ===== src/Base/Errors.antt =====
-- nativelink-error/src/lib.rs: the error value, its codes, and the helpers that the components use
-- to build, tag and merge errors. Of a formatted message the constant text is kept, and the values
-- that are formatted into it are left out.
use Prim.Native.String.{String}
use mathlib.Core.List.{List, [], ◌∷◌, ◌++◌}
use mathlib.Core.Option.{Option, none, some}
use mathlib.Core.Path.{◌≡◌, refl}
use mathlib.Core.Logic.{ite, ◌⊎◌, inl, inr}
use native_link.Base.Tests.{string_discrete}

pub data Code : Type 0 where
  success cancelled unknown invalid_argument deadline_exceeded not_found already_exists : Code
  permission_denied resource_exhausted failed_precondition aborted out_of_range : Code
  unimplemented internal unavailable data_loss unauthenticated : Code

unfoldable pub Code-discrete : Discrete Code
Code-discrete = hlevel

pub record Error : Type 0 where
  pub code : Code
  pub messages : List String

pub data Result {ℓ} (A : Type ℓ) : Type ℓ where
  ok : A → Result A
  err : Error → Result A

-- `Error::new`, which drops an empty message.
abbrev pub make_err : Code → String → Error
make_err code msg = record { code = code; messages = ite (string_discrete msg "") [] (msg ∷ []) }

abbrev pub make_input_err : String → Error
make_input_err = make_err Code.invalid_argument

-- `Error::append`.
abbrev pub append : Error → String → Error
append e msg = record e { messages = e.messages ++ msg ∷ [] }

-- `Error::merge`: the first error's code stays.
abbrev pub merge_error : Error → Error → Error
merge_error e other = record e { messages = (e.messages ++ "---" ∷ []) ++ other.messages }

-- `ResultExt::merge` on results: the first error wins and the second one's messages are added.
unfoldable pub merge {ℓ κ} : {A : Type ℓ} {B : Type κ} → Result A → Result B → Result B
merge (ok a) other = other
merge (err e) (ok b) = err e
merge (err e) (err f) = err (merge_error e f)

-- `ResultExt::err_tip` on a result, and on an option.
abbrev pub err_tip {ℓ} : {A : Type ℓ} → Result A → String → Result A
err_tip (ok a) tip = ok a
err_tip (err e) tip = err (append e tip)

abbrev pub ok_or_tip {ℓ} : {A : Type ℓ} → Option A → String → Result A
ok_or_tip (some a) tip = ok a
ok_or_tip none tip = err (record { code = Code.internal; messages = tip ∷ [] })

pub Result-cases {ℓ} :
    {A : Type ℓ} (r : Result A) → ((a : A) × (r ≡ ok a)) ⊎ ((e : Error) × (r ≡ err e))
Result-cases (ok a) = inl (a, refl)
Result-cases (err e) = inr (e, refl)
