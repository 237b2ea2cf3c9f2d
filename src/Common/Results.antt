-- ===== src/Common/Results.antt =====
-- The errors that the code throws, and the results of code that may throw.
use mathlib.Core.Logic.{◌⊎◌, inl, inr}
use mathlib.Core.Option.{Option, none, some}
use mathlib.Core.Path.{◌≡◌, refl}
use mathlib.Core.Bool.{Bool, true, false}
use jsrproxy.Common.Texts.{Text}

-- One constructor for each `throw`; `missing_assignment` is the `undefined` behind the `!` of
-- `allocate`, and `property_of_null` the TypeError of a property of `null` or `undefined`.
-- `fetch_failed` is what a request rejects with, `bad_uri` the URIError of a lone surrogate, and
-- `call_rejected` what another call of the platform throws or rejects with, such as the TypeError of
-- a header value.
pub data Error : Type 0 where
  invalid_major : Error
  empty_commit_sha : Error
  invalid_commit_timestamp : Error
  missing_assignment : Error
  no_existing_assignment : Error
  invalid_attempt : Error
  invalid_assignment_version : Text → Error
  duplicate_assignment : Text → Error
  default_branch_missing : Text → Error
  duplicate_version : Text → Error
  cannot_recover : Text → Error
  unknown_version : Text → Error
  not_leased : Text → Error
  cannot_transition : (version state : Text) → Error
  invalid_json : Error
  invalid_scope : Text → Error
  unknown_scope_type : Text → Error
  invalid_owner : Text → Error
  invalid_trusted_users : Error
  property_of_null : Error
  fetch_failed : Error
  bad_uri : Error
  call_rejected : Error
  identity_mismatch : Error
  not_initialized : Error
  sqlite_required : Error

pub data Result {ℓ} (T : Type ℓ) : Type ℓ where
  ok : T → Result T
  err : Error → Result T

-- The rest of a function, which an error skips.
infixl 5 ◌>>=◌ ◌>>◌
abbrev pub ◌>>=◌ {ℓ κ} : {S : Type ℓ} {T : Type κ} → Result S → (S → Result T) → Result T
err thrown >>= rest = err thrown
ok value >>= rest = rest value

-- `if (!test) throw e`
abbrev pub require : Bool → Error → Result (Unit {0})
require holds thrown = elim holds [ true ↦ ok tt | false ↦ err thrown ]

pub require-ok : (b : Bool) (e : Error) {u : Unit {0}} → require b e ≡ ok u → b ≡ true
require-ok true e h = refl
require-ok false e h = cc

abbrev pub or_throw {ℓ} : {T : Type ℓ} → Option T → Error → Result T
or_throw (some value) thrown = ok value
or_throw none thrown = err thrown

abbrev pub ◌>>◌ {ℓ} : {T : Type ℓ} → Result (Unit {0}) → Result T → Result T
check >> rest = check >>= λ _. rest

-- What a call that returned has done.
pub >>=-eq-ok {ℓ κ} :
    {S : Type ℓ} {T : Type κ} (first : Result S) (rest : S → Result T) {result : T}
    → (first >>= rest) ≡ ok result
    → (value : S) × (first ≡ ok value) × (rest value ≡ ok result)
>>=-eq-ok (err thrown) rest h = cc
>>=-eq-ok (ok value) rest h = (value, refl, h)

pub Result-cases {ℓ} :
    {A : Type ℓ} (r : Result A) → ((a : A) × (r ≡ ok a)) ⊎ ((e : Error) × (r ≡ err e))
Result-cases (ok a) = inl (a, refl)
Result-cases (err e) = inr (e, refl)
