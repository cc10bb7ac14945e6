-- ===== src/Raise.antt =====
-- Python's exceptions as values. A pure function that may raise returns a `Result`; a method that
-- changes an object returns the new object beside its `Result`, since what was written before a
-- `raise` stays written. Messages are not modelled, only the kind that an error carries.
-- The kinds are those of src/device_sdk_py/internal/cache/providers.py (`CacheErrorKind`),
-- internal/common/utils.py (`EdgexErrorKind`), models/command_value.py (`ValueTypeError`) and
-- internal/transformer (the transformer's errors) and
-- internal/autoevent/executor.py (`AutoEventError`); the others are Python's own.
use mathlib.Core.Path.{subst}
use device_sdk_python.Base.{ℕ, ◌≡◌, refl, Bool, true, false, Option, none, some, if◌then◌else◌}

pub data CacheErrorKind : Type 0 where
  duplicate_name entity_does_not_exist contract_invalid : CacheErrorKind

-- `ENTITY_DOES_NOT_EXIST` has the value of `NOT_FOUND`, so Python makes it an alias of that member.
pub data EdgexErrorKind : Type 0 where
  unknown server_error contract_invalid limit_exceeded not_found duplicate_name : EdgexErrorKind
  service_unavailable service_locked status_conflict not_allowed not_implemented : EdgexErrorKind
  nan_error overflow_error io_error : EdgexErrorKind

pub data Exn : Type 0 where
  cache_error : CacheErrorKind → Exn
  edgex_error : EdgexErrorKind → Exn
  value_type_error : Exn
  transformer_error overflow_transformer_error nan_transformer_error write_parameter_error : Exn
  -- Python's own, of which `KeyError`, `OverflowError` and the like are raised by its operators.
  key_error value_error type_error python_overflow_error zero_division_error attribute_error : Exn
  auto_event_error : Exn

pub data Result {ℓ} (A : Type ℓ) : Type ℓ where
  ok : A → Result A
  raise : Exn → Result A

infixl 5 ◌>>=◌ ◌>>◌
abbrev pub ◌>>=◌ {ℓ κ} : {B : Type κ} {A : Type ℓ} → Result A → (A → Result B) → Result B
raise kind >>= next = raise kind
ok value >>= next = next value

-- A statement whose value is not used.
abbrev pub ◌>>◌ {ℓ κ} : {B : Type κ} {A : Type ℓ} → Result A → Result B → Result B
first >> second = first >>= λ _. second

-- What a method leaves: its result, or the error that it raised, and the object.
abbrev pub Outcome : Type 0 → Type 0
Outcome S = Result (Unit {0}) × S

-- The rest of a method, after a call that may raise.
abbrev pub after : {S : Type 0} → Outcome S → (S → Outcome S) → Outcome S
after (ok _, c) next = next c
after (raise e, c) next = (raise e, c)

-- `_ERROR_KIND_STATUS` and the `code` of an `EdgexError`
unfoldable pub status_code : EdgexErrorKind → ℕ
status_code EdgexErrorKind.unknown = 500
status_code EdgexErrorKind.server_error = 500
status_code EdgexErrorKind.contract_invalid = 400
status_code EdgexErrorKind.limit_exceeded = 413
status_code EdgexErrorKind.not_found = 404
status_code EdgexErrorKind.duplicate_name = 409
status_code EdgexErrorKind.service_unavailable = 503
status_code EdgexErrorKind.service_locked = 423
status_code EdgexErrorKind.status_conflict = 409
status_code EdgexErrorKind.not_allowed = 403
status_code EdgexErrorKind.not_implemented = 501
status_code EdgexErrorKind.nan_error = 400
status_code EdgexErrorKind.overflow_error = 400
status_code EdgexErrorKind.io_error = 500

-- A fact about what a computation returns, if it returns, and one rule for each way to build it.
pub record Returns {A : Type 0} (P : A → Type 0) (m : Result A) : Type 0 where
  pub at : (a : A) → m ≡ ok a → P a

pub ok-injective : {A : Type 0} {a b : A} → ok a ≡ ok b → a ≡ b
ok-injective e = cc

module _ {A : Type 0} {P : A → Type 0} where
  pub Returns-ok : {a : A} → P a → Returns P (ok a)
  Returns-ok h = record { at = λ b e. subst P (ok-injective e) h }

  pub Returns-raise : (e : Exn) → Returns P (raise e)
  Returns-raise x = record { at = λ b e. cc }

  pub Returns-if :
      (b : Bool) {m n : Result A}
      → (b ≡ true → Returns P m)
      → (b ≡ false → Returns P n)
      → Returns P (if b then m else n)
  Returns-if true h k = h refl
  Returns-if false h k = k refl

  pub Returns-bind :
      {B : Type 0} (m : Result B) (f : B → Result A)
      → ((b : B) → m ≡ ok b → Returns P (f b))
      → Returns P (m >>= f)
  Returns-bind (ok b) f h = h b refl
  Returns-bind (raise x) f h = Returns-raise x

-- `if test: raise create_edgx_error(kind, ...)`
unfoldable pub refuse : Bool → EdgexErrorKind → Result (Unit {0})
refuse test kind = if test then raise (edgex_error kind) else ok tt

-- `if not ok: raise create_edgx_error(kind, ...)`
unfoldable pub found_or : {A : Type 0} → EdgexErrorKind → Option A → Result A
found_or kind none = raise (edgex_error kind)
found_or kind (some a) = ok a

pub refuse-ok :
    {A : Type 0} (test : Bool) (kind : EdgexErrorKind) (k : Unit → Result A) {a : A}
    → (refuse test kind >>= k) ≡ ok a
    → (test ≡ false) × (k tt ≡ ok a)
unfolding refuse
refuse-ok true kind k e = cc
refuse-ok false kind k e = (refl, e)

pub found_or-ok :
    {A B : Type 0} (kind : EdgexErrorKind) (found : Option B) (k : B → Result A) {a : A}
    → (found_or kind found >>= k) ≡ ok a
    → (b : B) × (found ≡ some b) × (k b ≡ ok a)
unfolding found_or
found_or-ok kind none k e = cc
found_or-ok kind (some b) k e = (b, refl, e)

module _ {A : Type 0} {P : A → Type 0} where
  pub Returns-refuse :
      (test : Bool) (kind : EdgexErrorKind) (k : Unit → Result A)
      → (test ≡ false → Returns P (k tt))
      → Returns P (refuse test kind >>= k)
  unfolding refuse
  Returns-refuse true kind k h = Returns-raise (edgex_error kind)
  Returns-refuse false kind k h = h refl

  pub Returns-found :
      {B : Type 0} (kind : EdgexErrorKind) (found : Option B) (k : B → Result A)
      → ((b : B) → found ≡ some b → Returns P (k b))
      → Returns P (found_or kind found >>= k)
  unfolding found_or
  Returns-found kind none k h = Returns-raise (edgex_error kind)
  Returns-found kind (some b) k h = h b refl
