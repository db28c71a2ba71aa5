-- ===== src/Types/Errors.antt =====
-- types/errors.go: the kinds of errors, the provider error, and which errors are transient.
use nadir.Prelude.{ℕ, ◌≡◌, refl, ◌⊎◌, inl, inr, Bool, true, false, Option, none, some, arith}
use nadir.Prelude.Text.{Text, codes}

pub data ErrorKind : Type 0 where
  unknown rate_limit server_error timeout network auth validation bad_request canceled : ErrorKind

unfoldable pub kind_string : ErrorKind → Text
kind_string ErrorKind.rate_limit = codes "rate_limit"
kind_string ErrorKind.server_error = codes "server_error"
kind_string ErrorKind.timeout = codes "timeout"
kind_string ErrorKind.network = codes "network"
kind_string ErrorKind.auth = codes "auth"
kind_string ErrorKind.validation = codes "validation"
kind_string ErrorKind.bad_request = codes "bad_request"
kind_string ErrorKind.canceled = codes "canceled"
kind_string ErrorKind.unknown = codes "unknown"

pub record ProviderError : Type 0 where
  pub kind : ErrorKind
  pub status_code : ℕ
  pub provider : Text
  pub model : Text
  pub msg : Text

-- A Go error: one of errors.New, io.EOF, one that wraps another by %w, or a provider error, alone
-- or with its field Underlying set.
pub data GoError : Type 0 where
  plain : Text → GoError
  eof : GoError
  wrapped : Text → GoError → GoError
  provider : ProviderError → GoError
  provider_over : ProviderError → GoError → GoError

-- errors.As(err, &pe): the first provider error of the chain
unfoldable pub as_provider : GoError → Option ProviderError
as_provider (GoError.plain _) = none
as_provider GoError.eof = none
as_provider (GoError.wrapped _ e) = as_provider e
as_provider (GoError.provider p) = some p
as_provider (GoError.provider_over p _) = some p

-- errors.Is(err, io.EOF)
unfoldable pub is_eof : GoError → Bool
is_eof (GoError.plain _) = false
is_eof GoError.eof = true
is_eof (GoError.wrapped _ e) = is_eof e
is_eof (GoError.provider _) = false
is_eof (GoError.provider_over _ e) = is_eof e

unfoldable pub transient_kind : ErrorKind → Bool
transient_kind ErrorKind.rate_limit = true
transient_kind ErrorKind.server_error = true
transient_kind ErrorKind.timeout = true
transient_kind ErrorKind.network = true
transient_kind _ = false

-- The kind that the chain of an error carries, as the fallback loop reads it.
unfoldable pub kind_of : GoError → ErrorKind
unfolding as_provider
kind_of e = elim (as_provider e) [ none ↦ ErrorKind.unknown | some p ↦ p.kind ]

unfoldable pub is_transient : GoError → Bool
unfolding as_provider transient_kind
is_transient e = elim (as_provider e) [ none ↦ false | some p ↦ transient_kind p.kind ]

-- A Go result pair (value, error).
pub data Result {ℓ} (A : Type ℓ) : Type ℓ where
  ok : A → Result A
  err : GoError → Result A

-- Whether an error is transient depends on the kind that it carries and on nothing else.
pub is_transient-kind_of : (e : GoError) → is_transient e ≡ transient_kind (kind_of e)
unfolding is_transient kind_of
is_transient-kind_of e = ground arith

pub Result-cases {ℓ} :
    {A : Type ℓ} (r : Result A) → ((a : A) × (r ≡ ok a)) ⊎ ((e : GoError) × (r ≡ err e))
Result-cases (ok a) = inl (a, refl)
Result-cases (err e) = inr (e, refl)
