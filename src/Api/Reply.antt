-- ===== src/Api/Reply.antt =====
-- internal/api/router.go: what a handler answers, `writeJSON`.
use isobox.Prelude.{Bytes, Option, none, some, ℕ}

-- A status, the "error" of the body and the Retry-After header, in seconds.
pub record Reply : Type 0 where
  pub status : ℕ
  pub error : Bytes
  pub retry_after : Option ℕ

abbrev pub failure : ℕ → Bytes → Reply
failure status error = record { status = status; error = error; retry_after = none }

abbrev pub failure_after : ℕ → ℕ → Bytes → Reply
failure_after seconds status error = record {
  status = status;
  error = error;
  retry_after = some seconds;
}

-- A refusal, or a success with its status and what its body carries.
pub data Response {ℓ} (A : Type ℓ) : Type ℓ where
  refused : Reply → Response A
  sent : ℕ → A → Response A
