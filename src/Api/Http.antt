-- ===== src/Api/Http.antt =====
-- What a request handler raises, and the transaction of a session dependency.
use distributed_asynchronous.Prelude.{ℕ, String}

-- HTTPException(status_code, detail)
pub record HttpError : Type 0 where
  pub status_code : ℕ
  pub detail : String

abbrev pub not_found : String → HttpError
not_found detail = record { status_code = 404; detail = detail }

abbrev pub conflict : String → HttpError
conflict detail = record { status_code = 409; detail = detail }
