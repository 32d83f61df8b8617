-- ===== src/Auth/Crypto.antt =====
-- What backend/common/auth.py takes from Python's hashlib, hmac and json modules and from its UTF-8
-- codec: parameters of the model, with the bounds that their documentation gives. Text is a list of
-- code points, and bytes a list of numbers below 256.
use distributed_asynchronous.Prelude.{ℕ, ◌<◌, ◌≡◌, Option, some, List, String, All}
use distributed_asynchronous.Models.Json.{Json, obj, Fields}

abbrev pub Bytes : List ℕ → Type 0
Bytes = All (λ (n : ℕ). n < 256)

pub record Crypto : Type 0 where
  -- s.encode("utf-8")
  pub encode : String → List ℕ
  -- hmac.new(key, message, hashlib.sha256).digest()
  pub hmac_sha256 : (key message : List ℕ) → List ℕ
  -- hashlib.pbkdf2_hmac("sha256", password, salt, iterations), for iterations of at least 1
  pub pbkdf2_hmac : (password salt : List ℕ) → (iterations : ℕ) → List ℕ
  -- json.dumps(payload, separators=(",", ":")).encode("utf-8")
  pub dumps : Fields → List ℕ
  -- json.loads(raw), or `none` where it raises ValueError
  pub loads : List ℕ → Option Json

-- The results are bytes.
pub record GivesBytes (crypto : Crypto) : Type 0 where
  pub hmac_sha256-Bytes : (key message : List ℕ) → Bytes (crypto.hmac_sha256 key message)
  pub pbkdf2_hmac-Bytes :
      (password salt : List ℕ) (n : ℕ) → Bytes (crypto.pbkdf2_hmac password salt n)
  pub dumps-Bytes : (payload : Fields) → Bytes (crypto.dumps payload)

-- json.loads reads back what json.dumps wrote.
abbrev pub ReadsBack : Crypto → Fields → Type 0
ReadsBack crypto payload = crypto.loads (crypto.dumps payload) ≡ some (obj payload)
