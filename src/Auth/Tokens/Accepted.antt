-- ===== src/Auth/Tokens/Accepted.antt =====
-- The tokens that decode_access_token accepts, whoever wrote them.
use distributed_asynchronous.Prelude.{
  ℕ, ◌≡◌, refl, sym, ap, ◌∙◌, arith, String, false, Option, none, some, List, ◌∷◌, ◌++◌, ok,
}
use distributed_asynchronous.Models.{Time}
use distributed_asynchronous.Models.Json.{Json, null, bool, num, text, arr, obj, Fields}
use distributed_asynchronous.Auth.Crypto.{Crypto}
use distributed_asynchronous.Auth.Text.{equal_sound, split_once, split_once_sound}
use distributed_asynchronous.Auth.Tokens.{
  signature, is_expired, check_payload, load_payload, check_token, decode_access_token,
}

check_payload-accepts :
    (now : Time) (loaded : Option Json) (payload : Fields)
    → check_payload now loaded ≡ ok (some payload)
    → (loaded ≡ some (obj payload)) × (is_expired now payload ≡ false)
unfolding check_payload
check_payload-accepts now none payload h = ground arith
check_payload-accepts now (some null) payload h = ground arith
check_payload-accepts now (some (bool b)) payload h = ground arith
check_payload-accepts now (some (num n)) payload h = ground arith
check_payload-accepts now (some (text s)) payload h = ground arith
check_payload-accepts now (some (arr vs)) payload h = ground arith
check_payload-accepts now (some (obj fs)) payload h = ground arith

module _ (crypto : Crypto) where
  -- What a token holds that decode_access_token accepts.
  abbrev pub IsSigned : (token : List ℕ) (secret_key : String) → Time → Fields → Type 0
  IsSigned token secret_key now payload =
      (payload_raw : List ℕ) × (token
        ≡ payload_raw ++ b'.' ∷ signature crypto secret_key payload_raw)
      × (load_payload crypto payload_raw ≡ some (obj payload))
      × (is_expired now payload ≡ false)

  check_token-accepts :
      (payload_raw signature_raw : List ℕ) (secret_key : String) (now : Time) (payload : Fields)
      → check_token crypto payload_raw signature_raw secret_key now ≡ ok (some payload)
      → (signature crypto secret_key payload_raw ≡ signature_raw)
        × (check_payload now (load_payload crypto payload_raw) ≡ ok (some payload))
  unfolding check_token
  check_token-accepts payload_raw signature_raw secret_key now payload h =
      ground (arith, equal_sound (signature crypto secret_key payload_raw) signature_raw)

  -- A token that decode_access_token accepts is a payload, a full stop and the signature of this
  -- payload under the secret; the payload that is returned is what the first part decodes to, and
  -- it has not expired.
  pub decode_access_token-IsSigned :
      (token : List ℕ) (secret_key : String) (now : Time) (payload : Fields)
      → decode_access_token crypto token secret_key now ≡ ok (some payload)
      → IsSigned token secret_key now payload
  unfolding decode_access_token
  decode_access_token-IsSigned token secret_key now payload h = go (split_once b'.' token) refl h
    where
      go :
          (found : Option (List ℕ × List ℕ))
          → split_once b'.' token ≡ found
          → elim found [
            | none ↦ ok none
            | some (payload_raw, signature_raw) ↦
                check_token crypto payload_raw signature_raw secret_key now
          ]
            ≡ ok (some payload)
          → IsSigned token secret_key now payload
      go none e k = ground arith
      go (some (payload_raw, signature_raw)) e k =
          let signed = check_token-accepts payload_raw signature_raw secret_key now payload k in
          let read = check_payload-accepts now (load_payload crypto payload_raw) payload signed.1 in
          (
            payload_raw,
            split_once_sound b'.' token payload_raw signature_raw e
                ∙ ap (λ end. payload_raw ++ b'.' ∷ end) (sym signed.0),
            read.0,
            read.1,
          )
