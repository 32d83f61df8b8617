-- ===== src/Auth/Tokens/RoundTrip.antt =====
-- What decode_access_token accepts.
use distributed_asynchronous.Prelude.{
  ℕ, ◌+◌, ◌≡◌, ◌∙◌, refl, ap, arith, String, true, none, some, List, ltb, leb, if◌then◌else◌, ok,
  inr,
}
use distributed_asynchronous.Models.{Time}
use distributed_asynchronous.Models.Json.{Fields, get, obj}
use distributed_asynchronous.Auth.Crypto.{Crypto, GivesBytes, ReadsBack}
use distributed_asynchronous.Auth.Base64.{b64encode}
use distributed_asynchronous.Auth.Base64.RoundTrip.{
  b64decode-b64encode, is_ascii-b64encode, lacks-b64encode,
}
use distributed_asynchronous.Auth.Text.{is_ascii, equal_refl, split_once-append}
use distributed_asynchronous.Auth.Tokens.{
  timestamp, claims, signature, create_access_token, exp_int, is_expired, check_payload,
  load_payload, check_token, decode_access_token,
}

module _ (crypto : Crypto) (bytes : GivesBytes crypto) where
  is_expired-claims :
      (user_id : ℕ) (username : String) (delta now later : Time)
      → is_expired later (claims user_id username delta now)
        ≡ ltb (timestamp (now + delta)) (timestamp later)
  unfolding is_expired claims exp_int get
  is_expired-claims user_id username delta now later = refl

  check_payload-claims :
      (user_id : ℕ) (username : String) (delta now later : Time)
      → check_payload later (some (obj (claims user_id username delta now)))
        ≡ ok (
            if leb (timestamp later) (timestamp (now + delta))
            then some (claims user_id username delta now)
            else none)
  unfolding check_payload
  check_payload-claims user_id username delta now later =
      rw (is_expired-claims user_id username delta now later) ground arith

  load_payload-dumps :
      (payload : Fields)
      → ReadsBack crypto payload
      → load_payload crypto (b64encode (crypto.dumps payload)) ≡ some (obj payload)
  unfolding load_payload
  load_payload-dumps payload h =
      ap (λ decoded. elim decoded [ none ↦ none | some raw ↦ crypto.loads raw ])
        (b64decode-b64encode (crypto.dumps payload) (bytes.dumps-Bytes payload))
      ∙ h

  check_token-signature :
      (secret_key : String) (now : Time) (raw : List ℕ)
      → is_ascii raw ≡ true
      → check_token crypto raw (signature crypto secret_key raw) secret_key now
        ≡ check_payload now (load_payload crypto raw)
  unfolding check_token signature
  check_token-signature secret_key now raw h =
      rw
        (
          h,
          is_ascii-b64encode _ (bytes.hmac_sha256-Bytes (crypto.encode secret_key) raw),
          equal_refl (b64encode (crypto.hmac_sha256 (crypto.encode secret_key) raw)),
        )
        refl

  -- The token that create_access_token makes is accepted with its claims by decode_access_token under
  -- the same secret up to the second in which it expires, and refused without an exception after it.
  -- The condition is that json.loads reads the claims back.
  pub decode_access_token-create_access_token :
      (user_id : ℕ) (username secret_key : String) (expires_delta now later : Time)
      → ReadsBack crypto (claims user_id username expires_delta now)
      → decode_access_token crypto
          (create_access_token crypto user_id username secret_key expires_delta now)
          secret_key
          later
        ≡ ok (
            if leb (timestamp later) (timestamp (now + expires_delta))
            then some (claims user_id username expires_delta now)
            else none)
  unfolding decode_access_token create_access_token
  decode_access_token-create_access_token user_id username secret_key expires_delta now later h =
      let payload = claims user_id username expires_delta now in
      let text = b64encode (crypto.dumps payload) in
      let whole = bytes.dumps-Bytes payload in
      ap
        (λ found. elim found [
          | none ↦ ok none
          | some (payload_raw, signature_raw) ↦
              check_token crypto payload_raw signature_raw secret_key later
        ])
        (split_once-append b'.' text _
          (lacks-b64encode b'.' (crypto.dumps payload) (inr refl) whole))
      ∙ check_token-signature secret_key later text
          (is_ascii-b64encode (crypto.dumps payload) whole)
      ∙ ap (check_payload later) (load_payload-dumps payload h)
      ∙ check_payload-claims user_id username expires_delta now later
