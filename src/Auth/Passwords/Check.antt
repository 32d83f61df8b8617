-- ===== src/Auth/Passwords/Check.antt =====
-- Checking a password against a stored one.
use distributed_asynchronous.Prelude.{
  ℕ, ◌≡◌, ◌∙◌, refl, ap, arith, inl, String, some, List, ◌∷◌, ◌++◌, ok, codes, show,
}
use distributed_asynchronous.Models.Json.{pos}
use distributed_asynchronous.Auth.Crypto.{Crypto, Bytes, GivesBytes}
use distributed_asynchronous.Auth.Base64.{b64encode}
use distributed_asynchronous.Auth.Base64.RoundTrip.{b64decode-b64encode, lacks-b64encode}
use distributed_asynchronous.Auth.Text.{equal, split_once-append}
use distributed_asynchronous.Auth.Text.Numerals.{parse_int-show}
use distributed_asynchronous.Auth.Passwords.{
  with_salt, with_iterations, with_algorithm, read_digest, read_salt, read_iterations, if_pbkdf2,
  check, pbkdf2_iterations, algorithm_name, Parts, split_parts, read_parts, read_hash,
  hash_password, derive, verify_password,
}

abbrev parts : (salt digest : List ℕ) → Parts
parts salt digest = record {
  algorithm = algorithm_name;
  iterations_raw = codes (show pbkdf2_iterations);
  salt_raw = b64encode salt;
  digest_raw = b64encode digest;
}

split_parts_joined :
    (salt digest : List ℕ)
    → Bytes salt
    → split_parts (
        algorithm_name
        ++ b'$' ∷ codes (show pbkdf2_iterations)
        ++ b'$' ∷ b64encode salt
        ++ b'$' ∷ b64encode digest)
      ≡ some (parts salt digest)
unfolding split_parts show
split_parts_joined salt digest h =
    let iterations_raw = codes (show pbkdf2_iterations) in
    let end = b64encode salt ++ b'$' ∷ b64encode digest in
    ap with_algorithm (split_once-append b'$' algorithm_name (iterations_raw ++ b'$' ∷ end) refl)
    ∙ ap (with_iterations algorithm_name) (split_once-append b'$' iterations_raw end refl)
    ∙ ap (with_salt algorithm_name iterations_raw) (
        split_once-append b'$' (b64encode salt) (b64encode digest)
          (lacks-b64encode b'$' salt (inl (omega arith)) h))

read_parts_encoded :
    (salt digest : List ℕ)
    → Bytes salt
    → Bytes digest
    → read_parts (parts salt digest)
      ≡ some (record { iterations = pos pbkdf2_iterations; salt = salt; expected = digest })
unfolding read_parts
read_parts_encoded salt digest h k =
    ap (read_iterations (parts salt digest)) (parse_int-show pbkdf2_iterations)
    ∙ ap (read_salt (pos pbkdf2_iterations) (b64encode digest)) (b64decode-b64encode salt h)
    ∙ ap (read_digest (pos pbkdf2_iterations) salt) (b64decode-b64encode digest k)

module _ (crypto : Crypto) (bytes : GivesBytes crypto) where
  -- Checking a password against what hash_password stored for a password ends without an
  -- exception, and gives whether the two passwords have the same PBKDF2 digest for the salt that
  -- was stored: the same password is accepted, and another one only if its digest collides.
  pub verify_password-hash_password :
      (attempt password : String) (salt : List ℕ)
      → Bytes salt
      → verify_password crypto attempt (hash_password crypto password salt)
        ≡ ok (
            equal
              (crypto.pbkdf2_hmac (crypto.encode attempt) salt pbkdf2_iterations)
              (crypto.pbkdf2_hmac (crypto.encode password) salt pbkdf2_iterations))
  unfolding verify_password hash_password read_hash derive
  verify_password-hash_password attempt password salt h =
      let digest = crypto.pbkdf2_hmac (crypto.encode password) salt pbkdf2_iterations in
      let whole = bytes.pbkdf2_hmac-Bytes (crypto.encode password) salt pbkdf2_iterations in
      ap (λ found. check crypto attempt (if_pbkdf2 found)) (split_parts_joined salt digest h)
      ∙ ap (check crypto attempt) (read_parts_encoded salt digest h whole)
