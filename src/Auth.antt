-- ===== src/Auth.antt =====
-- backend/common/auth.py: passwords and access tokens. Bytes, and the texts of tokens and password
-- hashes, are lists of numbers: a byte, or a code point.
pub mod Base64
pub mod Crypto
pub mod Passwords
pub mod Tokens
pub mod Text
