-- ===== src/Auth/Base64/RoundTrip.antt =====
-- Decoding what was encoded.
use mathlib.Core.List.{append_assoc, append-nil}
use distributed_asynchronous.Prelude.{
  ℕ, suc, ◌+◌, ◌-◌, ◌*◌, ◌/◌, ◌%◌, ◌≤◌, ◌<◌, ◌≡◌, refl, ◌∙◌, ap, sym, true, false, some, List, [],
  ◌∷◌, ◌++◌, arith, ◌==◌, length, All, ◌⊎◌, ◌≢◌,
}
use distributed_asynchronous.Auth.Text.{is_ascii, lacks}
use distributed_asynchronous.Auth.Base64.{
  letter, value, b64encode, Decoder, feed, a2b_base64, equals, b64decode,
}

value-letter : (v : ℕ) → v < 64 → value (letter v) ≡ some v
unfolding value letter
value-letter v h = ground arith

letter_plain : (v : ℕ) → v < 64 → (letter v == b'=') ≡ false
unfolding letter
letter_plain v h = ground arith

a2b-letter :
    (v : ℕ) (cs : List ℕ) (d : Decoder)
    → v < 64
    → a2b_base64 (letter v ∷ cs) d ≡ a2b_base64 cs (feed v d)
unfolding a2b_base64
a2b-letter v cs d h = rw (letter_plain v h, value-letter v h) refl

abbrev at_start : List ℕ → Decoder
at_start out = record { quad_pos = 0; leftchar = 0; pads = 0; out = out }

-- Four characters give three bytes.
a2b_quad :
    (v w x y : ℕ) (cs out : List ℕ)
    → v < 64
    → w < 64
    → x < 64
    → y < 64
    → a2b_base64 (letter v ∷ letter w ∷ letter x ∷ letter y ∷ cs) (at_start out)
      ≡ a2b_base64 cs (
          at_start (
            ((out ++ (v * 4 + w / 16) ∷ []) ++ (w % 16 * 16 + x / 4) ∷ [])
            ++ (x % 4 * 64 + y) ∷ []))
unfolding feed
a2b_quad v w x y cs out hv hw hx hy =
    a2b-letter v _ _ hv ∙ a2b-letter w _ _ hw ∙ a2b-letter x _ _ hx ∙ a2b-letter y _ _ hy

bytes_joined :
    (a b c : ℕ) (out : List ℕ)
    → a < 256
    → b < 256
    → c < 256
    → ((out ++ (a / 4 * 4 + (a % 4 * 16 + b / 16) / 16) ∷ [])
          ++ ((a % 4 * 16 + b / 16) % 16 * 16 + (b % 16 * 4 + c / 64) / 4) ∷ [])
        ++ ((b % 16 * 4 + c / 64) % 4 * 64 + c % 64) ∷ []
      ≡ out ++ a ∷ b ∷ c ∷ []
bytes_joined a b c out ha hb hc =
    let first : a / 4 * 4 + (a % 4 * 16 + b / 16) / 16 ≡ a = omega arith in
    let second : (a % 4 * 16 + b / 16) % 16 * 16 + (b % 16 * 4 + c / 64) / 4 ≡ b = omega arith in
    let third : (b % 16 * 4 + c / 64) % 4 * 64 + c % 64 ≡ c = omega arith in
    rw (first, second, third, append_assoc, append_assoc) refl

a2b_group :
    (a b c : ℕ) (cs out : List ℕ)
    → a < 256
    → b < 256
    → c < 256
    → a2b_base64
        (letter (a / 4)
          ∷ letter (a % 4 * 16 + b / 16)
          ∷ letter (b % 16 * 4 + c / 64)
          ∷ letter (c % 64)
          ∷ cs)
        (at_start out)
      ≡ a2b_base64 cs (at_start (out ++ a ∷ b ∷ c ∷ []))
a2b_group a b c cs out ha hb hc =
    a2b_quad _ _ _ _ cs out (omega arith) (omega arith) (omega arith) (omega arith)
    ∙ ap (λ bytes. a2b_base64 cs (at_start bytes)) (bytes_joined a b c out ha hb hc)

-- The end of the text: nothing, or a group of two or three characters with its = signs.
a2b_none : (out : List ℕ) → a2b_base64 [] (at_start out) ≡ some out
unfolding a2b_base64
a2b_none out = refl

a2b_pair :
    (v w : ℕ) (out : List ℕ)
    → v < 64
    → w < 64
    → a2b_base64 (letter v ∷ letter w ∷ equals 2) (at_start out)
      ≡ some (out ++ (v * 4 + w / 16) ∷ [])
unfolding a2b_base64 feed
a2b_pair v w out hv hw =
    a2b-letter v (letter w ∷ equals 2) (at_start out) hv
    ∙ a2b-letter w (equals 2) (feed v (at_start out)) hw

a2b_two :
    (a : ℕ) (out : List ℕ)
    → a < 256
    → a2b_base64 (letter (a / 4) ∷ letter (a % 4 * 16) ∷ equals 2) (at_start out)
      ≡ some (out ++ a ∷ [])
a2b_two a out ha =
    let whole : a / 4 * 4 + a % 4 * 16 / 16 ≡ a = omega arith in
    a2b_pair (a / 4) (a % 4 * 16) out (omega arith) (omega arith)
    ∙ ap (λ n. some (out ++ n ∷ [])) whole

a2b_triple :
    (v w x : ℕ) (out : List ℕ)
    → v < 64
    → w < 64
    → x < 64
    → a2b_base64 (letter v ∷ letter w ∷ letter x ∷ equals 1) (at_start out)
      ≡ some (out ++ (v * 4 + w / 16) ∷ (w % 16 * 16 + x / 4) ∷ [])
unfolding a2b_base64 feed
a2b_triple v w x out hv hw hx =
    a2b-letter v (letter w ∷ letter x ∷ equals 1) (at_start out) hv
    ∙ a2b-letter w (letter x ∷ equals 1) (feed v (at_start out)) hw
    ∙ a2b-letter x (equals 1) (feed w (feed v (at_start out))) hx
    ∙ ap some (append_assoc out ((v * 4 + w / 16) ∷ []) ((w % 16 * 16 + x / 4) ∷ []))

a2b_three :
    (a b : ℕ) (out : List ℕ)
    → a < 256
    → b < 256
    → a2b_base64
        (letter (a / 4) ∷ letter (a % 4 * 16 + b / 16) ∷ letter (b % 16 * 4) ∷ equals 1)
        (at_start out)
      ≡ some (out ++ a ∷ b ∷ [])
a2b_three a b out ha hb =
    let first : a / 4 * 4 + (a % 4 * 16 + b / 16) / 16 ≡ a = omega arith in
    let second : (a % 4 * 16 + b / 16) % 16 * 16 + b % 16 * 4 / 4 ≡ b = omega arith in
    let read =
      a2b_triple (a / 4) (a % 4 * 16 + b / 16) (b % 16 * 4) out (omega arith) (omega arith)
        (omega arith) in
    read ∙ rw (first, second) refl

abbrev padding : List ℕ → List ℕ
padding text = equals ((4 - length text % 4) % 4)

padding_group : (v w x y : ℕ) (cs : List ℕ) → padding (v ∷ w ∷ x ∷ y ∷ cs) ≡ padding cs
padding_group v w x y cs =
    let same : suc (suc (suc (suc (length cs)))) % 4 ≡ length cs % 4 = omega arith in rw (same) refl

a2b-b64encode :
    (raw out : List ℕ)
    → All (λ n. n < 256) raw
    → a2b_base64 (b64encode raw ++ padding (b64encode raw)) (at_start out) ≡ some (out ++ raw)
unfolding b64encode
a2b-b64encode [] out h = a2b_none out ∙ ap some (sym (append-nil out))
a2b-b64encode (a ∷ []) out h = a2b_two a out h.0
a2b-b64encode (a ∷ b ∷ []) out h = a2b_three a b out h.0 h.1.0
a2b-b64encode (a ∷ b ∷ c ∷ rest) out h =
    ap (λ end. a2b_base64 (b64encode (a ∷ b ∷ c ∷ rest) ++ end) (at_start out))
      (padding_group (letter (a / 4)) (letter (a % 4 * 16 + b / 16)) (letter (b % 16 * 4 + c / 64))
        (letter (c % 64)) (b64encode rest))
    ∙ a2b_group a b c _ out h.0 h.1.0 h.1.1.0
    ∙ a2b-b64encode rest (out ++ a ∷ b ∷ c ∷ []) h.1.1.1
    ∙ ap some (append_assoc out (a ∷ b ∷ c ∷ []) rest)

-- The characters of the alphabet are ASCII, and none of them is a full stop or a dollar sign.
abbrev IsPlain : ℕ → Type 0
IsPlain c = (c < 128) × (b'-' ≤ c) × (c ≢ b'.')

letter-IsPlain : (v : ℕ) → v < 64 → IsPlain (letter v)
unfolding letter
letter-IsPlain v h = ground arith

b64encode-IsPlain : (raw : List ℕ) → All (λ n. n < 256) raw → All IsPlain (b64encode raw)
unfolding b64encode
b64encode-IsPlain [] h = tt
b64encode-IsPlain (a ∷ []) h =
    (letter-IsPlain (a / 4) (omega arith), (letter-IsPlain (a % 4 * 16) (omega arith), tt))
b64encode-IsPlain (a ∷ b ∷ []) h = (
  letter-IsPlain (a / 4) (omega arith),
  (
    letter-IsPlain (a % 4 * 16 + b / 16) (omega arith),
    (letter-IsPlain (b % 16 * 4) (omega arith), tt),
  ),
)
b64encode-IsPlain (a ∷ b ∷ c ∷ rest) h = (
  letter-IsPlain (a / 4) (omega arith),
  (
    letter-IsPlain (a % 4 * 16 + b / 16) (omega arith),
    (
      letter-IsPlain (b % 16 * 4 + c / 64) (omega arith),
      (letter-IsPlain (c % 64) (omega arith), b64encode-IsPlain rest h.1.1.1),
    ),
  ),
)

plain_ascii : (text : List ℕ) → All IsPlain text → is_ascii text ≡ true
plain_ascii [] h = refl
plain_ascii (c ∷ cs) h = ground (arith, plain_ascii cs)

plain_lacks :
    (sep : ℕ) (text : List ℕ)
    → (sep < b'-') ⊎ (sep ≡ b'.')
    → All IsPlain text
    → lacks sep text ≡ true
plain_lacks sep [] e h = refl
plain_lacks sep (c ∷ cs) e h = ground (arith, plain_lacks sep cs)

pub is_ascii-b64encode : (raw : List ℕ) → All (λ n. n < 256) raw → is_ascii (b64encode raw) ≡ true
is_ascii-b64encode raw h = plain_ascii (b64encode raw) (b64encode-IsPlain raw h)

pub lacks-b64encode :
    (sep : ℕ) (raw : List ℕ)
    → (sep < b'-') ⊎ (sep ≡ b'.')
    → All (λ n. n < 256) raw
    → lacks sep (b64encode raw) ≡ true
lacks-b64encode sep raw e h = plain_lacks sep (b64encode raw) e (b64encode-IsPlain raw h)

-- Decoding the unpadded base64 text of a list of bytes gives back those bytes.
pub b64decode-b64encode :
    (raw : List ℕ) → All (λ n. n < 256) raw → b64decode (b64encode raw) ≡ some raw
unfolding b64decode
b64decode-b64encode raw h = rw (is_ascii-b64encode raw h) (a2b-b64encode raw [] h)
