-- ===== src/Auth/Base64.antt =====
-- _b64encode and _b64decode of backend/common/auth.py, with what they use of Python's base64 module.
pub mod RoundTrip
use distributed_asynchronous.Auth.Text.{is_ascii}
use distributed_asynchronous.Prelude.{
  ℕ, zero, suc, ◌+◌, ◌-◌, ◌*◌, ◌/◌, ◌%◌, Bool, ◌&&◌, Option, none, some, List, [], ◌∷◌, ◌++◌, ltb,
  leb, ◌==◌, if◌then◌else◌, length,
}

-- The URL-safe alphabet: A-Z, a-z, 0-9, - and _.
unfoldable pub letter : ℕ → ℕ
letter v =
    if ltb v 26
    then v + 65
    else if ltb v 52
    then v + 71
    else if ltb v 62
    then v - 4
    else if v == 62
    then b'-'
    else b'_'

-- The value of a character, after urlsafe_b64decode has put + and / for - and _.
unfoldable pub value : ℕ → Option ℕ
value c =
    if leb b'A' c && leb c b'Z'
    then some (c - 65)
    else if leb b'a' c && leb c b'z'
    then some (c - 71)
    else if leb b'0' c && leb c b'9'
    then some (c + 4)
    else if c == b'-'
    then some 62
    else if c == b'+'
    then some 62
    else if c == b'_'
    then some 63
    else if c == b'/'
    then some 63
    else none

-- base64.urlsafe_b64encode(raw).rstrip(b"=")
unfoldable pub b64encode : List ℕ → List ℕ
unfolding letter
b64encode [] = []
b64encode (a ∷ []) = letter (a / 4) ∷ letter (a % 4 * 16) ∷ []
b64encode (a ∷ b ∷ []) = letter (a / 4) ∷ letter (a % 4 * 16 + b / 16) ∷ letter (b % 16 * 4) ∷ []
b64encode (a ∷ b ∷ c ∷ rest) =
    letter (a / 4)
    ∷ letter (a % 4 * 16 + b / 16)
    ∷ letter (b % 16 * 4 + c / 64)
    ∷ letter (c % 64)
    ∷ b64encode rest

-- The loop of binascii.a2b_base64: the place in the group of four, the bits left over, and the
-- number of = signs just read. A character outside the alphabet is skipped; = signs that complete
-- a group end the input; an incomplete group is an error.
pub record Decoder : Type 0 where
  pub quad_pos : ℕ
  pub leftchar : ℕ
  pub pads : ℕ
  pub out : List ℕ

abbrev pub initial : Decoder
initial = record { quad_pos = 0; leftchar = 0; pads = 0; out = [] }

unfoldable pub feed : ℕ → Decoder → Decoder
feed v d =
    if d.quad_pos == 0
    then record d { quad_pos = 1; leftchar = v; pads = 0 }
    else if d.quad_pos == 1
    then record d {
      quad_pos = 2;
      leftchar = v % 16;
      pads = 0;
      out = d.out ++ (d.leftchar * 4 + v / 16) ∷ [];
    }
    else if d.quad_pos == 2
    then record d {
      quad_pos = 3;
      leftchar = v % 4;
      pads = 0;
      out = d.out ++ (d.leftchar * 16 + v / 4) ∷ [];
    }
    else record { quad_pos = 0; leftchar = 0; pads = 0; out = d.out ++ (d.leftchar * 64 + v) ∷ [] }

abbrev finish : Decoder → Option (List ℕ)
finish d = if d.quad_pos == 0 then some d.out else none

-- An = sign counts from the third place of a group on.
abbrev padded : Decoder → Decoder
padded d = if leb 2 d.quad_pos then record d { pads = d.pads + 1 } else d

abbrev is_complete : Decoder → Bool
is_complete d = leb 2 d.quad_pos && leb 4 (d.quad_pos + d.pads)

abbrev feed_option : Option ℕ → Decoder → Decoder
feed_option none d = d
feed_option (some v) d = feed v d

unfoldable pub a2b_base64 : List ℕ → Decoder → Option (List ℕ)
unfolding value feed
a2b_base64 [] d = finish d
a2b_base64 (c ∷ cs) d =
    let more = a2b_base64 cs (if c == b'=' then padded d else feed_option (value c) d) in
    if c == b'=' && is_complete (padded d) then some d.out else more

abbrev pub equals : ℕ → List ℕ
equals zero = []
equals (suc n) = b'=' ∷ equals n

-- `none` where base64.urlsafe_b64decode raises ValueError: for text that is not ASCII, or
-- binascii.Error.
unfoldable pub b64decode : List ℕ → Option (List ℕ)
unfolding a2b_base64
b64decode text =
    if is_ascii text then a2b_base64 (text ++ equals ((4 - length text % 4) % 4)) initial else none
