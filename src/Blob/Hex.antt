-- ===== src/Blob/Hex.antt =====
-- Go's encoding/hex, as internal/blob uses it.
use comeback.Prelude.{
  ℕ, ◌+◌, ◌*◌, ◌-◌, ◌/◌, ◌%◌, ◌<◌, ◌≡◌, refl, Bool, true, ◌&&◌, ◌||◌, Option, none, some, [], ◌∷◌,
  arith, All, leb, ltb, Bool-cases, inl, inr, if◌then◌else◌,
}
use comeback.Prelude.Go.{Bytes}
use mathlib.Core.Option

abbrev pub IsByte : ℕ → Type 0
IsByte b = b < 256

-- The digit for a value below 16, in lower case.
abbrev pub digit : ℕ → ℕ
digit d = if ltb d 10 then b'0' + d else b'a' + (d - 10)

unfoldable pub encode : Bytes → Bytes
encode [] = []
encode (b ∷ bs) = digit (b / 16) ∷ digit (b % 16) ∷ encode bs

-- fromHexChar
abbrev pub digit_value : ℕ → Option ℕ
digit_value c =
    if leb b'0' c && leb c b'9'
    then some (c - b'0')
    else if leb b'a' c && leb c b'f'
    then some (c - b'a' + 10)
    else if leb b'A' c && leb c b'F'
    then some (c - b'A' + 10)
    else none

abbrev pub byte_value : ℕ → ℕ → Option ℕ
byte_value hi lo = elim (digit_value hi) [
  | none ↦ none
  | some a ↦ Option.map (λ (b : ℕ). a * 16 + b) (digit_value lo)
]

-- hex.Decode: `none` is an error, for an odd length or for what is no digit.
unfoldable pub decode : Bytes → Option Bytes
decode [] = some []
decode (hi ∷ []) = none
decode (hi ∷ lo ∷ s) =
    let rest = decode s in
    elim (byte_value hi lo) [ none ↦ none | some b ↦ Option.map (λ (bs : Bytes). b ∷ bs) rest ]

-- [0-9a-f]
abbrev pub is_lower_digit : ℕ → Bool
is_lower_digit c = (leb b'0' c && leb c b'9') || (leb b'a' c && leb c b'f')

byte_value-digit : (b : ℕ) → IsByte b → byte_value (digit (b / 16)) (digit (b % 16)) ≡ some b
byte_value-digit b h = ground arith

pub decode-encode : (bs : Bytes) → All IsByte bs → decode (encode bs) ≡ some bs
unfolding encode decode
decode-encode [] h = refl
decode-encode (b ∷ bs) h = ground (arith, byte_value-digit b h.0, decode-encode bs h.1)

-- What a digit stands for is below 16, and the digit is found again.
value_digit :
    (c : ℕ)
    → is_lower_digit c ≡ true
    → (v : ℕ) × (digit_value c ≡ some v) × (v < 16) × (digit v ≡ c)
value_digit c h = elim (Bool-cases (leb b'0' c && leb c b'9')) [
  | inl e ↦ (c - b'0', ground arith, ground arith, ground arith)
  | inr e ↦ (c - b'a' + 10, ground arith, ground arith, ground arith)
]

-- Two digits are the digits of one byte.
pub byte_value-lower :
    (hi lo : ℕ)
    → is_lower_digit hi ≡ true
    → is_lower_digit lo ≡ true
    → (b : ℕ) × (byte_value hi lo ≡ some b)
      × IsByte b
      × (digit (b / 16) ≡ hi)
      × (digit (b % 16) ≡ lo)
byte_value-lower hi lo h k =
    let (a, va, la, da) = value_digit hi h in
    let (b, vb, lb, db) = value_digit lo k in
    let q : (a * 16 + b) / 16 ≡ a = omega arith in
    let r : (a * 16 + b) % 16 ≡ b = omega arith in
    (a * 16 + b, ground (arith, va, vb), omega arith, rw q da, rw r db)
