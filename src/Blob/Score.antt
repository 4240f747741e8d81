-- ===== src/Blob/Score.antt =====
-- internal/blob/score.go: scores and their hex form.
use comeback.Prelude.{
  ℕ, ◌*◌, ◌≡◌, refl, Bool, true, ◌&&◌, [], ◌∷◌, arith, All, length, ◌==◌, Option, none, some,
  if◌then◌else◌, not,
}
use comeback.Prelude.Go.{Bytes, message, Result, ok, err}
use comeback.Blob.Hex.{
  IsByte, encode, decode, is_lower_digit, byte_value, byte_value-lower, decode-encode,
}

abbrev pub score_length : ℕ
score_length = 20

-- A `Score` is an array of 20 bytes.
abbrev pub Score : Type 0
Score = Bytes

abbrev pub IsScore : Score → Type 0
IsScore s = (length s ≡ score_length) × All IsByte s

-- A hash function of 20-byte output; the program uses SHA-1.
pub record Hash : Type 0 where
  pub sum : Bytes → Bytes
  pub sum_IsScore : (b : Bytes) → IsScore (sum b)

-- The panic is for an output of another length.
unfoldable pub compute_score : Hash → Bytes → Result Score
compute_score h b = if length (h.sum b) == score_length then ok (h.sum b) else Result.panic

-- hexScoreRegexp: `^[0-9a-f]{40}$`
abbrev pub all_lower_digits : Bytes → Bool
all_lower_digits [] = true
all_lower_digits (c ∷ s) = is_lower_digit c && all_lower_digits s

unfoldable pub matches_hex_score : Bytes → Bool
matches_hex_score s = length s == 2 * score_length && all_lower_digits s

unfoldable pub parse_hex_score : Bytes → Result Score
unfolding matches_hex_score
parse_hex_score s =
    if not (matches_hex_score s) then err (message "Not a legal hex score") else elim (decode s) [
      | none ↦ err (message "Unexpected hex.Decode output")
      | some bs ↦
          if length bs == score_length then ok bs else err (message "Unexpected hex.Decode output")
    ]

unfoldable pub hex : Score → Bytes
hex s = encode s

pub length-encode : (bs : Bytes) → length (encode bs) ≡ 2 * length bs
unfolding encode
length-encode [] = refl
length-encode (b ∷ bs) = omega (arith, length-encode bs)

encode-lower : (bs : Bytes) → All IsByte bs → all_lower_digits (encode bs) ≡ true
unfolding encode
encode-lower [] h = refl
encode-lower (b ∷ bs) h = ground (arith, encode-lower bs h.1)

-- A score, of twenty bytes, is read back from its hex form.
pub parse_hex_score-hex : (s : Score) → IsScore s → parse_hex_score (hex s) ≡ ok s
unfolding parse_hex_score hex
parse_hex_score-hex s h = ground (arith, decode-encode s h.1, encode-lower s h.1, length-encode s)

decode-some :
    (hi lo b : ℕ) (t bs cs : Bytes)
    → byte_value hi lo ≡ some b
    → decode t ≡ some cs
    → decode (hi ∷ lo ∷ t) ≡ some bs
    → bs ≡ b ∷ cs
unfolding decode
decode-some hi lo b t bs cs h k e = ground arith

decode-cases :
    (hi lo : ℕ) (t bs : Bytes)
    → decode (hi ∷ lo ∷ t) ≡ some bs
    → (cs : Bytes) × (decode t ≡ some cs)
unfolding decode
decode-cases hi lo t bs e = go (decode t) refl
  where
    go : (o : Option Bytes) → decode t ≡ o → (cs : Bytes) × (decode t ≡ some cs)
    go none h = absurd (ground arith)
    go (some cs) h = (cs, h)

-- What is decoded from lower-case digits is encoded to the same digits.
encode-decode :
    (t bs : Bytes)
    → all_lower_digits t ≡ true
    → decode t ≡ some bs
    → (encode bs ≡ t) × All IsByte bs
unfolding encode
encode-decode [] bs h e = unfold decode in ground arith
encode-decode (c ∷ []) bs h e = unfold decode in cc
encode-decode (hi ∷ lo ∷ t) bs h e =
    let (b, v, byte, dh, dl) = byte_value-lower hi lo (ground arith) (ground arith) in
    let (cs, k) = decode-cases hi lo t bs e in
    let p = decode-some hi lo b t bs cs v k e in
    let (q, all) = encode-decode t cs (ground arith) k in
    (rw p (ground (arith, dh, dl, q)), rw p (byte, all))

-- A text that parses is the hex form of the score that is found, which has twenty bytes.
pub hex-parse_hex_score :
    (t : Bytes) (s : Score) → parse_hex_score t ≡ ok s → (hex s ≡ t) × IsScore s
unfolding parse_hex_score hex
hex-parse_hex_score t s e = go (decode t) refl
  where
    go : (o : Option Bytes) → decode t ≡ o → (hex s ≡ t) × IsScore s
    go none h = absurd (ground arith)
    go (some bs) h =
        let p : bs ≡ s = ground arith in
        let (q, all) = encode-decode t bs (ground arith) h in
        (rw (← p) q, (ground arith, rw (← p) all))
