-- ===== src/Identity/Fingerprint.antt =====
-- src/vpn_identity.rs, `VpnCertificateFingerprint`: 32 bytes, and their hexadecimal text, which is a
-- list of bytes here.
use flowweave.Prelude.{
  true, ap, ℕ, ◌+◌, ◌-◌, ◌*◌, ◌/◌, ◌%◌, ◌<◌, ◌≡◌, refl, arith, leb, ltb, ◌==◌, if◌then◌else◌, not,
  ◌&&◌, ◌||◌, all, List, [], ◌∷◌, length, All, IsByte, Result, ok, err, ◌>>=◌, ◌>>◌, fail_if,
}
use flowweave.Identity.Errors.{
  VpnIdentityError, invalid_fingerprint_hex, vpn_sha256_fingerprint_len,
}

unfoldable pub decode_hex : ℕ → Result ℕ VpnIdentityError
decode_hex value =
    if leb b'0' value && leb value b'9'
    then ok (value - b'0')
    else if leb b'a' value && leb value b'f'
    then ok (value - b'a' + 10)
    else if leb b'A' value && leb value b'F'
    then ok (value - b'A' + 10)
    else err invalid_fingerprint_hex

-- The loop of `parse_hex`, a pair of digits to a byte. `high << 4 | low` of two digits is their sum.
parse_pairs : List ℕ → Result (List ℕ) VpnIdentityError
parse_pairs [] = ok []
parse_pairs (a ∷ []) = ok []
parse_pairs (a ∷ b ∷ rest) = do
  high ← decode_hex a
  low ← decode_hex b
  bytes ← parse_pairs rest
  ok ((high * 16 + low) ∷ bytes)

unfoldable pub parse_hex : List ℕ → Result (List ℕ) VpnIdentityError
unfolding parse_pairs
parse_hex value = do
  fail_if (not (length value == vpn_sha256_fingerprint_len * 2) || not (all (λ c. ltb c 128) value))
      invalid_fingerprint_hex
  parse_pairs value

-- The digit of a number below 16: `HEX[i]`.
hex_digit : ℕ → ℕ
hex_digit i = if ltb i 10 then b'0' + i else b'a' + (i - 10)

unfoldable pub to_hex : List ℕ → List ℕ
unfolding hex_digit
to_hex [] = []
to_hex (byte ∷ rest) = hex_digit (byte / 16) ∷ hex_digit (byte % 16) ∷ to_hex rest

decode-hex_digit : (i : ℕ) → i < 16 → decode_hex (hex_digit i) ≡ ok i
unfolding decode_hex hex_digit
decode-hex_digit i h = ground arith

parse_pairs-to_hex : (bytes : List ℕ) → All IsByte bytes → parse_pairs (to_hex bytes) ≡ ok bytes
unfolding parse_pairs to_hex
parse_pairs-to_hex [] h = refl
parse_pairs-to_hex (b ∷ bs) (h, hs) =
    rw
      (
        decode-hex_digit (b / 16) (omega arith),
        decode-hex_digit (b % 16) (omega arith),
        parse_pairs-to_hex bs hs,
      )
      (ap (λ (x : ℕ). ok (x ∷ bs)) (omega arith))

length-to_hex : (bytes : List ℕ) → length (to_hex bytes) ≡ length bytes * 2
unfolding to_hex
length-to_hex [] = omega arith
length-to_hex (b ∷ bs) = omega (arith, length-to_hex bs)

hex_digit-ascii : (i : ℕ) → i < 16 → ltb (hex_digit i) 128 ≡ true
unfolding hex_digit
hex_digit-ascii i h = ground arith

all-to_hex : (bytes : List ℕ) → All IsByte bytes → all (λ c. ltb c 128) (to_hex bytes) ≡ true
unfolding to_hex
all-to_hex [] h = refl
all-to_hex (b ∷ bs) (h, hs) =
    rw (hex_digit-ascii (b / 16) (omega arith), hex_digit-ascii (b % 16) (omega arith))
      (all-to_hex bs hs)

-- The text of a fingerprint of 32 bytes is parsed to that fingerprint.
pub parse_hex-to_hex :
    (bytes : List ℕ)
    → All IsByte bytes
    → length bytes ≡ vpn_sha256_fingerprint_len
    → parse_hex (to_hex bytes) ≡ ok bytes
unfolding parse_hex
parse_hex-to_hex bytes bs h =
    rw (length-to_hex bytes, h, all-to_hex bytes bs) (parse_pairs-to_hex bytes bs)
