-- ===== src/Artifact/Gnu.antt =====
-- GNU checksum lines: the digits of some bytes, and how they are parsed.
use eks_hybrid.Base.{
  ℕ, ◌+◌, ◌/◌, ◌%◌, ◌<◌, ◌≡◌, refl, ap, false, ◌==◌, ltb, if◌then◌else◌, some, [], ◌∷◌, ◌++◌, All,
  arith, ok,
}
use eks_hybrid.Machine.{Bytes}
use eks_hybrid.Artifact.Checksum.{cut_space, hex_digit, decode_hex, parse_gnu_checksum}

-- the lower-case digit, as sha256sum prints it
abbrev pub hex_char : ℕ → ℕ
hex_char n = if ltb n 10 then 48 + n else 87 + n

abbrev pub encode_hex : Bytes → Bytes
encode_hex [] = []
encode_hex (b ∷ bs) = hex_char (b / 16) ∷ hex_char (b % 16) ∷ encode_hex bs

abbrev IsByte : ℕ → Type 0
IsByte b = b < 256

hex_digit-hex_char : (n : ℕ) → n < 16 → hex_digit (hex_char n) ≡ some n
hex_digit-hex_char n l = ground arith

hex_char-no_space : (n : ℕ) → hex_char n == 32 ≡ false
hex_char-no_space n = ground arith

decode_hex-encode_hex : (bs : Bytes) → All IsByte bs → decode_hex (encode_hex bs) ≡ ok bs
unfolding decode_hex
decode_hex-encode_hex [] a = refl
decode_hex-encode_hex (b ∷ bs) (l, a) =
    rw
      (
        hex_digit-hex_char (b / 16) (omega (arith, l)),
        hex_digit-hex_char (b % 16) (omega arith),
        decode_hex-encode_hex bs a,
      )
      (ap (λ x. ok (x ∷ bs)) (omega arith))

cut_space-encode_hex :
    (bs rest : Bytes) → cut_space (encode_hex bs ++ (32 ∷ rest)) ≡ some (encode_hex bs)
unfolding cut_space
cut_space-encode_hex [] rest = refl
cut_space-encode_hex (b ∷ bs) rest =
    rw (hex_char-no_space (b / 16), hex_char-no_space (b % 16), cut_space-encode_hex bs rest) refl

-- The digits of some bytes, a space and anything behind it are parsed as those bytes.
pub parse_gnu_checksum-encode_hex :
    (bs rest : Bytes) → All IsByte bs → parse_gnu_checksum (encode_hex bs ++ (32 ∷ rest)) ≡ ok bs
unfolding parse_gnu_checksum
parse_gnu_checksum-encode_hex bs rest a =
    rw (cut_space-encode_hex bs rest, parse_gnu_checksum) (decode_hex-encode_hex bs a)
