-- ===== src/Artifact/Checksum.antt =====
-- internal/artifact/checksum.go
use eks_hybrid.Base.{
  ℕ, ◌+◌, ◌*◌, ◌-◌, Bool, true, false, ◌&&◌, Option, none, some, [], ◌∷◌, leb, ◌==◌, if◌then◌else◌,
  errorf, Result, ok, err,
}
use eks_hybrid.Machine.{Bytes, Host, Source}

-- bytes.Equal
unfoldable pub bytes_eq : Bytes → Bytes → Bool
bytes_eq [] [] = true
bytes_eq [] (y ∷ ys) = false
bytes_eq (x ∷ xs) [] = false
bytes_eq (x ∷ xs) (y ∷ ys) = (x == y) && bytes_eq xs ys

-- strings.Cut at the first space: what stands before it, if there is one
unfoldable pub cut_space : Bytes → Option Bytes
cut_space [] = none
cut_space (c ∷ cs) =
    let rest = cut_space cs in
    if c == b' ' then some [] else elim rest [ none ↦ none | some ds ↦ some (c ∷ ds) ]

abbrev pub hex_digit : ℕ → Option ℕ
hex_digit c =
    if leb b'0' c && leb c b'9'
    then some (c - b'0')
    else if leb b'a' c && leb c b'f'
    then some (c - b'a' + 10)
    else if leb b'A' c && leb c b'F'
    then some (c - b'A' + 10)
    else none

abbrev pub hex_pair : Option ℕ → Option ℕ → Result Bytes → Result Bytes
hex_pair (some a) (some b) (ok bs) = ok ((a * 16 + b) ∷ bs)
hex_pair (some a) (some b) (err e) = err e
hex_pair _ _ _ = err (errorf "encoding/hex: invalid byte")

-- hex.DecodeString
unfoldable pub decode_hex : Bytes → Result Bytes
decode_hex [] = ok []
decode_hex (c ∷ []) = elim (hex_digit c) [
  | some _ ↦ err (errorf "encoding/hex: odd length hex string")
  | none ↦ err (errorf "encoding/hex: invalid byte")
]
decode_hex (c ∷ d ∷ cs) = hex_pair (hex_digit c) (hex_digit d) (decode_hex cs)

unfoldable pub parse_gnu_checksum : Bytes → Result Bytes
unfolding cut_space decode_hex
parse_gnu_checksum text = elim (cut_space text) [
  | none ↦ err (errorf "invalid gnu checksum")
  | some ch ↦ decode_hex ch
]

module _ (h : Host) where
  -- VerifyChecksum of a source that was read to its end
  unfoldable pub verify_checksum : Source → Bool
  unfolding bytes_eq
  verify_checksum src = bytes_eq (h.sha256 src.contents) src.expected
