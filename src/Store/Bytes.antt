-- ===== src/Store/Bytes.antt =====
-- internal/store/types.go: status bytes, the checksum and the big-endian encodings.
-- A []byte, and a Go string used as an id, is a list of numbers below 256.
use josefina.Prelude.{
  ℕ, zero, suc, ◌+◌, ◌*◌, ◌/◌, ◌%◌, ◌^◌, ◌<◌, ◌≡◌, refl, bit_xor, List, [], ◌∷◌, ◌++◌, arith, ◌==◌,
  if◌then◌else◌,
}

abbrev pub Bytes : Type 0
Bytes = List ℕ

abbrev pub IsByte : ℕ → Type 0
IsByte b = b < 256

abbrev pub active : ℕ
active = 1

abbrev pub deleted : ℕ
deleted = 2

-- hash/crc32 with the Castagnoli polynomial, in its reflected form.
abbrev castagnoli : ℕ
castagnoli = 0x82f63b78

crc_bits : ℕ → ℕ → ℕ
crc_bits zero c = c
crc_bits (suc n) c = crc_bits n (if c % 2 == 1 then bit_xor (c / 2) castagnoli else c / 2)

crc_loop : ℕ → Bytes → ℕ
unfolding crc_bits
crc_loop c [] = c
crc_loop c (b ∷ bs) = crc_loop (crc_bits 8 (bit_xor c b)) bs

unfoldable pub checksum : Bytes → ℕ
unfolding crc_loop
checksum b = bit_xor (crc_loop 0xffff_ffff b) 0xffff_ffff % 2 ^ 32

unfoldable pub put_uint32 : ℕ → Bytes
put_uint32 v = (v / 2 ^ 24 % 256) ∷ (v / 2 ^ 16 % 256) ∷ (v / 2 ^ 8 % 256) ∷ (v % 256) ∷ []

unfoldable pub put_uint16 : ℕ → Bytes
put_uint16 v = (v / 2 ^ 8 % 256) ∷ (v % 256) ∷ []

unfoldable pub put_uint64 : ℕ → Bytes
unfolding put_uint32
put_uint64 v = put_uint32 (v / 2 ^ 32) ++ put_uint32 (v % 2 ^ 32)

-- Go panics on a slice that is too short; every call in the package passes one that is long enough.
unfoldable pub get_uint32 : Bytes → ℕ
get_uint32 (a ∷ b ∷ c ∷ d ∷ _) = a * 2 ^ 24 + b * 2 ^ 16 + c * 2 ^ 8 + d
get_uint32 _ = 0

unfoldable pub get_uint16 : Bytes → ℕ
get_uint16 (a ∷ b ∷ _) = a * 2 ^ 8 + b
get_uint16 _ = 0

unfoldable pub get_uint64 : Bytes → ℕ
unfolding get_uint32
get_uint64 (a ∷ b ∷ c ∷ d ∷ rest) = get_uint32 (a ∷ b ∷ c ∷ d ∷ []) * 2 ^ 32 + get_uint32 rest
get_uint64 _ = 0

pub checksum-lt : (b : Bytes) → checksum b < 2 ^ 32
unfolding checksum
checksum-lt b = omega arith

pub get_uint32-put_uint32 :
    (v : ℕ) (rest : Bytes) → v < 2 ^ 32 → get_uint32 (put_uint32 v ++ rest) ≡ v
unfolding get_uint32 put_uint32
get_uint32-put_uint32 v rest h = omega arith

pub get_uint16-put_uint16 :
    (v : ℕ) (rest : Bytes) → v < 2 ^ 16 → get_uint16 (put_uint16 v ++ rest) ≡ v
unfolding get_uint16 put_uint16
get_uint16-put_uint16 v rest h = omega arith

pub get_uint64-put_uint64 :
    (v : ℕ) (rest : Bytes) → v < 2 ^ 64 → get_uint64 (put_uint64 v ++ rest) ≡ v
unfolding get_uint64 put_uint64
get_uint64-put_uint64 v rest h = omega arith

-- The check value of CRC-32C: the checksum of "123456789".
checksum_check : checksum (49 ∷ 50 ∷ 51 ∷ 52 ∷ 53 ∷ 54 ∷ 55 ∷ 56 ∷ 57 ∷ []) ≡ 0xe306_9283
unfolding checksum
checksum_check = refl
