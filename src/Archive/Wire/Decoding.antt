-- ===== src/Archive/Wire/Decoding.antt =====
-- The base 64 of a piece can be read back.
use m5stack_core_s3se_dmx_co.Base.{
  ℕ, ◌+◌, ◌*◌, ◌/◌, ◌%◌, ◌≡◌, ◌≢◌, ◌<◌, ◌≤◌, Bool, true, some, List, [], ◌∷◌, arith, refl, length,
  All, ltb, if◌then◌else◌,
}
use m5stack_core_s3se_dmx_co.Archive.{Collection}
use m5stack_core_s3se_dmx_co.Archive.Wire.{
  digit, letter, base64, file_text, serialize, unbase64, decode_four, decode_loop, is_empty,
  chunk_size,
}

digit-letter : (n : ℕ) → n < 64 → digit (letter n) ≡ some n
unfolding digit letter
digit-letter n h = ground arith

letter-ne : (n : ℕ) → letter n ≢ b'='
unfolding letter
letter-ne n = ground arith

decode_three :
    (a b c : ℕ) (is_last : Bool)
    → a < 256
    → b < 256
    → c < 256
    → decode_four
        (letter (a / 4))
        (letter (a % 4 * 16 + b / 16))
        (letter (b % 16 * 4 + c / 64))
        (letter (c % 64))
        is_last
      ≡ some (a ∷ b ∷ c ∷ [])
unfolding decode_four
decode_three a b c is_last h k l = ground (
  arith,
  letter-ne (b % 16 * 4 + c / 64),
  letter-ne (c % 64),
  digit-letter (a / 4),
  digit-letter (a % 4 * 16 + b / 16),
  digit-letter (b % 16 * 4 + c / 64),
  digit-letter (c % 64),
)

decode_two :
    (a b : ℕ)
    → a < 256
    → b < 256
    → decode_four (letter (a / 4)) (letter (a % 4 * 16 + b / 16)) (letter (b % 16 * 4)) b'=' true
      ≡ some (a ∷ b ∷ [])
unfolding decode_four
decode_two a b h k = ground (
  arith,
  letter-ne (b % 16 * 4),
  digit-letter (a / 4),
  digit-letter (a % 4 * 16 + b / 16),
  digit-letter (b % 16 * 4),
)

decode_one :
    (a : ℕ)
    → a < 256
    → decode_four (letter (a / 4)) (letter (a % 4 * 16)) b'=' b'=' true ≡ some (a ∷ [])
unfolding decode_four
decode_one a h = ground (arith, digit-letter (a / 4), digit-letter (a % 4 * 16))

unfoldable pub IsByte : ℕ → Type 0
IsByte n = n < 256

decode_loop-base64 :
    (used : ℕ) (xs : List ℕ)
    → All IsByte xs
    → used + length xs ≤ chunk_size
    → decode_loop used (base64 xs) ≡ some xs
unfolding decode_loop base64 IsByte is_empty
decode_loop-base64 used [] p h = refl
decode_loop-base64 used (a ∷ []) p h = ground (arith, decode_one a p.0)
decode_loop-base64 used (a ∷ b ∷ []) p h = ground (arith, decode_two a b p.0 p.1.0)
decode_loop-base64 used (a ∷ b ∷ c ∷ s) p h = ground (
  arith,
  decode_three a b c (is_empty (base64 s)) p.0 p.1.0 p.1.1.0,
  decode_loop-base64 (used + 3) s p.1.1.1 (omega arith),
)

-- The length of the base 64 is a multiple of four, and at most 128 for a piece.
length-base64 :
    (xs : List ℕ)
    → (length (base64 xs) % 4 ≡ 0)
      × (3 * length (base64 xs) ≤ 4 * length xs + 8)
      × (length xs ≤ length (base64 xs))
unfolding base64
length-base64 [] = (refl, omega arith, omega arith)
length-base64 (a ∷ []) = (refl, omega arith, omega arith)
length-base64 (a ∷ b ∷ []) = (refl, omega arith, omega arith)
length-base64 (a ∷ b ∷ c ∷ s) = ground (arith, length-base64 s)

-- A piece of 1 to 96 bytes is read back from its base 64.
pub unbase64-base64 :
    (xs : List ℕ)
    → All IsByte xs
    → 1 ≤ length xs
    → length xs ≤ chunk_size
    → unbase64 (base64 xs) ≡ some xs
unfolding unbase64
unbase64-base64 xs p l h = ground (arith, length-base64 xs, decode_loop-base64 0 xs p (omega arith))

shorter : (s : List ℕ) (n : ℕ) → length (if ltb n (length s) then [] else s) ≤ n
shorter s n = ground arith

-- What is written of a collection fits the given size.
pub serialize-fits : (c : Collection) (n : ℕ) → length (serialize c n) ≤ n
unfolding serialize
serialize-fits c n = shorter (file_text c) n
