-- ===== src/E2e/ProgramId.antt =====
-- Program and image ids, eight words of 32 bits: `program_id_to_core_bytes` of
-- e2e_tests/src/harness.rs, `hex_encode` of e2e_tests/src/bin/quickstart.rs and `image_id_hex` of
-- private_multisig_program/src/lib.rs.
use private_m_of_n_multisig.Common.{
  ℕ, zero, suc, ◌+◌, ◌-◌, ◌*◌, ◌/◌, ◌%◌, ◌^◌, ◌<◌, ◌≤◌, ◌≡◌, ◌⊎◌, refl, sym, ap, ◌∙◌, arith, List,
  [], ◌∷◌, ◌++◌, length, length-append, slice, slice-middle, append_assoc, ltb, if◌then◌else◌,
  get_or,
}
use private_m_of_n_multisig.Common.Bytes.{
  Bytes, All, IsByte, to_le_bytes, length-to_le_bytes, from_le_bytes-to_le_bytes,
}
use private_m_of_n_multisig.Verifier.Handlers.{program_words}

-- Each word's four little-endian bytes, at the positions 4 i to 4 i + 4.
unfoldable pub program_id_to_core_bytes : List ℕ → Bytes
program_id_to_core_bytes [] = []
program_id_to_core_bytes (word ∷ rest) = to_le_bytes 4 word ++ program_id_to_core_bytes rest

-- `image_id_to_account_id` of quickstart.rs, the same loop.
unfoldable pub image_id_to_account_id : List ℕ → Bytes
image_id_to_account_id [] = []
image_id_to_account_id (word ∷ rest) = to_le_bytes 4 word ++ image_id_to_account_id rest

-- `b"0123456789abcdef"`
abbrev hex_digits : Bytes
hex_digits =
    b'0' ∷ b'1' ∷ b'2' ∷ b'3' ∷ b'4' ∷ b'5' ∷ b'6' ∷ b'7' ∷ b'8' ∷ b'9' ∷ b'a' ∷ b'b' ∷ b'c' ∷ b'd'
    ∷ b'e' ∷ b'f' ∷ []

-- `HEX[(b >> 4) as usize]` and `HEX[(b & 0x0F) as usize]`
unfoldable pub hex_encode : Bytes → Bytes
hex_encode [] = []
hex_encode (b ∷ bs) = get_or hex_digits (b / 16) 0 ∷ get_or hex_digits (b % 16) 0 ∷ hex_encode bs

-- One digit of `{:x}`: from `0` or from `a` on.
abbrev digit : ℕ → ℕ
digit d = if ltb d 10 then b'0' + d else b'a' + (d - 10)

-- `write!(out, "{:02x}", b)` for each byte of each word.
unfoldable pub write_bytes : Bytes → Bytes
write_bytes [] = []
write_bytes (b ∷ bs) = digit (b / 16) ∷ digit (b % 16) ∷ write_bytes bs

unfoldable pub image_id_hex : List ℕ → Bytes
unfolding write_bytes
image_id_hex [] = []
image_id_hex (word ∷ rest) = write_bytes (to_le_bytes 4 word) ++ image_id_hex rest

length-program_id_to_core_bytes :
    (id : List ℕ) → length (program_id_to_core_bytes id) ≡ 4 * length id
unfolding program_id_to_core_bytes
length-program_id_to_core_bytes [] = refl
length-program_id_to_core_bytes (w ∷ rest) = omega (
  arith,
  length-append (to_le_bytes 4 w) (program_id_to_core_bytes rest),
  length-to_le_bytes 4 w,
  length-program_id_to_core_bytes rest,
)

-- The words behind any prefix of whole words.
program_words_past :
    (id : List ℕ) (i : ℕ) (before : Bytes)
    → length before ≡ i * 4
    → All (λ w. w < 2 ^ 32) id
    → program_words (before ++ program_id_to_core_bytes id) i (length id) ≡ id
unfolding program_words program_id_to_core_bytes
program_words_past [] i before hb ws = refl
program_words_past (w ∷ rest) i before hb ws =
    let bytes = to_le_bytes 4 w in
    let here : slice (before ++ (bytes ++ program_id_to_core_bytes rest)) (i * 4) (i * 4 + 4)
        ≡ bytes =
      slice-middle (i * 4) 4 before bytes (program_id_to_core_bytes rest) hb
        (length-to_le_bytes 4 w) in
    let next : length (before ++ bytes) ≡ (i + 1) * 4 =
      omega (arith, length-append before bytes, length-to_le_bytes 4 w, hb) in
    let rest_bytes = program_id_to_core_bytes rest in
    let later : program_words (before ++ (bytes ++ rest_bytes)) (i + 1) (length rest) ≡ rest =
      ap (λ (b : Bytes). program_words b (i + 1) (length rest))
        (sym (append_assoc before bytes rest_bytes))
      ∙ program_words_past rest (i + 1) (before ++ bytes) next ws.1 in
    rw (here, from_le_bytes-to_le_bytes 4 w ws.0, later) refl

-- A program id of eight 32-bit words that the harness turns into bytes is the one that `execute`
-- reads back from those bytes.
pub program_words-program_id_to_core_bytes :
    (id : List ℕ)
    → length id ≡ 8
    → All (λ w. w < 2 ^ 32) id
    → program_words (program_id_to_core_bytes id) 0 8 ≡ id
program_words-program_id_to_core_bytes id h ws = rw h at (program_words_past id 0 [] refl ws)

-- A digit of lowercase hexadecimal, and what two of them stand for.
abbrev pub IsHexDigit : ℕ → Type 0
IsHexDigit c = ((b'0' ≤ c) × (c ≤ b'9')) ⊎ ((b'a' ≤ c) × (c ≤ b'f'))

abbrev pub value : ℕ → ℕ
value c = if ltb c b'a' then c - b'0' else c - b'a' + 10

unfoldable pub from_hex : Bytes → Bytes
from_hex [] = []
from_hex (x ∷ []) = []
from_hex (x ∷ y ∷ rest) = (value x * 16 + value y) ∷ from_hex rest

digit_lem : (d : ℕ) → d < 16 → IsHexDigit (digit d) × (value (digit d) ≡ d)
digit_lem d h = ground arith

to_le_bytes-IsByte : (n x : ℕ) → All IsByte (to_le_bytes n x)
unfolding to_le_bytes
to_le_bytes-IsByte zero x = tt
to_le_bytes-IsByte (suc n) x = (omega arith, to_le_bytes-IsByte n (x / 256))

All-append : (P : ℕ → Type 0) (xs ys : Bytes) → All P xs → All P ys → All P (xs ++ ys)
All-append P [] ys hx hy = hy
All-append P (x ∷ xs) ys hx hy = (hx.0, All-append P xs ys hx.1 hy)

-- What `write_bytes` appends for bytes is read back before whatever follows.
write_bytes_lem :
    (bs rest : Bytes)
    → All IsByte bs
    → (length (write_bytes bs) ≡ 2 * length bs)
      × All IsHexDigit (write_bytes bs)
      × (from_hex (write_bytes bs ++ rest) ≡ bs ++ from_hex rest)
unfolding write_bytes from_hex
write_bytes_lem [] rest h = (refl, tt, refl)
write_bytes_lem (b ∷ bs) rest h =
    let (size, digits, back) = write_bytes_lem bs rest h.1 in
    let high = digit_lem (b / 16) (omega (arith, h.0)) in
    let low = digit_lem (b % 16) (omega arith) in
    let byte : value (digit (b / 16)) * 16 + value (digit (b % 16)) ≡ b =
      omega (arith, high.1, low.1) in
    let joined : from_hex (write_bytes (b ∷ bs) ++ rest) ≡ b ∷ (bs ++ from_hex rest) =
      λ i. byte i ∷ back i in
    (omega (arith, size), (high.0, (low.0, digits)), joined)

-- `image_id_hex` of any number of words is a text of eight lowercase hexadecimal digits for each
-- word, which reads back as the bytes that `program_id_to_core_bytes` gives for the words.
pub image_id_hex-from_hex :
    (id : List ℕ)
    → (length (image_id_hex id) ≡ 8 * length id)
      × All IsHexDigit (image_id_hex id)
      × (from_hex (image_id_hex id) ≡ program_id_to_core_bytes id)
unfolding image_id_hex program_id_to_core_bytes from_hex
image_id_hex-from_hex [] = (refl, tt, refl)
image_id_hex-from_hex (w ∷ rest) =
    let (size, digits, back) = image_id_hex-from_hex rest in
    let (here, shown, read) =
      write_bytes_lem (to_le_bytes 4 w) (image_id_hex rest) (to_le_bytes-IsByte 4 w) in
    (
      omega (
        arith,
        length-append (write_bytes (to_le_bytes 4 w)) (image_id_hex rest),
        size,
        here,
        length-to_le_bytes 4 w,
      ),
      All-append IsHexDigit (write_bytes (to_le_bytes 4 w)) (image_id_hex rest) shown digits,
      read ∙ ap (λ (l : Bytes). to_le_bytes 4 w ++ l) back,
    )
