-- ===== src/Putword.antt =====
-- putword.c and the macros of putword.h in their portable form: 16 and 32 bit numbers, lowest byte
-- first. A pointer into a buffer is the rest of the buffer from there on.
pub mod RoundTrip
use xmsgapi.Base.{List, [], get_or, ℕ, ◌%◌, ◌*◌, ◌+◌, ◌/◌, ◌^◌, ◌∷◌}

-- The four bytes that `put_dword` stores: `(value >> 8 * i) & 0xff`.
unfoldable pub put_dword : ℕ → List ℕ
put_dword value =
    value % 256 ∷ value / 2 ^ 8 % 256 ∷ value / 2 ^ 16 % 256 ∷ value / 2 ^ 24 % 256 ∷ []

unfoldable pub put_word : ℕ → List ℕ
put_word value = value % 256 ∷ value / 2 ^ 8 % 256 ∷ []

-- `ptr[i]` of a byte buffer.
abbrev pub byte_at : List ℕ → ℕ → ℕ
byte_at ptr i = get_or ptr i 0

-- The bytes stand in disjoint bits, so `|` is `+` and `<<` is a product.
unfoldable pub get_dword : List ℕ → ℕ
get_dword ptr =
    byte_at ptr 0 + byte_at ptr 1 * 2 ^ 8 + byte_at ptr 2 * 2 ^ 16 + byte_at ptr 3 * 2 ^ 24

unfoldable pub get_word : List ℕ → ℕ
get_word ptr = byte_at ptr 0 + byte_at ptr 1 * 2 ^ 8
