-- ===== src/Base/Word.antt =====
-- The machine words of typedefs.h on a machine whose `long` has 32 bits: `dword` is unsigned and
-- `long` is signed, both of 32 bits, and `word` is unsigned and has 16. A `long` is its bit
-- pattern.
use xmsgapi.Base.Tests.{leb, ltb, if◌then◌else◌}
use mathlib.Core.Bool.{Bool, true, false, ◌&&◌, ◌||◌}
use mathlib.Core.Path.{◌≡◌}
use native.Mathlib.Omega.{arith}
use Prim.Native.Nat.{ℕ, ◌+◌, ◌-◌, ◌%◌, ◌^◌, ◌≤◌, ◌<◌}

abbrev pub dword_mod : ℕ
dword_mod = 2 ^ 32

abbrev pub word_mod : ℕ
word_mod = 2 ^ 16

-- `(dword) -1`
abbrev pub dword_max : ℕ
dword_max = 0xffff_ffff

abbrev pub add32 : ℕ → ℕ → ℕ
add32 a b = (a + b) % dword_mod

-- `-` on ℕ stops at 0, so the modulus is added first.
abbrev pub sub32 : ℕ → ℕ → ℕ
sub32 a b = (a + dword_mod - b) % dword_mod

-- `a < b` on two values of type `long`.
abbrev pub slt : ℕ → ℕ → Bool
slt a b = if leb (2 ^ 31) a then ltb b (2 ^ 31) || ltb a b else ltb b (2 ^ 31) && ltb a b

abbrev pub min_of : ℕ → ℕ → ℕ
min_of a b = if ltb a b then a else b

abbrev pub IsDword : ℕ → Type 0
IsDword x = x < dword_mod

abbrev pub IsWord : ℕ → Type 0
IsWord x = x < word_mod

-- A `long` that is not negative.
abbrev pub IsLong : ℕ → Type 0
IsLong x = x < 2 ^ 31

-- Where neither side is negative the signed order is that of the numbers.
pub slt-lt : (a b : ℕ) → IsLong b → a < b → slt a b ≡ true
slt-lt a b hb h = ground arith

pub slt-le : (a b : ℕ) → IsLong a → b ≤ a → slt a b ≡ false
slt-le a b ha h = ground arith

abbrev pub IsByte : ℕ → Type 0
IsByte x = x < 256
