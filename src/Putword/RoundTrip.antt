-- ===== src/Putword/RoundTrip.antt =====
-- Numbers put into a buffer and taken out of it, putword.c and putword.h.
use xmsgapi.Base.{List, arith, ℕ, ◌%◌, ◌++◌, ◌≡◌}
use xmsgapi.Base.Word.{IsDword, IsWord, dword_mod, word_mod}
use xmsgapi.Putword.{get_dword, get_word, put_dword, put_word}

-- A number of any size comes back modulo 2 ^ 32, whatever follows its bytes.
pub get_dword-put_dword_mod :
    (v : ℕ) (rest : List ℕ) → get_dword (put_dword v ++ rest) ≡ v % dword_mod
unfolding put_dword get_dword
get_dword-put_dword_mod v rest = omega arith

pub get_word-put_word_mod : (v : ℕ) (rest : List ℕ) → get_word (put_word v ++ rest) ≡ v % word_mod
unfolding put_word get_word
get_word-put_word_mod v rest = omega arith

pub get_dword-put_dword : (v : ℕ) (rest : List ℕ) → IsDword v → get_dword (put_dword v ++ rest) ≡ v
get_dword-put_dword v rest h = omega (arith, get_dword-put_dword_mod v rest)

pub get_word-put_word : (v : ℕ) (rest : List ℕ) → IsWord v → get_word (put_word v ++ rest) ≡ v
get_word-put_word v rest h = omega (arith, get_word-put_word_mod v rest)
