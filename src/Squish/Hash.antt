-- ===== src/Squish/Hash.antt =====
-- The hashes of the index, sq_hash.c.
pub mod Case
use Prim.Native.Nat.{bit_or}
use xmsgapi.Base.{List, [], if◌then◌else◌, leb, ℕ, ◌%◌, ◌&&◌, ◌*◌, ◌+◌, ◌/◌, ◌==◌, ◌^◌, ◌∷◌}
use xmsgapi.Base.Cmd.{Cmd, Run, fail, ok, stuck}
use xmsgapi.Base.Word.{add32, dword_mod}
use xmsgapi.Squish.Area.{Area, no_error, set_err}
use xmsgapi.Squish.Index.{sidx_get}
use xmsgapi.Squish.Sqidx.{Sqidx}

-- `tolower` of the C library in its "C" locale.
unfoldable pub tolower : ℕ → ℕ
tolower c = if leb 65 c && leb c 90 then c + 32 else c

-- A round of the loop. `g` is the four highest bits of `hash`.
unfoldable pub hash_round : ℕ → ℕ → ℕ
hash_round hash c =
    let sum = add32 (hash * 16 % dword_mod) (tolower c) in
    let g = sum / 2 ^ 28 * 2 ^ 28 in if g == 0 then sum else bit_or (bit_or sum (g / 2 ^ 24)) g

-- The loop over the bytes up to the terminating zero, which the end of the list stands for too.
unfoldable pub hash_loop : ℕ → List ℕ → ℕ
unfolding hash_round
hash_loop hash [] = hash
hash_loop hash (c ∷ f) = let rest = hash_loop (hash_round hash c) f in if c == 0 then hash else rest

-- SquishHash.
unfoldable pub squish_hash : List ℕ → ℕ
unfolding hash_loop
squish_hash f = hash_loop 0 f % 2 ^ 31

abbrev hash_or_0 : Run Area Sqidx → Run Area ℕ
hash_or_0 (ok r a) = ok r.hash (set_err no_error a)
hash_or_0 (fail a) = ok 0 a
hash_or_0 stuck = stuck

-- apiSquishGetHash.
unfoldable pub api_squish_get_hash : ℕ → Cmd Area ℕ
api_squish_get_hash dw_msg a = hash_or_0 (sidx_get dw_msg a)
