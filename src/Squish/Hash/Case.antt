-- ===== src/Squish/Hash/Case.antt =====
-- SquishHash of sq_hash.c and the case of letters.
use mathlib.Core.List.{map}
use xmsgapi.Base.{List, [], ap, arith, refl, sym, ℕ, ◌%◌, ◌<◌, ◌==◌, ◌^◌, ◌∙◌, ◌∷◌, ◌≡◌}
use xmsgapi.Squish.Hash.{hash_loop, hash_round, squish_hash, tolower}

tolower-tolower : (c : ℕ) → tolower (tolower c) ≡ tolower c
unfolding tolower
tolower-tolower c = ground arith

tolower-zero : (c : ℕ) → (tolower c == 0) ≡ (c == 0)
unfolding tolower
tolower-zero c = ground arith

hash_loop-tolower : (f : List ℕ) (hash : ℕ) → hash_loop hash (map tolower f) ≡ hash_loop hash f
unfolding hash_loop hash_round
hash_loop-tolower [] hash = refl
hash_loop-tolower (c ∷ f) hash =
    rw (tolower-zero c, tolower-tolower c, hash_loop-tolower f (hash_round hash c))

-- SquishHash is below 2 ^ 31 and does not see the case of letters: a text, the text in lower case,
-- and any other text that is the same in lower case have one hash.
pub squish_hash-tolower :
    (f g : List ℕ)
    → map tolower f ≡ map tolower g
    → (squish_hash f ≡ squish_hash g)
      × (squish_hash (map tolower f) ≡ squish_hash f)
      × (squish_hash f < 2 ^ 31)
unfolding squish_hash
squish_hash-tolower f g e = (
  ap (λ h. h % 2 ^ 31) (sym (hash_loop-tolower f 0) ∙ (ap (hash_loop 0) e ∙ hash_loop-tolower g 0)),
  ap (λ h. h % 2 ^ 31) (hash_loop-tolower f 0),
  omega arith,
)
