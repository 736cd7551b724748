-- ===== src/Base/Cmd.antt =====
-- Commands over a state `S`. The C functions return FALSE or -1 on an error and leave what they
-- have already changed as it is, so `fail` keeps the state too. `stuck` is no outcome of the C
-- code: a loop of the model ran out of its fuel.
use mathlib.Core.Bool.{Bool, true, false}

pub data Run (S A : Type 0) : Type 0 where
  ok : A → S → Run S A
  fail : S → Run S A
  stuck : Run S A

abbrev pub Cmd : Type 0 → Type 0 → Type 0
Cmd S A = S → Run S A

module _ {S : Type 0} where
  abbrev pub pure : {A : Type 0} → A → Cmd S A
  pure a s = ok a s

  abbrev pub and_then : {A B : Type 0} → Run S A → (A → Cmd S B) → Run S B
  and_then (ok a s) k = k a s
  and_then (fail s) k = fail s
  and_then stuck k = stuck

  infixl 5 ◌>>=◌ ◌>>◌
  abbrev pub ◌>>=◌ : {A B : Type 0} → Cmd S A → (A → Cmd S B) → Cmd S B
  m >>= k = λ s. and_then (m s) k

  abbrev pub ◌>>◌ : {A B : Type 0} → Cmd S A → Cmd S B → Cmd S B
  m >> n = m >>= λ _. n

  -- `rc = f(...)`: the caller goes on, with the outcome as a Boolean.
  abbrev pub caught : {A : Type 0} → Run S A → Run S Bool
  caught (ok a s) = ok true s
  caught (fail s) = ok false s
  caught stuck = stuck

  abbrev pub attempt : {A : Type 0} → Cmd S A → Cmd S Bool
  attempt m = λ s. caught (m s)

  abbrev pub get : Cmd S S
  get s = ok s s

  abbrev pub modify : (S → S) → Cmd S (Unit {0})
  modify f s = ok tt (f s)

  abbrev pub fail_with : {A : Type 0} → (S → S) → Cmd S A
  fail_with f s = fail (f s)

-- A command on a part of the state: `view` reads the part, `put` writes it back.
module _ {S T : Type 0} (view : T → S) (put : S → T → T) where
  abbrev pub lifted : {A : Type 0} → T → Run S A → Run T A
  lifted t (ok a s) = ok a (put s t)
  lifted t (fail s) = fail (put s t)
  lifted t stuck = stuck

  abbrev pub lift : {A : Type 0} → Cmd S A → Cmd T A
  lift m t = lifted t (m (view t))
