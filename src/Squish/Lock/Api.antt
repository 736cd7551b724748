-- ===== src/Squish/Lock/Api.antt =====
-- The locks of one user through apiSquishLock and apiSquishUnlock.
use mathlib.Core.Path.{subst}
use xmsgapi.Base.{
  ==→eq, Bool, Bool-cases, ap, arith, false, if-false, if-true, if◌then◌else◌, inl, inr, not, refl,
  suc, sym, true, ℕ, ◌+◌, ◌<◌, ◌==◌, ◌∙◌, ◌≡◌, ◌⊎◌,
}
use xmsgapi.Base.Cmd.{Cmd, Run, and_then, attempt, caught, fail, modify, ok, pure, stuck, ◌>>=◌}
use xmsgapi.Base.Word.{word_mod}
use xmsgapi.Squish.Area.{Area, nolock, refuse}
use xmsgapi.Squish.Index.{squish_begin_buffer, squish_end_buffer}
use xmsgapi.Squish.Lock.{
  api_squish_lock, api_squish_unlock, down16, squish_lock_base, squish_unlock_base, up16,
}
use xmsgapi.Squish.Lock.Buffers.{
  Leaves, SameLocks, squish_begin_buffer-SameLocks, squish_end_buffer-SameLocks,
}
use xmsgapi.Squish.Lock.Local.{
  Calls, IsConsistent, given_back, lock_count, locked, refused, squish_lock_base-cases, state_after,
  untouched,
}

-- What a call gives where it succeeds.
abbrev OnOk : (Area → Type 0) → Run Area (Unit {0}) → Type 0
OnOk P (ok _ b) = P b
OnOk P (fail b) = Unit {0}
OnOk P stuck = Unit {0}

-- apiSquishLock behind _SquishLockBase.
abbrev buffering : Unit {0} → Cmd Area (Unit {0})
buffering _ = do
  rc ← attempt squish_begin_buffer
  if rc then pure tt else (λ s. fail (squish_unlock_base s))

Leaves-to :
    (P Q : Area → Type 0)
    → ((b : Area) → P b → Q b)
    → (r : Run Area (Unit {0})) → Leaves P r
    → Leaves Q r
Leaves-to P Q f (ok _ b) h = f b h
Leaves-to P Q f (fail b) h = f b h
Leaves-to P Q f stuck h = tt

buffered :
    (P : Area → Type 0) (r : Run Area (Unit {0}))
    → Leaves P r
    → OnOk P
        (and_then (caught r) (λ rc. if rc then pure tt else (λ s. fail (squish_unlock_base s))))
buffered P (ok _ b) h = h
buffered P (fail b) h = tt
buffered P stuck h = tt

-- The first call counts one lock more, and the others none.
first_call :
    (a b : Area)
    → IsConsistent a
    → a.f_lock_func ≡ 0
    → (a.held ≡ true) ⊎ (a.os.lock_granted ≡ true)
    → SameLocks (locked (record a { f_lock_func = up16 a.f_lock_func })) b
    → Calls a b
first_call a b c zero_func prior same = record {
  consistent = record {
    locks =
        same.locked
        ∙ (count a.have_exclusive a.f_locked a.f_lock_func zero_func c.locks
            ∙ (λ i. lock_count (sym same.have i) (sym same.func i)));
    owns = λ h. same.held;
  };
  held = λ h. prior;
}
  where
    count :
        (have : Bool) (n func : ℕ)
        → func ≡ 0
        → n ≡ lock_count have func
        → up16 n ≡ lock_count have (up16 func)
    count have n func z e = ground (arith, z, e)

later_call :
    (a : Area) (func : ℕ)
    → IsConsistent a
    → (a.f_lock_func == 0) ≡ (func == 0)
    → Calls a (record a { f_lock_func = func })
later_call a func c same = record {
  consistent = record {
    locks = c.locks ∙ ap (λ t. (if a.have_exclusive then 1 else 0) + (if t then 0 else 1)) same;
    owns = c.owns;
  };
  held = λ h. inl h;
}

lock_ok :
    (a : Area) → IsConsistent a → a.f_lock_func + 1 < word_mod → OnOk (Calls a) (api_squish_lock a)
unfolding api_squish_lock
lock_ok a c few = elim (Bool-cases (a.f_lock_func == 0)) [
  | inl e ↦ subst (OnOk (Calls a)) (sym (if-false _ _ (ap not e))) (first e)
  | inr e ↦
      let more : (up16 a.f_lock_func == 0) ≡ false = ground (arith, few) in
      subst (OnOk (Calls a)) (sym (if-true _ _ (ap not e)))
        (later_call a (up16 a.f_lock_func) c (e ∙ sym more))
]
  where
    counted : Area
    counted = record a { f_lock_func = up16 a.f_lock_func }

    first :
        (a.f_lock_func == 0) ≡ true → OnOk (Calls a) (and_then (squish_lock_base counted) buffering)
    first e = elim (squish_lock_base-cases counted c.owns) [
      | inl (lock, prior) ↦
          subst (λ l. OnOk (Calls a) (and_then l buffering)) (sym lock)
            (buffered (Calls a) (squish_begin_buffer (locked counted)) (
              Leaves-to (SameLocks (locked counted)) (Calls a)
                (λ b same. first_call a b c (==→eq a.f_lock_func 0 e) prior same)
                (squish_begin_buffer (locked counted))
                (squish_begin_buffer-SameLocks (locked counted))))
      | inr lock ↦ subst (λ l. OnOk (Calls a) (and_then l buffering)) (sym lock) tt
    ]

-- A call of apiSquishLock that succeeds.
pub api_squish_lock-Calls :
    (a b : Area)
    → IsConsistent a
    → a.f_lock_func + 1 < word_mod
    → api_squish_lock a ≡ ok tt b
    → Calls a b
api_squish_lock-Calls a b c few run = subst (OnOk (Calls a)) run (lock_ok a c few)

-- apiSquishUnlock behind the end of the buffering.
unlocking :
    (a : Area)
    → IsConsistent a
    → (b : Area) → a.f_lock_func ≡ 1
    → SameLocks (record a { f_lock_func = down16 a.f_lock_func }) b
    → Calls a (squish_unlock_base b)
unlocking a c b one same =
    let func : b.f_lock_func ≡ 0 = same.func ∙ omega (arith, one) in
    let all : b.f_locked ≡ suc (lock_count b.have_exclusive b.f_lock_func) =
      same.locked
      ∙ (c.locks
          ∙ (count a.have_exclusive a.f_lock_func b.f_lock_func one func
              ∙ (λ i. suc (lock_count (sym same.have i) b.f_lock_func)))) in
    let held : a.held ≡ true = c.owns (λ z. absurd (omega (arith, z, all, same.locked))) in
    given_back a b all (small b.have_exclusive b.f_lock_func func) (same.held ∙ held) (inl held)
  where
    count : (have : Bool) (f g : ℕ) → f ≡ 1 → g ≡ 0 → lock_count have f ≡ suc (lock_count have g)
    count have f g e z = ground (arith, e, z)

    small : (have : Bool) (g : ℕ) → g ≡ 0 → lock_count have g < 2
    small have g z = ground (arith, z)

after_buffer :
    (a : Area) (P : Area → Type 0) (r : Run Area (Unit {0}))
    → Calls a a
    → ((b : Area) → P b → Calls a (squish_unlock_base b))
    → Leaves P r
    → Calls a (state_after a (and_then (caught r) (λ _. modify squish_unlock_base)))
after_buffer a P (ok _ b) same f h = f b h
after_buffer a P (fail b) same f h = f b h
after_buffer a P stuck same f h = same

-- The state behind the branch that was taken.
after_if :
    (a : Area) (t : Bool) (x y : Run Area (Unit {0}))
    → (t ≡ true → Calls a (state_after a x))
    → (t ≡ false → Calls a (state_after a y))
    → Calls a (state_after a (if t then x else y))
after_if a true x y h k = h refl
after_if a false x y h k = k refl

pub api_squish_unlock-Calls :
    (a : Area)
    → IsConsistent a
    → a.f_lock_func < word_mod
    → Calls a (state_after a (api_squish_unlock a))
unfolding api_squish_unlock
api_squish_unlock-Calls a c fits =
    let left = record a { f_lock_func = down16 a.f_lock_func } in
    let last : Run Area (Unit {0}) =
      and_then (caught (squish_end_buffer left)) (λ _. modify squish_unlock_base) in
    let fewer : Run Area (Unit {0}) =
      if not (down16 a.f_lock_func == 0) then ok tt left else last in
    after_if a (a.f_lock_func == 0) (refuse nolock a) fewer (λ _. refused a nolock c)
      (λ e.
        after_if a (not (down16 a.f_lock_func == 0)) (ok tt left) last
          (λ d. later_call a (down16 a.f_lock_func) c (e ∙ sym (not_true _ d)))
          (λ d.
            after_buffer a (SameLocks left) (squish_end_buffer left)
              (untouched a a c (record { have = refl; locked = refl; func = refl; held = refl }))
              (λ b same. unlocking a c b (last_func a.f_lock_func fits e (not_false _ d)) same)
              (squish_end_buffer-SameLocks left)))
  where
    last_func : (n : ℕ) → n < word_mod → (n == 0) ≡ false → (down16 n == 0) ≡ true → n ≡ 1
    last_func n small e d = ground (arith, small, e, d)

    not_true : (t : Bool) → not t ≡ true → t ≡ false
    not_true t h = ground (arith, h)

    not_false : (t : Bool) → not t ≡ false → t ≡ true
    not_false t h = ground (arith, h)
