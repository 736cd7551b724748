-- ===== src/Squish/Lock/Local.antt =====
-- The locks of one user through the functions of sq_lock.c.
use mathlib.Core.Path.{subst}
use xmsgapi.Base.{
  ==_false→ne, Bool, Bool-cases, Option, ap, arith, false, if-false, if-true, if◌then◌else◌, inl,
  inr, none, not, refl, some, suc, sym, true, ℕ, ◌+◌, ◌<◌, ◌==◌, ◌∙◌, ◌≡◌, ◌≢◌, ◌⊎◌,
}
use xmsgapi.Base.Cmd.{Cmd, Run, and_then, caught, fail, modify, ok, pure, stuck, ◌>>◌}
use xmsgapi.File.{File, seek}
use xmsgapi.Kludge.{before}
use xmsgapi.Squish.Area.{Area, Merr, badf, nods, nolock, refuse, share}
use xmsgapi.Squish.BaseHeader.{Sqbase, read_sqbase, write_sqbase}
use xmsgapi.Squish.Lock.{
  base_or_err, squish_copy_base_to_data, squish_copy_data_to_base, squish_exclusive_begin,
  squish_exclusive_end, squish_lock_base, squish_read_base_header, squish_unlock_base,
  squish_write_base_header, taken_over, up16,
}
use xmsgapi.Squish.Lock.Buffers.{SameLocks}
use xmsgapi.Squish.Lock.Laws.{held_after, squish_unlock_base_lem}

-- The state that a call leaves; `stuck` leaves none, and here the one before the call.
abbrev pub state_after : {A : Type 0} → Area → Run Area A → Area
state_after a (ok _ b) = b
state_after a (fail b) = b
state_after a stuck = a

-- The locks that a user counts: one for exclusive access, and one for all calls of apiSquishLock.
abbrev pub lock_count : Bool → ℕ → ℕ
lock_count have func = (if have then 1 else 0) + (if func == 0 then 0 else 1)

-- The count is right, and with a count the user holds the lock on the file.
pub record IsConsistent (a : Area) : Type 0 where
  pub locks : a.f_locked ≡ lock_count a.have_exclusive a.f_lock_func
  pub owns : a.f_locked ≢ 0 → a.held ≡ true

-- What a call does to the locks: a lock on the file that was not held is granted by the system.
pub record Calls (a b : Area) : Type 0 where
  pub consistent : IsConsistent b
  pub held : b.held ≡ true → (a.held ≡ true) ⊎ (a.os.lock_granted ≡ true)

-- A call that leaves the locks alone.
pub untouched : (a b : Area) → IsConsistent a → SameLocks a b → Calls a b
untouched a b c same = record {
  consistent = record {
    locks = same.locked ∙ (c.locks ∙ (λ i. lock_count (sym same.have i) (sym same.func i)));
    owns = λ h. same.held ∙ c.owns (λ z. h (same.locked ∙ z));
  };
  held = λ h. inl (sym same.held ∙ h);
}

pub refused : (a : Area) (e : Merr) → IsConsistent a → Calls a (record a { err = e })
refused a e c = untouched a _ c (record { have = refl; locked = refl; func = refl; held = refl })

-- The area behind a granted _SquishLockBase.
abbrev pub locked : Area → Area
locked a = record a { f_locked = up16 a.f_locked; held = true }

pub squish_lock_base-cases :
    (a : Area)
    → (a.f_locked ≢ 0 → a.held ≡ true)
    → (squish_lock_base a ≡ ok tt (locked a)) × ((a.held ≡ true) ⊎ (a.os.lock_granted ≡ true))
      ⊎ (squish_lock_base a ≡ refuse share a)
unfolding squish_lock_base
squish_lock_base-cases a owns = elim (Bool-cases (a.f_locked == 0)) [
  | inl e ↦
      let first : not (a.f_locked == 0) ≡ false = ap not e in
      elim (Bool-cases a.os.lock_granted) [
        | inl g ↦ inl (if-false _ _ first ∙ if-true _ _ g, inr g)
        | inr g ↦ inr (if-false _ _ first ∙ if-false _ _ g)
      ]
  | inr e ↦
      let held : a.held ≡ true = owns (==_false→ne a.f_locked 0 e) in
      inl (
        if-true _ _ (ap not e)
            ∙ ap (λ h. ok tt (record a { f_locked = up16 a.f_locked; held = h })) held,
        inl held,
      )
]

-- _SquishUnlockBase on a count that is not 0.
unlocked :
    (c : Area) (n : ℕ)
    → c.f_locked ≡ suc n
    → n < 2
    → c.held ≡ true
    → ((squish_unlock_base c).f_locked ≡ n) × (n ≢ 0 → (squish_unlock_base c).held ≡ true)
unlocked c n e small held =
    let u = squish_unlock_base_lem c in
    (
      ap (λ q. q.f_locked) u ∙ omega (arith, e, small),
      λ ne. ap (λ q. q.held) u ∙ still c n e small held ne,
    )
  where
    still :
        (c : Area) (n : ℕ)
        → c.f_locked ≡ suc n
        → n < 2
        → c.held ≡ true
        → n ≢ 0
        → held_after c ≡ true
    still c n e small held ne = ground (arith, e, small, held, ne)

-- A lock is given up: `n` are left, those that the other fields count.
released_lock :
    (a c : Area) (have : Bool)
    → c.f_locked ≡ suc (lock_count have c.f_lock_func)
    → lock_count have c.f_lock_func < 2
    → c.held ≡ true
    → (a.held ≡ true) ⊎ (a.os.lock_granted ≡ true)
    → Calls a (record (squish_unlock_base c) { have_exclusive = have })
released_lock a c have e small held before =
    let (left, owns) = unlocked c _ e small held in
    let u = squish_unlock_base_lem c in
    record {
      consistent = record {
        locks = left ∙ ap (λ q. lock_count have q.f_lock_func) (sym u);
        owns = λ h. owns (λ z. h (left ∙ z));
      };
      held = λ _. before;
    }

-- The same where exclusive access stays as it is.
pub given_back :
    (a c : Area)
    → c.f_locked ≡ suc (lock_count c.have_exclusive c.f_lock_func)
    → lock_count c.have_exclusive c.f_lock_func < 2
    → c.held ≡ true
    → (a.held ≡ true) ⊎ (a.os.lock_granted ≡ true)
    → Calls a (squish_unlock_base c)
given_back a c e small held before =
    let same : c.have_exclusive ≡ (squish_unlock_base c).have_exclusive =
      sym (ap (λ q. q.have_exclusive) (squish_unlock_base_lem c)) in
    released_lock a c (squish_unlock_base c).have_exclusive
      (e ∙ ap (λ h. suc (lock_count h c.f_lock_func)) same)
      (subst (λ h. lock_count h c.f_lock_func < 2) same small) held before

one_more_lock :
    (a : Area)
    → IsConsistent a
    → a.have_exclusive ≡ false
    → up16 a.f_locked ≡ suc (lock_count false a.f_lock_func)
one_more_lock a c idle =
    let e : a.f_locked ≡ lock_count false a.f_lock_func =
      c.locks ∙ ap (λ h. lock_count h a.f_lock_func) idle in
    ground (arith, e)

pub two_locks : (func : ℕ) → suc (lock_count false func) ≡ lock_count true func
two_locks func = omega arith

pub count_small : (func : ℕ) → lock_count false func < 2
count_small func = ground arith

-- The rest of _SquishExclusiveBegin, with what was read of the header.
took_over :
    (a : Area) (f : File) (got : Option Sqbase)
    → IsConsistent a
    → a.have_exclusive ≡ false
    → (a.held ≡ true) ⊎ (a.os.lock_granted ≡ true)
    → Calls a (state_after a (taken_over (base_or_err got (record (locked a) { sfd = f }))))
unfolding squish_copy_base_to_data
took_over a f none c idle before =
    let s = record (locked a) { sfd = f; err = if a.os.errno_shared then share else badf } in
    let more = one_more_lock a c idle in
    given_back a s (more ∙ ap (λ h. suc (lock_count h a.f_lock_func)) (sym idle))
      (subst (λ h. lock_count h a.f_lock_func < 2) (sym idle) (count_small a.f_lock_func)) refl
      before
took_over a f (some b) c idle before = record {
  consistent = record {
    locks = one_more_lock a c idle ∙ two_locks a.f_lock_func;
    owns = λ h. refl;
  };
  held = λ _. before;
}

-- The rest of _SquishExclusiveBegin behind the lock.
abbrev reading : Unit {0} → Cmd Area (Unit {0})
reading _ s = taken_over (squish_read_base_header s)

begin_locked :
    (a : Area)
    → IsConsistent a
    → a.have_exclusive ≡ false
    → Calls a (state_after a (and_then (squish_lock_base a) reading))
unfolding squish_read_base_header read_sqbase
begin_locked a c idle = elim (squish_lock_base-cases a c.owns) [
  | inl (lock, before) ↦
      subst (λ l. Calls a (state_after a (and_then l reading))) (sym lock)
        (took_over a (read_sqbase (seek 0 a.sfd)).1 (read_sqbase (seek 0 a.sfd)).0 c idle before)
  | inr lock ↦
      subst (λ l. Calls a (state_after a (and_then l reading))) (sym lock) (refused a share c)
]

pub squish_exclusive_begin-Calls :
    (a : Area) → IsConsistent a → Calls a (state_after a (squish_exclusive_begin a))
unfolding squish_exclusive_begin
squish_exclusive_begin-Calls a c = elim (Bool-cases a.have_exclusive) [
  | inl e ↦
      let run : squish_exclusive_begin a ≡ refuse share a = if-true _ _ e in
      subst (λ r. Calls a (state_after a r)) (sym run) (refused a share c)
  | inr e ↦
      let run : squish_exclusive_begin a ≡ and_then (squish_lock_base a) reading = if-false _ _ e in
      subst (λ r. Calls a (state_after a r)) (sym run) (begin_locked a c e)
]

-- The rest of _SquishExclusiveEnd behind the write.
abbrev ending : Bool → Cmd Area (Unit {0})
ending rc = do
  modify squish_unlock_base
  modify (λ s. record s { have_exclusive = false })
  if rc then pure tt else (λ s. fail s)

ended_lock :
    (a c : Area) (rc : Bool)
    → IsConsistent a
    → a.have_exclusive ≡ true
    → c.f_locked ≡ a.f_locked
    → c.f_lock_func ≡ a.f_lock_func
    → c.held ≡ a.held
    → Calls a (state_after a (ending rc c))
ended_lock a c rc k have same_count same_func same_held =
    let all : a.f_locked ≡ suc (lock_count false c.f_lock_func) =
      k.locks ∙ ((λ i. lock_count (have i) (sym same_func i)) ∙ sym (two_locks c.f_lock_func)) in
    let held : a.held ≡ true = k.owns (λ z. absurd (omega (arith, z, all))) in
    let done =
      released_lock a c false (same_count ∙ all) (count_small c.f_lock_func) (same_held ∙ held)
        (inl held) in
    by_result rc done
  where
    by_result :
        (rc : Bool)
        → Calls a (record (squish_unlock_base c) { have_exclusive = false })
        → Calls a (state_after a (ending rc c))
    by_result true h = h
    by_result false h = h

writing_ended :
    (a : Area)
    → IsConsistent a
    → a.have_exclusive ≡ true
    → Calls a (
        state_after a
          (and_then (caught (squish_write_base_header (squish_copy_data_to_base a) a)) ending))
unfolding squish_write_base_header
writing_ended a c have =
    let w = write_sqbase (squish_copy_data_to_base a) (seek 0 a.sfd) in
    elim (Bool-cases w.0) [
      | inl e ↦ rw e (ended_lock a (record a { sfd = w.1 }) true c have refl refl refl)
      | inr e ↦ rw e (ended_lock a (record a { sfd = w.1; err = nods }) false c have refl refl refl)
    ]

pub squish_exclusive_end-Calls :
    (a : Area) → IsConsistent a → Calls a (state_after a (squish_exclusive_end a))
unfolding squish_exclusive_end
squish_exclusive_end-Calls a c = elim (Bool-cases a.have_exclusive) [
  | inl e ↦
      let run : squish_exclusive_end a
          ≡ and_then (caught (squish_write_base_header (squish_copy_data_to_base a) a)) ending =
        if-false _ _ (ap not e) in
      subst (λ r. Calls a (state_after a r)) (sym run) (writing_ended a c e)
  | inr e ↦
      let run : squish_exclusive_end a ≡ refuse nolock a = if-true _ _ (ap not e) in
      subst (λ r. Calls a (state_after a r)) (sym run) (refused a nolock c)
]
