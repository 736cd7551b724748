-- ===== src/Squish/Lock/Users.antt =====
-- Users of one data file, each with an area of its own, and the functions of sq_lock.c: those on
-- exclusive access, and apiSquishLock where it succeeds with apiSquishUnlock. The operating system
-- grants the lock on byte 0 of the file only while no other user holds it; it may refuse it at any
-- time. Between these calls a user may do anything that leaves its locks alone.
use mathlib.Core.Path.{subst}
use xmsgapi.Base.{
  ==_false→ne, ==→eq, Bool, Bool-cases, ap, arith, false, if-false, if-true, if◌then◌else◌, inl,
  inr, sym, true, ℕ, ◌+◌, ◌<◌, ◌==◌, ◌∙◌, ◌≡◌, ◌≢◌,
}
use xmsgapi.Base.Cmd.{ok}
use xmsgapi.Base.Word.{IsWord, word_mod}
use xmsgapi.File.{File}
use xmsgapi.Kludge.{before}
use xmsgapi.Squish.Area.{Area}
use xmsgapi.Squish.Lock.{
  api_squish_lock, api_squish_unlock, squish_exclusive_begin, squish_exclusive_end,
}
use xmsgapi.Squish.Lock.Api.{api_squish_lock-Calls, api_squish_unlock-Calls}
use xmsgapi.Squish.Lock.Buffers.{SameLocks}
use xmsgapi.Squish.Lock.Local.{
  Calls, IsConsistent, lock_count, squish_exclusive_begin-Calls, squish_exclusive_end-Calls,
  state_after, untouched,
}

-- The data file, and the area of each user.
pub record System : Type 0 where
  pub base : File
  pub users : ℕ → Area

-- A user's area as a call finds it: the bytes of the file are the shared ones.
abbrev pub seen : File → Bool → Area → Area
seen base granted a = record a {
  sfd = record base { pos = a.sfd.pos };
  os = record (a.os) { lock_granted = granted };
}

abbrev pub update : (ℕ → Area) → ℕ → Area → ℕ → Area
update f i a j = if j == i then a else f j

-- The system after a call of user `i` has left the area `a`.
abbrev pub after_call : System → ℕ → Area → System
after_call s i a = record { base = a.sfd; users = update s.users i a }

-- No user but `i` holds the lock on the file.
abbrev pub OnlyBy : System → ℕ → Type 0
OnlyBy s i = (j : ℕ) → j ≢ i → (s.users j).held ≡ false

-- A step of user `i`: one of the four calls, or any other change of its area and of the file, with
-- access or without it, that leaves its locks alone. The calls that give a lock up ask for none.
pub data Step (s : System) (i : ℕ) (t : System) : Type 0 where
  begin :
      (granted : Bool)
      → (granted ≡ true → OnlyBy s i)
      → t
        ≡ after_call s i (
            state_after
              (seen s.base granted (s.users i))
              (squish_exclusive_begin (seen s.base granted (s.users i))))
      → Step s i t
  finish :
      t
        ≡ after_call s i (
            state_after
              (seen s.base false (s.users i))
              (squish_exclusive_end (seen s.base false (s.users i))))
      → Step s i t
  takes_lock :
      (granted : Bool) (a : Area)
      → (granted ≡ true → OnlyBy s i)
      → (s.users i).f_lock_func + 1 < word_mod
      → api_squish_lock (seen s.base granted (s.users i)) ≡ ok tt a
      → t ≡ after_call s i a
      → Step s i t
  gives_lock :
      IsWord (s.users i).f_lock_func
      → t
        ≡ after_call s i (
            state_after
              (seen s.base false (s.users i))
              (api_squish_unlock (seen s.base false (s.users i))))
      → Step s i t
  work : (a : Area) → SameLocks (s.users i) a → t ≡ after_call s i a → Step s i t

-- At the start nobody has access, holds a lock or has called apiSquishLock.
pub record IsStart (s : System) : Type 0 where
  pub idle : (i : ℕ) → (s.users i).have_exclusive ≡ false
  pub unlocked : (i : ℕ) → (s.users i).f_locked ≡ 0
  pub uncalled : (i : ℕ) → (s.users i).f_lock_func ≡ 0
  pub free : (i : ℕ) → (s.users i).held ≡ false

pub data Reach : System → Type 0 where
  start : {s : System} → IsStart s → Reach s
  stepped : {s t : System} (i : ℕ) → Reach s → Step s i t → Reach t

-- Every user is consistent, and at most one of them holds the lock.
pub record Inv (s : System) : Type 0 where
  pub consistent : (i : ℕ) → IsConsistent (s.users i)
  pub single : (i j : ℕ) → (s.users i).held ≡ true → (s.users j).held ≡ true → i ≡ j

pub update_self : (f : ℕ → Area) (i j : ℕ) (a : Area) → (j == i) ≡ true → update f i a j ≡ a
update_self f i j a e = if-true _ _ e

pub update_ne : (f : ℕ → Area) (i j : ℕ) (a : Area) → (j == i) ≡ false → update f i a j ≡ f j
update_ne f i j a e = if-false _ _ e

-- A call of user `i` after which `i` holds the lock only if no other user does.
after_call-Inv :
    (s : System) (i : ℕ) (a : Area)
    → Inv s
    → IsConsistent a
    → (a.held ≡ true → (j : ℕ) → j ≢ i → (s.users j).held ≡ true → ⊥)
    → Inv (after_call s i a)
after_call-Inv s i a inv c alone = record { consistent = consistent; single = single }
  where
    consistent : (j : ℕ) → IsConsistent (update s.users i a j)
    consistent j = elim (Bool-cases (j == i)) [
      | inl e ↦ subst IsConsistent (sym (update_self s.users i j a e)) c
      | inr e ↦ subst IsConsistent (sym (update_ne s.users i j a e)) (inv.consistent j)
    ]

    self : (j : ℕ) → (j == i) ≡ true → (update s.users i a j).held ≡ true → a.held ≡ true
    self j e h = ap (λ q. q.held) (sym (update_self s.users i j a e)) ∙ h

    other :
        (j : ℕ) → (j == i) ≡ false → (update s.users i a j).held ≡ true → (s.users j).held ≡ true
    other j e h = ap (λ q. q.held) (sym (update_ne s.users i j a e)) ∙ h

    single :
        (j k : ℕ) → (update s.users i a j).held ≡ true → (update s.users i a k).held ≡ true → j ≡ k
    single j k hj hk = elim (Bool-cases (j == i)) [
      | inl e ↦ elim (Bool-cases (k == i)) [
        | inl d ↦ ==→eq j i e ∙ sym (==→eq k i d)
        | inr d ↦ absurd (alone (self j e hj) k (==_false→ne k i d) (other k d hk))
      ]
      | inr e ↦ elim (Bool-cases (k == i)) [
        | inl d ↦ absurd (alone (self k d hk) j (==_false→ne j i e) (other j e hj))
        | inr d ↦ inv.single j k (other j e hj) (other k d hk)
      ]
    ]

seen-IsConsistent : (f : File) (g : Bool) (a : Area) → IsConsistent a → IsConsistent (seen f g a)
seen-IsConsistent f g a c = record { locks = c.locks; owns = c.owns }

pub not_both : {A : Type 0} {b : Bool} → b ≡ false → b ≡ true → A
not_both e h = cc

-- A call of user `i` that keeps its count right, where a lock is granted only to the only one.
Calls-Inv :
    (s : System) (i : ℕ) (g : Bool) (b : Area)
    → Inv s
    → (g ≡ true → OnlyBy s i)
    → Calls (seen s.base g (s.users i)) b
    → Inv (after_call s i b)
Calls-Inv s i g b inv free call = after_call-Inv s i b inv call.consistent (λ h j ne hj.
    elim (call.held h) [
      | inl before ↦ ne (inv.single j i hj before)
      | inr granted ↦ not_both (free granted j ne) hj
    ])

Step-Inv : {s t : System} (i : ℕ) → Inv s → Step s i t → Inv t
Step-Inv {s} {t} i inv (begin g free e) =
    let c = seen-IsConsistent s.base g _ (inv.consistent i) in
    subst Inv (sym e) (Calls-Inv s i g _ inv free (squish_exclusive_begin-Calls _ c))
Step-Inv {s} {t} i inv (takes_lock g a free few run e) =
    let c = seen-IsConsistent s.base g _ (inv.consistent i) in
    subst Inv (sym e) (Calls-Inv s i g _ inv free (api_squish_lock-Calls _ a c few run))
Step-Inv {s} {t} i inv (finish e) =
    let c = seen-IsConsistent s.base false _ (inv.consistent i) in
    subst Inv (sym e)
      (Calls-Inv s i false _ inv (λ h. absurd (cc)) (squish_exclusive_end-Calls _ c))
Step-Inv {s} {t} i inv (gives_lock small e) =
    let c = seen-IsConsistent s.base false _ (inv.consistent i) in
    subst Inv (sym e)
      (Calls-Inv s i false _ inv (λ h. absurd (cc)) (api_squish_unlock-Calls _ c small))
Step-Inv {s} {t} i inv (work a same e) = subst Inv (sym e) (
    after_call-Inv s i a inv (untouched (s.users i) a (inv.consistent i) same).consistent
      (λ h j ne hj. ne (inv.single j i hj (sym same.held ∙ h))))

start-Inv : {s : System} → IsStart s → Inv s
start-Inv {s} st = record {
  consistent = λ i. record {
    locks = st.unlocked i ∙ (λ k. lock_count (sym (st.idle i) k) (sym (st.uncalled i) k));
    owns = λ h. absurd (h (st.unlocked i));
  };
  single = λ i j hi hj. not_both (st.free i) hi;
}

pub Reach-Inv : {s : System} → Reach s → Inv s
Reach-Inv (start st) = start-Inv st
Reach-Inv (stepped i r st) = Step-Inv i (Reach-Inv r) st

-- A user with exclusive access holds the lock on the file.
pub IsConsistent-held : (a : Area) → IsConsistent a → a.have_exclusive ≡ true → a.held ≡ true
IsConsistent-held a c have =
    let one : a.f_locked ≡ lock_count true a.f_lock_func =
      c.locks ∙ ap (λ h. lock_count h a.f_lock_func) have in
    c.owns (λ z. absurd (omega (arith, z, one)))

-- However the users call _SquishExclusiveBegin, _SquishExclusiveEnd, apiSquishLock and
-- apiSquishUnlock, with any other work in between, from a start where nobody has access: as long as
-- no call of apiSquishLock has failed and none of its counts has gone over 65,535, no user has
-- exclusive access while another one has it.
pub Reach-exclusive :
    {s : System} (i j : ℕ)
    → Reach s
    → (s.users i).have_exclusive ≡ true
    → j ≢ i
    → (s.users j).have_exclusive ≡ false
Reach-exclusive {s} i j r hi ne = elim (Bool-cases (s.users j).have_exclusive) [
  | inl hj ↦
      let inv = Reach-Inv r in
      absurd (
        ne (
          inv.single j i (IsConsistent-held _ (inv.consistent j) hj)
            (IsConsistent-held _ (inv.consistent i) hi)))
  | inr hj ↦ hj
]
