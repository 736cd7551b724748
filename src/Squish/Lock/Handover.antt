-- ===== src/Squish/Lock/Handover.antt =====
-- Exclusive access from one user to the next, sq_lock.c.
use mathlib.Core.Path.{subst}
use xmsgapi.Base.{
  ==_false→ne, ==→eq, Bool, Bool-cases, ap, arith, eq→==, false, inl, inr, ne→==, refl, sym, true,
  ℕ, ◌==◌, ◌∙◌, ◌≡◌, ◌≢◌, ◌≤◌,
}
use xmsgapi.Base.Cmd.{ok}
use xmsgapi.Base.Word.{IsWord}
use xmsgapi.File.{File}
use xmsgapi.Squish.Area.{Area}
use xmsgapi.Squish.BaseHeader.{sqbase_size}
use xmsgapi.Squish.BaseHeader.RoundTrip.{FitsSqbase}
use xmsgapi.Squish.Index.Laws.{stored}
use xmsgapi.Squish.Lock.{squish_copy_data_to_base, squish_exclusive_begin, squish_exclusive_end}
use xmsgapi.Squish.Lock.Laws.{
  SameBase, StoresBase, Waits, begun, begun-SameBase, ended, past_header, squish_exclusive_begin-ok,
  squish_exclusive_end-ok, squish_unlock_base_lem, squish_write_base_header-ok,
}
use xmsgapi.Squish.Lock.Local.{lock_count, state_after}
use xmsgapi.Squish.Lock.Users.{
  Inv, IsConsistent-held, Reach, Reach-Inv, Reach-exclusive, Step, System, after_call, begin,
  finish, seen, update_ne, update_self,
}

seen-SameBase : (f : File) (g : Bool) (a c : Area) → SameBase (seen f g a) c → SameBase a c
seen-SameBase f g a c h = record {
  num_msg = h.num_msg;
  high_msg = h.high_msg;
  high_water = h.high_water;
  cb_sqbase = h.cb_sqbase;
  cb_sqhdr = h.cb_sqhdr;
  dw_max_msg = h.dw_max_msg;
  w_max_days = h.w_max_days;
  w_skip_msg = h.w_skip_msg;
  uid_next = h.uid_next;
  fo_first = h.fo_first;
  fo_last = h.fo_last;
  fo_free = h.fo_free;
  fo_last_free = h.fo_last_free;
  fo_end = h.fo_end;
}

-- The last lock is released.
ended-held :
    (f : File) (a : Area) → a.f_locked ≡ 1 → a.os.haveshare ≡ true → (ended f a).held ≡ false
ended-held f a one shares =
    ap (λ q. q.held) (squish_unlock_base_lem (record a { sfd = f })) ∙ rw (one, shares)

ended-sfd : (f : File) (a : Area) → (ended f a).sfd ≡ f
ended-sfd f a = ap (λ q. q.sfd) (squish_unlock_base_lem (record a { sfd = f }))

-- Nobody holds the lock after the call of the only one who has held it.
nobody-held :
    (s : System) (i : ℕ) (a : Area)
    → Inv s
    → (s.users i).held ≡ true
    → a.held ≡ false
    → (k : ℕ) → ((after_call s i a).users k).held ≡ false
nobody-held s i a inv hi ha k = elim (Bool-cases (k == i)) [
  | inl e ↦ ap (λ q. q.held) (update_self s.users i k a e) ∙ ha
  | inr e ↦ ap (λ q. q.held) (update_ne s.users i k a e) ∙ elim (Bool-cases (s.users k).held) [
    | inl h ↦ absurd (==_false→ne k i e (inv.single k i h hi))
    | inr h ↦ h
  ]
]

-- A user other than the one who holds the lock on the file counts none.
no_lock :
    (s : System) → Inv s → (i j : ℕ) → (s.users i).held ≡ true → j ≢ i → (s.users j).f_locked ≡ 0
no_lock s inv i j held ne = elim (Bool-cases ((s.users j).f_locked == 0)) [
  | inl e ↦ ==→eq (s.users j).f_locked 0 e
  | inr e ↦
      let owns = (inv.consistent j).owns (==_false→ne (s.users j).f_locked 0 e) in
      absurd (ne (inv.single j i owns held))
]

-- Access is handed over. In every state that the steps of Reach-exclusive lead to, where user `i`
-- has exclusive access and no lock of apiSquishLock, and for every other user `j`: the call of
-- _SquishExclusiveEnd by `i` and then one of _SquishExclusiveBegin by `j` are steps that give `j`
-- the access, if the system locks files between processes and grants the lock, the fields of `i`
-- fit the header and the disk has room for it. Then `j` has the counts, the pointers, the limits
-- and the next identifier of `i`.
pub Reach-handover :
    {s : System} (i j : ℕ)
    → Reach s
    → (s.users i).have_exclusive ≡ true
    → j ≢ i
    → (s.users i).f_lock_func ≡ 0
    → (s.users i).os.haveshare ≡ true
    → FitsSqbase (squish_copy_data_to_base (s.users i))
    → IsWord (s.users i).w_skip_msg
    → sqbase_size ≤ s.base.room
    → (t : System) × Step s i t
      × (u : System) × Step t j u
      × ((u.users j).have_exclusive ≡ true)
      × SameBase (s.users i) (u.users j)
unfolding squish_copy_data_to_base
Reach-handover {s} i j r hi ne uncalled shares fits word room =
    let inv = Reach-Inv r in
    let a = seen s.base false (s.users i) in
    let b0 = squish_copy_data_to_base a in
    let (f, w, (big, stored), _) = squish_write_base_header-ok a b0 fits room in
    let c = ended f a in
    let t = after_call s i c in
    let ran : squish_exclusive_end a ≡ ok tt c = squish_exclusive_end-ok a f hi w in
    let one : (s.users i).f_locked ≡ 1 =
      (inv.consistent i).locks ∙ (λ k. lock_count (hi k) (uncalled k)) in
    let held = IsConsistent-held _ (inv.consistent i) hi in
    let nobody = nobody-held s i c inv held (ended-held f a one shares) in
    let b = seen t.base true (t.users j) in
    let same = update_ne s.users i j c (ne→== j i ne) in
    let file = ended-sfd f a in
    let idle : (s.users j).have_exclusive ≡ false = Reach-exclusive i j r hi ne in
    let free : (s.users j).f_locked ≡ 0 = no_lock s inv i j held ne in
    let waits : Waits b = record {
      idle = ap (λ q. q.have_exclusive) same ∙ idle;
      unlocked = ap (λ q. q.f_locked) same ∙ free;
      granted = refl;
    } in
    let stores : StoresBase b.sfd b0 =
      (omega (arith, ap (λ g. g.size) file, big), rw (ap (λ g. g.bytes) file) stored) in
    let d = begun (past_header b.sfd) b0 b in
    let begins : squish_exclusive_begin b ≡ ok tt d =
      squish_exclusive_begin-ok b b0 waits fits stores in
    let u = after_call t j d in
    let self : u.users j ≡ d = update_self t.users j j d (eq→== j j refl) in
    (
      t,
      finish (sym (ap (λ q. after_call s i (state_after a q)) ran)),
      u,
      begin true (λ _ k _. nobody k) (sym (ap (λ q. after_call t j (state_after b q)) begins)),
      ap (λ q. q.have_exclusive) self,
      subst (SameBase (s.users i)) (sym self)
          (seen-SameBase s.base false (s.users i) d (begun-SameBase a b (past_header b.sfd) word)),
    )
