-- ===== src/Squish/Lock/Failed.antt =====
-- apiSquishLock after an attempt that has failed.
use xmsgapi.Base.{
  ap, arith, eq→==, false, if-false, if-true, if◌then◌else◌, not, true, ◌==◌, ◌∙◌, ◌≡◌,
}
use xmsgapi.Base.Cmd.{Cmd, and_then, attempt, fail, ok, pure, ◌>>=◌}
use xmsgapi.Squish.Area.{Area, set_err, share}
use xmsgapi.Squish.Index.{squish_begin_buffer}
use xmsgapi.Squish.Lock.{api_squish_lock, squish_lock_base, squish_unlock_base, up16}

-- If the system refuses the lock to a user who has none, apiSquishLock reports the failure; but it
-- has counted the attempt, so that the next call reports success, without asking the system, and
-- no lock is held or counted by _SquishLockBase.
pub api_squish_lock-Refused :
    (a : Area)
    → a.f_lock_func ≡ 0
    → a.f_locked ≡ 0
    → a.held ≡ false
    → a.os.lock_granted ≡ false
    → (b : Area) × (api_squish_lock a ≡ fail b)
      × ((c : Area) × (api_squish_lock b ≡ ok tt c) × (c.held ≡ false) × (c.f_locked ≡ 0))
unfolding api_squish_lock squish_lock_base
api_squish_lock-Refused a func locks free refused =
    let counted = record a { f_lock_func = up16 a.f_lock_func } in
    let b = set_err share counted in
    let one : up16 a.f_lock_func ≡ 1 = omega (arith, func) in
    let first : not (a.f_lock_func == 0) ≡ false = ap not (eq→== a.f_lock_func 0 func) in
    let unlocked : not (a.f_locked == 0) ≡ false = ap not (eq→== a.f_locked 0 locks) in
    let lock : squish_lock_base counted ≡ fail b = if-false _ _ unlocked ∙ if-false _ _ refused in
    let again : not (up16 a.f_lock_func == 0) ≡ true = ap (λ n. not (n == 0)) one in
    (
      b,
      if-false _ _ first ∙ ap (λ r. and_then r (λ _. lock_rest)) lock,
      (record b { f_lock_func = up16 b.f_lock_func }, if-true _ _ again, free, locks),
    )
  where
    lock_rest : Cmd Area (Unit {0})
    lock_rest = do
      rc ← attempt squish_begin_buffer
      if rc then pure tt else (λ s. fail (squish_unlock_base s))
