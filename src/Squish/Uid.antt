-- ===== src/Squish/Uid.antt =====
-- Message numbers and unique identifiers, sq_uid.c.
pub mod Sorted
pub mod Find
use xmsgapi.Base.{if◌then◌else◌, ltb, not, suc, zero, ℕ, ◌+◌, ◌-◌, ◌/◌, ◌==◌, ◌||◌}
use xmsgapi.Base.Cmd.{Cmd, Run, attempt, fail, modify, ok, pure, stuck, ◌>>=◌, ◌>>◌}
use xmsgapi.Squish.Area.{Area, noent, set_err}
use xmsgapi.Squish.Index.{sidx_get, squish_begin_buffer, squish_free_buffer, squish_index_size}
use xmsgapi.Squish.Sqidx.{Sqidx, sqidx_size}

-- UID_EXACT, UID_NEXT and UID_PREV.
pub data UidType : Type 0 where
  uid_exact uid_next uid_prev : UidType

-- apiSquishGetNextUid.
unfoldable pub api_squish_get_next_uid : Area → ℕ
api_squish_get_next_uid a = a.uid_next

abbrev umsgid_or_0 : Run Area Sqidx → Run Area ℕ
umsgid_or_0 (ok r s) = ok r.umsgid s
umsgid_or_0 (fail s) = ok 0 s
umsgid_or_0 stuck = stuck

-- apiSquishMsgnToUid.
unfoldable pub api_squish_msgn_to_uid : ℕ → Cmd Area ℕ
api_squish_msgn_to_uid dw_msg a =
    if dw_msg == 0 || ltb a.num_msg dw_msg
    then ok 0 (set_err noent a)
    else umsgid_or_0 (sidx_get dw_msg a)

-- The variables `rc`, `stTry` and `sqi.umsgid` where the search ends.
pub record Search : Type 0 where
  pub hit : ℕ
  pub st_try : ℕ
  pub seen : ℕ

-- The loop of the binary search. The bounds are counts of records, far below 2 ^ 31, and
-- `st_high` gets down to 0 at the least.
unfoldable pub search_loop : ℕ → ℕ → ℕ → ℕ → Search → Cmd Area Search
search_loop zero uid st_low st_high last a = if ltb st_high st_low then ok last a else stuck
search_loop (suc fuel) uid st_low st_high last a =
    let mid = (st_low + st_high) / 2 in
    if ltb st_high st_low then ok last a else elim (sidx_get mid a) [
      | stuck ↦ stuck
      | fail s ↦ ok (record last { st_try = mid }) s
      | ok r s ↦
          let up = ltb r.umsgid uid in
          let rest =
            search_loop fuel uid (if up then mid + 1 else st_low) (if up then st_high else mid - 1)
              (record last { st_try = mid; seen = r.umsgid }) s in
          if r.umsgid == uid
          then ok (record { hit = mid; st_try = mid; seen = r.umsgid }) s
          else rest
    ]

-- "If we couldn't find it exactly, try the next/prior match".
unfoldable pub nearest : UidType → ℕ → ℕ → Search → ℕ
nearest uid_exact uid dw_max s = 0
nearest uid_prev uid dw_max s =
    if ltb s.seen uid then s.st_try else if s.st_try == 1 then 0 else s.st_try - 1
nearest uid_next uid dw_max s =
    if ltb uid s.seen || s.st_try == dw_max then s.st_try else s.st_try + 1

abbrev pub noent_if_exact : UidType → Area → Area
noent_if_exact uid_exact a = set_err noent a
noent_if_exact uid_next a = a
noent_if_exact uid_prev a = a

-- apiSquishUidToMsgn; 0 is the answer on an error. Each round of the search leaves fewer records,
-- so their number and one more is fuel enough.
unfoldable pub api_squish_uid_to_msgn : ℕ → UidType → Cmd Area ℕ
unfolding search_loop nearest
api_squish_uid_to_msgn uid w_type = if uid == 0 then (λ a. ok 0 (set_err noent a)) else do
  begun ← attempt squish_begin_buffer
  if not begun then pure 0 else (λ a.
      let (bytes, a') = squish_index_size a in
      let dw_max = bytes / sqidx_size in
      (do
        s ← search_loop (dw_max + 1) uid 1 dw_max (record { hit = 0; st_try = 1; seen = 0 })
        modify (λ b. if s.hit == 0 then noent_if_exact w_type b else b)
        freed ← attempt squish_free_buffer
        pure (if not freed then 0 else if s.hit == 0 then nearest w_type uid dw_max s else s.hit))
        a')
