-- ===== src/Kludge.antt =====
-- Control information between the text of a message and its separate form: the functions on
-- kludge lines of msgapi.c. A string of C is the list of its bytes before the terminating zero.
pub mod Lines
pub mod RoundTrip
pub mod Total
pub mod Entries
pub mod Tests
use mathlib.Core.Option
use xmsgapi.Base.{
  Bool, List, Option, [], false, if◌then◌else◌, length, ltb, none, some, suc, true, zero, ℕ, ◌%◌,
  ◌&&◌, ◌++◌, ◌+◌, ◌-◌, ◌==◌, ◌||◌, ◌∷◌,
}
use xmsgapi.Base.Word.{sub32, word_mod}
use xmsgapi.Squish.Frame.Heap.{past}
use xmsgapi.Squish.Index.Flat.{without}

abbrev pub ctrl_a : ℕ
ctrl_a = 1

abbrev pub cr : ℕ
cr = 13

-- "AREA:"
abbrev pub area_colon : List ℕ
area_colon = 65 ∷ 82 ∷ 69 ∷ 65 ∷ 58 ∷ []

-- `strncmp(p, what, strlen(what)) == 0`
unfoldable pub starts : List ℕ → List ℕ → Bool
starts [] p = true
starts (w ∷ ws) [] = false
starts (w ∷ ws) (c ∷ p) = w == c && starts ws p

-- `c == '\015' || c == '\012' || c == '\215'`
unfoldable pub is_eol : ℕ → Bool
is_eol c = c == 13 || (c == 10 || c == 141)

-- StripNasties.
unfoldable pub strip_nasties : List ℕ → List ℕ
strip_nasties [] = []
strip_nasties (c ∷ p) = (if ltb c 32 then 32 else c) ∷ strip_nasties p

-- `while (is_eol(*p)) p++;`
unfoldable pub skip_eol : List ℕ → List ℕ
skip_eol [] = []
skip_eol (c ∷ p) = let rest = skip_eol p in if is_eol c then rest else c ∷ p

-- The bytes that `while (*p && !is_eol(*p))` passes over, and what is behind them.
unfoldable pub take_line : List ℕ → List ℕ × List ℕ
take_line [] = ([], [])
take_line (c ∷ p) = let (l, rest) = take_line p in if is_eol c then ([], c ∷ p) else (c ∷ l, rest)

-- The test of the loop in _CopyToBuf, and "Skip over the first ^a".
unfoldable pub at_kludge : List ℕ → Bool
at_kludge [] = false
at_kludge (c ∷ p) = c == ctrl_a || starts area_colon (c ∷ p)

unfoldable pub skip_ctrl_a : List ℕ → List ℕ
skip_ctrl_a [] = []
skip_ctrl_a (c ∷ p) = if c == ctrl_a then p else c ∷ p

-- What _CopyToBuf has written at `out`, its count, which is a `word`, and where it has stopped.
pub record Copied : Type 0 where
  pub out : List ℕ
  pub len : ℕ
  pub end : List ℕ

-- A line in front of the rest.
abbrev pub with_line : List ℕ → Copied → Copied
with_line l r = record {
  out = l ++ (ctrl_a ∷ r.out);
  len = (length l + 1 + r.len) % word_mod;
  end = r.end;
}

-- The loop of _CopyToBuf. A round passes over a byte at least.
unfoldable pub copy_loop : ℕ → List ℕ → Option Copied
copy_loop zero p = if at_kludge p then none else some (record { out = []; len = 0; end = p })
copy_loop (suc fuel) p =
    let (l, rest) = take_line (skip_ctrl_a p) in
    let more = Option.map (with_line l) (copy_loop fuel (skip_eol rest)) in
    if at_kludge p then more else some (record { out = []; len = 0; end = p })

-- "Make sure to leave no trailing x01's."
unfoldable pub strip_last : List ℕ → List ℕ
strip_last [] = []
strip_last (c ∷ []) = if c == ctrl_a then [] else c ∷ []
strip_last (c ∷ d ∷ r) = c ∷ strip_last (d ∷ r)

-- The ends of _CopyToBuf: the first ^a and the zero, which are counted too.
abbrev pub capped : Copied → Copied
capped r = record { out = strip_last (ctrl_a ∷ r.out); len = (r.len + 2) % word_mod; end = r.end }

-- _CopyToBuf.
unfoldable pub copy_to_buf : List ℕ → Option Copied
unfolding copy_loop
copy_to_buf p = Option.map capped (copy_loop (length p) (skip_eol p))

-- What CopyToControlBuf gives: the bytes that it has allocated, the control information in them,
-- the text behind the kludge lines, and what is left of the length of the text.
pub record ControlBuf : Type 0 where
  pub room : ℕ
  pub cbuf : List ℕ
  pub newtext : List ℕ
  pub left : ℕ

abbrev pub safe_clen : ℕ
safe_clen = 20

abbrev pub control_buf : List ℕ → ℕ → Copied → ControlBuf
control_buf txt len r = record {
  room = r.len + safe_clen;
  cbuf = r.out;
  newtext = r.end;
  left = sub32 len (length txt - length r.end);
}

-- CopyToControlBuf, where `malloc` gives the memory and `*length` is `len`. Its first call of
-- _CopyToBuf, which only counts, gives the count of the second.
unfoldable pub copy_to_control_buf : List ℕ → ℕ → Option ControlBuf
unfolding copy_to_buf
copy_to_control_buf txt len = Option.map (control_buf txt len) (copy_to_buf txt)

-- NumKludges, whose result is a `word`.
unfoldable pub num_kludges : List ℕ → ℕ
num_kludges [] = 0
num_kludges (c ∷ p) = if c == ctrl_a then (num_kludges p + 1) % word_mod else num_kludges p

-- The bytes up to the next ^a, and what is behind them.
unfoldable pub take_entry : List ℕ → List ℕ × List ℕ
take_entry [] = ([], [])
take_entry (c ∷ p) =
    let (e, rest) = take_entry p in if c == ctrl_a then ([], c ∷ p) else (c ∷ e, rest)

-- The line of an entry: the ^a is left out in front of "AREA:".
unfoldable pub kludge_line : List ℕ → List ℕ → List ℕ
kludge_line e rest = if starts area_colon e then e ++ (cr ∷ rest) else ctrl_a ∷ (e ++ (cr ∷ rest))

-- The loop of CvtCtrlToKludge: it ends at a byte that is no ^a, and at a last ^a.
unfoldable pub kludge_loop : ℕ → List ℕ → Option (List ℕ)
kludge_loop fuel [] = some []
kludge_loop fuel (a ∷ []) = some []
kludge_loop zero (a ∷ c ∷ p) = if a == ctrl_a then none else some []
kludge_loop (suc fuel) (a ∷ c ∷ p) =
    let (e, rest) = take_entry (c ∷ p) in
    let more = Option.map (kludge_line e) (kludge_loop fuel rest) in
    if a == ctrl_a then more else some []

-- CvtCtrlToKludge, where `malloc` gives the memory.
unfoldable pub cvt_ctrl_to_kludge : List ℕ → Option (List ℕ)
unfolding kludge_loop
cvt_ctrl_to_kludge ctrl = kludge_loop (length ctrl) ctrl

-- GetCtrlToken: the search for an entry that starts with `what`.
unfoldable pub find_token : List ℕ → List ℕ → Option (List ℕ)
find_token what [] = none
find_token what (c ∷ p) =
    let rest = find_token what p in
    if c == ctrl_a then (if starts what p then some p else rest) else rest

-- `strchr(p, b) != NULL`, and the bytes in front of the first `b`.
unfoldable pub has_byte : ℕ → List ℕ → Bool
has_byte b [] = false
has_byte b (c ∷ p) = c == b || has_byte b p

unfoldable pub before : ℕ → List ℕ → List ℕ
before b [] = []
before b (c ∷ p) = let rest = before b p in if c == b then [] else c ∷ rest

-- The token ends at the first carriage return, or else at the next ^a or the end.
unfoldable pub token : List ℕ → List ℕ
unfolding has_byte before
token p = if has_byte cr p then before cr p else before ctrl_a p

-- GetCtrlToken, where `malloc` gives the memory.
unfoldable pub get_ctrl_token : List ℕ → List ℕ → Option (List ℕ)
unfolding find_token token
get_ctrl_token where_ what = Option.map token (find_token what where_)

-- RemoveFromCtrl: each round passes over a byte at least.
unfoldable pub remove_from_ctrl : ℕ → List ℕ → List ℕ → Option (List ℕ)
remove_from_ctrl fuel what [] = some []
remove_from_ctrl zero what (c ∷ p) = none
remove_from_ctrl (suc fuel) what (c ∷ p) =
    let (e, rest) = take_entry p in
    let without = remove_from_ctrl fuel what rest in
    let past = Option.map (λ q. c ∷ q) (remove_from_ctrl fuel what p) in
    if c == ctrl_a && starts what p then without else past
