-- ===== src/Kludge/Entries.antt =====
-- The search for a kludge line in control information, and its removal.
use xmsgapi.Base.{
  All, Bool-cases, List, Option, [], arith, false, if◌then◌else◌, inl, inr, length, length-append,
  none, refl, some, suc, true, zero, ℕ, ◌++◌, ◌==◌, ◌∙◌, ◌∷◌, ◌≡◌, ◌≤◌, ◌⊎◌,
}
use xmsgapi.Kludge.{
  before, cr, ctrl_a, find_token, get_ctrl_token, has_byte, is_eol, remove_from_ctrl, starts,
  take_entry, token,
}
use xmsgapi.Kludge.Lines.{IsLine, ctrl_of, plain, plain-ctrl_a, starts-append, take_entry-append}
use xmsgapi.Squish.Msg.Undone.{kept}

-- The first line that starts with `what`, and the lines that do not.
unfoldable pub first_line : List ℕ → List (List ℕ) → Option (List ℕ)
first_line what [] = none
first_line what (l ∷ ls) = if starts what l then some l else first_line what ls

unfoldable pub other_lines : List ℕ → List (List ℕ) → List (List ℕ)
other_lines what [] = []
other_lines what (l ∷ ls) =
    let rest = other_lines what ls in if starts what l then rest else l ∷ rest

-- What follows a line in control information ends it.
ctrl_of-cut :
    (ls : List (List ℕ))
    → (ctrl_of ls ≡ []) ⊎ ((c : ℕ) × (p : List ℕ) × (ctrl_of ls ≡ c ∷ p) × (plain c ≡ false))
unfolding ctrl_of
ctrl_of-cut [] = inl refl
ctrl_of-cut (l ∷ ls) = inr (ctrl_a, l ++ ctrl_of ls, refl, refl)

plain-cr : (c : ℕ) → plain c ≡ true → (c == cr) ≡ false
unfolding is_eol
plain-cr c h = ground (arith, h)

has_byte-plain :
    (l rest : List ℕ) → All (λ c. plain c ≡ true) l → has_byte cr (l ++ rest) ≡ has_byte cr rest
unfolding has_byte
has_byte-plain [] rest h = refl
has_byte-plain (c ∷ l) rest (h, hs) = rw (plain-cr c h, has_byte-plain l rest hs)

has_byte-ctrl_of : (ls : List (List ℕ)) → All IsLine ls → has_byte cr (ctrl_of ls) ≡ false
unfolding ctrl_of has_byte
has_byte-ctrl_of [] h = refl
has_byte-ctrl_of (l ∷ ls) (h, hs) = has_byte-plain l (ctrl_of ls) h.bytes ∙ has_byte-ctrl_of ls hs

before-line :
    (l : List ℕ) (ls : List (List ℕ))
    → All (λ c. plain c ≡ true) l
    → before ctrl_a (l ++ ctrl_of ls) ≡ l
unfolding before ctrl_of
before-line [] [] h = refl
before-line [] (l ∷ ls) h = refl
before-line (c ∷ l) ls (h, hs) = rw (plain-ctrl_a c h, before-line l ls hs)

token-line :
    (l : List ℕ) (ls : List (List ℕ)) → IsLine l → All IsLine ls → token (l ++ ctrl_of ls) ≡ l
unfolding token
token-line l ls h hs =
    let no_cr : has_byte cr (l ++ ctrl_of ls) ≡ false =
      has_byte-plain l (ctrl_of ls) h.bytes ∙ has_byte-ctrl_of ls hs in
    rw no_cr (before-line l ls h.bytes)

find_token-plain :
    (what l rest : List ℕ)
    → All (λ c. plain c ≡ true) l
    → find_token what (l ++ rest) ≡ find_token what rest
unfolding find_token
find_token-plain what [] rest h = refl
find_token-plain what (c ∷ l) rest (h, hs) = rw (plain-ctrl_a c h) (find_token-plain what l rest hs)

-- For control information made of lines, GetCtrlToken gives the first of them that starts with
-- `what`.
pub get_ctrl_token-ctrl_of :
    (ls : List (List ℕ)) (what : List ℕ)
    → All IsLine ls
    → All (λ c. plain c ≡ true) what
    → get_ctrl_token (ctrl_of ls) what ≡ first_line what ls
unfolding get_ctrl_token first_line ctrl_of find_token
get_ctrl_token-ctrl_of [] what h hw = refl
get_ctrl_token-ctrl_of (l ∷ ls) what (h, hs) hw =
    let starting : starts what (l ++ ctrl_of ls) ≡ starts what l =
      starts-append what l (ctrl_of ls) hw (ctrl_of-cut ls) in
    let next : find_token what (l ++ ctrl_of ls) ≡ find_token what (ctrl_of ls) =
      find_token-plain what l (ctrl_of ls) h.bytes in
    elim (Bool-cases (starts what l)) [
      | inl e ↦ rw (starting, e, token-line l ls h hs)
      | inr e ↦ rw (starting, e, next) (get_ctrl_token-ctrl_of ls what hs hw)
    ]

remove-plain :
    (what l rest kept : List ℕ)
    → All (λ c. plain c ≡ true) l
    → ((fuel : ℕ) → length rest ≤ fuel → remove_from_ctrl fuel what rest ≡ some kept)
    → (fuel : ℕ) → length (l ++ rest) ≤ fuel
    → remove_from_ctrl fuel what (l ++ rest) ≡ some (l ++ kept)
unfolding remove_from_ctrl
remove-plain what [] rest kept h more fuel enough = more fuel enough
remove-plain what (c ∷ l) rest kept h more zero enough = absurd (omega arith)
remove-plain what (c ∷ l) rest kept (h, hs) more (suc fuel) enough =
    rw (plain-ctrl_a c h, remove-plain what l rest kept hs more fuel (omega arith))

remove_from_ctrl-ctrl_of :
    (ls : List (List ℕ)) (what : List ℕ)
    → All IsLine ls
    → All (λ c. plain c ≡ true) what
    → (fuel : ℕ) → length (ctrl_of ls) ≤ fuel
    → remove_from_ctrl fuel what (ctrl_of ls) ≡ some (ctrl_of (other_lines what ls))
unfolding remove_from_ctrl ctrl_of other_lines
remove_from_ctrl-ctrl_of [] what h hw zero enough = refl
remove_from_ctrl-ctrl_of [] what h hw (suc fuel) enough = refl
remove_from_ctrl-ctrl_of (l ∷ ls) what h hw zero enough = absurd (omega arith)
remove_from_ctrl-ctrl_of (l ∷ ls) what (h, hs) hw (suc fuel) enough =
    let starting : starts what (l ++ ctrl_of ls) ≡ starts what l =
      starts-append what l (ctrl_of ls) hw (ctrl_of-cut ls) in
    let entry : take_entry (l ++ ctrl_of ls) ≡ (l, ctrl_of ls) = take_entry-append l ls h.bytes in
    let more = remove_from_ctrl-ctrl_of ls what hs hw in
    let long = length-append l (ctrl_of ls) in
    elim (Bool-cases (starts what l)) [
      | inl e ↦ rw (entry, starting, e, more fuel (omega (arith, long)))
      | inr e ↦ rw (
        entry,
        starting,
        e,
        remove-plain what l (ctrl_of ls) (ctrl_of (other_lines what ls)) h.bytes more fuel
            (omega arith),
      )
    ]

other_lines-IsLine :
    (what : List ℕ) (ls : List (List ℕ)) → All IsLine ls → All IsLine (other_lines what ls)
unfolding other_lines
other_lines-IsLine what [] h = tt
other_lines-IsLine what (l ∷ ls) (h, hs) = elim (Bool-cases (starts what l)) [
  | inl e ↦ rw e (other_lines-IsLine what ls hs)
  | inr e ↦ rw e (h, other_lines-IsLine what ls hs)
]

first_line-other_lines :
    (what : List ℕ) (ls : List (List ℕ)) → first_line what (other_lines what ls) ≡ none
unfolding first_line other_lines
first_line-other_lines what [] = refl
first_line-other_lines what (l ∷ ls) = elim (Bool-cases (starts what l)) [
  | inl e ↦ rw e (first_line-other_lines what ls)
  | inr e ↦ rw e (rw e (first_line-other_lines what ls))
]

-- RemoveFromCtrl takes every line that starts with `what` out of control information, and no
-- other: then GetCtrlToken finds no such line, and for any other text the first line that starts
-- with it among the lines that have stayed. The lines are not empty, and they and the texts hold
-- no zero, ^a or end of line.
pub get_ctrl_token-remove_from_ctrl :
    (ls : List (List ℕ)) (what other : List ℕ)
    → All IsLine ls
    → All (λ c. plain c ≡ true) what
    → All (λ c. plain c ≡ true) other
    → (kept : List ℕ) × (remove_from_ctrl (length (ctrl_of ls)) what (ctrl_of ls) ≡ some kept)
      × (get_ctrl_token kept what ≡ none)
      × (get_ctrl_token kept other ≡ first_line other (other_lines what ls))
get_ctrl_token-remove_from_ctrl ls what other h hw ho =
    let left = other_lines what ls in
    let h' = other_lines-IsLine what ls h in
    (
      ctrl_of left,
      remove_from_ctrl-ctrl_of ls what h hw (length (ctrl_of ls)) (omega arith),
      get_ctrl_token-ctrl_of left what h' hw ∙ first_line-other_lines what ls,
      get_ctrl_token-ctrl_of left other h' ho,
    )
