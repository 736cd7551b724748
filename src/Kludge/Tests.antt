-- ===== src/Kludge/Tests.antt =====
-- Runs on concrete kludge lines.
use xmsgapi.Base.{
  All, List, [], arith, length, none, refl, some, true, ℕ, ◌%◌, ◌++◌, ◌+◌, ◌-◌, ◌∷◌, ◌≡◌, ◌≤◌,
}
use xmsgapi.Base.Word.{sub32, word_mod}
use xmsgapi.Kludge.{
  ControlBuf, area_colon, at_kludge, copy_to_control_buf, cr, ctrl_a, cvt_ctrl_to_kludge,
  get_ctrl_token, is_eol, remove_from_ctrl, safe_clen, skip_eol, starts,
}
use xmsgapi.Kludge.Entries.{first_line, get_ctrl_token-remove_from_ctrl, other_lines}
use xmsgapi.Kludge.Lines.{IsBody, IsLine, ctrl_of, line_of, plain, text_of}
use xmsgapi.Kludge.RoundTrip.{cvt_ctrl_to_kludge-copy_to_control_buf}
use xmsgapi.Kludge.Total.{copy_to_control_buf-fits}

-- "AREA:A"
abbrev area_line : List ℕ
area_line = 65 ∷ 82 ∷ 69 ∷ 65 ∷ 58 ∷ 65 ∷ []

-- "PID: X"
abbrev pid_line : List ℕ
pid_line = 80 ∷ 73 ∷ 68 ∷ 58 ∷ 32 ∷ 88 ∷ []

-- "PID"
abbrev pid : List ℕ
pid = 80 ∷ 73 ∷ 68 ∷ []

-- "Hi"
abbrev hi : List ℕ
hi = 72 ∷ 105 ∷ []

abbrev two_lines : List (List ℕ)
two_lines = area_line ∷ pid_line ∷ []

area_line-IsLine : IsLine area_line
unfolding is_eol
area_line-IsLine = record {
  bytes = (refl, (refl, (refl, (refl, (refl, (refl, tt))))));
  some_bytes = omega arith;
}

pid_line-IsLine : IsLine pid_line
unfolding is_eol
pid_line-IsLine = record {
  bytes = (refl, (refl, (refl, (refl, (refl, (refl, tt))))));
  some_bytes = omega arith;
}

pid-plain : All (λ c. plain c ≡ true) pid
unfolding is_eol
pid-plain = (refl, (refl, (refl, tt)))

area_colon-plain : All (λ c. plain c ≡ true) area_colon
unfolding is_eol
area_colon-plain = (refl, (refl, (refl, (refl, (refl, tt)))))

hi-IsBody : IsBody hi
unfolding at_kludge starts skip_eol is_eol
hi-IsBody = record { no_kludge = refl; no_eol = refl }

-- An "AREA:" line, which has no ^a, and a line with one.
two_lines_text : text_of two_lines hi ≡ area_line ++ (cr ∷ ctrl_a ∷ (pid_line ++ (cr ∷ hi)))
unfolding text_of line_of starts
two_lines_text = refl

kludges_example :
    (b : ControlBuf) × (copy_to_control_buf (text_of two_lines hi) 17 ≡ some b)
    × (b.cbuf ≡ ctrl_of two_lines)
    × (b.newtext ≡ hi)
    × (b.left ≡ sub32 17 (length (text_of two_lines hi) - length hi))
    × (kludges : List ℕ) × (cvt_ctrl_to_kludge b.cbuf ≡ some kludges)
    × (kludges ++ b.newtext ≡ text_of two_lines hi)
kludges_example =
    cvt_ctrl_to_kludge-copy_to_control_buf two_lines hi 17 (area_line-IsLine, (pid_line-IsLine, tt))
      hi-IsBody

room_example :
    (b : ControlBuf) × (copy_to_control_buf (ctrl_a ∷ (pid_line ++ hi)) 9 ≡ some b)
    × (b.room ≡ (length b.cbuf + 2) % word_mod + safe_clen)
    × (length b.newtext ≤ 9)
room_example = copy_to_control_buf-fits (ctrl_a ∷ (pid_line ++ hi)) 9

token_example :
    (kept : List ℕ) × (remove_from_ctrl (length (ctrl_of two_lines)) pid (ctrl_of two_lines)
      ≡ some kept)
    × (get_ctrl_token kept pid ≡ none)
    × (get_ctrl_token kept area_colon ≡ first_line area_colon (other_lines pid two_lines))
token_example =
    get_ctrl_token-remove_from_ctrl two_lines pid area_colon
      (area_line-IsLine, (pid_line-IsLine, tt)) pid-plain area_colon-plain
