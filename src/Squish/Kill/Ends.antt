-- ===== src/Squish/Kill/Ends.antt =====
-- Where a message stands in the chain of messages, told from the links of its frame as
-- _SquishKill does and from its number as _SquishFixMemoryPointers does.
use xmsgapi.Base.{[], arith, length, ne→==, suc, sym, ℕ, ◌+◌, ◌==◌, ◌∙◌, ◌∷◌, ◌≡◌, ◌≤◌}
use xmsgapi.Squish.BaseHeader.{sqbase_size}
use xmsgapi.Squish.Frame.Chain.{Cells, Linked}
use xmsgapi.Squish.Header.{null_frame}

module _ (ft : ℕ) (b : ℕ → ℕ) (size fo_end : ℕ) where
  last-of_cell :
      (xs : Cells) (fo c l s : ℕ)
      → sqbase_size ≤ fo
      → Linked ft b size fo_end fo c l s xs
      → sqbase_size ≤ l
  last-of_cell [] fo c l s base (e, f) = omega (arith, f, base)
  last-of_cell ((g, n) ∷ xs) fo c l s base (h, cell, ch) =
      last-of_cell xs g h.next_frame l s cell.frame.base ch

  -- The frame behind a piece is null only if the piece is empty.
  pub first_test :
      (ys : Cells) (c prev fo : ℕ)
      → Linked ft b size fo_end null_frame c prev fo ys
      → (prev == null_frame) ≡ (length ys + 1 == 1)
  first_test [] c prev fo (e, f) = ground (arith, f)
  first_test ((g, n) ∷ ys) c prev fo (h, cell, ch) =
      let far = last-of_cell ys g h.next_frame prev fo cell.frame.base ch in
      ne→== prev null_frame (λ e. omega (arith, e, far))
      ∙ sym (ne→== (suc (length ys) + 1) 1 (λ e. omega (arith, e)))

  pub last_test :
      (zs : Cells) (fo next l m num : ℕ)
      → Linked ft b size fo_end fo next l null_frame zs
      → num ≡ m + length zs
      → (next == null_frame) ≡ (m == num)
  last_test [] fo next l m num (e, f) count = ground (arith, e, count)
  last_test ((g, n) ∷ zs) fo next l m num (h, cell, ch) count =
      ne→== next null_frame (λ e. omega (arith, e, cell.here, cell.frame.base))
      ∙ sym (ne→== m num (λ e. omega (arith, e, count)))
