-- ===== src/Tests/Truncation.antt =====
-- Cutting a text of three lines.
use pi_agent_python.Base.{◌≡◌, refl, ◌⊎◌, [], ◌∷◌, ◌++◌}
use pi_agent_python.Truncate.{Text, newline, truncate_head, truncate_tail}
use pi_agent_python.Truncate.Bounds.{IsWithin, truncate_head-IsWithin}
use pi_agent_python.Truncate.Bounds.Tail.{truncate_tail-IsWithin}
use pi_agent_python.Truncate.Ends.{truncate_head-prefix, truncate_tail-suffix}

-- "ab\né\nc\n"
abbrev letters : Text
letters = 97 ∷ 98 ∷ 10 ∷ 233 ∷ 10 ∷ 99 ∷ 10 ∷ []

abbrev without_last : Text
without_last = 97 ∷ 98 ∷ 10 ∷ 233 ∷ []

-- Two lines, five bytes.
two_lines : (truncate_head letters 2 100).content ≡ without_last
unfolding truncate_head
two_lines = refl

truncate_head-IsWithin_example : IsWithin (truncate_head letters 2 4) 2 4
truncate_head-IsWithin_example = truncate_head-IsWithin letters 2 4

truncate_tail-IsWithin_example : IsWithin (truncate_tail letters 2 4) 2 4
truncate_tail-IsWithin_example = truncate_tail-IsWithin letters 2 4

truncate_head-prefix_example :
    (rest : Text) × (letters ≡ (truncate_head letters 2 4).content ++ rest)
truncate_head-prefix_example = truncate_head-prefix letters 2 4

truncate_tail-suffix_example :
    (front : Text) × ((letters ≡ front ++ (truncate_tail letters 2 4).content)
      ⊎ (letters ≡ (front ++ (truncate_tail letters 2 4).content) ++ newline ∷ []))
truncate_tail-suffix_example = truncate_tail-suffix letters 2 4
