-- ===== src/Session/Jsonl/Lines.antt =====
-- The lines of a file of src/pi_agent/harness/session/store.py: `splitlines` and `rstrip` on whole lines.
use pi_agent_python.Base.{ℕ, ◌≡◌, refl, ap, ◌∙◌, false, [], ◌∷◌, ◌++◌, arith}
use pi_agent_python.Base.Lists.{All}
use pi_agent_python.Session.Jsonl.{
  Bytes, is_break, ends_break, prefix_line, split_keep, strip_step, rstrip_breaks,
}

-- Bytes without a line break.
abbrev pub IsClean : Bytes → Type 0
IsClean bs = All (λ b. is_break b ≡ false) bs

split_keep_step :
    (b : ℕ) (bs : Bytes) → is_break b ≡ false → split_keep (b ∷ bs) ≡ prefix_line b (split_keep bs)
unfolding split_keep
split_keep_step b bs h = ground arith

pub split_keep_line :
    (d rest : Bytes) → IsClean d → split_keep (d ++ 10 ∷ rest) ≡ (d ++ 10 ∷ []) ∷ split_keep rest
unfolding split_keep
split_keep_line [] rest h = refl
split_keep_line (b ∷ d) rest h =
    split_keep_step b (d ++ 10 ∷ rest) (h.0) ∙ ap (prefix_line b) (split_keep_line d rest (h.1))

pub split_keep_last : (b : ℕ) (d : Bytes) → IsClean (b ∷ d) → split_keep (b ∷ d) ≡ (b ∷ d) ∷ []
unfolding split_keep
split_keep_last b [] h = ground arith
split_keep_last b (c ∷ d) h =
    split_keep_step b (c ∷ d) (h.0) ∙ ap (prefix_line b) (split_keep_last c d (h.1))

strip_step_clean : (b : ℕ) (d : Bytes) → is_break b ≡ false → strip_step b d ≡ b ∷ d
strip_step_clean b [] h = ground arith
strip_step_clean b (c ∷ d) h = refl

pub rstrip_breaks_clean : (d : Bytes) → IsClean d → rstrip_breaks d ≡ d
unfolding rstrip_breaks
rstrip_breaks_clean [] h = refl
rstrip_breaks_clean (b ∷ d) h =
    ap (strip_step b) (rstrip_breaks_clean d (h.1)) ∙ strip_step_clean b d (h.0)

pub rstrip_breaks_line : (d : Bytes) → IsClean d → rstrip_breaks (d ++ 10 ∷ []) ≡ d
unfolding rstrip_breaks
rstrip_breaks_line [] h = refl
rstrip_breaks_line (b ∷ d) h =
    ap (strip_step b) (rstrip_breaks_line d (h.1)) ∙ strip_step_clean b d (h.0)

pub ends_break_clean : (d : Bytes) → IsClean d → ends_break d ≡ false
ends_break_clean [] h = refl
ends_break_clean (b ∷ []) h = h.0
ends_break_clean (b ∷ c ∷ d) h = ends_break_clean (c ∷ d) (h.1)
