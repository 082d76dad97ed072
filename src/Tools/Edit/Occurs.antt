-- ===== src/Tools/Edit/Occurs.antt =====
-- Where one text occurs in another: `str.startswith`, `str.count` and `str.index`, as the edit tool of
-- src/pi_agent/harness/tools/edit.py uses them.
use pi_agent_python.Base.{
  ℕ, zero, suc, ◌+◌, ◌-◌, ◌<◌, ◌≤◌, ◌≡◌, ◌≢◌, refl, ap, ◌∙◌, sym, true, false, some, [], ◌∷◌, ◌++◌,
  ◌==◌, ==_iff, arith, Bool-cases, inl, inr,
}
use pi_agent_python.Base.Lists.{length, take, drop}
use pi_agent_python.Tools.Edit.{Text, starts_with, count, add_one, index_of}

starts_with-prefix :
    (old text : Text) → starts_with old text ≡ true → text ≡ old ++ drop (length old) text
unfolding starts_with
starts_with-prefix [] text h = refl
starts_with-prefix (c ∷ old) [] h = cc
starts_with-prefix (c ∷ old) (d ∷ text) h = elim (Bool-cases (c == d)) [
  | inl same ↦
      let same_code = (==_iff c d).0 same in
      let rest = starts_with-prefix old text (sym (rw same refl) ∙ h) in cc
  | inr other ↦ absurd (ground (arith, h))
]

starts_with-append : (old after : Text) → starts_with old (old ++ after) ≡ true
unfolding starts_with
starts_with-append [] after = refl
starts_with-append (c ∷ old) after = rw ((==_iff c c).1 refl) (starts_with-append old after)

count-skip :
    (old : Text) (skip : ℕ) (text : Text) → count old skip text ≡ count old 0 (drop skip text)
unfolding count
count-skip old zero text = refl
count-skip old (suc skip) [] = refl
count-skip old (suc skip) (c ∷ text) = count-skip old skip text

suc_sub : (n : ℕ) → suc n - 1 ≡ n
suc_sub n = omega arith

-- The first step of `count` and of `index`.
count-here :
    (o : ℕ) (old : Text) (c : ℕ) (text : Text)
    → starts_with (o ∷ old) (c ∷ text) ≡ true
    → count (o ∷ old) 0 (c ∷ text) ≡ suc (count (o ∷ old) 0 (drop (length old) text))
unfolding count
count-here o old c text h = rw h (
    ap (λ n. suc (count (o ∷ old) n text)) (suc_sub (length old))
    ∙ ap suc (count-skip (o ∷ old) (length old) text))

count-there :
    (old : Text) (c : ℕ) (text : Text)
    → starts_with old (c ∷ text) ≡ false
    → count old 0 (c ∷ text) ≡ count old 0 text
unfolding count
count-there old c text h = rw h refl

index-here :
    (old : Text) (c : ℕ) (text : Text)
    → starts_with old (c ∷ text) ≡ true
    → index_of old (c ∷ text) ≡ some 0
unfolding index_of
index-here old c text h = rw h refl

index-there :
    (old : Text) (c : ℕ) (text : Text)
    → starts_with old (c ∷ text) ≡ false
    → index_of old (c ∷ text) ≡ add_one (index_of old text)
unfolding index_of
index-there old c text h = rw h refl

-- A text that is not counted is nowhere.
not_here :
    (old text before after : Text)
    → starts_with old text ≡ false
    → ((b : ℕ) (rest : Text) → text ≢ b ∷ (rest ++ old ++ after))
    → text ≢ before ++ old ++ after
not_here old text [] after there later p = let here = starts_with-append old after in cc
not_here old text (b ∷ before) after there later p = later b before p

pub count-zero :
    (o : ℕ) (old text : Text)
    → count (o ∷ old) 0 text ≡ 0
    → (before after : Text) → text ≢ before ++ (o ∷ old) ++ after
count-zero o old [] h [] after p = cc
count-zero o old [] h (b ∷ before) after p = cc
count-zero o old (c ∷ text) h before after p =
    elim (Bool-cases (starts_with (o ∷ old) (c ∷ text))) [
      | inl here ↦ absurd (omega (arith, count-here o old c text here))
      | inr there ↦
          not_here (o ∷ old) (c ∷ text) before after there
            (λ b rest r.
              count-zero o old text (sym (count-there (o ∷ old) c text there) ∙ h) rest after (cc))
            p
    ]

-- What `index` finds, with the number of matches.
pub record Found (old text : Text) : Type 0 where
  pub position : ℕ
  pub rest : Text
  pub at : index_of old text ≡ some position
  pub ends : drop (position + length old) text ≡ rest
  pub parts : text ≡ take position text ++ old ++ rest
  pub inside : position ≤ length text
  pub later : count old 0 text ≡ suc (count old 0 rest)

drop_at : (n m : ℕ) (text : Text) → n ≡ m → drop n text ≡ drop m text
drop_at n m text p = ap (λ k. drop k text) p

pub count-Found : (o : ℕ) (old text : Text) → 0 < count (o ∷ old) 0 text → Found (o ∷ old) text
unfolding count
count-Found o old [] h = absurd (omega arith)
count-Found o old (c ∷ text) h = elim (Bool-cases (starts_with (o ∷ old) (c ∷ text))) [
  | inl here ↦ record {
    position = 0;
    rest = drop (length old) text;
    at = index-here (o ∷ old) c text here;
    ends = drop_at (0 + suc (length old)) (suc (length old)) (c ∷ text) (omega arith);
    parts = starts_with-prefix (o ∷ old) (c ∷ text) here;
    inside = omega arith;
    later = count-here o old c text here;
  }
  | inr there ↦
      let skip = count-there (o ∷ old) c text there in
      let found = count-Found o old text (omega (arith, skip)) in
      let n = found.position + suc (length old) in
      record {
        position = suc found.position;
        rest = found.rest;
        at = index-there (o ∷ old) c text there ∙ ap add_one found.at;
        ends =
            drop_at (suc found.position + suc (length old)) (suc n) (c ∷ text) (omega arith)
            ∙ found.ends;
        parts = ap (λ t. c ∷ t) found.parts;
        inside = omega (arith, found.inside);
        later = skip ∙ found.later;
      }
]
