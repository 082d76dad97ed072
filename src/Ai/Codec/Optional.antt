-- ===== src/Ai/Codec/Optional.antt =====
-- The optional keys of the dictionaries of src/pi_agent/ai/types.py, one after the other.
use pi_agent_python.Base.{
  ℕ, String, ◌≡◌, refl, Bool, false, Option, none, some, List, [], ◌∷◌, arith, beq, beq_refl,
  string_eq,
}
use pi_agent_python.Base.Result.{ok}
use pi_agent_python.Ai.Json.{pos, int, float, str, Fields, get_field}
use pi_agent_python.Ai.Types.{Float, Usage}
use pi_agent_python.Ai.Codec.{
  text_field, bool_field, number_field, usage_field, names_field, diagnostics_field,
}
use pi_agent_python.Ai.Codec.Read.{Conversions, cast_text, cast_bool, int_if_there}

-- What `str`, `int` and `float` do to a value that is of the type already.
pub record IsExact (c : Conversions) : Type 0 where
  pub text : (s : String) → c.str_of (str s) ≡ s
  pub number : (n : ℕ) → c.int_of (int (pos n)) ≡ ok n
  pub real : (x : Float) → c.float_of (float x) ≡ ok x

-- A key that may be there: what is read at it, and at another key.
module _ (k : String) (rest : Fields) where
  pub read_text :
      (o : Option String)
      → get_field k rest ≡ none
      → cast_text (get_field k (text_field k o rest)) ≡ ok o
  unfolding get_field
  read_text none h = ground arith
  read_text (some s) h = ground (arith, beq_refl k)

  pub read_bool :
      (o : Option Bool)
      → get_field k rest ≡ none
      → cast_bool (get_field k (bool_field k o rest)) ≡ ok o
  unfolding get_field
  read_bool none h = ground arith
  read_bool (some s) h = ground (arith, beq_refl k)

  pub read_number :
      (c : Conversions) (o : Option ℕ)
      → IsExact c
      → get_field k rest ≡ none
      → int_if_there c (get_field k (number_field k o rest)) ≡ ok o
  unfolding get_field
  read_number c none x h = ground arith
  read_number c (some n) x h = ground (arith, beq_refl k, x.number n)

  module _ (j : String) (other : beq k j ≡ false) where
    pub skip_text : (o : Option String) → get_field j (text_field k o rest) ≡ get_field j rest
    unfolding get_field
    skip_text none = refl
    skip_text (some s) = ground arith

    pub skip_bool : (o : Option Bool) → get_field j (bool_field k o rest) ≡ get_field j rest
    unfolding get_field
    skip_bool none = refl
    skip_bool (some s) = ground arith

    pub skip_number : (o : Option ℕ) → get_field j (number_field k o rest) ≡ get_field j rest
    unfolding get_field
    skip_number none = refl
    skip_number (some s) = ground arith

pub skip_diagnostics :
    (j : String) (l : List Fields) (rest : Fields)
    → beq "diagnostics" j ≡ false
    → get_field j (diagnostics_field l rest) ≡ get_field j rest
unfolding get_field
skip_diagnostics j [] rest h = refl
skip_diagnostics j (x ∷ l) rest h = ground arith

pub skip_usage :
    (j : String) (o : Option Usage) (rest : Fields)
    → beq "usage" j ≡ false
    → get_field j (usage_field o rest) ≡ get_field j rest
unfolding get_field
skip_usage j none rest h = refl
skip_usage j (some u) rest h = ground arith

pub skip_names :
    (j : String) (o : Option (List String)) (rest : Fields)
    → beq "addedToolNames" j ≡ false
    → get_field j (names_field o rest) ≡ get_field j rest
unfolding get_field
skip_names j none rest h = refl
skip_names j (some u) rest h = ground arith
