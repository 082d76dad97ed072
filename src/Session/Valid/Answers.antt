-- ===== src/Session/Valid/Answers.antt =====
-- The second loop of `validate_records` (src/pi_agent/harness/session/store.py).
use pi_agent_python.Base.{
  ℕ, zero, suc, ◌≤◌, ◌<◌, String, ◌≡◌, refl, Bool, true, Option, none, some, List, [], ◌∷◌, ◌++◌,
  arith, string_eq, ◌↔◌,
}
use pi_agent_python.Base.Lists.{length, length-append, any, All}
use pi_agent_python.Base.Result.{ok, >>=-eq-ok}
use pi_agent_python.Ai.Types.{ToolResultMessage}
use pi_agent_python.Session.Types.{TreeEntry}
use pi_agent_python.Session.Store.{
  Entries, tool_result_of, makes_call, find_call, check_answer, check_result, check_results,
}
use pi_agent_python.Session.Valid.{HasChain}
use pi_agent_python.Session.Chain.{Chain, root, link, Chain-append}

-- On a chain the walk of the fuel given ends, and tells whether an ancestor makes the call.
pub find_call_lem :
    (fuel : ℕ) (es : Entries) (call_id : String) {p : Option String} {path : List TreeEntry}
    → Chain es p path
    → length path < fuel
    → find_call fuel es call_id p ≡ ok (any (makes_call call_id) path)
unfolding find_call
find_call_lem zero es id c h = absurd (omega arith)
find_call_lem (suc fuel) es id root h = refl
find_call_lem (suc fuel) es id (link {e} found c) h =
    ground (arith, find_call_lem fuel es id c (omega arith))

-- A tool result is answered by the calls of these ancestors; every other entry needs none.
abbrev pub answers : List TreeEntry → Option ToolResultMessage → Bool
answers path none = true
answers path (some t) = any (makes_call t.tool_call_id) path

abbrev pub answered_by : List TreeEntry → TreeEntry → Bool
answered_by path e = answers path (tool_result_of e.body)

pub record IsAnswered (es : Entries) (e : TreeEntry) : Type 0 where
  pub ancestors : List TreeEntry
  pub chain : Chain es e.parent_id ancestors
  pub bounded : length ancestors ≤ length es
  pub answer : answered_by ancestors e ≡ true

check_answer_lem :
    (es : Entries) (e : TreeEntry) (o : Option ToolResultMessage) (path : List TreeEntry)
    → Chain es e.parent_id path
    → length path ≤ length es
    → (check_answer es e o ≡ ok tt) ↔ (answers path o ≡ true)
unfolding check_answer
check_answer_lem es e none path c h = (λ _. refl, λ _. refl)
check_answer_lem es e (some t) path c h =
    rw (find_call_lem (suc (length es)) es t.tool_call_id c (omega arith))
      (λ x. ground arith, λ x. ground arith)

pub check_result_lem :
    (es : Entries) (e : TreeEntry) (path : List TreeEntry)
    → Chain es e.parent_id path
    → length path ≤ length es
    → (check_result es e ≡ ok tt) ↔ (answered_by path e ≡ true)
unfolding check_result
check_result_lem es e path c h = check_answer_lem es e (tool_result_of e.body) path c h

-- Entries that are added at the end leave an answer as it is.
pub IsAnswered-append :
    (es more : Entries) (e : TreeEntry) → IsAnswered es e → IsAnswered (es ++ more) e
IsAnswered-append es more e a = record {
  ancestors = a.ancestors;
  chain = Chain-append more a.chain;
  bounded = omega (arith, a.bounded, length-append es more);
  answer = a.answer;
}

pub All_IsAnswered-append :
    (es more : Entries) (l : List TreeEntry)
    → All (IsAnswered es) l
    → All (IsAnswered (es ++ more)) l
All_IsAnswered-append es more [] h = tt
All_IsAnswered-append es more (e ∷ l) h =
    (IsAnswered-append es more e h.0, All_IsAnswered-append es more l h.1)

-- The loop accepts exactly the lists in which every tool result is answered.
pub check_results_of :
    (es : Entries) (l : List TreeEntry) → All (IsAnswered es) l → check_results es l ≡ ok tt
unfolding check_results
check_results_of es [] h = refl
check_results_of es (e ∷ l) (a, h) =
    let one = (check_result_lem es e a.ancestors a.chain a.bounded).1 a.answer in
    ground (arith, check_results_of es l h)

pub answers_of_check :
    (es : Entries) (l : List TreeEntry)
    → All (HasChain es) l
    → check_results es l ≡ ok tt
    → All (IsAnswered es) l
unfolding check_results
answers_of_check es [] k h = tt
answers_of_check es (e ∷ l) ((path, c, n), k) h =
    let (_, one, rest) = >>=-eq-ok (check_result es e) (λ _. check_results es l) {out = tt} h in
    (
      record {
        ancestors = path;
        chain = c;
        bounded = n;
        answer = (check_result_lem es e path c n).0 one;
      },
      answers_of_check es l k rest,
    )
