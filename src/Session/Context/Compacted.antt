-- ===== src/Session/Context/Compacted.antt =====
-- `reconstruct_context` of src/pi_agent/harness/session/context.py on branches with a compaction.
use pi_agent_python.Base.{
  ℕ, String, ◌≡◌, refl, ap, ◌∙◌, Bool, true, false, none, some, List, [], ◌∷◌, ◌++◌, arith,
  string_eq, beq, beq_refl, append_assoc,
}
use pi_agent_python.Base.Lists.{any}
use pi_agent_python.Base.Result.{ok, ◌>>=◌}
use pi_agent_python.Ai.Types.{Message}
use pi_agent_python.Session.Types.{SessionHeader, TreeEntry, EntryBody, Compaction}
use pi_agent_python.Session.Tree.{SessionPath, after_id}
use pi_agent_python.Session.Context.{
  ReconstructedContext, Latest, no_latest, latest, from_id, rendered, kept_entries, user_text,
  reconstruct_context, latest_step, context_of, messages_after,
}
use Prim.Native.String.{◌++◌ as concat}

abbrev pub has_id : String → List TreeEntry → Bool
has_id k es = any (λ e. beq e.id k) es

latest-append : (l : Latest) (a b : List TreeEntry) → latest l (a ++ b) ≡ latest (latest l a) b
unfolding latest
latest-append l [] b = refl
latest-append l (e ∷ a) b = latest-append _ a b

from_id-append :
    (k : String) (a b : List TreeEntry) → has_id k a ≡ false → from_id k (a ++ b) ≡ from_id k b
unfolding from_id
from_id-append k [] b h = refl
from_id-append k (e ∷ a) b h = ground (arith, from_id-append k a b)

rendered-append :
    (prefix : String) (now : ℕ) (a b : List TreeEntry)
    → rendered prefix now (a ++ b) ≡ rendered prefix now a ++ rendered prefix now b
unfolding rendered
rendered-append prefix now [] b = refl
rendered-append prefix now (e ∷ a) b = ground (arith, rendered-append prefix now a b)

abbrev pub is_compaction : EntryBody → Bool
is_compaction (EntryBody.compaction _) = true
is_compaction _ = false

latest_kept :
    (l : Latest) (es : List TreeEntry)
    → any (λ e. is_compaction e.body) es ≡ false
    → (latest l es).compaction ≡ l.compaction
unfolding latest
latest_kept l [] h = refl
latest_kept l (e ∷ es) h = latest_kept _ es (ground arith) ∙ step_kept e.body (ground arith)
  where
    step_kept :
        (b : EntryBody) → is_compaction b ≡ false → (latest_step l e b).compaction ≡ l.compaction
    step_kept (EntryBody.compaction c) h = cc
    step_kept (EntryBody.message m) h = refl
    step_kept (EntryBody.model_change p m) h = refl
    step_kept (EntryBody.thinking_level_change t) h = refl
    step_kept (EntryBody.branch_summary b) h = refl
    step_kept (EntryBody.custom t f) h = refl
    step_kept (EntryBody.label t x) h = refl

rendered_skip :
    (prefix : String) (now : ℕ) (x : TreeEntry) (c : Compaction) (es : List TreeEntry)
    → x.body ≡ EntryBody.compaction c
    → rendered prefix now (x ∷ es) ≡ rendered prefix now es
unfolding rendered
rendered_skip prefix now x c es is = rw is refl

from_id_here :
    (k : String) (e : TreeEntry) (es : List TreeEntry)
    → e.id ≡ k
    → from_id k (e ∷ es) ≡ some (e ∷ es)
unfolding from_id
from_id_here k e es same = ground (arith, beq_refl k)

after_id-append :
    (k : String) (a : List TreeEntry) (x : TreeEntry) (b : List TreeEntry)
    → has_id k a ≡ false
    → x.id ≡ k
    → after_id k (a ++ x ∷ b) ≡ some b
unfolding after_id
after_id-append k [] x b h same = ground (arith, beq_refl k)
after_id-append k (e ∷ a) x b h same = ground (arith, after_id-append k a x b)

kept_entries_from :
    (x : TreeEntry) (c : Compaction) (es kept : List TreeEntry) (k : String)
    → c.first_kept_entry_id ≡ some k
    → from_id k es ≡ some kept
    → kept_entries x c es ≡ ok kept
unfolding kept_entries
kept_entries_from x c es kept k first found = ground arith

kept_entries_after :
    (x : TreeEntry) (c : Compaction) (es kept : List TreeEntry)
    → c.first_kept_entry_id ≡ none
    → after_id x.id es ≡ some kept
    → kept_entries x c es ≡ ok kept
unfolding kept_entries
kept_entries_after x c es kept nothing found = ground arith

-- The result of `reconstruct_context`, given what the first loop finds and the entries kept.
reconstruct_of :
    (path : SessionPath) (cp bp : String) (now : ℕ) (x : TreeEntry) (c : Compaction)
    (kept : List TreeEntry)
    → (latest no_latest path.entries).compaction ≡ some (x, c)
    → kept_entries x c path.entries ≡ ok kept
    → (r : ReconstructedContext) × (reconstruct_context path cp bp now ≡ ok r)
      × (r.messages ≡ user_text (concat cp c.summary) now ∷ rendered bp now kept)
      × (r.compaction ≡ some (x, c))
unfolding reconstruct_context
reconstruct_of path cp bp now x c kept found cut =
    let l : Latest = latest no_latest path.entries in
    let messages : List Message = user_text (concat cp c.summary) now ∷ rendered bp now kept in
    (context_of l messages, made l found, refl, found)
  where
    made :
        (l : Latest)
        → l.compaction ≡ some (x, c)
        → (messages_after cp bp now path.entries l.compaction >>= λ ms. ok (context_of l ms))
          ≡ ok (context_of l (user_text (concat cp c.summary) now ∷ rendered bp now kept))
    made l is =
        ap (λ o. messages_after cp bp now path.entries o >>= λ ms. ok (context_of l ms)) is
        ∙ ap
            (λ r.
              (r >>= λ k. ok (user_text (concat cp c.summary) now ∷ rendered bp now k)) >>= λ ms.
              ok (context_of l ms))
            cut

module _ (h : SessionHeader) (before later : List TreeEntry) (x : TreeEntry) (c : Compaction)
    (cp bp : String) (now : ℕ) (is : x.body ≡ EntryBody.compaction c)
    (final : any (λ e. is_compaction e.body) later ≡ false) where
  last_compaction : (latest no_latest (before ++ x ∷ later)).compaction ≡ some (x, c)
  unfolding latest
  last_compaction =
      ap Latest.compaction (latest-append no_latest before (x ∷ later))
      ∙ ap (λ b. (latest (latest_step (latest no_latest before) x b) later).compaction) is
      ∙ latest_kept _ later final

-- A branch of `old`, then the entry `e`, then `kept`, a compaction that names `e` as the first entry
-- kept, and what came later, where no entry of `old` has the id of `e` and no later one is a
-- compaction: it stands for the summary, followed by the entries from `e` on, each once and in order.
pub reconstruct_context-compaction :
    (h : SessionHeader) (old : List TreeEntry) (e : TreeEntry) (kept : List TreeEntry)
    (x : TreeEntry) (later : List TreeEntry) (c : Compaction) (cp bp : String) (now : ℕ)
    → x.body ≡ EntryBody.compaction c
    → c.first_kept_entry_id ≡ some e.id
    → has_id e.id old ≡ false
    → any (λ y. is_compaction y.body) later ≡ false
    → (r : ReconstructedContext) × (reconstruct_context
          (record { header = h; entries = (old ++ e ∷ kept) ++ x ∷ later })
          cp
          bp
          now
        ≡ ok r)
      × (r.messages
          ≡ user_text (concat cp c.summary) now
            ∷ (rendered bp now (e ∷ kept) ++ rendered bp now later))
      × (r.compaction ≡ some (x, c))
reconstruct_context-compaction h old e kept x later c cp bp now is first new final =
    let all : List TreeEntry = (old ++ e ∷ kept) ++ x ∷ later in
    let cut : kept_entries x c all ≡ ok (e ∷ (kept ++ x ∷ later)) =
      kept_entries_from x c all (e ∷ (kept ++ x ∷ later)) e.id first (
        ap (from_id e.id) (append_assoc old (e ∷ kept) (x ∷ later))
        ∙ from_id-append e.id old (e ∷ (kept ++ x ∷ later)) new
        ∙ from_id_here e.id e (kept ++ x ∷ later) refl) in
    let (r, made, messages, found) =
      reconstruct_of (record { header = h; entries = all }) cp bp now x c (e ∷ (kept ++ x ∷ later))
        (last_compaction h (old ++ e ∷ kept) later x c cp bp now is final) cut in
    (
      r,
      made,
      messages
          ∙ ap (λ l. user_text (concat cp c.summary) now ∷ l)
              (rendered-append bp now (e ∷ kept) (x ∷ later)
                ∙ ap (λ l. rendered bp now (e ∷ kept) ++ l) (rendered_skip bp now x c later is)),
      found,
    )

-- A branch of `old`, a compaction that names no entry to keep, and what came later, where no entry of
-- `old` has the id of the compaction and no later one is a compaction: it stands for the summary and
-- what came later.
pub reconstruct_context-all_compacted :
    (h : SessionHeader) (old : List TreeEntry) (x : TreeEntry) (later : List TreeEntry)
    (c : Compaction) (cp bp : String) (now : ℕ)
    → x.body ≡ EntryBody.compaction c
    → c.first_kept_entry_id ≡ none
    → has_id x.id old ≡ false
    → any (λ y. is_compaction y.body) later ≡ false
    → (r : ReconstructedContext) × (reconstruct_context
          (record { header = h; entries = old ++ x ∷ later })
          cp
          bp
          now
        ≡ ok r)
      × (r.messages ≡ user_text (concat cp c.summary) now ∷ rendered bp now later)
      × (r.compaction ≡ some (x, c))
reconstruct_context-all_compacted h old x later c cp bp now is nothing new final =
    let all : List TreeEntry = old ++ x ∷ later in
    reconstruct_of (record { header = h; entries = all }) cp bp now x c later
      (last_compaction h old later x c cp bp now is final)
      (kept_entries_after x c all later nothing (after_id-append x.id old x later new refl))
