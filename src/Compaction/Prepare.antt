-- ===== src/Compaction/Prepare.antt =====
-- src/pi_agent/harness/compaction/compaction.py and types.py: the settings, and what is to be
-- summarised. `_path_from_mapping` and the sets of files are over text keys; `lower` is Python's
-- `str.lower` and `str_of` its `str`, which are arguments.
pub mod Split
use Prim.Native.String.{compare, len}
use Prim.Native.Nat.{Ordering}
use pi_agent_python.Base.{
  ℕ, zero, suc, ◌+◌, ◌-◌, String, Bool, true, false, not, ◌&&◌, ◌||◌, Option, none, some, List, [],
  ◌∷◌, if◌then◌else◌, ltb, leb, ◌==◌, beq, string_eq,
}
use pi_agent_python.Base.Lists.{length, take, drop, any, contains}
use pi_agent_python.Base.Result.{Result, ok, err, ◌>>=◌, ◌>>◌, raise_if}
use pi_agent_python.Ai.Json.{
  get_field, JsonValue, str, array, object, Items, nil, cons, Fields, end, field,
}
use pi_agent_python.Ai.Types.{Message, AssistantContent, ToolResultMessage}
use pi_agent_python.Compaction.Tokens.{JsonDumps, estimate_context_tokens, calculate_context_tokens}
use pi_agent_python.Compaction.Cut.{find_cut_point}

pub data CompactionError : Type 0 where
  invalid_settings : CompactionError
  not_required : ℕ → ℕ → CompactionError
  no_safe_cut_point : CompactionError
  cancelled : CompactionError
  summary_generation_failed : ℕ → Option String → CompactionError

pub record CompactionSettings : Type 0 where
  pub context_window : ℕ
  pub reserve_tokens : ℕ
  pub keep_recent_tokens : ℕ
  pub summary_prefix : String
  pub max_attempts : ℕ

-- `__post_init__`, over numbers that are not negative
unfoldable pub check_settings : CompactionSettings → Result CompactionError Unit
check_settings s = do
  raise_if (s.context_window == 0) CompactionError.invalid_settings
  raise_if (s.keep_recent_tokens == 0) CompactionError.invalid_settings
  raise_if (leb s.context_window s.reserve_tokens) CompactionError.invalid_settings
  raise_if (s.max_attempts == 0) CompactionError.invalid_settings

abbrev pub threshold : CompactionSettings → ℕ
threshold s = s.context_window - s.reserve_tokens

-- A set of texts, held sorted: `tuple(sorted(s))` is the list itself.
unfoldable pub insert_sorted : String → List String → List String
insert_sorted x [] = x ∷ []
insert_sorted x (y ∷ ys) = elim (compare x y) [
  | Ordering.lt ↦ x ∷ y ∷ ys
  | Ordering.eq ↦ y ∷ ys
  | Ordering.gt ↦ y ∷ insert_sorted x ys
]

pub record FileOperations : Type 0 where
  pub read : List String
  pub modified : List String

pub record Texts : Type 0 where
  pub lower : String → String
  pub str_of : JsonValue → String

-- The text under a key, if it is a text and not empty.
abbrev pub non_empty_text : Option JsonValue → Option String
non_empty_text (some (str s)) = if len s == 0 then none else some s
non_empty_text _ = none

-- `_path_from_mapping`
unfoldable pub first_text : List String → Fields → Option String
unfolding get_field
first_text [] value = none
first_text (k ∷ ks) value =
    let rest = first_text ks value in
    elim (non_empty_text (get_field k value)) [ some s ↦ some s | none ↦ rest ]

abbrev pub path_from_mapping : Fields → Option String
path_from_mapping = first_text ("path" ∷ "file" ∷ "file_path" ∷ "filePath" ∷ [])

abbrev pub reading : List String
reading = "read" ∷ "grep" ∷ "find" ∷ "ls" ∷ []

abbrev pub writing : List String
writing = "write" ∷ "edit" ∷ "patch" ∷ "apply_patch" ∷ []

-- `read.add(path)` or `modified.add(path)`, by the operation
abbrev pub note_path : String → Option String → FileOperations → FileOperations
note_path operation none f = f
note_path operation (some path) f =
    if contains reading operation
    then record f { read = insert_sorted path f.read }
    else if contains writing operation
    then record f { modified = insert_sorted path f.modified }
    else f

-- `target.update(str(item) for item in files if isinstance(item, str))`
unfoldable pub note_items : Items → List String → List String
unfolding insert_sorted
note_items nil target = target
note_items (cons (str s) xs) target = note_items xs (insert_sorted s target)
note_items (cons _ xs) target = note_items xs target

abbrev pub note_files : String → Option JsonValue → FileOperations → FileOperations
note_files operation (some (array xs)) f =
    if contains writing operation
    then record f { modified = note_items xs f.modified }
    else record f { read = note_items xs f.read }
note_files operation _ f = f

module _ (texts : Texts) where
  -- `str(details.get("operation", tool_name)).lower()`
  abbrev pub operation_of : Option JsonValue → String → String
  operation_of none tool_name = texts.lower tool_name
  operation_of (some v) tool_name = texts.lower (texts.str_of v)

  abbrev pub note_details : String → JsonValue → FileOperations → FileOperations
  note_details tool_name (object d) f =
      let operation = operation_of (get_field "operation" d) tool_name in
      note_files operation (get_field "files" d) (note_path operation (path_from_mapping d) f)
  note_details tool_name _ f = f

  unfoldable pub note_blocks : List AssistantContent → FileOperations → FileOperations
  unfolding first_text insert_sorted contains
  note_blocks [] f = f
  note_blocks (AssistantContent.tool_call c ∷ bs) f =
      note_blocks bs (note_path (texts.lower c.name) (path_from_mapping c.arguments) f)
  note_blocks (AssistantContent.text _ ∷ bs) f = note_blocks bs f
  note_blocks (AssistantContent.thinking _ ∷ bs) f = note_blocks bs f

  unfoldable pub collect_from : FileOperations → List Message → FileOperations
  unfolding note_blocks first_text insert_sorted contains get_field note_items
  collect_from f [] = f
  collect_from f (Message.user _ ∷ ms) = collect_from f ms
  collect_from f (Message.assistant a ∷ ms) = collect_from (note_blocks a.content f) ms
  collect_from f (Message.tool_result t ∷ ms) =
      collect_from (note_details t.tool_name t.details f) ms

  unfoldable pub collect_file_operations : List Message → FileOperations
  unfolding collect_from
  collect_file_operations = collect_from (record { read = []; modified = [] })

pub record CompactionPreparation : Type 0 where
  pub messages_to_summarize : List Message
  pub messages_to_keep : List Message
  pub cut_index : ℕ
  pub estimated_tokens : ℕ
  pub kept_tokens : ℕ
  pub split_turn : Bool
  pub previous_summary : Option String
  pub file_operations : FileOperations

module _ (dumps : JsonDumps) (texts : Texts) where
  unfoldable pub should_compact : List Message → CompactionSettings → Bool
  should_compact messages s = leb (threshold s) (calculate_context_tokens dumps messages)

  abbrev pub preparation_of : List Message → Option String → ℕ → ℕ × Bool → CompactionPreparation
  preparation_of messages previous_summary estimated cut = record {
    messages_to_summarize = take cut.0 messages;
    messages_to_keep = drop cut.0 messages;
    cut_index = cut.0;
    estimated_tokens = estimated;
    kept_tokens = estimate_context_tokens dumps (drop cut.0 messages);
    split_turn = cut.1;
    previous_summary = previous_summary;
    file_operations = collect_file_operations texts (take cut.0 messages);
  }

  unfoldable pub prepare_compaction :
      List Message
      → CompactionSettings
      → Option String
      → Bool
      → Result CompactionError CompactionPreparation
  prepare_compaction messages s previous_summary force =
      let estimated = calculate_context_tokens dumps messages in
      let cut = find_cut_point dumps messages s.keep_recent_tokens in
      do
        raise_if (not force && ltb estimated (threshold s))
            (CompactionError.not_required estimated (threshold s))
        raise_if (leb cut.0 0) CompactionError.no_safe_cut_point
        ok (preparation_of messages previous_summary estimated cut)
