-- ===== src/Ai/Codec/Contents.antt =====
-- Writing and reading again the parts of a message of src/pi_agent/ai/types.py.
use pi_agent_python.Base.{String, ◌≡◌, refl, ap, ◌∙◌, Option, none, some, List, [], ◌∷◌, string_eq}
use pi_agent_python.Base.Result.{ok, ◌>>=◌}
use pi_agent_python.Ai.Json.{Fields, end, get_field}
use pi_agent_python.Ai.Types.{
  StopReason, Usage, TextContent, AssistantContent, UserContent, UserBody,
}
use pi_agent_python.Ai.Codec.{
  text_field, bool_field, number_field, usage_field, names_field, diagnostics_field, text_dict,
  assistant_content_to_dict, user_content_to_dict, usage_to_dict, stop_text, assistant_items,
  user_items, text_items, object_items, user_body,
}
use pi_agent_python.Ai.Codec.Read.{
  Conversions, cast_text, cast_bool, cons_ok, cast_texts, cast_objects, cast_names,
  cast_diagnostics, stop_reason_of, int_if_there, text_from, assistant_content_from_dict,
  user_content_from_dict, assistant_list, user_list, usage_from_dict, usage_if_object, body_from,
}
use pi_agent_python.Ai.Codec.Optional.{
  IsExact, read_text, read_bool, read_number, skip_text, skip_bool, skip_number,
}

pub cast_texts-text_items : (l : List String) → cast_texts (text_items l) ≡ ok l
unfolding cast_texts text_items
cast_texts-text_items [] = refl
cast_texts-text_items (s ∷ l) = ap (cons_ok s) (cast_texts-text_items l)

pub cast_objects-object_items : (l : List Fields) → cast_objects (object_items l) ≡ ok l
unfolding cast_objects object_items
cast_objects-object_items [] = refl
cast_objects-object_items (x ∷ l) = ap (cons_ok x) (cast_objects-object_items l)

pub read_names :
    (o : Option (List String)) → cast_names (get_field "addedToolNames" (names_field o end)) ≡ ok o
unfolding get_field
read_names none = refl
read_names (some l) = rw (cast_texts-text_items l) refl

pub read_diagnostics :
    (l : List Fields) → cast_diagnostics (get_field "diagnostics" (diagnostics_field l end)) ≡ ok l
unfolding get_field
read_diagnostics [] = refl
read_diagnostics (x ∷ l) = cast_objects-object_items (x ∷ l)

pub read_stop : (r : StopReason) → stop_reason_of (stop_text r) ≡ ok r
unfolding stop_reason_of
read_stop StopReason.pending = refl
read_stop StopReason.stop = refl
read_stop StopReason.length = refl
read_stop StopReason.tool_use = refl
read_stop StopReason.error = refl
read_stop StopReason.aborted = refl
read_stop StopReason.deferred = refl

module _ (c : Conversions) (x : IsExact c) where
  pub text_from-text_dict : (t : TextContent) → text_from c (text_dict t) ≡ ok t
  unfolding get_field
  text_from-text_dict t =
      rw (read_text "textSignature" end t.text_signature refl) (rw (x.text t.text) refl)

  pub assistant_content_round :
      (a : AssistantContent) → assistant_content_from_dict c (assistant_content_to_dict a) ≡ ok a
  unfolding assistant_content_from_dict assistant_content_to_dict
  assistant_content_round (AssistantContent.text t) =
      ap (λ r. r >>= λ t'. ok (AssistantContent.text t')) (text_from-text_dict t)
  assistant_content_round (AssistantContent.thinking t) =
      rw
        (read_text "thinkingSignature" (bool_field "redacted" t.redacted end) t.thinking_signature
          (skip_bool "redacted" end "thinkingSignature" refl t.redacted))
        (rw
          (ap cast_bool (
              skip_text "thinkingSignature" (bool_field "redacted" t.redacted end) "redacted" refl
                t.thinking_signature)
            ∙ read_bool "redacted" end t.redacted refl)
          (rw (x.text t.thinking) refl))
  assistant_content_round (AssistantContent.tool_call t) =
      rw
        (read_text "thoughtSignature" (text_field "namespace" t.namespace end) t.thought_signature
          (skip_text "namespace" end "thoughtSignature" refl t.namespace))
        (rw
          (ap cast_text (
              skip_text "thoughtSignature" (text_field "namespace" t.namespace end) "namespace" refl
                t.thought_signature)
            ∙ read_text "namespace" end t.namespace refl)
          (rw (x.text t.id, x.text t.name) refl))

  pub user_content_round :
      (a : UserContent) → user_content_from_dict c (user_content_to_dict a) ≡ ok a
  unfolding user_content_from_dict user_content_to_dict
  user_content_round (UserContent.text t) =
      ap (λ r. r >>= λ t'. ok (UserContent.text t')) (text_from-text_dict t)
  user_content_round (UserContent.image t) = rw (x.text t.payload, x.text t.mime_type) refl

  pub assistant_list-assistant_items :
      (l : List AssistantContent) → assistant_list c (assistant_items l) ≡ ok l
  unfolding assistant_list assistant_items
  assistant_list-assistant_items [] = refl
  assistant_list-assistant_items (a ∷ l) =
      ap (λ r. r >>= λ b. cons_ok b (assistant_list c (assistant_items l)))
        (assistant_content_round a)
      ∙ ap (cons_ok a) (assistant_list-assistant_items l)

  pub user_list-user_items : (l : List UserContent) → user_list c (user_items l) ≡ ok l
  unfolding user_list user_items
  user_list-user_items [] = refl
  user_list-user_items (a ∷ l) =
      ap (λ r. r >>= λ b. cons_ok b (user_list c (user_items l))) (user_content_round a)
      ∙ ap (cons_ok a) (user_list-user_items l)

  pub usage_from_dict-usage_to_dict : (u : Usage) → usage_from_dict c (usage_to_dict u) ≡ ok u
  unfolding usage_from_dict usage_to_dict
  usage_from_dict-usage_to_dict u =
      rw (x.number u.input, x.number u.output, x.number u.cache_read, x.number u.cache_write)
        (rw
          (read_number "cacheWrite1h" (number_field "reasoning" u.reasoning end) c u.cache_write_1h
            x (skip_number "reasoning" end "cacheWrite1h" refl u.reasoning))
          (rw
            (ap (int_if_there c) (
                skip_number "cacheWrite1h" (number_field "reasoning" u.reasoning end) "reasoning"
                  refl u.cache_write_1h)
              ∙ read_number "reasoning" end c u.reasoning x refl)
            (rw
              (
                x.number u.total_tokens,
                x.real u.cost.input,
                x.real u.cost.output,
                x.real u.cost.cache_read,
                x.real u.cost.cache_write,
                x.real u.cost.total,
              )
              refl)))

  pub body_from-user_body : (b : UserBody) → body_from c (some (user_body b)) ≡ ok b
  body_from-user_body (UserBody.plain s) = rw (x.text s) refl
  body_from-user_body (UserBody.blocks l) = rw (user_list-user_items l) refl

  pub read_usage :
      (o : Option Usage) (rest : Fields)
      → get_field "usage" rest ≡ none
      → usage_if_object c (get_field "usage" (usage_field o rest)) ≡ ok o
  unfolding get_field
  read_usage none rest h = rw h refl
  read_usage (some u) rest h = rw (usage_from_dict-usage_to_dict u) refl
