-- ===== src/Ai/Codec/RoundTrip.antt =====
-- Writing and reading again the dictionaries of src/pi_agent/ai/types.py.
use pi_agent_python.Base.{◌≡◌, refl, ap, ◌∙◌, string_eq}
use pi_agent_python.Base.Result.{ok}
use pi_agent_python.Ai.Json.{Fields, end, get_field}
use pi_agent_python.Ai.Types.{UserMessage, AssistantMessage, ToolResultMessage, Message}
use pi_agent_python.Ai.Codec.{
  text_field, bool_field, names_field, diagnostics_field, message_to_dict,
}
use pi_agent_python.Ai.Codec.Read.{
  Conversions, cast_text, cast_bool, cast_names, cast_diagnostics, message_from_dict,
}
use pi_agent_python.Ai.Codec.Optional.{
  IsExact, read_text, read_bool, skip_text, skip_bool, skip_diagnostics, skip_usage, skip_names,
}
use pi_agent_python.Ai.Codec.Contents.{
  read_names, read_diagnostics, read_stop, assistant_list-assistant_items, user_list-user_items,
  usage_from_dict-usage_to_dict, body_from-user_body, read_usage,
}

module _ (c : Conversions) (x : IsExact c) where
  tool_result_round :
      (m : ToolResultMessage)
      → message_from_dict c (message_to_dict (Message.tool_result m)) ≡ ok (Message.tool_result m)
  unfolding message_from_dict message_to_dict
  tool_result_round m = rw (user_list-user_items c x m.content) (
      rw
        (read_usage c x m.usage (names_field m.added_tool_names end)
          (skip_names "usage" m.added_tool_names end refl))
        (rw
          (ap cast_names
              (skip_usage "addedToolNames" m.usage (names_field m.added_tool_names end) refl)
            ∙ read_names m.added_tool_names)
          (rw (x.number m.timestamp, x.text m.tool_call_id, x.text m.tool_name) refl)))

  user_round :
      (m : UserMessage)
      → message_from_dict c (message_to_dict (Message.user m)) ≡ ok (Message.user m)
  unfolding message_from_dict message_to_dict
  user_round m = rw (body_from-user_body c x m.content) (rw (x.number m.timestamp) refl)

  -- The optional keys of an assistant's message, from each one on.
  module _ (m : AssistantMessage) where
    abbrev from_diagnostics : Fields
    from_diagnostics = diagnostics_field m.diagnostics end

    abbrev from_end_turn : Fields
    from_end_turn = bool_field "endTurn" m.end_turn from_diagnostics

    abbrev from_raw : Fields
    from_raw = text_field "rawStopReason" m.raw_stop_reason from_end_turn

    abbrev from_error : Fields
    from_error = text_field "errorMessage" m.error_message from_raw

    abbrev from_id : Fields
    from_id = text_field "responseId" m.response_id from_error

    abbrev from_model : Fields
    from_model = text_field "responseModel" m.response_model from_id

    read_end_turn : cast_bool (get_field "endTurn" from_model) ≡ ok m.end_turn
    unfolding get_field
    read_end_turn =
        ap cast_bool (
          skip_text "responseModel" from_id "endTurn" refl m.response_model
          ∙ skip_text "responseId" from_error "endTurn" refl m.response_id
          ∙ skip_text "errorMessage" from_raw "endTurn" refl m.error_message
          ∙ skip_text "rawStopReason" from_end_turn "endTurn" refl m.raw_stop_reason)
        ∙ read_bool "endTurn" from_diagnostics m.end_turn
            (skip_diagnostics "endTurn" m.diagnostics end refl)

    read_raw : cast_text (get_field "rawStopReason" from_model) ≡ ok m.raw_stop_reason
    unfolding get_field
    read_raw =
        ap cast_text (
          skip_text "responseModel" from_id "rawStopReason" refl m.response_model
          ∙ skip_text "responseId" from_error "rawStopReason" refl m.response_id
          ∙ skip_text "errorMessage" from_raw "rawStopReason" refl m.error_message)
        ∙ read_text "rawStopReason" from_end_turn m.raw_stop_reason (
            skip_bool "endTurn" from_diagnostics "rawStopReason" refl m.end_turn
            ∙ skip_diagnostics "rawStopReason" m.diagnostics end refl)

    read_error : cast_text (get_field "errorMessage" from_model) ≡ ok m.error_message
    unfolding get_field
    read_error =
        ap cast_text (
          skip_text "responseModel" from_id "errorMessage" refl m.response_model
          ∙ skip_text "responseId" from_error "errorMessage" refl m.response_id)
        ∙ read_text "errorMessage" from_raw m.error_message (
            skip_text "rawStopReason" from_end_turn "errorMessage" refl m.raw_stop_reason
            ∙ skip_bool "endTurn" from_diagnostics "errorMessage" refl m.end_turn
            ∙ skip_diagnostics "errorMessage" m.diagnostics end refl)

    read_id : cast_text (get_field "responseId" from_model) ≡ ok m.response_id
    unfolding get_field
    read_id =
        ap cast_text (skip_text "responseModel" from_id "responseId" refl m.response_model)
        ∙ read_text "responseId" from_error m.response_id (
            skip_text "errorMessage" from_raw "responseId" refl m.error_message
            ∙ skip_text "rawStopReason" from_end_turn "responseId" refl m.raw_stop_reason
            ∙ skip_bool "endTurn" from_diagnostics "responseId" refl m.end_turn
            ∙ skip_diagnostics "responseId" m.diagnostics end refl)

    read_model : cast_text (get_field "responseModel" from_model) ≡ ok m.response_model
    unfolding get_field
    read_model = read_text "responseModel" from_id m.response_model (
        skip_text "responseId" from_error "responseModel" refl m.response_id
        ∙ skip_text "errorMessage" from_raw "responseModel" refl m.error_message
        ∙ skip_text "rawStopReason" from_end_turn "responseModel" refl m.raw_stop_reason
        ∙ skip_bool "endTurn" from_diagnostics "responseModel" refl m.end_turn
        ∙ skip_diagnostics "responseModel" m.diagnostics end refl)

    read_all_diagnostics : cast_diagnostics (get_field "diagnostics" from_model) ≡ ok m.diagnostics
    read_all_diagnostics =
        ap cast_diagnostics (
          skip_text "responseModel" from_id "diagnostics" refl m.response_model
          ∙ skip_text "responseId" from_error "diagnostics" refl m.response_id
          ∙ skip_text "errorMessage" from_raw "diagnostics" refl m.error_message
          ∙ skip_text "rawStopReason" from_end_turn "diagnostics" refl m.raw_stop_reason
          ∙ skip_bool "endTurn" from_diagnostics "diagnostics" refl m.end_turn)
        ∙ read_diagnostics m.diagnostics

    assistant_round :
        message_from_dict c (message_to_dict (Message.assistant m)) ≡ ok (Message.assistant m)
    unfolding message_from_dict message_to_dict
    assistant_round = rw (assistant_list-assistant_items c x m.content) (
        rw read_model (
          rw read_id (
            rw (usage_from_dict-usage_to_dict c x m.usage) (
              rw (read_stop m.stop_reason) (
                rw read_error (
                  rw read_raw (
                    rw read_end_turn (
                      rw read_all_diagnostics (
                        rw (x.number m.timestamp, x.text m.api, x.text m.provider, x.text m.model)
                          refl)))))))))

  -- Where `str`, `int` and `float` leave texts and numbers as they are, a message of any kind that is
  -- written as a dictionary is read back as it was.
  pub message_from_dict-message_to_dict :
      (m : Message) → message_from_dict c (message_to_dict m) ≡ ok m
  message_from_dict-message_to_dict (Message.user m) = user_round m
  message_from_dict-message_to_dict (Message.assistant m) = assistant_round m
  message_from_dict-message_to_dict (Message.tool_result m) = tool_result_round m
