-- ===== src/Tests/Conversation.antt =====
-- The messages and the session of the other tests: a question, a call of a tool, its result, an answer.
use pi_agent_python.Base.{String, refl, false, Option, none, some, List, [], ◌∷◌, string_eq, arith}
use pi_agent_python.Base.Dict.{lookup}
use pi_agent_python.Ai.Json.{null, str, end, field}
use pi_agent_python.Ai.Types.{
  Message, AssistantMessage, AssistantContent, ToolCall, UserBody, UserContent, StopReason,
  zero_usage,
}
use pi_agent_python.Session.Types.{
  SessionHeader, TreeEntry, EntryBody, CursorEntry, SessionRecord, header, entry, cursor,
}
use pi_agent_python.Session.Store.{Entries, check_cursor, tool_result_of}
use pi_agent_python.Session.Chain.{Chain, root, link}
use pi_agent_python.Session.Valid.Answers.{IsAnswered}
use pi_agent_python.Session.Valid.Records.{Accepts, Accepts-entry, Accepts-cursor}
use pi_agent_python.Session.Manager.{SessionManager, Stamp}
use pi_agent_python.Session.Manager.Appends.{IsSynced}
use pi_agent_python.Session.Manager.Fresh.{Accepts-nil}

abbrev pub question : Message
question = Message.user (record { content = UserBody.plain "What is in a.txt?"; timestamp = 1 })

abbrev pub thanks : Message
thanks = Message.user (record { content = UserBody.plain "Thanks"; timestamp = 5 })

abbrev pub says : List AssistantContent → AssistantMessage
says content = record {
  content = content;
  api = "openai";
  provider = "openai";
  model = "m";
  response_model = none;
  response_id = none;
  usage = zero_usage;
  stop_reason = StopReason.stop;
  error_message = none;
  raw_stop_reason = none;
  end_turn = none;
  diagnostics = [];
  timestamp = 2;
}

abbrev pub read_call : ToolCall
read_call = record {
  id = "c1";
  name = "read";
  arguments = field "path" (str "a.txt") end;
  thought_signature = none;
  namespace = none;
}

abbrev pub calling : AssistantMessage
calling = says (AssistantContent.tool_call read_call ∷ [])

abbrev pub reading : Message
reading = Message.tool_result (record {
  tool_call_id = "c1";
  tool_name = "read";
  content = UserContent.text (record { text = "hello"; text_signature = none }) ∷ [];
  details = null;
  usage = none;
  added_tool_names = none;
  is_error = false;
  timestamp = 3;
})

abbrev pub answer : Message
answer =
    Message.assistant (
      says (AssistantContent.text (record { text = "It says hello."; text_signature = none }) ∷ []))

abbrev pub talk : List Message
talk = question ∷ Message.assistant calling ∷ reading ∷ answer ∷ thanks ∷ []

abbrev pub head : SessionHeader
head = record {
  id = "s";
  cwd = "/w";
  version = 1;
  timestamp = 0;
  name = none;
  parent_session_id = none;
}

abbrev pub entry_of : String → Option String → Message → TreeEntry
entry_of id parent message = record {
  id = id;
  parent_id = parent;
  body = EntryBody.message message;
  timestamp = 1;
}

abbrev pub asked : TreeEntry
asked = entry_of "e1" none question

abbrev pub at_asked : CursorEntry
at_asked = record { leaf_id = some "e1"; timestamp = 1 }

-- The session after the question.
abbrev pub one_entry : Entries
one_entry = ("e1", asked) ∷ []

abbrev pub one_record : List SessionRecord
one_record = entry asked ∷ cursor at_asked ∷ []

abbrev pub begun : SessionManager
begun = record {
  store = record { records = header head ∷ one_record };
  loaded = record {
    records = header head ∷ one_record;
    warnings = [];
    valid_bytes = 0;
    ignored_tail = [];
  };
  tree = record {
    header = head;
    entries = one_entry;
    order = "e1" ∷ [];
    children = (none, "e1" ∷ []) ∷ [];
    leaf_id = some "e1";
  };
}

asked-IsAnswered : IsAnswered [] asked
unfolding tool_result_of
asked-IsAnswered = record { ancestors = []; chain = root; bounded = omega arith; answer = refl }

begun-Accepts : Accepts one_record one_entry (some at_asked)
unfolding lookup check_cursor
begun-Accepts = Accepts-cursor (Accepts-entry Accepts-nil asked refl asked-IsAnswered) at_asked refl

pub begun-IsSynced : IsSynced begun
unfolding lookup
begun-IsSynced = record {
  head = head;
  rest = one_record;
  last = some at_asked;
  stored = refl;
  version = refl;
  accepted = begun-Accepts;
  same_header = refl;
  leaf_known = refl;
}

abbrev pub stamp : Stamp
stamp = record { fresh = "e2"; now = 2; later = 3 }

pub asked-Chain : Chain one_entry (some "e1") (asked ∷ [])
unfolding lookup
asked-Chain = link refl root
