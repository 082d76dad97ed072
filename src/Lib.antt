-- ===== src/Lib.antt =====
-- pi-agent: the core of an agent for coding, in Python (src/pi_agent).
--
-- The program keeps each conversation as a session: a list of records, append-only, that form a tree
-- of entries. A manager writes entries and moves the leaf; the branch of the leaf is the conversation
-- that the model sees. When the branch is too long it is compacted: its old part is replaced by a
-- summary, which is itself an entry. Output of tools is cut to limits before it enters a message.
-- Calls of tools go through a policy and the approvals of the session. Answers of a provider come as
-- a stream of events. The loop of the agent asks the provider, runs the calls of its answer, and goes
-- on until an answer makes no call and no message is queued; it tells all this as events. A session
-- is kept in a file of one line of JSON for each record.
--
-- Files, and what they model:
--   Ai/Types, Ai/Json          src/pi_agent/ai/types.py: messages, content, usage, JSON values
--   Ai/Codec                   src/pi_agent/ai/types.py: `content_to_dict` to `message_from_dict`
--   Ai/Events                  src/pi_agent/ai/events.py: the events of a message
--   Ai/EventStream             src/pi_agent/ai/event_stream.py: `EventStream` (push, end, next)
--   Agent/Queues               src/pi_agent/agent/queues.py: `MessageQueue`
--   Agent/Types                src/pi_agent/agent/types.py and events.py
--   Agent/Schema               src/pi_agent/agent/schema.py: `validate_json_schema`
--   Agent/Loop                 src/pi_agent/agent/event_stream.py and agent_loop.py: the state of a run
--   Agent/Loop/Tools, Batch, Turn, Run
--                              src/pi_agent/agent/agent_loop.py: a call, a batch of calls, the answer
--                              of the provider, `_run_loop` and `_run_guarded`
--   Session/Types              src/pi_agent/harness/session/types.py: records and entries
--   Session/Store              src/pi_agent/harness/session/store.py: `validate_records`, the store
--                              in memory (new_store, load, append)
--   Session/Codec              src/pi_agent/harness/session/codec.py
--   Session/Jsonl              src/pi_agent/harness/session/store.py: `decode_jsonl` and
--                              `JsonlSessionStore` over the bytes of its file
--   Session/Tree               src/pi_agent/harness/session/tree.py: `SessionTree`
--   Session/Manager            src/pi_agent/harness/session/manager.py: `SessionManager`; each method
--                              takes the manager and gives it back, also where it raises
--   Session/Context            src/pi_agent/harness/session/context.py: `reconstruct_context`
--   Tools/Edit                 src/pi_agent/harness/tools/edit.py: from the decoded file to the text
--                              that is written
--   Truncate                   src/pi_agent/harness/truncate.py
--   Compaction/Tokens          src/pi_agent/harness/compaction/token_estimator.py
--   Compaction/Cut, Prepare, Compact, Session
--                              src/pi_agent/harness/compaction/compaction.py and types.py
--   Compaction/Branch          src/pi_agent/harness/compaction/branch.py
--   Security/Types, Policy     src/pi_agent/security/types.py and policy.py
--   Security/Approval, Console src/pi_agent/security/approval.py: `authorize` in the three stages
--                              between which other calls may run, and as a whole
-- Session/Chain, Session/Valid, the other children of Agent/Loop and the children of the files above
-- hold the proofs. Base has the shared helpers; Tests the runs on concrete data.
--
-- Numbers are natural numbers of any size, as Python's are where they are not negative. Floats are
-- carried as bit patterns and never computed with. A text is a string, or the list of its code points
-- where the program walks it. Exceptions are values (`Result`). The walks up the tree take fuel, one
-- more than there are entries; enough, since a step never returns to an entry seen (`path_to`), or
-- since the records are valid, so that parents come before children. The check of a schema takes as
-- much fuel as the schema has values. The loop of the agent takes a unit of fuel for each turn; a
-- provider that always makes calls never ends it.
--
-- Arguments of the model stand for what is not code of the repository: json.dumps, fnmatch, the
-- equality of JSON values, case folding, the clock and new ids, the summarizer and the hooks of a
-- caller, and the judgement of shell commands and paths. For the loop these are functions of a world
-- that they may change: provider, tools, hooks, sink, clock, token, and the order in which the tasks
-- of a parallel batch complete. For the files these are json with the encoding, and what `str`, `int`
-- and `float` make of a value.
--
-- Not modelled: how the tasks of a parallel batch interleave, and their cancellation; what a hook does
-- to an object that it is given; the locks of a session file; the stateful `Agent`, the providers, the
-- other tools, which touch files and processes, the terminal interface, telemetry and the command line.
pub mod Base
pub mod Agent
pub mod Ai
pub mod Compaction
pub mod Security
pub mod Session
pub mod Tests
pub mod Tools
pub mod Truncate
