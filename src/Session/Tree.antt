-- ===== src/Session/Tree.antt =====
-- src/pi_agent/harness/session/tree.py: the tree over the records of a session. The walks to the root
-- take fuel, one more than there are entries; `Session/Chain.antt` and its children are about its
-- being enough. `descendants` is not modelled.
use pi_agent_python.Base.{
  ℕ, zero, suc, String, Bool, true, false, not, Option, none, some, List, [], ◌∷◌, ◌++◌, reverse,
  if◌then◌else◌, beq, string_eq, option_eq,
}
use pi_agent_python.Base.Lists.{length, last?, contains}
use pi_agent_python.Base.Dict.{Dict, lookup, insert, erase, has_key}
use pi_agent_python.Base.Result.{Result, ok, err, ◌>>=◌, ◌>>◌, raise_if}
use pi_agent_python.Ai.Types.{Message}
use pi_agent_python.Session.Types.{
  SessionHeader, TreeEntry, EntryBody, SessionRecord, header, entry, cursor, SessionError,
}
use pi_agent_python.Session.Store.{Entries}

pub record SessionPath : Type 0 where
  pub header : SessionHeader
  pub entries : List TreeEntry

abbrev pub message_of : EntryBody → Option Message
message_of (EntryBody.message m) = some m
message_of _ = none

-- `SessionPath.messages`
unfoldable pub messages_of : List TreeEntry → List Message
messages_of [] = []
messages_of (e ∷ es) = elim (message_of e.body) [
  | none ↦ messages_of es
  | some m ↦ m ∷ messages_of es
]

abbrev pub Children : Type 0
Children = Dict (Option String) (List String)

-- `self.children.get(entry_id, ())`
unfoldable pub child_list : Option String → Children → List String
unfolding lookup
child_list p d = elim (lookup p d) [ none ↦ [] | some ids ↦ ids ]

-- `self.children[parent_id].append(id)` on a `defaultdict(list)`
unfoldable pub add_child : Option String → String → Children → Children
unfolding child_list insert
add_child p id d = insert p (child_list p d ++ id ∷ []) d

-- The local variables and fields of the loop of `SessionTree.__init__`.
pub record Build : Type 0 where
  pub entries : Entries
  pub order : List String
  pub children : Children
  pub requested_leaf : Option String
  pub cursor_seen : Bool

abbrev pub new_build : Build
new_build = record {
  entries = [];
  order = [];
  children = [];
  requested_leaf = none;
  cursor_seen = false;
}

abbrev pub build_step : Build → SessionRecord → Build
build_step b (header h) = b
build_step b (cursor c) = record b { requested_leaf = c.leaf_id; cursor_seen = true }
build_step b (entry e) = record b {
  entries = insert e.id e b.entries;
  order = b.order ++ e.id ∷ [];
  children = add_child e.parent_id e.id b.children;
}

unfoldable pub build : Build → List SessionRecord → Build
unfolding insert add_child
build b [] = b
build b (r ∷ rs) = build (build_step b r) rs

pub record SessionTree : Type 0 where
  pub header : SessionHeader
  pub entries : Entries
  pub order : List String
  pub children : Children
  pub leaf_id : Option String

abbrev pub tree_of : SessionHeader → Build → SessionTree
tree_of h b = record {
  header = h;
  entries = b.entries;
  order = b.order;
  children = b.children;
  leaf_id = if b.cursor_seen then b.requested_leaf else last? b.order;
}

-- `requested_leaf is not None and requested_leaf not in self.entries`
unfoldable pub check_leaf : Entries → Option String → Result SessionError Unit
unfolding lookup
check_leaf es none = ok tt
check_leaf es (some l) =
    raise_if (not (has_key l es)) (SessionError.cursor_references_unknown_entry l)

-- `SessionTree.__init__`
unfoldable pub new_tree : List SessionRecord → Result SessionError SessionTree
unfolding build check_leaf
new_tree [] = err SessionError.session_header_is_missing
new_tree (entry e ∷ rs) = err SessionError.session_header_is_missing
new_tree (cursor c ∷ rs) = err SessionError.session_header_is_missing
new_tree (header h ∷ rs) =
    let b = build new_build rs in (check_leaf b.entries b.requested_leaf >> ok (tree_of h b))

-- `SessionTree.get`
unfoldable pub get : SessionTree → String → Result SessionError TreeEntry
unfolding lookup
get t id = elim (lookup id t.entries) [ none ↦ err (SessionError.unknown_entry id) | some e ↦ ok e ]

-- The loop of `path_to`. The path is collected leaf first, and reversed by the caller.
unfoldable pub walk :
    ℕ → Entries → List String → Option String → Result SessionError (List TreeEntry)
unfolding lookup contains
walk zero es seen p = err SessionError.out_of_fuel
walk (suc fuel) es seen none = ok []
walk (suc fuel) es seen (some id) = elim (contains seen id) [
  | true ↦ err (SessionError.cycle_detected id)
  | false ↦ elim (lookup id es) [
    | none ↦ err (SessionError.unknown_entry id)
    | some e ↦ walk fuel es (id ∷ seen) e.parent_id >>= λ path. ok (e ∷ path)
  ]
]

unfoldable pub path_to : SessionTree → Option String → Result SessionError SessionPath
unfolding walk
path_to t id = do
  path ← walk (suc (length t.entries)) t.entries [] id
  ok (record { header = t.header; entries = reverse path })

unfoldable pub active_path : SessionTree → Result SessionError SessionPath
unfolding path_to
active_path t = path_to t t.leaf_id

-- The loop of `ancestor_ids`, which keeps no `seen` set.
unfoldable pub climb : ℕ → Entries → Option String → Result SessionError (List String)
unfolding lookup
climb zero es p = err SessionError.out_of_fuel
climb (suc fuel) es none = ok []
climb (suc fuel) es (some id) = elim (lookup id es) [
  | none ↦ err (SessionError.unknown_entry id)
  | some e ↦ climb fuel es e.parent_id >>= λ ids. ok (id ∷ ids)
]

unfoldable pub ancestor_ids : SessionTree → Option String → Bool → Result SessionError (List String)
unfolding climb get
ancestor_ids t none include_self = ok []
ancestor_ids t (some id) true = climb (suc (length t.entries)) t.entries (some id)
ancestor_ids t (some id) false = do
  e ← get t id
  climb (suc (length t.entries)) t.entries e.parent_id

-- `for candidate in ids: if candidate in right: return candidate`
unfoldable pub first_in : List String → List String → Option String
unfolding contains
first_in right [] = none
first_in right (c ∷ cs) = let rest = first_in right cs in if contains right c then some c else rest

unfoldable pub common_ancestor :
    SessionTree → Option String → Option String → Result SessionError (Option String)
unfolding ancestor_ids first_in
common_ancestor t left right = do
  rights ← ancestor_ids t right true
  lefts ← ancestor_ids t left true
  ok (first_in rights lefts)

unfoldable pub child_ids : SessionTree → Option String → List String
unfolding child_list
child_ids t id = child_list id t.children

-- `not self.children.get(entry_id)`
abbrev pub is_leaf : Children → String → Bool
is_leaf d id = elim (child_list (some id) d) [ [] ↦ true | _ ∷ _ ↦ false ]

unfoldable pub filter_leaves : Children → List String → List String
unfolding child_list
filter_leaves d [] = []
filter_leaves d (id ∷ ids) =
    let rest = filter_leaves d ids in if is_leaf d id then id ∷ rest else rest

unfoldable pub leaf_ids : SessionTree → List String
unfolding filter_leaves
leaf_ids t = filter_leaves t.children t.order

-- `path[index + 1:]` for the first index with the id; `next` of nothing raises `StopIteration`.
unfoldable pub after_id : String → List TreeEntry → Option (List TreeEntry)
after_id c [] = none
after_id c (e ∷ es) = let rest = after_id c es in if beq e.id c then some es else rest

unfoldable pub branch_delta :
    SessionTree → Option String → Option String → Result SessionError (List TreeEntry)
unfolding common_ancestor path_to after_id
branch_delta t from to = do
  common ← common_ancestor t from to
  path ← path_to t to
  elim common [
    | none ↦ ok path.entries
    | some c ↦ elim (after_id c path.entries) [
      | none ↦ err SessionError.stop_iteration
      | some es ↦ ok es
    ]
  ]

-- `labels`, over the bodies in `order`.
abbrev pub label_step : Dict String String → EntryBody → Dict String String
label_step d (EntryBody.label target none) = erase target d
label_step d (EntryBody.label target (some l)) = insert target l d
label_step d _ = d

unfoldable pub labels_from :
    Entries → Dict String String → List String → Result SessionError (Dict String String)
unfolding lookup insert erase
labels_from es d [] = ok d
labels_from es d (id ∷ ids) = elim (lookup id es) [
  | none ↦ err (SessionError.key_error id)
  | some e ↦ labels_from es (label_step d e.body) ids
]

unfoldable pub labels : SessionTree → Result SessionError (Dict String String)
unfolding labels_from
labels t = labels_from t.entries [] t.order
