-- ===== src/Session/Manager/Fresh.antt =====
-- `SessionManager.in_memory` of src/pi_agent/harness/session/manager.py.
use pi_agent_python.Base.{String, ◌≡◌, refl, Option, none, [], ◌∷◌, string_eq}
use pi_agent_python.Base.Result.{ok}
use pi_agent_python.Session.Types.{SessionHeader, header}
use pi_agent_python.Session.Store.{scan, check_cursor}
use pi_agent_python.Session.Valid.{IsForest-nil}
use pi_agent_python.Session.Valid.Records.{Accepts}
use pi_agent_python.Session.Manager.{SessionManager, Stamp, or_else, in_memory, active_messages}
use pi_agent_python.Session.Manager.Appends.{IsSynced}

pub Accepts-nil : Accepts [] [] none
Accepts-nil = record {
  scanned = unfold scan in refl;
  forest = IsForest-nil;
  answered = tt;
  selected = unfold check_cursor in refl;
}

abbrev pub new_header : String → Option String → Option String → Stamp → SessionHeader
new_header cwd name session_id stamp = record {
  id = or_else session_id stamp.fresh;
  cwd = cwd;
  version = 1;
  timestamp = stamp.now;
  name = name;
  parent_session_id = none;
}

abbrev pub new_session : SessionHeader → SessionManager
new_session h = record {
  store = record { records = header h ∷ [] };
  loaded = record { records = header h ∷ []; warnings = []; valid_bytes = 0; ignored_tail = [] };
  tree = record { header = h; entries = []; order = []; children = []; leaf_id = none };
}

-- `SessionManager.in_memory` always succeeds, with a manager in step with its store whose tree and
-- conversation are empty.
pub in_memory-IsSynced :
    (cwd : String) (name session_id : Option String) (stamp : Stamp)
    → (m : SessionManager) × (in_memory cwd name session_id stamp ≡ ok m)
      × IsSynced m
      × (m.tree.entries ≡ [])
      × (active_messages m ≡ ok [])
unfolding in_memory active_messages
in_memory-IsSynced cwd name session_id stamp = (
  new_session (new_header cwd name session_id stamp),
  refl,
  record {
    head = new_header cwd name session_id stamp;
    rest = [];
    last = none;
    stored = refl;
    version = refl;
    accepted = Accepts-nil;
    same_header = refl;
    leaf_known = refl;
  },
  refl,
  refl,
)
