-- ===== src/Session/Chain/Path.antt =====
-- `path_to` of src/pi_agent/harness/session/tree.py, against the chain of parents.
use pi_agent_python.Base.{
  suc, String, ◌≡◌, ◌≢◌, ◌↔◌, sym, ap, ◌∙◌, Option, List, [], reverse, reverse-reverse, arith,
  string_eq,
}
use pi_agent_python.Base.Lists.{length}
use pi_agent_python.Base.Result.{ok, err, >>=-eq-ok}
use pi_agent_python.Session.Types.{TreeEntry, SessionError}
use pi_agent_python.Session.Tree.{SessionTree, SessionPath, walk, path_to}
use pi_agent_python.Session.Chain.{Chain, walk-Chain, path_lem, walk_ends, ok_eq}

-- On every tree, valid or not, `path_to` ends: the fuel of the model is never used up.
pub path_to_terminates :
    (t : SessionTree) (id : Option String) → path_to t id ≢ err SessionError.out_of_fuel
unfolding path_to
path_to_terminates t id = λ h. walk_ends t.entries id (ground arith)

-- `path_to` returns a path exactly when the parents of the entry form a chain that ends at a root;
-- the path is that chain from the root down to the entry.
pub path_to-Chain :
    (t : SessionTree) (id : Option String) (path : List TreeEntry)
    → (path_to t id ≡ ok (record { header = t.header; entries = reverse path }))
      ↔ Chain t.entries id path
unfolding path_to
path_to-Chain t id path = (returned, λ c. rw (path_lem t.entries c))
  where
    returned :
        path_to t id ≡ ok (record { header = t.header; entries = reverse path })
        → Chain t.entries id path
    returned h =
        let (walked, w, same) = >>=-eq-ok (walk (suc (length t.entries)) t.entries [] id) _ h in
        let turned : reverse walked ≡ reverse path = ap SessionPath.entries (ok_eq same) in
        let back : walked ≡ path =
          sym (reverse-reverse walked) ∙ ap reverse turned ∙ reverse-reverse path in
        rw (← back) (walk-Chain (suc (length t.entries)) t.entries [] id walked w)
