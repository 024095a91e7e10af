-- ===== src/Providers/Opencode/Found.antt =====
-- Which session the discovery of OpenCode finds.
use multi_agent_orchestrator.Prelude.{
  ◌≡◌, refl, ap, ◌∙◌, ◌↔◌, true, false, String, List, [], ◌∷◌, map, filter_by,
}
use multi_agent_orchestrator.State.{AgentRole, opencode}
use multi_agent_orchestrator.Errors.{Result, ok, err, panic, >>=-eq-ok}
use multi_agent_orchestrator.Env.{Output, not_run, exited}
use multi_agent_orchestrator.Providers.Select.{one_session-eq-ok, Only, filter_by-Only}
use multi_agent_orchestrator.Providers.Opencode.{
  OpenCodeSessionRow, RowsReader, bind_error, session_list, parse_session_rows,
  parse_session_rows_for_bind, is_candidate, select_row, of_list, discover_by_thread,
}

bind_error-ok :
    (role : AgentRole) (r : Result (List OpenCodeSessionRow)) (rows : List OpenCodeSessionRow)
    → (bind_error role r ≡ ok rows) ↔ (r ≡ ok rows)
bind_error-ok role (ok rows') rows = ((λ e. e), (λ e. e))
bind_error-ok role (err x) rows = ((λ e. cc), (λ e. cc))
bind_error-ok role panic rows = ((λ e. cc), (λ e. cc))

one_id :
    (rows : List OpenCodeSessionRow) (id : String)
    → map (λ q. q.row_id) rows ≡ id ∷ []
    → (row : OpenCodeSessionRow) × (rows ≡ row ∷ []) × (row.row_id ≡ id)
one_id [] id e = cc
one_id (a ∷ []) id e = (a, refl, cc)
one_id (a ∷ b ∷ rows) id e = cc

module _ (read_rows : RowsReader) (role : AgentRole) (repo name : String) where
  -- The listing succeeded, its rows can be read, and `id` is that of the only row with the
  -- workspace's directory and the thread's title.
  abbrev pub Lists : Output → String → Type 0
  Lists output id =
      (status : String) × (stdout : String) × (stderr : String) × (rows : List OpenCodeSessionRow)
      × (row : OpenCodeSessionRow) × (output ≡ exited true status stdout stderr)
      × (parse_session_rows read_rows stdout ≡ ok rows)
      × Only (is_candidate read_rows role repo name) rows row
      × (row.row_id ≡ id)

  select_row-Only :
      (rows : List OpenCodeSessionRow) (id : String)
      → (select_row read_rows role repo name rows ≡ ok id) ↔ (
          (row : OpenCodeSessionRow) × Only (is_candidate read_rows role repo name) rows row
          × (row.row_id ≡ id))
  unfolding select_row
  select_row-Only [] id = (
    (λ e. cc),
    (λ (row, only, same).
        let e = (filter_by-Only (is_candidate read_rows role repo name) [] row).1 only in cc),
  )
  select_row-Only (r ∷ rows) id =
      let cand = is_candidate read_rows role repo name in
      let one =
        one_session-eq-ok role opencode name (map (λ q. q.row_id) (filter_by cand (r ∷ rows))) id in
      (
        λ e.
            let (row, only, same) = one_id (filter_by cand (r ∷ rows)) id (one.0 e) in
            (row, (filter_by-Only cand (r ∷ rows) row).0 only, same),
        λ (row, only, same). one.1 (
            ap (map (λ q. q.row_id)) ((filter_by-Only cand (r ∷ rows) row).1 only)
            ∙ ap (λ i. i ∷ []) same),
      )

  of_list-Lists :
      (output : Output) (id : String)
      → of_list read_rows role repo name output ≡ ok id
      → Lists output id
  unfolding parse_session_rows_for_bind
  of_list-Lists (not_run kind source) id e = cc
  of_list-Lists (exited false status stdout stderr) id e = cc
  of_list-Lists (exited true status stdout stderr) id e =
      let (rows, read, selected) =
        >>=-eq-ok (bind_error role (parse_session_rows read_rows stdout))
          (select_row read_rows role repo name) e in
      let (row, only, same) = (select_row-Only rows id).0 selected in
      (
        status,
        stdout,
        stderr,
        rows,
        row,
        refl,
        (bind_error-ok role (parse_session_rows read_rows stdout) rows).0 read,
        only,
        same,
      )

-- OpenCode discovery returns a session exactly when the listing succeeds, its output can be read,
-- and the session's row is the only one with the workspace's directory and the thread's title.
pub discover_opencode_iff :
    (read_rows : RowsReader) (role : AgentRole) (repo name : String)
    (run_opencode : List String → Output) (id : String)
    → (discover_by_thread read_rows role repo name run_opencode ≡ ok id)
      ↔ Lists read_rows role repo name (run_opencode session_list) id
unfolding discover_by_thread parse_session_rows_for_bind
discover_opencode_iff read_rows role repo name run_opencode id = (
  of_list-Lists read_rows role repo name (run_opencode session_list) id,
  λ (status, stdout, stderr, rows, row, listed, read, only, same).
      rw (listed, (bind_error-ok role (parse_session_rows read_rows stdout) rows).1 read)
        ((select_row-Only read_rows role repo name rows id).1 (row, only, same)),
)
