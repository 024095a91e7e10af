-- ===== src/Providers/Codex/Found.antt =====
-- Discovery in the session index of Codex: which session is found.
use multi_agent_orchestrator.Prelude.{
  ◌≡◌, ◌↔◌, Bool, true, Option, String, List, [], map, filter_by, sym, subst,
}
use multi_agent_orchestrator.Prelude.Text.{lines}
use multi_agent_orchestrator.State.{AgentRole, codex}
use multi_agent_orchestrator.Errors.{ok, ◌>>=◌, >>=-eq-ok}
use multi_agent_orchestrator.Files.{Files, IoResult, done, failed}
use multi_agent_orchestrator.Providers.Select.{one_session-eq-ok}
use multi_agent_orchestrator.Providers.Codex.{
  CodexSessionIndexRow, RowReader, read_index, values, is_candidate, select_codex, read_content,
  discover_by_thread_from_index_with_cwd_lookup,
}
use multi_agent_orchestrator.Providers.Codex.Latest.{note_all, Newest, latest-Newest}
use multi_agent_orchestrator.Providers.Codex.Unique.{
  OnlySession, note_all-Keyed, one-OnlySession, OnlySession-one,
}
use multi_agent_orchestrator.Providers.Codex.Index.{Rows, read_index-Rows, Rows-read_index}

-- A candidate is the newest row of `id`, and each newest row that is a candidate is of `id`.
abbrev pub OnlyNewest : (CodexSessionIndexRow → Bool) → List CodexSessionIndexRow → String → Type 0
OnlyNewest p rows id =
    ((r : CodexSessionIndexRow) × Newest id rows r × (p r ≡ true))
    × ((j : String) (r : CodexSessionIndexRow) → Newest j rows r → p r ≡ true → j ≡ id)

OnlySession-OnlyNewest :
    (p : CodexSessionIndexRow → Bool) (rows : List CodexSessionIndexRow) (id : String)
    → OnlySession p (note_all rows []) id ↔ OnlyNewest p rows id
OnlySession-OnlyNewest p rows id = (
  λ ((r, g, hit), u).
      ((r, (latest-Newest id rows r).0 g, hit), λ j s new. u j s ((latest-Newest j rows s).1 new)),
  λ ((r, new, hit), u).
      ((r, (latest-Newest id rows r).1 new, hit), λ j s g. u j s ((latest-Newest j rows s).0 g)),
)

select-OnlyNewest :
    (lookup : String → Option String) (name root : String) (role : AgentRole)
    (rows : List CodexSessionIndexRow) (id : String)
    → (select_codex lookup name root role (note_all rows []) ≡ ok id)
      ↔ OnlyNewest (is_candidate lookup name root) rows id
unfolding select_codex
select-OnlyNewest lookup name root role rows id =
    let p = is_candidate lookup name root in
    let m = note_all rows [] in
    let keyed = note_all-Keyed rows [] tt in
    let one = one_session-eq-ok role codex name (map (λ r. r.id) (filter_by p (values m))) id in
    (
      λ e. (OnlySession-OnlyNewest p rows id).0 (one-OnlySession p m id keyed (one.0 e)),
      λ o. one.1 (OnlySession-one p m id keyed ((OnlySession-OnlyNewest p rows id).1 o)),
    )

read_content-done :
    (role : AgentRole) (r : IoResult String) (content : String)
    → read_content role r ≡ ok content
    → r ≡ done content
unfolding read_content
read_content-done role (done c) content e = cc
read_content-done role (failed kind source) content e = cc

-- The index can be read, and `id` is the only session whose newest row is a candidate.
abbrev pub FoundIn :
    RowReader → Files → String → String → String → (String → Option String) → String → Type 0
FoundIn read_row files index_path name root lookup id =
    (content : String) × (rows : List CodexSessionIndexRow) × (files.read_to_string index_path
      ≡ done content)
    × Rows read_row (lines content) rows
    × OnlyNewest (is_candidate lookup name root) rows id

-- Codex discovery returns a session exactly when the index can be read, each line of it is blank or
-- a row, and the session is the only one whose newest row has the thread's name and a rollout that
-- was started in the workspace. Older rows of a session play no part.
pub discover_codex_iff :
    (read_row : RowReader) (files : Files) (index_path name : String) (role : AgentRole)
    (root : String) (lookup : String → Option String) (id : String)
    → (discover_by_thread_from_index_with_cwd_lookup read_row files index_path name role root lookup
        ≡ ok id)
      ↔ FoundIn read_row files index_path name root lookup id
unfolding discover_by_thread_from_index_with_cwd_lookup read_content
discover_codex_iff read_row files index_path name role root lookup id = (
  λ e.
      let select = select_codex lookup name root role in
      let (content, got, e1) =
        >>=-eq-ok (read_content role (files.read_to_string index_path))
          (λ content. read_index role read_row 0 (lines content) [] >>= select) e in
      let (kept, read, selected) =
        >>=-eq-ok (read_index role read_row 0 (lines content) []) select e1 in
      let (rows, are_rows, same) = read_index-Rows role read_row 0 (lines content) [] kept read in
      (
        content,
        rows,
        read_content-done role (files.read_to_string index_path) content got,
        are_rows,
        (select-OnlyNewest lookup name root role rows id).0
            (subst (λ m. select m ≡ ok id) (sym same) selected),
      ),
  λ (content, rows, got, are_rows, only).
      rw (got, Rows-read_index role read_row 0 [] are_rows)
        ((select-OnlyNewest lookup name root role rows id).1 only),
)
