-- ===== src/Providers/Codex/Index.antt =====
-- The loop over the lines of the session index of Codex.
use multi_agent_orchestrator.Prelude.{
  ◌≡◌, refl, ◌⊎◌, inl, inr, ℕ, suc, true, false, Option, none, some, String, List, [], ◌∷◌, arith,
  subst, Bool-cases,
}
use multi_agent_orchestrator.Prelude.Text.{trim, is_empty_text}
use multi_agent_orchestrator.State.{AgentRole}
use multi_agent_orchestrator.Errors.{Result, ok, >>=-eq-ok}
use multi_agent_orchestrator.Providers.Codex.{
  CodexSessionIndexRow, RowReader, Latest, keep_latest, parsed, index_line, note_row, read_index,
}
use multi_agent_orchestrator.Providers.Codex.Latest.{note_all}

-- The rows that the lines of an index hold: blank lines are skipped, every other line is a row.
pub data Rows (read_row : RowReader) : List String → List CodexSessionIndexRow → Type 0 where
  end_of_index : Rows read_row [] []
  blank_line :
      {line : String} {ls : List String} {rs : List CodexSessionIndexRow}
      → is_empty_text (trim line) ≡ true
      → Rows read_row ls rs
      → Rows read_row (line ∷ ls) rs
  row_line :
      {line : String} {r : CodexSessionIndexRow} {ls : List String} {rs : List CodexSessionIndexRow}
      → is_empty_text (trim line) ≡ false
      → read_row line ≡ inr r
      → Rows read_row ls rs
      → Rows read_row (line ∷ ls) (r ∷ rs)

blank_none :
    (o : Option CodexSessionIndexRow)
    → Path (Result (Option CodexSessionIndexRow)) (ok none) (ok o)
    → none ≡ o
blank_none o e = cc

module _ (role : AgentRole) (read_row : RowReader) where
  -- What a line gives to the loop.
  abbrev LineIs : String → Option CodexSessionIndexRow → Type 0
  LineIs line none = is_empty_text (trim line) ≡ true
  LineIs line (some r) = (is_empty_text (trim line) ≡ false) × (read_row line ≡ inr r)

  parsed-LineIs :
      (n : ℕ) (line : String) (x : String ⊎ CodexSessionIndexRow) (o : Option CodexSessionIndexRow)
      → is_empty_text (trim line) ≡ false
      → read_row line ≡ x
      → parsed role read_row n x ≡ ok o
      → LineIs line o
  unfolding parsed
  parsed-LineIs n line (inl t) o filled r e = cc
  parsed-LineIs n line (inr row) none filled r e = cc
  parsed-LineIs n line (inr row) (some s) filled r e = (filled, cc)

  index_line-LineIs :
      (n : ℕ) (line : String) (o : Option CodexSessionIndexRow)
      → index_line role read_row n line ≡ ok o
      → LineIs line o
  unfolding index_line
  index_line-LineIs n line o e = elim (Bool-cases (is_empty_text (trim line))) [
    | inl empty ↦ subst (LineIs line) (blank_none o (ground arith)) empty
    | inr filled ↦ parsed-LineIs n line (read_row line) o filled refl (ground arith)
  ]

  add_line :
      (line : String) (o : Option CodexSessionIndexRow) {ls : List String} (m kept : Latest)
      → LineIs line o
      → (rows : List CodexSessionIndexRow) × Rows read_row ls rows
        × (note_all rows (note_row role read_row o m) ≡ kept)
      → (rows : List CodexSessionIndexRow) × Rows read_row (line ∷ ls) rows
        × (note_all rows m ≡ kept)
  add_line line none m kept is (rows, rest, e) = (rows, blank_line is rest, e)
  add_line line (some r) m kept is (rows, rest, e) = (r ∷ rows, row_line is.0 is.1 rest, e)

  pub read_index-Rows :
      (n : ℕ) (ls : List String) (m kept : Latest)
      → read_index role read_row n ls m ≡ ok kept
      → (rows : List CodexSessionIndexRow) × Rows read_row ls rows × (note_all rows m ≡ kept)
  unfolding read_index
  read_index-Rows n [] m kept e = ([], end_of_index, cc)
  read_index-Rows n (line ∷ ls) m kept e =
      let (o, first, rest) =
        >>=-eq-ok (index_line role read_row n line)
          (λ row. read_index role read_row (suc n) ls (note_row role read_row row m)) e in
      add_line line o m kept (index_line-LineIs n line o first)
        (read_index-Rows (suc n) ls (note_row role read_row o m) kept rest)

  pub Rows-read_index :
      (n : ℕ) {ls : List String} {rows : List CodexSessionIndexRow} (m : Latest)
      → Rows read_row ls rows
      → read_index role read_row n ls m ≡ ok (note_all rows m)
  unfolding read_index index_line parsed
  Rows-read_index n m end_of_index = refl
  Rows-read_index n m (blank_line {line} {ls} b rest) = rw b (Rows-read_index (suc n) m rest)
  Rows-read_index n m (row_line {line} {r} {ls} b e rest) =
      rw (b, e) (Rows-read_index (suc n) (keep_latest r m) rest)
