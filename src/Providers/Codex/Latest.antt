-- ===== src/Providers/Codex/Latest.antt =====
-- What the loop over the index keeps: for each session, its newest row.
use multi_agent_orchestrator.Prelude.{
  ◌≡◌, refl, ◌⊎◌, inl, inr, ◌↔◌, ◌≢◌, Bool, true, false, Option, none, some, String, List, [], ◌∷◌,
  ◌++◌, All, str_eq, eq_iff, arith, subst, ◌∙◌, sym, ap, if◌then◌else◌, Bool-cases, Option-cases,
}
use multi_agent_orchestrator.Prelude.Map.{get, get-insert}
use multi_agent_orchestrator.Prelude.Order.{at_least, at_least_total, at_least_trans}
use multi_agent_orchestrator.Providers.Codex.{CodexSessionIndexRow, Latest, keep_latest}

abbrev pub note_all : List CodexSessionIndexRow → Latest → Latest
note_all [] latest = latest
note_all (row ∷ rows) latest = note_all rows (keep_latest row latest)

-- The row of session `id` that is newest: later than each row of the session before it, and not
-- earlier than each one behind it.
abbrev pub Newest : String → List CodexSessionIndexRow → CodexSessionIndexRow → Type 0
Newest id rows r =
    (before : List CodexSessionIndexRow) × (after : List CodexSessionIndexRow) × (rows
      ≡ before ++ r ∷ after)
    × (r.id ≡ id)
    × All (λ b. b.id ≡ id → at_least b.updated_at r.updated_at ≡ false) before
    × All (λ a. a.id ≡ id → at_least r.updated_at a.updated_at ≡ true) after

abbrev newer : Option CodexSessionIndexRow → CodexSessionIndexRow → Option CodexSessionIndexRow
newer none r = some r
newer (some p) r = if at_least p.updated_at r.updated_at then some p else some r

abbrev pass :
    Bool → Option CodexSessionIndexRow → CodexSessionIndexRow → Option CodexSessionIndexRow
pass true kept r = newer kept r
pass false kept r = kept

-- The rows of one session alone, from what is kept so far.
abbrev newest :
    String → Option CodexSessionIndexRow → List CodexSessionIndexRow → Option CodexSessionIndexRow
newest id kept [] = kept
newest id kept (r ∷ rs) = newest id (pass (str_eq r.id id) kept r) rs

get-keep_latest :
    (id : String) (row : CodexSessionIndexRow) (m : Latest)
    → get id (keep_latest row m) ≡ pass (str_eq row.id id) (get id m) row
unfolding keep_latest
get-keep_latest id row m = elim (Option-cases (get row.id m)) [
  | inl h ↦ ground (arith, get-insert row.id id row m, eq_iff row.id id)
  | inr (p, h) ↦ ground (arith, get-insert row.id id row m, eq_iff row.id id)
]

get-note_all :
    (id : String) (rows : List CodexSessionIndexRow) (m : Latest)
    → get id (note_all rows m) ≡ newest id (get id m) rows
get-note_all id [] m = refl
get-note_all id (r ∷ rs) m =
    ground (arith, get-note_all id rs (keep_latest r m), get-keep_latest id r m)

abbrev Before : Option CodexSessionIndexRow → CodexSessionIndexRow → Type 0
Before none r = Unit
Before (some p) r = at_least p.updated_at r.updated_at ≡ false

not_later :
    (p h r : CodexSessionIndexRow)
    → at_least p.updated_at h.updated_at ≡ true
    → at_least p.updated_at r.updated_at ≡ false
    → at_least h.updated_at r.updated_at ≡ false
not_later p h r e f = ground (arith, at_least_trans p.updated_at h.updated_at r.updated_at)

later :
    (p h r : CodexSessionIndexRow)
    → at_least p.updated_at h.updated_at ≡ false
    → at_least h.updated_at r.updated_at ≡ false
    → at_least p.updated_at r.updated_at ≡ false
later p h r e f = ground (
  arith,
  at_least_trans h.updated_at p.updated_at r.updated_at,
  at_least_total p.updated_at h.updated_at,
)

module _ (id : String) (r : CodexSessionIndexRow) where
  unwrap : {p : CodexSessionIndexRow} → some p ≡ some r → p ≡ r
  unwrap e = cc

  abbrev Kept : Option CodexSessionIndexRow → List CodexSessionIndexRow → Type 0
  Kept kept rows =
      ((kept ≡ some r) × All (λ a. a.id ≡ id → at_least r.updated_at a.updated_at ≡ true) rows)
      ⊎ (Newest id rows r × Before kept r)

  -- A row of another session changes nothing.
  pass_over :
      (kept : Option CodexSessionIndexRow) (h : CodexSessionIndexRow)
      (rs : List CodexSessionIndexRow)
      → h.id ≢ id
      → Kept kept rs
      → Kept kept (h ∷ rs)
  pass_over kept h rs other (inl (e, rest)) = inl (e, ((λ same. absurd (other same)), rest))
  pass_over kept h rs other (inr ((before, after, split, same, lower, upper), past)) =
      inr ((h ∷ before, after, ground arith, same, ((λ s. absurd (other s)), lower), upper), past)

  -- The head replaces what is kept.
  replace :
      (kept : Option CodexSessionIndexRow) (h : CodexSessionIndexRow)
      (rs : List CodexSessionIndexRow)
      → h.id ≡ id
      → (Before (some h) r → Before kept r)
      → Before kept h
      → Kept (some h) rs
      → Kept kept (h ∷ rs)
  replace kept h rs same mono past (inl (e, rest)) =
      inr (([], rs, cc, cc, tt, rest), subst (Before kept) (unwrap e) past)
  replace kept h rs same mono past (inr ((before, after, split, id_r, lower, upper), below)) =
      inr ((h ∷ before, after, ground arith, id_r, ((λ s. below), lower), upper), mono below)

  retain :
      (p h : CodexSessionIndexRow) (rs : List CodexSessionIndexRow)
      → at_least p.updated_at h.updated_at ≡ true
      → Kept (some p) rs
      → Kept (some p) (h ∷ rs)
  retain p h rs up (inl (e, rest)) =
      inl (e, ((λ s. subst (λ q. at_least q.updated_at h.updated_at ≡ true) (unwrap e) up), rest))
  retain p h rs up (inr ((before, after, split, id_r, lower, upper), below)) = inr (
    (h ∷ before, after, ground arith, id_r, ((λ s. not_later p h r up below), lower), upper),
    below,
  )

  take_in :
      (kept : Option CodexSessionIndexRow) (h : CodexSessionIndexRow)
      (rs : List CodexSessionIndexRow)
      → h.id ≡ id
      → Kept (newer kept h) rs
      → Kept kept (h ∷ rs)
  take_in none h rs same k = replace none h rs same (λ b. tt) tt k
  take_in (some p) h rs same k = elim (Bool-cases (at_least p.updated_at h.updated_at)) [
    | inl up ↦ retain p h rs up (subst (λ b. Kept (if b then some p else some h) rs) up k)
    | inr down ↦
        replace (some p) h rs same (later p h r down) down
          (subst (λ b. Kept (if b then some p else some h) rs) down k)
  ]

  newest-Kept :
      (kept : Option CodexSessionIndexRow) (rows : List CodexSessionIndexRow)
      → newest id kept rows ≡ some r
      → Kept kept rows
  newest-Kept kept [] e = inl (e, tt)
  newest-Kept kept (h ∷ rs) e = elim (Bool-cases (str_eq h.id id)) [
    | inl same ↦
        take_in kept h rs (ground (arith, eq_iff h.id id))
          (newest-Kept (newer kept h) rs (ground arith))
    | inr other ↦
        pass_over kept h rs (ground (arith, eq_iff h.id id)) (newest-Kept kept rs (ground arith))
  ]

  newest-stays :
      (rows : List CodexSessionIndexRow)
      → All (λ a. a.id ≡ id → at_least r.updated_at a.updated_at ≡ true) rows
      → newest id (some r) rows ≡ some r
  newest-stays [] upper = refl
  newest-stays (h ∷ rs) (u, upper) = ground (arith, newest-stays rs upper, eq_iff h.id id)

  newer-past : (kept : Option CodexSessionIndexRow) → Before kept r → newer kept r ≡ some r
  newer-past none past = refl
  newer-past (some p) past = ground arith

  pass-Before :
      (b : Bool) (kept : Option CodexSessionIndexRow) (h : CodexSessionIndexRow)
      → Before kept r
      → (b ≡ true → at_least h.updated_at r.updated_at ≡ false)
      → Before (pass b kept h) r
  pass-Before false kept h past l = past
  pass-Before true none h past l = l refl
  pass-Before true (some p) h past l = elim (Bool-cases (at_least p.updated_at h.updated_at)) [
    | inl up ↦ subst (λ b. Before (if b then some p else some h) r) (sym up) past
    | inr down ↦ subst (λ b. Before (if b then some p else some h) r) (sym down) (l refl)
  ]

  newest-reach :
      (kept : Option CodexSessionIndexRow) (before after : List CodexSessionIndexRow)
      → r.id ≡ id
      → Before kept r
      → All (λ b. b.id ≡ id → at_least b.updated_at r.updated_at ≡ false) before
      → All (λ a. a.id ≡ id → at_least r.updated_at a.updated_at ≡ true) after
      → newest id kept (before ++ r ∷ after) ≡ some r
  newest-reach kept [] after same past lower upper =
      ap (λ o. newest id o after)
        (ap (λ b. pass b kept r) ((eq_iff r.id id).1 same) ∙ newer-past kept past)
      ∙ newest-stays after upper
  newest-reach kept (h ∷ before) after same past (l, lower) upper =
      newest-reach (pass (str_eq h.id id) kept h) before after same
        (pass-Before (str_eq h.id id) kept h past (λ e. l ((eq_iff h.id id).0 e))) lower upper

only_new :
    {id : String} {rows : List CodexSessionIndexRow} {r : CodexSessionIndexRow}
    → Kept id r none rows
    → Newest id rows r
only_new (inl (e, rest)) = cc
only_new (inr (new, past)) = new

-- For each session the loop keeps exactly the newest row of the index.
pub latest-Newest :
    (id : String) (rows : List CodexSessionIndexRow) (r : CodexSessionIndexRow)
    → (get id (note_all rows []) ≡ some r) ↔ Newest id rows r
unfolding get
latest-Newest id rows r = (
  λ e. only_new (newest-Kept id r none rows (sym (get-note_all id rows []) ∙ e)),
  λ (before, after, split, same, lower, upper).
      get-note_all id rows []
      ∙ ap (newest id none) split
      ∙ newest-reach id r none before after same tt lower upper,
)
