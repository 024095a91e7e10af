-- ===== src/Providers/Codex/Unique.antt =====
-- The rows that the selection in the index of Codex leaves: a session stands in the map once.
use multi_agent_orchestrator.Prelude.{
  ◌≡◌, refl, inl, inr, Bool, true, false, none, some, String, List, [], ◌∷◌, str_eq, eq_iff, arith,
  map, filter_by, subst, if◌then◌else◌, Bool-cases,
}
use multi_agent_orchestrator.Prelude.Map.{get, insert, get-insert}
use multi_agent_orchestrator.Prelude.Order.{at_least}
use multi_agent_orchestrator.Providers.Codex.{CodexSessionIndexRow, Latest, keep_latest, values}
use multi_agent_orchestrator.Providers.Codex.Latest.{note_all}

-- Each row stands under its own session, once.
abbrev Keyed : Latest → Type 0
Keyed [] = Unit
Keyed ((k, r) ∷ m) = (r.id ≡ k) × (get k m ≡ none) × Keyed m

insert_case :
    (r w : CodexSessionIndexRow) (j : String) (m : Latest) (b : Bool)
    → str_eq j r.id ≡ b
    → (w.id ≡ j) × (get j m ≡ none) × Keyed m
    → Keyed (insert r.id r m)
    → Keyed (if b then (r.id, r) ∷ m else (j, w) ∷ insert r.id r m)
insert_case r w j m true e (same, fresh, keyed) rest =
    (refl, subst (λ k. get k m ≡ none) ((eq_iff j r.id).0 e) fresh, keyed)
insert_case r w j m false e (same, fresh, keyed) rest =
    (same, ground (arith, get-insert r.id j r m, eq_iff r.id j, eq_iff j r.id), rest)

insert-Keyed : (r : CodexSessionIndexRow) (m : Latest) → Keyed m → Keyed (insert r.id r m)
unfolding get insert
insert-Keyed r [] k = (refl, refl, tt)
insert-Keyed r ((j, w) ∷ m) k = insert_case r w j m (str_eq j r.id) refl k (insert-Keyed r m k.2)

keep_latest-Keyed : (r : CodexSessionIndexRow) (m : Latest) → Keyed m → Keyed (keep_latest r m)
unfolding keep_latest
keep_latest-Keyed r m k =
    elim (get r.id m)
      as (λ o. Keyed (elim o [
        | none ↦ insert r.id r m
        | some prev ↦ if at_least prev.updated_at r.updated_at then m else insert r.id r m
      ])) [
        | none ↦ insert-Keyed r m k
        | some prev ↦
            elim (at_least prev.updated_at r.updated_at)
              as (λ b. Keyed (if b then m else insert r.id r m)) [
                | true ↦ k
                | false ↦ insert-Keyed r m k
              ]
      ]

pub note_all-Keyed :
    (rows : List CodexSessionIndexRow) (m : Latest) → Keyed m → Keyed (note_all rows m)
note_all-Keyed [] m k = k
note_all-Keyed (r ∷ rows) m k = note_all-Keyed rows (keep_latest r m) (keep_latest-Keyed r m k)

module _ (p : CodexSessionIndexRow → Bool) where
  -- No session is kept with a row that passes.
  abbrev NoSession : Latest → Type 0
  NoSession m = (j : String) (r : CodexSessionIndexRow) → get j m ≡ some r → p r ≡ false

  -- The session `id` is kept with a row that passes, and no other session is.
  abbrev pub OnlySession : Latest → String → Type 0
  OnlySession m id =
      ((r : CodexSessionIndexRow) × (get id m ≡ some r) × (p r ≡ true))
      × ((j : String) (r : CodexSessionIndexRow) → get j m ≡ some r → p r ≡ true → j ≡ id)

  none-NoSession : (m : Latest) → filter_by p (values m) ≡ [] → NoSession m
  unfolding get
  none-NoSession [] e j r g = cc
  none-NoSession ((i, w) ∷ m) e j r g =
      let behind : filter_by p (values m) ≡ [] = ground arith in
      ground (arith, none-NoSession m behind j r, eq_iff i j)

  NoSession-behind :
      (i : String) (w : CodexSessionIndexRow) (m : Latest)
      → get i m ≡ none
      → NoSession ((i, w) ∷ m)
      → NoSession m
  unfolding get
  NoSession-behind i w m fresh f j r g = f j r (ground (arith, eq_iff i j))

  NoSession-none : (m : Latest) → NoSession m → Keyed m → filter_by p (values m) ≡ []
  unfolding get
  NoSession-none [] f k = refl
  NoSession-none ((i, w) ∷ m) f (same, fresh, keyed) =
      let front = f i w (ground (arith, eq_iff i i)) in
      let behind = NoSession-none m (NoSession-behind i w m fresh f) keyed in ground arith

  map_empty : (rs : List CodexSessionIndexRow) → map (λ r. r.id) rs ≡ [] → rs ≡ []
  map_empty [] e = refl
  map_empty (r ∷ rs) e = cc

  pub one-OnlySession :
      (m : Latest) (id : String)
      → Keyed m
      → map (λ r. r.id) (filter_by p (values m)) ≡ id ∷ []
      → OnlySession m id
  unfolding get
  one-OnlySession [] id k e = cc
  one-OnlySession ((i, w) ∷ m) id (same, fresh, keyed) e = elim (Bool-cases (p w)) [
    | inl hit ↦
        let behind : filter_by p (values m) ≡ [] =
          map_empty (filter_by p (values m)) (ground arith) in
        (
          (w, ground (arith, eq_iff i id), hit),
          λ j r g h. ground (arith, none-NoSession m behind j r, eq_iff i j),
        )
    | inr out ↦
        let ((r, g, hit), u) = one-OnlySession m id keyed (ground arith) in
        ((r, ground (arith, eq_iff i id), hit), λ j s h q. ground (arith, u j s, eq_iff i j))
  ]

  pub OnlySession-one :
      (m : Latest) (id : String)
      → Keyed m
      → OnlySession m id
      → map (λ r. r.id) (filter_by p (values m)) ≡ id ∷ []
  unfolding get
  OnlySession-one [] id k ((r, g, hit), u) = cc
  OnlySession-one ((i, w) ∷ m) id (same, fresh, keyed) ((r, g, hit), u) = elim (Bool-cases (p w)) [
    | inl front ↦
        let here : i ≡ id = u i w (ground (arith, eq_iff i i)) front in
        let behind : filter_by p (values m) ≡ [] =
          NoSession-none m (λ j s h. ground (arith, u j s, eq_iff i j)) keyed in
        ground arith
    | inr out ↦
        let rest =
          OnlySession-one m id keyed
            ((r, ground (arith, eq_iff i id), hit), λ j s h q. ground (arith, u j s, eq_iff i j)) in
        ground arith
  ]
