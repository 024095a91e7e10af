-- ===== src/Providers/Select.antt =====
-- The last step of every discovery in src/providers/: exactly one session must be left.
use multi_agent_orchestrator.Prelude.{
  ◌≡◌, refl, ℕ, Bool, true, String, List, [], ◌∷◌, ◌++◌, filter_by, length, ◌↔◌, arith, Bool-cases,
  inl, inr,
}
use multi_agent_orchestrator.Prelude.Show.{format, show}
use multi_agent_orchestrator.State.{AgentRole, ProviderKind}
use multi_agent_orchestrator.Errors.{session_bind_failed, Result, ok, err}

-- The reason for more than one; the list of them only goes to the log.
unfoldable pub ambiguity_reason : ℕ → String → String
ambiguity_reason n thread_name = format (
    show n
    ∷ " sessions share thread name '"
    ∷ thread_name
    ∷ "' — rename or delete all but one (see stderr for session list)"
    ∷ [])

unfoldable pub one_session : AgentRole → ProviderKind → String → List String → Result String
one_session role provider thread_name [] = err (
    session_bind_failed role provider
      (format ("no session with thread name '" ∷ thread_name ∷ "' found" ∷ [])))
one_session role provider thread_name (id ∷ []) = ok id
one_session role provider thread_name (a ∷ b ∷ ids) =
    err (session_bind_failed role provider (ambiguity_reason (length (a ∷ b ∷ ids)) thread_name))

pub one_session-eq-ok :
    (role : AgentRole) (provider : ProviderKind) (name : String) (ids : List String) (id : String)
    → (one_session role provider name ids ≡ ok id) ↔ (ids ≡ id ∷ [])
unfolding one_session
one_session-eq-ok role provider name [] id = ((λ e. cc), (λ e. cc))
one_session-eq-ok role provider name (a ∷ []) id = ((λ e. cc), (λ e. cc))
one_session-eq-ok role provider name (a ∷ b ∷ ids) id = ((λ e. cc), (λ e. cc))

module _ {ℓ} {A : Type ℓ} (p : A → Bool) where
  -- `x` passes the test and nothing else of the list, at any other place, does.
  abbrev pub Only : List A → A → Type ℓ
  Only xs x =
      (before : List A) × (after : List A) × (xs ≡ before ++ x ∷ after)
      × (p x ≡ true)
      × (filter_by p before ≡ [])
      × (filter_by p after ≡ [])

  filter_by-append : (xs ys : List A) → filter_by p (xs ++ ys) ≡ filter_by p xs ++ filter_by p ys
  filter_by-append [] ys = refl
  filter_by-append (x ∷ xs) ys = ground (arith, filter_by-append xs ys)

  filter_by-first :
      (y : A) (xs : List A) (x : A)
      → (filter_by p xs ≡ x ∷ [] → Only xs x)
      → filter_by p (y ∷ xs) ≡ x ∷ []
      → Only (y ∷ xs) x
  filter_by-first y xs x further e = elim (Bool-cases (p y)) [
    | inl h ↦ ([], xs, cc, cc, refl, ground arith)
    | inr h ↦
        let (before, after, split, holds, none_before, none_after) = further (ground arith) in
        (y ∷ before, after, ground arith, holds, ground arith, none_after)
  ]

  only : (xs : List A) (x : A) → filter_by p xs ≡ x ∷ [] → Only xs x
  only [] x e = cc
  only (y ∷ xs) x e = filter_by-first y xs x (only xs x) e

  pub filter_by-Only : (xs : List A) (x : A) → (filter_by p xs ≡ x ∷ []) ↔ Only xs x
  filter_by-Only xs x = (
    only xs x,
    λ (before, after, split, holds, none_before, none_after).
        ground (arith, filter_by-append before (x ∷ after)),
  )
