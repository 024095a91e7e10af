-- ===== src/State/Names.antt =====
-- The texts by which the command line names providers, workflows and policies.
use multi_agent_orchestrator.Prelude.{◌≡◌, refl, ◌⊎◌, ◌↔◌, inl, inr, String, some, arith, eq_iff}
use multi_agent_orchestrator.State.{
  ProviderKind, claude, opencode, codex, WorkflowType, plan, investigate, implement, NotionPolicy,
  required, optional, RemoteNetworkPolicy, forbidden, read_only, operational, provider_as_str,
  provider_of_str, workflow_as_str, workflow_of_str, notion_as_str, notion_of_str, network_as_str,
  network_of_str,
}

-- Every provider, workflow, Notion policy and network policy is parsed back from its own name.
pub names_roundtrip :
    ((p : ProviderKind) → provider_of_str (provider_as_str p) ≡ some p)
    × ((w : WorkflowType) → workflow_of_str (workflow_as_str w) ≡ some w)
    × ((n : NotionPolicy) → notion_of_str (notion_as_str n) ≡ some n)
    × ((r : RemoteNetworkPolicy) → network_of_str (network_as_str r) ≡ some r)
unfolding provider_as_str provider_of_str workflow_as_str workflow_of_str notion_as_str
    notion_of_str network_as_str network_of_str
names_roundtrip = (
  elim [ claude ↦ refl | opencode ↦ refl | codex ↦ refl ],
  elim [ plan ↦ refl | investigate ↦ refl | implement ↦ refl ],
  elim [ required ↦ refl | optional ↦ refl ],
  elim [ forbidden ↦ refl | read_only ↦ refl | operational ↦ refl ],
)

-- A text names a workflow exactly when it is that workflow's name or its alias, `inv` or `impl`.
pub workflow_of_str_iff :
    (s : String) (w : WorkflowType)
    → (workflow_of_str s ≡ some w) ↔ (
        (s ≡ workflow_as_str w)
        ⊎ ((w ≡ investigate) × (s ≡ "inv"))
        ⊎ ((w ≡ implement) × (s ≡ "impl")))
unfolding workflow_of_str workflow_as_str
workflow_of_str_iff s w = (
  λ h. ground (
    arith,
    eq_iff s "plan",
    eq_iff s "investigate",
    eq_iff s "inv",
    eq_iff s "implement",
    eq_iff s "impl",
  ),
  elim [
    | inl e ↦ rw e (names_roundtrip.1 w)
    | inr (inl (a, b)) ↦ rw (a, b) refl
    | inr (inr (a, b)) ↦ rw (a, b) refl
  ],
)
