-- ===== src/Locks/Keys.antt =====
-- Which sessions share a lock file, and what a held lock means.
use Prim.Native.Char.{Char, code}
use Prim.Native.String
use text.Mathlib.TextLemmas.{cons-append, append_cancel_left, append_cancel_right}
use multi_agent_orchestrator.Prelude.{◌≡◌, refl, ap, sym, subst, arith, ◌∙◌, ℕ, String}
use multi_agent_orchestrator.Prelude.Show.{format, show}
use multi_agent_orchestrator.State.{ProviderKind, claude, opencode, codex, provider_as_str}
use multi_agent_orchestrator.Errors.{
  would_block, not_found, other_kind, session_locked, ok, err, >>=-eq-ok,
}
use multi_agent_orchestrator.Files.{IoResult, done, failed, try_io}
use multi_agent_orchestrator.Locks.{
  LockEnv, lock_key_text, lock_error, lock_dir, lock_file, lock_file_path, acquire_session_lock,
}

of_key : (p : ProviderKind) (s t : String) → lock_key_text p s ≡ lock_key_text p t → s ≡ t
unfolding lock_key_text format
of_key p s t e =
    append_cancel_right s t ""
      (append_cancel_left ":" _ _ (append_cancel_left (provider_as_str p) _ _ e))

-- The second letter of the provider's name tells it.
second : String → ℕ
second (String.◌∷◌ a (String.◌∷◌ b s)) = code b
second _ = 0

letter : ProviderKind → ℕ
letter claude = code "l"
letter opencode = code "p"
letter codex = code "o"

second-append :
    (a b : Char) (s t : String) → second (String.◌++◌ (String.◌∷◌ a (String.◌∷◌ b s)) t) ≡ code b
unfolding second
second-append a b s t =
    ap second (cons-append a (String.◌∷◌ b s) t ∙ ap (λ u. String.◌∷◌ a u) (cons-append b s t))

second-lock_key_text : (p : ProviderKind) (s : String) → second (lock_key_text p s) ≡ letter p
unfolding letter lock_key_text format provider_as_str
second-lock_key_text claude s = second-append "c" "l" "aude" (String.◌++◌ ":" (String.◌++◌ s ""))
second-lock_key_text opencode s =
    second-append "o" "p" "encode" (String.◌++◌ ":" (String.◌++◌ s ""))
second-lock_key_text codex s = second-append "c" "o" "dex" (String.◌++◌ ":" (String.◌++◌ s ""))

letter_injective : (p q : ProviderKind) → letter p ≡ letter q → p ≡ q
unfolding letter
letter_injective claude claude e = refl
letter_injective claude opencode e = absurd (omega arith)
letter_injective claude codex e = absurd (omega arith)
letter_injective opencode claude e = absurd (omega arith)
letter_injective opencode opencode e = refl
letter_injective opencode codex e = absurd (omega arith)
letter_injective codex claude e = absurd (omega arith)
letter_injective codex opencode e = absurd (omega arith)
letter_injective codex codex e = refl

-- Two sessions have the same text under the digest of the lock key only if they are the same session of the same provider.
pub lock_key_text_injective :
    (p q : ProviderKind) (s t : String) → lock_key_text p s ≡ lock_key_text q t → (p ≡ q) × (s ≡ t)
lock_key_text_injective p q s t e =
    let same =
      letter_injective p q
        (sym (second-lock_key_text p s) ∙ ap second e ∙ second-lock_key_text q t) in
    (same, of_key q s t (subst (λ r. lock_key_text r s ≡ lock_key_text q t) same e))

ok_inj : {s t : String} → ok s ≡ ok t → s ≡ t
ok_inj e = cc

module _ (env : LockEnv) (provider : ProviderKind) (session_id : String) where
  -- A lock that another process holds is reported as such, once the lock file could be opened.
  pub acquire_session_lock-locked :
      (dir source : String)
      → lock_dir env ≡ ok dir
      → env.create_dir_all dir ≡ done tt
      → env.open_file (lock_file env provider session_id dir) ≡ done tt
      → env.try_lock_exclusive (lock_file env provider session_id dir) ≡ failed would_block source
      → acquire_session_lock env provider session_id ≡ err (session_locked provider session_id)
  unfolding acquire_session_lock lock_error
  acquire_session_lock-locked dir source d made opened held = rw (d, made, opened, held)

  granted :
      (r : IoResult (Unit {0})) (u : Unit {0})
      → lock_error provider session_id r ≡ ok u
      → r ≡ done tt
  unfolding lock_error
  granted (done w) u e = refl
  granted (failed would_block source) u e = cc
  granted (failed not_found source) u e = cc
  granted (failed other_kind source) u e = cc

  -- A lock is only taken where the exclusive lock was granted, on the file of this session.
  pub acquire_session_lock-granted :
      (path : String)
      → acquire_session_lock env provider session_id ≡ ok path
      → (lock_file_path env provider session_id ≡ ok path) × (env.try_lock_exclusive path ≡ done tt)
  unfolding acquire_session_lock lock_file_path
  acquire_session_lock-granted path e =
      let (dir, found, e1) = >>=-eq-ok (lock_dir env) _ e in
      let file = lock_file env provider session_id dir in
      let (u1, made, e2) = >>=-eq-ok (try_io (env.create_dir_all dir)) _ e1 in
      let (u2, opened, e3) = >>=-eq-ok (try_io (env.open_file file)) _ e2 in
      let (u3, locked, e4) =
        >>=-eq-ok (lock_error provider session_id (env.try_lock_exclusive file)) _ e3 in
      let (u4, emptied, e5) = >>=-eq-ok (try_io (env.set_len file 0)) _ e4 in
      let (u5, written, e6) = >>=-eq-ok (try_io (env.write file (show env.process_id))) _ e5 in
      let same : file ≡ path = ok_inj e6 in
      (
        rw found (ap ok same),
        ap env.try_lock_exclusive (sym same) ∙ granted (env.try_lock_exclusive file) u3 locked,
      )
