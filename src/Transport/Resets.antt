-- ===== src/Transport/Resets.antt =====
-- What a reset of the transport files leaves.
use multi_agent_orchestrator.Prelude.{
  ◌≡◌, refl, ap, ◌∙◌, ◌||◌, Bool, Option, none, some, String, List, [], ◌∷◌, str_eq, arith,
  if◌then◌else◌,
}
use multi_agent_orchestrator.Prelude.Map.{get, insert, get-insert}
use multi_agent_orchestrator.State.{AgentRole, executor, reviewer}
use multi_agent_orchestrator.Errors.{Result, ok, err, panic, IoKind}
use multi_agent_orchestrator.Transport.{
  Disk, OnDisk, continue, ◌>>=◌, put, measure, made_dir, DiskEnv, write, stat, others, check_empty,
  reset_file, reset_files, transport_dir, inbox, outbox, reset_paths, reset_transport,
}

module _ (env : DiskEnv) (alone : (d : Disk) → env.meanwhile d ≡ d) where
  measured :
      (path : String) (fault : Option (IoKind × String)) (got : Option String) (d : Disk)
      → (continue (measure fault got d).0 (check_empty env path) (measure fault got d).1).1 ≡ d
  measured path (some (kind, source)) got d = refl
  measured path none none d = refl
  measured path none (some s) d = ground arith

  -- Without other writers the loop's body leaves the file empty and the rest as it was.
  reset_file-disk :
      (path : String) (d : Disk)
      → (reset_file env path d).0 ≡ ok tt
      → (reset_file env path d).1 ≡ insert path "" d
  unfolding reset_file write others stat
  reset_file-disk path d e = by_fault (env.write_fault path) e
    where
      after : Option (IoKind × String) → Result (Unit {0}) × Disk
      after f =
          (◌>>=◌ (put f path "")
              (λ u. ◌>>=◌ (others env) (λ w. ◌>>=◌ (stat env path) (check_empty env path))))
            d

      by_fault :
          (f : Option (IoKind × String)) → (after f).0 ≡ ok tt → (after f).1 ≡ insert path "" d
      by_fault (some (kind, source)) e = cc
      by_fault none e =
          measured path (env.stat_fault path) (get path (env.meanwhile (insert path "" d)))
            (env.meanwhile (insert path "" d))
          ∙ alone (insert path "" d)

  abbrev pub emptied : List String → Disk → Disk
  emptied [] d = d
  emptied (path ∷ paths) d = emptied paths (insert path "" d)

  continue-ok :
      {A B : Type 0} (r : Result A) (f : A → OnDisk B) (d : Disk) {b : B}
      → (continue r f d).0 ≡ ok b
      → (a : A) × (r ≡ ok a)
  continue-ok (ok a) f d e = (a, refl)
  continue-ok (err x) f d e = cc
  continue-ok panic f d e = cc

  reset_files-disk :
      (paths : List String) (d : Disk)
      → (reset_files env paths d).0 ≡ ok tt
      → (reset_files env paths d).1 ≡ emptied paths d
  unfolding reset_files
  reset_files-disk [] d e = refl
  reset_files-disk (path ∷ paths) d e =
      let (u, first) =
        continue-ok (reset_file env path d).0 (λ u. reset_files env paths) (reset_file env path d).1
          e in
      let disk = reset_file-disk path d first in
      let rest : (reset_files env paths (insert path "" d)).0 ≡ ok tt = rw (first, disk) at e in
      rw (first, disk) (reset_files-disk paths (insert path "" d) rest)

  -- The files that a reset for a role is about.
  abbrev pub touched : String → AgentRole → String → Bool
  touched repo executor p = str_eq (inbox env repo) p || str_eq (outbox env repo) p
  touched repo reviewer p = str_eq (inbox env repo) p

  emptied-get :
      (repo : String) (role : AgentRole) (d : Disk) (p : String)
      → get p (emptied (reset_paths env repo role) d)
        ≡ (if touched repo role p then some "" else get p d)
  emptied-get repo executor d p = ground (
    arith,
    get-insert (outbox env repo) p "" (insert (inbox env repo) "" d),
    get-insert (inbox env repo) p "" d,
  )
  emptied-get repo reviewer d p = get-insert (inbox env repo) p "" d

  -- When a reset succeeds and no other process writes, the inbox is empty, for the executor the
  -- outbox too, and every other file is as it was: the reviewer finds the executor's outbox.
  pub reset_transport-get :
      (repo : String) (role : AgentRole) (d : Disk)
      → (reset_transport env repo role d).0 ≡ ok tt
      → (p : String)
      → get p (reset_transport env repo role d).1
        ≡ (if touched repo role p then some "" else get p d)
  unfolding reset_transport
  reset_transport-get repo role d e p = by_dir (env.create_dir (transport_dir env repo)) e
    where
      after : Option (IoKind × String) → Result (Unit {0}) × Disk
      after f = made_dir env repo f (reset_files env (reset_paths env repo role)) d

      by_dir :
          (f : Option (IoKind × String))
          → (after f).0 ≡ ok tt
          → get p (after f).1 ≡ (if touched repo role p then some "" else get p d)
      by_dir (some (kind, source)) e = cc
      by_dir none e =
          ap (get p) (reset_files-disk (reset_paths env repo role) d e) ∙ emptied-get repo role d p
