-- ===== src/Transport/Requests.antt =====
-- The fingerprint of a request, and a retry that finds the request changed.
use multi_agent_orchestrator.Prelude.{
  ◌≡◌, refl, ap, sym, ◌∙◌, ◌↔◌, Option, none, some, String, eq_iff, arith,
}
use multi_agent_orchestrator.Prelude.Map.{get, insert}
use multi_agent_orchestrator.Errors.{Result, ok, IoKind}
use multi_agent_orchestrator.Transport.{
  Disk, continue, ◌>>=◌, fetch, put, DiskEnv, read, write, others, inbox, write_request,
  fingerprint_of, same_fingerprint, verify_request_fingerprint,
}

module _ (env : DiskEnv) (repo : String) where
  -- The inbox can be read, and this is in it.
  abbrev pub InboxIs : Disk → String → Type 0
  InboxIs d text = (env.read_fault (inbox env repo) ≡ none) × (get (inbox env repo) d ≡ some text)

  verify_at :
      (fault : Option (IoKind × String)) (got : Option String) (original : String) (d : Disk)
      → (continue
          (fetch fault got d).0
          (same_fingerprint env repo original)
          (fetch fault got d).1).0
        ≡ ok tt
      → (text : String) × (fault ≡ none) × (got ≡ some text) × (env.sha256_hex text ≡ original)
  verify_at (some (kind, source)) got original d e = cc
  verify_at none none original d e = cc
  verify_at none (some text) original d e =
      (text, refl, refl, ground (arith, eq_iff (env.sha256_hex text) original))

  -- The check of a retry passes exactly when the inbox can be read and its text has the fingerprint.
  pub verify_request_fingerprint_iff :
      (original : String) (d : Disk)
      → ((verify_request_fingerprint env repo original d).0 ≡ ok tt)
        ↔ ((text : String) × InboxIs d text × (env.sha256_hex text ≡ original))
  unfolding verify_request_fingerprint read
  verify_request_fingerprint_iff original d = (
    λ e.
        let (text, fine, got, same) =
          verify_at (env.read_fault (inbox env repo)) (get (inbox env repo) d) original d e in
        (text, (fine, got), same),
    λ (text, (fine, got), same).
        let equal = (eq_iff (env.sha256_hex text) original).1 same in rw (fine, got, equal),
  )

  written_at :
      (fault : Option (IoKind × String)) (got : Option String) (fingerprint : String) (d : Disk)
      → (continue (fetch fault got d).0 (fingerprint_of env repo) (fetch fault got d).1).0
        ≡ ok fingerprint
      → (text : String) × (fault ≡ none)
        × (got ≡ some text)
        × (env.sha256_hex text ≡ fingerprint)
        × ((continue (fetch fault got d).0 (fingerprint_of env repo) (fetch fault got d).1).1 ≡ d)
  written_at (some (kind, source)) got fingerprint d e = cc
  written_at none none fingerprint d e = cc
  written_at none (some text) fingerprint d e = (text, refl, refl, cc, refl)

  -- The fingerprint of a request is that of the text in the inbox.
  pub write_request-eq-ok :
      (content fingerprint : String) (d : Disk)
      → (write_request env repo content d).0 ≡ ok fingerprint
      → (text : String) × InboxIs (write_request env repo content d).1 text
        × (env.sha256_hex text ≡ fingerprint)
        × ((write_request env repo content d).1 ≡ env.meanwhile (insert (inbox env repo) content d))
  unfolding write_request write others read
  write_request-eq-ok content fingerprint d e = by_fault (env.write_fault (inbox env repo)) e
    where
      disk : Disk
      disk = env.meanwhile (insert (inbox env repo) content d)

      after : Option (IoKind × String) → Result String × Disk
      after f =
          (◌>>=◌ (put f (inbox env repo) content) (λ u.
              ◌>>=◌ (others env)
                (λ w. ◌>>=◌ (read env (inbox env repo)) (fingerprint_of env repo))))
            d

      by_fault :
          (f : Option (IoKind × String))
          → (after f).0 ≡ ok fingerprint
          → (text : String) × InboxIs (after f).1 text
            × (env.sha256_hex text ≡ fingerprint)
            × ((after f).1 ≡ disk)
      by_fault (some (kind, source)) e = cc
      by_fault none e =
          let (text, fine, got, same, is) =
            written_at (env.read_fault (inbox env repo)) (get (inbox env repo) disk) fingerprint
              disk e in
          (text, (fine, rw is got), same, is)

-- A retry goes on exactly when the inbox still has what the request wrote: after a request, the
-- check on a later disk passes if and only if the inbox there has the same text, provided that the
-- digests of these two texts differ when the texts do.
pub request-unchanged_iff :
    (env : DiskEnv) (repo content fingerprint : String) (d later : Disk)
    → (write_request env repo content d).0 ≡ ok fingerprint
    → ((now written : String)
        → get (inbox env repo) later ≡ some now
        → get (inbox env repo) (write_request env repo content d).1 ≡ some written
        → env.sha256_hex now ≡ env.sha256_hex written
        → now ≡ written)
    → ((verify_request_fingerprint env repo fingerprint later).0 ≡ ok tt)
      ↔ (get (inbox env repo) later ≡ get (inbox env repo) (write_request env repo content d).1)
request-unchanged_iff env repo content fingerprint d later e apart =
    let (text, (fine, got), same, is) = write_request-eq-ok env repo content fingerprint d e in
    let (to, from) = verify_request_fingerprint_iff env repo fingerprint later in
    (
      λ v.
          let (now, (r, found), equal) = to v in
          found ∙ ap some (apart now text found got (equal ∙ sym same)) ∙ sym got,
      λ unchanged. from (text, (fine, unchanged ∙ got), same),
    )
