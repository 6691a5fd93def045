-- ===== src/Compliance/Audit/Chain.antt =====
-- The chains that `append_audit_event` builds are the ones that the verifier accepts.
use cadencia_platform.Base.{
  ℕ, suc, ◌+◌, ◌≡◌, refl, ◌∙◌, sym, ap, subst, Bool, true, false, Option, none, some, List, [], ◌∷◌,
  ◌++◌, arith, ◌==◌, if◌then◌else◌, length, Text, text_eq_self,
}
use cadencia_platform.Compliance.Audit.{
  AuditEntry, AppendAuditEventCommand, genesis_hash, entries_of, insert_by_sequence,
  sort_by_sequence, later, latest, get_latest, list_all_entries, compute, create_entry,
  verify_entry, verify_from, verify_chain, next_entry, append_audit_event, append_all,
  verify_audit_chain,
}

entries_of-append :
    (i : ℕ) (es : List AuditEntry) (e : AuditEntry)
    → entries_of i (es ++ e ∷ [])
      ≡ (if e.escrow_id == i then entries_of i es ++ e ∷ [] else entries_of i es)
unfolding entries_of
entries_of-append i [] e = ground arith
entries_of-append i (x ∷ xs) e = ground (arith, entries_of-append i xs e)

-- The hash that the next entry names.
abbrev pub end_hash : Text → List AuditEntry → Text
end_hash p [] = p
end_hash p (e ∷ es) = end_hash e.entry_hash es

module _ (sha256 : Text → Text) where
  -- Entries numbered from `n` on, each hashed and linked to the one before it, the first to `p`.
  pub IsChain : Text → ℕ → List AuditEntry → Type 0
  IsChain p n [] = Unit
  IsChain p n (e ∷ es) =
      ((e.sequence_no ≡ n)
        × (e.prev_hash ≡ p)
        × (e.entry_hash ≡ compute sha256 e.prev_hash e.event_type e.payload_json))
      × IsChain e.entry_hash (suc n) es

  append-IsChain :
      (p : Text) (n : ℕ) (es : List AuditEntry) (e : AuditEntry)
      → IsChain p n es
      → e.sequence_no ≡ n + length es
      → e.prev_hash ≡ end_hash p es
      → e.entry_hash ≡ compute sha256 e.prev_hash e.event_type e.payload_json
      → IsChain p n (es ++ e ∷ [])
  unfolding IsChain
  append-IsChain p n [] e h a b c = ((omega (arith, a), b, c), tt)
  append-IsChain p n (x ∷ xs) e (h, k) a b c =
      (h, append-IsChain x.entry_hash (suc n) xs e k (omega (arith, a)) b c)

  latest_of_chain :
      (p : Text) (n : ℕ) (e : AuditEntry) (es : List AuditEntry)
      → IsChain p n (e ∷ es)
      → (l : AuditEntry) × (latest (e ∷ es) ≡ some l)
        × (l.sequence_no ≡ n + length es)
        × (l.entry_hash ≡ end_hash p (e ∷ es))
  unfolding latest later IsChain
  latest_of_chain p n e [] ((a, b, c), k) = (e, refl, omega (arith, a), refl)
  latest_of_chain p n e (x ∷ xs) ((a, b, c), k) =
      let (l, u, v, w) = latest_of_chain e.entry_hash (suc n) x xs k in
      (l, ground (arith, u, v, a), omega (arith, v), w)

  insert_first :
      (p : Text) (n : ℕ) (e : AuditEntry) (es : List AuditEntry)
      → e.sequence_no ≡ n
      → IsChain p (suc n) es
      → insert_by_sequence e es ≡ e ∷ es
  unfolding insert_by_sequence IsChain
  insert_first p n e [] h k = refl
  insert_first p n e (x ∷ xs) h ((a, b, c), k) = ground arith

  sort_of_chain :
      (p : Text) (n : ℕ) (es : List AuditEntry) → IsChain p n es → sort_by_sequence es ≡ es
  unfolding sort_by_sequence IsChain
  sort_of_chain p n [] h = refl
  sort_of_chain p n (e ∷ es) ((a, b, c), k) =
      rw (sort_of_chain e.entry_hash (suc n) es k, insert_first e.entry_hash n e es a k)

  verify_from-IsChain :
      (p : Text) (n : ℕ) (es : List AuditEntry)
      → IsChain p n es
      → verify_from sha256 p es ≡ (true, none)
  unfolding verify_from verify_entry IsChain
  verify_from-IsChain p n [] h = refl
  verify_from-IsChain p n (e ∷ es) ((a, b, c), k) = ground (
    arith,
    verify_from-IsChain e.entry_hash (suc n) es k,
    text_eq_self (compute sha256 e.prev_hash e.event_type e.payload_json),
    text_eq_self p,
  )

  -- Every escrow's entries form a chain from the genesis hash.
  abbrev pub IsSound : List AuditEntry → Type 0
  IsSound table = (i : ℕ) → IsChain genesis_hash 0 (entries_of i table)

  next_entry-IsChain :
      (cmd : AppendAuditEventCommand) (es : List AuditEntry)
      → IsChain genesis_hash 0 es
      → IsChain genesis_hash 0 (es ++ next_entry sha256 cmd (latest es) ∷ [])
  unfolding create_entry latest
  next_entry-IsChain cmd [] h =
      append-IsChain genesis_hash 0 [] (next_entry sha256 cmd none) h refl refl refl
  next_entry-IsChain cmd (e ∷ es) h =
      let (l, u, v, w) = latest_of_chain genesis_hash 0 e es h in
      subst (λ o. IsChain genesis_hash 0 ((e ∷ es) ++ next_entry sha256 cmd o ∷ [])) (sym u)
        (append-IsChain genesis_hash 0 (e ∷ es) (next_entry sha256 cmd (some l)) h
          (omega (arith, v)) w refl)

  next_entry_escrow :
      (cmd : AppendAuditEventCommand) (o : Option AuditEntry)
      → (next_entry sha256 cmd o).escrow_id ≡ cmd.escrow_id
  unfolding create_entry
  next_entry_escrow cmd none = refl
  next_entry_escrow cmd (some e) = refl

  grow-IsSound :
      (i j : ℕ) (table : List AuditEntry) (e : AuditEntry)
      → e.escrow_id ≡ j
      → IsSound table
      → IsChain genesis_hash 0 (entries_of j table ++ e ∷ [])
      → IsChain genesis_hash 0 (entries_of i (table ++ e ∷ []))
  grow-IsSound i j table e own h k =
      subst (IsChain genesis_hash 0) (sym (entries_of-append i table e))
        (go (e.escrow_id == i) refl)
    where
      go :
          (b : Bool)
          → (e.escrow_id == i) ≡ b
          → IsChain genesis_hash 0 (if b then entries_of i table ++ e ∷ [] else entries_of i table)
      go true q =
          subst (λ n. IsChain genesis_hash 0 (entries_of n table ++ e ∷ []))
            (ground (arith, own, q)) k
      go false q = h i

  append_audit_event-IsSound :
      (cmd : AppendAuditEventCommand) (table : List AuditEntry)
      → IsSound table
      → IsSound (append_audit_event sha256 cmd table)
  unfolding append_audit_event get_latest
  append_audit_event-IsSound cmd table h i =
      grow-IsSound i cmd.escrow_id table
        (next_entry sha256 cmd (latest (entries_of cmd.escrow_id table)))
        (next_entry_escrow cmd (latest (entries_of cmd.escrow_id table))) h
        (next_entry-IsChain cmd (entries_of cmd.escrow_id table) (h cmd.escrow_id))

  append_all-IsSound :
      (cmds : List AppendAuditEventCommand) (table : List AuditEntry)
      → IsSound table
      → IsSound (append_all sha256 cmds table)
  unfolding append_all
  append_all-IsSound [] table h = h
  append_all-IsSound (cmd ∷ cmds) table h =
      append_all-IsSound cmds (append_audit_event sha256 cmd table)
        (append_audit_event-IsSound cmd table h)

  verify_sound :
      (i : ℕ) (table : List AuditEntry)
      → IsSound table
      → verify_audit_chain sha256 i table ≡ (true, none)
  unfolding verify_audit_chain verify_chain list_all_entries
  verify_sound i table h =
      let es = entries_of i table in
      let s : sort_by_sequence es ≡ es = sort_of_chain genesis_hash 0 es (h i) in
      ap (λ l. verify_from sha256 genesis_hash (sort_by_sequence l)) s
      ∙ (ap (verify_from sha256 genesis_hash) s ∙ verify_from-IsChain genesis_hash 0 es (h i))

  empty-IsSound : IsSound []
  unfolding IsChain entries_of
  empty-IsSound i = tt

  -- Whatever is appended to an empty log, for whatever escrows and in whatever interleaving,
  -- the chain of each escrow verifies.
  pub verify_audit_chain-append_all :
      (cmds : List AppendAuditEventCommand) (i : ℕ)
      → verify_audit_chain sha256 i (append_all sha256 cmds []) ≡ (true, none)
  verify_audit_chain-append_all cmds i =
      verify_sound i (append_all sha256 cmds []) (append_all-IsSound cmds [] empty-IsSound)
