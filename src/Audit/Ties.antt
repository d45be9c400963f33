-- ===== src/Audit/Ties.antt =====
-- An event that is recorded with a time, or at equal times with an identifier, before those of the
-- log: `record` and `verify` of backend/app/services/audit_service.py.
use urja_setu.Base.{
  ◌≡◌, refl, sym, ap, ◌∙◌, true, false, Bool-cases, inl, inr, none, some, List, [], ◌∷◌, ◌++◌, map,
  All, All-map, ok, arith, ◌⊎◌, ◌<◌, ◌≢◌, subst,
}
use urja_setu.Base.Sorting.{sorted, insert_sorted}
use urja_setu.Audit.Value.{Text, Members}
use urja_setu.Audit.Chain.{AuditEvent, SealedAuditEvent, ChainVerification}
use urja_setu.Audit.Chain.Verifying.{IsLinked, verify_chain-IsLinked}
use urja_setu.Audit.Service.{
  AuditEventRecord, recorded_before, latest, head_of, hash_of, list_chain, rehydrate, row_of,
  record_event, verify,
}
use urja_setu.Audit.Recording.{record_event-IsAppended}
use urja_setu.Audit.Chronology.{insert_sorted-ne_empty, later_first}

-- The event comes before the row.
abbrev pub Precedes : AuditEvent → AuditEventRecord → Type 0
Precedes e r =
    (e.recorded_at < r.recorded_at) ⊎ ((e.recorded_at ≡ r.recorded_at) × (e.event_id < r.id))

recorded_before_of_Precedes :
    (e : AuditEvent) (s : SealedAuditEvent) (payload : Members) (r : AuditEventRecord)
    → s.event ≡ e
    → Precedes e r
    → recorded_before (row_of s payload) r ≡ true
unfolding recorded_before row_of
recorded_before_of_Precedes e s payload r same h =
    let time = ap (λ (x : AuditEvent). x.recorded_at) same in
    let id = ap (λ (x : AuditEvent). x.event_id) same in ground arith

-- A row before all the others is listed first, wherever it was added.
sorted-append_first :
    (row : AuditEventRecord) (rows : List AuditEventRecord)
    → All (λ r. recorded_before row r ≡ true) rows
    → sorted recorded_before (rows ++ row ∷ []) ≡ row ∷ sorted recorded_before rows
unfolding sorted insert_sorted
sorted-append_first row [] h = refl
sorted-append_first row (r ∷ rows) h =
    ap (insert_sorted recorded_before r) (sorted-append_first row rows h.1) ∙ rw (h.0) refl

head_of-ne_empty :
    (rows : List AuditEventRecord) → rows ≢ [] → (r : AuditEventRecord) × (head_of rows ≡ some r)
unfolding head_of
head_of-ne_empty [] ne = absurd (ne refl)
head_of-ne_empty (r ∷ rows) ne = (r, refl)

latest-cons :
    (first : AuditEventRecord) (rest : List AuditEventRecord)
    → (r : AuditEventRecord) × (latest (first ∷ rest) ≡ some r)
unfolding latest
latest-cons first rest =
    head_of-ne_empty (sorted later_first (first ∷ rest))
      (insert_sorted-ne_empty first (sorted later_first rest))

-- Of a log that holds an event, an append of an event that precedes every row succeeds only into a
-- log that the verification calls broken.
pub record_event-Precedes :
    (digest : Text → Text) (first : AuditEventRecord) (rest : List AuditEventRecord)
    (e : AuditEvent) {after : List AuditEventRecord} {v : ChainVerification}
    → All (Precedes e) (first ∷ rest)
    → record_event digest (first ∷ rest) e ≡ ok after
    → verify digest none after ≡ some v
    → v.intact ≡ false
unfolding verify list_chain rehydrate row_of
record_event-Precedes digest first rest e {after} {v} before h outcome =
    elim (Bool-cases v.intact) [
      | inr broken ↦ broken
      | inl intact ↦
          let a = record_event-IsAppended digest (first ∷ rest) e h in
          let row = row_of a.sealed a.payload in
          let order =
            All-map (Precedes e) (λ r. recorded_before row r ≡ true) (first ∷ rest)
              (λ r p. recorded_before_of_Precedes e a.sealed a.payload r a.of_event p) before in
          let listed : sorted recorded_before after ≡ row ∷ sorted recorded_before (first ∷ rest) =
            ap (sorted recorded_before) (sym a.rows_after)
            ∙ sorted-append_first row (first ∷ rest) order in
          let links =
            (verify_chain-IsLinked digest (map rehydrate (sorted recorded_before after))).0
              (v, outcome, intact) in
          let at_start = subst (λ rows. IsLinked digest none (map rehydrate rows)) listed links in
          let (head, found) = latest-cons first rest in
          let previous : a.sealed.previous_hash ≡ some head.event_hash =
            a.previous ∙ ap hash_of found in
          let genesis : a.sealed.previous_hash ≡ none = at_start.1 in absurd cc
    ]
