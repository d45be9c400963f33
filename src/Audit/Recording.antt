-- ===== src/Audit/Recording.antt =====
-- Appending to the log: `record` and `verify` of backend/app/services/audit_service.py.
use urja_setu.Base.{
  some-injective, ◌≡◌, refl, sym, ap, ◌∙◌, subst, true, false, ℕ, suc, Option, none, some, List, [],
  ◌∷◌, ◌++◌, map, All, All-append, All-map, length, ok, >>=-eq-ok, or_raise, or_raise-eq-ok,
  raise_if-eq-ok, ok-injective,
}
use urja_setu.Audit.Value.{Text, Members, of_members}
use urja_setu.Audit.Canonical.{canonical_payload, >>=-eq-some}
use urja_setu.Audit.Chain.{
  AuditEvent, SealedAuditEvent, event_fingerprint, seal, with_payload_version,
}
use urja_setu.Audit.Chain.Verifying.{IsLinked, intact_across, verify_chain_of_linked}
use urja_setu.Audit.Chain.Evidence.{last_hash}
use urja_setu.Audit.Version.{event_fingerprint_of_stored}
use urja_setu.Audit.Chronology.{
  IsChronological, Follows, recorded_before_of_Follows, sorted_of_chronological, hash_of-latest,
}
use urja_setu.Audit.Service.{
  AuditEventRecord, recorded_before, latest, list_chain, rehydrate, row_of, hash_of, is_refused,
  record_event, verify,
}

pub record IsLog (digest : Text → Text) (rows : List AuditEventRecord) : Type 0 where
  pub chronological : IsChronological rows
  pub linked : IsLinked digest none (map rehydrate rows)

map-append :
    (rows : List AuditEventRecord) (row : AuditEventRecord)
    → map rehydrate (rows ++ row ∷ []) ≡ map rehydrate rows ++ rehydrate row ∷ []
map-append [] row = refl
map-append (r ∷ rows) row = ap (λ xs. rehydrate r ∷ xs) (map-append rows row)

IsChronological-append :
    (rows : List AuditEventRecord) (row : AuditEventRecord)
    → All (λ r. recorded_before r row ≡ true) rows
    → IsChronological rows
    → IsChronological (rows ++ row ∷ [])
IsChronological-append [] row a c = (tt, tt)
IsChronological-append (r ∷ rows) row a c = (
  All-append (λ s. recorded_before r s ≡ true) rows (row ∷ []) c.0 (a.0, tt),
  IsChronological-append rows row a.1 c.1,
)

length-append_one : {A : Type 0} (xs : List A) (x : A) → length (xs ++ x ∷ []) ≡ suc (length xs)
length-append_one [] x = refl
length-append_one (y ∷ xs) x = ap suc (length-append_one xs x)

length-map : {A B : Type 0} (f : A → B) (xs : List A) → length (map f xs) ≡ length xs
length-map f [] = refl
length-map f (x ∷ xs) = ap suc (length-map f xs)

module _ (digest : Text → Text) where
  IsLinked-append :
      (start : Option Text) (xs : List SealedAuditEvent) (s : SealedAuditEvent)
      → IsLinked digest start xs
      → event_fingerprint digest s.event s.previous_hash ≡ some s.event_hash
      → s.previous_hash ≡ last_hash start xs
      → IsLinked digest start (xs ++ s ∷ [])
  IsLinked-append start [] s l h p = (h, p, tt)
  IsLinked-append start (x ∷ xs) s l h p =
      (l.0, l.1, IsLinked-append (some x.event_hash) xs s l.2 h p)

  -- What a successful append has done.
  pub record IsAppended (rows : List AuditEventRecord) (e : AuditEvent)
      (after : List AuditEventRecord) : Type 0 where
    pub sealed : SealedAuditEvent
    pub payload : Members
    pub of_event : sealed.event ≡ e
    pub previous : sealed.previous_hash ≡ hash_of (latest rows)
    pub hashed : event_fingerprint digest e sealed.previous_hash ≡ some sealed.event_hash
    pub stored : canonical_payload (with_payload_version e.payload) ≡ some payload
    pub rows_after : (rows ++ row_of sealed payload ∷ []) ≡ after
    pub accepted : is_refused (row_of sealed payload) rows ≡ false

  seal-eq-some :
      (e : AuditEvent) (p : Option Text) {s : SealedAuditEvent}
      → seal digest e p ≡ some s
      → (s.event ≡ e) × (s.previous_hash ≡ p) × (event_fingerprint digest e p ≡ some s.event_hash)
  unfolding seal
  seal-eq-some e p h =
      let (hash, hashed, made) = >>=-eq-some (event_fingerprint digest e p) _ h in
      let same = some-injective made in
      (
        ap (λ (x : SealedAuditEvent). x.event) (sym same),
        ap (λ (x : SealedAuditEvent). x.previous_hash) (sym same),
        hashed ∙ ap (λ (x : SealedAuditEvent). some x.event_hash) same,
      )

  pub record_event-IsAppended :
      (rows : List AuditEventRecord) (e : AuditEvent) {after : List AuditEventRecord}
      → record_event digest rows e ≡ ok after
      → IsAppended rows e after
  unfolding record_event
  record_event-IsAppended rows e h =
      let (s, sealing, h) = >>=-eq-ok (or_raise (seal digest e (hash_of (latest rows))) _) _ h in
      let (payload, storing, h) =
        >>=-eq-ok (or_raise (canonical_payload (with_payload_version e.payload)) _) _ h in
      let (accepted, last) = raise_if-eq-ok (is_refused (row_of s payload) rows) _ _ h in
      let (of_event, previous, hashed) = seal-eq-some e _ (or_raise-eq-ok _ _ sealing) in
      record {
        sealed = s;
        payload = payload;
        of_event = of_event;
        previous = previous;
        hashed = ap (event_fingerprint digest e) previous ∙ hashed;
        stored = or_raise-eq-ok _ _ storing;
        rows_after = ok-injective last;
        accepted = accepted;
      }

  -- The row that is appended has the hash of what it stores.
  appended-hash :
      {rows : List AuditEventRecord} {e : AuditEvent} {after : List AuditEventRecord}
      (a : IsAppended rows e after)
      → let row = rehydrate (row_of a.sealed a.payload) in
        event_fingerprint digest row.event row.previous_hash ≡ some row.event_hash
  unfolding rehydrate row_of
  appended-hash {e = e} a =
      let changed =
        ap
          (λ (x : AuditEvent).
            event_fingerprint digest (record x { payload = of_members a.payload })
              a.sealed.previous_hash)
          a.of_event in
      changed ∙ event_fingerprint_of_stored digest e a.sealed.previous_hash a.stored ∙ a.hashed

  record_event-IsLog :
      (rows : List AuditEventRecord) (e : AuditEvent) {after : List AuditEventRecord}
      → IsLog digest rows
      → All (Follows e) rows
      → record_event digest rows e ≡ ok after
      → IsLog digest after × (length after ≡ suc (length rows))
  record_event-IsLog rows e log follows h =
      let a = record_event-IsAppended rows e h in
      let row = row_of a.sealed a.payload in
      let order =
        All-map (Follows e) (λ r. recorded_before r row ≡ true) rows
          (λ r f. recorded_before_of_Follows e a.sealed a.payload r a.of_event f) follows in
      let links =
        IsLinked-append none (map rehydrate rows) (rehydrate row) log.linked (appended-hash a)
          (unfold rehydrate row_of in (a.previous ∙ hash_of-latest rows log.chronological)) in
      subst (λ xs. IsLog digest xs × (length xs ≡ suc (length rows))) a.rows_after
        (
          record {
            chronological = IsChronological-append rows row order log.chronological;
            linked = subst (IsLinked digest none) (sym (map-append rows row)) links;
          },
          length-append_one rows row,
        )

  verify_of_log :
      (rows : List AuditEventRecord)
      → IsLog digest rows
      → verify digest none rows ≡ some (intact_across (length rows))
  unfolding verify list_chain
  verify_of_log rows log = rw (sorted_of_chronological rows log.chronological) (
      verify_chain_of_linked digest (map rehydrate rows) log.linked
      ∙ ap (λ (n : ℕ). some (intact_across n)) (length-map rehydrate rows))

  -- Appending to a log that is in order an event that follows every row keeps it in order, and the
  -- verification of what is stored then calls it intact, with one more event.
  pub record_event-verify :
      (rows : List AuditEventRecord) (e : AuditEvent) {after : List AuditEventRecord}
      → IsLog digest rows
      → All (Follows e) rows
      → record_event digest rows e ≡ ok after
      → IsLog digest after × (verify digest none after ≡ some (intact_across (suc (length rows))))
  record_event-verify rows e log follows h =
      let (kept, longer) = record_event-IsLog rows e log follows h in
      (kept, verify_of_log _ kept ∙ ap (λ (n : ℕ). some (intact_across n)) longer)
