-- ===== src/Audit/Anchoring.antt =====
-- Anchoring an event: `anchor_event` of backend/app/services/audit_service.py and the verification.
use urja_setu.Base.{
  ◌≡◌, refl, sym, ap, ◌∙◌, Bool, ◌&&◌, ◌||◌, ◌==◌, ltb, Bool-cases, inl, inr, ℕ, zero, suc, Option,
  none, some, is_some, List, [], ◌∷◌, map, ok, >>=-eq-ok, or_raise, raise_if-eq-ok, ok-injective,
}
use urja_setu.Base.Sorting.{sorted, map-sorted}
use urja_setu.Base.Rows.{find_row, update_row}
use urja_setu.Audit.Value.{Text}
use urja_setu.Audit.Chain.{SealedAuditEvent, verify_chain}
use urja_setu.Audit.Service.{
  AuditEventRecord, recorded_before, up_to, list_chain, rehydrate, verify, anchor_event,
}

-- The order of two rows is read off what they are rehydrated to.
abbrev earlier : SealedAuditEvent → SealedAuditEvent → Bool
earlier x y =
    ltb x.event.recorded_at y.event.recorded_at
    || ((x.event.recorded_at == y.event.recorded_at) && ltb x.event.event_id y.event.event_id)

first_events : ℕ → List SealedAuditEvent → List SealedAuditEvent
first_events zero xs = []
first_events (suc n) [] = []
first_events (suc n) (x ∷ xs) = x ∷ first_events n xs

map-up_to :
    (n : ℕ) (rows : List AuditEventRecord)
    → map rehydrate (up_to n rows) ≡ first_events n (map rehydrate rows)
unfolding up_to first_events
map-up_to zero rows = refl
map-up_to (suc n) [] = refl
map-up_to (suc n) (r ∷ rows) = ap (λ xs. rehydrate r ∷ xs) (map-up_to n rows)

listed : List AuditEventRecord → List SealedAuditEvent
unfolding sorted
listed rows = sorted earlier (map rehydrate rows)

map-list_chain :
    (rows : List AuditEventRecord) → map rehydrate (sorted recorded_before rows) ≡ listed rows
unfolding listed recorded_before rehydrate
map-list_chain rows = map-sorted rehydrate recorded_before earlier (λ x y. refl) rows

verify_of_same :
    (digest : Text → Text) (limit : Option ℕ) (rows after : List AuditEventRecord)
    → map rehydrate after ≡ map rehydrate rows
    → verify digest limit after ≡ verify digest limit rows
unfolding verify list_chain listed
verify_of_same digest none rows after h =
    ap (verify_chain digest)
      (map-list_chain after ∙ ap (sorted earlier) h ∙ sym (map-list_chain rows))
verify_of_same digest (some n) rows after h = ap (verify_chain digest) (
    map-up_to n (sorted recorded_before after)
    ∙ ap (first_events n) (map-list_chain after ∙ ap (sorted earlier) h ∙ sym (map-list_chain rows))
    ∙ sym (map-up_to n (sorted recorded_before rows)))

update_row-anchor :
    (id : ℕ) (reference : Text) (rows : List AuditEventRecord)
    → map rehydrate (
        update_row
          (λ (r : AuditEventRecord). r.id)
          id
          (λ r. record r { ledger_anchor_id = some reference })
          rows)
      ≡ map rehydrate rows
unfolding update_row rehydrate
update_row-anchor id reference [] = refl
update_row-anchor id reference (r ∷ rows) = elim (Bool-cases (r.id == id)) [
  | inl same ↦ rw same refl
  | inr other ↦ rw other (ap (λ xs. rehydrate r ∷ xs) (update_row-anchor id reference rows))
]

-- Anchoring an event changes no outcome of the verification, at any limit.
pub anchor_event-verify :
    (digest : Text → Text) (limit : Option ℕ) (publish : SealedAuditEvent → Option Text) (id : ℕ)
    (rows : List AuditEventRecord) {after : List AuditEventRecord}
    → anchor_event publish id rows ≡ ok after
    → verify digest limit after ≡ verify digest limit rows
unfolding anchor_event
anchor_event-verify digest limit publish id rows {after} h =
    let (row, _, h) =
      >>=-eq-ok (or_raise (find_row (λ (r : AuditEventRecord). r.id) id rows) _) _ h in
    let (_, h) = raise_if-eq-ok (is_some row.ledger_anchor_id) _ _ h in
    let (reference, _, h) = >>=-eq-ok (or_raise (publish (rehydrate row)) _) _ h in
    verify_of_same digest limit rows after
      (ap (map rehydrate) (sym (ok-injective h)) ∙ update_row-anchor id reference rows)
