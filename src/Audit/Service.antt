-- ===== src/Audit/Service.antt =====
-- The audit log: the rows of backend/app/db/models/audit.py, the queries of
-- backend/app/repositories/audit.py and the operations of backend/app/services/audit_service.py.
-- `record` runs inside the transaction of its caller. The rows are listed as they were added.
use urja_setu.Base.{
  ℕ, Bool, true, false, ◌&&◌, ◌||◌, ◌==◌, ltb, Option, none, some, is_some, List, [], ◌∷◌, ◌++◌,
  map, any, filter, Result, ok, ◌>>=◌, ◌>>◌, raise_if, or_raise, zero, suc,
}
use urja_setu.Base.Sorting.{sorted}
use urja_setu.Base.Rows.{find_row, update_row}
use urja_setu.Audit.Value.{Text, Fields, Members, of_members}
use urja_setu.Audit.Text.{eqb_text}
use urja_setu.Audit.Canonical.{canonical_payload}
use urja_setu.Audit.Chain.{
  AuditEntityType, order, trade, market_session, AuditEventType, subject, AuditEvent,
  SealedAuditEvent, ChainVerification, with_payload_version, eqb_hash, seal, verify_chain,
}

pub record AuditEventRecord : Type 0 where
  pub id : ℕ
  pub event_type : AuditEventType
  pub entity_type : AuditEntityType
  pub entity_id : ℕ
  pub event_time : ℕ
  pub recorded_at : ℕ
  pub actor_user_id : Option ℕ
  pub payload_json : Members
  pub event_hash : Text
  pub previous_hash : Option Text
  pub ledger_anchor_id : Option Text

pub data AuditError : Type 0 where
  not_canonical integrity audit_event_not_found already_anchored publisher_failed : AuditError

-- The order by `recorded_at` and then by id.
unfoldable pub recorded_before : AuditEventRecord → AuditEventRecord → Bool
recorded_before x y =
    ltb x.recorded_at y.recorded_at || ((x.recorded_at == y.recorded_at) && ltb x.id y.id)

unfoldable pub head_of : List AuditEventRecord → Option AuditEventRecord
head_of [] = none
head_of (r ∷ rows) = some r

-- The first row by the order turned round.
unfoldable pub latest : List AuditEventRecord → Option AuditEventRecord
unfolding head_of sorted recorded_before
latest rows = head_of (sorted (λ x y. recorded_before y x) rows)

unfoldable pub up_to : ℕ → List AuditEventRecord → List AuditEventRecord
up_to zero rows = []
up_to (suc n) [] = []
up_to (suc n) (r ∷ rows) = r ∷ up_to n rows

unfoldable pub list_chain : Option ℕ → List AuditEventRecord → List AuditEventRecord
unfolding sorted recorded_before up_to
list_chain none rows = sorted recorded_before rows
list_chain (some limit) rows = up_to limit (sorted recorded_before rows)

unfoldable pub same_entity : AuditEntityType → AuditEntityType → Bool
same_entity order order = true
same_entity trade trade = true
same_entity market_session market_session = true
same_entity _ _ = false

-- `list_for_entity`
unfoldable pub timeline : AuditEntityType → ℕ → List AuditEventRecord → List AuditEventRecord
unfolding sorted recorded_before filter same_entity
timeline type id rows =
    sorted recorded_before (
      filter (λ (r : AuditEventRecord). same_entity r.entity_type type && (r.entity_id == id)) rows)

-- `_rehydrate`
unfoldable pub rehydrate : AuditEventRecord → SealedAuditEvent
unfolding of_members
rehydrate r = record {
  event = record {
    event_id = r.id;
    event_type = r.event_type;
    entity_type = r.entity_type;
    entity_id = r.entity_id;
    event_time = r.event_time;
    recorded_at = r.recorded_at;
    actor_user_id = r.actor_user_id;
    payload = of_members r.payload_json;
  };
  previous_hash = r.previous_hash;
  event_hash = r.event_hash;
}

-- The unique constraints and the check on the table.
unfoldable pub is_refused : AuditEventRecord → List AuditEventRecord → Bool
unfolding any eqb_text eqb_hash
is_refused row rows =
    eqb_hash row.previous_hash (some row.event_hash)
    || any
        (λ (r : AuditEventRecord).
          (r.id == row.id)
          || (eqb_text r.event_hash row.event_hash || eqb_hash r.previous_hash row.previous_hash))
        rows

unfoldable pub row_of : SealedAuditEvent → Members → AuditEventRecord
row_of s payload = record {
  id = s.event.event_id;
  event_type = s.event.event_type;
  entity_type = s.event.entity_type;
  entity_id = s.event.entity_id;
  event_time = s.event.event_time;
  recorded_at = s.event.recorded_at;
  actor_user_id = s.event.actor_user_id;
  payload_json = payload;
  event_hash = s.event_hash;
  previous_hash = s.previous_hash;
  ledger_anchor_id = none;
}

-- `build_event`, with the identifier and the clock as arguments.
unfoldable pub build_event :
    (event_id : ℕ)
    → AuditEventType
    → (entity_id : ℕ) → Fields
    → (occurred_at : ℕ) → (actor_user_id : Option ℕ) → (recorded_at : ℕ) → AuditEvent
unfolding subject
build_event event_id type entity_id payload occurred_at actor_user_id recorded_at = record {
  event_id = event_id;
  event_type = type;
  entity_type = subject type;
  entity_id = entity_id;
  event_time = occurred_at;
  recorded_at = recorded_at;
  actor_user_id = actor_user_id;
  payload = payload;
}

abbrev pub hash_of : Option AuditEventRecord → Option Text
hash_of none = none
hash_of (some r) = some r.event_hash

module _ (digest : Text → Text) where
  -- The rows afterwards.
  unfoldable pub record_event :
      List AuditEventRecord → AuditEvent → Result AuditError (List AuditEventRecord)
  unfolding latest seal canonical_payload with_payload_version row_of is_refused
  record_event rows e = do
    sealed ← or_raise (seal digest e (hash_of (latest rows))) not_canonical
    payload ← or_raise (canonical_payload (with_payload_version e.payload)) not_canonical
    raise_if (is_refused (row_of sealed payload) rows) integrity
    ok (rows ++ row_of sealed payload ∷ [])

  -- `none` is an exception from a payload.
  unfoldable pub verify : Option ℕ → List AuditEventRecord → Option ChainVerification
  unfolding list_chain rehydrate verify_chain
  verify limit rows = verify_chain digest (map rehydrate (list_chain limit rows))

-- The publisher gives a reference or fails.
unfoldable pub anchor_event :
    (publish : SealedAuditEvent → Option Text)
    → (event_id : ℕ) → List AuditEventRecord
    → Result AuditError (List AuditEventRecord)
unfolding rehydrate find_row update_row
anchor_event publish event_id rows = do
  row ← or_raise (find_row (λ (r : AuditEventRecord). r.id) event_id rows) audit_event_not_found
  raise_if (is_some row.ledger_anchor_id) already_anchored
  reference ← or_raise (publish (rehydrate row)) publisher_failed
  ok (
      update_row (λ (r : AuditEventRecord). r.id) event_id
        (λ r. record r { ledger_anchor_id = some reference }) rows)
