-- ===== src/Audit/Chain.antt =====
-- The chain of hashes: the events of backend/app/domain/interfaces/audit.py, and `event_fingerprint`,
-- `seal` and `verify_chain` of backend/app/domain/policies/audit_chain.py. The hash, SHA-256 in the
-- program, is a parameter. A raised exception is `none`.
pub mod Verifying
pub mod Evidence
use urja_setu.Base.{
  is_some, ℕ, suc, ◌+◌, ◌==◌, ◌&&◌, Bool, true, false, not, Option, none, some, List, [], ◌∷◌, ◌++◌,
  get_or, if◌then◌else◌, is_empty,
}
use urja_setu.Audit.Value.{
  Text, codes, Value, none_value, text, moment, uuid, mapping, Fields, end, field, Json, Members,
  object, of_members,
}
use urja_setu.Audit.Text.{eqb_text}
use urja_setu.Audit.Canonical.{◌>>=◌, canonicalise}
use urja_setu.Audit.Json.{canonical_json}

pub data AuditEntityType : Type 0 where
  order trade market_session : AuditEntityType

pub data AuditEventType : Type 0 where
  order_placed order_cancelled market_cleared trade_proposed grid_validation_recorded
        price_calculated trade_reconciled trade_settled :
      AuditEventType

-- The entity that an event of the type is recorded against.
unfoldable pub subject : AuditEventType → AuditEntityType
subject order_placed = order
subject order_cancelled = order
subject market_cleared = market_session
subject _ = trade

-- The values of the two enumerations.
unfoldable pub entity_name : AuditEntityType → Text
entity_name order = codes "order"
entity_name trade = codes "trade"
entity_name market_session = codes "market_session"

unfoldable pub event_name : AuditEventType → Text
event_name order_placed = codes "order_placed"
event_name order_cancelled = codes "order_cancelled"
event_name market_cleared = codes "market_cleared"
event_name trade_proposed = codes "trade_proposed"
event_name grid_validation_recorded = codes "grid_validation_recorded"
event_name price_calculated = codes "price_calculated"
event_name trade_reconciled = codes "trade_reconciled"
event_name trade_settled = codes "trade_settled"

pub record AuditEvent : Type 0 where
  pub event_id : ℕ
  pub event_type : AuditEventType
  pub entity_type : AuditEntityType
  pub entity_id : ℕ
  pub event_time : ℕ
  pub recorded_at : ℕ
  pub actor_user_id : Option ℕ
  pub payload : Fields

-- `d.get(k, default)`, and the items of the other keys.
unfoldable pub value_at : Text → Value → Fields → Value
unfolding eqb_text
value_at k default end = default
value_at k default (field j v fs) = if eqb_text k j then v else value_at k default fs

unfoldable pub without : Text → Fields → Fields
unfolding eqb_text
without k end = end
without k (field j v fs) = if eqb_text k j then fs else field j v (without k fs)

abbrev pub payload_version : Text
payload_version = codes "1.0.0"

abbrev pub payload_version_key : Text
payload_version_key = codes "payload_version"

-- `{key: version, **payload}`: the payload's own version has the last word, at the first place.
unfoldable pub with_payload_version : Fields → Fields
unfolding value_at without
with_payload_version payload =
    field payload_version_key (value_at payload_version_key (text payload_version) payload)
      (without payload_version_key payload)

unfoldable pub optional : {A : Type 0} → (A → Value) → Option A → Value
optional f none = none_value
optional f (some a) = f a

-- What is hashed.
unfoldable pub material : AuditEvent → Option Text → Value
unfolding event_name entity_name optional with_payload_version
material e previous_hash = mapping (
    field (codes "event_id") (uuid e.event_id) (
      field (codes "event_type") (text (event_name e.event_type)) (
        field (codes "entity_type") (text (entity_name e.entity_type)) (
          field (codes "entity_id") (uuid e.entity_id) (
            field (codes "event_time") (moment e.event_time) (
              field (codes "recorded_at") (moment e.recorded_at) (
                field (codes "actor_user_id") (optional uuid e.actor_user_id) (
                  field (codes "payload") (mapping (with_payload_version e.payload))
                    (field (codes "previous_hash") (optional text previous_hash) end)))))))))

pub record SealedAuditEvent : Type 0 where
  pub event : AuditEvent
  pub previous_hash : Option Text
  pub event_hash : Text

pub data Problem : Type 0 where
  altered out_of_place no_genesis : Problem

pub record ChainVerification : Type 0 where
  pub intact : Bool
  pub events_checked : ℕ
  pub broken_at_event_id : Option ℕ
  pub problems : List Problem

unfoldable pub eqb_hash : (a b : Option Text) → Bool
unfolding eqb_text
eqb_hash none none = true
eqb_hash (some a) (some b) = eqb_text a b
eqb_hash _ _ = false

abbrev pub problem_if : Bool → Problem → List Problem
problem_if true p = p ∷ []
problem_if false p = []

module _ (digest : Text → Text) where
  unfoldable pub event_fingerprint : AuditEvent → Option Text → Option Text
  unfolding canonical_json material
  event_fingerprint e previous_hash = do
    bytes ← canonical_json (material e previous_hash)
    some (digest bytes)

  unfoldable pub seal : AuditEvent → Option Text → Option SealedAuditEvent
  unfolding event_fingerprint
  seal e previous_hash = do
    event_hash ← event_fingerprint e previous_hash
    some (record { event = e; previous_hash = previous_hash; event_hash = event_hash })

  -- The problems of one event, at a place in the chain.
  unfoldable pub problems_of : ℕ → Option Text → SealedAuditEvent → Text → List Problem
  unfolding eqb_text eqb_hash
  problems_of index expected s recomputed =
      problem_if (not (eqb_text s.event_hash recomputed)) altered
      ++ problem_if (not (eqb_hash s.previous_hash expected)) out_of_place
      ++ problem_if ((index == 0) && is_some s.previous_hash) no_genesis

  -- The loop of `verify_chain`, from an event on.
  unfoldable pub verify_from :
      (index checked : ℕ)
      → (expected : Option Text) → List SealedAuditEvent
      → Option ChainVerification
  unfolding event_fingerprint problems_of
  verify_from index checked expected [] =
      some (record {
        intact = true;
        events_checked = checked;
        broken_at_event_id = none;
        problems = [];
      })
  verify_from index checked expected (s ∷ rest) = do
    recomputed ← event_fingerprint s.event s.previous_hash
    let problems = problems_of index expected s recomputed
    elim (is_empty problems) [
      | false ↦ some (record {
        intact = false;
        events_checked = checked;
        broken_at_event_id = some s.event.event_id;
        problems = problems;
      })
      | true ↦ verify_from (suc index) (suc checked) (some s.event_hash) rest
    ]

  unfoldable pub verify_chain : List SealedAuditEvent → Option ChainVerification
  unfolding verify_from
  verify_chain events = verify_from 0 0 none events
