-- ===== src/Audit/Tests.antt =====
-- Runs of the audit log on concrete input, with the identity in place of the hash, and its theorems
-- at work on them.
use urja_setu.Base.{
  ◌≡◌, refl, inl, inr, ◌↔◌, ◌<◌, ℕ, true, false, Option, none, some, List, [], ◌∷◌, map, ok, err,
  Result, arith,
}
use urja_setu.Base.Int.{negsuc}
use urja_setu.Base.Decimal.{decimal}
use urja_setu.Audit.Value.{
  Text, codes, text, int, amount, mapping, sequence, float, Fields, end, field, stop, item, object,
  string, number, close, member, of_json,
}
use urja_setu.Audit.Canonical.{canonicalise}
use urja_setu.Audit.Canonical.Idempotence.{canonicalise-of_json}
use urja_setu.Audit.Json.{canonical_json}
use urja_setu.Audit.Chain.{
  AuditEvent, order_placed, trade_settled, order, trade, SealedAuditEvent, ChainVerification, seal,
  verify_chain,
}
use urja_setu.Audit.Chain.Verifying.{IsLinked, intact_across, verify_chain-IsLinked}
use urja_setu.Audit.Chain.Evidence.{form_of, last_hash, verify_chain-last_hash}
use urja_setu.Audit.Service.{AuditEventRecord, AuditError, record_event, verify, anchor_event}
use urja_setu.Audit.Recording.{IsLog, record_event-verify}
use urja_setu.Audit.Anchoring.{anchor_event-verify}
use urja_setu.Audit.Ties.{record_event-Precedes}

abbrev price_first : Fields
price_first =
    field (codes "price") (amount false (decimal 60500 4)) (field (codes "n") (int (negsuc 4)) end)

abbrev price_last : Fields
price_last = field (codes "n") (int (negsuc 4)) (field (codes "price") (text (codes "6.0500")) end)

runs_json : canonical_json (mapping price_first) ≡ some (codes "{\"n\":-5,\"price\":\"6.0500\"}")
unfolding canonical_json
runs_json = refl

-- A float is refused, however deep it stands.
runs_float : canonical_json (mapping (field (codes "a") (sequence (item float stop)) end)) ≡ none
unfolding canonical_json
runs_float = refl

canonical_price :
    canonicalise (mapping price_first)
    ≡ some (
        object (
          member
            (codes "n")
            (number (negsuc 4))
            (member (codes "price") (string (codes "6.0500")) close)))
unfolding canonicalise
canonical_price = refl

canonicalise-of_json_example :
    canonicalise (
      of_json (
        object (
          member
            (codes "n")
            (number (negsuc 4))
            (member (codes "price") (string (codes "6.0500")) close))))
    ≡ some (
        object (
          member
            (codes "n")
            (number (negsuc 4))
            (member (codes "price") (string (codes "6.0500")) close)))
canonicalise-of_json_example = canonicalise-of_json (mapping price_first) canonical_price

abbrev plain : Text → Text
plain bytes = bytes

abbrev placed : Fields → AuditEvent
placed payload = record {
  event_id = 1;
  event_type = order_placed;
  entity_type = order;
  entity_id = 10;
  event_time = 5;
  recorded_at = 6;
  actor_user_id = some 3;
  payload = payload;
}

abbrev settled : ℕ → ℕ → AuditEvent
settled id recorded_at = record {
  event_id = id;
  event_type = trade_settled;
  entity_type = trade;
  entity_id = 20;
  event_time = 5;
  recorded_at = recorded_at;
  actor_user_id = none;
  payload = end;
}

abbrev rows_of : Result AuditError (List AuditEventRecord) → List AuditEventRecord
rows_of (ok rows) = rows
rows_of (err e) = []

abbrev head_row : List AuditEventRecord → AuditEventRecord
head_row [] = record {
  id = 0;
  event_type = order_placed;
  entity_type = order;
  entity_id = 0;
  event_time = 0;
  recorded_at = 0;
  actor_user_id = none;
  payload_json = close;
  event_hash = [];
  previous_hash = none;
  ledger_anchor_id = none;
}
head_row (r ∷ rows) = r

first_log : List AuditEventRecord
unfolding record_event
first_log = rows_of (record_event plain [] (placed price_first))

first_recorded : record_event plain [] (placed price_first) ≡ ok first_log
unfolding first_log record_event
first_recorded = refl

second_log : List AuditEventRecord
unfolding first_log record_event
second_log = rows_of (record_event plain first_log (settled 2 7))

second_recorded : record_event plain first_log (settled 2 7) ≡ ok second_log
unfolding second_log first_log record_event
second_recorded = refl

-- The identifier of the second event sorts before that of the first, and both have one time.
tied_log : List AuditEventRecord
unfolding first_log record_event
tied_log = rows_of (record_event plain first_log (settled 0 6))

tied_recorded : record_event plain first_log (settled 0 6) ≡ ok tied_log
unfolding tied_log first_log record_event
tied_recorded = refl

empty-IsLog : IsLog plain []
empty-IsLog = record { chronological = tt; linked = tt }

first-IsLog : IsLog plain first_log
first-IsLog = (record_event-verify plain [] (placed price_first) empty-IsLog tt first_recorded).0

record_event-verify_example :
    IsLog plain second_log × (verify plain none second_log ≡ some (intact_across 2))
unfolding first_log record_event
record_event-verify_example =
    record_event-verify plain first_log (settled 2 7) first-IsLog (inl (omega arith), tt)
      second_recorded

tied_outcome : (v : ChainVerification) × (verify plain none tied_log ≡ some v)
unfolding tied_log first_log record_event verify
tied_outcome = (_, refl)

first_row : AuditEventRecord
unfolding first_log record_event
first_row = head_row first_log

first_log-cons : first_log ≡ first_row ∷ []
unfolding first_log first_row record_event
first_log-cons = refl

tied_recorded_cons : record_event plain (first_row ∷ []) (settled 0 6) ≡ ok tied_log
unfolding tied_log first_log first_row record_event
tied_recorded_cons = refl

first_row_order : (6 ≡ first_row.recorded_at) × (0 < first_row.id)
unfolding first_log first_row record_event
first_row_order = (refl, omega arith)

-- A second event of the same microsecond, with a smaller identifier, breaks the log.
record_event-Precedes_example : tied_outcome.0.intact ≡ false
record_event-Precedes_example =
    record_event-Precedes plain first_row [] (settled 0 6) (inr first_row_order, tt)
      tied_recorded_cons tied_outcome.1

abbrev publish : SealedAuditEvent → Option Text
publish s = some s.event_hash

anchored_log : List AuditEventRecord
unfolding second_log first_log record_event anchor_event
anchored_log = rows_of (anchor_event publish 1 second_log)

anchored : anchor_event publish 1 second_log ≡ ok anchored_log
unfolding anchored_log second_log first_log record_event anchor_event
anchored = refl

anchor_event-verify_example : verify plain (some 1) anchored_log ≡ verify plain (some 1) second_log
anchor_event-verify_example = anchor_event-verify plain (some 1) publish 1 second_log anchored

abbrev sealed_of : Option SealedAuditEvent → List SealedAuditEvent
sealed_of none = []
sealed_of (some s) = s ∷ []

one_chain : List SealedAuditEvent
unfolding seal
one_chain = sealed_of (seal plain (placed price_first) none)

same_chain : List SealedAuditEvent
unfolding seal
same_chain = sealed_of (seal plain (placed price_last) none)

one_intact : verify_chain plain one_chain ≡ some (intact_across 1)
unfolding one_chain seal verify_chain
one_intact = refl

same_intact : verify_chain plain same_chain ≡ some (intact_across 1)
unfolding same_chain seal verify_chain
same_intact = refl

same_end : last_hash none one_chain ≡ last_hash none same_chain
unfolding one_chain same_chain seal
same_end = refl

verify_chain-IsLinked_example :
    ((v : ChainVerification) × (verify_chain plain one_chain ≡ some v) × (v.intact ≡ true))
    ↔ IsLinked plain none one_chain
verify_chain-IsLinked_example = verify_chain-IsLinked plain one_chain

verify_chain-last_hash_example : map form_of one_chain ≡ map form_of same_chain
verify_chain-last_hash_example =
    verify_chain-last_hash plain (λ a b h. h) one_chain same_chain one_intact refl same_intact refl
      same_end
