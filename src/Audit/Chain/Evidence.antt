-- ===== src/Audit/Chain/Evidence.antt =====
-- Tampering: what two chains that `verify_chain` of backend/app/domain/policies/audit_chain.py passes
-- have in common, if they end in one hash.
use urja_setu.Base.{
  some-injective, append_nil, ℕ, ◌≡◌, refl, sym, ap, ◌∙◌, Option, none, some, List, [], ◌∷◌, ◌++◌,
  map, true,
}
use urja_setu.Audit.Text.{uuid_text, moment_text}
use urja_setu.Audit.Value.{
  Text, codes, text, uuid, mapping, Json, object, close, member, null, string,
}
use urja_setu.Audit.Canonical.{◌>>=◌, >>=-eq-some, canonicalise}
use urja_setu.Audit.Json.{canonical_json}
use urja_setu.Audit.Json.RoundTrip.{canonical_json-injective}
use urja_setu.Audit.Chain.{
  SealedAuditEvent, AuditEvent, ChainVerification, optional, entity_name, event_name,
  with_payload_version, event_fingerprint, material, verify_chain,
}
use urja_setu.Audit.Chain.Verifying.{IsLinked, verify_chain-IsLinked}

-- What was hashed of an event, in its canonical form.
abbrev pub form_of : SealedAuditEvent → Option Json
form_of s = canonicalise (material s.event s.previous_hash)

-- The hash that a chain ends in, after one that it goes on from.
abbrev pub last_hash : Option Text → List SealedAuditEvent → Option Text
last_hash start [] = start
last_hash start (s ∷ rest) = last_hash (some s.event_hash) rest

abbrev pub optional_json : {A : Type 0} → (A → Json) → Option A → Json
optional_json f none = null
optional_json f (some a) = f a

canonicalise-optional_uuid :
    (a : Option ℕ)
    → canonicalise (optional uuid a) ≡ some (optional_json (λ n. string (uuid_text n)) a)
unfolding canonicalise optional
canonicalise-optional_uuid none = refl
canonicalise-optional_uuid (some n) = refl

canonicalise-optional_text :
    (a : Option Text) → canonicalise (optional text a) ≡ some (optional_json string a)
unfolding canonicalise optional
canonicalise-optional_text none = refl
canonicalise-optional_text (some t) = refl

-- The payload's canonical form among the others.
abbrev pub form : AuditEvent → Option Text → Json → Json
form e p payload = object (
    member (codes "actor_user_id") (optional_json (λ n. string (uuid_text n)) e.actor_user_id) (
      member (codes "entity_id") (string (uuid_text e.entity_id)) (
        member (codes "entity_type") (string (entity_name e.entity_type)) (
          member (codes "event_id") (string (uuid_text e.event_id)) (
            member (codes "event_time") (string (moment_text e.event_time)) (
              member (codes "event_type") (string (event_name e.event_type)) (
                member (codes "payload") payload (
                  member (codes "previous_hash") (optional_json string p) (
                    member (codes "recorded_at") (string (moment_text e.recorded_at)) close)))))))))

pub canonicalise-material :
    (e : AuditEvent) (p : Option Text) (payload : Option Json)
    → canonicalise (mapping (with_payload_version e.payload)) ≡ payload
    → canonicalise (material e p) ≡ (payload >>= λ w. some (form e p w))
unfolding canonicalise material
canonicalise-material e p none h = rw (h, canonicalise-optional_uuid e.actor_user_id) refl
canonicalise-material e p (some w) h =
    rw (h, canonicalise-optional_uuid e.actor_user_id, canonicalise-optional_text p) refl

optional_string-injective :
    (p q : Option Text) → Path Json (optional_json string p) (optional_json string q) → p ≡ q
optional_string-injective none none h = refl
optional_string-injective none (some b) h = absurd cc
optional_string-injective (some a) none h = absurd cc
optional_string-injective (some a) (some b) h = cc

form-injective :
    (e f : AuditEvent) (p q : Option Text) (v w : Json) → form e p v ≡ form f q w → p ≡ q
form-injective e f p q v w h = optional_string-injective p q (cc)

material-previous :
    (e f : AuditEvent) (p q : Option Text) {j : Json}
    → canonicalise (material e p) ≡ some j
    → canonicalise (material f q) ≡ some j
    → p ≡ q
material-previous e f p q h k =
    let (v, _, first) =
      >>=-eq-some (canonicalise (mapping (with_payload_version e.payload))) (λ w. some (form e p w))
        (sym (canonicalise-material e p _ refl) ∙ h) in
    let (w, _, second) =
      >>=-eq-some (canonicalise (mapping (with_payload_version f.payload))) (λ w. some (form f q w))
        (sym (canonicalise-material f q _ refl) ∙ k) in
    form-injective e f p q v w (some-injective (first ∙ sym second))

-- A list turned round, before another.
turn : {A : Type 0} → List A → List A → List A
turn earlier [] = earlier
turn earlier (x ∷ xs) = turn (x ∷ earlier) xs

turn-turn : {A : Type 0} (a b xs : List A) → turn b (turn a xs) ≡ turn (xs ++ b) a
unfolding turn
turn-turn a b [] = refl
turn-turn a b (x ∷ xs) = turn-turn (x ∷ a) b xs

turn-injective : {A : Type 0} (xs ys : List A) → turn [] xs ≡ turn [] ys → xs ≡ ys
unfolding turn
turn-injective xs ys h =
    sym (append_nil xs)
    ∙ sym (turn-turn [] [] xs)
    ∙ ap (turn []) h
    ∙ turn-turn [] [] ys
    ∙ append_nil ys

map-turn :
    {A B : Type 0} (f : A → B) (a xs : List A) → map f (turn a xs) ≡ turn (map f a) (map f xs)
unfolding turn
map-turn f a [] = refl
map-turn f a (x ∷ xs) = map-turn f (x ∷ a) xs

module _ (digest : Text → Text) (collision_free : (a b : Text) → digest a ≡ digest b → a ≡ b) where
  -- One hash stands for one form and one predecessor.
  fingerprint-injective :
      (s t : SealedAuditEvent)
      → event_fingerprint digest s.event s.previous_hash ≡ some s.event_hash
      → event_fingerprint digest t.event t.previous_hash ≡ some t.event_hash
      → s.event_hash ≡ t.event_hash
      → (form_of s ≡ form_of t) × (s.previous_hash ≡ t.previous_hash)
  unfolding event_fingerprint
  fingerprint-injective s t h k same =
      let (a, written, hashed) =
        >>=-eq-some (canonical_json (material s.event s.previous_hash)) _ h in
      let (b, again, rehashed) =
        >>=-eq-some (canonical_json (material t.event t.previous_hash)) _ k in
      let bytes : b ≡ a =
        collision_free b a (some-injective rehashed ∙ sym same ∙ sym (some-injective hashed)) in
      let (j, left, right) =
        canonical_json-injective (material s.event s.previous_hash)
          (material t.event t.previous_hash) written (again ∙ ap some bytes) in
      (
        left ∙ sym right,
        material-previous s.event t.event s.previous_hash t.previous_hash left right,
      )

  head_hash : List SealedAuditEvent → Option Text
  head_hash [] = none
  head_hash (s ∷ earlier) = some s.event_hash

  -- A chain from its end.
  abbrev IsBackLinked : List SealedAuditEvent → Type 0
  IsBackLinked [] = Unit
  IsBackLinked (s ∷ earlier) =
      (event_fingerprint digest s.event s.previous_hash ≡ some s.event_hash)
      × (s.previous_hash ≡ head_hash earlier)
      × IsBackLinked earlier

  back-forms :
      (xs ys : List SealedAuditEvent)
      → IsBackLinked xs
      → IsBackLinked ys
      → head_hash xs ≡ head_hash ys
      → map form_of xs ≡ map form_of ys
  unfolding head_hash
  back-forms [] [] l k h = refl
  back-forms [] (t ∷ ys) l k h = absurd cc
  back-forms (s ∷ xs) [] l k h = absurd cc
  back-forms (s ∷ xs) (t ∷ ys) l k h =
      let (form, previous) = fingerprint-injective s t l.0 k.0 (some-injective h) in
      let rest = back-forms xs ys l.2 k.2 (sym l.1 ∙ previous ∙ k.1) in cc

  turn-IsBackLinked :
      (earlier xs : List SealedAuditEvent)
      → IsBackLinked earlier
      → IsLinked digest (head_hash earlier) xs
      → IsBackLinked (turn earlier xs)
        × (head_hash (turn earlier xs) ≡ last_hash (head_hash earlier) xs)
  unfolding turn head_hash
  turn-IsBackLinked earlier [] b l = (b, refl)
  turn-IsBackLinked earlier (s ∷ xs) b l = turn-IsBackLinked (s ∷ earlier) xs (l.0, l.1, b) l.2

  -- If no two texts have one hash, two chains that the verification calls intact and that end in one
  -- hash hold the same events in the same order, each in its canonical form and its position: no
  -- event can be changed, added, removed or moved under a head that is known.
  pub verify_chain-last_hash :
      (xs ys : List SealedAuditEvent) {v w : ChainVerification}
      → verify_chain digest xs ≡ some v
      → v.intact ≡ true
      → verify_chain digest ys ≡ some w
      → w.intact ≡ true
      → last_hash none xs ≡ last_hash none ys
      → map form_of xs ≡ map form_of ys
  unfolding head_hash
  verify_chain-last_hash xs ys {v} {w} h i k j same =
      let (first, ends) =
        turn-IsBackLinked [] xs tt ((verify_chain-IsLinked digest xs).0 (v, h, i)) in
      let (second, finishes) =
        turn-IsBackLinked [] ys tt ((verify_chain-IsLinked digest ys).0 (w, k, j)) in
      turn-injective (map form_of xs) (map form_of ys) (
        sym (map-turn form_of [] xs)
        ∙ back-forms (turn [] xs) (turn [] ys) first second (ends ∙ same ∙ sym finishes)
        ∙ map-turn form_of [] ys)
