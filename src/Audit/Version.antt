-- ===== src/Audit/Version.antt =====
-- The payload that comes back from its column: `with_payload_version` of
-- backend/app/domain/interfaces/audit.py on what was stored.
use urja_setu.Base.{some-injective, ◌≡◌, refl, sym, ap, ◌∙◌, subst, Option, some, []}
use urja_setu.Audit.Value.{Text, text, mapping, Fields, Json, object, Members, of_members}
use urja_setu.Audit.Canonical.{
  canonicalise, canonicalise_fields, canonical_payload, ◌>>=◌, >>=-eq-some, sort_members,
}
use urja_setu.Audit.Canonical.Order.{IsOrdered, sort_members_of_ordered, sort_members-IsOrdered}
use urja_setu.Audit.Canonical.Idempotence.{
  HasCanonical, of_canonical, of_members_canonical, sort_members-HasCanonical,
  canonicalise_fields-HasCanonical,
}
use urja_setu.Audit.Chain.Evidence.{canonicalise-material}
use urja_setu.Audit.Json.{canonical_json, dumps}
use urja_setu.Audit.Chain.{
  AuditEvent, material, event_fingerprint, value_at, without, with_payload_version, payload_version,
  payload_version_key,
}
use urja_setu.Audit.Members.{
  member_at, others, value_at-of_members, without-of_members, others-IsOrdered, others-HasCanonical,
  member_at-IsCanonical, insert_member-others, member_at-insert_member,
}

-- A canonical object that has its version is the canonical form of itself with a version.
with_version_of_canonical :
    (ms : Members) {j : Json}
    → member_at payload_version_key ms ≡ some j
    → IsOrdered ms
    → HasCanonical ms
    → canonicalise (mapping (with_payload_version (of_members ms))) ≡ some (object ms)
unfolding canonicalise with_payload_version
with_version_of_canonical ms {j} found o c =
    rw
      (
        value_at-of_members payload_version_key (text payload_version) ms found,
        without-of_members payload_version_key ms,
        of_canonical j (member_at-IsCanonical payload_version_key ms found c),
        of_members_canonical (others payload_version_key ms)
            (others-HasCanonical payload_version_key ms c),
        sort_members_of_ordered (others payload_version_key ms)
            (others-IsOrdered payload_version_key ms o),
        insert_member-others payload_version_key ms found o,
      )
      refl

versioned-member_at :
    (payload : Fields) {fs : Members}
    → canonicalise_fields (with_payload_version payload) ≡ some fs
    → (j : Json) × (member_at payload_version_key (sort_members fs) ≡ some j)
unfolding canonicalise with_payload_version sort_members
versioned-member_at payload {fs} h =
    let (w, _, rest) =
      >>=-eq-some (canonicalise (value_at payload_version_key (text payload_version) payload)) _
        h in
    let (gs, _, last) =
      >>=-eq-some (canonicalise_fields (without payload_version_key payload)) _ rest in
    subst (λ ms. (j : Json) × (member_at payload_version_key (sort_members ms) ≡ some j))
      (some-injective last) (member_at-insert_member payload_version_key w (sort_members gs))

-- The payload as it is stored, read back and given its version again, has the canonical form that
-- it was stored in.
canonical_payload-with_payload_version :
    (payload : Fields) {ms : Members}
    → canonical_payload (with_payload_version payload) ≡ some ms
    → (canonicalise (mapping (with_payload_version payload)) ≡ some (object ms))
      × (canonicalise (mapping (with_payload_version (of_members ms))) ≡ some (object ms))
unfolding canonical_payload canonicalise sort_members
canonical_payload-with_payload_version payload {ms} h =
    let (fs, inner, last) = >>=-eq-some (canonicalise_fields (with_payload_version payload)) _ h in
    let stored : sort_members fs ≡ ms = some-injective last in
    let (j, found) = versioned-member_at payload inner in
    (
      rw inner (ap (λ m. some (object m)) stored),
      with_version_of_canonical ms (ap (member_at payload_version_key) (sym stored) ∙ found)
          (subst IsOrdered stored (sort_members-IsOrdered fs))
          (subst HasCanonical stored (
            sort_members-HasCanonical fs
              (canonicalise_fields-HasCanonical (with_payload_version payload) inner))),
    )

-- An event with its stored payload has the fingerprint of the event.
pub event_fingerprint_of_stored :
    (digest : Text → Text) (e : AuditEvent) (p : Option Text) {ms : Members}
    → canonical_payload (with_payload_version e.payload) ≡ some ms
    → event_fingerprint digest (record e { payload = of_members ms }) p
      ≡ event_fingerprint digest e p
unfolding event_fingerprint canonical_json
event_fingerprint_of_stored digest e p {ms} h =
    let (original, stored) = canonical_payload-with_payload_version e.payload h in
    let same : canonicalise (material (record e { payload = of_members ms }) p)
        ≡ canonicalise (material e p) =
      canonicalise-material (record e { payload = of_members ms }) p (some (object ms)) stored
      ∙ sym (canonicalise-material e p (some (object ms)) original) in
    ap (λ (c : Option Json). (c >>= λ j. some (dumps j [])) >>= λ bytes. some (digest bytes)) same
