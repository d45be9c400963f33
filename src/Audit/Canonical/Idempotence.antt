-- ===== src/Audit/Canonical/Idempotence.antt =====
-- The round trip of a payload through its column: `canonicalise` of
-- backend/app/domain/policies/audit_chain.py on what it has returned.
use urja_setu.Base.{some-injective, subst, ◌≡◌, refl, Bool-cases, some, inl, inr}
use urja_setu.Audit.Value.{
  Text, Value, none_value, text, flag, int, enum, amount, float, moment, naive_moment, uuid,
  mapping, sequence, other,
}
use urja_setu.Audit.Value.{Fields, end, field, Items, stop, item}
use urja_setu.Audit.Value.{
  Json, null, string, boolean, number, object, array, Members, close, member, Elements, nil, cons,
  of_json, of_members, of_elements,
}
use urja_setu.Audit.Text.{leb_text}
use urja_setu.Audit.Canonical.{
  canonicalise, canonicalise_fields, canonicalise_items, >>=-eq-some, sort_members, insert_member,
}
use urja_setu.Audit.Canonical.Order.{IsOrdered, sort_members-IsOrdered, sort_members_of_ordered}

-- The members of every object are in the order of their keys.
unfoldable mutual
  pub IsCanonical : Json → Type 0
  IsCanonical (object ms) = IsOrdered ms × HasCanonical ms
  IsCanonical (array es) = IsCanonicalList es
  IsCanonical _ = Unit

  pub HasCanonical : Members → Type 0
  HasCanonical close = Unit
  HasCanonical (member k v ms) = IsCanonical v × HasCanonical ms

  pub IsCanonicalList : Elements → Type 0
  IsCanonicalList nil = Unit
  IsCanonicalList (cons v es) = IsCanonical v × IsCanonicalList es

mutual
  unfolding canonicalise of_json IsCanonical

  pub of_canonical : (j : Json) → IsCanonical j → canonicalise (of_json j) ≡ some j
  of_canonical null h = refl
  of_canonical (string t) h = refl
  of_canonical (boolean b) h = refl
  of_canonical (number z) h = refl
  of_canonical (object ms) h = rw (of_members_canonical ms h.1, sort_members_of_ordered ms h.0) refl
  of_canonical (array es) h = rw (of_elements_canonical es h) refl

  pub of_members_canonical :
      (ms : Members) → HasCanonical ms → canonicalise_fields (of_members ms) ≡ some ms
  of_members_canonical close h = refl
  of_members_canonical (member k v ms) h = rw (of_canonical v h.0, of_members_canonical ms h.1) refl

  of_elements_canonical :
      (es : Elements) → IsCanonicalList es → canonicalise_items (of_elements es) ≡ some es
  of_elements_canonical nil h = refl
  of_elements_canonical (cons v es) h = rw (of_canonical v h.0, of_elements_canonical es h.1) refl

insert_member-HasCanonical :
    (k : Text) (v : Json) (ms : Members)
    → IsCanonical v
    → HasCanonical ms
    → HasCanonical (insert_member k v ms)
unfolding insert_member IsCanonical
insert_member-HasCanonical k v close h l = (h, tt)
insert_member-HasCanonical k v (member j w ms) h l = elim (Bool-cases (leb_text k j)) [
  | inl before ↦ rw before (h, l)
  | inr after ↦ rw after (l.0, insert_member-HasCanonical k v ms h l.1)
]

pub sort_members-HasCanonical : (ms : Members) → HasCanonical ms → HasCanonical (sort_members ms)
unfolding sort_members IsCanonical
sort_members-HasCanonical close h = tt
sort_members-HasCanonical (member k v ms) h =
    insert_member-HasCanonical k v (sort_members ms) h.0 (sort_members-HasCanonical ms h.1)

mutual
  unfolding canonicalise IsCanonical

  canonicalise-IsCanonical : (v : Value) {j : Json} → canonicalise v ≡ some j → IsCanonical j
  canonicalise-IsCanonical none_value h = subst IsCanonical (some-injective h) tt
  canonicalise-IsCanonical (text t) h = subst IsCanonical (some-injective h) tt
  canonicalise-IsCanonical (flag b) h = subst IsCanonical (some-injective h) tt
  canonicalise-IsCanonical (int z) h = subst IsCanonical (some-injective h) tt
  canonicalise-IsCanonical (enum v) h = canonicalise-IsCanonical v h
  canonicalise-IsCanonical (amount negative d) h = subst IsCanonical (some-injective h) tt
  canonicalise-IsCanonical float h = absurd cc
  canonicalise-IsCanonical (moment t) h = subst IsCanonical (some-injective h) tt
  canonicalise-IsCanonical (naive_moment t) h = absurd cc
  canonicalise-IsCanonical (uuid n) h = subst IsCanonical (some-injective h) tt
  canonicalise-IsCanonical (mapping fs) h =
      let (ms, inner, last) = >>=-eq-some (canonicalise_fields fs) _ h in
      subst IsCanonical (some-injective last) (
        sort_members-IsOrdered ms,
        sort_members-HasCanonical ms (canonicalise_fields-HasCanonical fs inner),
      )
  canonicalise-IsCanonical (sequence vs) h =
      let (es, inner, last) = >>=-eq-some (canonicalise_items vs) _ h in
      subst IsCanonical (some-injective last) (canonicalise_items-IsCanonicalList vs inner)
  canonicalise-IsCanonical other h = absurd cc

  pub canonicalise_fields-HasCanonical :
      (fs : Fields) {ms : Members} → canonicalise_fields fs ≡ some ms → HasCanonical ms
  canonicalise_fields-HasCanonical end h = subst HasCanonical (some-injective h) tt
  canonicalise_fields-HasCanonical (field k v fs) h =
      let (w, first, rest) = >>=-eq-some (canonicalise v) _ h in
      let (ms, inner, last) = >>=-eq-some (canonicalise_fields fs) _ rest in
      subst HasCanonical (some-injective last)
        (canonicalise-IsCanonical v first, canonicalise_fields-HasCanonical fs inner)

  canonicalise_items-IsCanonicalList :
      (vs : Items) {es : Elements} → canonicalise_items vs ≡ some es → IsCanonicalList es
  canonicalise_items-IsCanonicalList stop h = subst IsCanonicalList (some-injective h) tt
  canonicalise_items-IsCanonicalList (item v vs) h =
      let (w, first, rest) = >>=-eq-some (canonicalise v) _ h in
      let (es, inner, last) = >>=-eq-some (canonicalise_items vs) _ rest in
      subst IsCanonicalList (some-injective last)
        (canonicalise-IsCanonical v first, canonicalise_items-IsCanonicalList vs inner)

-- What `canonicalise` returns is stored, and canonicalising it again when it is read back gives the
-- same value: the round trip through the column is exact.
pub canonicalise-of_json :
    (v : Value) {j : Json} → canonicalise v ≡ some j → canonicalise (of_json j) ≡ some j
canonicalise-of_json v {j} h = of_canonical j (canonicalise-IsCanonical v h)
