-- ===== src/Audit/Members.antt =====
-- The members of a canonical object by their names: the payload of an event in
-- backend/app/domain/policies/audit_chain.py.
use urja_setu.Base.{
  some-injective, ◌≡◌, refl, sym, ap, ◌∙◌, subst, true, false, Bool-cases, Option, none, some, inl,
  inr, [], ◌∷◌, if◌then◌else◌, arith,
}
use urja_setu.Audit.Value.{Text, Value, field, Json, Members, close, member, of_json, of_members}
use urja_setu.Audit.Text.{leb_text, eqb_text}
use urja_setu.Audit.Canonical.{insert_member}
use urja_setu.Audit.Canonical.Order.{IsLeast, IsOrdered, insert_member_of_least}
use urja_setu.Audit.Canonical.Idempotence.{IsCanonical, HasCanonical}
use urja_setu.Audit.Chain.Verifying.{eqb_text→eq, eqb_text_self}
use urja_setu.Audit.Chain.{value_at, without}

leb_text_antisym : (a b : Text) → leb_text a b ≡ true → leb_text b a ≡ true → eqb_text a b ≡ true
unfolding leb_text eqb_text
leb_text_antisym [] [] h k = refl
leb_text_antisym [] (y ∷ b) h k = absurd cc
leb_text_antisym (x ∷ a) [] h k = absurd cc
leb_text_antisym (x ∷ a) (y ∷ b) h k = ground (arith, leb_text_antisym a b)

-- The first member of a key, and the others.
pub member_at : Text → Members → Option Json
member_at k close = none
member_at k (member j w ms) = if eqb_text k j then some w else member_at k ms

pub others : Text → Members → Members
others k close = close
others k (member j w ms) = if eqb_text k j then ms else member j w (others k ms)

pub value_at-of_members :
    (k : Text) (default : Value) (ms : Members) {j : Json}
    → member_at k ms ≡ some j
    → value_at k default (of_members ms) ≡ of_json j
unfolding value_at of_members member_at
value_at-of_members k default close h = absurd cc
value_at-of_members k default (member i w ms) h = elim (Bool-cases (eqb_text k i)) [
  | inl same ↦ rw same (ap of_json (some-injective (rw same at h)))
  | inr other ↦ rw other (value_at-of_members k default ms (rw other at h))
]

pub without-of_members :
    (k : Text) (ms : Members) → without k (of_members ms) ≡ of_members (others k ms)
unfolding without of_members others
without-of_members k close = refl
without-of_members k (member i w ms) = elim (Bool-cases (eqb_text k i)) [
  | inl same ↦ rw same refl
  | inr other ↦ rw other (ap (λ fs. field i (of_json w) fs) (without-of_members k ms))
]

others-IsLeast : (a k : Text) (ms : Members) → IsLeast a ms → IsLeast a (others k ms)
unfolding others
others-IsLeast a k close l = tt
others-IsLeast a k (member i w ms) l = elim (Bool-cases (eqb_text k i)) [
  | inl same ↦ rw same (l.1)
  | inr other ↦ rw other (l.0, others-IsLeast a k ms l.1)
]

pub others-IsOrdered : (k : Text) (ms : Members) → IsOrdered ms → IsOrdered (others k ms)
unfolding others
others-IsOrdered k close o = tt
others-IsOrdered k (member i w ms) o = elim (Bool-cases (eqb_text k i)) [
  | inl same ↦ rw same (o.1)
  | inr other ↦ rw other (others-IsLeast i k ms o.0, others-IsOrdered k ms o.1)
]

pub others-HasCanonical : (k : Text) (ms : Members) → HasCanonical ms → HasCanonical (others k ms)
unfolding others IsCanonical
others-HasCanonical k close h = tt
others-HasCanonical k (member i w ms) h = elim (Bool-cases (eqb_text k i)) [
  | inl same ↦ rw same (h.1)
  | inr other ↦ rw other (h.0, others-HasCanonical k ms h.1)
]

pub member_at-IsCanonical :
    (k : Text) (ms : Members) {j : Json} → member_at k ms ≡ some j → HasCanonical ms → IsCanonical j
unfolding member_at IsCanonical
member_at-IsCanonical k close h c = absurd cc
member_at-IsCanonical k (member i w ms) h c = elim (Bool-cases (eqb_text k i)) [
  | inl same ↦ subst IsCanonical (some-injective (rw same at h)) c.0
  | inr other ↦ member_at-IsCanonical k ms (rw other at h) c.1
]

member_at-IsLeast :
    (a k : Text) (ms : Members) {j : Json}
    → member_at k ms ≡ some j
    → IsLeast a ms
    → (i : Text) × (eqb_text k i ≡ true) × (leb_text a i ≡ true)
unfolding member_at
member_at-IsLeast a k close h l = absurd cc
member_at-IsLeast a k (member i w ms) h l = elim (Bool-cases (eqb_text k i)) [
  | inl same ↦ (i, same, l.0)
  | inr other ↦ member_at-IsLeast a k ms (rw other at h) l.1
]

-- Putting the member of a key back among the others.
pub insert_member-others :
    (k : Text) (ms : Members) {j : Json}
    → member_at k ms ≡ some j
    → IsOrdered ms
    → insert_member k j (others k ms) ≡ ms
unfolding member_at others insert_member
insert_member-others k close h o = absurd cc
insert_member-others k (member i w ms) {j} h o = elim (Bool-cases (eqb_text k i)) [
  | inl same ↦
      let value : w ≡ j = some-injective (rw same at h) in
      let key : k ≡ i = eqb_text→eq k i same in
      rw same (
        insert_member_of_least k j ms (subst (λ a. IsLeast a ms) (sym key) o.0)
        ∙ ap (λ a. member a j ms) key
        ∙ ap (λ v. member i v ms) (sym value))
  | inr other ↦
      let found : member_at k ms ≡ some j = rw other at h in
      let (a, same, least) = member_at-IsLeast i k ms found o.0 in
      let behind : leb_text k i ≡ false = elim (Bool-cases (leb_text k i)) [
        | inl before ↦
            let above : leb_text i k ≡ true =
              subst (λ b. leb_text i b ≡ true) (sym (eqb_text→eq k a same)) least in
            let equal = leb_text_antisym k i before above in absurd cc
        | inr after ↦ after
      ] in
      rw (other, behind) (ap (member i w) (insert_member-others k ms found o.1))
]

pub member_at-insert_member :
    (k : Text) (v : Json) (ms : Members)
    → (j : Json) × (member_at k (insert_member k v ms) ≡ some j)
unfolding member_at insert_member
member_at-insert_member k v close = (v, rw (eqb_text_self k) refl)
member_at-insert_member k v (member i w ms) = elim (Bool-cases (leb_text k i)) [
  | inl before ↦ rw (before, member_at) (v, rw (eqb_text_self k) refl)
  | inr after ↦
      rw (after, member_at)
        (elim (Bool-cases (eqb_text k i)) [
          | inl same ↦ rw same (w, refl)
          | inr other ↦ rw other (member_at-insert_member k v ms)
        ])
]
