-- ===== src/Audit/Canonical/Order.antt =====
-- The order of keys, and the sorting of the members of an object.
use urja_setu.Base.{◌≡◌, refl, true, false, Bool-cases, inl, inr, [], ◌∷◌, arith}
use urja_setu.Audit.Value.{Text, Json, Members, close, member}
use urja_setu.Audit.Text.{leb_text}
use urja_setu.Audit.Canonical.{insert_member, sort_members}

pub leb_text_total : (a b : Text) → leb_text a b ≡ false → leb_text b a ≡ true
unfolding leb_text
leb_text_total [] b h = absurd cc
leb_text_total (x ∷ a) [] h = refl
leb_text_total (x ∷ a) (y ∷ b) h = ground (arith, leb_text_total a b)

pub leb_text_trans :
    (a b c : Text) → leb_text a b ≡ true → leb_text b c ≡ true → leb_text a c ≡ true
unfolding leb_text
leb_text_trans [] b c h k = refl
leb_text_trans (x ∷ a) [] c h k = absurd cc
leb_text_trans (x ∷ a) (y ∷ b) [] h k = absurd cc
leb_text_trans (x ∷ a) (y ∷ b) (z ∷ c) h k = ground (arith, leb_text_trans a b c)

-- No key is smaller.
abbrev pub IsLeast : Text → Members → Type 0
IsLeast k close = Unit
IsLeast k (member j w ms) = (leb_text k j ≡ true) × IsLeast k ms

abbrev pub IsOrdered : Members → Type 0
IsOrdered close = Unit
IsOrdered (member k v ms) = IsLeast k ms × IsOrdered ms

IsLeast-trans : (a b : Text) (ms : Members) → leb_text a b ≡ true → IsLeast b ms → IsLeast a ms
IsLeast-trans a b close h l = tt
IsLeast-trans a b (member j w ms) h l = (leb_text_trans a b j h l.0, IsLeast-trans a b ms h l.1)

insert_member-IsLeast :
    (a k : Text) (v : Json) (ms : Members)
    → leb_text a k ≡ true
    → IsLeast a ms
    → IsLeast a (insert_member k v ms)
unfolding insert_member
insert_member-IsLeast a k v close h l = (h, tt)
insert_member-IsLeast a k v (member j w ms) h l = elim (Bool-cases (leb_text k j)) [
  | inl before ↦ rw before (h, l)
  | inr after ↦ rw after (l.0, insert_member-IsLeast a k v ms h l.1)
]

pub insert_member-IsOrdered :
    (k : Text) (v : Json) (ms : Members) → IsOrdered ms → IsOrdered (insert_member k v ms)
unfolding insert_member
insert_member-IsOrdered k v close o = (tt, tt)
insert_member-IsOrdered k v (member j w ms) o = elim (Bool-cases (leb_text k j)) [
  | inl before ↦ rw before ((before, IsLeast-trans k j ms before o.0), o)
  | inr after ↦ rw after (
    insert_member-IsLeast j k v ms (leb_text_total k j after) o.0,
    insert_member-IsOrdered k v ms o.1,
  )
]

pub sort_members-IsOrdered : (ms : Members) → IsOrdered (sort_members ms)
unfolding sort_members
sort_members-IsOrdered close = tt
sort_members-IsOrdered (member k v ms) =
    insert_member-IsOrdered k v (sort_members ms) (sort_members-IsOrdered ms)

pub insert_member_of_least :
    (k : Text) (v : Json) (ms : Members) → IsLeast k ms → insert_member k v ms ≡ member k v ms
unfolding insert_member
insert_member_of_least k v close l = refl
insert_member_of_least k v (member j w ms) l = rw (l.0) refl

pub sort_members_of_ordered : (ms : Members) → IsOrdered ms → sort_members ms ≡ ms
unfolding sort_members
sort_members_of_ordered close o = refl
sort_members_of_ordered (member k v ms) o =
    rw (sort_members_of_ordered ms o.1) (insert_member_of_least k v ms o.0)
