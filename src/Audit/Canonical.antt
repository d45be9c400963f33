-- ===== src/Audit/Canonical.antt =====
-- Canonical payloads: `canonicalise` of backend/app/domain/policies/audit_chain.py. A raised
-- exception is `none`.
pub mod Order
pub mod Idempotence
use urja_setu.Base.{◌≡◌, refl, Bool, Option, none, some, if◌then◌else◌}
use urja_setu.Audit.Value.{Text}
use urja_setu.Audit.Value.{
  Value, none_value, text, flag, int, enum, amount, float, moment, naive_moment, uuid, mapping,
  sequence, other,
}
use urja_setu.Audit.Value.{Fields, end, field, Items, stop, item}
use urja_setu.Audit.Value.{
  Json, null, string, boolean, number, object, array, Members, close, member, Elements, nil, cons,
}
use urja_setu.Audit.Text.{leb_text, decimal_text, moment_text, uuid_text}

-- The rest of a body, after a call that may raise.
infixl 5 ◌>>=◌
abbrev pub ◌>>=◌ : {A B : Type 0} → Option A → (A → Option B) → Option B
none >>= rest = none
some a >>= rest = rest a

-- A body that returned has made its call, and the call has returned.
pub >>=-eq-some :
    {A B : Type 0} (call : Option A) (rest : A → Option B) {b : B}
    → (call >>= rest) ≡ some b
    → (a : A) × (call ≡ some a) × (rest a ≡ some b)
>>=-eq-some none rest h = absurd cc
>>=-eq-some (some a) rest h = (a, refl, h)

-- `sorted` by key: a member goes before the first key that is not smaller.
unfoldable pub insert_member : Text → Json → Members → Members
unfolding leb_text
insert_member k v close = member k v close
insert_member k v (member j w ms) =
    if leb_text k j then member k v (member j w ms) else member j w (insert_member k v ms)

unfoldable pub sort_members : Members → Members
unfolding insert_member
sort_members close = close
sort_members (member k v ms) = insert_member k v (sort_members ms)

unfoldable mutual
  unfolding decimal_text moment_text uuid_text sort_members

  pub canonicalise : Value → Option Json
  canonicalise none_value = some null
  canonicalise (text t) = some (string t)
  canonicalise (flag b) = some (boolean b)
  canonicalise (enum v) = canonicalise v
  canonicalise (int z) = some (number z)
  canonicalise (amount negative d) = some (string (decimal_text negative d))
  canonicalise float = none
  canonicalise (naive_moment _) = none
  canonicalise (moment t) = some (string (moment_text t))
  canonicalise (uuid n) = some (string (uuid_text n))
  canonicalise (mapping fs) = do ms ← canonicalise_fields fs; some (object (sort_members ms))
  canonicalise (sequence vs) = do es ← canonicalise_items vs; some (array es)
  canonicalise other = none

  pub canonicalise_fields : Fields → Option Members
  canonicalise_fields end = some close
  canonicalise_fields (field k v fs) = do
    w ← canonicalise v
    ms ← canonicalise_fields fs
    some (member k w ms)

  pub canonicalise_items : Items → Option Elements
  canonicalise_items stop = some nil
  canonicalise_items (item v vs) = do
    w ← canonicalise v
    es ← canonicalise_items vs
    some (cons w es)

-- A payload in its stored form.
unfoldable pub canonical_payload : Fields → Option Members
unfolding canonicalise
canonical_payload payload = do ms ← canonicalise_fields payload; some (sort_members ms)
