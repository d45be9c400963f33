-- ===== src/Audit/Chain/Verifying.antt =====
-- What `verify_chain` of backend/app/domain/policies/audit_chain.py finds.
use urja_setu.Base.{
  some-injective, ◌≡◌, refl, sym, ap, ◌∙◌, ◌↔◌, inl, inr, Bool-cases, is_some, is_empty,
  append-eq-empty, ℕ, suc, ◌+◌, ◌==◌, ==_self, ◌&&◌, not, Bool, true, false, Option, none, some,
  List, [], ◌∷◌, length, arith,
}
use urja_setu.Audit.Value.{Text}
use urja_setu.Audit.Text.{eqb_text}
use urja_setu.Audit.Canonical.{>>=-eq-some}
use urja_setu.Audit.Chain.{
  SealedAuditEvent, ChainVerification, Problem, problem_if, eqb_hash, event_fingerprint,
  problems_of, verify_from, verify_chain,
}

pub eqb_text→eq : (a b : Text) → eqb_text a b ≡ true → a ≡ b
unfolding eqb_text
eqb_text→eq [] [] h = refl
eqb_text→eq [] (y ∷ b) h = absurd cc
eqb_text→eq (x ∷ a) [] h = absurd cc
eqb_text→eq (x ∷ a) (y ∷ b) h = ground (arith, eqb_text→eq a b)

pub eqb_text_self : (a : Text) → eqb_text a a ≡ true
unfolding eqb_text
eqb_text_self [] = refl
eqb_text_self (x ∷ a) = rw (==_self x) (eqb_text_self a)

pub eqb_hash→eq : (a b : Option Text) → eqb_hash a b ≡ true → a ≡ b
unfolding eqb_hash
eqb_hash→eq none none h = refl
eqb_hash→eq none (some b) h = absurd cc
eqb_hash→eq (some a) none h = absurd cc
eqb_hash→eq (some a) (some b) h = ap some (eqb_text→eq a b h)

pub eqb_hash_self : (a : Option Text) → eqb_hash a a ≡ true
unfolding eqb_hash
eqb_hash_self none = refl
eqb_hash_self (some a) = eqb_text_self a

problem_if-empty : (b : Bool) (p : Problem) → problem_if (not b) p ≡ [] → b ≡ true
problem_if-empty true p h = refl
problem_if-empty false p h = absurd cc

is_empty→eq : {A : Type 0} (xs : List A) → is_empty xs ≡ true → xs ≡ []
is_empty→eq [] h = refl
is_empty→eq (x ∷ xs) h = absurd cc

-- The outcome for an intact chain.
abbrev pub intact_across : ℕ → ChainVerification
intact_across n = record {
  intact = true;
  events_checked = n;
  broken_at_event_id = none;
  problems = [];
}

later_place : (index : ℕ) (b : Bool) → ((suc index == 0) && b) ≡ false
later_place index b = ground arith

module _ (digest : Text → Text) where
  -- Every event has the hash of its content and names the hash of the one before.
  abbrev pub IsLinked : Option Text → List SealedAuditEvent → Type 0
  IsLinked expected [] = Unit
  IsLinked expected (s ∷ rest) =
      (event_fingerprint digest s.event s.previous_hash ≡ some s.event_hash)
      × (s.previous_hash ≡ expected)
      × IsLinked (some s.event_hash) rest

  problems_of-empty :
      (index : ℕ) (expected : Option Text) (s : SealedAuditEvent) (recomputed : Text)
      → problems_of digest index expected s recomputed ≡ []
      → (s.event_hash ≡ recomputed) × (s.previous_hash ≡ expected)
  unfolding problems_of
  problems_of-empty index expected s recomputed h =
      let (rest, _) = append-eq-empty _ _ h in
      let (content, place) = append-eq-empty _ _ rest in
      (eqb_text→eq _ _ (problem_if-empty _ _ content), eqb_hash→eq _ _ (problem_if-empty _ _ place))

  problems_of_linked :
      (index : ℕ) (s : SealedAuditEvent)
      → ((index == 0) && is_some s.previous_hash) ≡ false
      → problems_of digest index s.previous_hash s s.event_hash ≡ []
  unfolding problems_of
  problems_of_linked index s h =
      rw (eqb_text_self s.event_hash, eqb_hash_self s.previous_hash, h) refl

  verify_from_sound :
      (index checked : ℕ) (expected : Option Text) (events : List SealedAuditEvent)
      {v : ChainVerification}
      → verify_from digest index checked expected events ≡ some v
      → v.intact ≡ true
      → IsLinked expected events
  unfolding verify_from
  verify_from_sound index checked expected [] h i = tt
  verify_from_sound index checked expected (s ∷ rest) {v} h i =
      let (recomputed, fresh, loop) =
        >>=-eq-some (event_fingerprint digest s.event s.previous_hash) _ h in
      elim (Bool-cases (is_empty (problems_of digest index expected s recomputed))) [
        | inl clear ↦
            let later : verify_from digest (suc index) (suc checked) (some s.event_hash) rest
                ≡ some v =
              rw clear at loop in
            let (content, place) =
              problems_of-empty index expected s recomputed (is_empty→eq _ clear) in
            (
              fresh ∙ ap some (sym content),
              place,
              verify_from_sound (suc index) (suc checked) (some s.event_hash) rest later i,
            )
        | inr broken ↦
            let stopped = rw broken at loop in
            let e = ap (λ (w : ChainVerification). w.intact) (some-injective stopped) ∙ i in
            absurd cc
      ]

  verify_from_complete :
      (index checked : ℕ) (expected : Option Text) (events : List SealedAuditEvent)
      → ((index == 0) && is_some expected) ≡ false
      → IsLinked expected events
      → verify_from digest index checked expected events
        ≡ some (intact_across (checked + length events))
  unfolding verify_from
  verify_from_complete index checked expected [] g l =
      ap (λ (n : ℕ). some (intact_across n)) (omega arith)
  verify_from_complete index checked expected (s ∷ rest) g l =
      let start : ((index == 0) && is_some s.previous_hash) ≡ false =
        ap (λ (p : Option Text). (index == 0) && is_some p) (l.1) ∙ g in
      let clear : problems_of digest index expected s s.event_hash ≡ [] =
        ap (λ (p : Option Text). problems_of digest index p s s.event_hash) (sym l.1)
        ∙ problems_of_linked index s start in
      let later =
        verify_from_complete (suc index) (suc checked) (some s.event_hash) rest
          (later_place index _) l.2 in
      let next = verify_from digest (suc index) (suc checked) (some s.event_hash) rest in
      let found = problems_of digest index expected s s.event_hash in
      let go_on : List Problem → Option ChainVerification = λ problems. elim (is_empty problems) [
        | false ↦ some (record {
          intact = false;
          events_checked = checked;
          broken_at_event_id = some s.event.event_id;
          problems = problems;
        })
        | true ↦ next
      ] in
      let step : verify_from digest index checked expected (s ∷ rest) ≡ go_on found =
        rw (l.0) refl in
      step ∙ ap go_on clear ∙ later ∙ ap (λ (n : ℕ). some (intact_across n)) (omega arith)

  pub verify_chain_of_linked :
      (events : List SealedAuditEvent)
      → IsLinked none events
      → verify_chain digest events ≡ some (intact_across (length events))
  unfolding verify_chain
  verify_chain_of_linked events l =
      verify_from_complete 0 0 none events refl l
      ∙ ap (λ (n : ℕ). some (intact_across n)) (omega arith)

  -- The verification calls a chain intact if and only if every event has the hash of its content,
  -- and names the hash of the one before, the first naming none.
  pub verify_chain-IsLinked :
      (events : List SealedAuditEvent)
      → ((v : ChainVerification) × (verify_chain digest events ≡ some v) × (v.intact ≡ true))
        ↔ IsLinked none events
  unfolding verify_chain
  verify_chain-IsLinked events = (
    λ h. verify_from_sound 0 0 none events h.1 h.2,
    λ l. (intact_across (length events), verify_chain_of_linked events l, refl),
  )
