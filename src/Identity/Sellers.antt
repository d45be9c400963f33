-- ===== src/Identity/Sellers.antt =====
-- Who may sell: get_eligibility of backend/app/services/identity_service.py with
-- evaluate_eligibility of domain/policies/eligibility.py.
use urja_setu.Base.{
  not-false, ◌≡◌, refl, ap, ◌∙◌, ℕ, Bool, true, false, not, Option, List, [], ◌∷◌, is_empty, In,
  subst, get_or, append-eq-empty, or_raise-eq-ok, >>=-eq-ok, ok-injective, ok,
}
use urja_setu.Base.Rows.{find_row-In}
use urja_setu.Identity.Vocabulary.{
  prosumer, consumer, operator, regulator_viewer, admin, active, pending, suspended, UserRole,
  UserStatus, is_active_user, meter_data, market_participation,
}
use urja_setu.Identity.Eligibility.{
  EligibilityDecision, EligibilityReason, reason_if, buy_blocking, sell_blocking, is_selling_role,
  evaluate_eligibility,
}
use urja_setu.Identity.Store.{User, IdentityRegistry, has_active_scope}
use urja_setu.Identity.Service.{input_of, get_user, get_eligibility}
use urja_setu.Identity.Holdings.{
  connected, metered, generating, HasVerifiedConnection, HasVerifiedMeter, OwnsGeneration,
}

pub record IsSeller (registry : IdentityRegistry) (id at : ℕ) : Type 0 where
  pub user : User
  pub known : In user registry.users
  pub same : user.id ≡ id
  pub is_active : user.status ≡ active
  pub is_prosumer : user.role ≡ prosumer
  pub connection : HasVerifiedConnection registry id at
  pub metering : HasVerifiedMeter registry id at
  pub market_consent : has_active_scope id market_participation registry.consents ≡ true
  pub meter_consent : has_active_scope id meter_data registry.consents ≡ true
  pub generation : OwnsGeneration registry id

reason_if-eq-empty : (b : Bool) (reason : EligibilityReason) → reason_if b reason ≡ [] → b ≡ false
unfolding reason_if
reason_if-eq-empty true reason h = absurd cc
reason_if-eq-empty false reason h = refl

empty_of : (xs : List EligibilityReason) → is_empty xs ≡ true → xs ≡ []
empty_of [] h = refl
empty_of (x ∷ xs) h = absurd cc

active_of : (status : UserStatus) → not (is_active_user status) ≡ false → status ≡ active
active_of pending h = absurd cc
active_of active h = refl
active_of suspended h = absurd cc

prosumer_of : (role : UserRole) → not (is_selling_role role) ≡ false → role ≡ prosumer
unfolding is_selling_role
prosumer_of consumer h = absurd cc
prosumer_of prosumer h = refl
prosumer_of operator h = absurd cc
prosumer_of regulator_viewer h = absurd cc
prosumer_of admin h = absurd cc

sell_blocking-IsSeller :
    (registry : IdentityRegistry) (user : User) (at : ℕ)
    → In user registry.users
    → sell_blocking (input_of registry user at) ≡ []
    → IsSeller registry user.id at
unfolding sell_blocking buy_blocking input_of
sell_blocking-IsSeller registry user at known none_blocks =
    let (buying, selling) = append-eq-empty _ _ none_blocks in
    let (inactive, b1) = append-eq-empty _ _ buying in
    let (no_role, b2) = append-eq-empty _ _ b1 in
    let (unconfirmed, no_consent) = append-eq-empty _ _ b2 in
    let (no_prosumer, s1) = append-eq-empty _ _ selling in
    let (no_asset, s2) = append-eq-empty _ _ s1 in
    let (no_meter, no_data) = append-eq-empty _ _ s2 in
    record {
      user = user;
      known = known;
      same = refl;
      is_active = active_of user.status (reason_if-eq-empty _ _ inactive);
      is_prosumer = prosumer_of user.role (reason_if-eq-empty _ _ no_prosumer);
      connection = connected registry user.id at (reason_if-eq-empty _ _ unconfirmed);
      metering = metered registry user.id at (reason_if-eq-empty _ _ no_meter);
      market_consent = not-false _ (reason_if-eq-empty _ _ no_consent);
      meter_consent = not-false _ (reason_if-eq-empty _ _ no_data);
      generation = generating registry user.id (not-false _ (reason_if-eq-empty _ _ no_asset));
    }

-- A user whom the service calls able to sell is an active prosumer whose connection and metering are
-- confirmed, who has given both consents, and who owns a generating asset in service.
pub get_eligibility-IsSeller :
    (registry : IdentityRegistry) (id : ℕ) (at : Option ℕ) (now : ℕ)
    {answer : EligibilityDecision × ℕ}
    → get_eligibility registry id at now ≡ ok answer
    → answer.0.can_sell ≡ true
    → IsSeller registry id (get_or at now)
unfolding get_eligibility evaluate_eligibility
get_eligibility-IsSeller registry id at now {answer = answer} h able =
    let (user, found, decided) = >>=-eq-ok (get_user id registry) _ h in
    let (same, known) =
      find_row-In (λ (u : User). u.id) id registry.users (or_raise-eq-ok _ _ found) in
    let e = ok-injective decided in
    let t = get_or at now in
    let blocked_by = sell_blocking (input_of registry user t) in
    let able_now : is_empty blocked_by ≡ true =
      ap (λ (a : EligibilityDecision × ℕ). a.0.can_sell) e ∙ able in
    let seller = sell_blocking-IsSeller registry user t known (empty_of blocked_by able_now) in
    subst (λ who. IsSeller registry who t) same seller
