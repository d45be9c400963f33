-- ===== src/Identity/Service.antt =====
-- The services of users and of assets: backend/app/services/identity_service.py and
-- services/asset_service.py. An operation returns what it made and the registry afterwards, or
-- raises and leaves the registry as it was.
use urja_setu.Base.{
  ℕ, ◌+◌, Bool, true, false, not, ◌&&◌, ltb, Option, is_some, get_or, List, [], ◌∷◌, ◌++◌, map, any,
  filter, if◌then◌else◌, Result, ok, ◌>>=◌, ◌>>◌, raise_if, or_raise,
}
use urja_setu.Base.Rows.{find_row}
use urja_setu.Identity.Vocabulary.{
  UserRole, UserStatus, VerificationLevel, no_level, rank, VerificationType, identity,
  utility_account, meter, meter_data, market_participation, EnergyAssetType, pv, battery, ev,
  is_in_service,
}
use urja_setu.Identity.Eligibility.{
  VerificationEvidence, EligibilityInput, EligibilityDecision, resolve_verification_level,
  evaluate_eligibility,
}
use urja_setu.Identity.Store.{
  User, UtilityAccount, Site, Meter, EnergyAsset, VerificationRecord, IdentityRegistry, find_user,
  is_email_taken, has_active_scope, accounts_of, records_of, sites_of, meters_at, assets_of,
}

pub data IdentityError : Type 0 where
  user_email_already_exists user_not_found site_not_found grid_node_not_found : IdentityError
  meter_ref_already_registered inverter_ref_already_registered energy_asset_not_found :
      IdentityError
  verification_record_invalid integrity : IdentityError

-- `GENERATION_ASSET_TYPES`
unfoldable pub is_generation : EnergyAssetType → Bool
is_generation pv = true
is_generation battery = true
is_generation ev = false

-- `UTILITY_EVIDENCE_TYPES` and `METER_EVIDENCE_TYPES`
unfoldable pub is_utility_evidence : VerificationType → Bool
is_utility_evidence utility_account = true
is_utility_evidence identity = true
is_utility_evidence _ = false

unfoldable pub is_meter_evidence : VerificationType → Bool
is_meter_evidence meter = true
is_meter_evidence _ = false

-- Where the name is blank or the address taken, the insertion raises IntegrityError, which is
-- answered by the same conflict.
unfoldable pub create_user :
    (email : Option ℕ)
    → (has_name : Bool) → UserRole
    → UserStatus
    → IdentityRegistry
    → Result IdentityError (User × IdentityRegistry)
unfolding is_email_taken
create_user email has_name role status registry = do
  raise_if (is_email_taken email registry.users) user_email_already_exists
  raise_if (not has_name) user_email_already_exists
  let user : User = record {
    id = registry.next_id;
    email = email;
    has_name = has_name;
    role = role;
    status = status;
  }
  ok (user, record registry { users = registry.users ++ user ∷ []; next_id = registry.next_id + 1 })

unfoldable pub get_user : ℕ → IdentityRegistry → Result IdentityError User
unfolding find_row
get_user id registry = or_raise (find_user id registry.users) user_not_found

unfoldable pub evidence_of : VerificationRecord → VerificationEvidence
evidence_of r = record {
  status = r.status;
  level = r.verification_level;
  expires_at = r.expires_at;
}

unfoldable pub level_from_records :
    List VerificationRecord → (VerificationType → Bool) → ℕ → VerificationLevel
unfolding resolve_verification_level filter evidence_of
level_from_records records types at =
    resolve_verification_level
      (map evidence_of (filter (λ (r : VerificationRecord). types r.verification_type) records)) at

abbrev pub stronger : VerificationLevel → VerificationLevel → VerificationLevel
stronger a b = if ltb (rank a) (rank b) then b else a

-- `max` by rank: the first of those that are equal.
unfoldable pub strongest_from : VerificationLevel → List VerificationLevel → VerificationLevel
unfolding rank
strongest_from best [] = best
strongest_from best (level ∷ levels) = strongest_from (stronger best level) levels

-- `_strongest`, which is always given a level.
unfoldable pub strongest : List VerificationLevel → VerificationLevel
unfolding strongest_from
strongest [] = no_level
strongest (level ∷ levels) = strongest_from level levels

unfoldable pub utility_account_level : IdentityRegistry → ℕ → VerificationLevel → VerificationLevel
unfolding strongest filter accounts_of
utility_account_level registry user from_records = strongest (
    map (λ (a : UtilityAccount). a.verification_level)
      (filter (λ (a : UtilityAccount). is_some a.verified_at)
        (accounts_of user registry.utility_accounts))
    ++ from_records ∷ [])

-- The levels of the active meters, site by site.
unfoldable pub levels_at : List Meter → List Site → List VerificationLevel
unfolding filter meters_at
levels_at meters [] = []
levels_at meters (s ∷ sites) =
    map (λ (m : Meter). m.verification_level)
      (filter (λ (m : Meter). m.active) (meters_at s.id meters))
    ++ levels_at meters sites

unfoldable pub meter_level : IdentityRegistry → ℕ → VerificationLevel → VerificationLevel
unfolding strongest levels_at sites_of
meter_level registry user from_records =
    strongest (levels_at registry.meters (sites_of user registry.sites) ++ from_records ∷ [])

unfoldable pub has_active_generation_asset : IdentityRegistry → ℕ → Bool
unfolding any assets_of is_generation
has_active_generation_asset registry user =
    any (λ (a : EnergyAsset). is_generation a.asset_type && is_in_service a.status)
      (assets_of user registry.sites registry.energy_assets)

-- The evidence that is gathered for a user.
unfoldable pub input_of : IdentityRegistry → User → ℕ → EligibilityInput
unfolding utility_account_level meter_level level_from_records records_of has_active_scope
    has_active_generation_asset is_utility_evidence is_meter_evidence
input_of registry user at =
    let records = records_of user.id registry.verification_records in
    record {
      role = user.role;
      status = user.status;
      evaluated_at = at;
      utility_account_level =
          utility_account_level registry user.id
            (level_from_records records is_utility_evidence at);
      meter_level = meter_level registry user.id (level_from_records records is_meter_evidence at);
      has_market_participation_consent =
          has_active_scope user.id market_participation registry.consents;
      has_meter_data_consent = has_active_scope user.id meter_data registry.consents;
      has_active_generation_asset = has_active_generation_asset registry user.id;
    }

unfoldable pub get_eligibility :
    IdentityRegistry
    → ℕ
    → (at : Option ℕ) → (now : ℕ) → Result IdentityError (EligibilityDecision × ℕ)
unfolding get_user input_of evaluate_eligibility
get_eligibility registry id at now = do
  user ← get_user id registry
  ok (evaluate_eligibility (input_of registry user (get_or at now)), get_or at now)
