-- ===== src/Identity/Store.antt =====
-- The tables of identities and assets, and their queries: backend/app/db/models/identity.py,
-- db/models/assets.py, repositories/identity.py and repositories/assets.py. Texts that are only
-- shown are left out.
use urja_setu.Base.{
  ℕ, Bool, false, not, ◌&&◌, ◌||◌, leb, ◌==◌, Option, some, is_some, List, any, filter,
}
use urja_setu.Base.Rows.{find_row}
use urja_setu.Identity.Vocabulary.{
  UserRole, UserStatus, VerificationLevel, VerificationType, VerificationStatus, is_verified,
  ConsentScope, same_scope, EnergyAssetType, EnergyAssetStatus,
}

-- An e-mail address stands for its text, which is only compared.
pub record User : Type 0 where
  pub id : ℕ
  pub email : Option ℕ
  pub has_name : Bool
  pub role : UserRole
  pub status : UserStatus

pub record UtilityAccount : Type 0 where
  pub id : ℕ
  pub user_id : ℕ
  pub verification_level : VerificationLevel
  pub verified_at : Option ℕ

pub record Consent : Type 0 where
  pub user_id : ℕ
  pub scope : ConsentScope
  pub granted_at : ℕ
  pub revoked_at : Option ℕ

pub record Site : Type 0 where
  pub id : ℕ
  pub owner_user_id : ℕ
  pub grid_node_id : Option ℕ

pub record Meter : Type 0 where
  pub id : ℕ
  pub site_id : ℕ
  pub external_meter_ref : Option ℕ
  pub verification_level : VerificationLevel
  pub active : Bool

pub record EnergyAsset : Type 0 where
  pub id : ℕ
  pub site_id : ℕ
  pub asset_type : EnergyAssetType
  pub capacity_kw : ℕ
  pub status : EnergyAssetStatus

pub record InverterDevice : Type 0 where
  pub id : ℕ
  pub energy_asset_id : ℕ
  pub external_device_ref : Option ℕ

pub record VerificationRecord : Type 0 where
  pub user_id : ℕ
  pub asset_id : Option ℕ
  pub verification_type : VerificationType
  pub verification_level : VerificationLevel
  pub status : VerificationStatus
  pub verified_at : Option ℕ
  pub expires_at : Option ℕ

pub record IdentityRegistry : Type 0 where
  pub users : List User
  pub utility_accounts : List UtilityAccount
  pub consents : List Consent
  pub sites : List Site
  pub meters : List Meter
  pub energy_assets : List EnergyAsset
  pub inverters : List InverterDevice
  pub verification_records : List VerificationRecord
  pub grid_nodes : List ℕ
  pub next_id : ℕ

abbrev pub find_user : ℕ → List User → Option User
find_user id users = find_row (λ (u : User). u.id) id users

abbrev pub find_site : ℕ → List Site → Option Site
find_site id sites = find_row (λ (s : Site). s.id) id sites

abbrev pub find_asset : ℕ → List EnergyAsset → Option EnergyAsset
find_asset id assets = find_row (λ (a : EnergyAsset). a.id) id assets

-- Equality of two columns in SQL, where NULL is equal to nothing.
abbrev pub same_value : Option ℕ → Option ℕ → Bool
same_value (some a) (some b) = a == b
same_value _ _ = false

-- `get_by_email`, and the unique index of the column.
unfoldable pub is_email_taken : Option ℕ → List User → Bool
unfolding any
is_email_taken email users = any (λ (u : User). same_value u.email email) users

unfoldable pub is_meter_ref_taken : Option ℕ → List Meter → Bool
unfolding any
is_meter_ref_taken ref meters = any (λ (m : Meter). same_value m.external_meter_ref ref) meters

unfoldable pub is_device_ref_taken : Option ℕ → List InverterDevice → Bool
unfolding any
is_device_ref_taken ref devices =
    any (λ (d : InverterDevice). same_value d.external_device_ref ref) devices

unfoldable pub has_active_scope : ℕ → ConsentScope → List Consent → Bool
unfolding any
has_active_scope user scope consents =
    any
      (λ (c : Consent).
        (c.user_id == user) && (same_scope c.scope scope && not (is_some c.revoked_at)))
      consents

-- `list_for_user` of the accounts and of the records.
unfoldable pub accounts_of : ℕ → List UtilityAccount → List UtilityAccount
unfolding filter
accounts_of user accounts = filter (λ (a : UtilityAccount). a.user_id == user) accounts

unfoldable pub records_of : ℕ → List VerificationRecord → List VerificationRecord
unfolding filter
records_of user records = filter (λ (r : VerificationRecord). r.user_id == user) records

-- `list_for_owner` of the sites, `list_for_site` of the meters.
unfoldable pub sites_of : ℕ → List Site → List Site
unfolding filter
sites_of owner sites = filter (λ (s : Site). s.owner_user_id == owner) sites

unfoldable pub meters_at : ℕ → List Meter → List Meter
unfolding filter
meters_at site meters = filter (λ (m : Meter). m.site_id == site) meters

-- `list_for_owner` of the assets, by the join on their sites.
unfoldable pub assets_of : ℕ → List Site → List EnergyAsset → List EnergyAsset
unfolding filter any
assets_of owner sites assets =
    filter
      (λ (a : EnergyAsset).
        any (λ (s : Site). (s.id == a.site_id) && (s.owner_user_id == owner)) sites)
      assets

-- The checks on a record of evidence.
abbrev pub ends_before_it_begins : Option ℕ → Option ℕ → Bool
ends_before_it_begins (some verified_at) (some expires_at) = leb expires_at verified_at
ends_before_it_begins _ _ = false

unfoldable pub is_inconsistent : VerificationRecord → Bool
is_inconsistent r =
    ends_before_it_begins r.verified_at r.expires_at
    || (is_verified r.status && not (is_some r.verified_at))
