-- ===== src/Identity/Vocabulary.antt =====
-- The vocabularies of identity and of assets: backend/app/domain/enums.py.
use urja_setu.Base.{ℕ, Bool, true, false}

pub data UserRole : Type 0 where
  consumer prosumer operator regulator_viewer admin : UserRole

pub data UserStatus : Type 0 where
  pending active suspended : UserStatus

pub data VerificationLevel : Type 0 where
  no_level self_declared document_verified discom_verified : VerificationLevel

unfoldable pub rank : VerificationLevel → ℕ
rank no_level = 0
rank self_declared = 1
rank document_verified = 2
rank discom_verified = 3

pub data VerificationType : Type 0 where
  identity utility_account meter energy_asset : VerificationType

pub data VerificationStatus : Type 0 where
  unchecked verified rejected expired revoked : VerificationStatus

pub data ConsentScope : Type 0 where
  meter_data device_data market_participation : ConsentScope

pub data EnergyAssetType : Type 0 where
  pv battery ev : EnergyAssetType

pub data EnergyAssetStatus : Type 0 where
  planned in_service inactive decommissioned : EnergyAssetStatus

abbrev pub is_active_user : UserStatus → Bool
is_active_user active = true
is_active_user _ = false

abbrev pub is_verified : VerificationStatus → Bool
is_verified verified = true
is_verified _ = false

abbrev pub same_scope : ConsentScope → ConsentScope → Bool
same_scope meter_data meter_data = true
same_scope device_data device_data = true
same_scope market_participation market_participation = true
same_scope _ _ = false

abbrev pub is_in_service : EnergyAssetStatus → Bool
is_in_service in_service = true
is_in_service _ = false
