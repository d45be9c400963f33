-- ===== src/Identity/Registration.antt =====
-- Registration: update_user of backend/app/services/identity_service.py, and sites, meters, assets
-- and their evidence in services/asset_service.py. Where the database refuses a row, the service
-- answers with the conflict that it takes it for.
use urja_setu.Base.{
  ℕ, ◌+◌, Bool, true, false, not, ◌||◌, ◌==◌, Option, none, some, is_some, get_or, List, [], ◌∷◌,
  ◌++◌, any, filter, Result, ok, ◌>>=◌, ◌>>◌, raise_if, or_raise,
}
use urja_setu.Base.Rows.{find_row, update_row}
use urja_setu.Identity.Vocabulary.{
  UserStatus, VerificationLevel, VerificationType, VerificationStatus, EnergyAssetType,
  EnergyAssetStatus,
}
use urja_setu.Identity.Store.{
  User, Site, Meter, EnergyAsset, VerificationRecord, IdentityRegistry, find_user, find_site,
  find_asset, is_email_taken, is_meter_ref_taken, InverterDevice, is_device_ref_taken,
  is_inconsistent,
}
use urja_setu.Identity.Service.{
  IdentityError, inverter_ref_already_registered, user_email_already_exists, user_not_found,
  site_not_found, grid_node_not_found, meter_ref_already_registered, energy_asset_not_found,
  verification_record_invalid, integrity, get_user,
}

-- The fields that the request sets; a field that is set may be null.
pub record UserUpdate : Type 0 where
  pub display_name : Option (Option Bool)
  pub email : Option (Option ℕ)
  pub status : Option (Option UserStatus)

abbrev pub others : ℕ → List User → List User
unfolding filter
others id users = filter (λ (u : User). not (u.id == id)) users

-- A null or a blank name, or a null status, is refused by the table, as is an address of another user.
abbrev pub is_unset : {A : Type 0} → Option (Option A) → Bool
is_unset (some none) = true
is_unset _ = false

abbrev pub is_blank : Option (Option Bool) → Bool
is_blank (some (some false)) = true
is_blank _ = false

abbrev pub is_taken_by_other : Option (Option ℕ) → List User → Bool
is_taken_by_other none users = false
is_taken_by_other (some email) users = is_email_taken email users

abbrev pub set_or : {A : Type 0} → Option (Option A) → A → A
set_or none old = old
set_or (some none) old = old
set_or (some (some new)) old = new

unfoldable pub update_user :
    ℕ → UserUpdate → IdentityRegistry → Result IdentityError (User × IdentityRegistry)
unfolding get_user is_email_taken update_row filter
update_user id changes registry = do
  user ← get_user id registry
  raise_if
      (is_unset changes.display_name || (is_blank changes.display_name || is_unset changes.status))
      user_email_already_exists
  raise_if (is_taken_by_other changes.email (others id registry.users)) user_email_already_exists
  let user' : User = record {
    id = user.id;
    email = get_or changes.email user.email;
    has_name = set_or changes.display_name user.has_name;
    role = user.role;
    status = set_or changes.status user.status;
  }
  ok (
    user',
    record registry { users = update_row (λ (u : User). u.id) id (λ _. user') registry.users },
  )

abbrev pub is_known_node : Option ℕ → List ℕ → Bool
unfolding any
is_known_node none nodes = true
is_known_node (some node) nodes = any (λ n. n == node) nodes

unfoldable pub create_site :
    (owner : ℕ)
    → (grid_node : Option ℕ) → IdentityRegistry
    → Result IdentityError (Site × IdentityRegistry)
unfolding find_row any
create_site owner grid_node registry = do
  raise_if (not (is_some (find_user owner registry.users))) user_not_found
  raise_if (not (is_known_node grid_node registry.grid_nodes)) grid_node_not_found
  let site : Site = record {
    id = registry.next_id;
    owner_user_id = owner;
    grid_node_id = grid_node;
  }
  ok (site, record registry { sites = registry.sites ++ site ∷ []; next_id = registry.next_id + 1 })

unfoldable pub get_site : ℕ → IdentityRegistry → Result IdentityError Site
unfolding find_row
get_site id registry = or_raise (find_site id registry.sites) site_not_found

unfoldable pub attach_meter :
    (site : ℕ)
    → (ref : Option ℕ) → VerificationLevel
    → (active : Bool) → IdentityRegistry
    → Result IdentityError (Meter × IdentityRegistry)
unfolding get_site is_meter_ref_taken
attach_meter site ref level active registry = do
  _ ← get_site site registry
  raise_if (is_meter_ref_taken ref registry.meters) meter_ref_already_registered
  let new : Meter = record {
    id = registry.next_id;
    site_id = site;
    external_meter_ref = ref;
    verification_level = level;
    active = active;
  }
  ok (new, record registry { meters = registry.meters ++ new ∷ []; next_id = registry.next_id + 1 })

-- The check on the capacity is not caught.
unfoldable pub register_energy_asset :
    (site : ℕ)
    → EnergyAssetType
    → (capacity_kw : ℕ) → EnergyAssetStatus
    → IdentityRegistry
    → Result IdentityError (EnergyAsset × IdentityRegistry)
unfolding get_site
register_energy_asset site type capacity_kw status registry = do
  _ ← get_site site registry
  raise_if (capacity_kw == 0) integrity
  let new : EnergyAsset = record {
    id = registry.next_id;
    site_id = site;
    asset_type = type;
    capacity_kw = capacity_kw;
    status = status;
  }
  ok (
    new,
    record registry {
      energy_assets = registry.energy_assets ++ new ∷ [];
      next_id = registry.next_id + 1;
    },
  )

unfoldable pub get_energy_asset : ℕ → IdentityRegistry → Result IdentityError EnergyAsset
unfolding find_row
get_energy_asset id registry =
    or_raise (find_asset id registry.energy_assets) energy_asset_not_found

unfoldable pub register_inverter :
    (asset : ℕ)
    → (ref : Option ℕ) → IdentityRegistry
    → Result IdentityError (InverterDevice × IdentityRegistry)
unfolding get_energy_asset is_device_ref_taken
register_inverter asset ref registry = do
  _ ← get_energy_asset asset registry
  raise_if (is_device_ref_taken ref registry.inverters) inverter_ref_already_registered
  let new : InverterDevice = record {
    id = registry.next_id;
    energy_asset_id = asset;
    external_device_ref = ref;
  }
  ok (
    new,
    record registry { inverters = registry.inverters ++ new ∷ []; next_id = registry.next_id + 1 },
  )

pub record VerificationCreate : Type 0 where
  pub verification_type : VerificationType
  pub verification_level : VerificationLevel
  pub status : VerificationStatus
  pub verified_at : Option ℕ
  pub expires_at : Option ℕ

-- The user is the owner of the asset's site.
unfoldable pub submit_asset_verification :
    (asset : ℕ)
    → VerificationCreate
    → IdentityRegistry
    → Result IdentityError (VerificationRecord × IdentityRegistry)
unfolding get_energy_asset get_site is_inconsistent
submit_asset_verification id payload registry = do
  asset ← get_energy_asset id registry
  site ← get_site asset.site_id registry
  let new : VerificationRecord = record {
    user_id = site.owner_user_id;
    asset_id = some id;
    verification_type = payload.verification_type;
    verification_level = payload.verification_level;
    status = payload.status;
    verified_at = payload.verified_at;
    expires_at = payload.expires_at;
  }
  raise_if (is_inconsistent new) verification_record_invalid
  ok (new, record registry { verification_records = registry.verification_records ++ new ∷ [] })
