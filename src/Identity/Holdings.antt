-- ===== src/Identity/Holdings.antt =====
-- The evidence behind the levels of a user: _utility_account_level, _meter_level and
-- _has_active_generation_asset of backend/app/services/identity_service.py.
use urja_setu.Base.{
  both, not-eq-true, ◌≡◌, ap, ◌∙◌, ℕ, Bool, true, false, not, ◌&&◌, ◌==◌, ==→eq, ◌⊎◌, inl, inr,
  is_some, List, [], ◌∷◌, map, any, filter, In, here, there,
}
use urja_setu.Identity.Vocabulary.{
  discom_verified, no_level, VerificationType, is_verified, is_in_service,
}
use urja_setu.Identity.Eligibility.{
  VerificationEvidence, is_expired, is_below_minimum, resolve_verification_level,
}
use urja_setu.Identity.Store.{
  UtilityAccount, Site, Meter, EnergyAsset, VerificationRecord, IdentityRegistry, accounts_of,
  records_of, sites_of, meters_at, assets_of,
}
use urja_setu.Identity.Service.{
  is_generation, is_utility_evidence, is_meter_evidence, evidence_of, level_from_records,
  utility_account_level, levels_at, meter_level, has_active_generation_asset,
}
use urja_setu.Identity.Evidence.{
  filter-In, any-In, append-In, map-In, strongest_at_top, resolve_from-In,
}

-- A record of one of these types that is verified and has not expired, at the top level.
abbrev pub AttestedBy : IdentityRegistry → ℕ → (VerificationType → Bool) → ℕ → Type 0
AttestedBy registry user types at =
    (r : VerificationRecord) × In r registry.verification_records
    × (r.user_id ≡ user)
    × (types r.verification_type ≡ true)
    × (is_verified r.status ≡ true)
    × (is_expired r.expires_at at ≡ false)
    × (r.verification_level ≡ discom_verified)

-- The connection of the user is confirmed by the DISCOM.
abbrev pub HasVerifiedConnection : IdentityRegistry → ℕ → ℕ → Type 0
HasVerifiedConnection registry user at =
    ((a : UtilityAccount) × In a registry.utility_accounts
      × (a.user_id ≡ user)
      × (is_some a.verified_at ≡ true)
      × (a.verification_level ≡ discom_verified))
    ⊎ AttestedBy registry user is_utility_evidence at

-- So is a meter: one that is in use, at a site of the user, or by a record.
abbrev pub HasVerifiedMeter : IdentityRegistry → ℕ → ℕ → Type 0
HasVerifiedMeter registry user at =
    ((s : Site) × (m : Meter) × In s registry.sites
      × In m registry.meters
      × (s.owner_user_id ≡ user)
      × (m.site_id ≡ s.id)
      × (m.active ≡ true)
      × (m.verification_level ≡ discom_verified))
    ⊎ AttestedBy registry user is_meter_evidence at

-- A generating asset in service, at a site of the user.
abbrev pub OwnsGeneration : IdentityRegistry → ℕ → Type 0
OwnsGeneration registry user =
    (s : Site) × (a : EnergyAsset) × In s registry.sites
    × In a registry.energy_assets
    × (s.owner_user_id ≡ user)
    × (s.id ≡ a.site_id)
    × (is_generation a.asset_type ≡ true)
    × (is_in_service a.status ≡ true)

abbrev of_types : IdentityRegistry → ℕ → (VerificationType → Bool) → List VerificationRecord
of_types registry user types =
    filter (λ (r : VerificationRecord). types r.verification_type)
      (records_of user registry.verification_records)

pub attested :
    (registry : IdentityRegistry) (user : ℕ) (types : VerificationType → Bool) (at : ℕ)
    → level_from_records (records_of user registry.verification_records) types at ≡ discom_verified
    → AttestedBy registry user types at
unfolding level_from_records resolve_verification_level records_of evidence_of
attested registry user types at h =
    elim (resolve_from-In no_level (map evidence_of (of_types registry user types)) at h) [
      | inl top ↦ absurd cc
      | inr (e, m, force, top) ↦
          let (r, n, same) = map-In evidence_of (of_types registry user types) m in
          let (n', type) = filter-In (λ (r : VerificationRecord). types r.verification_type) _ n in
          let (known, owner) =
            filter-In (λ (r : VerificationRecord). r.user_id == user) registry.verification_records
              n' in
          let (checked, current) =
            both (is_verified e.status) (not (is_expired e.expires_at at)) force in
          (
            r,
            known,
            ==→eq r.user_id user owner,
            type,
            ap (λ (e : VerificationEvidence). is_verified e.status) same ∙ checked,
            ap (λ (e : VerificationEvidence). is_expired e.expires_at at) same
                ∙ not-eq-true _ current,
            ap (λ (e : VerificationEvidence). e.level) same ∙ top,
          )
    ]

pub connected :
    (registry : IdentityRegistry) (user at : ℕ)
    → is_below_minimum (
        utility_account_level registry user (
          level_from_records
            (records_of user registry.verification_records)
            is_utility_evidence
            at))
      ≡ false
    → HasVerifiedConnection registry user at
unfolding utility_account_level accounts_of
connected registry user at h = elim (strongest_at_top _ _ h) [
  | inr top ↦ inr (attested registry user is_utility_evidence at top)
  | inl m ↦
      let (a, n, top) = map-In (λ (a : UtilityAccount). a.verification_level) _ m in
      let (n', dated) = filter-In (λ (a : UtilityAccount). is_some a.verified_at) _ n in
      let (known, owner) =
        filter-In (λ (a : UtilityAccount). a.user_id == user) registry.utility_accounts n' in
      inl (a, known, ==→eq a.user_id user owner, dated, top)
]

levels_at-In :
    (meters : List Meter) (sites : List Site)
    → In discom_verified (levels_at meters sites)
    → (s : Site) × (m : Meter) × In s sites
      × In m meters
      × (m.site_id ≡ s.id)
      × (m.active ≡ true)
      × (m.verification_level ≡ discom_verified)
unfolding levels_at meters_at
levels_at-In meters [] m = elim m [ ]
levels_at-In meters (s ∷ sites) m = elim (append-In _ (levels_at meters sites) m) [
  | inr n ↦
      let (t, k, t_in, k_in, placed, in_use, top) = levels_at-In meters sites n in
      (t, k, there t_in, k_in, placed, in_use, top)
  | inl n ↦
      let (k, k_in, top) = map-In (λ (m : Meter). m.verification_level) _ n in
      let (k_in', in_use) = filter-In (λ (m : Meter). m.active) _ k_in in
      let (known, placed) = filter-In (λ (m : Meter). m.site_id == s.id) meters k_in' in
      (s, k, here, known, ==→eq k.site_id s.id placed, in_use, top)
]

pub metered :
    (registry : IdentityRegistry) (user at : ℕ)
    → is_below_minimum (
        meter_level registry user
          (level_from_records (records_of user registry.verification_records) is_meter_evidence at))
      ≡ false
    → HasVerifiedMeter registry user at
unfolding meter_level sites_of
metered registry user at h = elim (strongest_at_top _ _ h) [
  | inr top ↦ inr (attested registry user is_meter_evidence at top)
  | inl m ↦
      let (s, k, s_in, k_in, placed, in_use, top) = levels_at-In registry.meters _ m in
      let (known, owner) = filter-In (λ (s : Site). s.owner_user_id == user) registry.sites s_in in
      inl (s, k, known, k_in, ==→eq s.owner_user_id user owner, placed, in_use, top)
]

pub generating :
    (registry : IdentityRegistry) (user : ℕ)
    → has_active_generation_asset registry user ≡ true
    → OwnsGeneration registry user
unfolding has_active_generation_asset assets_of
generating registry user h =
    let (a, m, useful) =
      any-In (λ (a : EnergyAsset). is_generation a.asset_type && is_in_service a.status) _ h in
    let (generates, runs) = both (is_generation a.asset_type) (is_in_service a.status) useful in
    let (known, joined) =
      filter-In
        (λ (a : EnergyAsset).
          any (λ (s : Site). (s.id == a.site_id) && (s.owner_user_id == user)) registry.sites)
        registry.energy_assets m in
    let (s, s_in, owner) =
      any-In (λ (s : Site). (s.id == a.site_id) && (s.owner_user_id == user)) registry.sites
        joined in
    let (placed, owned) = both (s.id == a.site_id) (s.owner_user_id == user) owner in
    (
      s,
      a,
      s_in,
      known,
      ==→eq s.owner_user_id user owned,
      ==→eq s.id a.site_id placed,
      generates,
      runs,
    )
