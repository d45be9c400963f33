-- ===== src/Identity/Eligibility.antt =====
-- Who may trade: backend/app/domain/policies/eligibility.py.
use urja_setu.Base.{
  ℕ, Bool, true, false, not, ◌&&◌, ltb, leb, Option, none, some, List, [], ◌∷◌, ◌++◌, is_empty,
  if◌then◌else◌,
}
use urja_setu.Identity.Vocabulary.{
  UserRole, consumer, prosumer, UserStatus, is_active_user, VerificationLevel, no_level,
  discom_verified, rank, VerificationStatus, is_verified,
}

-- `TRADING_ROLES`
unfoldable pub is_trading_role : UserRole → Bool
is_trading_role consumer = true
is_trading_role prosumer = true
is_trading_role _ = false

-- `SELLING_ROLES`
unfoldable pub is_selling_role : UserRole → Bool
is_selling_role prosumer = true
is_selling_role _ = false

abbrev pub minimum_trading_level : VerificationLevel
minimum_trading_level = discom_verified

pub record VerificationEvidence : Type 0 where
  pub status : VerificationStatus
  pub level : VerificationLevel
  pub expires_at : Option ℕ

pub record EligibilityInput : Type 0 where
  pub role : UserRole
  pub status : UserStatus
  pub evaluated_at : ℕ
  pub utility_account_level : VerificationLevel
  pub meter_level : VerificationLevel
  pub has_market_participation_consent : Bool
  pub has_meter_data_consent : Bool
  pub has_active_generation_asset : Bool

pub data EligibilityReason : Type 0 where
  user_not_active role_not_permitted_to_trade : EligibilityReason
  utility_account_not_discom_verified market_participation_consent_missing : EligibilityReason
  role_not_permitted_to_sell no_active_generation_asset : EligibilityReason
  meter_not_discom_verified meter_data_consent_missing : EligibilityReason

pub record EligibilityDecision : Type 0 where
  pub can_buy : Bool
  pub can_sell : Bool
  pub trust_level : VerificationLevel
  pub reasons : List EligibilityReason

abbrev pub is_expired : Option ℕ → ℕ → Bool
is_expired none at = false
is_expired (some expires_at) at = leb expires_at at

-- Whether a record counts at that time.
abbrev pub is_in_force : VerificationEvidence → ℕ → Bool
is_in_force e at = is_verified e.status && not (is_expired e.expires_at at)

-- The loop over the records, with the best level so far.
unfoldable pub resolve_from : VerificationLevel → List VerificationEvidence → ℕ → VerificationLevel
unfolding rank
resolve_from best [] at = best
resolve_from best (e ∷ evidence) at =
    resolve_from (if is_in_force e at && ltb (rank best) (rank e.level) then e.level else best)
      evidence at

unfoldable pub resolve_verification_level : List VerificationEvidence → ℕ → VerificationLevel
unfolding resolve_from
resolve_verification_level evidence at = resolve_from no_level evidence at

-- `if test: reasons.append(reason)`
unfoldable pub reason_if : Bool → EligibilityReason → List EligibilityReason
reason_if true reason = reason ∷ []
reason_if false reason = []

abbrev pub is_below_minimum : VerificationLevel → Bool
is_below_minimum level = ltb (rank level) (rank minimum_trading_level)

unfoldable pub buy_blocking : EligibilityInput → List EligibilityReason
unfolding reason_if is_trading_role rank
buy_blocking input =
    reason_if (not (is_active_user input.status)) user_not_active
    ++ (reason_if (not (is_trading_role input.role)) role_not_permitted_to_trade
        ++ (reason_if (is_below_minimum input.utility_account_level)
              utility_account_not_discom_verified
            ++ reason_if (not input.has_market_participation_consent)
                market_participation_consent_missing))

-- No code is added twice, so dropping duplicates, as the code does, changes nothing.
unfoldable pub sell_blocking : EligibilityInput → List EligibilityReason
unfolding buy_blocking is_selling_role
sell_blocking input =
    buy_blocking input
    ++ (reason_if (not (is_selling_role input.role)) role_not_permitted_to_sell
        ++ (reason_if (not input.has_active_generation_asset) no_active_generation_asset
            ++ (reason_if (is_below_minimum input.meter_level) meter_not_discom_verified
                ++ reason_if (not input.has_meter_data_consent) meter_data_consent_missing)))

-- `min` by rank: the first of two that are equal.
abbrev pub weaker : VerificationLevel → VerificationLevel → VerificationLevel
weaker a b = if ltb (rank b) (rank a) then b else a

unfoldable pub evaluate_eligibility : EligibilityInput → EligibilityDecision
unfolding buy_blocking sell_blocking
evaluate_eligibility input = record {
  can_buy = is_empty (buy_blocking input);
  can_sell = is_empty (sell_blocking input);
  trust_level = weaker input.utility_account_level input.meter_level;
  reasons = sell_blocking input;
}
