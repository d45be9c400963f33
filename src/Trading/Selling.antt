-- ===== src/Trading/Selling.antt =====
-- A sell order over the whole platform: place_order of backend/app/services/market_service.py with
-- the services of identity and of forecasts behind it.
use urja_setu.Base.{
  sym, ok-is_err, not-false, some-injective, ◌≡◌, Bool-cases, refl, ap, ◌∙◌, ℕ, true, false, not,
  Option, none, some, is_some, Option-cases, inl, inr, In, Result, ok, err, >>=-eq-ok,
  raise_if-eq-ok,
}
use urja_setu.Base.Decimal.{decimal, less}
use urja_setu.Base.Rows.{find_row-In}
use urja_setu.Identity.Store.{IdentityRegistry, Site, find_site}
use urja_setu.Identity.Eligibility.{EligibilityDecision}
use urja_setu.Identity.Service.{get_eligibility, IdentityError}
use urja_setu.Identity.Sellers.{IsSeller, get_eligibility-IsSeller}
use urja_setu.Forecast.Store.{Forecasts}
use urja_setu.Forecast.Surplus.{total_exportable_kwh}
use urja_setu.Forecast.Service.{surplus_for_site}
use urja_setu.Market.Vocabulary.{OrderSide, is_sell, accepts_orders}
use urja_setu.Market.Store.{Market, Order}
use urja_setu.Market.Service.{
  Directory, OrderRequest, state_invalid, site_not_found, get_session, require_eligibility,
  require_forecast_surplus, validate_order_shape, may_place, place_order,
}
use urja_setu.Trading.{directory, sells}

able_to_sell :
    (dir : Directory) (user : ℕ) (side : OrderSide)
    → require_eligibility dir user side ≡ ok tt
    → is_sell side ≡ true
    → dir.can_sell user ≡ some true
unfolding require_eligibility
able_to_sell dir user side h selling = elim (Option-cases (dir.can_sell user)) [
  | inl unknown ↦ absurd (ok-is_err tt _ (sym (rw (selling, unknown) at h)))
  | inr (permitted, asked) ↦ elim (Bool-cases permitted) [
    | inl able ↦ asked ∙ ap some able
    | inr unable ↦ absurd (ok-is_err tt _ (sym (rw (selling, asked, unable) at h)))
  ]
]

backed :
    (dir : Directory) (site energy start end : ℕ)
    → require_forecast_surplus dir site energy start end ≡ ok tt
    → less (dir.exportable_kwh site start end) (decimal energy 4) ≡ false
unfolding require_forecast_surplus
backed dir site energy start end h =
    elim (Bool-cases (less (dir.exportable_kwh site start end) (decimal energy 4))) [
      | inl short ↦ absurd (ok-is_err tt _ (sym (rw short at h)))
      | inr enough ↦ enough
    ]

-- What the guards of a sell order have found.
may_place-sell :
    (dir : Directory) (r : OrderRequest) (m : Market)
    → may_place dir r m ≡ ok tt
    → is_sell r.side ≡ true
    → (dir.has_site r.site_id ≡ true)
      × (dir.can_sell r.user_id ≡ some true)
      × (less
            (dir.exportable_kwh r.site_id r.delivery_start r.delivery_end)
            (decimal r.energy_kwh 4)
          ≡ false)
unfolding may_place require_eligibility require_forecast_surplus
may_place-sell dir r m h selling =
    let (s, _, h1) = >>=-eq-ok (get_session r.market_session_id m) _ h in
    let (_, h2) = raise_if-eq-ok (not (accepts_orders s.status)) state_invalid _ h1 in
    let (present, h3) = raise_if-eq-ok (not (dir.has_site r.site_id)) site_not_found _ h2 in
    let (_, eligible, h4) = >>=-eq-ok (require_eligibility dir r.user_id r.side) _ h3 in
    let (_, _, h5) = >>=-eq-ok (validate_order_shape r) _ h4 in
    let funded : require_forecast_surplus dir r.site_id r.energy_kwh r.delivery_start r.delivery_end
        ≡ ok tt =
      rw selling at h5 in
    (
      not-false (dir.has_site r.site_id) present,
      able_to_sell dir r.user_id r.side eligible selling,
      backed dir r.site_id r.energy_kwh r.delivery_start r.delivery_end funded,
    )

sells-eq-some :
    (call : Result IdentityError (EligibilityDecision × ℕ))
    → sells call ≡ some true
    → (answer : EligibilityDecision × ℕ) × (call ≡ ok answer) × (answer.0.can_sell ≡ true)
sells-eq-some (err e) h = absurd cc
sells-eq-some (ok answer) h = (answer, refl, some-injective h)

registered : (site : Option Site) → is_some site ≡ true → (s : Site) × (site ≡ some s)
registered none h = absurd cc
registered (some s) h = (s, refl)

-- A sell order that the market accepts is that of an active prosumer whose connection and metering
-- are confirmed at that time, who has given both consents and owns a generating asset in service;
-- its site is registered, and the surplus that the site's forecasts leave covers its energy.
pub place_order-IsSeller :
    (registry : IdentityRegistry) (forecasts : Forecasts) (r : OrderRequest) (now : ℕ) (m : Market)
    {placed : Order × Market}
    → place_order (directory registry forecasts now) r now m ≡ ok placed
    → is_sell r.side ≡ true
    → IsSeller registry r.user_id now
      × ((s : Site) × In s registry.sites × (s.id ≡ r.site_id))
      × (less
            (total_exportable_kwh
              (surplus_for_site forecasts r.site_id r.delivery_start r.delivery_end))
            (decimal r.energy_kwh 4)
          ≡ false)
unfolding place_order directory
place_order-IsSeller registry forecasts r now m h selling =
    let (_, guarded, _) = >>=-eq-ok (may_place (directory registry forecasts now) r m) _ h in
    let (present, able, enough) =
      may_place-sell (directory registry forecasts now) r m guarded selling in
    let (answer, decided, sold) =
      sells-eq-some (get_eligibility registry r.user_id none now) able in
    let (s, found) = registered (find_site r.site_id registry.sites) present in
    let (same, known) = find_row-In (λ (s : Site). s.id) r.site_id registry.sites found in
    (get_eligibility-IsSeller registry r.user_id none now decided sold, (s, known, same), enough)
