-- ===== src/Grid/Transfer.antt =====
-- What `validate_trade` (backend/app/services/grid_validation_service.py) accepts, with any engine.
use urja_setu.Base.{
  ℕ, ◌≡◌, ◌↔◌, ◌<◌, refl, sym, ap, ◌∙◌, ◌+◌, ◌-◌, ◌==◌, true, false, not, Bool, Bool-cases, inl,
  inr, not-false, both, not-eq-true, leb, List, [], ◌∷◌, arith, ok, Result, Result-cases,
  raise_if-eq-ok, >>=-eq-ok, or_raise, or_raise-eq-ok, ok-injective, some, some-injective,
}
use urja_setu.Base.Decimal.{Decimal, Signed, add_signed, less, subtract, fix, digits}
use urja_setu.Grid.Contract.{
  accept, NodeInjection, from_energy, opposite_power, GridValidationRequest, GridEngine,
}
use urja_setu.Grid.Service.{GridError, GridValidationRun, validate_scenario, no_duration}
use urja_setu.Grid.Outcomes.{Accepts, IsShownSafe, validate_scenario-Accepts}
use urja_setu.Grid.Trades.{
  GridBooks, TradeProposal, is_positive, transfer, scenario_of, occasion_of, judge, validate_trade,
}

-- The seller injects, the buyer withdraws, and the sum is zero.
pub record IsBalanced (t : TradeProposal) (injections : List NodeInjection) : Type 0 where
  pub injected : Signed
  pub withdrawn : Signed
  pub injects : injected.negative ≡ false
  pub withdraws : withdrawn.negative ≡ true
  pub listed :
      injections
      ≡ record { node_id = t.seller_node_id; active_power_kw = injected }
        ∷ record { node_id = t.buyer_node_id; active_power_kw = withdrawn }
        ∷ []
  pub cancels : (add_signed injected withdrawn).size.coefficient ≡ 0

-- The trade has a window and some energy, and the engine shows its transfer safe.
pub record IsSafeTransfer (g : GridBooks) (engine : GridEngine) (t : TradeProposal) : Type 0 where
  pub window : t.delivery_start < t.delivery_end
  pub energy : is_positive t.quantity_kwh ≡ true
  pub scenario : GridValidationRequest
  pub built : scenario_of g t ≡ ok scenario
  pub balanced : IsBalanced t scenario.proposed_injections
  pub shown : IsShownSafe engine scenario

-- The call returns a run that accepts.
pub record AcceptsTrade (outcome : GridBooks × Result GridError GridValidationRun) : Type 0 where
  pub run : GridValidationRun
  pub returned : outcome.1 ≡ ok run
  pub accepted : run.decision ≡ accept

fix_zero : (places : ℕ) → (fix (record { coefficient = 0; places = places })).coefficient ≡ 0
unfolding fix digits
fix_zero places = refl

cancel :
    (size : Decimal)
    → (add_signed
        (record { negative = false; size = size })
        (record { negative = true; size = size })).size.coefficient
      ≡ 0
unfolding add_signed subtract
cancel size =
    let nothing : (subtract size size).coefficient ≡ 0 = omega arith in
    let none_left : (fix (subtract size size)).coefficient ≡ 0 =
      ap (λ c. (fix (record { coefficient = c; places = size.places + size.places })).coefficient)
        nothing
      ∙ fix_zero (size.places + size.places) in
    elim (Bool-cases (less size size)) [
      | inl below ↦ rw below none_left
      | inr level ↦ rw level none_left
    ]

from_energy-negative :
    (node_id interval : ℕ) (e : Signed) {i : NodeInjection}
    → from_energy node_id e interval ≡ some i
    → (i.node_id ≡ node_id) × (i.active_power_kw.negative ≡ e.negative)
unfolding from_energy
from_energy-negative node_id interval e {i} h = elim (Bool-cases (interval == 0)) [
  | inl empty ↦ let e = rw empty at h in absurd cc
  | inr some_time ↦
      let same = some-injective (rw some_time at h) in
      (
        sym (ap (λ (x : NodeInjection). x.node_id) same),
        sym (ap (λ (x : NodeInjection). x.active_power_kw.negative) same),
      )
]

transfer-IsBalanced :
    (g : GridBooks) (t : TradeProposal) (i : NodeInjection)
    → i.node_id ≡ t.seller_node_id
    → i.active_power_kw.negative ≡ false
    → IsBalanced t (transfer g t i).proposed_injections
unfolding transfer
transfer-IsBalanced g t i seller plus =
    let size = i.active_power_kw.size in
    record {
      injected = i.active_power_kw;
      withdrawn = opposite_power i.active_power_kw;
      injects = plus;
      withdraws = ap not plus;
      listed =
          ap
            (λ (n : ℕ).
              record { node_id = n; active_power_kw = i.active_power_kw }
              ∷ record {
                node_id = t.buyer_node_id;
                active_power_kw = opposite_power i.active_power_kw;
              }
              ∷ [])
            seller;
      cancels =
          ap
            (λ (b : Bool).
              (add_signed (record { negative = b; size = size })
                (record { negative = not b; size = size })).size.coefficient)
            plus
          ∙ cancel size;
    }

scenario_of-eq-ok :
    (g : GridBooks) (t : TradeProposal) (q : GridValidationRequest)
    → scenario_of g t ≡ ok q
    → (t.delivery_start < t.delivery_end)
      × (is_positive t.quantity_kwh ≡ true)
      × IsBalanced t q.proposed_injections
unfolding scenario_of
scenario_of-eq-ok g t q h =
    let (window, h1) = raise_if-eq-ok (leb t.delivery_end t.delivery_start) _ _ h in
    let (some_energy, h2) = raise_if-eq-ok (not (is_positive t.quantity_kwh)) _ _ h1 in
    let injection =
      from_energy t.seller_node_id t.quantity_kwh (t.delivery_end - t.delivery_start) in
    let (i, made, same) = >>=-eq-ok (or_raise injection no_duration) _ h2 in
    let positive = not-false (is_positive t.quantity_kwh) some_energy in
    let (plus, _) = both (not t.quantity_kwh.negative) _ positive in
    let (seller, sign) = from_energy-negative _ _ t.quantity_kwh (or_raise-eq-ok _ _ made) in
    (
      ground arith,
      positive,
      rw (sym (ok-injective same))
          (transfer-IsBalanced g t i seller (sign ∙ not-eq-true t.quantity_kwh.negative plus)),
    )

-- With any engine, a trade is accepted if and only if its delivery window is not empty, its energy
-- is positive, and the engine shows safe the scenario that is built for it, in which the power that
-- the seller's node injects and the buyer's withdraws add up to nothing.
pub validate_trade-IsSafeTransfer :
    (g : GridBooks) (engine : GridEngine) (t : TradeProposal)
    → AcceptsTrade (validate_trade g engine t) ↔ IsSafeTransfer g engine t
unfolding validate_trade judge
validate_trade-IsSafeTransfer g engine t = (
  λ a. elim (Result-cases (scenario_of g t)) [
    | inr (reason, refused) ↦
        let returned = a.returned in let e = rw refused at returned in absurd cc
    | inl (q, built) ↦
        let (window, energy, balanced) = scenario_of-eq-ok g t q built in
        let returned = a.returned in
        let accepts : Accepts (validate_scenario g.records engine q (occasion_of g t)) = record {
          run = a.run;
          returned = rw built at returned;
          accepted = a.accepted;
        } in
        record {
          window = window;
          energy = energy;
          scenario = q;
          built = built;
          balanced = balanced;
          shown = (validate_scenario-Accepts g.records engine q (occasion_of g t)).0 accepts;
        }
  ],
  λ s.
      let a = (validate_scenario-Accepts g.records engine s.scenario (occasion_of g t)).1 s.shown in
      record { run = a.run; returned = rw s.built a.returned; accepted = a.accepted },
)
