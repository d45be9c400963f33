-- ===== src/Market/Engine/Exhaustion.antt =====
-- What the loops of `match` (backend/app/domain/policies/market_matching.py) leave of two orders that
-- could trade.
use urja_setu.Base.{
  ℕ, ◌-◌, ◌≤◌, ◌<◌, ◌≡◌, ◌≢◌, ◌⊎◌, inl, inr, true, min, max, List, [], ◌∷◌, arith, All, All-map,
  Bool-cases, leb,
}
use urja_setu.Base.Int.{pos_part}
use urja_setu.Market.Book.{OrderBookEntry, ProposedTrade}
use urja_setu.Market.Price.{prices_cross}
use urja_setu.Market.Engine.{
  MatchState, remaining, skip, deal, propose, commit, match_sells, match_buy, match_buys,
}
use urja_setu.Market.Engine.Pairing.{propose-ne-crash, propose-IsFair}
use urja_setu.Market.Engine.Loop.{Attempt-cases, Ends, Ends-map, Ends-bind}
use urja_setu.Market.Engine.Fills.{remaining-insert}

-- The two orders may trade with each other: different users, limits that cross, windows that share
-- some time.
pub record CanTrade (buy sell : OrderBookEntry) : Type 0 where
  pub users : sell.user_id ≢ buy.user_id
  pub limits : prices_cross buy.max_price sell.min_price ≡ true
  pub windows : max buy.delivery_start sell.delivery_start < min buy.delivery_end sell.delivery_end

-- One of the two has nothing left.
abbrev pub IsSpent : OrderBookEntry → OrderBookEntry → MatchState → Type 0
IsSpent buy sell st =
    (remaining buy.order_id st.rem_buys ≡ 0) ⊎ (remaining sell.order_id st.rem_sells ≡ 0)

-- No order has more left than before.
pub record IsBelow (st' st : MatchState) : Type 0 where
  pub buys : (id : ℕ) → remaining id st'.rem_buys ≤ remaining id st.rem_buys
  pub sells : (id : ℕ) → remaining id st'.rem_sells ≤ remaining id st.rem_sells

IsBelow-refl : (st : MatchState) → IsBelow st st
IsBelow-refl st = record { buys = λ id. omega arith; sells = λ id. omega arith }

IsBelow-trans : (a b c : MatchState) → IsBelow a b → IsBelow b c → IsBelow a c
IsBelow-trans a b c h k = record {
  buys = λ id. let x = h.buys id in let y = k.buys id in omega arith;
  sells = λ id. let x = h.sells id in let y = k.sells id in omega arith;
}

commit-IsBelow : (t : ProposedTrade) (st : MatchState) → IsBelow (commit t st) st
unfolding commit
commit-IsBelow t st = record {
  buys = λ id. ground (
    arith,
    remaining-insert t.buy_order_id id
        (remaining t.buy_order_id st.rem_buys - pos_part t.quantity_kwh) st.rem_buys,
  );
  sells = λ id. ground (
    arith,
    remaining-insert t.sell_order_id id
        (remaining t.sell_order_id st.rem_sells - pos_part t.quantity_kwh) st.rem_sells,
  );
}

IsSpent-IsBelow :
    (b s : OrderBookEntry) (st' st : MatchState) → IsBelow st' st → IsSpent b s st → IsSpent b s st'
IsSpent-IsBelow b s st' st h (inl e) = inl (let x = h.buys b.order_id in omega arith)
IsSpent-IsBelow b s st' st h (inr e) = inr (let x = h.sells s.order_id in omega arith)

-- An attempt that is skipped although the two could trade finds one of them spent.
skip-IsSpent :
    (b s : OrderBookEntry) (st : MatchState) → propose b s st ≡ skip → CanTrade b s → IsSpent b s st
unfolding propose
skip-IsSpent b s st h c = ground arith

-- A trade spends one of the two.
commit-IsSpent :
    (b s : OrderBookEntry) (st : MatchState) (t : ProposedTrade)
    → propose b s st ≡ deal t
    → IsSpent b s (commit t st)
unfolding commit
commit-IsSpent b s st t h =
    let (fair, covered) = propose-IsFair b s st h in
    ground (
      arith,
      remaining-insert t.buy_order_id b.order_id
          (remaining t.buy_order_id st.rem_buys - pos_part t.quantity_kwh) st.rem_buys,
      remaining-insert t.sell_order_id s.order_id
          (remaining t.sell_order_id st.rem_sells - pos_part t.quantity_kwh) st.rem_sells,
    )

-- A spent buy is settled with every sell.
settled_with_rest :
    (b : OrderBookEntry) (sells : List OrderBookEntry) (st : MatchState)
    → remaining b.order_id st.rem_buys ≡ 0
    → All (λ s. CanTrade b s → IsSpent b s st) sells
settled_with_rest b [] st e = tt
settled_with_rest b (s ∷ sells) st e = (λ _. inl e, settled_with_rest b sells st e)

-- After the inner loop the buy and each of the sells that it could trade with are settled: one of
-- the two is spent. Nothing has grown.
abbrev Settles : OrderBookEntry → List OrderBookEntry → MatchState → MatchState → Type 0
Settles b sells st st' = IsBelow st' st × All (λ s. CanTrade b s → IsSpent b s st') sells

match_sells-Settles :
    (b : OrderBookEntry) (sells : List OrderBookEntry) (st : MatchState)
    → Ends (Settles b sells st) (match_sells b sells st)
unfolding match_sells
match_sells-Settles b [] st = (IsBelow-refl st, tt)
match_sells-Settles b (s ∷ sells) st =
    elim (Attempt-cases (propose b s st) (propose-ne-crash b s st)) [
      | inl skipped ↦
          rw (skipped, Ends)
            (Ends-map (Settles b sells st) (Settles b (s ∷ sells) st) (match_sells b sells st)
              (λ st' h.
                (h.0, (λ c. IsSpent-IsBelow b s st' st h.0 (skip-IsSpent b s st skipped c), h.1)))
              (match_sells-Settles b sells st))
      | inr (t, dealt) ↦
          let after : MatchState = commit t st in
          let spent : IsSpent b s after = commit-IsSpent b s st t dealt in
          let below : IsBelow after st = commit-IsBelow t st in
          rw (dealt, Ends)
            (elim (Bool-cases (leb (remaining b.order_id (commit t st).rem_buys) 0)) [
              | inl done ↦
                  rw (done, Ends)
                    (below, (λ _. spent, settled_with_rest b sells (commit t st) (ground arith)))
              | inr more ↦
                  rw (more, Ends)
                    (Ends-map (Settles b sells after) (Settles b (s ∷ sells) st)
                      (match_sells b sells after)
                      (λ st' h. (
                        IsBelow-trans st' after st h.0 below,
                        (λ _. IsSpent-IsBelow b s st' after h.0 spent, h.1),
                      ))
                      (match_sells-Settles b sells after))
            ])
    ]

match_buy-Settles :
    (sells : List OrderBookEntry) (b : OrderBookEntry) (st : MatchState)
    → Ends (Settles b sells st) (match_buy sells b st)
unfolding match_buy
match_buy-Settles sells b st = elim (Bool-cases (leb (remaining b.order_id st.rem_buys) 0)) [
  | inl done ↦ rw (done, Ends) (IsBelow-refl st, settled_with_rest b sells st (ground arith))
  | inr more ↦ rw (more, Ends) (match_sells-Settles b sells st)
]

-- The same of every buy, at the end of the run.
abbrev pub SettlesAll : List OrderBookEntry → List OrderBookEntry → MatchState → MatchState → Type 0
SettlesAll sells buys st st' =
    IsBelow st' st × All (λ b. All (λ s. CanTrade b s → IsSpent b s st') sells) buys

pub match_buys_settles :
    (sells buys : List OrderBookEntry) (st : MatchState)
    → Ends (SettlesAll sells buys st) (match_buys sells buys st)
unfolding match_buys
match_buys_settles sells [] st = (IsBelow-refl st, tt)
match_buys_settles sells (b ∷ buys) st =
    Ends-bind (Settles b sells st) (SettlesAll sells (b ∷ buys) st) (match_buy sells b st)
      (match_buys sells buys)
      (λ mid h.
        Ends-map (SettlesAll sells buys mid) (SettlesAll sells (b ∷ buys) st)
          (match_buys sells buys mid)
          (λ st' k. (
            IsBelow-trans st' mid st k.0 h.0,
            (
              All-map (λ s. CanTrade b s → IsSpent b s mid) (λ s. CanTrade b s → IsSpent b s st')
                  sells (λ s f c. IsSpent-IsBelow b s st' mid k.0 (f c)) h.1,
              k.1,
            ),
          ))
          (match_buys_settles sells buys mid))
      (match_buy-Settles sells b st)
