-- ===== src/Market/Engine/Pairing.antt =====
-- One attempted pairing (backend/app/domain/policies/market_matching.py).
use urja_setu.Base.{
  ℕ, ◌≤◌, ◌<◌, min, max, ◌≡◌, refl, ◌≢◌, inl, inr, true, Option, none, some, arith, Bool-cases,
  leb→le,
}
use urja_setu.Base.Int.{pos, pos_part, ◌≤ℤ◌}
use urja_setu.Market.Book.{OrderBookEntry, ProposedTrade}
use urja_setu.Market.Price.{prices_cross, midpoint_between}
use urja_setu.Market.Engine.{MatchState, remaining, crash, deal, propose, trade_price}

-- The terms of a trade, against the two orders that it pairs.
pub record IsFair (buy sell : OrderBookEntry) (t : ProposedTrade) : Type 0 where
  pub buyer : t.buy_order_id ≡ buy.order_id
  pub seller : t.sell_order_id ≡ sell.order_id
  pub no_self_trade : sell.user_id ≢ buy.user_id
  pub ceiling : ℕ
  pub floor : ℕ
  pub buy_limit : buy.max_price ≡ some ceiling
  pub sell_limit : sell.min_price ≡ some floor
  pub above_floor : pos floor ≤ℤ t.clearing_price
  pub below_ceiling : t.clearing_price ≤ℤ pos ceiling
  pub some_energy : pos 1 ≤ℤ t.quantity_kwh
  pub window_start : t.delivery_start ≡ max buy.delivery_start sell.delivery_start
  pub window_end : t.delivery_end ≡ min buy.delivery_end sell.delivery_end
  pub some_time : t.delivery_start < t.delivery_end

-- The trade takes no more than either order has left, and all that one of them has.
pub record IsCovered (t : ProposedTrade) (st : MatchState) : Type 0 where
  pub all_of_one :
      t.quantity_kwh
      ≡ pos (min (remaining t.buy_order_id st.rem_buys) (remaining t.sell_order_id st.rem_sells))
  pub by_buyer : pos_part t.quantity_kwh ≤ remaining t.buy_order_id st.rem_buys
  pub by_seller : pos_part t.quantity_kwh ≤ remaining t.sell_order_id st.rem_sells

-- Limits that cross have a price between them.
trade_price_between :
    (bm sm : Option ℕ)
    → prices_cross bm sm ≡ true
    → (b : ℕ) × (s : ℕ) × (p : ℕ) × (bm ≡ some b)
      × (sm ≡ some s)
      × (trade_price bm sm ≡ some p)
      × (s ≤ p)
      × (p ≤ b)
unfolding prices_cross trade_price
trade_price_between none sm h = cc
trade_price_between (some b) none h = cc
trade_price_between (some b) (some s) h =
    let (p, e, lo, hi, _, _) = midpoint_between b s (leb→le s b h) in
    (b, s, p, refl, refl, e, lo, hi)

pub propose-ne-crash : (buy sell : OrderBookEntry) (st : MatchState) → propose buy sell st ≢ crash
unfolding propose
propose-ne-crash buy sell st = elim (Bool-cases (prices_cross buy.max_price sell.min_price)) [
  | inl crossed ↦
      let (b, s, p, _, _, priced, _, _) =
        trade_price_between buy.max_price sell.min_price crossed in
      ground arith
  | inr apart ↦ ground arith
]

pub propose-IsFair :
    (buy sell : OrderBookEntry) (st : MatchState) {t : ProposedTrade}
    → propose buy sell st ≡ deal t
    → IsFair buy sell t × IsCovered t st
unfolding propose
propose-IsFair buy sell st h = elim (Bool-cases (prices_cross buy.max_price sell.min_price)) [
  | inl crossed ↦
      let (b, s, p, eb, es, priced, lo, hi) =
        trade_price_between buy.max_price sell.min_price crossed in
      (
        record {
          buyer = ground arith;
          seller = ground arith;
          no_self_trade = ground arith;
          ceiling = b;
          floor = s;
          buy_limit = eb;
          sell_limit = es;
          above_floor = ground arith;
          below_ceiling = ground arith;
          some_energy = ground arith;
          window_start = ground arith;
          window_end = ground arith;
          some_time = ground arith;
        },
        ground arith,
      )
  | inr apart ↦ absurd (ground arith)
]
