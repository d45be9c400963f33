-- ===== src/Market/Boundary/Parts.antt =====
-- The steps of the check, inverted: what each has seen when it passes.
use urja_setu.Base.{
  ℕ, ◌<◌, ◌≡◌, refl, inl, inr, true, some, arith, ◌==◌, if◌then◌else◌, ok, >>=-eq-ok, Option-cases,
}
use urja_setu.Base.Int.{ℤ, pos, ◌+ℤ◌, ◌≤ℤ◌}
use urja_setu.Base.Dict.{Dict, lookup, insert, lookup-insert}
use urja_setu.Market.Vocabulary.{OrderSide, buy, sell}
use urja_setu.Market.Book.{OrderBookEntry, ProposedTrade}
use urja_setu.Market.Boundary.{same_side, committed_to, check_side, check_trade}

pub committed_to-insert :
    (k j : ℕ) (v : ℤ) (d : Dict ℤ)
    → committed_to j (insert k v d) ≡ (if k == j then v else committed_to j d)
committed_to-insert k j v d = ground (arith, lookup-insert k j v d)

-- One side passes if the book holds the order on that side, and then its quantity is added.
pub record PassesSide (known : Dict OrderBookEntry) (id : ℕ) (side : OrderSide) (q : ℤ)
    (committed committed' : Dict ℤ) : Type 0 where
  pub entry : OrderBookEntry
  pub found : lookup id known ≡ some entry
  pub right_side : entry.side ≡ side
  pub added : insert id (committed_to id committed +ℤ q) committed ≡ committed'

same_side-eq : (a b : OrderSide) → same_side a b ≡ true → a ≡ b
same_side-eq buy buy h = refl
same_side-eq sell sell h = refl
same_side-eq buy sell h = cc
same_side-eq sell buy h = cc

pub check_side-PassesSide :
    (known : Dict OrderBookEntry) (id : ℕ) (side : OrderSide) (q : ℤ) (committed : Dict ℤ)
    {committed' : Dict ℤ}
    → check_side known id side q committed ≡ ok committed'
    → PassesSide known id side q committed committed'
unfolding check_side
check_side-PassesSide known id side q committed h = elim (Option-cases (lookup id known)) [
  | inl missing ↦ absurd (ground arith)
  | inr (e, found) ↦ record {
    entry = e;
    found = found;
    right_side = same_side-eq e.side side (ground arith);
    added = ground arith;
  }
]

-- A trade that passes: both orders known and on their sides, some energy, a price that is not
-- negative, some time.
pub record PassesTrade (known : Dict OrderBookEntry) (t : ProposedTrade)
    (committed committed' : Dict ℤ) : Type 0 where
  pub between : Dict ℤ
  pub bought : PassesSide known t.buy_order_id buy t.quantity_kwh committed between
  pub sold : PassesSide known t.sell_order_id sell t.quantity_kwh between committed'
  pub some_energy : pos 1 ≤ℤ t.quantity_kwh
  pub price_bound : pos 0 ≤ℤ t.clearing_price
  pub some_time : t.delivery_start < t.delivery_end

pub check_trade-PassesTrade :
    (known : Dict OrderBookEntry) (t : ProposedTrade) (committed : Dict ℤ) {committed' : Dict ℤ}
    → check_trade known t committed ≡ ok committed'
    → PassesTrade known t committed committed'
unfolding check_trade
check_trade-PassesTrade known t committed {committed' = committed'} h =
    let (between, first, rest) =
      >>=-eq-ok (check_side known t.buy_order_id buy t.quantity_kwh committed) _ h in
    let (after, second, guards) =
      >>=-eq-ok (check_side known t.sell_order_id sell t.quantity_kwh between) _ rest in
    let same : check_side known t.sell_order_id sell t.quantity_kwh between ≡ ok committed' =
      ground arith in
    record {
      between = between;
      bought = check_side-PassesSide known t.buy_order_id buy t.quantity_kwh committed first;
      sold = check_side-PassesSide known t.sell_order_id sell t.quantity_kwh between same;
      some_energy = ground arith;
      price_bound = ground arith;
      some_time = ground arith;
    }
