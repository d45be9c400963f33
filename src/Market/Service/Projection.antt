-- ===== src/Market/Service/Projection.antt =====
-- The order book that is built from the market's rows.
use urja_setu.Base.{
  ℕ, ◌≤◌, ◌≡◌, refl, sym, ap, ◌≢◌, inl, inr, true, List, ◌++◌, arith, All, All-map, All-append,
  All-filter, All-In, In, In-All, filter, Option-cases,
}
use urja_setu.Base.Dict.{lookup}
use urja_setu.Base.Sorting.{All-sorted}
use urja_setu.Base.Unique.{
  HasUnique, HasUnique-In, HasUnique-filter, HasUnique-sorted, HasUnique-map, All-of-map,
}
use urja_setu.Market.Vocabulary.{OrderSide, buy, sell, is_buy, is_sell}
use urja_setu.Market.Book.{OrderBookEntry}
use urja_setu.Market.Store.{
  MarketSession, Order, Market, order_remaining_kwh, is_active_in, list_active_for_session,
  placed_before,
}
use urja_setu.Market.Engine.Limits.{IsBook, HasUniqueIds}
use urja_setu.Market.Boundary.{known_entries, known_remaining, energy_of}
use urja_setu.Market.Boundary.Soundness.{known_entries-In}
use urja_setu.Market.Boundary.Engine.{IsSided}
use urja_setu.Market.Service.{to_entry, active_entries, book_of}

-- What is known of the active orders, of the listed ones.
pub All-list_active :
    (P : Order → Type 0) (id : ℕ) (orders : List Order)
    → All P orders
    → All (λ o. P o × (is_active_in id o ≡ true)) (list_active_for_session id orders)
unfolding list_active_for_session
All-list_active P id orders h =
    All-sorted placed_before (λ o. P o × (is_active_in id o ≡ true)) _
      (All-filter P (is_active_in id) orders h)

pub All-active_entries :
    (P : OrderBookEntry → Type 0) (id : ℕ) (m : Market)
    → All (λ o. P (to_entry o)) m.orders
    → All P (active_entries id m)
All-active_entries P id m h = All-of-map to_entry P (list_active_for_session id m.orders) (
    All-map (λ o. P (to_entry o) × (is_active_in id o ≡ true)) (λ o. P (to_entry o)) _ (λ o p. p.0)
      (All-list_active (λ o. P (to_entry o)) id m.orders h))

pub All-book_of :
    (P : OrderBookEntry → Type 0) (s : MarketSession) (entries : List OrderBookEntry)
    → All P entries
    → All P ((book_of s entries).buys ++ (book_of s entries).sells)
All-book_of P s entries h =
    All-append P (book_of s entries).buys (book_of s entries).sells
      (All-map _ P _ (λ e p. p.0) (All-filter P (λ e. is_buy e.side) entries h))
      (All-map _ P _ (λ e p. p.0) (All-filter P (λ e. is_sell e.side) entries h))

is_buy-eq : (s : OrderSide) → is_buy s ≡ true → s ≡ buy
is_buy-eq buy h = refl
is_buy-eq sell h = absurd cc

is_sell-eq : (s : OrderSide) → is_sell s ≡ true → s ≡ sell
is_sell-eq buy h = absurd cc
is_sell-eq sell h = refl

pub active_entries-HasUnique :
    (id : ℕ) (m : Market)
    → HasUnique (λ (o : Order). o.id) m.orders
    → HasUniqueIds (active_entries id m)
unfolding list_active_for_session to_entry
active_entries-HasUnique id m u =
    HasUnique-map to_entry (λ e. e.order_id) (list_active_for_session id m.orders)
      (HasUnique-sorted (λ (o : Order). o.id) placed_before _
        (HasUnique-filter (λ (o : Order). o.id) (is_active_in id) m.orders u))

pub book_of-IsBook :
    (s : MarketSession) (entries : List OrderBookEntry)
    → HasUniqueIds entries
    → IsBook (book_of s entries)
book_of-IsBook s entries u = record {
  buy_ids = HasUnique-filter (λ e. e.order_id) (λ e. is_buy e.side) entries u;
  sell_ids = HasUnique-filter (λ e. e.order_id) (λ e. is_sell e.side) entries u;
  apart =
      All-map (λ e. In e entries × (is_buy e.side ≡ true))
        (λ b. All (λ x. x.order_id ≢ b.order_id) (book_of s entries).sells) (book_of s entries).buys
        (λ b p. apart_from b p.0 p.1)
        (All-filter (λ e. In e entries) (λ e. is_buy e.side) entries (In-All entries));
}
  where
    apart_from :
        (b : OrderBookEntry)
        → In b entries
        → is_buy b.side ≡ true
        → All (λ x. x.order_id ≢ b.order_id) (filter (λ e. is_sell e.side) entries)
    apart_from b m bought =
        All-map (λ x. (x.order_id ≡ b.order_id → x ≡ b) × (is_sell x.side ≡ true))
          (λ x. x.order_id ≢ b.order_id) _
          (λ x p same. absurd (
            let e : is_sell x.side ≡ is_sell b.side =
              ap (λ (y : OrderBookEntry). is_sell y.side) (p.0 same) in
            let sold : is_sell x.side ≡ true = p.1 in ground arith))
          (All-filter (λ x. x.order_id ≡ b.order_id → x ≡ b) (λ e. is_sell e.side) entries
            (HasUnique-In (λ e. e.order_id) entries u m))

pub book_of-IsSided :
    (s : MarketSession) (entries : List OrderBookEntry) → IsSided (book_of s entries)
book_of-IsSided s entries = record {
  buy_sides =
      All-map _ (λ e. e.side ≡ buy) _ (λ (e : OrderBookEntry) p. is_buy-eq e.side p.1)
        (All-filter (λ e. In e entries) (λ e. is_buy e.side) entries (In-All entries));
  sell_sides =
      All-map _ (λ e. e.side ≡ sell) _ (λ (e : OrderBookEntry) p. is_sell-eq e.side p.1)
        (All-filter (λ e. In e entries) (λ e. is_sell e.side) entries (In-All entries));
}

-- The book never offers more of an order than the order has left.
pub known_remaining-le :
    (s : MarketSession) (id : ℕ) (m : Market) {o : Order}
    → HasUnique (λ (x : Order). x.id) m.orders
    → In o m.orders
    → known_remaining (known_entries (book_of s (active_entries id m))) o.id ≤ order_remaining_kwh o
unfolding to_entry
known_remaining-le s id m {o} u inside =
    let book = book_of s (active_entries id m) in
    let P : OrderBookEntry → Type 0 =
      λ e. o.id ≡ e.order_id → e.remaining_kwh ≡ order_remaining_kwh o in
    let all : All P (book.buys ++ book.sells) = All-book_of P s (active_entries id m) (
      All-active_entries P id m (
        All-map (λ x. x.id ≡ o.id → x ≡ o) (λ x. P (to_entry x)) m.orders
          (λ x f same. ap order_remaining_kwh (f (sym same)))
          (HasUnique-In (λ (x : Order). x.id) m.orders u inside))) in
    elim (Option-cases (lookup o.id (known_entries book))) [
      | inl missing ↦
          let e : known_remaining (known_entries book) o.id ≡ 0 = ap energy_of missing in
          omega arith
      | inr (entry, found) ↦
          let (key, m) = known_entries-In book o.id found in
          let e : known_remaining (known_entries book) o.id ≡ entry.remaining_kwh =
            ap energy_of found in
          let same = All-In P all m key in omega arith
    ]
