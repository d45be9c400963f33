-- ===== src/Market/Engine/Priority.antt =====
-- Price-time priority: the order in which the engine takes the orders of a side.
use urja_setu.Base.{
  ℕ, ◌≡◌, ◌<◌, ◌≤◌, ◌⊎◌, ◌↔◌, inl, inr, ◌&&◌, both, Bool, Bool-cases, true, false, ltb, ltb→lt,
  arith, List, [], ◌∷◌, All, All-map, All-In, All-filter, In, In-All, In-filter, filter, get_or,
  is_some,
}
use urja_setu.Base.Sorting.{IsSorted, sorted, sorted-IsSorted, All-sorted, In-sorted}
use urja_setu.Market.Book.{OrderBookEntry, OrderBook}
use urja_setu.Market.Engine.{
  arrived_before, buy_before, sell_before, is_valid_buy, is_valid_sell, sorted_buys, sorted_sells,
}

buy_before-asym : (x y : OrderBookEntry) → buy_before x y ≡ true → buy_before y x ≡ false
unfolding buy_before arrived_before
buy_before-asym x y h = ground arith

buy_before_trans :
    (x y z : OrderBookEntry)
    → buy_before y x ≡ false
    → buy_before z y ≡ false
    → buy_before z x ≡ false
unfolding buy_before arrived_before
buy_before_trans x y z h k = ground arith

sell_before-asym : (x y : OrderBookEntry) → sell_before x y ≡ true → sell_before y x ≡ false
unfolding sell_before arrived_before
sell_before-asym x y h = ground arith

sell_before_trans :
    (x y z : OrderBookEntry)
    → sell_before y x ≡ false
    → sell_before z y ≡ false
    → sell_before z x ≡ false
unfolding sell_before arrived_before
sell_before_trans x y z h k = ground arith

-- No order of a side stands behind one that the engine's comparison puts before it.
sorted_buys-sorted_sells-IsSorted :
    (book : OrderBook)
    → IsSorted buy_before (sorted_buys book) × IsSorted sell_before (sorted_sells book)
unfolding sorted_buys sorted_sells
sorted_buys-sorted_sells-IsSorted book = (
  sorted-IsSorted buy_before buy_before-asym buy_before_trans _,
  sorted-IsSorted sell_before sell_before-asym sell_before_trans _,
)

-- The earlier of two orders, or of two of one time the one with the smaller identifier, or that one.
abbrev pub IsNoLater : OrderBookEntry → OrderBookEntry → Type 0
IsNoLater x y =
    (x.created_at < y.created_at) ⊎ ((x.created_at ≡ y.created_at) × (x.order_id ≤ y.order_id))

-- Each order of the list stands in front of those that follow it.
abbrev pub IsRanked : (OrderBookEntry → OrderBookEntry → Type 0) → List OrderBookEntry → Type 0
IsRanked Before [] = Unit
IsRanked Before (x ∷ xs) = All (Before x) xs × IsRanked Before xs

-- A buy that offers more, or as much and is no later.
abbrev pub IsBetterBuy : OrderBookEntry → OrderBookEntry → Type 0
IsBetterBuy x y =
    (get_or y.max_price 0 < get_or x.max_price 0)
    ⊎ ((get_or x.max_price 0 ≡ get_or y.max_price 0) × IsNoLater x y)

-- A sell that asks less, or as much and is no later.
abbrev pub IsBetterSell : OrderBookEntry → OrderBookEntry → Type 0
IsBetterSell x y =
    (get_or x.min_price 0 < get_or y.min_price 0)
    ⊎ ((get_or x.min_price 0 ≡ get_or y.min_price 0) × IsNoLater x y)

IsSorted-IsRanked :
    (before : OrderBookEntry → OrderBookEntry → Bool)
    (Before : OrderBookEntry → OrderBookEntry → Type 0)
    → ((x y : OrderBookEntry) → before y x ≡ false → Before x y)
    → (xs : List OrderBookEntry) → IsSorted before xs
    → IsRanked Before xs
IsSorted-IsRanked before Before f [] h = tt
IsSorted-IsRanked before Before f (x ∷ xs) h =
    (All-map _ (Before x) xs (f x) h.0, IsSorted-IsRanked before Before f xs h.1)

no_later : (x y : OrderBookEntry) → arrived_before y x ≡ false → IsNoLater x y
unfolding arrived_before
no_later x y h = elim (Bool-cases (ltb x.created_at y.created_at)) [
  | inl earlier ↦ inl (ltb→lt _ _ earlier)
  | inr level ↦ inr (ground arith, ground arith)
]

better_buy : (x y : OrderBookEntry) → buy_before y x ≡ false → IsBetterBuy x y
unfolding buy_before
better_buy x y h = elim (Bool-cases (ltb (get_or y.max_price 0) (get_or x.max_price 0))) [
  | inl more ↦ inl (ltb→lt _ _ more)
  | inr level ↦ inr (ground arith, no_later x y (ground arith))
]

better_sell : (x y : OrderBookEntry) → sell_before y x ≡ false → IsBetterSell x y
unfolding sell_before
better_sell x y h = elim (Bool-cases (ltb (get_or x.min_price 0) (get_or y.min_price 0))) [
  | inl less ↦ inl (ltb→lt _ _ less)
  | inr level ↦ inr (ground arith, no_later x y (ground arith))
]

both_valid : (n : ℕ) (b : Bool) → (ltb 0 n && b) ≡ true → (0 < n) × (b ≡ true)
both_valid n b h = let (some_left, priced) = both (ltb 0 n) b h in (ltb→lt 0 n some_left, priced)

valid_of : (n : ℕ) (b : Bool) → (0 < n) × (b ≡ true) → (ltb 0 n && b) ≡ true
valid_of n b h = let left = h.0 in let priced = h.1 in ground arith

listed :
    {e : OrderBookEntry} (P : Type 0) (before : OrderBookEntry → OrderBookEntry → Bool)
    (valid : OrderBookEntry → Bool) (entries : List OrderBookEntry)
    → (valid e ≡ true → P)
    → (P → valid e ≡ true)
    → In e (sorted before (filter valid entries)) ↔ (In e entries × P)
listed {e} P before valid entries f g = (
  λ m.
      let (inside, passed) =
        All-In _
          (All-sorted before _ _ (All-filter (λ x. In x entries) valid entries (In-All entries)))
          m in
      (inside, f passed),
  λ h. In-sorted before _ (In-filter valid entries (g h.1) h.0),
)

-- The engine takes the buys by price, the highest first, and the sells by price, the lowest first,
-- orders of one price by their arrival and then by their identifiers; and on each side it takes
-- exactly the orders that have energy left and a price.
pub sorted_sides-IsRanked :
    (book : OrderBook)
    → IsRanked IsBetterBuy (sorted_buys book)
      × IsRanked IsBetterSell (sorted_sells book)
      × ((e : OrderBookEntry)
          → In e (sorted_buys book)
            ↔ (In e book.buys × ((0 < e.remaining_kwh) × (is_some e.max_price ≡ true))))
      × ((e : OrderBookEntry)
          → In e (sorted_sells book)
            ↔ (In e book.sells × ((0 < e.remaining_kwh) × (is_some e.min_price ≡ true))))
unfolding sorted_buys sorted_sells
sorted_sides-IsRanked book =
    let (buys, sells) = sorted_buys-sorted_sells-IsSorted book in
    (
      IsSorted-IsRanked buy_before IsBetterBuy better_buy _ buys,
      IsSorted-IsRanked sell_before IsBetterSell better_sell _ sells,
      λ e.
          listed ((0 < e.remaining_kwh) × (is_some e.max_price ≡ true)) buy_before is_valid_buy
            book.buys (λ h. both_valid _ _ h) (λ h. valid_of _ _ h),
      λ e.
          listed ((0 < e.remaining_kwh) × (is_some e.min_price ≡ true)) sell_before is_valid_sell
            book.sells (λ h. both_valid _ _ h) (λ h. valid_of _ _ h),
    )
