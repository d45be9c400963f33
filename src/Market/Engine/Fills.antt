-- ===== src/Market/Engine/Fills.antt =====
-- How much of an order the trades fill, and the bookkeeping of the two running dicts.
use urja_setu.Base.{
  ℕ, ◌+◌, ◌-◌, ◌≤◌, ◌≡◌, List, [], ◌∷◌, arith, ◌==◌, if◌then◌else◌, All, sum_of, sum_of-append,
}
use urja_setu.Base.Int.{pos_part}
use urja_setu.Base.Dict.{Dict, insert, lookup-insert}
use urja_setu.Market.Book.{OrderBookEntry, ProposedTrade}
use urja_setu.Market.Engine.{MatchState, remaining, remaining_dict, commit}
use urja_setu.Market.Engine.Pairing.{IsCovered}

-- The energy that one trade takes from an order, on either side.
abbrev pub fill : ℕ → ProposedTrade → ℕ
fill id t =
    (if t.buy_order_id == id then pos_part t.quantity_kwh else 0)
    + (if t.sell_order_id == id then pos_part t.quantity_kwh else 0)

-- The energy that the trades together take from an order.
abbrev pub filled : ℕ → List ProposedTrade → ℕ
filled id trades = sum_of (fill id) trades

pub remaining-insert :
    (k j v : ℕ) (d : Dict ℕ) → remaining j (insert k v d) ≡ (if k == j then v else remaining j d)
remaining-insert k j v d = ground (arith, lookup-insert k j v d)

-- Filled so far and left over add up to the same for every order.
abbrev pub IsBalanced : (ℕ → ℕ) → MatchState → Type 0
IsBalanced cap st =
    (id : ℕ) → filled id st.trades + remaining id st.rem_buys + remaining id st.rem_sells ≡ cap id

pub commit-IsBalanced :
    (cap : ℕ → ℕ) (st : MatchState) (t : ProposedTrade)
    → IsCovered t st
    → IsBalanced cap st
    → IsBalanced cap (commit t st)
unfolding commit
commit-IsBalanced cap st t c h id =
    let old = h id in
    let buys =
      remaining-insert t.buy_order_id id
        (remaining t.buy_order_id st.rem_buys - pos_part t.quantity_kwh) st.rem_buys in
    let sells =
      remaining-insert t.sell_order_id id
        (remaining t.sell_order_id st.rem_sells - pos_part t.quantity_kwh) st.rem_sells in
    let sums = sum_of-append (fill id) st.trades (t ∷ []) in ground arith

-- The dict holds no more for an order than any bound on the entries that carry its id.
pub remaining_dict-le :
    (id c : ℕ) (entries : List OrderBookEntry) (d : Dict ℕ)
    → All (λ e. e.order_id ≡ id → e.remaining_kwh ≤ c) entries
    → remaining id d ≤ c
    → remaining id (remaining_dict d entries) ≤ c
unfolding remaining_dict
remaining_dict-le id c [] d h k = k
remaining_dict-le id c (e ∷ entries) d h k =
    remaining_dict-le id c entries (insert e.order_id e.remaining_kwh d) h.1
      (ground (arith, h.0, remaining-insert e.order_id id e.remaining_kwh d))
