-- ===== src/Market/Service/Lifecycle.antt =====
-- The market as a state machine: the operations as steps, the markets that they reach, and the
-- one-way life of a session.
use urja_setu.Base.{ℕ, get_or, ◌≡◌, not, Option, [], is_some, ok, raise_if-eq-ok, >>=-eq-ok, subst}
use urja_setu.Market.Vocabulary.{MarketType}
use urja_setu.Market.Store.{MarketSession, Order, Market, get_for_date}
use urja_setu.Market.Service.{
  Directory, OrderRequest, open_session, close_session, place_order, cancel_order, get_session,
  is_opened, is_before,
}
use urja_setu.Market.Service.Clearing.{MatchingEngine, clear_session}
use urja_setu.Market.Service.Invariant.{
  IsMarket, open_session-IsMarket, close_session-IsMarket, place_order-IsMarket,
  cancel_order-IsMarket, snd_of_ok,
}
use urja_setu.Market.Service.Safety.{clear_session-IsMarket}
use urja_setu.Market.Service.Bookkeeping.{
  IsBooked, le_drawn, place_order-IsBooked, cancel_order-IsBooked, clear_session-IsBooked,
}

-- One call of the service that returns, or a clearing, which may raise.
pub data Step (m m' : Market) : Type 0 where
  opens :
      (market_date : ℕ) (market_type : MarketType) (at : Option ℕ) (now : ℕ) (s : MarketSession)
      → open_session market_date market_type at now m ≡ ok (s, m')
      → Step m m'
  closes :
      (id : ℕ) (at : Option ℕ) (now : ℕ) (s : MarketSession)
      → close_session id at now m ≡ ok (s, m')
      → Step m m'
  places :
      (dir : Directory) (r : OrderRequest) (now : ℕ) (o : Order)
      → place_order dir r now m ≡ ok (o, m')
      → Step m m'
  cancels : (id : ℕ) (o : Order) → cancel_order id m ≡ ok (o, m') → Step m m'
  clears :
      (engine : MatchingEngine) (id : ℕ) (at : Option ℕ) (now : ℕ)
      → (clear_session engine id at now m).0 ≡ m'
      → Step m m'

abbrev pub empty_market : Market
empty_market = record {
  sessions = [];
  orders = [];
  trades = [];
  events = [];
  notices = [];
  next_id = 0;
}

pub data Reachable : Market → Type 0 where
  begin : Reachable empty_market
  step : {m m' : Market} → Reachable m → Step m m' → Reachable m'

open_session-IsBooked :
    (market_date : ℕ) (market_type : MarketType) (at : Option ℕ) (now : ℕ) (m : Market)
    {s : MarketSession} {m' : Market}
    → IsBooked m
    → open_session market_date market_type at now m ≡ ok (s, m')
    → IsBooked m'
unfolding open_session
open_session-IsBooked market_date market_type at now m h e =
    let (free, wrote) =
      raise_if-eq-ok (is_some (get_for_date market_date market_type m.sessions)) _ _ e in
    subst IsBooked (snd_of_ok wrote)
      (record { matched = h.matched; drawn = le_drawn m.next_id 1 m.trades h.drawn })

close_session-IsBooked :
    (id : ℕ) (at : Option ℕ) (now : ℕ) (m : Market) {s : MarketSession} {m' : Market}
    → IsBooked m
    → close_session id at now m ≡ ok (s, m')
    → IsBooked m'
unfolding close_session
close_session-IsBooked id at now m h e =
    let (s, found, rest) = >>=-eq-ok (get_session id m) _ e in
    let (guard, rest) = raise_if-eq-ok (not (is_opened s.status)) _ _ rest in
    let (_, wrote) = raise_if-eq-ok (is_before (get_or at now) s.opened_at) _ _ rest in
    subst IsBooked (snd_of_ok wrote) (record { matched = h.matched; drawn = h.drawn })

Step-keeps : {m m' : Market} → Step m m' → IsMarket m × IsBooked m → IsMarket m' × IsBooked m'
Step-keeps {m = m} (opens d t at now s e) h =
    (open_session-IsMarket d t at now m h.0 e, open_session-IsBooked d t at now m h.1 e)
Step-keeps {m = m} (closes id at now s e) h =
    (close_session-IsMarket id at now m h.0 e, close_session-IsBooked id at now m h.1 e)
Step-keeps {m = m} (places dir r now o e) h =
    (place_order-IsMarket dir r now m h.0 e, place_order-IsBooked dir r now m h.1 e)
Step-keeps {m = m} (cancels id o e) h =
    (cancel_order-IsMarket id m h.0 e, cancel_order-IsBooked id m h.0 h.1 e)
Step-keeps {m = m} (clears engine id at now e) h =
    subst (λ x. IsMarket x × IsBooked x) e
      (
        clear_session-IsMarket engine id at now m h.0,
        clear_session-IsBooked engine id at now m h.0 h.1,
      )

-- In every market that the service can reach from the empty one, by any calls in any order and
-- with any engines, no order is matched beyond its energy, its status tells how far it is filled,
-- no identifier stands twice, and what is matched of each order is what the recorded trades take
-- from it.
pub Reachable-IsMarket : {m : Market} → Reachable m → IsMarket m × IsBooked m
Reachable-IsMarket begin = (
  record {
    orders = tt;
    order_ids = tt;
    order_ids_drawn = tt;
    session_ids = tt;
    session_ids_drawn = tt;
  },
  record { matched = tt; drawn = tt },
)
Reachable-IsMarket (step r s) = Step-keeps s (Reachable-IsMarket r)
