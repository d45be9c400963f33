-- ===== src/Market/Service/Safety.antt =====
-- Clearing with any engine, right or wrong: `clear_session` of
-- backend/app/services/market_service.py.
use urja_setu.Base.{
  ℕ, ◌+◌, ◌≤◌, ◌<◌, ◌≡◌, refl, ap, ◌∙◌, Option, some, List, arith, All, All-map, In, In-All, ok,
  err, Result, All-both, get_or, or_raise, ok-injective, >>=-eq-ok, raise_if-eq-ok, subst,
}
use urja_setu.Base.Int.{pos, ◌≤ℤ◌}
use urja_setu.Market.Vocabulary.{cleared}
use urja_setu.Market.Book.{MatchingResult, ProposedTrade, trade_count}
use urja_setu.Market.Store.{MarketSession, Order, Market, list_active_for_session}
use urja_setu.Market.Engine.Fills as Fills
use urja_setu.Market.Boundary.{
  MatchingEngineError, engine_failed, validate_result, known_entries, known_remaining,
}
use urja_setu.Market.Boundary.Soundness.{IsAccepted, validate_result_sound}
use urja_setu.Market.Service.{MarketError, book_of, active_entries, build_order_book, get_session}
use urja_setu.Market.Service.Clearing.{
  MatchingEngine, or_engine_failed, apply_fills, is_clearing_refused, clear_book, clear_session,
  record_clearing, announce, may_clear, kept, clear_checked,
}
use urja_setu.Market.Service.Invariant.{IsSound, IsMarket, set_session-IsMarket}
use urja_setu.Market.Service.Projection.{known_remaining-le}
use urja_setu.Market.Service.Filling.{HasRoom, apply_fills-IsSound}

or_engine_failed-eq-ok :
    {A : Type 0} (r : Result MatchingEngineError A) {a : A} → or_engine_failed r ≡ ok a → r ≡ ok a
or_engine_failed-eq-ok (ok a) h = ap ok (ok-injective h)
or_engine_failed-eq-ok (err e) h = absurd cc

-- What a clearing has seen when it is recorded.
pub record IsCleared (s : MarketSession) (cleared_at now : ℕ) (m m' : Market) : Type 0 where
  pub page : MarketSession
  pub result : MatchingResult
  pub orders : List Order
  pub valid : validate_result result (book_of page (active_entries s.id m)) ≡ ok tt
  pub applied :
      apply_fills (list_active_for_session s.id m.orders) result.trades m.orders ≡ ok orders
  pub recorded : record_clearing s cleared_at now result orders m ≡ m'

pub clear_book-IsCleared :
    (engine : MatchingEngine) (s : MarketSession) (cleared_at now : ℕ) (m : Market) {m' : Market}
    → clear_book engine s cleared_at now m ≡ ok m'
    → IsCleared s cleared_at now m m'
unfolding clear_book build_order_book
clear_book-IsCleared engine s cleared_at now m e =
    let (book, built, e) = >>=-eq-ok (build_order_book s.id m) _ e in
    let (page, found, made) = >>=-eq-ok (get_session s.id m) _ built in
    let is_book : book_of page (active_entries s.id m) ≡ book = ok-injective made in
    let (r, matched, e) =
      >>=-eq-ok
        (or_engine_failed (
          or_raise (engine.match (record { order_book = book; cleared_at = cleared_at }))
            engine_failed))
        _ e in
    let (_, valid, e) = >>=-eq-ok (or_engine_failed (validate_result r book)) _ e in
    let (orders, applied, e) =
      >>=-eq-ok (apply_fills (list_active_for_session s.id m.orders) r.trades m.orders) _ e in
    let (_, e) = raise_if-eq-ok (is_clearing_refused s cleared_at r) _ _ e in
    record {
      page = page;
      result = r;
      orders = orders;
      valid =
          ap (validate_result r) is_book ∙ or_engine_failed-eq-ok (validate_result r book) valid;
      applied = applied;
      recorded = ok-injective e;
    }

-- The check leaves room for the accepted trades in every order of the market.
accepted-HasRoom :
    (page : MarketSession) (id : ℕ) (m : Market) (trades : List ProposedTrade)
    → IsMarket m
    → ((j : ℕ)
        → Fills.filled j trades
          ≤ known_remaining (known_entries (book_of page (active_entries id m))) j)
    → All (HasRoom (λ j. Fills.filled j trades)) m.orders
accepted-HasRoom page id m trades h within =
    All-map (λ o. IsSound o × In o m.orders) (HasRoom (λ j. Fills.filled j trades)) m.orders
      (λ o p.
        (p.0, omega (arith, p.0.within, within o.id, known_remaining-le page id m h.order_ids p.1)))
      (All-both IsSound (λ o. In o m.orders) m.orders h.orders (In-All m.orders))

IsCleared-IsMarket :
    (s : MarketSession) (cleared_at now : ℕ) (m : Market) {m' : Market}
    → IsMarket m
    → IsCleared s cleared_at now m m'
    → IsMarket m'
IsCleared-IsMarket s cleared_at now m h c =
    let (accepted, within) =
      validate_result_sound c.result (book_of c.page (active_entries s.id m)) c.valid in
    let (sound, ids) =
      apply_fills-IsSound m.next_id (list_active_for_session s.id m.orders) c.result.trades m.orders
        c.applied
        (All-map (IsAccepted (book_of c.page (active_entries s.id m)))
          (λ t. pos 1 ≤ℤ t.quantity_kwh) c.result.trades (λ t a. a.some_energy) accepted)
        (h.order_ids, h.order_ids_drawn)
        (accepted-HasRoom c.page s.id m c.result.trades h within) in
    let sessions =
      set_session-IsMarket m (record s { status = cleared; cleared_at = some cleared_at }) h in
    let n = trade_count c.result in
    subst IsMarket c.recorded (record {
      orders = sound;
      order_ids = ids.0;
      order_ids_drawn =
          All-map (λ (o : Order). o.id < m.next_id) (λ o. o.id < m.next_id + n) c.orders
            (λ o lt. omega arith) ids.1;
      session_ids = sessions.session_ids;
      session_ids_drawn =
          All-map (λ (x : MarketSession). x.id < m.next_id) (λ x. x.id < m.next_id + n) _
            (λ x lt. omega arith) sessions.session_ids_drawn;
    })

pub announce-IsMarket :
    (engine : MatchingEngine) (s : MarketSession) (m : Market)
    → IsMarket m
    → IsMarket (announce engine s m)
announce-IsMarket engine s m h = record {
  orders = h.orders;
  order_ids = h.order_ids;
  order_ids_drawn = h.order_ids_drawn;
  session_ids = h.session_ids;
  session_ids_drawn = h.session_ids_drawn;
}

pub kept-IsMarket :
    {A : Type 0} (P : A → Type 0) (before : A) (r : Result MarketError A)
    → P before
    → ((after : A) → r ≡ ok after → P after)
    → P (kept before r).0
unfolding kept
kept-IsMarket P before (ok after) p f = f after refl
kept-IsMarket P before (err e) p f = p

clear_checked-IsMarket :
    (engine : MatchingEngine) (at : Option ℕ) (now : ℕ) (m : Market)
    (r : Result MarketError MarketSession)
    → IsMarket m
    → IsMarket (clear_checked engine at now m r).0
unfolding clear_checked
clear_checked-IsMarket engine at now m (err e) h = h
clear_checked-IsMarket engine at now m (ok s) h =
    let h' = announce-IsMarket engine s m h in
    kept-IsMarket IsMarket (announce engine s m)
      (clear_book engine s (get_or at now) now (announce engine s m)) h'
      (λ after done.
        IsCleared-IsMarket s (get_or at now) now (announce engine s m) h'
          (clear_book-IsCleared engine s (get_or at now) now (announce engine s m) done))

-- With any engine, whatever it returns and whether or not it raises, clearing keeps the market in
-- order: no order is matched beyond its energy, every active order still has some to match, every
-- filled one has none, and no identifier stands twice.
pub clear_session-IsMarket :
    (engine : MatchingEngine) (id : ℕ) (at : Option ℕ) (now : ℕ) (m : Market)
    → IsMarket m
    → IsMarket (clear_session engine id at now m).0
unfolding clear_session
clear_session-IsMarket engine id at now m h =
    clear_checked-IsMarket engine at now m (may_clear id m) h
