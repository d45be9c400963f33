-- ===== src/Market/Service/Finality.antt =====
-- The sessions through the steps of backend/app/services/market_service.py.
use urja_setu.Base.{
  ℕ, Bool, ◌==◌, ◌≡◌, refl, sym, ap, ◌∙◌, ◌≢◌, not, Option, some, is_some, false, ok, err, Result,
  List, [], ◌∷◌, ◌++◌, map, filter, filter-append, append_nil, arith, raise_if-eq-ok,
  or_raise-eq-ok, >>=-eq-ok, subst, get_or,
}
use urja_setu.Base.Rows.{find_row-In, find_row-update_other, find_row-append}
use urja_setu.Market.Vocabulary.{MarketSessionStatus, cleared, can_clear}
use urja_setu.Market.Book.{matched_kwh, trade_count}
use urja_setu.Market.Store.{
  MarketSession, Trade, Market, MarketEvent, market_cleared, find_session, set_session,
  get_for_date,
}
use urja_setu.Market.Service.{
  MarketError, open_session, close_session, place_order, cancel_order, get_session, is_opened,
  is_before, may_place, get_order,
}
use urja_setu.Market.Service.Clearing.{
  MatchingEngine, clear_session, clear_checked, may_clear, clear_book, announce, new_trades,
  trade_event,
}
use urja_setu.Market.Service.Invariant.{snd_of_ok}
use urja_setu.Market.Service.Safety.{clear_book-IsCleared, kept-IsMarket}
use urja_setu.Market.Service.Lifecycle.{Step, opens, closes, places, cancels, clears}

-- The event of a clearing of the session.
abbrev pub is_clearing_of : ℕ → MarketEvent → Bool
is_clearing_of id (market_cleared session_id _ _ _ _ _ _) = session_id == id
is_clearing_of id _ = false

-- The session is in the market as it was, and these are the events of its clearing.
abbrev Has : ℕ → MarketSession → List MarketEvent → Market → Type 0
Has id s past m =
    (find_session id m.sessions ≡ some s) × (filter (is_clearing_of id) m.events ≡ past)

trade_events-filter :
    (id : ℕ) (trades : List Trade) → filter (is_clearing_of id) (map trade_event trades) ≡ []
unfolding filter
trade_events-filter id [] = refl
trade_events-filter id (t ∷ trades) = trade_events-filter id trades

-- What is added to the events are none of a clearing of the session.
filter-added :
    (id : ℕ) (before added past : List MarketEvent)
    → filter (is_clearing_of id) before ≡ past
    → filter (is_clearing_of id) added ≡ []
    → filter (is_clearing_of id) (before ++ added) ≡ past
filter-added id before added past h nothing =
    filter-append (is_clearing_of id) before added
    ∙ (rw nothing (append_nil (filter (is_clearing_of id) before)) ∙ h)

clearable-ne : (status : MarketSessionStatus) → not (can_clear status) ≡ false → status ≢ cleared
unfolding can_clear
clearable-ne status h e =
    let f : not (can_clear cleared) ≡ false = subst (λ x. not (can_clear x) ≡ false) e h in cc

openable-ne : (status : MarketSessionStatus) → not (is_opened status) ≡ false → status ≢ cleared
openable-ne status h e =
    let f : not (is_opened cleared) ≡ false = subst (λ x. not (is_opened x) ≡ false) e h in cc

module _ (id : ℕ) (past : List MarketEvent) {s : MarketSession}
    (is_cleared : s.status ≡ cleared) where
  -- A session of another status is another session.
  apart :
      (m : Market) (j : ℕ) (old : MarketSession)
      → Has id s past m
      → find_session j m.sessions ≡ some old
      → old.status ≢ cleared
      → old.id ≢ id
  apart m j old h found ne e =
      let (key, _) = find_row-In (λ (x : MarketSession). x.id) j m.sessions found in
      let at : id ≡ j = sym e ∙ key in
      let one : find_session id m.sessions ≡ some old =
        subst (λ k. find_session k m.sessions ≡ some old) (sym at) found in
      let found_s = h.0 in
      let eq : s ≡ old = cc in
      let st : s.status ≡ old.status = ap (λ (x : MarketSession). x.status) eq in
      ne (sym st ∙ is_cleared)

  -- A write to a session of another status is one to another session.
  set_other :
      (m : Market) (j : ℕ) (old new : MarketSession)
      → Has id s past m
      → find_session j m.sessions ≡ some old
      → old.status ≢ cleared
      → new.id ≡ old.id
      → find_session id (set_session new m.sessions) ≡ some s
  set_other m j old new h found ne same =
      find_row-update_other (λ (x : MarketSession). x.id) id new.id (λ _. new) m.sessions
        (λ _ _. refl) (λ e. apart m j old h found ne (sym same ∙ sym e))
      ∙ h.0

  clears_other :
      (engine : MatchingEngine) (at : Option ℕ) (now : ℕ) (m : Market) (j : ℕ)
      (r : Result MarketError MarketSession)
      → may_clear j m ≡ r
      → Has id s past m
      → Has id s past (clear_checked engine at now m r).0
  unfolding clear_checked may_clear get_session can_clear filter
  clears_other engine at now m j (err e) checked h = h
  clears_other engine at now m j (ok x) checked h =
      let (x', got, rest) = >>=-eq-ok (get_session j m) _ checked in
      let (guard, rest) = raise_if-eq-ok (not (can_clear x'.status)) _ _ rest in
      let same : x' ≡ x = cc in
      let found : find_session j m.sessions ≡ some x =
        or_raise-eq-ok (find_session j m.sessions) _ (got ∙ ap ok same) in
      let ne : x.status ≢ cleared =
        λ e. clearable-ne x'.status guard (ap (λ (y : MarketSession). y.status) same ∙ e) in
      let m1 = announce engine x m in
      kept-IsMarket (Has id s past) m1 (clear_book engine x (get_or at now) now m1) h (λ after done.
        let c = clear_book-IsCleared engine x (get_or at now) now m1 done in
        let trades = new_trades c.result now m.next_id c.result.trades in
        let fresh : filter (is_clearing_of id) (
              market_cleared x.id x.market_date (trade_count c.result) (matched_kwh c.result)
                c.result.engine c.result.engine_version (get_or at now)
              ∷ map trade_event trades)
            ≡ [] =
          let ne_id = apart m j x h found ne in
          let other : (x.id == id) ≡ false = ground arith in
          rw other (trade_events-filter id trades) in
        subst (Has id s past) c.recorded (
          set_other m1 j x (record x { status = cleared; cleared_at = some (get_or at now) }) h
              found ne refl,
          filter-added id m.events _ past h.1 fresh,
        ))

-- A session that is cleared stays as it is through every operation, and no operation records the
-- event of a clearing of it again: those that there are stay the same.
pub Step-keeps_cleared :
    (id : ℕ) {s : MarketSession} {m m' : Market}
    → s.status ≡ cleared
    → Step m m'
    → find_session id m.sessions ≡ some s
    → (find_session id m'.sessions ≡ some s)
      × (filter (is_clearing_of id) m'.events ≡ filter (is_clearing_of id) m.events)
unfolding open_session close_session place_order cancel_order clear_session get_order get_session
    filter
Step-keeps_cleared id {s} {m} is_cleared (opens d t at now x e) h =
    let (free, wrote) = raise_if-eq-ok (is_some (get_for_date d t m.sessions)) _ _ e in
    subst (Has id s (filter (is_clearing_of id) m.events)) (snd_of_ok wrote)
      (find_row-append (λ (x : MarketSession). x.id) id m.sessions _ h, refl)
Step-keeps_cleared id {s} {m} is_cleared (closes j at now x e) h =
    let past = filter (is_clearing_of id) m.events in
    let (x, found, rest) = >>=-eq-ok (get_session j m) _ e in
    let (guard, rest) = raise_if-eq-ok (not (is_opened x.status)) _ _ rest in
    let (in_time, wrote) = raise_if-eq-ok (is_before (get_or at now) x.opened_at) _ _ rest in
    let here = or_raise-eq-ok (find_session j m.sessions) _ found in
    subst (Has id s past) (snd_of_ok wrote)
      (set_other id past is_cleared m j x _ (h, refl) here (openable-ne x.status guard) refl, refl)
Step-keeps_cleared id {s} {m} is_cleared (places dir r now o e) h =
    let (_, passed, wrote) = >>=-eq-ok (may_place dir r m) _ e in
    let past = filter (is_clearing_of id) m.events in
    subst (Has id s past) (snd_of_ok wrote) (h, filter-added id m.events _ past refl refl)
Step-keeps_cleared id {s} {m} is_cleared (cancels j o e) h =
    let (o, found, rest) = >>=-eq-ok (get_order j m) _ e in
    let (guard, wrote) = raise_if-eq-ok _ _ _ rest in
    subst (Has id s (filter (is_clearing_of id) m.events)) (snd_of_ok wrote) (h, refl)
Step-keeps_cleared id {s} {m} is_cleared (clears engine j at now e) h =
    let past = filter (is_clearing_of id) m.events in
    subst (Has id s past) e
      (clears_other id past is_cleared engine at now m j (may_clear j m) refl (h, refl))
