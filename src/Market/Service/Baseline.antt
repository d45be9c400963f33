-- ===== src/Market/Service/Baseline.antt =====
-- Clearing with the baseline engine: `clear_session` of backend/app/services/market_service.py.
use urja_setu.Base.{
  ℕ, Bool, Bool-cases, true, false, ◌&&◌, ltb, inl, inr, some-injective, Option-cases, ◌≡◌, refl,
  sym, ap, ◌∙◌, Option, some, List, arith, subst, All, All-map, All-In, In, In-All, ok, get_or,
}
use urja_setu.Base.Rows.{find_row-In, find_row-update_row}
use urja_setu.Base.Unique.{All-of-map}
use urja_setu.Market.Vocabulary.{closed, cleared, can_clear}
use urja_setu.Market.Book.{
  OrderBookEntry, is_empty_book, MatchingRequest, MatchingResult, ProposedTrade,
}
use urja_setu.Market.Store.{MarketSession, Order, Market, find_session, list_active_for_session}
use urja_setu.Market.Engine.{match_orders, result_of, match_buys, sorted_sells, sorted_buys, start}
use urja_setu.Market.Engine.Outcome.{match_orders-IsMatched}
use urja_setu.Market.Boundary.Soundness.{IsAccepted, validate_result_sound}
use urja_setu.Market.Boundary.Engine.{match_orders-validate_result}
use urja_setu.Market.Service.{
  book_of, active_entries, build_order_book, get_session, to_entry, is_before,
}
use urja_setu.Market.Service.Clearing.{
  MatchingEngine, is_clearing_refused, clear_book, clear_session, record_clearing, announce,
  may_clear, kept, clear_checked,
}
use urja_setu.Market.Service.Invariant.{IsMarket}
use urja_setu.Market.Service.Projection.{
  All-book_of, active_entries-HasUnique, book_of-IsBook, book_of-IsSided,
}
use urja_setu.Market.Service.Safety.{announce-IsMarket}
use urja_setu.Market.Service.Filling.{IsActiveId, apply_fills-returns}
use Prim.Native.String.{String, len}

abbrev pub baseline_engine : String → String → MatchingEngine
baseline_engine name version = record { name = name; match = match_orders name version }

-- An accepted trade names active orders.
accepted-IsActiveId :
    (s : MarketSession) (id : ℕ) (m : Market) (trades : List ProposedTrade)
    → All (IsAccepted (book_of s (active_entries id m))) trades
    → All
        (λ (t : ProposedTrade).
          IsActiveId (list_active_for_session id m.orders) t.buy_order_id
          × IsActiveId (list_active_for_session id m.orders) t.sell_order_id)
        trades
unfolding to_entry
accepted-IsActiveId s id m trades accepted =
    let active = list_active_for_session id m.orders in
    let book = book_of s (active_entries id m) in
    let P : OrderBookEntry → Type 0 = λ e. IsActiveId active e.order_id in
    let entries : All P (active_entries id m) = All-of-map to_entry P active (
      All-map (λ o. In o active) (λ o. P (to_entry o)) active
        (λ o inside. record { order = o; listed = inside; named = refl }) (In-All active)) in
    let all = All-book_of P s (active_entries id m) entries in
    All-map (IsAccepted book) _ trades
      (λ t a.
        (rw a.buyer_id (All-In P all a.buyer_known), rw a.seller_id (All-In P all a.seller_known)))
      accepted

may_clear-closed :
    (id : ℕ) (m : Market) {s : MarketSession}
    → find_session id m.sessions ≡ some s
    → s.status ≡ closed
    → may_clear id m ≡ ok s
unfolding may_clear get_session can_clear
may_clear-closed id m {s} found is_closed = ground arith

and_false : (b : Bool) → (b && false) ≡ false
and_false true = refl
and_false false = refl

module _ (name version : String) where
  match_orders-named :
      (request : MatchingRequest) {r : MatchingResult}
      → match_orders name version request ≡ some r
      → (r.engine ≡ name) × (r.engine_version ≡ version)
  unfolding match_orders result_of
  match_orders-named request {r} h = elim (Bool-cases (is_empty_book request.order_book)) [
    | inl empty ↦
        let same = some-injective (rw empty at h) in
        (
          sym (ap (λ (x : MatchingResult). x.engine) same),
          sym (ap (λ (x : MatchingResult). x.engine_version) same),
        )
    | inr filled ↦
        let run =
          match_buys (sorted_sells request.order_book) (sorted_buys request.order_book)
            (start request.order_book) in
        elim (Option-cases run) [
          | inl failed ↦ absurd (let e = rw (filled, failed) at h in cc)
          | inr (st, done) ↦
              let same = some-injective (rw (filled, done) at h) in
              (
                sym (ap (λ (x : MatchingResult). x.engine) same),
                sym (ap (λ (x : MatchingResult). x.engine_version) same),
              )
        ]
  ]

  clear_book-returns :
      (s : MarketSession) (cleared_at now : ℕ) (m : Market)
      → IsMarket m
      → find_session s.id m.sessions ≡ some s
      → is_before cleared_at s.closed_at ≡ false
      → ltb 64 (len name) ≡ false
      → ltb 64 (len version) ≡ false
      → (r : MatchingResult) × (orders : List Order) × (clear_book
            (baseline_engine name version)
            s
            cleared_at
            now
            m
          ≡ ok (record_clearing s cleared_at now r orders m))
  unfolding clear_book build_order_book get_session is_clearing_refused
  clear_book-returns s cleared_at now m h found in_time short_name short_version =
      let book = book_of s (active_entries s.id m) in
      let b =
        book_of-IsBook s (active_entries s.id m) (active_entries-HasUnique s.id m h.order_ids) in
      let request : MatchingRequest = record { order_book = book; cleared_at = cleared_at } in
      let (r, matched, _) = match_orders-IsMatched name version request in
      let valid =
        match_orders-validate_result name version request b
          (book_of-IsSided s (active_entries s.id m)) matched in
      let (accepted, _) = validate_result_sound r book valid in
      let (orders, applied) =
        apply_fills-returns (list_active_for_session s.id m.orders) r.trades m.orders
          (accepted-IsActiveId s s.id m r.trades accepted) in
      let (own_name, own_version) = match_orders-named request matched in
      let fits : is_clearing_refused s cleared_at r ≡ false =
        rw (in_time, own_name, own_version, short_name, short_version) (and_false _) in
      (r, orders, rw (found, matched, valid, applied, fits) refl)

  -- In a market that is in order, clearing a closed session with the baseline engine never raises,
  -- and the session is cleared, if the time of the clearing is no earlier than that of the closing
  -- and the name and the version of the engine have at most 64 characters.
  pub clear_session-succeeds :
      (id : ℕ) (at : Option ℕ) (now : ℕ) (m : Market) {s : MarketSession}
      → IsMarket m
      → find_session id m.sessions ≡ some s
      → s.status ≡ closed
      → is_before (get_or at now) s.closed_at ≡ false
      → ltb 64 (len name) ≡ false
      → ltb 64 (len version) ≡ false
      → (m' : Market) × (clear_session (baseline_engine name version) id at now m ≡ (m', ok tt))
        × (find_session id m'.sessions
            ≡ some (record s { status = cleared; cleared_at = some (get_or at now) }))
  unfolding clear_session clear_checked kept
  clear_session-succeeds id at now m {s} h found is_closed in_time short_name short_version =
      let (key, _) = find_row-In (λ (x : MarketSession). x.id) id m.sessions found in
      let own : find_session s.id m.sessions ≡ some s =
        subst (λ k. find_session k m.sessions ≡ some s) (sym key) found in
      let engine = baseline_engine name version in
      let m1 = announce engine s m in
      let h1 : IsMarket m1 = announce-IsMarket engine s m h in
      let (r, orders, done) =
        clear_book-returns s (get_or at now) now m1 h1 own in_time short_name short_version in
      let after : MarketSession = record s {
        status = cleared;
        cleared_at = some (get_or at now);
      } in
      let written : find_session s.id (record_clearing s (get_or at now) now r orders m1).sessions
          ≡ some after =
        find_row-update_row (λ (x : MarketSession). x.id) s.id (λ _. after) m.sessions (λ _ _. refl)
          own in
      (
        record_clearing s (get_or at now) now r orders m1,
        ap (clear_checked engine at now m) (may_clear-closed id m found is_closed)
            ∙ ap (kept m1) done,
        subst
            (λ k.
              find_session k (record_clearing s (get_or at now) now r orders m1).sessions
              ≡ some after)
            key written,
      )
