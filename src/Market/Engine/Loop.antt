-- ===== src/Market/Engine/Loop.antt =====
-- The proof rule of the matching loops (backend/app/domain/policies/market_matching.py).
use urja_setu.Base.{
  ◌≡◌, refl, ◌≢◌, ◌⊎◌, inl, inr, Option, none, some, List, [], ◌∷◌, All, leb, Bool-cases,
}
use urja_setu.Market.Book.{OrderBookEntry, ProposedTrade}
use urja_setu.Market.Engine.{
  MatchState, remaining, Attempt, skip, crash, deal, propose, commit, match_sells, match_buy,
  match_buys,
}
use urja_setu.Market.Engine.Pairing.{propose-ne-crash}

pub Attempt-cases : (a : Attempt) → a ≢ crash → (a ≡ skip) ⊎ ((t : ProposedTrade) × (a ≡ deal t))
Attempt-cases skip h = inl refl
Attempt-cases crash h = absurd (h refl)
Attempt-cases (deal t) h = inr (t, refl)

-- The loop returned a state, and the property holds of it.
abbrev pub Ends : (MatchState → Type 0) → Option MatchState → Type 0
Ends P none = ⊥
Ends P (some st) = P st

pub Ends-map :
    (P Q : MatchState → Type 0) (o : Option MatchState)
    → ((st : MatchState) → P st → Q st)
    → Ends P o
    → Ends Q o
Ends-map P Q none f h = h
Ends-map P Q (some st) f h = f st h

pub Ends-bind :
    (P Q : MatchState → Type 0) (o : Option MatchState) (f : MatchState → Option MatchState)
    → ((st : MatchState) → P st → Ends Q (f st))
    → Ends P o
    → Ends Q (elim o [ none ↦ none | some st ↦ f st ])
Ends-bind P Q none f h k = k
Ends-bind P Q (some st) f h k = h st k

-- `B` and `S` are what is known of the orders of either side.
module _ (B S : OrderBookEntry → Type 0) (P : MatchState → Type 0)
    (keep : (buy sell : OrderBookEntry) (st : MatchState) (t : ProposedTrade)
      → B buy
      → S sell
      → propose buy sell st ≡ deal t
      → P st
      → P (commit t st)) where
  match_sells-Ends :
      (buy : OrderBookEntry) (sells : List OrderBookEntry) (st : MatchState)
      → B buy
      → All S sells
      → P st
      → Ends P (match_sells buy sells st)
  unfolding match_sells
  match_sells-Ends buy [] st b s p = p
  match_sells-Ends buy (sell ∷ sells) st b s p =
      elim (Attempt-cases (propose buy sell st) (propose-ne-crash buy sell st)) [
        | inl skipped ↦ rw (skipped, Ends) (match_sells-Ends buy sells st b s.1 p)
        | inr (t, dealt) ↦
            let p' : P (commit t st) = keep buy sell st t b s.0 dealt p in
            rw (dealt, Ends)
              (elim (Bool-cases (leb (remaining buy.order_id (commit t st).rem_buys) 0)) [
                | inl done ↦ rw (done, Ends) p'
                | inr more ↦ rw (more, Ends) (match_sells-Ends buy sells (commit t st) b s.1 p')
              ])
      ]

  match_buy-Ends :
      (sells : List OrderBookEntry) (buy : OrderBookEntry) (st : MatchState)
      → B buy
      → All S sells
      → P st
      → Ends P (match_buy sells buy st)
  unfolding match_buy
  match_buy-Ends sells buy st b s p =
      elim (Bool-cases (leb (remaining buy.order_id st.rem_buys) 0)) [
        | inl done ↦ rw (done, Ends) p
        | inr more ↦ rw (more, Ends) (match_sells-Ends buy sells st b s p)
      ]

  pub match_buys-Ends :
      (sells buys : List OrderBookEntry) (st : MatchState)
      → All B buys
      → All S sells
      → P st
      → Ends P (match_buys sells buys st)
  unfolding match_buys
  match_buys-Ends sells [] st b s p = p
  match_buys-Ends sells (buy ∷ buys) st b s p =
      Ends-bind P P (match_buy sells buy st) (match_buys sells buys)
        (λ st' p'. match_buys-Ends sells buys st' b.1 s p') (match_buy-Ends sells buy st b.0 s p)
