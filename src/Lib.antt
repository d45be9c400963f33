-- ===== src/Lib.antt =====
-- UrjaSetu, the backend of a peer-to-peer energy market, and what is proved of its core.
--
-- The program takes buy and sell orders into a market session, closes it, and clears it with a
-- matching engine; the trades that result are priced for the state of the grid and settled against
-- metered delivery. Each of these steps hands plain values to an engine or a calculator and checks
-- the answer before it writes anything. The model follows that shape: the engines are functions, the
-- checks are functions that return or raise, and the services are transactions on a record of rows.
--
-- Files and the code that they model:
--   Base/*                     what the parts share: lists, dictionaries, Python's sorted, tables of
--                              rows, results that return or raise, integers, and Decimal with its
--                              28-digit context, rounding half to even, and quantize half up.
--   Market/Vocabulary, Book    backend/app/domain/enums.py and domain/interfaces/market.py: the
--                              statuses, the order book, the proposed trades and the result.
--   Market/Price               backend/app/domain/policies/clearing_price.py.
--   Market/Engine              backend/app/domain/policies/market_matching.py: match_orders is match;
--                              match_buys and match_sells are its two loops, propose and commit
--                              the inner body, MatchState the two running dicts and the trades.
--     Pairing, Loop, Fills       one pairing, the rule of the loops, the bookkeeping of the dicts.
--     Outcome, Limits, Exhaustion, Holdings, Clearing, Priority
--                                what is proved of match.
--   Market/Boundary            _validate_result of backend/app/services/market_service.py; Parts,
--                              Soundness, Completeness and Engine are what is proved of it.
--   Market/Store               the rows of backend/app/db/models/market.py and the queries of
--                              backend/app/repositories/market.py.
--   Market/Service             backend/app/services/market_service.py: open_session, close_session,
--                              place_order, cancel_order, build_order_book.
--     Clearing                   clear_session and what it calls.
--     Invariant, Projection, Filling, Safety, Baseline, Exactness, Bookkeeping, Lifecycle, Finality
--                                what is proved of the service.
--   Settlement/Contract        backend/app/domain/interfaces/settlement.py.
--   Settlement/Policy, Calculator
--                              backend/app/domain/policies/settlement.py: reconcile, and
--                              settle_request, which is StandardSettlementCalculator.settle.
--   Settlement/Store           the rows of backend/app/db/models/settlement.py and what is read of
--                              a trade, an order and a forecast.
--   Settlement/Service         backend/app/services/settlement_service.py: reconcile_trade and
--                              settle_trade.
--     Reconciling, Accounting, Ledger, Outcomes (beside it)
--                                what is proved of the rules and of the service.
--   Pricing/Contract, Policy, Engine
--                              backend/app/domain/interfaces/pricing.py and
--                              domain/policies/dynamic_pricing.py: quote is
--                              ComponentPricingEngine.quote.
--   Pricing/Check              _validate_result of backend/app/services/pricing_service.py.
--   Pricing/Store, Assembly, Service
--                              backend/app/db/models/pricing.py, repositories/pricing.py, and the rest
--                              of the service: build_request and what it reads, quote, quote_trade,
--                              price_trade and get_breakdown.
--   Pricing/Charges, Quoting, Standard, Caution, Breakdowns, Applying, Refusals
--                              what is proved of a quote, of the standard engine on stored trades, and
--                              of the stored breakdowns.
--   Grid/Contract, Policy      backend/app/domain/interfaces/grid.py, domain/policies/grid_limits.py.
--   Grid/Service               backend/app/services/grid_validation_service.py: validate_scenario and
--                              cross_check; judged_run and failed_run are _record.
--   Grid/Network               build_network of the same service.
--   Grid/Trades                the rest of the service, with backend/app/repositories/grid.py and
--                              db/models/grid.py: validate_trade, record_snapshot and the queries.
--   Grid/Judging, Outcomes, Registry, Limits, Twin, Transfer
--                              what is proved of a judgement, the records, the limits, the network and
--                              the judgement of a trade.
--   Audit/Value, Text, Canonical, Json
--                              backend/app/domain/policies/audit_chain.py: canonicalise and
--                              canonical_json, with what they take from Python: the order of texts,
--                              format, isoformat, str and json.dumps. Json/Reading is a reader that
--                              the program does not have, to say what a text stands for.
--   Audit/Chain                the rest of that file, and backend/app/domain/interfaces/audit.py.
--   Audit/Service              backend/app/services/audit_service.py, repositories/audit.py and
--                              db/models/audit.py: record_event is record.
--   Audit/Canonical/Order, Idempotence, Json/Texts, RoundTrip, Chain/Verifying, Evidence, Version,
--   Audit/Members, Chronology, Recording, Anchoring, Ties
--                              what is proved of canonical forms, of chains and of the log.
--   Telemetry/Contract, Quality
--                              backend/app/domain/interfaces/telemetry.py, db/models/telemetry.py and
--                              domain/policies/telemetry_quality.py.
--   Telemetry/Outcome, Staged, Service, Queries
--                              backend/app/services/telemetry_service.py and
--                              repositories/telemetry.py: ingest_reading and ingest_batch; Staged is
--                              the dictionaries of a batch.
--   Telemetry/Series, Stages, Staging, Loop, Context, Batch, Storing, Gaps
--                              what is proved of ingestion; ingest_each, in Loop, is the reference.
--   Identity/Vocabulary, Eligibility
--                              the enums, and backend/app/domain/policies/eligibility.py.
--   Identity/Store, Service, Registration
--                              backend/app/db/models/identity.py and assets.py, their repositories,
--                              services/identity_service.py and services/asset_service.py.
--   Identity/Evidence, Holdings, Sellers
--                              what is proved of eligibility.
--   Forecast/Contract, Surplus backend/app/domain/interfaces/forecasting.py and
--                              domain/policies/surplus.py.
--   Forecast/Store, Checks, History, Service
--                              backend/app/db/models/forecasting.py, repositories/forecasting.py and
--                              services/forecast_service.py.
--   Forecast/Horizon, Placing, Running, Stuck
--                              what is proved of runs.
--   Trading, Trading/Selling   the market over identity and forecasts: the directory that
--                              market_service.py asks, and what is proved of sell orders.
--   Trading/Paying             settlement over pricing: PricingServicePriceResolver of
--                              backend/app/services/settlement_service.py, and what is proved of it.
--   */Tests                    runs on concrete input.
--
-- Conventions:
--   Identifiers are natural numbers, as the code only compares and orders them; that of a new row
--   is drawn from a counter, where the program draws a random one. Where a breakdown of a price
--   is picked among those of one time by its random identifier, the rank of the identifier is a
--   field of its own, drawn from any function. Times are microseconds; a call reads the clock
--   once. Energy and prices are counted in ten-thousandths and money in hundredths, the precision
--   of their columns; a quantity that a column check keeps from being negative is a natural
--   number, and what an engine or a calculator returns is an integer, so that amounts finer than
--   their column, and their rounding when they are stored, are not represented. What the pricing
--   rules compute by subtraction carries its sign. A raised exception is an error of the
--   component's own type, or none where nothing tells the exceptions apart.
--   A transaction returns the rows that it commits; one that raises returns the rows from before,
--   save for what the code keeps: the notice that a clearing has begun, the run of a grid engine
--   or of a forecast provider that failed, and the reconciliation of a settlement that is refused
--   for want of measurement.
--   An e-mail address, the reference of a meter and the name of a provider are numbers, as they
--   are only compared. A measurement keeps the value that it is reported with; the width of its
--   column is checked, and so are the widths and the constraints of the tables of breakdowns,
--   reconciliations and settlements, the order of the times of a market session, and the widths
--   of an engine's names. The durations of forecast intervals are whole seconds. Columns that are
--   only shown are left out.
--   The texts of reasons and messages are left out, or are the branch that writes them.
--   Loops are recursions on the lists they walk. Fuel stands where the decimal digits of a number
--   are counted or written, and the number itself is the fuel, as each digit takes at least one
--   off it; and in the reader of JSON, which is given as much as the value needs.
--
-- Parameters of the model:
--   The matching engine, the grid engine, the pricing engine, the settlement calculator, the
--   provider of forecasts and the sources of prices and of measured energy are arguments of the
--   services, as they are in the code, and may return anything. The hash of the audit chain,
--   SHA-256 in the program, is a function on texts; one theorem supposes that no two texts have
--   one hash.
--   The directory that the market asks for sites, eligibility and forecast surplus is a record of
--   functions, which Trading fills.
--
-- Not modelled:
--   The HTTP and WebSocket layer, schemas and migrations, the frontend and the contracts; the
--   workspace, authentication and the assistant; the floating-point simulations and the adapters
--   of solvers, of meters and of the ledger; the resampling of telemetry, which averages in the
--   database; the hash of the inputs of a grid validation, which nothing in the service reads;
--   queries that only list rows; constraints of the database that no operation relies on, such as
--   the uniqueness of a pair and its window among the trades. Of rows that a query orders by time
--   alone and that are of one time, the model takes the one that stands first, where the database
--   is free to choose. The widths of the numbers of orders and trades and of the columns of a
--   grid run, and the reference of a run to its snapshot, are taken to be in order. The audit
--   events that the market, pricing, settlement and grid services append inside their
--   transactions are taken to be accepted by the log; Audit says when it accepts one. The
--   exception of quantize on a result of more than 28 digits is modelled where prices and
--   settlements are computed; elsewhere it is left out, as what is rounded there is no longer than
--   its column.
pub mod Audit
pub mod Base
pub mod Forecast
pub mod Grid
pub mod Identity
pub mod Market
pub mod Pricing
pub mod Settlement
pub mod Telemetry
pub mod Trading
