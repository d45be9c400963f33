-- ===== src/Market/Vocabulary.antt =====
-- The market's enumerations (backend/app/domain/enums.py) and their predicates.
use urja_setu.Base.{Bool, true, false, not}

pub data MarketType : Type 0 where
  day_ahead : MarketType

pub data MarketSessionStatus : Type 0 where
  opened closed cleared : MarketSessionStatus

unfoldable pub accepts_orders : MarketSessionStatus → Bool
accepts_orders opened = true
accepts_orders _ = false

unfoldable pub can_clear : MarketSessionStatus → Bool
can_clear closed = true
can_clear _ = false

pub data OrderSide : Type 0 where
  buy sell : OrderSide

abbrev pub opposite : OrderSide → OrderSide
opposite buy = sell
opposite sell = buy

abbrev pub is_buy : OrderSide → Bool
is_buy buy = true
is_buy sell = false

abbrev pub is_sell : OrderSide → Bool
is_sell s = not (is_buy s)

pub data OrderStatus : Type 0 where
  open_order partially_filled filled cancelled rejected : OrderStatus

abbrev pub is_active : OrderStatus → Bool
is_active open_order = true
is_active partially_filled = true
is_active _ = false

pub data TradeStatus : Type 0 where
  proposed committed declined settled : TradeStatus
