-- ===== src/Examples/PendingRuns.antt =====
-- A poll over two resting orders, of which one has been filled.
use bobis_quote_mt5_trading.Prelude.{
  ℕ, ◌+◌, String, true, ◌≡◌, refl, none, some, [], ◌∷◌, inl, Eq_nat,
}
use bobis_quote_mt5_trading.Prelude.Dict.{lookup}
use bobis_quote_mt5_trading.Prelude.Floats.{num, decimal}
use bobis_quote_mt5_trading.Domain.Position.{Position, PendingOrder, PositionSide}
use bobis_quote_mt5_trading.Positions.Pending.{
  PendingOrderRecord, PendingState, PendingPorts, poll, position_by_ticket, still_pending,
}
use bobis_quote_mt5_trading.Positions.Pending.Resolve.{poll-Rests, poll-IsOver}
use bobis_quote_mt5_trading.Examples.Fixed.{Fixed, floats}
use bobis_quote_mt5_trading.Examples.Samples.{plan, trade, cluster_tracker}

abbrev ports : PendingPorts Fixed ℕ
ports = record {
  modify_position = λ b ticket sl tp. (true, b + 1);
  cancel_pending_order = λ b ticket. (true, b + 1);
  copies = λ t. true;
  save = λ t. true;
  uuid = λ ticket. "t-new";
}

abbrev order_record : PendingOrderRecord Fixed
order_record = record { ticket = 5; plan = plan; placed_at = 1; expiry_at = 9000 }

abbrev filled_record : PendingOrderRecord Fixed
filled_record = record { ticket = 6; plan = plan; placed_at = 1; expiry_at = 9000 }

abbrev order : PendingOrder Fixed
order = record {
  ticket = 5;
  symbol = "EURUSD";
  side = PositionSide.buy;
  lots = num 1;
  price = num 1;
  stop_loss = decimal 9 1;
  take_profit = decimal 13 1;
  setup_time = 1;
  expiration = 0;
}

abbrev position : Position Fixed
position = record {
  ticket = 6;
  symbol = "EURUSD";
  side = PositionSide.buy;
  lots = num 1;
  open_price = num 1;
  current_price = num 1;
  stop_loss = decimal 9 1;
  take_profit = decimal 13 1;
  open_time = 900;
}

abbrev state : PendingState Fixed ℕ String
state = record {
  records = (5, order_record) ∷ (6, filled_record) ∷ [];
  positions = ("t-0", trade) ∷ [];
  cluster_tracker = some cluster_tracker;
  metrics = record { counters = []; gauges = []; rejections = [] };
  broker = 0;
  trades_opened = [];
}

poll-Rests_example :
    lookup 5 (poll ports 1000 (some (order ∷ [])) (some (position ∷ [])) state).records
    ≡ some order_record
unfolding lookup position_by_ticket still_pending
poll-Rests_example =
    poll-Rests ports 1000 (order ∷ []) (position ∷ []) state 5 order_record
      ((refl, refl), ((refl, refl), tt)) refl (refl, refl, refl)

poll-IsOver_example :
    lookup 6 (poll ports 1000 (some (order ∷ [])) (some (position ∷ [])) state).records ≡ none
unfolding lookup position_by_ticket
poll-IsOver_example =
    poll-IsOver ports 1000 (order ∷ []) (position ∷ []) state 6 filled_record refl refl
      (inl (position, refl))
