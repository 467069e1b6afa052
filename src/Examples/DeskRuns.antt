-- ===== src/Examples/DeskRuns.antt =====
-- Orders with retries, and the manager's handlers, at the sample broker.
use bobis_quote_mt5_trading.Prelude.{inl, inr, refl, String, some, [], ◌∷◌, Eq_string, Eq_nat}
use bobis_quote_mt5_trading.Prelude.Dict.{lookup}
use bobis_quote_mt5_trading.Prelude.Floats.{num, decimal}
use bobis_quote_mt5_trading.Infra.Metrics.{Metrics}
use bobis_quote_mt5_trading.Execution.Orders.Stops.{IsBounded}
use bobis_quote_mt5_trading.Execution.Orders.Market.{execute_market_order}
use bobis_quote_mt5_trading.Execution.Orders.Attempts.{IsSettled, execute_market_order-IsBounded}
use bobis_quote_mt5_trading.Execution.Orders.Limit.{execute_limit_order}
use bobis_quote_mt5_trading.Execution.Orders.LimitAttempts.{execute_limit_order-IsBounded}
use bobis_quote_mt5_trading.Positions.Store.{get}
use bobis_quote_mt5_trading.Positions.Manager.{is_stub}
use bobis_quote_mt5_trading.Positions.Manager.Breakeven.{valid_breakeven_sl}
use bobis_quote_mt5_trading.Positions.Manager.Closing.{handle_position_gone}
use bobis_quote_mt5_trading.Positions.Manager.Once.{Gone, handle_position_gone-Closes}
use bobis_quote_mt5_trading.Positions.Manager.Protection.{Guards, valid_breakeven_sl-Guards}
use bobis_quote_mt5_trading.Positions.Manager.Tp1.{
  partial_close, move_stop, handle_tp1_price_reached,
}
use bobis_quote_mt5_trading.Positions.Manager.Marking.{
  IsPart, IsTaken, Marked, handle_tp1_price_reached-Marked,
}
use bobis_quote_mt5_trading.Positions.Pending.{position_by_ticket}
use bobis_quote_mt5_trading.Positions.Store.Keys.{Keeps}
use bobis_quote_mt5_trading.Positions.Manager.Poll.{follow_all}
use bobis_quote_mt5_trading.Positions.Manager.Kept.{follow_all-Keeps}
use bobis_quote_mt5_trading.Examples.Fixed.{Fixed, floats, floats-IsOrdered}
use bobis_quote_mt5_trading.Examples.Samples.{plan, trade, second_trade, symbol_info}
use bobis_quote_mt5_trading.Examples.Desk.{exec_config, desk, manager_state, position}

abbrev counters : Metrics Fixed String
counters = record { counters = []; gauges = []; rejections = [] }

execute_market_order-IsBounded_example :
    IsBounded plan symbol_info 4
      (execute_market_order desk exec_config plan symbol_info 0 counters).1.requests
    × IsSettled exec_config plan
        (execute_market_order desk exec_config plan symbol_info 0 counters).0
        (execute_market_order desk exec_config plan symbol_info 0 counters).1.closes
execute_market_order-IsBounded_example =
    execute_market_order-IsBounded desk exec_config plan symbol_info floats-IsOrdered 0 counters

execute_limit_order-IsBounded_example :
    IsBounded plan symbol_info 5
      (execute_limit_order desk exec_config plan symbol_info 3600 0 counters).1.requests
execute_limit_order-IsBounded_example =
    execute_limit_order-IsBounded desk exec_config plan symbol_info 3600 floats-IsOrdered 0 counters

handle_position_gone-Closes_example :
    Gone 9 trade trade manager_state 77
      (is_stub trade)
      (desk.deal_info manager_state.broker 77)
      (handle_position_gone desk.deal_info 9 trade 77 manager_state)
unfolding get lookup
handle_position_gone-Closes_example =
    handle_position_gone-Closes desk.deal_info 9 trade 77 manager_state trade refl refl refl

valid_breakeven_sl-Guards_example :
    Guards trade symbol_info
      (record { bid = decimal 12 1; ask = decimal 1201 3 })
      (num 1)
      (num 20)
      (some (num 1))
      (valid_breakeven_sl trade symbol_info
        (record { bid = decimal 12 1; ask = decimal 1201 3 })
        (num 1)
        (num 20))
valid_breakeven_sl-Guards_example =
    valid_breakeven_sl-Guards trade symbol_info
      (record { bid = decimal 12 1; ask = decimal 1201 3 }) (num 1) (num 20) floats-IsOrdered

handle_tp1_price_reached-Marked_example :
    Marked desk exec_config 9 trade trade
      (partial_close desk exec_config 9 trade 77 manager_state).0
      (move_stop desk exec_config 9 trade 77
        (partial_close desk exec_config 9 trade 77 manager_state).0
        (partial_close desk exec_config 9 trade 77 manager_state).1).0
      manager_state
      (handle_tp1_price_reached desk exec_config 9 trade 77 manager_state)
    × IsPart desk trade 77 manager_state.broker
        (partial_close desk exec_config 9 trade 77 manager_state).0.close_price
    × IsTaken desk trade 77
        (partial_close desk exec_config 9 trade 77 manager_state).1.broker
        (move_stop desk exec_config 9 trade 77
          (partial_close desk exec_config 9 trade 77 manager_state).0
          (partial_close desk exec_config 9 trade 77 manager_state).1).0
unfolding get lookup
handle_tp1_price_reached-Marked_example =
    handle_tp1_price_reached-Marked desk exec_config 9 trade trade 77 manager_state refl

follow_all-Keeps_example :
    Keeps "t-0"
      (follow_all desk exec_config 9
        (position ∷ [])
        (trade ∷ second_trade ∷ [])
        manager_state).1.positions
unfolding lookup position_by_ticket
follow_all-Keeps_example =
    follow_all-Keeps desk exec_config 9 "t-0" (position ∷ []) (trade ∷ second_trade ∷ [])
      manager_state (inr (77, (refl, (position, refl))), (inl refl, tt)) ((refl, tt), (trade, refl))
