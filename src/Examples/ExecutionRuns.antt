-- ===== src/Examples/ExecutionRuns.antt =====
-- A whole execution at the sample broker.
use bobis_quote_mt5_trading.Prelude.{ℕ, String, Bool, true, Option, none, some, [], ◌∷◌}
use bobis_quote_mt5_trading.Prelude.Floats.{num}
use bobis_quote_mt5_trading.Risk.Rules.All.{all_rules}
use bobis_quote_mt5_trading.Execution.Engine.{EngineState, Times}
use bobis_quote_mt5_trading.Execution.Engine.Run.{EnginePorts, execute}
use bobis_quote_mt5_trading.Execution.Engine.Balance.{IsBalanced, execute-IsBalanced}
use bobis_quote_mt5_trading.Domain.Signal.{InboundSignal}
use bobis_quote_mt5_trading.Domain.Position.{AccountInfo}
use bobis_quote_mt5_trading.Execution.Planner.{plan}
use bobis_quote_mt5_trading.Examples.Fixed.{Fixed, floats}
use bobis_quote_mt5_trading.Examples.Samples.{signal, config, risk_state, tracker}
use bobis_quote_mt5_trading.Examples.Desk.{exec_config, desk}

abbrev no_quote : String → Bool → (entry stop : Fixed) → Option Fixed
no_quote symbol is_buy entry stop = none

abbrev keys : InboundSignal Fixed → Option String × Option String
keys s = (some "EURUSD", some "240/15")

abbrev account : AccountInfo Fixed
account = record { balance = num 1000; equity = num 1000 }

abbrev ports : EnginePorts Fixed
ports = record {
  plan_of = λ s a i m. plan config exec_config tracker no_quote keys 1000 s a i m;
  save = λ t. true;
  copies = λ t. true;
  uuid = λ n. "t-9";
}

abbrev times : Times
times = record { started = 1000; sent = 1001; filled = 1002; opened = 1003 }

abbrev engine : EngineState Fixed ℕ
engine = record {
  risk = risk_state;
  daily_loss_pct = num 1;
  positions = [];
  pending = ("GBPUSD", 1) ∷ [];
  pending_signal_ids = "sig-7" ∷ [];
  resting = [];
  broker = 0;
  saved = [];
  events = [];
}

execute-IsBalanced_example :
    IsBalanced engine (execute desk exec_config ports times signal all_rules config 240 engine).1
execute-IsBalanced_example =
    execute-IsBalanced desk exec_config ports times signal all_rules config 240 engine
