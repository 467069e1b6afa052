-- ===== src/Risk/ClusterTracker.antt =====
-- src/risk/cluster_tracker.py. Each method holds the lock throughout and is one step here; `now` is
-- the instant of the call, of which the engine's time zone gives the date.
pub mod Preview
pub mod Slots
use bobis_quote_mt5_trading.Prelude.{
  ℕ, ◌+◌, String, Bool, true, false, not, ◌&&◌, ◌||◌, Option, none, some, List, [], ◌∷◌, map,
  length, leb, ◌==◌, if◌then◌else◌, Eq_string, Eq_nat,
}
use bobis_quote_mt5_trading.Prelude.Dict.{Dict, lookup, lookup_or, insert, remove, values}
use bobis_quote_mt5_trading.Prelude.Floats.{Floats, num, add, sub, mul, lt, fmin, fabs}
use bobis_quote_mt5_trading.Utils.Symbol.{normalise_symbol}
use bobis_quote_mt5_trading.Domain.Signal.{InboundSignal}
use bobis_quote_mt5_trading.Domain.Trade.{Trade}

-- ClusterGroupConfig and ClusterRiskConfig of src/config/settings.py.
pub record ClusterGroupConfig (F : Type 0) : Type 0 where
  pub name : String
  pub symbols : List String
  pub max_same_day_loss_r : F
  pub max_concurrent_positions : ℕ
  pub max_same_day_losses : ℕ
  pub after_first_loss_risk_multiplier : F
  pub min_trade_risk_multiplier : F

pub record ClusterRiskConfig (F : Type 0) : Type 0 where
  pub enabled : Bool
  pub groups : List (ClusterGroupConfig F)

-- What stats says of a group.
pub record ClusterStats (F : Type 0) : Type 0 where
  pub day : ℕ
  pub pending_r : F
  pub open_r : F
  pub realized_loss_r : F
  pub loss_count : ℕ
  pub pending_count : ℕ
  pub open_count : ℕ

-- The messages of a rejection, with what is formatted into them.
pub data ClusterReason (F : Type 0) : Type 0 where
  approved_reason : ClusterReason F
  losses_today : (name : String) → (losses limit : ℕ) → ClusterReason F
  concurrent_limit : (name : String) → (concurrent limit : ℕ) → ClusterReason F
  budget_exhausted : (name : String) → (used limit remaining : F) → ClusterReason F

pub record ClusterPreview (F : Type 0) : Type 0 where
  pub approved : Bool
  pub reason : ClusterReason F
  pub cluster_name : Option String
  pub risk_multiplier : F
  pub planned_risk_r : F

-- The dict of open trades is `opened`: risk in R by trade id.
pub record ClusterState (F : Type 0) : Type 0 where
  pub day : ℕ
  pub pending : Dict String F
  pub opened : Dict String F
  pub open_signal_map : Dict String String
  pub realized_loss_r : F
  pub loss_count : ℕ

pub record ClusterTracker (F : Type 0) : Type 0 where
  pub config : ClusterRiskConfig F
  pub date : ℕ → ℕ
  pub states : Dict String (ClusterState F)

unfoldable pub contains : String → List String → Bool
contains a [] = false
contains a (x ∷ xs) = x == a || contains a xs

-- resolved or raw
abbrev pub or_text : Option String → String → String
or_text none raw = raw
or_text (some r) raw = if r == "" then raw else r

module _ {F : Type 0} where
  unfoldable pub first_group : String → List (ClusterGroupConfig F) → Option (ClusterGroupConfig F)
  unfolding contains
  first_group symbol [] = none
  first_group symbol (g ∷ gs) =
      let rest = first_group symbol gs in if contains symbol g.symbols then some g else rest

  -- `_match` and `_match_trade`: the first group with the normalised symbol.
  unfoldable pub match_signal : ClusterTracker F → InboundSignal F → Option (ClusterGroupConfig F)
  unfolding first_group
  match_signal s signal =
      first_group (normalise_symbol (or_text signal.resolved_symbol signal.symbol)) s.config.groups

  unfoldable pub match_trade : ClusterTracker F → Trade F → Option (ClusterGroupConfig F)
  unfolding first_group
  match_trade s trade = first_group (normalise_symbol trade.symbol) s.config.groups

module _ {F : Type 0} ⦃fl : Floats F⦄ where
  abbrev pub fresh_state : ℕ → ClusterState F
  fresh_state day = record {
    day = day;
    pending = [];
    opened = [];
    open_signal_map = [];
    realized_loss_r = num 0;
    loss_count = 0;
  }

  abbrev pub current : ℕ → Option (ClusterState F) → ClusterState F
  current today none = fresh_state today
  current today (some st) = if st.day == today then st else fresh_state today

  -- `_state_for` without its write: the group's state of today, or a new one.
  unfoldable pub state_for : ℕ → ClusterGroupConfig F → ClusterTracker F → ClusterState F
  state_for now group s = current (s.date now) (lookup group.name s.states)

  -- The object that `_state_for` returns is the one that it stores: what a method then changes in it
  -- is changed in the dict.
  unfoldable pub store_state :
      ClusterGroupConfig F → ClusterState F → ClusterTracker F → ClusterTracker F
  store_state group st s = record s { states = insert group.name st s.states }

  unfoldable pub used_r : ClusterState F → F
  used_r st = add (add st.realized_loss_r (fl.sum (values st.pending))) (fl.sum (values st.opened))

  abbrev pub concurrent : ClusterState F → ℕ
  concurrent st = length st.pending + length st.opened

  abbrev pub plain_approval : ClusterPreview F
  plain_approval = record {
    approved = true;
    reason = approved_reason;
    cluster_name = none;
    risk_multiplier = num 1;
    planned_risk_r = num 1;
  }

  abbrev refuse : ClusterGroupConfig F → ClusterReason F → ClusterPreview F
  refuse group reason = record {
    approved = false;
    reason = reason;
    cluster_name = some group.name;
    risk_multiplier = num 1;
    planned_risk_r = num 1;
  }

  unfoldable pub base_multiplier : ClusterGroupConfig F → ClusterState F → F
  base_multiplier group st =
      if leb 1 st.loss_count then group.after_first_loss_risk_multiplier else num 1

  unfoldable pub planned_risk : ClusterGroupConfig F → ClusterState F → F
  unfolding base_multiplier
  planned_risk group st =
      fmin (base_multiplier group st) (sub group.max_same_day_loss_r (used_r st))

  unfoldable pub preview_state : ClusterGroupConfig F → ClusterState F → ClusterPreview F
  preview_state group st =
      let planned = planned_risk group st in
      if leb group.max_same_day_losses st.loss_count
      then refuse group (losses_today group.name st.loss_count group.max_same_day_losses)
      else if leb group.max_concurrent_positions (concurrent st)
      then refuse group (concurrent_limit group.name (concurrent st) group.max_concurrent_positions)
      else if lt planned group.min_trade_risk_multiplier
      then refuse group (
          budget_exhausted group.name (used_r st) group.max_same_day_loss_r
            (sub group.max_same_day_loss_r (used_r st)))
      else record {
        approved = true;
        reason = approved_reason;
        cluster_name = some group.name;
        risk_multiplier = planned;
        planned_risk_r = planned;
      }

  -- A method that does nothing unless clusters are enabled and the symbol is in a group.
  unfoldable pub on_group :
      ℕ
      → Option (ClusterGroupConfig F)
      → (ClusterState F → ClusterState F)
      → ClusterTracker F
      → ClusterTracker F
  on_group now none f s = s
  on_group now (some group) f s =
      if not s.config.enabled then s else store_state group (f (state_for now group s)) s

  unfoldable pub preview_of :
      ℕ → Option (ClusterGroupConfig F) → ClusterTracker F → ClusterPreview F
  preview_of now none s = plain_approval
  preview_of now (some group) s =
      if not s.config.enabled then plain_approval else preview_state group (state_for now group s)

  unfoldable pub preview :
      ℕ → InboundSignal F → ClusterTracker F → ClusterPreview F × ClusterTracker F
  preview now signal s =
      let group = match_signal s signal in (preview_of now group s, on_group now group (λ st. st) s)

  unfoldable pub reserve : String → F → ClusterState F → ClusterState F
  reserve signal_id planned_risk_r st = record st {
    pending = insert signal_id planned_risk_r st.pending;
  }

  unfoldable pub reserve_signal : ℕ → InboundSignal F → F → ClusterTracker F → ClusterTracker F
  reserve_signal now signal planned_risk_r s =
      on_group now (match_signal s signal) (reserve signal.id planned_risk_r) s

  unfoldable pub release : String → ClusterState F → ClusterState F
  release signal_id st = record st { pending = remove signal_id st.pending }

  unfoldable pub release_signal : ℕ → InboundSignal F → ClusterTracker F → ClusterTracker F
  release_signal now signal s = on_group now (match_signal s signal) (release signal.id) s

  unfoldable pub open_trade : (trade_id signal_id : String) → ClusterState F → ClusterState F
  open_trade trade_id signal_id st = record st {
    pending = remove signal_id st.pending;
    opened = insert trade_id (lookup_or signal_id (num 1) st.pending) st.opened;
    open_signal_map =
        if signal_id == ""
        then st.open_signal_map
        else insert signal_id trade_id st.open_signal_map;
  }

  unfoldable pub mark_trade_opened : ℕ → Trade F → ClusterTracker F → ClusterTracker F
  mark_trade_opened now trade s =
      on_group now (match_trade s trade) (open_trade trade.id trade.signal_id) s

  abbrev pub or_zero : Option F → F
  or_zero none = num 0
  or_zero (some x) = x

  unfoldable pub book_loss : F → F → ClusterState F → ClusterState F
  book_loss rr risk_r st =
      if lt rr (num 0)
      then record st {
        realized_loss_r = add st.realized_loss_r (mul (fabs rr) risk_r);
        loss_count = st.loss_count + 1;
      }
      else st

  unfoldable pub close_trade : (trade_id signal_id : String) → F → ClusterState F → ClusterState F
  close_trade trade_id signal_id rr st =
      book_loss rr (lookup_or trade_id (num 1) st.opened) (record st {
        opened = remove trade_id st.opened;
        open_signal_map = remove signal_id st.open_signal_map;
      })

  unfoldable pub mark_trade_closed : ℕ → Trade F → ClusterTracker F → ClusterTracker F
  mark_trade_closed now trade s =
      on_group now (match_trade s trade)
        (close_trade trade.id trade.signal_id (or_zero trade.realized_rr)) s

  -- setdefault(trade_id, 1.0)
  unfoldable pub restore : String → ClusterState F → ClusterState F
  restore trade_id st = record st {
    opened = insert trade_id (lookup_or trade_id (num 1) st.opened) st.opened;
  }

  unfoldable pub hydrate_open_trades : ℕ → List (Trade F) → ClusterTracker F → ClusterTracker F
  hydrate_open_trades now [] s = s
  hydrate_open_trades now (t ∷ ts) s =
      hydrate_open_trades now ts (on_group now (match_trade s t) (restore t.id) s)

  abbrev stats_of : ClusterState F → ClusterStats F
  stats_of st = record {
    day = st.day;
    pending_r = fl.round (fl.sum (values st.pending)) 4;
    open_r = fl.round (fl.sum (values st.opened)) 4;
    realized_loss_r = fl.round st.realized_loss_r 4;
    loss_count = st.loss_count;
    pending_count = length st.pending;
    open_count = length st.opened;
  }

  unfoldable pub stats : ClusterTracker F → Dict String (ClusterStats F)
  stats s = map (λ e. (e.0, stats_of e.1)) s.states
