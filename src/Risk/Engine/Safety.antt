-- ===== src/Risk/Engine/Safety.antt =====
-- What an approval by the engine's standard rules guarantees.
use bobis_quote_mt5_trading.Prelude.{
  refl, Eq_string, ◌<◌, ◌≡◌, ◌⊎◌, ap, String, ◌∙◌, true, false, none, some, List, [], ◌∷◌, arith,
  All, Option-cases, inl, inr,
}
use bobis_quote_mt5_trading.Prelude.Dict.{Dict}
use bobis_quote_mt5_trading.Prelude.Floats.{Floats, le, lt}
use bobis_quote_mt5_trading.Domain.Position.{SymbolInfo}
use bobis_quote_mt5_trading.Domain.Signal.{InboundSignal, SignalDirection, long, short}
use bobis_quote_mt5_trading.Domain.Trade.{
  Trade, OrderSide, buy, sell, TradeStatus, planned, opened, partially_closed,
}
use bobis_quote_mt5_trading.Risk.LossTracker.{LossTracker, is_paused, slots}
use bobis_quote_mt5_trading.Risk.ClusterTracker
use bobis_quote_mt5_trading.Risk.ClusterTracker.{ClusterTracker, or_text}
use bobis_quote_mt5_trading.Risk.Rules.{Value, RuleContext, RiskState, Rule}
use bobis_quote_mt5_trading.Risk.Rules.Memory.{
  is_conflict, is_duplicate, is_live, same_side, opposite, side_of, loss_guard_rule,
  cluster_risk_rule,
}
use bobis_quote_mt5_trading.Risk.Rules.All.{all_rules}
use bobis_quote_mt5_trading.Risk.Rules.Verdicts.{
  IsTradable, safety_budget, projected_loss, no_hedging_rule-approved,
  duplicate_signal_rule-approved, max_open_trades_rule-approved, max_symbol_exposure_rule-approved,
  daily_loss_limit_rule-approved, min_rr_rule-approved,
}
use bobis_quote_mt5_trading.Risk.Engine.{RiskDecision, decided, evaluate}
use bobis_quote_mt5_trading.Risk.Engine.Order.{Passes, done, next, evaluate-approved}

-- A trade that is not over.
abbrev pub IsLive : TradeStatus → Type 0
IsLive status = (status ≡ planned) ⊎ ((status ≡ opened) ⊎ (status ≡ partially_closed))

-- The side that a signal is against.
abbrev pub other_side : SignalDirection → OrderSide
other_side long = sell
other_side short = buy

-- A trade that is not over, of the symbol that the signal is resolved to (or names, where it is not
-- resolved), on the other side.
abbrev pub Opposes : {F : Type 0} → InboundSignal F → Trade F → Type 0
Opposes signal t =
    (t.symbol ≡ or_text signal.resolved_symbol signal.symbol)
    × (t.side ≡ other_side signal.direction)
    × IsLive t.status

-- What holds of the context and of the trackers when a signal may be traded.
pub record IsSafe {F : Type 0} ⦃fl : Floats F⦄ (ctx : RuleContext F) (s : RiskState F)
    : Type 0 where
  pub not_paused : (t : LossTracker F) → s.loss_tracker ≡ some t → is_paused ctx.now t ≡ none
  pub admitted :
      (c : ClusterTracker F)
      → s.cluster_tracker ≡ some c
      → (ClusterTracker.preview ctx.now ctx.signal c).0.approved ≡ true
  pub not_hedged :
      (ctx.config.no_hedging ≡ false) ⊎ All (λ t. ¬ Opposes ctx.signal t) ctx.open_trades
  pub not_duplicate :
      All (λ t. t.signal_id ≡ ctx.signal.id → t.signal_id ≡ "unknown") ctx.open_trades
  pub slot_free : ctx.effective_open < slots ctx.config.max_losing_streak
  pub symbol_free : ctx.effective_symbol < ctx.config.max_exposure_per_symbol
  pub loss_below : lt ctx.daily_loss_pct (safety_budget ctx) ≡ true
  pub projected_within : le (projected_loss ctx) (safety_budget ctx) ≡ true
  pub tradable : (si : SymbolInfo F) × (ctx.symbol_info ≡ some si) × IsTradable ctx si

-- A rule approves on the state that it is asked on.
abbrev Approves : {F : Type 0} → RuleContext F → Rule F → Type 0
Approves {F} ctx r = (s : RiskState F) × ((r.run ctx s).0.approved ≡ true)

is_live-IsLive : (status : TradeStatus) → IsLive status → is_live status ≡ true
is_live-IsLive status (inl e) = rw e refl
is_live-IsLive status (inr (inl e)) = rw e refl
is_live-IsLive status (inr (inr e)) = rw e refl

against :
    (dir : SignalDirection) (side : OrderSide)
    → side ≡ other_side dir
    → same_side side (opposite (side_of dir)) ≡ true
against long side e = rw e refl
against short side e = rw e refl

module _ {F : Type 0} where
  Passes-Approves :
      (ctx : RuleContext F) (rules : List (Rule F)) (d e : Dict String (Value F))
      (s t : RiskState F)
      → Passes ctx rules d s e t
      → All (Approves ctx) rules
  Passes-Approves ctx [] d e s t (done p q) = tt
  Passes-Approves ctx (r ∷ rs) d e s t (next ok p) = ((s, ok), Passes-Approves ctx rs _ e _ t p)

module _ {F : Type 0} ⦃fl : Floats F⦄ where
  loss_guard_rule-approved :
      (ctx : RuleContext F) (s : RiskState F)
      → (loss_guard_rule ctx s).0.approved ≡ true
      → (t : LossTracker F) → s.loss_tracker ≡ some t
      → is_paused ctx.now t ≡ none
  unfolding loss_guard_rule
  loss_guard_rule-approved ctx s h t e = elim (Option-cases (is_paused ctx.now t)) [
    | inl q ↦ q
    | inr (x, q) ↦ ground (arith, e, q)
  ]

  loss_guard_rule-keeps : (ctx : RuleContext F) (s : RiskState F) → (loss_guard_rule ctx s).1 ≡ s
  unfolding loss_guard_rule
  loss_guard_rule-keeps ctx s = elim (Option-cases s.loss_tracker) [
    | inl q ↦ ground (arith, q)
    | inr (t, q) ↦ elim (Option-cases (is_paused ctx.now t)) [
      | inl p ↦ ground (arith, q, p)
      | inr (x, p) ↦ ground (arith, q, p)
    ]
  ]

  cluster_risk_rule-approved :
      (ctx : RuleContext F) (s : RiskState F)
      → (cluster_risk_rule ctx s).0.approved ≡ true
      → (c : ClusterTracker F) → s.cluster_tracker ≡ some c
      → (ClusterTracker.preview ctx.now ctx.signal c).0.approved ≡ true
  unfolding cluster_risk_rule
  cluster_risk_rule-approved ctx s h c e = ground (arith, e)

  is_conflict-Opposes :
      (signal : InboundSignal F) (t : Trade F) → is_conflict signal t ≡ false → ¬ Opposes signal t
  unfolding is_conflict
  is_conflict-Opposes signal t h (name, side, live) = ground (
    arith,
    h,
    (Eq_string.beq_iff t.symbol (or_text signal.resolved_symbol signal.symbol)).1 name,
    against signal.direction t.side side,
    is_live-IsLive t.status live,
  )

  not_opposed :
      (signal : InboundSignal F) (ts : List (Trade F))
      → All (λ t. is_conflict signal t ≡ false) ts
      → All (λ t. ¬ Opposes signal t) ts
  not_opposed signal [] h = tt
  not_opposed signal (t ∷ ts) h = (is_conflict-Opposes signal t h.0, not_opposed signal ts h.1)

  not_repeated :
      (signal : InboundSignal F) (ts : List (Trade F))
      → All (λ t. is_duplicate signal t ≡ false) ts
      → All (λ t. t.signal_id ≡ signal.id → t.signal_id ≡ "unknown") ts
  unfolding is_duplicate
  not_repeated signal [] h = tt
  not_repeated signal (t ∷ ts) h = (
    λ e. ground (
      arith,
      h.0,
      e,
      Eq_string.beq_iff t.signal_id signal.id,
      Eq_string.beq_iff t.signal_id "unknown",
    ),
    not_repeated signal ts h.1,
  )

  Passes-IsSafe :
      (ctx : RuleContext F) (e : Dict String (Value F)) (s t : RiskState F)
      → Passes ctx all_rules [] s e t
      → IsSafe ctx s
  unfolding all_rules
  Passes-IsSafe ctx e s t (next unpaused (next admits rest)) =
      let (_, hedged) = Passes-Approves ctx _ _ e _ t rest in
      let (hedge, slotted) = hedged in
      let (slot, exposed) = slotted in
      let (exposure, dups) = exposed in
      let (dup, losses) = dups in
      let (loss, drifts) = losses in
      let same = loss_guard_rule-keeps ctx s in
      let limits = (daily_loss_limit_rule-approved ctx).0 loss.1 in
      record {
        not_paused = loss_guard_rule-approved ctx s unpaused;
        admitted =
            λ c q. cluster_risk_rule-approved ctx _ admits c (ap (λ x. x.cluster_tracker) same ∙ q);
        not_hedged = elim ((no_hedging_rule-approved ctx).0 hedge.1) [
          | inl off ↦ inl off
          | inr all ↦ inr (not_opposed ctx.signal ctx.open_trades all)
        ];
        not_duplicate =
            not_repeated ctx.signal ctx.open_trades ((duplicate_signal_rule-approved ctx).0 dup.1);
        slot_free = (max_open_trades_rule-approved ctx).0 slot.1;
        symbol_free = (max_symbol_exposure_rule-approved ctx).0 exposure.1;
        loss_below = limits.0;
        projected_within = limits.1;
        tradable = min_rr_rule-approved ctx drifts.1.0.1;
      }

  -- A signal that the standard rules approve is safe to trade: no loss pause, the cluster admits it, no
  -- trade of its resolved symbol that is not over on the other side (unless hedging is allowed) and none
  -- of its id (but an unknown one), a free slot overall and on its symbol, the day's loss and the loss
  -- with this trade within the safety budget, a tick with positive prices, and a fill (at the entry of a
  -- limit order, else at the ask or bid of the tick) between stop and target with the reward to risk
  -- that is asked for.
  pub evaluate-IsSafe :
      (ctx : RuleContext F) (s t : RiskState F) (d : RiskDecision F)
      → evaluate all_rules ctx s ≡ (decided d, t)
      → d.approved ≡ true
      → IsSafe ctx s
  evaluate-IsSafe ctx s t d h ok =
      let (e, u, passes, _) = evaluate-approved all_rules ctx s t d h ok in
      Passes-IsSafe ctx e s u passes
