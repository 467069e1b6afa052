-- ===== src/Risk/Rules/Verdicts.antt =====
-- What each rule's approval means.
use bobis_quote_mt5_trading.Prelude.{
  ◌<◌, Eq_string, subst, ◌≢◌, ◌≡◌, ◌↔◌, ◌⊎◌, inl, inr, refl, Bool, true, false, none, some, List,
  [], ◌∷◌, arith, All, Bool-cases, Option-cases,
}
use bobis_quote_mt5_trading.Prelude.Floats.{Floats, num, decimal, add, mul, div, le, lt}
use bobis_quote_mt5_trading.Utils.Price.{pip_size}
use bobis_quote_mt5_trading.Domain.Signal.{InboundSignal, SignalDirection, long, short}
use bobis_quote_mt5_trading.Domain.Trade.{Trade}
use bobis_quote_mt5_trading.Domain.Position.{SymbolInfo}
use bobis_quote_mt5_trading.Positions.Store.{first}
use bobis_quote_mt5_trading.Risk.LossTracker.{slots}
use bobis_quote_mt5_trading.Risk.Rules.{RuleContext}
use bobis_quote_mt5_trading.Risk.Rules.Memory.{
  is_conflict, no_hedging_rule, max_open_trades_rule, max_symbol_exposure_rule, is_duplicate,
  duplicate_signal_rule, daily_loss_limit_rule,
}
use bobis_quote_mt5_trading.Risk.Rules.Live.{
  resolve_fill_price, actual_reward_risk, Distances, distances, bad, check_rr, rr_on, min_rr_rule,
}

-- The fill lies on the trade's side of the stop and of the target.
abbrev pub IsBetween :
    {F : Type 0} ⦃fl : Floats F⦄ → SignalDirection → (stop_loss fill tp2 : F) → Type 0
IsBetween long stop_loss fill tp2 = (lt stop_loss fill ≡ true) × (lt fill tp2 ≡ true)
IsBetween short stop_loss fill tp2 = (lt fill stop_loss ≡ true) × (lt tp2 fill ≡ true)

module _ {F : Type 0} ⦃fl : Floats F⦄ where
  first-none :
      (p : Trade F → Bool) (ts : List (Trade F)) → (first p ts ≡ none) ↔ All (λ t. p t ≡ false) ts
  unfolding first
  first-none p [] = (λ _. tt, λ _. refl)
  first-none p (t ∷ ts) = elim (Bool-cases (p t)) [
    | inl yes_t ↦ ground (arith, yes_t)
    | inr no_t ↦
        let ih = first-none p ts in
        (λ h. (no_t, ih.0 (ground arith)), λ a. ground (arith, ih.1 a.1))
  ]

  -- No hedging: a signal passes where the rule is off, or no live trade of its symbol is on the other side.
  pub no_hedging_rule-approved :
      (ctx : RuleContext F)
      → ((no_hedging_rule ctx).approved ≡ true)
        ↔ (ctx.config.no_hedging ≡ false)
          ⊎ All (λ t. is_conflict ctx.signal t ≡ false) ctx.open_trades
  unfolding no_hedging_rule
  no_hedging_rule-approved ctx =
      let none_iff = first-none (is_conflict ctx.signal) ctx.open_trades in
      (
        λ h. elim (Bool-cases ctx.config.no_hedging) [
          | inl on ↦ inr (
              none_iff.0 (elim (Option-cases (first (is_conflict ctx.signal) ctx.open_trades)) [
                | inl q ↦ q
                | inr (t, q) ↦ ground (arith, on, q)
              ]))
          | inr off ↦ inl off
        ],
        λ e. elim e [ inl off ↦ ground (arith, off) | inr a ↦ ground (arith, none_iff.1 a) ],
      )

  -- No duplicate: a signal passes exactly where no open trade carries its id.
  pub duplicate_signal_rule-approved :
      (ctx : RuleContext F)
      → ((duplicate_signal_rule ctx).approved ≡ true)
        ↔ All (λ t. is_duplicate ctx.signal t ≡ false) ctx.open_trades
  unfolding duplicate_signal_rule
  duplicate_signal_rule-approved ctx =
      let none_iff = first-none (is_duplicate ctx.signal) ctx.open_trades in
      (
        λ h. none_iff.0 (elim (Option-cases (first (is_duplicate ctx.signal) ctx.open_trades)) [
          | inl q ↦ q
          | inr (t, q) ↦ ground (arith, q)
        ]),
        λ a. ground (arith, none_iff.1 a),
      )

  pub max_open_trades_rule-approved :
      (ctx : RuleContext F)
      → ((max_open_trades_rule ctx).approved ≡ true)
        ↔ (ctx.effective_open < slots ctx.config.max_losing_streak)
  unfolding max_open_trades_rule
  max_open_trades_rule-approved ctx = ground arith

  pub max_symbol_exposure_rule-approved :
      (ctx : RuleContext F)
      → ((max_symbol_exposure_rule ctx).approved ≡ true)
        ↔ (ctx.effective_symbol < ctx.config.max_exposure_per_symbol)
  unfolding max_symbol_exposure_rule
  max_symbol_exposure_rule-approved ctx = ground arith

  -- The budget that the next trade may not exceed: 95 percent of the daily one.
  abbrev pub safety_budget : RuleContext F → F
  safety_budget ctx = mul ctx.config.max_daily_loss_percent (decimal 95 2)

  abbrev pub projected_loss : RuleContext F → F
  projected_loss ctx =
      add ctx.daily_loss_pct
        (div ctx.config.max_daily_loss_percent (num (slots ctx.config.max_losing_streak)))

  pub daily_loss_limit_rule-approved :
      (ctx : RuleContext F)
      → ((daily_loss_limit_rule ctx).approved ≡ true)
        ↔ (lt ctx.daily_loss_pct (safety_budget ctx) ≡ true)
          × (le (projected_loss ctx) (safety_budget ctx) ≡ true)
  unfolding daily_loss_limit_rule
  daily_loss_limit_rule-approved ctx = ground arith

  actual_reward_risk-IsBetween :
      (dir : SignalDirection) (fill stop_loss tp2 pip sl_pips tp_pips : F)
      → actual_reward_risk dir fill stop_loss tp2 pip ≡ distances sl_pips tp_pips
      → IsBetween dir stop_loss fill tp2
  unfolding actual_reward_risk
  actual_reward_risk-IsBetween long fill stop_loss tp2 pip sl_pips tp_pips h = ground arith
  actual_reward_risk-IsBetween short fill stop_loss tp2 pip sl_pips tp_pips h = ground arith

  abbrev pub quoted : SignalDirection → SymbolInfo F → F
  quoted long si = si.ask
  quoted short si = si.bid

  fill_limit :
      (si : SymbolInfo F) (signal : InboundSignal F)
      → signal.entry_type ≡ "limit"
      → resolve_fill_price si signal ≡ signal.entry_price
  unfolding resolve_fill_price
  fill_limit si signal h = ground (arith, Eq_string.beq_iff signal.entry_type "limit", h)

  fill_market :
      (si : SymbolInfo F) (signal : InboundSignal F)
      → signal.entry_type ≢ "limit"
      → resolve_fill_price si signal ≡ quoted signal.direction si
  unfolding resolve_fill_price
  fill_market si signal h = ground (arith, Eq_string.beq_iff signal.entry_type "limit", h)

  -- A tick that can be traded at: positive prices, a fill between the stop and the target, and a ratio of
  -- the distances that reaches the configured one.
  pub record IsTradable (ctx : RuleContext F) (si : SymbolInfo F) : Type 0 where
    pub ask_pos : lt (num 0) si.ask ≡ true
    pub bid_pos : lt (num 0) si.bid ≡ true
    pub sl_pips : F
    pub tp_pips : F
    pub measured :
        actual_reward_risk ctx.signal.direction
          (resolve_fill_price si ctx.signal)
          ctx.signal.stop_loss
          ctx.signal.tp2
          (pip_size si.point si.digits)
        ≡ distances sl_pips tp_pips
    -- the entry of a limit order, and else the ask of a purchase or the bid of a sale
    pub limit_fill :
        ctx.signal.entry_type ≡ "limit"
        → IsBetween ctx.signal.direction ctx.signal.stop_loss ctx.signal.entry_price ctx.signal.tp2
    pub market_fill :
        ctx.signal.entry_type ≢ "limit"
        → IsBetween ctx.signal.direction ctx.signal.stop_loss
            (quoted ctx.signal.direction si)
            ctx.signal.tp2
    pub ratio : le ctx.config.min_rr_ratio (div tp_pips sl_pips) ≡ true

  check_rr-approved :
      (ctx : RuleContext F) (fill : F) (x : Distances F)
      → (check_rr ctx fill x).approved ≡ true
      → (sl : F) × (tp : F) × (x ≡ distances sl tp)
        × (le ctx.config.min_rr_ratio (div tp sl) ≡ true)
  unfolding check_rr
  check_rr-approved ctx fill (bad r) h = ground arith
  check_rr-approved ctx fill (distances sl tp) h = (sl, tp, refl, ground arith)

  rr_on-IsTradable :
      (ctx : RuleContext F) (si : SymbolInfo F)
      → (rr_on ctx si).approved ≡ true
      → lt (num 0) si.ask ≡ true
      → lt (num 0) si.bid ≡ true
      → IsTradable ctx si
  unfolding rr_on
  rr_on-IsTradable ctx si h ask bid =
      let dir = ctx.signal.direction in
      let fill = resolve_fill_price si ctx.signal in
      let pip = pip_size si.point si.digits in
      let found = actual_reward_risk dir fill ctx.signal.stop_loss ctx.signal.tp2 pip in
      let (sl, tp, e, r) = check_rr-approved ctx fill found (ground arith) in
      let lies = λ (x : F). IsBetween dir ctx.signal.stop_loss x ctx.signal.tp2 in
      let between =
        actual_reward_risk-IsBetween dir fill ctx.signal.stop_loss ctx.signal.tp2 pip sl tp e in
      record {
        ask_pos = ask;
        bid_pos = bid;
        sl_pips = sl;
        tp_pips = tp;
        measured = e;
        limit_fill = λ h. subst lies (fill_limit si ctx.signal h) between;
        market_fill = λ h. subst lies (fill_market si ctx.signal h) between;
        ratio = r;
      }

  -- The reward to risk rule passes a signal only on a tick that can be traded at.
  pub min_rr_rule-approved :
      (ctx : RuleContext F)
      → (min_rr_rule ctx).approved ≡ true
      → (si : SymbolInfo F) × (ctx.symbol_info ≡ some si) × IsTradable ctx si
  unfolding min_rr_rule
  min_rr_rule-approved ctx h = elim (Option-cases ctx.symbol_info) [
    | inl q ↦ ground (arith, q)
    | inr (si, q) ↦
        (si, q, rr_on-IsTradable ctx si (ground (arith, q)) (ground (arith, q)) (ground (arith, q)))
  ]
