-- ===== src/Risk/ClusterTracker/Preview.antt =====
-- When a signal is admitted, and with how much of the cluster's budget.
use bobis_quote_mt5_trading.Prelude.{
  ℕ, ◌<◌, ◌≡◌, ◌↔◌, ◌∙◌, ◌⊎◌, true, false, some, none, arith, ◌==◌, Eq_string, Eq_nat, Option,
  if◌then◌else◌,
}
use bobis_quote_mt5_trading.Prelude.Dict.{lookup-insert}
use bobis_quote_mt5_trading.Prelude.Floats.{Floats, IsOrdered, sub, le}
use bobis_quote_mt5_trading.Risk.ClusterTracker.{
  ClusterGroupConfig, ClusterTracker, ClusterState, used_r, concurrent, base_multiplier,
  planned_risk, preview_state, state_for, store_state, on_group, preview_of, plain_approval,
}

module _ {F : Type 0} ⦃fl : Floats F⦄ (g : ClusterGroupConfig F) (st : ClusterState F) where
  -- What admits a signal: fewer losses today and fewer pending and open trades than the group allows,
  -- and a planned risk of at least the group's minimum.
  pub record IsAdmitted : Type 0 where
    pub losses : st.loss_count < g.max_same_day_losses
    pub positions : concurrent st < g.max_concurrent_positions
    pub budget : le g.min_trade_risk_multiplier (planned_risk g st) ≡ true

  -- A signal is admitted exactly with fewer losses today and fewer pending and open trades than the group
  -- allows, and with a planned risk of at least the group's minimum.
  pub preview_state-approved : ((preview_state g st).approved ≡ true) ↔ IsAdmitted
  unfolding preview_state
  preview_state-approved = (λ h. ground arith, λ a. ground arith)

  -- An admitted signal is sized with the planned risk, which is at most the full size, or the size after
  -- a loss where the day has one, and at most what the day's budget has left.
  pub planned_risk_bounds :
      IsOrdered F
      → (preview_state g st).approved ≡ true
      → ((preview_state g st).risk_multiplier ≡ planned_risk g st)
        × ((preview_state g st).planned_risk_r ≡ planned_risk g st)
        × (le (planned_risk g st) (base_multiplier g st) ≡ true)
        × (le (planned_risk g st) (sub g.max_same_day_loss_r (used_r st)) ≡ true)
  unfolding preview_state planned_risk
  planned_risk_bounds o h =
      let rest = sub g.max_same_day_loss_r (used_r st) in
      ground (
        arith,
        o.le_refl rest,
        o.le_refl (base_multiplier g st),
        o.le_total rest (base_multiplier g st),
      )

module _ {F : Type 0} ⦃fl : Floats F⦄ where
  -- Of the tracker's day: a state is the group's stored state of today, or a fresh one.
  pub day-state_for :
      (now : ℕ) (g : ClusterGroupConfig F) (s : ClusterTracker F)
      → (state_for now g s).day ≡ s.date now
  unfolding state_for
  day-state_for now g s = ground (arith, Eq_nat.beq_iff)

  state_for-store_state :
      (now : ℕ) (g h : ClusterGroupConfig F) (st : ClusterState F) (s : ClusterTracker F)
      → st.day ≡ s.date now
      → state_for now h (store_state g st s) ≡ (if g.name == h.name then st else state_for now h s)
  unfolding state_for store_state
  state_for-store_state now g h st s today =
      ground (
        arith,
        lookup-insert g.name h.name st s.states,
        (Eq_nat.beq_iff st.day (s.date now)).1 today,
      )

  -- A method that acts on a group changes that group's state of today by its step, and no state of a
  -- group with another name.
  pub state_for-on_group :
      (now : ℕ) (g h : ClusterGroupConfig F) (f : ClusterState F → ClusterState F)
      (s : ClusterTracker F)
      → s.config.enabled ≡ true
      → ((f (state_for now g s)).day ≡ (state_for now g s).day)
      → state_for now h (on_group now (some g) f s)
        ≡ (if g.name == h.name then f (state_for now g s) else state_for now h s)
  unfolding on_group
  state_for-on_group now g h f s on keep =
      simp on
        (state_for-store_state now g h (f (state_for now g s)) s (keep ∙ day-state_for now g s))

  -- Off, or for a symbol of no group, a preview approves at full size and a method changes nothing.
  pub on_group_unmatched :
      (now : ℕ) (g : Option (ClusterGroupConfig F)) (f : ClusterState F → ClusterState F)
      (s : ClusterTracker F)
      → (s.config.enabled ≡ false) ⊎ (g ≡ none)
      → (on_group now g f s ≡ s) × (preview_of now g s ≡ plain_approval)
  unfolding on_group preview_of
  on_group_unmatched now g f s h = ground arith
