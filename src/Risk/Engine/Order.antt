-- ===== src/Risk/Engine/Order.antt =====
-- The order in which the engine asks its rules.
use bobis_quote_mt5_trading.Prelude.{
  refl, ◌≡◌, inl, inr, sym, ◌∙◌, String, true, false, List, [], ◌∷◌, ◌++◌, arith, some, Bool-cases,
  Option-cases,
}
use bobis_quote_mt5_trading.Prelude.Dict.{Dict}
use bobis_quote_mt5_trading.Prelude.Floats.{Floats}
use bobis_quote_mt5_trading.Risk.Rules.{Value, RuleContext, RiskState, Rule}
use bobis_quote_mt5_trading.Risk.Engine.{
  RiskDecision, decided, Verdict, failed, passed, run_rules, dict_update, conclude, evaluate,
  compose_multipliers, log_rejection,
}

-- The rules approve in turn: each acts on the state that the one before it left, and its data are
-- written over the data so far.
pub data Passes {F : Type 0} (ctx : RuleContext F)
    : List (Rule F)
      → Dict String (Value F)
      → RiskState F
      → Dict String (Value F)
      → RiskState F
      → Type 0 where
  done : {d e : Dict String (Value F)} {s t : RiskState F} → d ≡ e → s ≡ t → Passes ctx [] d s e t
  next :
      {r : Rule F} {rs : List (Rule F)} {d e : Dict String (Value F)} {s t : RiskState F}
      → (r.run ctx s).0.approved ≡ true
      → Passes ctx rs (dict_update d (r.run ctx s).0.data_of) (r.run ctx s).1 e t
      → Passes ctx (r ∷ rs) d s e t

module _ {F : Type 0} where
  pub run_rules-Passes :
      (ctx : RuleContext F) (before rest : List (Rule F)) (d e : Dict String (Value F))
      (s t : RiskState F)
      → Passes ctx before d s e t
      → run_rules ctx (before ++ rest) d s ≡ run_rules ctx rest e t
  unfolding run_rules
  run_rules-Passes ctx [] rest d e s t (done p q) = simp (p, q)
  run_rules-Passes ctx (r ∷ rs) rest d e s t (next ok p) = simp (
    ok,
    run_rules-Passes ctx rs rest (dict_update d (r.run ctx s).0.data_of) e (r.run ctx s).1 t p,
  )

  run_rules-next :
      (ctx : RuleContext F) (r : Rule F) (rs : List (Rule F)) (d : Dict String (Value F))
      (s : RiskState F)
      → (r.run ctx s).0.approved ≡ true
      → run_rules ctx (r ∷ rs) d s
        ≡ run_rules ctx rs (dict_update d (r.run ctx s).0.data_of) (r.run ctx s).1
  unfolding run_rules
  run_rules-next ctx r rs d s ok = simp ok

  run_rules-stop :
      (ctx : RuleContext F) (r : Rule F) (rs : List (Rule F)) (d : Dict String (Value F))
      (s : RiskState F)
      → (r.run ctx s).0.approved ≡ false
      → run_rules ctx (r ∷ rs) d s ≡ (failed r.name (r.run ctx s).0, (r.run ctx s).1)
  unfolding run_rules
  run_rules-stop ctx r rs d s rejects = simp rejects

  -- A loop that ends without a rejection is one in which the rules approve in turn.
  pub Passes-run_rules :
      (ctx : RuleContext F) (rules : List (Rule F)) (d e : Dict String (Value F))
      (s t : RiskState F)
      → run_rules ctx rules d s ≡ (passed e, t)
      → Passes ctx rules d s e t
  unfolding run_rules
  Passes-run_rules ctx [] d e s t h = done (cc h) (cc h)
  Passes-run_rules ctx (r ∷ rs) d e s t h = elim (Bool-cases (r.run ctx s).0.approved) [
    | inl ok ↦ next ok (
        Passes-run_rules ctx rs (dict_update d (r.run ctx s).0.data_of) e (r.run ctx s).1 t
          (sym (run_rules-next ctx r rs d s ok) ∙ h))
    | inr rejects ↦ let stop = run_rules-stop ctx r rs d s rejects in ground (arith, stop)
  ]

module _ {F : Type 0} ⦃fl : Floats F⦄ where
  -- The first rule that rejects decides: the rules before it have approved, those after it are not asked
  -- and change nothing, and the answer and the record are that rule's.
  pub evaluate-first_rejection :
      (ctx : RuleContext F) (before after : List (Rule F)) (r : Rule F) (d : Dict String (Value F))
      (s t : RiskState F)
      → Passes ctx before [] s d t
      → (r.run ctx t).0.approved ≡ false
      → evaluate (before ++ r ∷ after) ctx s ≡ (
        decided (record { approved = false; reason = (r.run ctx t).0.reason; data_of = [] }),
        record (r.run ctx t).1 {
          metrics = log_rejection ctx r.name (r.run ctx t).0 (r.run ctx t).1.metrics;
        },
      )
  unfolding evaluate conclude run_rules
  evaluate-first_rejection ctx [] after r d s t (done a b) rejects = simp (b, rejects)
  evaluate-first_rejection ctx (q ∷ before) after r d s t p rejects =
      simp (run_rules-Passes ctx (q ∷ before) (r ∷ after) [] d s t p, rejects)

  conclude-approved :
      (ctx : RuleContext F) (v : Verdict F) (u t : RiskState F) (d : RiskDecision F)
      → conclude ctx (v, u) ≡ (decided d, t)
      → d.approved ≡ true
      → (e : Dict String (Value F)) × (v ≡ passed e) × (compose_multipliers e ≡ some d.data_of)
  unfolding conclude
  conclude-approved ctx (failed name result) u t d h ok = ground arith
  conclude-approved ctx (passed e) u t d h ok = elim (Option-cases (compose_multipliers e)) [
    | inl q ↦ ground (arith, q)
    | inr (d', q) ↦ (e, refl, ground (arith, q))
  ]

  -- A signal is approved only where every rule approves it in turn, and the decision's data are what the
  -- rules reported, with the multipliers composed.
  pub evaluate-approved :
      (rules : List (Rule F)) (ctx : RuleContext F) (s t : RiskState F) (d : RiskDecision F)
      → evaluate rules ctx s ≡ (decided d, t)
      → d.approved ≡ true
      → (e : Dict String (Value F)) × (u : RiskState F) × Passes ctx rules [] s e u
        × (compose_multipliers e ≡ some d.data_of)
  unfolding evaluate
  evaluate-approved [] ctx s t d h ok = ground arith
  evaluate-approved (r ∷ rs) ctx s t d h ok =
      let loop = run_rules ctx (r ∷ rs) [] s in
      let (e, is_passed, composed) = conclude-approved ctx loop.0 loop.1 t d h ok in
      (e, loop.1, Passes-run_rules ctx (r ∷ rs) [] e s loop.1 (cc is_passed), composed)
