-- ===== src/Brokers/Mt5/Positions/Backed.antt =====
-- What the report of a closed position rests on.
use bobis_quote_mt5_trading.Prelude.{
  ℕ, nat_eq, nat_eq_iff, arith, String, true, ◌≡◌, refl, ◌⊎◌, inl, inr, if_holds, Option, none,
  some, List, [], ◌∷◌,
}
use bobis_quote_mt5_trading.Prelude.Floats.{Floats, num, sub}
use bobis_quote_mt5_trading.Brokers.{Fetched, found, missing, raised}
use bobis_quote_mt5_trading.Brokers.Mt5.{
  Terminal, Session, Mt5Config, Deal, DealReason, reason_sl, reason_tp, reason_other, DealEntry,
  entry_in, entry_out, entry_inout, entry_out_by, connection_error, Result, ok, err, after_holds,
  Call,
}
use bobis_quote_mt5_trading.Brokers.Mt5.Client.{ensure_connected, disconnect}
use bobis_quote_mt5_trading.Brokers.Mt5.Client.Recovery.{IsSettled, ensure_connected-IsSettled}
use bobis_quote_mt5_trading.Brokers.Mt5.Positions.{
  deals_of, closes, find_deal, info_of, reason_text, is_out,
}
use bobis_quote_mt5_trading.Brokers.Mt5.Positions.History.{
  history_attempt, last_attempt, or_again, history_deals_get, or_default, found_or, search_windows,
  get_deal_info_for_ticket,
}

module _ {F : Type 0} where
  abbrev pub Among : Deal F → List (Deal F) → Type 0
  Among x [] = ⊥
  Among x (y ∷ ys) = (x ≡ y) ⊎ Among x ys

-- What the code says of the reason of a deal: that of a stop or of a target, and nothing of others.
abbrev pub IsReason : DealReason → Option String → Type 0
IsReason reason_sl text = text ≡ some "SL"
IsReason reason_tp text = text ≡ some "TP"
IsReason reason_other text = text ≡ none

reason_text-IsReason : (reason : DealReason) → IsReason reason (reason_text reason)
unfolding reason_text
reason_text-IsReason reason_sl = refl
reason_text-IsReason reason_tp = refl
reason_text-IsReason reason_other = refl

is_out-entry_out : (entry : DealEntry) → is_out entry ≡ true → entry ≡ entry_out
unfolding is_out
is_out-entry_out entry_in h = cc
is_out-entry_out entry_out h = refl
is_out-entry_out entry_inout h = cc
is_out-entry_out entry_out_by h = cc

module _ {F : Type 0} ⦃fl : Floats F⦄ where
  -- A deal that takes the position of a ticket out of the market.
  abbrev pub IsExit : ℕ → Deal F → Type 0
  IsExit ticket d = (d.position_id ≡ ticket) × (d.entry ≡ entry_out)

  closes-IsExit : (ticket : ℕ) (d : Deal F) → closes ticket d ≡ true → IsExit ticket d
  unfolding closes
  closes-IsExit ticket d h =
      let parts : (nat_eq d.position_id ticket ≡ true) × (is_out d.entry ≡ true) =
        ground (arith, h) in
      ((nat_eq_iff d.position_id ticket).0 parts.0, is_out-entry_out d.entry parts.1)

  abbrev Finds : ℕ → List (Deal F) → Option (Deal F) → Type 0
  Finds ticket deals none = Unit
  Finds ticket deals (some d) = Among d deals × IsExit ticket d

  Finds-skip :
      (ticket : ℕ) (e : Deal F) (deals : List (Deal F)) (answer : Option (Deal F))
      → Finds ticket deals answer
      → Finds ticket (e ∷ deals) answer
  Finds-skip ticket e deals none h = tt
  Finds-skip ticket e deals (some d) h = (inr h.0, h.1)

  find_deal-Finds :
      (ticket : ℕ) (deals : List (Deal F)) → Finds ticket deals (find_deal ticket deals)
  unfolding find_deal
  find_deal-Finds ticket [] = tt
  find_deal-Finds ticket (d ∷ deals) =
      if_holds (Finds ticket (d ∷ deals)) (closes ticket d) (some d) (find_deal ticket deals)
        (λ e. (inl refl, closes-IsExit ticket d e))
        (λ _. Finds-skip ticket d deals _ (find_deal-Finds ticket deals))

module _ {F T : Type 0} ⦃fl : Floats F⦄ (api : Terminal F T) where
  -- A report of how a ticket ended: price and reason of a deal that the history gave, which has the
  -- ticket for its position and goes out of the market.
  abbrev pub IsReport : (ticket : ℕ) → F × Option String → Type 0
  IsReport ticket report =
      (t : T) × (since : F) × (until : F) × (deals : List (Deal F)) × (d : Deal F)
      × ((api.history_deals_get since until t).0 ≡ found deals)
      × Among d deals
      × IsExit ticket d
      × (report.0 ≡ d.price)
      × IsReason d.reason report.1

module _ {F R T : Type 0} ⦃fl : Floats F⦄ (api : Terminal F T) (config : Mt5Config) where
  -- Deals that the terminal's history gave for the window, in some state.
  abbrev pub IsHistory : (since until : F) → Result (List (Deal F)) × Session F R T → Type 0
  IsHistory since until (ok deals, s) =
      (t : T) × ((api.history_deals_get since until t).0 ≡ found deals)
  IsHistory since until (err e, s) = Unit

  abbrev IsAttempt : (since until : F) → Result (Option (List (Deal F))) × Session F R T → Type 0
  IsAttempt since until (ok none, s) = Unit
  IsAttempt since until (ok (some deals), s) =
      (t : T) × ((api.history_deals_get since until t).0 ≡ found deals)
  IsAttempt since until (err e, s) = Unit

  deals_of-IsAttempt :
      (since until : F) (t : T) (answer : Fetched (List (Deal F))) (s : Session F R T)
      → (api.history_deals_get since until t).0 ≡ answer
      → IsAttempt since until (ok (deals_of answer), s)
  unfolding deals_of
  deals_of-IsAttempt since until t (found deals) s h = (t, h)
  deals_of-IsAttempt since until t missing s h = tt
  deals_of-IsAttempt since until t raised s h = tt

  history_attempt-IsAttempt :
      (since until : F) (s : Session F R T)
      → IsAttempt since until (history_attempt api config since until s)
  unfolding history_attempt
  history_attempt-IsAttempt since until s =
      after_holds (λ _. Unit {0}) (IsAttempt since until) (ensure_connected api config s) _ tt
        (λ _ s' _. deals_of-IsAttempt since until s'.terminal _ _ refl) (λ e s' _. tt)

  last_attempt-IsHistory :
      (since until : F) (answer : Option (List (Deal F))) (s : Session F R T)
      → IsAttempt since until (ok answer, s)
      → IsHistory since until (last_attempt api config answer s)
  unfolding last_attempt
  last_attempt-IsHistory since until none s h = tt
  last_attempt-IsHistory since until (some deals) s h = h

  or_again-IsHistory :
      (since until : F) (answer : Option (List (Deal F))) (s : Session F R T)
      → IsAttempt since until (ok answer, s)
      → IsHistory since until (or_again api config since until answer s)
  unfolding or_again
  or_again-IsHistory since until (some deals) s h = h
  or_again-IsHistory since until none s h =
      after_holds (λ _. Unit {0}) (IsHistory since until) (disconnect api config s) _ tt
        (λ _ s' _.
          after_holds (IsAttempt since until) (IsHistory since until)
            (history_attempt api config since until s') _ (history_attempt-IsAttempt since until s')
            (last_attempt-IsHistory since until) (λ e s2 _. tt))
        (λ e s' _. tt)

  history_deals_get-IsHistory :
      (since until : F) (s : Session F R T)
      → IsHistory since until (history_deals_get api config since until s)
  unfolding history_deals_get
  history_deals_get-IsHistory since until s =
      after_holds (IsAttempt since until) (IsHistory since until)
        (history_attempt api config since until s) _ (history_attempt-IsAttempt since until s)
        (or_again-IsHistory since until) (λ e s' _. tt)

  abbrev pub IsBacked : (ticket : ℕ) → Result (Option (F × Option String)) × Session F R T → Type 0
  IsBacked ticket (ok none, s) = Unit
  IsBacked ticket (ok (some report), s) = IsReport api ticket report
  IsBacked ticket (err e, s) = e ≡ connection_error

  -- The same of a search, before its exceptions are caught.
  abbrev IsSearch : (ticket : ℕ) → Result (Option (F × Option String)) × Session F R T → Type 0
  IsSearch ticket (ok none, s) = Unit
  IsSearch ticket (ok (some report), s) = IsReport api ticket report
  IsSearch ticket (err e, s) = Unit

  found_or-IsSearch :
      (ticket : ℕ) (next : Call (Session F R T) (Option (F × Option String))) (t : T)
      (since until : F) (deals : List (Deal F)) (answer : Option (Deal F)) (s : Session F R T)
      → (api.history_deals_get since until t).0 ≡ found deals
      → Finds ticket deals answer
      → IsSearch ticket (next s)
      → IsSearch ticket (found_or api config next answer s)
  unfolding found_or info_of
  found_or-IsSearch ticket next t since until deals none s h k n = n
  found_or-IsSearch ticket next t since until deals (some d) s h k n =
      (t, since, until, deals, d, h, k.0, k.1, refl, reason_text-IsReason d.reason)

  search_windows-IsSearch :
      (ticket : ℕ) (until : F) (windows : List ℕ) (s : Session F R T)
      → IsSearch ticket (search_windows api config ticket until windows s)
  unfolding search_windows
  search_windows-IsSearch ticket until [] s = tt
  search_windows-IsSearch ticket until (window ∷ windows) s =
      after_holds (IsHistory (sub until (num window)) until) (IsSearch ticket)
        (history_deals_get api config (sub until (num window)) until s) _
        (history_deals_get-IsHistory _ until s)
        (λ deals s' h.
          found_or-IsSearch ticket _ h.0 _ until deals _ s' h.1 (find_deal-Finds ticket deals)
            (search_windows-IsSearch ticket until windows s'))
        (λ e s' _. tt)

  or_default-IsBacked :
      (ticket : ℕ) (r : Result (Option (F × Option String)) × Session F R T)
      → IsSearch ticket r
      → IsBacked ticket (or_default api config none r)
  unfolding or_default
  or_default-IsBacked ticket (ok none, s) h = tt
  or_default-IsBacked ticket (ok (some report), s) h = h
  or_default-IsBacked ticket (err e, s) h = tt

  -- Where get_deal_info_for_ticket reports a price and a reason, they are those of a deal that the
  -- terminal's history gave, of the ticket's position and with DEAL_ENTRY_OUT: "SL" for a stop, "TP" for a
  -- target and no reason else; the only exception that it raises is that of a connection that cannot be
  -- made.
  pub get_deal_info_for_ticket-IsBacked :
      (ticket : ℕ) (s : Session F R T)
      → IsBacked ticket (get_deal_info_for_ticket api config ticket s)
  unfolding get_deal_info_for_ticket
  get_deal_info_for_ticket-IsBacked ticket s =
      after_holds (IsSettled api config) (IsBacked ticket) (ensure_connected api config s) _
        (ensure_connected-IsSettled api config s)
        (λ _ s' _. or_default-IsBacked ticket _ (search_windows-IsSearch ticket _ _ s'))
        (λ e s' h. h.0)
