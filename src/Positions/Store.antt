-- ===== src/Positions/Store.antt =====
-- src/positions/store.py. The store is the dict of trades by id. Each method holds the lock from its
-- first to its last line, and the copies that it takes and gives make trades plain values.
pub mod Keys
pub mod Laws
use bobis_quote_mt5_trading.Prelude.{
  ℕ, String, Bool, false, true, ◌||◌, Option, none, some, List, [], ◌∷◌, length, ◌==◌,
  if◌then◌else◌, keep, Eq_string, Eq_nat, Eq_option,
}
use bobis_quote_mt5_trading.Prelude.Dict.{Dict, lookup, insert, remove, values}
use bobis_quote_mt5_trading.Domain.Trade.{Trade, TradeStatus, opened, partially_closed, CloseReason}

abbrev pub Store : Type 0 → Type 0
Store F = Dict String (Trade F)

-- One keyword argument of `update`: a field that some caller writes, and its new value.
pub data Patch (F : Type 0) : Type 0 where
  status : TradeStatus → Patch F
  current_lots stop_loss : F → Patch F
  tp1_hit tp2_hit sl_hit : Bool → Patch F
  tp1_hit_at tp2_hit_at sl_hit_at closed_at : Option ℕ → Patch F
  tp1_close_price close_price realized_rr : Option F → Patch F
  close_reason : Option CloseReason → Patch F

abbrev pub is_open : TradeStatus → Bool
is_open opened = true
is_open partially_closed = true
is_open _ = false

module _ {F : Type 0} where
  unfoldable pub set_field : Patch F → Trade F → Trade F
  set_field (status v) t = record t { status = v }
  set_field (current_lots v) t = record t { current_lots = v }
  set_field (stop_loss v) t = record t { stop_loss = v }
  set_field (tp1_hit v) t = record t { tp1_hit = v }
  set_field (tp2_hit v) t = record t { tp2_hit = v }
  set_field (sl_hit v) t = record t { sl_hit = v }
  set_field (tp1_hit_at v) t = record t { tp1_hit_at = v }
  set_field (tp2_hit_at v) t = record t { tp2_hit_at = v }
  set_field (sl_hit_at v) t = record t { sl_hit_at = v }
  set_field (closed_at v) t = record t { closed_at = v }
  set_field (tp1_close_price v) t = record t { tp1_close_price = v }
  set_field (close_price v) t = record t { close_price = v }
  set_field (realized_rr v) t = record t { realized_rr = v }
  set_field (close_reason v) t = record t { close_reason = v }

  unfoldable pub set_fields : List (Patch F) → Trade F → Trade F
  unfolding set_field
  set_fields [] t = t
  set_fields (p ∷ ps) t = set_fields ps (set_field p t)

  unfoldable pub add : Trade F → Store F → Store F
  add trade s = insert trade.id trade s

  -- The loop of `setattr`, and the clock's reading for `updated_at`.
  unfoldable pub patch : ℕ → List (Patch F) → Trade F → Trade F
  unfolding set_fields
  patch now patches t = record (set_fields patches t) { updated_at = now }

  unfoldable pub update : ℕ → String → List (Patch F) → Store F → Option (Trade F) × Store F
  update now trade_id patches s = elim (lookup trade_id s) [
    | none ↦ (none, s)
    | some trade ↦ let trade' = patch now patches trade in (some trade', insert trade_id trade' s)
  ]

  unfoldable pub discard : String → Store F → Store F
  discard trade_id s = remove trade_id s

  unfoldable pub hydrate : List (Trade F) → Store F → Store F
  hydrate [] s = s
  hydrate (t ∷ ts) s = hydrate ts (insert t.id t s)

  unfoldable pub get : String → Store F → Option (Trade F)
  get trade_id s = lookup trade_id s

  unfoldable pub first : (Trade F → Bool) → List (Trade F) → Option (Trade F)
  first p [] = none
  first p (t ∷ ts) = let rest = first p ts in if p t then some t else rest

  unfoldable pub get_by_signal_id : String → Store F → Option (Trade F)
  unfolding first
  get_by_signal_id signal_id s = first (λ t. t.signal_id == signal_id) (values s)

  unfoldable pub get_by_ticket : ℕ → Store F → Option (Trade F)
  unfolding first
  get_by_ticket ticket s = first (λ t. t.entry_ticket == some ticket) (values s)

  unfoldable pub get_open_trades : Store F → List (Trade F)
  get_open_trades s = keep (λ t. is_open t.status) (values s)

  unfoldable pub get_all : Store F → List (Trade F)
  get_all s = values s

  unfoldable pub size : Store F → ℕ
  size s = length s
