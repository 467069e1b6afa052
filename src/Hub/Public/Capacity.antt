-- ===== src/Hub/Public/Capacity.antt =====
-- How many dashboards there are.
use bobis_quote_mt5_trading.Prelude.{
  ℕ, ◌+◌, ◌≤◌, ◌<◌, String, Bool, Eq, Eq_string, List, [], ◌∷◌, length, keep, arith,
}
use bobis_quote_mt5_trading.Hub.State.{HubState}
use bobis_quote_mt5_trading.Hub.Public.{discard, add, discard_all, join, broadcast}

-- What happens to the set of dashboards.
pub data Change (W C V L : Type 0) : Type 0 where
  joins : (token : String) (client : W) (hub : HubState C V L) → Change W C V L
  leaves : (client : W) → Change W C V L
  ends : (fails : W → Bool) (reached : List W) → Change W C V L

module _ {W : Type 0} ⦃eq : Eq W⦄ where
  length-discard : (w : W) (xs : List W) → length (discard w xs) ≤ length xs
  unfolding discard
  length-discard w [] = omega arith
  length-discard w (x ∷ xs) = ground (arith, length-discard w xs)

  length-discard_all : (ws xs : List W) → length (discard_all ws xs) ≤ length xs
  unfolding discard_all
  length-discard_all [] xs = omega arith
  length-discard_all (w ∷ ws) xs =
      ground (arith, length-discard_all ws (discard w xs), length-discard w xs)

  length-add : (w : W) (xs : List W) → length (add w xs) ≤ length xs + 1
  unfolding add
  length-add w [] = omega arith
  length-add w (x ∷ xs) = ground (arith, length-add w xs)

  length-join :
      {C V L : Type 0}
      → (secret : String) (max_clients : ℕ) (token : String) (w : W) (hub : HubState C V L)
        (clients : List W)
      → 0 < max_clients
      → length clients ≤ max_clients
      → length (join secret max_clients token w hub clients).1 ≤ max_clients
  unfolding join
  length-join secret max_clients token w hub clients positive h =
      ground (arith, length-add w clients, positive, h)

module _ {W C V L : Type 0} ⦃eq : Eq W⦄ where
  abbrev pub change : (secret : String) (max_clients : ℕ) → Change W C V L → List W → List W
  change secret max_clients (joins token client hub) clients =
      (join secret max_clients token client hub clients).1
  change secret max_clients (leaves client) clients = discard client clients
  change secret max_clients (ends fails reached) clients = broadcast fails reached clients

  abbrev pub change_all :
      (secret : String) (max_clients : ℕ) → List (Change W C V L) → List W → List W
  change_all secret max_clients [] clients = clients
  change_all secret max_clients (x ∷ xs) clients =
      change_all secret max_clients xs (change secret max_clients x clients)

  length-change :
      (secret : String) (max_clients : ℕ) (x : Change W C V L) (clients : List W)
      → 0 < max_clients
      → length clients ≤ max_clients
      → length (change secret max_clients x clients) ≤ max_clients
  unfolding broadcast
  length-change secret max_clients (joins token w hub) clients p h =
      length-join secret max_clients token w hub clients p h
  length-change secret max_clients (leaves w) clients p h =
      omega (arith, length-discard w clients, h)
  length-change secret max_clients (ends fails reached) clients p h =
      omega (arith, length-discard_all (keep fails reached) clients, h)

  -- Where there is a limit on the dashboards, joining, leaving and broadcasts, in any order, keep their
  -- number within it.
  pub length-change_all :
      (secret : String) (max_clients : ℕ) (xs : List (Change W C V L)) (clients : List W)
      → 0 < max_clients
      → length clients ≤ max_clients
      → length (change_all secret max_clients xs clients) ≤ max_clients
  length-change_all secret max_clients [] clients p h = h
  length-change_all secret max_clients (x ∷ xs) clients p h =
      length-change_all secret max_clients xs (change secret max_clients x clients) p
        (length-change secret max_clients x clients p h)
