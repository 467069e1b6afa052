-- ===== src/Hub/Internal/Hello.antt =====
-- Who is let in.
use bobis_quote_mt5_trading.Prelude.{
  String, ◌==◌, Eq_string, Bool-cases, Option-cases, ◌≡◌, ◌≢◌, ◌⊎◌, refl, sym, ◌∙◌, inl, inr, some,
  arith,
}
use bobis_quote_mt5_trading.Prelude.Dict.{Dict}
use bobis_quote_mt5_trading.Utils.Text.{strip}
use bobis_quote_mt5_trading.Hub.State.{Json, text_at}
use bobis_quote_mt5_trading.Hub.Internal.{
  Incoming, lost, broken, not_a_dict, message, accepted, payload_of, check_hello, await_hello,
}

abbrev pub HasToken : (secret token : String) → Type 0
HasToken secret token = (secret ≡ "") ⊎ (token ≡ secret)

check_hello-accepted :
    (secret broker token b : String)
    → check_hello secret broker token ≡ accepted b
    → (broker ≡ b) × (b ≢ "") × HasToken secret token
unfolding check_hello
check_hello-accepted secret broker token b h = ground (
  arith,
  h,
  Eq_string.beq_iff broker "",
  Eq_string.beq_iff secret "",
  Eq_string.beq_iff token secret,
)

module _ {V : Type 0} ⦃js : Json V⦄ where
  -- A hello with the name of a broker and, where there is a secret, with the secret.
  abbrev pub IsAuthorised : (secret : String) → Incoming V → (b : String) → Type 0
  IsAuthorised secret (message msg) b =
      (text_at "type" msg ≡ "hello")
      × (payload : Dict String V) × (payload_of msg ≡ some payload)
      × (strip (text_at "broker" payload) ≡ b)
      × (b ≢ "")
      × HasToken secret (text_at "token" payload)
  IsAuthorised secret other b = ⊥

  -- A connection that is let in as a broker has sent a hello with the name of this broker, which is not
  -- empty, and with the secret, where one is set.
  pub await_hello-IsAuthorised :
      (secret : String) (raw : Incoming V) (b : String)
      → await_hello secret raw ≡ accepted b
      → IsAuthorised secret raw b
  unfolding await_hello
  await_hello-IsAuthorised secret lost b h = cc
  await_hello-IsAuthorised secret broken b h = cc
  await_hello-IsAuthorised secret not_a_dict b h = cc
  await_hello-IsAuthorised secret (message msg) b h =
      elim (Bool-cases (text_at "type" msg == "hello")) [
        | inl same ↦ elim (Option-cases (payload_of msg)) [
          | inl absent ↦ ground (arith, h, same, absent)
          | inr (payload, found) ↦
              let e : await_hello secret (message msg)
                  ≡ check_hello secret (strip (text_at "broker" payload))
                      (text_at "token" payload) =
                rw same (rw found refl) in
              let passed = check_hello-accepted secret _ _ b (sym e ∙ h) in
              ((Eq_string.beq_iff _ _).0 same, payload, found, passed.0, passed.1, passed.2)
        ]
        | inr other ↦ ground (arith, h, other)
      ]
