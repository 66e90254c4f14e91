-- ===== src/Tests/Ledger.antt =====
-- broker/ledger.py on concrete postings.
use memeval.Prelude.{
  ok, ℕ, ◌+◌, ◌-◌, ◌≡◌, refl, String, Bool, true, false, Option, none, some, List, [], ◌∷◌, ◌++◌,
  length, arith, All,
}
use memeval.Prelude.Int.{ℤ, pos, negsuc, neg, ◌≤ℤ◌, ◌<ℤ◌, ◌-ℤ◌, int_laws}
use memeval.Prelude.Dict.{get}
use memeval.Broker.Ledger.{
  Leg, Cause, Ledger, bankroll, reserve, revert_gas, empty, balance, balance_in, balances_of,
  new_entry, posted, refusal, post, totals_by_cause,
}
use memeval.Broker.Ledger.Accounts.{
  sink_gas, agent_available, agent_reserved, source_bankroll, is_agent,
}
use memeval.Broker.Ledger.Invariant.{
  IsValid, empty-IsValid, post-IsValid, IsSolvent, IsDistinct, post-IsSolvent, two_debits,
  post_overdraws,
}

abbrev deposit : List Leg
deposit =
    record { account = source_bankroll; asset = "eth"; delta = neg (pos 100) }
    ∷ record { account = agent_available; asset = "eth"; delta = pos 100 }
    ∷ []

abbrev hold : List Leg
hold =
    record { account = agent_available; asset = "eth"; delta = neg (pos 30) }
    ∷ record { account = agent_reserved; asset = "eth"; delta = pos 30 }
    ∷ []

abbrev funded : Ledger
funded = posted empty (pos 0) bankroll "run" deposit ""

abbrev held : Ledger
held = posted funded (pos 5) reserve "order-1" hold ""

available_after : balance held agent_available "eth" ≡ pos 70
unfolding balance get memeval.Broker.Ledger.apply_legs memeval.Prelude.Dict.put
    memeval.Prelude.Int.◌+ℤ◌ neg
available_after = refl

listed_after : balances_of held.balances agent_reserved ≡ ("eth", pos 30) ∷ []
unfolding balances_of memeval.Broker.Ledger.apply_legs memeval.Prelude.Dict.put
    memeval.Prelude.Int.◌+ℤ◌ get
listed_after = refl

total_reserved : totals_by_cause held reserve agent_reserved "eth" ≡ pos 30
unfolding totals_by_cause memeval.Prelude.Int.◌+ℤ◌
total_reserved = refl

post-IsValid_example : IsValid funded
unfolding post memeval.Broker.Ledger.first_unbalanced memeval.Prelude.Dict.put
    memeval.Prelude.Int.◌+ℤ◌ get neg memeval.Broker.Ledger.first_short is_agent
post-IsValid_example = post-IsValid empty (pos 0) bankroll "run" deposit "" empty-IsValid refl

empty-IsSolvent : IsSolvent empty
unfolding IsSolvent balance get
empty-IsSolvent account asset agent = omega int_laws

deposit-IsDistinct : IsDistinct deposit
deposit-IsDistinct = ((refl, tt), (tt, tt))

post-IsSolvent_example : IsSolvent funded
unfolding post memeval.Broker.Ledger.first_unbalanced memeval.Prelude.Dict.put
    memeval.Prelude.Int.◌+ℤ◌ get neg memeval.Broker.Ledger.first_short is_agent
post-IsSolvent_example =
    post-IsSolvent empty (pos 0) bankroll "run" deposit "" empty-IsSolvent deposit-IsDistinct refl

post_overdraws_example :
    let legs = two_debits agent_reserved sink_gas "eth" 20 15 in
    (post held (pos 9) revert_gas "order-1" legs ""
      ≡ ok (
        posted held (pos 9) revert_gas "order-1" legs "",
        new_entry held (pos 9) revert_gas "order-1" legs "",
      ))
    × (balance (posted held (pos 9) revert_gas "order-1" legs "") agent_reserved "eth"
        ≡ pos 30 -ℤ pos 35)
    × (pos 30 -ℤ pos 35 <ℤ pos 0)
unfolding balance get memeval.Broker.Ledger.apply_legs memeval.Prelude.Dict.put
    memeval.Prelude.Int.◌+ℤ◌ is_agent
post_overdraws_example =
    post_overdraws held (pos 9) revert_gas "order-1" "" agent_reserved sink_gas "eth" 20 15 30 refl
      refl refl (omega arith) (omega arith) (omega arith)
