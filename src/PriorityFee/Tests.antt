-- ===== src/PriorityFee/Tests.antt =====
-- Quotes for a vault with one leader.
use nexus_sdk.Prelude.{◌≡◌, refl, none, some, [], ◌∷◌, arith, lookup}
use nexus_sdk.PriorityFee.{
  PriorityFeeVault, PriorityFeeWithdrawalQuote, leader_share, is_refused, us_out_for, refund,
  quote_withdrawal, quote_leader_withdrawal, quote_sui_drain,
}
use nexus_sdk.PriorityFee.Exact.{IsWithdrawal, quote_withdrawal_iff}

abbrev runs : Unit {0}
unfolding leader_share is_refused us_out_for refund quote_withdrawal quote_leader_withdrawal
    quote_sui_drain lookup
runs = tt

abbrev vault : PriorityFeeVault
vault = record {
  sui_balance = 0;
  us_balance = 100;
  exchange_rate_sui_us = 3;
  total_share = 7;
  leader_accounts = (5, record { share = 2 }) ∷ [];
}

abbrev two_sevenths : PriorityFeeWithdrawalQuote
two_sevenths = record { share_to_withdraw = 2; us_out = 28; us_refunded = 72 }

leader_takes_two : quote_leader_withdrawal vault 5 2 ≡ some two_sevenths
unfolding runs
leader_takes_two = refl

leader_takes_three : quote_leader_withdrawal vault 5 3 ≡ none
unfolding runs
leader_takes_three = refl

nothing_to_drain : quote_sui_drain vault ≡ none
unfolding runs
nothing_to_drain = refl

quote_withdrawal_iff_example : IsWithdrawal vault 2 two_sevenths
unfolding runs
quote_withdrawal_iff_example =
    (quote_withdrawal_iff vault 2 two_sevenths (omega arith) (omega arith)).0 refl
