-- ===== src/PriorityFee.antt =====
-- sdk/src/move_bindings/extensions/priority_fee_vault.rs: quotes for withdrawals from the vault of priority
-- fees. Amounts are u64; their product is taken in u128, and the quotient is cast back.
use nexus_sdk.Prelude.{
  ℕ, ◌+◌, ◌-◌, ◌*◌, ◌/◌, ◌%◌, ◌^◌, ◌≡◌, Bool, true, false, not, ◌||◌, Option, none, some, List, [],
  ◌∷◌, leb, ltb, if◌then◌else◌, ◌==◌, nat_eq, Assoc, lookup,
}
use mathlib.Core.Option
pub mod Exact
pub mod Tests

pub record PriorityFeeAccount : Type 0 where
  pub share : ℕ

pub record PriorityFeeVault : Type 0 where
  pub sui_balance : ℕ
  pub us_balance : ℕ
  pub exchange_rate_sui_us : ℕ
  pub total_share : ℕ
  pub leader_accounts : Assoc ℕ PriorityFeeAccount

pub record PriorityFeeWithdrawalQuote : Type 0 where
  pub share_to_withdraw : ℕ
  pub us_out : ℕ
  pub us_refunded : ℕ

pub record PriorityFeeSuiDrainQuote : Type 0 where
  pub exchange_rate_sui_us : ℕ
  pub sui_out : ℕ

-- `checked_sub`
abbrev pub checked_sub : ℕ → ℕ → Option ℕ
checked_sub a b = if leb b a then some (a - b) else none

unfoldable pub leader_share : PriorityFeeVault → ℕ → Option ℕ
leader_share vault leader_cap_id =
    Option.map (λ account. account.share) (lookup leader_cap_id vault.leader_accounts)

-- The tests that refuse a withdrawal.
unfoldable pub is_refused : PriorityFeeVault → ℕ → Bool
is_refused vault share =
    not (vault.sui_balance == 0)
    || vault.us_balance == 0
    || vault.total_share == 0
    || share == 0
    || ltb vault.total_share share

-- The part of the balance for a share: all of it for the whole, and else the floor, which is not zero.
unfoldable pub us_out_for : ℕ → ℕ → ℕ → Option ℕ
us_out_for balance share total =
    let part = (balance * share % 2 ^ 128) / total % 2 ^ 64 in
    if share == total then some balance else if part == 0 then none else some part

unfoldable pub refund : ℕ → ℕ → ℕ → Option PriorityFeeWithdrawalQuote
refund share balance us_out =
    Option.map
      (λ refunded. record { share_to_withdraw = share; us_out = us_out; us_refunded = refunded })
      (checked_sub balance us_out)

abbrev pub and_then : {A B : Type 0} → Option A → (A → Option B) → Option B
and_then none f = none
and_then (some a) f = f a

unfoldable pub quote_withdrawal : PriorityFeeVault → ℕ → Option PriorityFeeWithdrawalQuote
quote_withdrawal vault share =
    if is_refused vault share
    then none
    else and_then (us_out_for vault.us_balance share vault.total_share)
        (refund share vault.us_balance)

unfoldable pub quote_leader_withdrawal :
    PriorityFeeVault → ℕ → ℕ → Option PriorityFeeWithdrawalQuote
quote_leader_withdrawal vault leader_cap_id share =
    and_then (leader_share vault leader_cap_id)
      (λ own. if ltb own share then none else quote_withdrawal vault share)

unfoldable pub quote_sui_drain : PriorityFeeVault → Option PriorityFeeSuiDrainQuote
quote_sui_drain vault =
    if vault.exchange_rate_sui_us == 0 || vault.sui_balance == 0
    then none
    else some
        record { exchange_rate_sui_us = vault.exchange_rate_sui_us; sui_out = vault.sui_balance }
