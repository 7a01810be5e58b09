-- ===== src/Tap/Budget.antt =====
-- The priority payment budget of sdk/src/types/tap.rs. All amounts are u64 and widened to u128 in the
-- code, with checked operations.
use nexus_sdk.Prelude.{
  ℕ, ◌+◌, ◌*◌, ◌/◌, Bool, ◌&&◌, Option, none, some, leb, ltb, if◌then◌else◌, Result, ok, ◌>>=◌,
  ◌>>◌, bail_if, ok_or, fitting, checked_add, checked_mul,
}
pub mod Maximal

abbrev pub default_priority_fee_percentage : ℕ
default_priority_fee_percentage = 20

abbrev pub min_priority_fee_percentage : ℕ
min_priority_fee_percentage = 10

abbrev pub max_priority_fee_percentage : ℕ
max_priority_fee_percentage = 10000

pub data BudgetError : Type 0 where
  percentage_out_of_range : ℕ → BudgetError
  fee_overflows_u128 : BudgetError
  fee_overflows_u64 : BudgetError
  numerator_overflows_u128 : BudgetError
  denominator_overflows_u128 : BudgetError
  gas_budget_overflows_u64 : BudgetError
  total_overflows_u64 : BudgetError
  -- gas budget, fee reserve and the maximum they exceed
  exceeds_max_budget : ℕ → ℕ → ℕ → BudgetError

pub record PriorityPaymentBudgetInput : Type 0 where
  pub max_budget_mist : ℕ
  pub priority_fee_percentage : Option ℕ
  pub gas_budget_mist : Option ℕ

pub record PriorityPaymentBudgetQuote : Type 0 where
  pub max_budget_mist : ℕ
  pub priority_fee_percentage : ℕ
  pub gas_budget_mist : ℕ
  pub priority_fee_reserve_mist : ℕ
  pub reserved_budget_mist : ℕ

unfoldable pub normalized_priority_fee_percentage : ℕ → Option ℕ
normalized_priority_fee_percentage p =
    if leb min_priority_fee_percentage p && leb p max_priority_fee_percentage then some p else none

unfoldable pub effective_priority_fee_percentage : Option ℕ → Result BudgetError ℕ
effective_priority_fee_percentage none = ok default_priority_fee_percentage
effective_priority_fee_percentage (some p) =
    ok_or (normalized_priority_fee_percentage p) (percentage_out_of_range p)

unfoldable pub priority_fee_mist_for_gas_budget : ℕ → ℕ → Result BudgetError ℕ
priority_fee_mist_for_gas_budget gas p = do
  product ← ok_or (checked_mul 128 gas p) fee_overflows_u128
  ok_or (fitting 64 (product / 100)) fee_overflows_u64

unfoldable pub gas_budget_mist_for_max_budget_mist : ℕ → ℕ → Result BudgetError ℕ
gas_budget_mist_for_max_budget_mist max p = do
  product ← ok_or (checked_mul 128 max 100) numerator_overflows_u128
  numerator ← ok_or (checked_add 128 product 99) numerator_overflows_u128
  denominator ← ok_or (checked_add 128 p 100) denominator_overflows_u128
  ok_or (fitting 64 (numerator / denominator)) gas_budget_overflows_u64

unfoldable pub gas_budget_of : Option ℕ → ℕ → ℕ → Result BudgetError ℕ
gas_budget_of (some gas) max p = ok gas
gas_budget_of none max p = gas_budget_mist_for_max_budget_mist max p

-- The fee and the total of a gas budget, within the maximum.
unfoldable pub quote_for : ℕ → ℕ → ℕ → Result BudgetError PriorityPaymentBudgetQuote
quote_for max p gas = do
  fee ← priority_fee_mist_for_gas_budget gas p
  reserved ← ok_or (checked_add 64 gas fee) total_overflows_u64
  bail_if (ltb max reserved) (exceeds_max_budget gas fee max)
  ok record {
    max_budget_mist = max;
    priority_fee_percentage = p;
    gas_budget_mist = gas;
    priority_fee_reserve_mist = fee;
    reserved_budget_mist = reserved;
  }

unfoldable pub quote_priority_payment_budget :
    PriorityPaymentBudgetInput → Result BudgetError PriorityPaymentBudgetQuote
quote_priority_payment_budget input = do
  p ← effective_priority_fee_percentage input.priority_fee_percentage
  gas ← gas_budget_of input.gas_budget_mist input.max_budget_mist p
  quote_for input.max_budget_mist p gas
