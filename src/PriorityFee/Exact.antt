-- ===== src/PriorityFee/Exact.antt =====
-- Which withdrawals are quoted, and for what.
use native.Mathlib.Nat.{mul-le-mul, div-le_of_le-mul, mul-div_left, mod-eq_of_lt, mul_comm}
use mathlib.Core.Path.{subst}
use nexus_sdk.Prelude.{
  ℕ, ◌+◌, ◌-◌, ◌*◌, ◌/◌, ◌%◌, ◌^◌, ◌<◌, ◌≤◌, ◌≡◌, refl, sym, ap, ◌∙◌, ◌↔◌, inl, inr, false, Option,
  none, some, if◌then◌else◌, arith, Bool-cases, ==_iff, nat_eq,
}
use nexus_sdk.PriorityFee.{
  PriorityFeeVault, PriorityFeeWithdrawalQuote, is_refused, us_out_for, refund, and_then,
  quote_withdrawal,
}

-- A withdrawal: no SUI waits to be exchanged, the share is positive and within the total, and it is paid
-- the floor of its part of the balance, which is positive; the rest stays.
pub record IsWithdrawal (vault : PriorityFeeVault) (share : ℕ) (quote : PriorityFeeWithdrawalQuote)
    : Type 0 where
  pub drained : vault.sui_balance ≡ 0
  pub positive : 0 < share
  pub within_total : share ≤ vault.total_share
  pub same_share : quote.share_to_withdraw ≡ share
  pub floor : quote.us_out ≡ vault.us_balance * share / vault.total_share
  pub paid : 0 < quote.us_out
  pub rest : quote.us_out + quote.us_refunded ≡ vault.us_balance

is_refused_iff :
    (vault : PriorityFeeVault) (share : ℕ)
    → (is_refused vault share ≡ false) ↔ (
        (vault.sui_balance ≡ 0)
        × (0 < vault.us_balance)
        × (0 < share)
        × (share ≤ vault.total_share))
unfolding is_refused
is_refused_iff vault share = ground (
  arith,
  ==_iff vault.sui_balance 0,
  ==_iff vault.us_balance 0,
  ==_iff vault.total_share 0,
  ==_iff share 0,
)

part_bound :
    (balance share total : ℕ) → 0 < total → share ≤ total → balance * share / total ≤ balance
part_bound balance share total p h = div-le_of_le-mul total {m = balance * share} {n = balance} (
    subst (λ n. balance * share ≤ n) (mul_comm balance total)
      (mul-le-mul {n₂ = balance} (omega arith) h))

product_bound : (balance share : ℕ) → balance < 2 ^ 64 → share < 2 ^ 64 → balance * share < 2 ^ 128
product_bound balance share b s =
    let h =
      mul-le-mul {n₁ = balance} {m₁ = share} {n₂ = 2 ^ 64 - 1} {m₂ = 2 ^ 64 - 1} (omega arith)
        (omega arith) in
    omega arith

-- Neither the product nor the cast loses anything.
part-floor :
    (balance share total : ℕ)
    → balance < 2 ^ 64
    → total < 2 ^ 64
    → 0 < total
    → share ≤ total
    → balance * share % 2 ^ 128 / total % 2 ^ 64 ≡ balance * share / total
part-floor balance share total b t p h =
    let product = product_bound balance share b (omega arith) in
    let part = part_bound balance share total p h in
    ap (λ n. n / total % 2 ^ 64) (mod-eq_of_lt product)
    ∙ mod-eq_of_lt {n = balance * share / total} {m = 2 ^ 64} (omega arith)

-- The whole is the floor of the whole share.
whole-floor :
    (balance share total : ℕ) → 0 < total → share ≡ total → balance ≡ balance * share / total
whole-floor balance share total p e = sym (ap (λ n. balance * n / total) e ∙ mul-div_left balance p)

us_out_by_floor :
    (balance share total floor us_out : ℕ)
    → balance * share % 2 ^ 128 / total % 2 ^ 64 ≡ floor
    → (share ≡ total → balance ≡ floor)
    → 0 < balance
    → (us_out_for balance share total ≡ some us_out) ↔ ((us_out ≡ floor) × (0 < us_out))
unfolding us_out_for
us_out_by_floor balance share total floor us_out part whole p =
    rw part (ground (arith, ==_iff share total, ==_iff floor 0))

pub us_out_for_iff :
    (balance share total us_out : ℕ)
    → balance < 2 ^ 64
    → total < 2 ^ 64
    → 0 < balance
    → 0 < share
    → share ≤ total
    → (us_out_for balance share total ≡ some us_out)
      ↔ ((us_out ≡ balance * share / total) × (0 < us_out))
us_out_for_iff balance share total us_out b t pb ps h =
    us_out_by_floor balance share total (balance * share / total) us_out
      (part-floor balance share total b t (omega arith) h)
      (whole-floor balance share total (omega arith)) pb

refund_iff :
    (share balance us_out : ℕ) (quote : PriorityFeeWithdrawalQuote)
    → (refund share balance us_out ≡ some quote) ↔ (
        (quote.share_to_withdraw ≡ share)
        × (quote.us_out ≡ us_out)
        × (us_out + quote.us_refunded ≡ balance))
unfolding refund
refund_iff share balance us_out quote = ground arith

none-ne_some : {A : Type 0} {a : A} → Path (Option A) none (some a) → ⊥
none-ne_some h = cc

and_then-some :
    {A B : Type 0} (o : Option A) (f : A → Option B) {b : B}
    → and_then o f ≡ some b
    → (a : A) × (o ≡ some a) × (f a ≡ some b)
and_then-some none f h = ground arith
and_then-some (some a) f h = (a, refl, h)

module _ (vault : PriorityFeeVault) (share : ℕ) (quote : PriorityFeeWithdrawalQuote)
    (b : vault.us_balance < 2 ^ 64) (t : vault.total_share < 2 ^ 64) where
  not_refused : quote_withdrawal vault share ≡ some quote → is_refused vault share ≡ false
  unfolding quote_withdrawal
  not_refused h = elim (Bool-cases (is_refused vault share)) [
    | inl refused ↦ elim (none-ne_some (ap (λ r. if r then none else quoted) (sym refused) ∙ h)) [ ]
    | inr passed ↦ passed
  ]
    where
      quoted : Option PriorityFeeWithdrawalQuote
      quoted =
          and_then (us_out_for vault.us_balance share vault.total_share)
            (refund share vault.us_balance)

  quote-passed :
      is_refused vault share ≡ false
      → quote_withdrawal vault share
        ≡ and_then
            (us_out_for vault.us_balance share vault.total_share)
            (refund share vault.us_balance)
  unfolding quote_withdrawal
  quote-passed h = rw h refl

  IsWithdrawal-of_quote : quote_withdrawal vault share ≡ some quote → IsWithdrawal vault share quote
  IsWithdrawal-of_quote h =
      let passed = not_refused h in
      let (drained, full, positive, within) = (is_refused_iff vault share).0 passed in
      let (us_out, given, refunded) =
        and_then-some (us_out_for vault.us_balance share vault.total_share)
          (refund share vault.us_balance) (sym (quote-passed passed) ∙ h) in
      let (floor, paid) =
        (us_out_for_iff vault.us_balance share vault.total_share us_out b t full positive within).0
          given in
      let (same_share, same_out, rest) =
        (refund_iff share vault.us_balance us_out quote).0 refunded in
      record {
        drained = drained;
        positive = positive;
        within_total = within;
        same_share = same_share;
        floor = same_out ∙ floor;
        paid = subst (λ n. 0 < n) (sym same_out) paid;
        rest = ap (λ n. n + quote.us_refunded) same_out ∙ rest;
      }

  quote_withdrawal_of_IsWithdrawal :
      IsWithdrawal vault share quote → quote_withdrawal vault share ≡ some quote
  quote_withdrawal_of_IsWithdrawal w =
      let full : 0 < vault.us_balance = let p = w.paid in let r = w.rest in omega arith in
      let passed = (is_refused_iff vault share).1 (w.drained, full, w.positive, w.within_total) in
      let given =
        (us_out_for_iff vault.us_balance share vault.total_share quote.us_out b t full w.positive
            w.within_total).1
          (w.floor, w.paid) in
      quote-passed passed
      ∙ ap (λ o. and_then o (refund share vault.us_balance)) given
      ∙ (refund_iff share vault.us_balance quote.us_out quote).1 (w.same_share, refl, w.rest)

-- For u64 amounts, a withdrawal is quoted exactly if it is one: no SUI is left to drain, the share is
-- positive and within the total, and its part of the balance, rounded down, is positive. The quote then
-- pays that part and keeps the rest; no product, cast or difference overflows.
pub quote_withdrawal_iff :
    (vault : PriorityFeeVault) (share : ℕ) (quote : PriorityFeeWithdrawalQuote)
    → vault.us_balance < 2 ^ 64
    → vault.total_share < 2 ^ 64
    → (quote_withdrawal vault share ≡ some quote) ↔ IsWithdrawal vault share quote
quote_withdrawal_iff vault share quote b t = (
  IsWithdrawal-of_quote vault share quote b t,
  quote_withdrawal_of_IsWithdrawal vault share quote b t,
)
