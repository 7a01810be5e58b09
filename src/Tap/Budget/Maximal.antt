-- ===== src/Tap/Budget/Maximal.antt =====
-- Which budgets the quotes of a priority payment accept and derive.
use nexus_sdk.Tap.Budget.{
  PriorityPaymentBudgetInput, PriorityPaymentBudgetQuote, effective_priority_fee_percentage,
  gas_budget_mist_for_max_budget_mist, priority_fee_mist_for_gas_budget,
  quote_priority_payment_budget, normalized_priority_fee_percentage, gas_budget_of, quote_for,
}
use mathlib.Core.Path.{subst}
use native.Mathlib.Nat.{le-div_iff_mul-le, mul-le-mul}
use nexus_sdk.Prelude.{
  ℕ, ◌+◌, ◌*◌, ◌/◌, ◌≤◌, ◌<◌, ◌^◌, ◌≡◌, refl, ◌↔◌, Option, none, some, ok, arith, >>=-eq-ok, ◌∙◌,
  sym, ap, inl, inr, ok_injective, Option-cases,
}

-- The largest gas budget, before it is checked to fit.
abbrev pub largest : ℕ → ℕ → ℕ
largest max p = (max * 100 + 99) / (p + 100)

-- What a gas budget Reserves: itself and the fee.
abbrev pub reserve : ℕ → ℕ → ℕ
reserve gas p = gas + gas * p / 100

reserve_scaled : (gas max p : ℕ) → (reserve gas p ≤ max) ↔ (gas * (p + 100) ≤ max * 100 + 99)
reserve_scaled gas max p = ground arith

pub reserve_iff : (gas max p : ℕ) → (reserve gas p ≤ max) ↔ (gas ≤ largest max p)
reserve_iff gas max p =
    let (to, of) = le-div_iff_mul-le {k = p + 100} {x = gas} {y = max * 100 + 99} (omega arith) in
    let (scale, unscale) = reserve_scaled gas max p in ((λ h. of (scale h)), λ h. unscale (to h))

-- The percentage that an optional percentage stands for.
abbrev pub IsPercentage : Option ℕ → ℕ → Type 0
IsPercentage none p = p ≡ 20
IsPercentage (some q) p = (q ≡ p) × (10 ≤ p) × (p ≤ 10000)

pub effective_iff :
    (o : Option ℕ) (p : ℕ) → (effective_priority_fee_percentage o ≡ ok p) ↔ IsPercentage o p
unfolding effective_priority_fee_percentage normalized_priority_fee_percentage
effective_iff none p = ground arith
effective_iff (some q) p = ground arith

pub IsPercentage-bounds : (o : Option ℕ) (p : ℕ) → IsPercentage o p → (10 ≤ p) × (p ≤ 10000)
IsPercentage-bounds none p h = (omega arith, omega arith)
IsPercentage-bounds (some q) p (eq, low, high) = (low, high)

product_bound : (gas p : ℕ) → gas < 2 ^ 64 → p ≤ 10000 → gas * p ≤ 2 ^ 64 * 10000
product_bound gas p g h = mul-le-mul {n₂ = 2 ^ 64} (omega arith) h

pub fee_iff :
    (gas p fee : ℕ)
    → gas < 2 ^ 64
    → p ≤ 10000
    → (priority_fee_mist_for_gas_budget gas p ≡ ok fee) ↔ ((fee ≡ gas * p / 100) × (fee < 2 ^ 64))
unfolding priority_fee_mist_for_gas_budget
fee_iff gas p fee g h = let small = product_bound gas p g h in ground arith

pub largest_bound : (max p : ℕ) → largest max p ≤ max
largest_bound max p = let h = (reserve_iff (largest max p) max p).1 (omega arith) in omega arith

pub gas_budget-largest :
    (max p : ℕ)
    → max < 2 ^ 64
    → p ≤ 10000
    → gas_budget_mist_for_max_budget_mist max p ≡ ok (largest max p)
unfolding gas_budget_mist_for_max_budget_mist
gas_budget-largest max p m h = let bound = largest_bound max p in ground arith

-- What a quote promises, without the code's arithmetic.
pub record IsQuote (input : PriorityPaymentBudgetInput) (quote : PriorityPaymentBudgetQuote)
    : Type 0 where
  pub same_max : quote.max_budget_mist ≡ input.max_budget_mist
  pub percentage : IsPercentage input.priority_fee_percentage quote.priority_fee_percentage
  pub explicit_gas : (gas : ℕ) → input.gas_budget_mist ≡ some gas → quote.gas_budget_mist ≡ gas
  -- A derived gas budget is the largest one whose reserve stays within the maximum.
  pub maximal :
      input.gas_budget_mist ≡ none
      → (gas : ℕ) → reserve gas quote.priority_fee_percentage ≤ input.max_budget_mist
      → gas ≤ quote.gas_budget_mist
  pub fee :
      quote.priority_fee_reserve_mist ≡ quote.gas_budget_mist * quote.priority_fee_percentage / 100
  pub total : quote.reserved_budget_mist ≡ quote.gas_budget_mist + quote.priority_fee_reserve_mist
  pub within_max : quote.reserved_budget_mist ≤ input.max_budget_mist

-- The gas budget of a request: the explicit one, or the largest.
abbrev pub gas_for : Option ℕ → ℕ → ℕ → ℕ
gas_for none max p = largest max p
gas_for (some gas) max p = gas

gas_budget_of-gas_for :
    (o : Option ℕ) (max p : ℕ)
    → max < 2 ^ 64
    → p ≤ 10000
    → gas_budget_of o max p ≡ ok (gas_for o max p)
unfolding gas_budget_of
gas_budget_of-gas_for none max p m h = gas_budget-largest max p m h
gas_budget_of-gas_for (some gas) max p m h = refl

-- The request with its three decisions taken.
abbrev quote_with : ℕ → ℕ → ℕ → PriorityPaymentBudgetQuote
quote_with max p gas = record {
  max_budget_mist = max;
  priority_fee_percentage = p;
  gas_budget_mist = gas;
  priority_fee_reserve_mist = gas * p / 100;
  reserved_budget_mist = reserve gas p;
}

-- An amount that is given is a u64.
abbrev pub IsU64 : Option ℕ → Type 0
IsU64 none = Unit
IsU64 (some gas) = gas < 2 ^ 64

gas_for_bound : (o : Option ℕ) (max p : ℕ) → max < 2 ^ 64 → IsU64 o → gas_for o max p < 2 ^ 64
gas_for_bound none max p m u = let bound = largest_bound max p in omega arith
gas_for_bound (some gas) max p m u = u

quote_for_iff :
    (max p gas : ℕ) (quote : PriorityPaymentBudgetQuote)
    → max < 2 ^ 64
    → gas < 2 ^ 64
    → p ≤ 10000
    → (quote_for max p gas ≡ ok quote) ↔ ((reserve gas p ≤ max) × (quote ≡ quote_with max p gas))
unfolding quote_for priority_fee_mist_for_gas_budget
quote_for_iff max p gas quote m g h = let small = product_bound gas p g h in ground arith

gas_for-explicit : (o : Option ℕ) (max p gas : ℕ) → o ≡ some gas → gas_for o max p ≡ gas
gas_for-explicit o max p gas h = rw h refl

gas_for-none : (o : Option ℕ) (max p : ℕ) → o ≡ none → gas_for o max p ≡ largest max p
gas_for-none o max p h = rw h refl

IsQuote-reserve :
    (input : PriorityPaymentBudgetInput) (quote : PriorityPaymentBudgetQuote)
    → IsQuote input quote
    → reserve quote.gas_budget_mist quote.priority_fee_percentage ≤ input.max_budget_mist
IsQuote-reserve input quote h =
    subst (λ n. n ≤ input.max_budget_mist) (h.total ∙ ap (λ n. quote.gas_budget_mist + n) h.fee)
      h.within_max

gas_for_unique :
    (input : PriorityPaymentBudgetInput) (quote : PriorityPaymentBudgetQuote)
    → IsQuote input quote
    → quote.gas_budget_mist
      ≡ gas_for input.gas_budget_mist input.max_budget_mist quote.priority_fee_percentage
gas_for_unique input quote h =
    let max = input.max_budget_mist in
    let p = quote.priority_fee_percentage in
    let within = IsQuote-reserve input quote h in
    elim (Option-cases input.gas_budget_mist) [
      | inl none_given ↦
          let above =
            h.maximal none_given (largest max p)
              ((reserve_iff (largest max p) max p).1 (omega arith)) in
          let below = (reserve_iff quote.gas_budget_mist max p).0 within in
          rw (gas_for-none input.gas_budget_mist max p none_given) (omega arith)
      | inr (gas, given) ↦
          h.explicit_gas gas given ∙ sym (gas_for-explicit input.gas_budget_mist max p gas given)
    ]

-- A quote is determined by the percentage and the gas budget.
IsQuote-quote_with :
    (input : PriorityPaymentBudgetInput) (quote : PriorityPaymentBudgetQuote)
    (h : IsQuote input quote)
    → quote ≡ quote_with input.max_budget_mist quote.priority_fee_percentage quote.gas_budget_mist
IsQuote-quote_with input quote h =
    let total = h.total ∙ ap (λ n. quote.gas_budget_mist + n) h.fee in
    λ i. record {
      max_budget_mist = h.same_max i;
      priority_fee_percentage = quote.priority_fee_percentage;
      gas_budget_mist = quote.gas_budget_mist;
      priority_fee_reserve_mist = h.fee i;
      reserved_budget_mist = total i;
    }

quote_with-IsQuote :
    (input : PriorityPaymentBudgetInput) (p : ℕ)
    → IsPercentage input.priority_fee_percentage p
    → reserve (gas_for input.gas_budget_mist input.max_budget_mist p) p ≤ input.max_budget_mist
    → IsQuote input
        (quote_with input.max_budget_mist p (gas_for input.gas_budget_mist input.max_budget_mist p))
quote_with-IsQuote input p h le = record {
  same_max = refl;
  percentage = h;
  explicit_gas = gas_for-explicit input.gas_budget_mist input.max_budget_mist p;
  maximal = λ none_given gas fits.
      rw (gas_for-none input.gas_budget_mist input.max_budget_mist p none_given)
        ((reserve_iff gas input.max_budget_mist p).0 fits);
  fee = refl;
  total = refl;
  within_max = le;
}

module _ (input : PriorityPaymentBudgetInput) (m : input.max_budget_mist < 2 ^ 64)
    (u : IsU64 input.gas_budget_mist) where
  quote_parts :
      (quote : PriorityPaymentBudgetQuote)
      → quote_priority_payment_budget input ≡ ok quote
      → (p : ℕ) × (gas : ℕ) × (effective_priority_fee_percentage input.priority_fee_percentage
          ≡ ok p)
        × (gas_budget_of input.gas_budget_mist input.max_budget_mist p ≡ ok gas)
        × (quote_for input.max_budget_mist p gas ≡ ok quote)
  unfolding quote_priority_payment_budget
  quote_parts quote h =
      let (p, eff, h₁) =
        >>=-eq-ok (effective_priority_fee_percentage input.priority_fee_percentage) _ h in
      let (gas, given, h₂) =
        >>=-eq-ok (gas_budget_of input.gas_budget_mist input.max_budget_mist p) _ h₁ in
      (p, gas, eff, given, h₂)

  quote_priority_payment_budget-IsQuote :
      (quote : PriorityPaymentBudgetQuote)
      → quote_priority_payment_budget input ≡ ok quote
      → IsQuote input quote
  quote_priority_payment_budget-IsQuote quote h =
      let (p, gas, eff, given, last) = quote_parts quote h in
      let valid = (effective_iff input.priority_fee_percentage p).0 eff in
      let (low, high) = IsPercentage-bounds input.priority_fee_percentage p valid in
      let gas_is = ok_injective (
        sym (gas_budget_of-gas_for input.gas_budget_mist input.max_budget_mist p m high) ∙ given) in
      let bound =
        subst (λ g. g < 2 ^ 64) gas_is
          (gas_for_bound input.gas_budget_mist input.max_budget_mist p m u) in
      let (fits, is) = (quote_for_iff input.max_budget_mist p gas quote m bound high).0 last in
      subst (IsQuote input) (ap (quote_with input.max_budget_mist p) gas_is ∙ sym is) (
        quote_with-IsQuote input p valid
          (subst (λ g. reserve g p ≤ input.max_budget_mist) (sym gas_is) fits))

  quote_priority_payment_budget_of_IsQuote :
      (quote : PriorityPaymentBudgetQuote)
      → IsQuote input quote
      → quote_priority_payment_budget input ≡ ok quote
  unfolding quote_priority_payment_budget
  quote_priority_payment_budget_of_IsQuote quote h =
      let max = input.max_budget_mist in
      let p = quote.priority_fee_percentage in
      let (low, high) = IsPercentage-bounds input.priority_fee_percentage p h.percentage in
      let gas_is = gas_for_unique input quote h in
      let bound =
        subst (λ g. g < 2 ^ 64) (sym gas_is) (gas_for_bound input.gas_budget_mist max p m u) in
      rw ((effective_iff input.priority_fee_percentage p).1 h.percentage) (
        rw (gas_budget_of-gas_for input.gas_budget_mist max p m high) (
          rw (sym gas_is) (
            (quote_for_iff max p quote.gas_budget_mist quote m bound high).1
              (IsQuote-reserve input quote h, IsQuote-quote_with input quote h))))

-- For u64 amounts, the quote returns exactly what a quote promises: the percentage asked for (20 if
-- none is, and one of 10 to 10000), the gas budget asked for or the largest whose reserve fits, and a
-- total within the maximum.
pub quote_priority_payment_budget_iff :
    (input : PriorityPaymentBudgetInput) (quote : PriorityPaymentBudgetQuote)
    → input.max_budget_mist < 2 ^ 64
    → IsU64 input.gas_budget_mist
    → (quote_priority_payment_budget input ≡ ok quote) ↔ IsQuote input quote
quote_priority_payment_budget_iff input quote m u = (
  quote_priority_payment_budget-IsQuote input m u quote,
  quote_priority_payment_budget_of_IsQuote input m u quote,
)

-- Every u64 maximum with a percentage of 10 to 10000, or none, and no explicit gas budget gets a
-- quote: no error of the arithmetic occurs.
pub quote_priority_payment_budget_derives :
    (input : PriorityPaymentBudgetInput) (p : ℕ)
    → input.max_budget_mist < 2 ^ 64
    → input.gas_budget_mist ≡ none
    → IsPercentage input.priority_fee_percentage p
    → (quote : PriorityPaymentBudgetQuote) × (quote_priority_payment_budget input ≡ ok quote)
quote_priority_payment_budget_derives input p m none_given h =
    let max = input.max_budget_mist in
    let gas_is = gas_for-none input.gas_budget_mist max p none_given in
    let fits =
      subst (λ g. reserve g p ≤ max) (sym gas_is)
        ((reserve_iff (largest max p) max p).1 (omega arith)) in
    let quote = quote_with max p (gas_for input.gas_budget_mist max p) in
    (
      quote,
      quote_priority_payment_budget_of_IsQuote input m (subst IsU64 (sym none_given) tt) quote
          (quote_with-IsQuote input p h fits),
    )
