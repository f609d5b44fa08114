-- ===== src/Provisions/Money/Laws.antt =====
-- The rounding of the amounts and what the answers say of them.
use proyecto.Common.{
  ◌≡◌, refl, sym, ◌∙◌, ap, ℕ, zero, suc, ◌+◌, ◌*◌, ◌≤◌, ◌<◌, String, List, [], ◌∷◌, map, arith, All,
}
use native.Mathlib.Nat.{mul-div-le, lt-mul-div-succ, mul_comm}
use proyecto.Common.Integers.{ℤ, pos, negsuc, neg, scale, ◌+ℤ◌, ◌-ℤ◌}
use proyecto.Provisions.Model.{Provision, ProvisionDocument, ProvisionDb}
use proyecto.Provisions.Repository.{get_currency, documents_of}
use proyecto.Provisions.Money.{
  one, exchange_rate_to_base, half_up, money, sum, document_base, expected_amount_base,
  actual_amount_base, actual_amount, variance_status,
}
use proyecto.Provisions.Responses.{to_summary_response}

abbrev pub magnitude : ℤ → ℕ
magnitude (pos n) = n
magnitude (negsuc n) = suc n

half_up_bounds :
    (d n : ℕ) → 0 < d → (2 * (d * half_up d n) ≤ 2 * n + d) × (2 * n < 2 * (d * half_up d n) + d)
half_up_bounds d n h =
    let low : 2 * d * half_up d n ≤ 2 * n + d = mul-div-le (2 * n + d) (2 * d) in
    let high : 2 * n + d < 2 * d * (half_up d n + 1) =
      lt-mul-div-succ (2 * n + d) {b = 2 * d} (omega arith) in
    (omega (arith, low), omega (arith, high))

scale-neg : (d q : ℕ) → scale d (neg q) ≡ neg (d * q)
scale-neg d zero = ground arith
scale-neg d (suc q) = ap neg (mul_comm (suc q) d)

scale-one_add : (a b : ℤ) → scale one (a +ℤ b) ≡ scale one a +ℤ scale one b
scale-one_add (pos m) (pos n) = ground arith
scale-one_add (pos m) (negsuc n) = ground arith
scale-one_add (negsuc m) (pos n) = ground arith
scale-one_add (negsuc m) (negsuc n) = ground arith

-- What the sign of a difference is called
abbrev pub sign_text : ℤ → String
sign_text (pos zero) = "EXACTO"
sign_text (pos (suc n)) = "EXCEDENTE"
sign_text (negsuc n) = "INFERIOR"

variance_text :
    (expected actual : ℤ) → variance_status expected actual ≡ sign_text (actual -ℤ expected)
unfolding variance_status
variance_text (pos m) (pos n) = ground arith
variance_text (pos m) (negsuc n) = ground arith
variance_text (negsuc m) (pos n) = ground arith
variance_text (negsuc m) (negsuc n) = ground arith

money-one : (a : ℤ) → money 1 a ≡ a
unfolding money
money-one (pos n) = ground arith
money-one (negsuc n) = ground arith

distance :
    (n k d : ℕ)
    → 2 * k ≤ 2 * n + d
    → 2 * n < 2 * k + d
    → (2 * magnitude (pos n -ℤ pos k) ≤ d) × (2 * magnitude (pos n -ℤ pos k) ≡ d → n < k)
distance n zero d low high = (ground arith, λ tie. ground arith)
distance n (suc k) d low high = (ground arith, λ tie. ground arith)

mirrored : (m k : ℕ) → magnitude (negsuc m -ℤ neg k) ≡ magnitude (pos (suc m) -ℤ pos k)
mirrored m zero = ground arith
mirrored m (suc k) = ground arith

magnitude-neg : (k : ℕ) → magnitude (neg k) ≡ k
magnitude-neg zero = refl
magnitude-neg (suc k) = refl

nearest_at :
    (d n : ℕ)
    → 0 < d
    → (2 * magnitude (pos n -ℤ pos (d * half_up d n)) ≤ d)
      × (2 * magnitude (pos n -ℤ pos (d * half_up d n)) ≡ d → n < d * half_up d n)
nearest_at d n h = distance n (d * half_up d n) d (half_up_bounds d n h).0 (half_up_bounds d n h).1

-- `_money` gives the nearest amount in cents: it is at most half a cent away from the exact value,
-- and of two that are half a cent away it is the one farther from zero. The denominator is positive.
pub money_nearest :
    (d : ℕ) (a : ℤ)
    → 0 < d
    → (2 * magnitude (a -ℤ scale d (money d a)) ≤ d)
      × (2 * magnitude (a -ℤ scale d (money d a)) ≡ d
          → magnitude a < magnitude (scale d (money d a)))
unfolding money
money_nearest d (pos n) h = rw (mul_comm (half_up d n) d) (nearest_at d n h)
money_nearest d (negsuc m) h =
    rw
      (
        scale-neg d (half_up d (suc m)),
        mirrored m (d * half_up d (suc m)),
        magnitude-neg (d * half_up d (suc m)),
      )
      (nearest_at d (suc m) h)

-- An amount that is whole cents stays what it is.
money-scale : (a : ℤ) → money one (scale one a) ≡ a
unfolding money
money-scale (pos n) = ground arith
money-scale (negsuc n) = ground arith

-- The variance status of an answer is the sign of its variance in the base currency: EXCEDENTE above
-- zero, INFERIOR below it, EXACTO at zero.
pub to_summary_response-sign :
    (db : ProvisionDb) (p : Provision)
    → (to_summary_response db p).variance_status
      ≡ sign_text (to_summary_response db p).variance_amount_base
unfolding to_summary_response
to_summary_response-sign db p =
    variance_text (expected_amount_base p db) (actual_amount_base p db)
    ∙ ap sign_text (sym (money-one (actual_amount_base p db -ℤ expected_amount_base p db)))

-- A currency that counts as the base currency, at the rate one
abbrev pub IsAtOne : ProvisionDb → ℕ → Type 0
IsAtOne db currency_id = exchange_rate_to_base (get_currency currency_id db) ≡ one

sum-at_one :
    (db : ProvisionDb) (documents : List ProvisionDocument)
    → All (λ (d : ProvisionDocument). IsAtOne db d.currency_id) documents
    → sum (map (document_base db) documents) ≡ scale one (sum (map (λ d. d.amount) documents))
sum-at_one db [] h = refl
sum-at_one db (d ∷ documents) h =
    rw (h.0, sum-at_one db documents h.1)
      (sym (scale-one_add d.amount (sum (map (λ e. e.amount) documents))))

actual_base-at_one :
    (db : ProvisionDb) (p : Provision)
    → All (λ (d : ProvisionDocument). IsAtOne db d.currency_id) (documents_of p.id db)
    → actual_amount_base p db ≡ sum (map (λ d. d.amount) (documents_of p.id db))
unfolding actual_amount_base
actual_base-at_one db p h =
    ap (money one) (sum-at_one db (documents_of p.id db) h)
    ∙ money-scale (sum (map (λ d. d.amount) (documents_of p.id db)))

-- In the base currency nothing is lost: where the provision and its documents count at the rate one,
-- the actual amount is the sum of the amounts of the documents, in its own and in the base currency,
-- and both variances are that sum less the amount of the provision.
pub to_summary_response-exact :
    (db : ProvisionDb) (p : Provision)
    → IsAtOne db p.currency_id
    → All (λ (d : ProvisionDocument). IsAtOne db d.currency_id) (documents_of p.id db)
    → let total : ℤ = sum (map (λ d. d.amount) (documents_of p.id db)) in
      ((to_summary_response db p).actual_amount ≡ total)
      × ((to_summary_response db p).actual_amount_base ≡ total)
      × ((to_summary_response db p).variance_amount ≡ total -ℤ p.amount)
      × ((to_summary_response db p).variance_amount_base ≡ total -ℤ p.amount)
unfolding to_summary_response actual_amount expected_amount_base
to_summary_response-exact db p at_one its =
    let total : ℤ = sum (map (λ d. d.amount) (documents_of p.id db)) in
    let base : actual_amount_base p db ≡ total = actual_base-at_one db p its in
    (
      rw (at_one, base) (money-scale total),
      base,
      rw (at_one, base, money-scale total, money-one p.amount, money-one (total -ℤ p.amount)) refl,
      rw (at_one, base, money-scale p.amount, money-one (total -ℤ p.amount)) refl,
    )
