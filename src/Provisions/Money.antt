-- ===== src/Provisions/Money.antt =====
-- The amounts of app/api/finance/provisions/provision/provision_service.py. Decimal keeps 28 digits:
-- the sums and products of amounts in cents and rates in millionths are exact as long as they have no
-- more, which is assumed here.
pub mod Laws
use proyecto.Common.{
  ℕ, zero, suc, ◌+◌, ◌*◌, ◌/◌, String, Bool, Option, none, some, List, [], ◌∷◌, map, if◌then◌else◌,
}
use proyecto.Common.Integers.{ℤ, pos, negsuc, neg, scale, lt, ◌+ℤ◌}
use proyecto.Provisions.Model.{Currency, Provision, ProvisionDocument, ProvisionDb}
use proyecto.Provisions.Repository.{get_currency, documents_of}

-- 1.000000
abbrev pub one : ℕ
one = 1000000

-- A rate in millionths; one that is missing or not positive counts as one.
abbrev pub positive_rate : Option ℤ → ℕ
positive_rate none = one
positive_rate (some (pos zero)) = one
positive_rate (some (pos (suc n))) = suc n
positive_rate (some (negsuc n)) = one

unfoldable pub exchange_rate_to_base : Option Currency → ℕ
exchange_rate_to_base none = one
exchange_rate_to_base (some currency) = positive_rate currency.exchange_rate_to_base

-- n / d to the nearest whole number, a half away from zero
abbrev pub half_up : ℕ → ℕ → ℕ
half_up d n = (2 * n + d) / (2 * d)

-- `_money`, of a value with the denominator d in cents
unfoldable pub money : ℕ → ℤ → ℤ
money d (pos n) = pos (half_up d n)
money d (negsuc n) = neg (half_up d (suc n))

-- Amount and rate, in millionths of a cent
abbrev pub in_base : ℤ → ℕ → ProvisionDb → ℤ
in_base amount currency_id db = scale (exchange_rate_to_base (get_currency currency_id db)) amount

abbrev pub sum : List ℤ → ℤ
sum [] = pos 0
sum (a ∷ rest) = a +ℤ sum rest

abbrev pub document_base : ProvisionDb → ProvisionDocument → ℤ
document_base db d = in_base d.amount d.currency_id db

unfoldable pub document_amount_base : ProvisionDocument → ProvisionDb → ℤ
document_amount_base d db = money one (document_base db d)

unfoldable pub expected_amount_base : Provision → ProvisionDb → ℤ
expected_amount_base p db = money one (in_base p.amount p.currency_id db)

unfoldable pub actual_amount_base : Provision → ProvisionDb → ℤ
actual_amount_base p db = money one (sum (map (document_base db) (documents_of p.id db)))

unfoldable pub actual_amount : Provision → ProvisionDb → ℤ
actual_amount p db =
    money (exchange_rate_to_base (get_currency p.currency_id db))
      (scale one (actual_amount_base p db))

-- `_variance_status`
unfoldable pub variance_status : ℤ → ℤ → String
variance_status expected actual =
    if lt expected actual then "EXCEDENTE" else if lt actual expected then "INFERIOR" else "EXACTO"
