-- ===== src/Payments/Tests.antt =====
-- Receipts, fields and amounts at small texts.
use proyecto.Common.{
  ℕ, map, Option, List, arith, ◌≡◌, refl, true, none, some, [], ◌∷◌, ◌++◌, ◌==◌, if◌then◌else◌,
}
use proyecto.Common.Chars.{codes}
use proyecto.Payments.Text.{
  Text, Unicode, normalizar_para_busqueda, normalizar_texto, clave_documento, clave_comparacion,
  upper, strip,
}
use proyecto.Payments.Amounts.{
  Decimal, extraer_monto, extraer_importe_cargado, normalizar_moneda, to_decimal,
}
use proyecto.Payments.Amounts.Laws.{
  sol, print_amount, symbol_text, symbol_currency, extraer_monto-print_amount,
}
use proyecto.Payments.Fields.{obtener_valor}
use proyecto.Payments.Data.{no_data}
use proyecto.Payments.Attachments.{
  first_unused, deduplicate_filename, attachments_from, build_email_job_attachments,
}
use proyecto.Payments.Attachments.Shipped.{IsShipped, group-Ships}
use proyecto.Payments.Fixtures.{plain_text, receipt, file, settings}
use proyecto.Payments.Filenames.{
  build_pdf_filename, sanitize_filename_part, parse_pdf_date, build_date_label, currency_symbol,
}
use proyecto.Payments.Groups.{
  Provider, Payment, PaymentItem, group, group_from, put_payment, add_total, add, find_provider,
  group_status, SerializedGroup, serialize_group, serialize_all,
}
use proyecto.Payments.Groups.Serialized.{AllMade}
use proyecto.Payments.Groups.Conserves.{AllSmall, HasAllPayments, group_conserves}
use proyecto.Payments.Quantize.{quantize}
use proyecto.Payments.Parser.{value, failure, parse, validate_file, extract_pdf_text}
use proyecto.Payments.Parser.Laws.{IsResult, parse-IsResult}

extraer_monto-print_amount_example :
    extraer_monto (print_amount sol 437279)
    ≡ some (record {
      texto = strip (print_amount sol 437279);
      moneda_original = symbol_text sol;
      moneda = symbol_currency sol;
      monto = record { digits = 437279; places = 2 };
    })
extraer_monto-print_amount_example = extraer_monto-print_amount sol 437279

print_amount_run : print_amount sol 437279 ≡ codes "S/ 4,372.79"
print_amount_run = refl

-- The point for thousands of another country is no amount.
extraer_run :
    (extraer_monto (codes "S/. 1.234,50") ≡ none)
    × (extraer_importe_cargado (codes "26,664.61 DOLARES")
        ≡ some (record {
          texto = codes "26,664.61 DOLARES";
          moneda_original = codes "DOLARES";
          moneda = codes "USD";
          monto = record { digits = 2666461; places = 2 };
        }))
unfolding extraer_monto extraer_importe_cargado normalizar_moneda strip to_decimal
extraer_run = (refl, refl)

-- The field stands on the second line.
abbrev first_line : Text
first_line = codes "Pago" ++ (10 ∷ [])

-- A character that is two in upper case, before the value, moves the cut by one.
abbrev german : Unicode
german = record {
  to_upper = λ c. if c == 223 then 83 ∷ 83 ∷ [] else upper c ∷ [];
  fold = λ c. if c == 223 then 83 ∷ 83 ∷ [] else upper c ∷ [];
  is_word = λ c. true;
}

shifted_run :
    obtener_valor german (223 ∷ 10 ∷ codes "Titular: ACME") (codes "Titular") ≡ some (codes "CME")
unfolding obtener_valor strip normalizar_para_busqueda
shifted_run = refl

parse-IsResult_example :
    IsResult plain_text
      (validate_file file)
      (extract_pdf_text settings (record { plumber = value receipt; ocr = failure [] }))
      (parse plain_text settings file (record { plumber = value receipt; ocr = failure [] }))
parse-IsResult_example =
    parse-IsResult plain_text settings file (record { plumber = value receipt; ocr = failure [] })

abbrev acme : Provider
acme = record {
  id = 3;
  tax_id = some (codes "20100000001");
  legal_name = codes "ACME SAC";
  normalized_names = codes "ACME" ∷ [];
  emails_payments = codes "pagos@acme.pe" ∷ [];
}

-- The document has a blank, and the name does not matter; the second payment has no document.
abbrev paid : Text → Text → Decimal → Text → Payment
paid ruc titular monto moneda = record {
  archivo = some (codes "a.pdf");
  destino = record no_data { ruc = some ruc; titular = some titular };
  operacion = record {
    fecha_envio = some (codes "05/11/2025 10:30");
    estado = none;
    tipo_operacion = none;
    fecha_proceso = none;
    numero_operacion = none;
  };
  monto = monto;
  moneda = moneda;
}

abbrev paid_list : List Payment
paid_list =
    paid (codes "2010 0000001") (codes "Otro") (record { digits = 1250; places = 2 }) (codes "PEN")
    ∷ paid [] (codes "acme") (record { digits = 35; places = 1 }) (codes "PEN")
    ∷ paid [] (codes "Luz") (record { digits = 8; places = 0 }) (codes "USD")
    ∷ []

paid_list-AllSmall : AllSmall paid_list
paid_list-AllSmall = ((omega arith, (omega arith, (omega arith, tt))), λ currency. ground arith)

group_conserves_example :
    (grouped : List SerializedGroup) × (group plain_text (acme ∷ []) paid_list ≡ some grouped)
    × HasAllPayments paid_list grouped
group_conserves_example = group_conserves plain_text (acme ∷ []) paid_list paid_list-AllSmall

abbrev cents : ℕ → ℕ → Decimal
cents digits places = record { digits = digits; places = places }

-- Half a cent is written as none, and one and a half as two; twenty-nine digits raise.
quantize_run :
    (quantize (cents 5 3) ≡ some (cents 0 2))
    × (quantize (cents 15 3) ≡ some (cents 2 2))
    × (quantize (cents 8 0) ≡ some (cents 800 2))
    × (quantize (cents 100000000000000000000000000000 2) ≡ none)
unfolding quantize
quantize_run = (refl, refl, refl, refl)

-- Two groups: both payments of the supplier are in the first.
abbrev totals_of : Option (List SerializedGroup) → List (List (Text × Decimal))
totals_of none = []
totals_of (some grouped) = map (λ s. s.group.totales) grouped

groups_run :
    totals_of (group plain_text (acme ∷ []) paid_list)
    ≡ ((codes "PEN", cents 1600 2) ∷ []) ∷ ((codes "USD", cents 800 2) ∷ []) ∷ []
unfolding group group_from serialize_all serialize_group quantize put_payment add_total add
    find_provider group_status clave_documento clave_comparacion normalizar_texto strip
    normalizar_para_busqueda currency_symbol build_pdf_filename
groups_run = refl

filename_run :
    build_pdf_filename plain_text (some (codes "Luz & Cia. S.A.")) (some (codes "5/11/2025 10:30"))
    ≡ codes "LUZ_CIA._S.A_NOVIEMBRE_05.pdf"
unfolding build_pdf_filename sanitize_filename_part build_date_label parse_pdf_date normalizar_texto
    strip normalizar_para_busqueda
filename_run = refl

-- Three payments of one day, of which the second has no stored file
abbrev item_of : Option Text → PaymentItem
item_of archivo = record {
  payment = record (paid [] (codes "Luz") (record { digits = 8; places = 0 }) (codes "USD")) {
    archivo = archivo;
  };
  moneda_simbolo = codes "US$";
  suggested_filename = codes "L_5.pdf";
}

abbrev items_of_day : List PaymentItem
items_of_day = item_of (some (codes "a.pdf")) ∷ item_of none ∷ item_of (some (codes "c.pdf")) ∷ []

deduplicate_run :
    deduplicate_filename (codes "L.pdf") (codes "L_2.pdf" ∷ codes "L.pdf" ∷ [])
    ≡ some (codes "L_3.pdf")
unfolding deduplicate_filename first_unused
deduplicate_run = refl

-- One e-mail with two files of the same name
both_run :
    build_email_job_attachments (λ name. name) items_of_day
    ≡ some (
        record { file_path = some (codes "a.pdf"); filename = codes "L_5.pdf" }
        ∷ record { file_path = some (codes "c.pdf"); filename = codes "L_5_2.pdf" }
        ∷ [])
unfolding attachments_from deduplicate_filename first_unused
both_run = refl

group-Ships_example : AllMade (IsShipped (λ name. name)) (group plain_text (acme ∷ []) paid_list)
group-Ships_example = group-Ships (λ name. name) plain_text (acme ∷ []) paid_list
