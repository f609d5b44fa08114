-- ===== src/Payments/Columns.antt =====
-- The receipts whose labels and values stand in columns: `_extract_operation_column_values`,
-- `_extract_service_payment_column_values` and `_looks_like_noise_service_value` of
-- app/api/finance/payment_provider/pdf_parser.py.
use proyecto.Common.{
  ℕ, ◌-◌, Bool, false, not, ◌&&◌, ◌||◌, Option, none, some, List, [], ◌∷◌, ◌++◌, ◌==◌, leb,
  if◌then◌else◌, length, drop, any, all, select,
}
use proyecto.Common.Chars.{codes}
use proyecto.Payments.Text.{
  Text, Unicode, normalizar_para_busqueda, is_digit, is_upper, text_eq, strip, is_some, lines_of,
  span_take,
}
use proyecto.Payments.Amounts.{extraer_monto, nonempty_text}

abbrev pub is_among : List Text → Text → Bool
is_among labels line = any (λ label. text_eq label line) labels

-- `lines[max(label_indexes) + 1:]`: what follows the last label; without a label `none`
abbrev pub after_last : Unicode → List Text → List Text → Option (List Text)
after_last u labels [] = none
after_last u labels (line ∷ lines) =
    let later = after_last u labels lines in
    elim later [
      | some rest ↦ some rest
      | none ↦ if is_among labels (normalizar_para_busqueda u line) then some lines else none
    ]

pub record OperationColumns : Type 0 where
  pub tipo_operacion : Option Text
  pub estado : Option Text
  pub numero_operacion : Option Text
  pub fecha_proceso : Option Text

abbrev pub no_columns : OperationColumns
no_columns = record {
  tipo_operacion = none;
  estado = none;
  numero_operacion = none;
  fecha_proceso = none;
}

-- `.replace("•", "").replace("e ", "")`
abbrev pub not_bullet : ℕ → Bool
not_bullet c = not (c == 8226)

abbrev pub without_e : Text → Text
without_e [] = []
without_e (c ∷ []) = c ∷ []
without_e (c ∷ d ∷ t) =
    let shorter = without_e t in
    let longer = without_e (d ∷ t) in if c == 101 && d == 32 then shorter else c ∷ longer

abbrev pub operation_columns : List Text → OperationColumns
operation_columns (tipo ∷ estado ∷ numero ∷ fecha ∷ more) = record {
  tipo_operacion = some tipo;
  estado = some (strip (without_e (select not_bullet estado)));
  numero_operacion = some numero;
  fecha_proceso = some fecha;
}
operation_columns _ = no_columns

abbrev pub operation_labels : List Text
operation_labels =
    codes "TIPO DE OPERACION"
    ∷ codes "ESTADO"
    ∷ codes "NUMERO DE OPERACION"
    ∷ codes "FECHA DE PROCESO"
    ∷ []

abbrev pub columns_after : Option (List Text) → OperationColumns
columns_after none = no_columns
columns_after (some values) = operation_columns values

unfoldable pub extract_operation_column_values : Unicode → Text → OperationColumns
extract_operation_column_values u seccion =
    columns_after (after_last u operation_labels (lines_of seccion))

pub record ServiceColumns : Type 0 where
  pub empresa_proveedora : Option Text
  pub servicio : Option Text
  pub codigo_servicio : Option Text
  pub monto : Option Text

abbrev pub service_labels : List Text
service_labels =
    codes "BENEFICIARIO"
    ∷ codes "SERVICIO A PAGAR"
    ∷ codes "SERVICO A PAGAR"
    ∷ codes "TITULAR DEL SERVICIO"
    ∷ codes "CODIGO DE SERVICIO"
    ∷ codes "MONTO A PAGAR"
    ∷ []

-- From the last label on, or all lines without one
abbrev pub or_all : List Text → Option (List Text) → List Text
or_all lines none = lines
or_all lines (some rest) = rest

-- The text of the first amount, and the lines before it
abbrev pub first_amount : List Text → Option Text
first_amount [] = none
first_amount (line ∷ lines) =
    let later = first_amount lines in
    elim (extraer_monto line) [ none ↦ later | some info ↦ some info.texto ]

abbrev pub before_amount : List Text → List Text
before_amount [] = []
before_amount (line ∷ lines) =
    let rest = before_amount lines in if is_some (extraer_monto line) then [] else line ∷ rest

-- `\b\d{6,}[A-Z0-9]*\b`: a word of capitals and digits that begins with six digits
abbrev pub is_code_char : ℕ → Bool
is_code_char c = is_upper c || is_digit c

abbrev pub is_code_word : Text → Bool
is_code_word word = leb 6 (length (span_take is_digit word)) && all is_code_char word

-- The words, the one that these characters began first
abbrev pub has_code_from : Unicode → Text → Text → Bool
has_code_from u begun [] = is_code_word begun
has_code_from u begun (c ∷ t) =
    let longer = has_code_from u (begun ++ (c ∷ [])) t in
    let ended = has_code_from u [] t in if u.is_word c then longer else is_code_word begun || ended

abbrev pub has_code : Unicode → Text → Bool
has_code u line = has_code_from u [] (normalizar_para_busqueda u line)

-- The last line that has a code, and the lines before it
abbrev pub last_code : Unicode → List Text → Option (List Text × Text)
last_code u [] = none
last_code u (line ∷ lines) =
    let later = last_code u lines in
    elim later [
      | some found ↦ some (line ∷ found.0, found.1)
      | none ↦ if has_code u line then some ([], line) else none
    ]

-- `\d{1,2}/\d{1,2}/\d{2,4}` somewhere in the line
abbrev pub slash : ℕ
slash = 47

abbrev pub ends_date : Text → Bool
ends_date (a ∷ b ∷ t) = is_digit a && is_digit b
ends_date _ = false

abbrev pub day_then : (Text → Bool) → Text → Bool
day_then rest (a ∷ b ∷ []) = false
day_then rest (a ∷ b ∷ c ∷ t) =
    (is_digit a && b == slash && rest (c ∷ t)) || (is_digit a && is_digit b && c == slash && rest t)
day_then rest _ = false

abbrev pub has_date : Text → Bool
has_date [] = false
has_date (c ∷ t) = day_then (day_then ends_date) (c ∷ t) || has_date t

unfoldable pub looks_like_noise_service_value : Unicode → Text → Bool
looks_like_noise_service_value u value =
    let normalized = normalizar_para_busqueda u value in
    has_date normalized || (nonempty_text normalized && all is_digit normalized)

abbrev pub is_candidate : Unicode → Text → Bool
is_candidate u line = not (looks_like_noise_service_value u line)

-- `candidate_lines[-3:]`
abbrev pub last_three : List Text → List Text
last_three lines = drop (length lines - 3) lines

abbrev pub first_value : List Text → Option Text
first_value [] = none
first_value (a ∷ more) = some a

abbrev pub second_value : List Text → Option Text
second_value (a ∷ b ∷ more) = some b
second_value _ = none

abbrev pub service_columns : Unicode → Option Text → Option (List Text × Text) → ServiceColumns
service_columns u monto none = record {
  empresa_proveedora = none;
  servicio = none;
  codigo_servicio = none;
  monto = monto;
}
service_columns u monto (some found) =
    let value_block : List Text = last_three (select (is_candidate u) found.0) in
    record {
      empresa_proveedora = first_value value_block;
      servicio = second_value value_block;
      codigo_servicio = some found.1;
      monto = monto;
    }

abbrev pub columns_of_lines : Unicode → List Text → ServiceColumns
columns_of_lines u lines =
    service_columns u (first_amount lines) (last_code u (before_amount lines))

unfoldable pub extract_service_payment_column_values : Unicode → Text → ServiceColumns
extract_service_payment_column_values u seccion =
    let lines = lines_of seccion in
    columns_of_lines u (or_all lines (after_last u service_labels lines))
