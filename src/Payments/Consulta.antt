-- ===== src/Payments/Consulta.antt =====
-- The receipts "Consulta de Operaciones" of app/api/finance/payment_provider/pdf_parser.py: a flat list of
-- labels and values, whose beneficiary may be spread over lines.
use proyecto.Common.{
  ℕ, Bool, false, ◌&&◌, ◌||◌, Option, none, some, List, [], ◌∷◌, ◌++◌, ◌==◌, leb, if◌then◌else◌,
  length, take, any,
}
use proyecto.Common.Chars.{codes}
use proyecto.Payments.Text.{
  Text, Unicode, normalizar_para_busqueda, is_digit, strip, skip_space, contains, starts_with,
  lines_of, span_take, span_drop,
}
use proyecto.Payments.Amounts.{extraer_importe_cargado, nonempty_text, matched}
use proyecto.Payments.Fields.{obtener_valor}
use proyecto.Payments.Data.{
  PaymentData, no_data, OperationData, consulta_operaciones, with_amount, amount_of,
}

unfoldable pub es_consulta_operaciones : Unicode → Text → Bool
es_consulta_operaciones u contenido =
    contains (codes "CONSULTA DE OPERACIONES") (normalizar_para_busqueda u contenido)

abbrev pub beneficiario_stop_labels : List Text
beneficiario_stop_labels =
    codes "FECHA / HORA"
    ∷ codes "DOC. IDENTIDAD"
    ∷ codes "TIPO DE CAMBIO"
    ∷ codes "NUMERO DE CONTRATO"
    ∷ codes "REFERENCIA"
    ∷ codes "BANCO DESTINO"
    ∷ []

-- The lines up to the next field
abbrev pub is_stop : Unicode → Text → Bool
is_stop u line =
    any (λ stop. starts_with stop (normalizar_para_busqueda u line)) beneficiario_stop_labels

abbrev pub until_stop : Unicode → List Text → List Text
until_stop u [] = []
until_stop u (line ∷ lines) =
    let rest = until_stop u lines in if is_stop u line then [] else line ∷ rest

-- `re.match(r"^\s*Cuenta\s*/\s*Tarjeta\s*/\s*Servicio\s*Beneficiario\s*(.*)$", line)`: the words with
-- white space between them, without regard to case; what follows on the line
abbrev pub after_word : Text → Option Text → Option Text
after_word word none = none
after_word word (some t) = elim (matched word (skip_space t)) [ none ↦ none | some m ↦ some m.1 ]

abbrev pub text_or_empty : Option Text → Text
text_or_empty none = []
text_or_empty (some t) = strip t

abbrev pub same_line : Text → Text
same_line line = text_or_empty (
    after_word (codes "BENEFICIARIO") (
      after_word (codes "SERVICIO") (
        after_word (codes "/") (
          after_word (codes "TARJETA")
            (after_word (codes "/") (after_word (codes "CUENTA") (some line)))))))

-- `re.search(r"\d{15,}", line)`
abbrev pub has_long_number : Text → Bool
has_long_number [] = false
has_long_number (c ∷ t) = leb 15 (length (span_take is_digit (c ∷ t))) || has_long_number t

abbrev pub line_above : Unicode → Option Text → List Text
line_above u none = []
line_above u (some line) =
    if has_long_number (normalizar_para_busqueda u line) then line ∷ [] else []

-- The value on the label's line, or the account and the beginning of the name above it
abbrev pub first_piece : Unicode → Option Text → Text → List Text
first_piece u above line =
    if nonempty_text (same_line line) then same_line line ∷ [] else line_above u above

-- `" ".join(pieces)`
abbrev pub join_words : List Text → Text
join_words [] = []
join_words (piece ∷ []) = piece
join_words (piece ∷ next ∷ more) = piece ++ (32 ∷ join_words (next ∷ more))

abbrev pub label_norm : Text
label_norm = codes "CUENTA / TARJETA / SERVICIO BENEFICIARIO"

-- From the first line with the label, with the line above it
abbrev pub beneficiario_pieces : Unicode → Option Text → List Text → Option (List Text)
beneficiario_pieces u above [] = none
beneficiario_pieces u above (line ∷ lines) =
    let later = beneficiario_pieces u (some line) lines in
    if starts_with label_norm (normalizar_para_busqueda u line)
    then some (first_piece u above line ++ until_stop u lines)
    else later

abbrev pub or_none : Text → Option Text
or_none [] = none
or_none (c ∷ t) = some (c ∷ t)

-- The digits at the beginning are the account, the rest is the name. The text has one line.
abbrev pub split_stripped : Text → Option Text × Option Text
split_stripped valor =
    if nonempty_text (span_take is_digit valor)
    then (some (span_take is_digit valor), or_none (strip (span_drop is_digit valor)))
    else (none, or_none valor)

unfoldable pub split_cuenta_beneficiario : Text → Option Text × Option Text
split_cuenta_beneficiario [] = (none, none)
split_cuenta_beneficiario (c ∷ t) = split_stripped (strip (c ∷ t))

abbrev pub split_pieces : Option (List Text) → Option Text × Option Text
split_pieces none = (none, none)
split_pieces (some pieces) = split_cuenta_beneficiario (strip (join_words pieces))

unfoldable pub extract_beneficiario_field : Unicode → Text → Option Text × Option Text
extract_beneficiario_field u contenido =
    split_pieces (beneficiario_pieces u none (lines_of contenido))

-- `re.search(r"(\d{8,15})", valor)`: the first fifteen of a run of eight digits or more
abbrev pub first_document : Text → Option Text
first_document [] = none
first_document (c ∷ t) =
    let later = first_document t in
    if leb 8 (length (span_take is_digit (c ∷ t)))
    then some (take 15 (span_take is_digit (c ∷ t)))
    else later

abbrev pub extraer_documento : Option Text → Option Text
extraer_documento none = none
extraer_documento (some valor) = first_document valor

unfoldable pub extract_consulta_operaciones_data : Unicode → Text → PaymentData
extract_consulta_operaciones_data u contenido =
    if es_consulta_operaciones u contenido
    then with_amount
        (amount_of extraer_importe_cargado (obtener_valor u contenido (codes "Importe Cargado")))
        (obtener_valor u contenido (codes "Importe Cargado"))
        (record no_data {
          titular = (extract_beneficiario_field u contenido).1;
          cuenta = (extract_beneficiario_field u contenido).0;
          tipo = obtener_valor u contenido (codes "Tipo de Operacion");
          referencia = obtener_valor u contenido (codes "Referencia");
          ruc = extraer_documento (obtener_valor u contenido (codes "Doc. Identidad"));
          source_section = some consulta_operaciones;
        })
    else no_data

-- `(\d{4})[-/](\d{2})[-/](\d{2})`, the first one, as day/month/year
abbrev pub is_dash : ℕ → Bool
is_dash c = c == 45 || c == 47

abbrev pub date_at : Text → Option Text
date_at (y ∷ e ∷ a ∷ r ∷ p ∷ m ∷ n ∷ q ∷ d ∷ f ∷ t) =
    if is_digit y
      && is_digit e
      && is_digit a
      && is_digit r
      && is_dash p
      && is_digit m
      && is_digit n
      && is_dash q
      && is_digit d
      && is_digit f
    then some (d ∷ f ∷ 47 ∷ m ∷ n ∷ 47 ∷ y ∷ e ∷ a ∷ r ∷ [])
    else none
date_at _ = none

abbrev pub first_date : Text → Option Text
first_date [] = none
first_date (c ∷ t) =
    let later = first_date t in elim (date_at (c ∷ t)) [ none ↦ later | some found ↦ some found ]

abbrev pub date_or : Text → Option Text → Text
date_or valor none = valor
date_or valor (some found) = found

unfoldable pub normalizar_fecha : Option Text → Option Text
normalizar_fecha none = none
normalizar_fecha (some []) = none
normalizar_fecha (some (c ∷ t)) = some (date_or (c ∷ t) (first_date (c ∷ t)))

abbrev pub done_state : Unicode → Text → Option Text
done_state u contenido =
    if contains (codes "SU OPERACION HA SIDO REALIZADA") (normalizar_para_busqueda u contenido)
    then some (codes "Realizada")
    else none

unfoldable pub extract_consulta_operaciones_operation : Unicode → Text → OperationData
extract_consulta_operaciones_operation u contenido =
    let fecha = normalizar_fecha (obtener_valor u contenido (codes "Fecha / Hora")) in
    record {
      fecha_envio = fecha;
      estado = done_state u contenido;
      tipo_operacion = obtener_valor u contenido (codes "Tipo de Operacion");
      fecha_proceso = fecha;
      numero_operacion = obtener_valor u contenido (codes "Numero de Operacion");
    }
