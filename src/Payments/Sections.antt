-- ===== src/Payments/Sections.antt =====
-- The receipts with headings of app/api/finance/payment_provider/pdf_parser.py: one function per kind of
-- receipt, which reads the fields of its section.
use proyecto.Common.{not, ◌&&◌, Option, none, some, [], ◌∷◌, if◌then◌else◌}
use proyecto.Common.Chars.{codes}
use proyecto.Payments.Text.{Text, Unicode}
use proyecto.Payments.Amounts.{extraer_monto, nonempty_text}
use proyecto.Payments.Fields.{obtener_valor, extract_section}
use proyecto.Payments.Columns.{
  OperationColumns, extract_operation_column_values, ServiceColumns,
  extract_service_payment_column_values,
}
use proyecto.Payments.Consulta.{es_consulta_operaciones, extract_consulta_operaciones_operation}
use proyecto.Payments.Data.{
  PaymentData, no_data, OperationData, destination_account, transfer, service_payment, with_amount,
  amount_of, any_value, or_value,
}

module _ (u : Unicode) where
  abbrev pub destination_fields : Text → PaymentData
  destination_fields seccion =
      with_amount (amount_of extraer_monto (obtener_valor u seccion (codes "Monto")))
        (obtener_valor u seccion (codes "Monto"))
        (record no_data {
          titular = obtener_valor u seccion (codes "Titular");
          cuenta = obtener_valor u seccion (codes "Cuenta");
          tipo = obtener_valor u seccion (codes "Tipo");
          referencia = obtener_valor u seccion (codes "Referencia");
          source_section = some destination_account;
        })

  unfoldable pub extract_destination_data : Text → PaymentData
  extract_destination_data contenido = destination_fields (
      extract_section u contenido (codes "Datos de la cuenta de destino")
        (codes "Datos de envio de constancia"))

  abbrev pub transfer_amount : Text → Option Text
  transfer_amount seccion =
      any_value u seccion (codes "Monto total" ∷ codes "Monto" ∷ [])
        (obtener_valor u seccion (codes "Importe"))

  abbrev pub transfer_fields : Text → PaymentData
  transfer_fields seccion =
      with_amount (amount_of extraer_monto (transfer_amount seccion)) (transfer_amount seccion)
        (record no_data {
          titular =
              any_value u seccion
                (codes "Titular" ∷ codes "Beneficiario" ∷ codes "Razon social" ∷ [])
                (obtener_valor u seccion (codes "Razon social beneficiario"));
          cuenta =
              any_value u seccion (codes "Cuenta" ∷ codes "Cuenta destino" ∷ [])
                (obtener_valor u seccion (codes "Cuenta beneficiario"));
          tipo = obtener_valor u seccion (codes "Tipo");
          referencia =
              any_value u seccion
                (codes "Referencia" ∷ codes "Nro. operacion" ∷ codes "Numero de operacion" ∷ [])
                (obtener_valor u seccion (codes "Operacion"));
          ruc =
              any_value u seccion (codes "RUC" ∷ codes "Ruc" ∷ [])
                (obtener_valor u seccion (codes "Documento"));
          source_section = some transfer;
        })

  unfoldable pub extract_transfer_data : Text → PaymentData
  extract_transfer_data contenido = transfer_fields (
      extract_section u contenido (codes "Datos de la transferencia")
        (codes "Datos de envio de constancia"))

  -- `if not monto_info`: the amount of the columns
  abbrev pub with_column_amount : Option Text → Option Text → PaymentData → PaymentData
  with_column_amount original column data_ = elim (amount_of extraer_monto original) [
    | none ↦ with_amount (amount_of extraer_monto column) column data_
    | some info ↦ with_amount (some info) original data_
  ]

  -- `codigo_servicio or "N° DOC. PAGO" or "N DOC. PAGO"`
  abbrev pub reference_of : Text → Option Text → Option Text
  reference_of seccion codigo = or_value codigo (
      any_value u seccion (codes "N° DOC. PAGO" ∷ [])
        (obtener_valor u seccion (codes "N DOC. PAGO")))

  -- The fields that the three kinds of payments share, from titular, codigo_servicio and servicio
  abbrev pub payment_fields : Text → Option Text → Option Text → Option Text → PaymentData
  payment_fields seccion titular codigo servicio = record no_data {
    titular = titular;
    cuenta = codigo;
    tipo = or_value servicio (obtener_valor u seccion (codes "Tipo"));
    referencia = reference_of seccion codigo;
    source_section = some service_payment;
  }

  abbrev pub servicio_of : Text → ServiceColumns → Option Text
  servicio_of seccion columns =
      any_value u seccion (codes "Servicio a pagar" ∷ codes "Servico a pagar" ∷ []) columns.servicio

  abbrev pub service_fields : Text → ServiceColumns → PaymentData
  service_fields seccion columns =
      with_column_amount
        (any_value u seccion (codes "Monto a pagar" ∷ [])
          (obtener_valor u seccion (codes "Monto pagado")))
        columns.monto
        (payment_fields seccion
          (any_value u seccion (codes "Empresa proveedora" ∷ codes "EM. PROVEEDORA" ∷ [])
            columns.empresa_proveedora)
          (any_value u seccion
            (codes "Codigo de servicio" ∷ codes "Código de servicio" ∷ codes "Cod. servicio" ∷ [])
            columns.codigo_servicio)
          (servicio_of seccion columns))

  unfoldable pub extract_service_payment_data : Text → PaymentData
  extract_service_payment_data contenido =
      let seccion =
        extract_section u contenido (codes "Datos del pago")
          (codes "Datos de la cuenta de cargo") in
      service_fields seccion (extract_service_payment_column_values u seccion)

  abbrev pub banco_fields : Text → ServiceColumns → PaymentData
  banco_fields seccion columns =
      with_column_amount
        (any_value u seccion (codes "Monto total" ∷ [])
          (obtener_valor u seccion (codes "Monto pagado")))
        columns.monto
        (payment_fields seccion
          (any_value u seccion (codes "Nombre del beneficiario" ∷ []) columns.empresa_proveedora)
          (any_value u seccion
            (codes "Referencia" ∷ codes "Código de servicio" ∷ codes "Cod. servicio" ∷ [])
            columns.codigo_servicio)
          (servicio_of seccion columns))

  unfoldable pub extract_banco_beneficiario_data : Text → PaymentData
  extract_banco_beneficiario_data contenido =
      let seccion =
        extract_section u contenido (codes "Datos del banco beneficiario")
          (codes "Datos de la cuenta de cargo") in
      banco_fields seccion (extract_service_payment_column_values u seccion)

  abbrev pub local_transfer : Option Text
  local_transfer = some (codes "Transferencia a cuentas de terceros BCP local")

  -- The columns have no key "beneficiario".
  abbrev pub beneficiario_fields : Text → ServiceColumns → PaymentData
  beneficiario_fields seccion columns =
      with_column_amount
        (any_value u seccion (codes "Monto" ∷ []) (obtener_valor u seccion (codes "Monto pagado")))
        columns.monto
        (payment_fields seccion
          (any_value u seccion (codes "Beneficiario" ∷ codes "EM. PROVEEDORA" ∷ []) none)
          (any_value u seccion (codes "Codigo de servicio" ∷ []) local_transfer)
          (any_value u seccion (codes "Servicio a pagar" ∷ []) local_transfer))

  unfoldable pub extract_beneficiario_data : Text → PaymentData
  extract_beneficiario_data contenido =
      let seccion =
        extract_section u contenido (codes "Datos del beneficiario")
          (codes "Datos de la cuenta de cargo") in
      beneficiario_fields seccion (extract_service_payment_column_values u seccion)

  abbrev pub or_section : Text → Text → Text
  or_section [] other = other
  or_section (c ∷ t) other = c ∷ t

  abbrev pub operation_section : Text → Text
  operation_section contenido =
      or_section
        (extract_section u contenido (codes "Datos de la operacion")
          (codes "Datos de la cuenta de origen"))
        (or_section
          (extract_section u contenido (codes "Datos de la operacion")
            (codes "Datos de procesos de la operacion"))
          (extract_section u contenido (codes "Datos de operacion") (codes "Datos de orinen")))

  abbrev pub operation_fields : Text → OperationColumns → OperationData
  operation_fields seccion columns = record {
    fecha_envio =
        any_value u seccion (codes "Fecha de envio" ∷ [])
          (obtener_valor u seccion (codes "Fecha de operacion"));
    estado = any_value u seccion (codes "Estado" ∷ []) columns.estado;
    tipo_operacion = any_value u seccion (codes "Tipo de operacion" ∷ []) columns.tipo_operacion;
    fecha_proceso =
        any_value u seccion (codes "Fecha de proceso" ∷ codes "Fecha de operacion" ∷ [])
          columns.fecha_proceso;
    numero_operacion =
        any_value u seccion (codes "Numero de operacion" ∷ codes "Número de operación" ∷ [])
          columns.numero_operacion;
  }

  unfoldable pub extract_operation_data : Text → OperationData
  extract_operation_data contenido =
      let seccion = operation_section contenido in
      if not (nonempty_text seccion) && es_consulta_operaciones u contenido
      then extract_consulta_operaciones_operation u contenido
      else operation_fields seccion (extract_operation_column_values u seccion)
