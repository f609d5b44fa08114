-- ===== src/Payments/Enqueue/Tests.antt =====
-- Two suppliers, and the files of one upload.
use proyecto.Common.{ℕ, ◌+◌, ◌≡◌, refl, ap, true, none, some, List, [], ◌∷◌, arith, map}
use proyecto.Common.Chars.{codes}
use proyecto.Common.Value.{Value}
use proyecto.Core.Errors.{ok, err, conflict, type_error}
use proyecto.Core.Integrity.{committed}
use proyecto.Payments.Amounts.{number_from}
use proyecto.Payments.Text.{Text, normalizar_texto, normalizar_para_busqueda, strip}
use proyecto.Payments.Parser.{value, failure}
use proyecto.Payments.Fixtures.{plain_text, receipt, file, settings}
use proyecto.Payments.Providers.{
  PaymentProvider, Providers, ProviderUpdate, build_normalized_names, update_provider, apply_update,
  delete_provider, get_provider_by_tax_id, serve_provider, update_request, ProviderRequest,
}
use proyecto.Payments.Providers.Laws.{IsRegistry, AllApart}
use proyecto.Payments.Providers.Gone.{serve_all}
use proyecto.Payments.Providers.Registry.{serve_provider-IsRegistry}
use proyecto.Payments.Preview.{Upload, preview_files, parse_all}
use proyecto.Payments.Preview.Laws.{IsPreview, preview_files-Accounts}
use proyecto.Payments.Preview.Active.{IsAbsent, deleted-IsAbsent}
use proyecto.Payments.Enqueue.{
  MailingParameter, EmailRequest, get_mailing_parameter, parse_email_list, deduplicate_reference,
}
use proyecto.Payments.Enqueue.Send.{enqueue_payment_emails, JobSide}
use proyecto.Payments.Attachments.{first_unused}
use proyecto.Payments.Enqueue.Answer.{IsEnqueued, enqueue_payment_emails-IsEnqueued}

abbrev supplier : ℕ → Text → Text → PaymentProvider
supplier id tax_id legal_name = record {
  id = id;
  tax_id = tax_id;
  legal_name = legal_name;
  commercial_names = [];
  normalized_names = legal_name ∷ [];
  emails_payments = some (codes "pagos@acme.pe" ∷ []);
  active = true;
  created_by = none;
  updated_by = none;
}

abbrev suppliers : Providers
suppliers = supplier 3 (codes "201") (codes "ACME") ∷ supplier 4 (codes "202") (codes "LUZ") ∷ []

suppliers-AllApart : AllApart suppliers
suppliers-AllApart =
    (((λ e. omega (arith, e), λ e. omega (arith, ap (number_from 0) e)), tt), (tt, tt))

suppliers-IsRegistry : IsRegistry plain_text suppliers
unfolding build_normalized_names normalizar_texto normalizar_para_busqueda strip
suppliers-IsRegistry = (suppliers-AllApart, (refl, (refl, tt)))

abbrev renamed : ProviderUpdate
renamed = record {
  tax_id = some (some (codes " 203 "));
  legal_name = none;
  commercial_names = some (some (codes "Luz y Cia" ∷ codes "luz" ∷ []));
  emails_payments = none;
  active = none;
}

-- The blanks of the document go, and equal names stand once.
renamed_run :
    (map (λ p. p.tax_id) (update_provider plain_text none 4 9 renamed suppliers).1
      ≡ codes "201" ∷ codes "203" ∷ [])
    × (map (λ p. p.normalized_names) (update_provider plain_text none 4 9 renamed suppliers).1
        ≡ (codes "ACME" ∷ []) ∷ (codes "LUZ" ∷ codes "LUZ Y CIA" ∷ []) ∷ [])
unfolding update_provider apply_update get_provider_by_tax_id build_normalized_names
    normalizar_texto normalizar_para_busqueda strip committed
renamed_run = (refl, refl)

-- The document of another supplier, and a null list of names
refused_run :
    ((update_provider plain_text none 3 9
        (record renamed { tax_id = some (some (codes "202")) })
        suppliers).0
      ≡ err (conflict "Ya existe un proveedor con este RUC/RUT"))
    × ((update_provider plain_text none 3 9
          (record renamed { commercial_names = some none })
          suppliers).0
        ≡ err (type_error "Value after * must be an iterable, not NoneType"))
unfolding update_provider apply_update get_provider_by_tax_id build_normalized_names strip
refused_run = (refl, refl)

serve_provider-IsRegistry_example :
    IsRegistry plain_text (serve_provider plain_text (update_request none 4 9 renamed) suppliers)
serve_provider-IsRegistry_example =
    serve_provider-IsRegistry plain_text (update_request none 4 9 renamed) suppliers tt
      suppliers-IsRegistry

abbrev uploads : List Upload
uploads =
    record { file = file; reading = record { plumber = value receipt; ocr = failure [] } } ∷ []

preview_files-Accounts_example :
    IsPreview
      (parse_all plain_text settings uploads)
      (preview_files plain_text settings suppliers uploads)
preview_files-Accounts_example = preview_files-Accounts plain_text settings suppliers uploads

delete_done : (delete_provider 3 9 suppliers).0 ≡ ok true
unfolding delete_provider
delete_done = refl

-- The supplier who is left changes his document.
abbrev later : List ProviderRequest
later = update_request none 4 9 renamed ∷ []

deleted-IsAbsent_example : IsAbsent 3 (
    preview_files plain_text settings
      (serve_all plain_text later (delete_provider 3 9 suppliers).1)
      uploads)
deleted-IsAbsent_example =
    deleted-IsAbsent plain_text settings 3 9 suppliers later uploads suppliers-AllApart delete_done
      ((λ key on. omega (arith, key)), tt)

abbrev parameter : MailingParameter
parameter = record {
  id = 1;
  name = codes "payment_provider_summary";
  template = none;
  template_html = none;
  template_text = none;
  mp_from = none;
  to = none;
  subject = none;
  cc = some (codes "a@b.pe, ,c@d.pe");
  bcc = none;
  active = true;
}

parse_email_list_run : parse_email_list parameter.cc ≡ codes "a@b.pe" ∷ codes "c@d.pe" ∷ []
unfolding parse_email_list strip
parse_email_list_run = refl

deduplicate_reference_run :
    deduplicate_reference (codes "Enviar") (codes "Enviar" ∷ codes "Enviar #2" ∷ [])
    ≡ some (codes "Enviar #3")
unfolding deduplicate_reference first_unused
deduplicate_reference_run = refl

abbrev request : EmailRequest
request = record {
  mailing_parameter_id = none;
  mailing_parameter_name = none;
  subject_override = none;
  message_override = none;
  idempotency_key = none;
  batch_size = 10;
}

parameter_found : get_mailing_parameter (parameter ∷ []) none none ≡ ok parameter
unfolding get_mailing_parameter
parameter_found = refl

abbrev path_of : ℕ → Text
path_of k = 47 ∷ (48 + k) ∷ []

-- A writing of texts and payloads, and the ids that the job gets
abbrev side : JobSide
side = record {
  writing = record {
    string_of = λ t. "Enviar correo";
    json_of = λ payload. Value.null;
    staging_id = "a1";
  };
  surroundings = record { job_id = 1; batch_id = λ k. k; committed_meanwhile = [] };
  dispatcher = none;
  user_id = 9;
}

enqueue_payment_emails-IsEnqueued_example :
    IsEnqueued side request path_of uploads parameter []
      (parse_all plain_text settings uploads)
      (preview_files plain_text settings suppliers uploads)
      (enqueue_payment_emails plain_text settings
        (parameter ∷ [])
        suppliers
        path_of
        side
        request
        uploads
        [])
enqueue_payment_emails-IsEnqueued_example =
    enqueue_payment_emails-IsEnqueued plain_text settings (parameter ∷ []) suppliers path_of side
      request uploads parameter [] parameter_found
