-- ===== src/Payments/Enqueue.antt =====
-- `enqueue_payment_emails` of `PaymentProviderService`: the references and the payloads of its job (app/api/finance/payment_provider/payment_provider_service.py).
pub mod References
pub mod Laws
pub mod Answer
pub mod Send
mod Tests
use proyecto.Common.{
  ℕ, zero, suc, ◌+◌, Bool, true, false, not, ◌&&◌, Option, none, some, List, [], ◌∷◌, ◌++◌, map,
  ◌==◌, length, take, if◌then◌else◌, find, String,
}
use proyecto.Common.Chars.{codes}
use proyecto.Core.Errors.{
  Result, ok, err, not_found, validation, value_error, invalid_operation, Exec,
}
use proyecto.Common.Value.{Dict, Value}
use proyecto.Jobs.Model.{Uuid, JobTriggerSource, payment_provider_email, Job}
use proyecto.Jobs.Repository.{Db}
use proyecto.Jobs.Service.{Dispatcher}
use proyecto.Jobs.Create.{JobRequest, Surroundings, create_job}
use proyecto.Payments.Text.{Text, Unicode, text_eq, strip}
use proyecto.Payments.Amounts.{nonempty_text}
use proyecto.Payments.Amounts.Digits.{digits_of}
use proyecto.Payments.Data.{or_value}
use proyecto.Payments.Parser.{Settings}
use proyecto.Payments.Groups.{Group, SerializedGroup, Totals, PaymentItem, text_or}
use proyecto.Payments.Attachments.{contains, first_unused, Attachment, build_email_job_attachments}
use proyecto.Payments.Providers.{Providers}
use proyecto.Payments.Preview.{Upload, Preview, preview_files}

pub record MailingParameter : Type 0 where
  pub id : ℕ
  pub name : Text
  pub template : Option Text
  pub template_html : Option Text
  pub template_text : Option Text
  pub mp_from : Option Text
  pub to : Option Text
  pub subject : Option Text
  pub cc : Option Text
  pub bcc : Option Text
  pub active : Bool

abbrev pub by_name : Text → MailingParameter → Bool
by_name name p = text_eq p.name name

abbrev pub by_id : ℕ → MailingParameter → Bool
by_id id p = p.id == id

-- `if parameter_name`, else the name of the default
abbrev pub asked_name : Option Text → Text
asked_name none = codes "payment_provider_summary"
asked_name (some []) = codes "payment_provider_summary"
asked_name (some (c ∷ t)) = c ∷ t

abbrev pub asked_parameter :
    List MailingParameter → Option ℕ → Option Text → Option MailingParameter
asked_parameter table none name = find (by_name (asked_name name)) table
asked_parameter table (some zero) name = find (by_name (asked_name name)) table
asked_parameter table (some (suc n)) name = find (by_id (suc n)) table

abbrev pub active_or_404 : Option MailingParameter → Result MailingParameter
active_or_404 none = err (not_found "Parametro de correo no encontrado o inactivo")
active_or_404 (some p) =
    if p.active then ok p else err (not_found "Parametro de correo no encontrado o inactivo")

unfoldable pub get_mailing_parameter :
    List MailingParameter → Option ℕ → Option Text → Result MailingParameter
get_mailing_parameter table id name = active_or_404 (asked_parameter table id name)

-- `parse_email_list` of app/services/email/email_service.py, of a text
abbrev pub with_char : ℕ → List Text → List Text
with_char c [] = (c ∷ []) ∷ []
with_char c (t ∷ texts) = (c ∷ t) ∷ texts

abbrev pub split_commas : Text → List Text
split_commas [] = [] ∷ []
split_commas (c ∷ t) = let rest = split_commas t in if c == 44 then [] ∷ rest else with_char c rest

abbrev pub stripped : List Text → List Text
stripped [] = []
stripped (t ∷ texts) =
    let rest = stripped texts in if nonempty_text (strip t) then strip t ∷ rest else rest

unfoldable pub parse_email_list : Option Text → List Text
parse_email_list none = []
parse_email_list (some value) = stripped (split_commas value)

unfoldable pub clean_optional_text : Option Text → Option Text
clean_optional_text none = none
clean_optional_text (some value) = if nonempty_text (strip value) then some (strip value) else none

-- `_build_mail_parameters`
pub record MailParameters : Type 0 where
  pub provider_id : Option ℕ
  pub provider_tax_id : Option Text
  pub proveedor : Text
  pub titular_pdf : Option Text
  pub cantidad_pagos : ℕ
  pub totales : Totals
  pub pagos : List PaymentItem

abbrev pub build_mail_parameters : Group → MailParameters
build_mail_parameters g = record {
  provider_id = g.provider_id;
  provider_tax_id = g.provider_tax_id;
  proveedor = g.proveedor;
  titular_pdf = g.titular_pdf;
  cantidad_pagos = g.cantidad_pagos;
  totales = g.totales;
  pagos = g.pagos;
}

-- `_make_json_safe` only writes keys and decimals as texts.
pub record EmailPayload : Type 0 where
  pub provider_id : Option ℕ
  pub provider : Text
  pub to : List Text
  pub cc : List Text
  pub bcc : List Text
  pub subject : Option Text
  pub message_override : Option Text
  pub parameters : MailParameters
  pub mailing_parameter : MailingParameter
  pub attachments : List Attachment

-- What is the same for all groups of a call
pub record Mailing : Type 0 where
  pub parameter : MailingParameter
  pub subject_override : Option Text
  pub message_override : Option Text
  pub paths : Option Text → Option Text

abbrev pub payload_with : Mailing → Group → Option (List Attachment) → Option EmailPayload
payload_with m g none = none
payload_with m g (some attachments) = some (record {
  provider_id = g.provider_id;
  provider = g.proveedor;
  to = g.emails_payments ++ parse_email_list m.parameter.to;
  cc = parse_email_list m.parameter.cc;
  bcc = parse_email_list m.parameter.bcc;
  subject = clean_optional_text m.subject_override;
  message_override = clean_optional_text m.message_override;
  parameters = build_mail_parameters g;
  mailing_parameter = m.parameter;
  attachments = attachments;
})

unfoldable pub build_email_job_payload : Mailing → Group → Option EmailPayload
build_email_job_payload m g = payload_with m g (build_email_job_attachments m.paths g.pagos)

-- `provider_group.get("proveedor") or provider_group.get("titular_pdf") or ...`
abbrev pub provider_name : Group → Text
provider_name g = text_or (or_value (some g.proveedor) g.titular_pdf) (codes "Proveedor sin nombre")

unfoldable pub build_email_job_reference : Group → Text
build_email_job_reference g = take 120 (codes "Enviar correo - " ++ provider_name g)

-- `f"{base} #{counter}"`
abbrev pub numbered_reference : Text → ℕ → Text
numbered_reference base counter = base ++ (32 ∷ 35 ∷ digits_of (suc counter) counter)

-- One round more than there are payloads is enough.
unfoldable pub deduplicate_reference : Text → List Text → Option Text
deduplicate_reference reference_ used =
    first_unused (suc (length used)) (numbered_reference (take 116 reference_)) 2 used

abbrev pub keys : List (Text × EmailPayload) → List Text
keys payloads = map (λ e. e.0) payloads

-- `payloads[reference] = payload`
unfoldable pub put_payload :
    Text → EmailPayload → List (Text × EmailPayload) → List (Text × EmailPayload)
put_payload key payload [] = (key, payload) ∷ []
put_payload key payload (e ∷ payloads) =
    let rest = put_payload key payload payloads in
    if text_eq e.0 key then (e.0, payload) ∷ payloads else e ∷ rest

pub record Queue : Type 0 where
  pub references : List Text
  pub payloads : List (Text × EmailPayload)

unfoldable pub reference_for : Group → List Text → Option Text
reference_for g used =
    let other = deduplicate_reference (build_email_job_reference g) used in
    if contains (build_email_job_reference g) used
    then other
    else some (build_email_job_reference g)

abbrev pub queued : Queue → Option Text → Option EmailPayload → Option Queue
queued q (some key) (some payload) = some (record {
  references = q.references ++ (key ∷ []);
  payloads = put_payload key payload q.payloads;
})
queued q _ _ = none

-- One round of the loop over the groups; none where it raises
abbrev pub queue_group : Mailing → Queue → Group → Option Queue
queue_group m q g = queued q (reference_for g (keys q.payloads)) (build_email_job_payload m g)

abbrev pub queue_then : Option Queue → (Queue → Option Queue) → Option Queue
queue_then none more = none
queue_then (some q) more = more q

unfoldable pub queue_groups : Mailing → Queue → List SerializedGroup → Option Queue
queue_groups m q [] = some q
queue_groups m q (s ∷ groups) =
    queue_then (queue_group m q s.group) (λ next. queue_groups m next groups)

-- `path_by_name[file.filename] = ...`: a later file of the same name replaces the path. The path of
-- the k-th file is new.
abbrev pub same_name : Option Text → Option Text → Bool
same_name none none = true
same_name (some s) (some t) = text_eq s t
same_name _ _ = false

abbrev pub saved_path : (ℕ → Text) → ℕ → List Upload → Option Text → Option Text
saved_path path k [] name = none
saved_path path k (f ∷ files) name = elim (saved_path path (k + 1) files name) [
  | some later ↦ some later
  | none ↦ if same_name f.file.filename name then some (path k) else none
]

abbrev pub queue_or_raise : Option Queue → Result Queue
queue_or_raise none = err (value_error "not enough values to unpack")
queue_or_raise (some q) = ok q

-- The form of the request; a size below zero is refused like zero.
pub record EmailRequest : Type 0 where
  pub mailing_parameter_id : Option ℕ
  pub mailing_parameter_name : Option Text
  pub subject_override : Option Text
  pub message_override : Option Text
  pub idempotency_key : Option String
  pub batch_size : ℕ

abbrev pub mailing_for : EmailRequest → MailingParameter → (ℕ → Text) → List Upload → Mailing
mailing_for request parameter path files = record {
  parameter = parameter;
  subject_override = request.subject_override;
  message_override = request.message_override;
  paths = saved_path path 0 files;
}
