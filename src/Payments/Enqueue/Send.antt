-- ===== src/Payments/Enqueue/Send.antt =====
-- The job that `enqueue_payment_emails` of `PaymentProviderService` creates for a preview
-- (app/api/finance/payment_provider/payment_provider_service.py).
use proyecto.Common.{ℕ, Option, none, some, List, [], map, if◌then◌else◌, String}
use proyecto.Core.Errors.{Result, ok, err, validation, invalid_operation, Exec}
use proyecto.Common.Value.{Dict, Value}
use proyecto.Jobs.Model.{Uuid, JobTriggerSource, payment_provider_email, Job}
use proyecto.Jobs.Repository.{Db}
use proyecto.Jobs.Service.{Dispatcher}
use proyecto.Jobs.Create.{JobRequest, Surroundings, create_job}
use proyecto.Payments.Text.{Text, Unicode}
use proyecto.Payments.Parser.{Settings}
use proyecto.Payments.Providers.{Providers}
use proyecto.Payments.Preview.{Upload, Preview, preview_files}
use proyecto.Payments.Enqueue.{
  MailingParameter, get_mailing_parameter, EmailPayload, Queue, queue_groups, queue_or_raise,
  EmailRequest, mailing_for,
}

-- What `_make_json_safe` and the job's columns make of texts and payloads, and the key of the upload
pub record Writing : Type 0 where
  pub string_of : Text → String
  pub json_of : EmailPayload → Value
  pub staging_id : String

-- Rounding an amount is what can raise in a preview.
abbrev pub enqueue_preview :
    EmailRequest → (ℕ → Text) → List Upload → MailingParameter → Option Preview → Result Queue
enqueue_preview request path files parameter none = err invalid_operation
enqueue_preview request path files parameter (some preview) =
    if preview.ready_to_send
    then queue_or_raise (
        queue_groups (mailing_for request parameter path files)
          (record { references = []; payloads = [] }) preview.proveedores)
    else err (validation "Hay archivos con error, proveedores sin identificar o correos faltantes")

abbrev pub job_parameters : Writing → MailingParameter → Dict
job_parameters w parameter = Dict.entry "staging_id" (Value.text w.staging_id) (
    Dict.entry "mailing_parameter_id" (Value.int parameter.id)
      (Dict.entry "mailing_parameter_name" (Value.text (w.string_of parameter.name)) Dict.empty))

-- The arguments of the call of `create_job`
abbrev pub email_job_request : Writing → EmailRequest → MailingParameter → Uuid → Queue → JobRequest
email_job_request w request parameter user_id q = record {
  job_type = payment_provider_email;
  parameters = job_parameters w parameter;
  references = map w.string_of q.references;
  user_id = user_id;
  batch_size = request.batch_size;
  idempotency_key = request.idempotency_key;
  parent_job_id = none;
  scheduled_job_id = none;
  trigger_source = JobTriggerSource.api;
  encrypted_secrets = none;
  item_payloads = map (λ e. (w.string_of e.0, w.json_of e.1)) q.payloads;
}

-- What the job is made with
pub record JobSide : Type 0 where
  pub writing : Writing
  pub surroundings : Surroundings
  pub dispatcher : Option Dispatcher
  pub user_id : Uuid

abbrev pub create_email_job : JobSide → EmailRequest → MailingParameter → Result Queue → Exec Db Job
create_email_job side request parameter (err e) jobs = (err e, jobs)
create_email_job side request parameter (ok q) jobs =
    create_job side.surroundings (email_job_request side.writing request parameter side.user_id q)
      side.dispatcher jobs

abbrev pub enqueue_with :
    JobSide
    → EmailRequest
    → (ℕ → Text)
    → List Upload
    → Option Preview
    → Result MailingParameter
    → Exec Db Job
enqueue_with side request path files preview (err e) jobs = (err e, jobs)
enqueue_with side request path files preview (ok parameter) jobs =
    create_email_job side request parameter (enqueue_preview request path files parameter preview)
      jobs

unfoldable pub enqueue_payment_emails :
    Unicode
    → Settings
    → List MailingParameter
    → Providers
    → (ℕ → Text)
    → JobSide
    → EmailRequest
    → List Upload
    → Exec Db Job
enqueue_payment_emails u settings table db path side request files =
    enqueue_with side request path files (preview_files u settings db files)
      (get_mailing_parameter table request.mailing_parameter_id request.mailing_parameter_name)
