-- ===== src/Payments/Enqueue/Answer.antt =====
-- About `enqueue_payment_emails`, from the files to the job.
use mathlib.Core.Path.{subst}
use proyecto.Common.{
  ℕ, ◌≡◌, ◌⊎◌, sym, ap, true, false, inl, inr, Option, none, some, List, map, select, All,
}
use proyecto.Core.Errors.{Result, ok, err, validation, invalid_operation}
use proyecto.Jobs.Model.{Job}
use proyecto.Jobs.Repository.{Db}
use proyecto.Jobs.Create.{create_job}
use proyecto.Payments.Text.{Text, Unicode}
use proyecto.Payments.Parser.{Settings, ParseResult}
use proyecto.Payments.Groups.{Provider, Payment, SerializedGroup, group}
use proyecto.Payments.Groups.Serialized.{AllMade}
use proyecto.Payments.Attachments.Shipped.{IsShipped, group-Ships}
use proyecto.Payments.Providers.{Providers, provider_row, list_active_providers}
use proyecto.Payments.Preview.{
  Upload, Preview, preview_from, grouped_preview, preview_files, parse_all, payments_of,
  is_processed,
}
use proyecto.Payments.Preview.Laws.{Accounts, IsPreview, preview_files-Accounts}
use proyecto.Payments.Enqueue.{
  MailingParameter, EmailRequest, mailing_for, get_mailing_parameter, Queue,
}
use proyecto.Payments.Enqueue.Send.{
  enqueue_preview, enqueue_with, enqueue_payment_emails, JobSide, email_job_request,
  create_email_job,
}
use proyecto.Payments.Enqueue.Laws.{IsAnswer, IsEmailJob, preview-IsAnswer}

module _ (paths : Option Text → Option Text) (u : Unicode) where
  AllShipped : Option Preview → Type 0
  AllShipped none = Unit
  AllShipped (some preview) = All (IsShipped paths) preview.proveedores

  preview_from-Shipped :
      (results : List ParseResult) (made : Option (List SerializedGroup))
      → AllMade (IsShipped paths) made
      → AllShipped (preview_from results made)
  unfolding AllShipped
  preview_from-Shipped results none a = tt
  preview_from-Shipped results (some grouped) a = a

  grouped-Shipped :
      (providers : List Provider) (results : List ParseResult) (payments : Option (List Payment))
      → AllShipped (grouped_preview u providers results payments)
  unfolding AllShipped
  grouped-Shipped providers results none = tt
  grouped-Shipped providers results (some payments) =
      preview_from-Shipped results (group u providers payments)
        (group-Ships paths u providers payments)

  preview_files-Shipped :
      (settings : Settings) (db : Providers) (files : List Upload) (preview : Preview)
      → preview_files u settings db files ≡ some preview
      → All (IsShipped paths) preview.proveedores
  unfolding preview_files AllShipped
  preview_files-Shipped settings db files preview h = subst AllShipped h (
      grouped-Shipped (map provider_row (list_active_providers db)) (parse_all u settings files)
        (payments_of (select is_processed (parse_all u settings files))))

module _ (side : JobSide) (request : EmailRequest) (path : ℕ → Text) (files : List Upload)
    (parameter : MailingParameter) (jobs : Db) where
  -- The answer of `create_job` to a request with a payload for each group, if the preview is ready, and
  -- else the refusal
  abbrev pub IsJobAnswer : Preview → Result Job × Db → Type 0
  IsJobAnswer preview answer =
      ((preview.ready_to_send ≡ true)
        × ((q : Queue) × IsEmailJob (mailing_for request parameter path files) preview.proveedores q
            × (answer
                ≡ create_job side.surroundings
                    (email_job_request side.writing request parameter side.user_id q)
                    side.dispatcher jobs)))
      ⊎ ((preview.ready_to_send ≡ false)
          × (answer ≡ (
            err (
                validation
                  "Hay archivos con error, proveedores sin identificar o correos faltantes"),
            jobs,
          )))

  -- The answer for a parameter that was found
  abbrev pub IsEnqueued : List ParseResult → Option Preview → Result Job × Db → Type 0
  IsEnqueued results made answer =
      ((preview : Preview) × (made ≡ some preview)
        × Accounts results preview
        × IsJobAnswer preview answer)
      ⊎ ((made ≡ none) × (answer ≡ (err invalid_operation, jobs)))

  job-IsJobAnswer :
      (preview : Preview) (queue : Result Queue)
      → IsAnswer preview.ready_to_send
          (mailing_for request parameter path files)
          preview.proveedores
          queue
      → IsJobAnswer preview (create_email_job side request parameter queue jobs)
  job-IsJobAnswer preview queue (inl (go, (q, e, job))) =
      inl (go, (q, job, ap (λ r. create_email_job side request parameter r jobs) e))
  job-IsJobAnswer preview queue (inr (no_, e)) =
      inr (no_, ap (λ r. create_email_job side request parameter r jobs) e)

  made-IsEnqueued :
      (results : List ParseResult) (made : Option Preview)
      → IsPreview results made
      → ((preview : Preview)
          → made ≡ some preview
          → All (IsShipped (mailing_for request parameter path files).paths) preview.proveedores)
      → IsEnqueued results made (
          create_email_job side request parameter
            (enqueue_preview request path files parameter made)
            jobs)
  made-IsEnqueued results made (inl (preview, e, accounts)) shipped = inl (
    preview,
    e,
    accounts,
    subst
        (λ o. IsJobAnswer preview (
          create_email_job side request parameter (enqueue_preview request path files parameter o)
            jobs))
        (sym e)
        (job-IsJobAnswer preview (enqueue_preview request path files parameter (some preview))
          (preview-IsAnswer request path files parameter preview (shipped preview e))),
  )
  made-IsEnqueued results made (inr (e, large)) shipped = inr (
    e,
    ap
        (λ o.
          create_email_job side request parameter (enqueue_preview request path files parameter o)
            jobs)
        e,
  )

-- A request with a known, active parameter. If the preview is not ready, it is refused and no job is
-- written, and so if rounding an amount of the preview raises. If the preview is ready, the answer is
-- that of `create_job`, with its refusal of an empty list or of a batch size of zero and its look-up of
-- the idempotency key, for a request that has the payload of each group of the preview, in order, under
-- a reference of its own; with at most 98 groups each reference fits the 120 characters of its column.
pub enqueue_payment_emails-IsEnqueued :
    (u : Unicode) (settings : Settings) (table : List MailingParameter) (db : Providers)
    (path : ℕ → Text) (side : JobSide) (request : EmailRequest) (files : List Upload)
    (parameter : MailingParameter) (jobs : Db)
    → get_mailing_parameter table request.mailing_parameter_id request.mailing_parameter_name
      ≡ ok parameter
    → IsEnqueued side request path files parameter jobs
        (parse_all u settings files)
        (preview_files u settings db files)
        (enqueue_payment_emails u settings table db path side request files jobs)
unfolding enqueue_payment_emails
enqueue_payment_emails-IsEnqueued u settings table db path side request files parameter jobs found =
    let made = preview_files u settings db files in
    let paths = (mailing_for request parameter path files).paths in
    subst
      (λ p.
        IsEnqueued side request path files parameter jobs (parse_all u settings files) made
          (enqueue_with side request path files made p jobs))
      (sym found)
      (made-IsEnqueued side request path files parameter jobs (parse_all u settings files) made
        (preview_files-Accounts u settings db files)
        (preview_files-Shipped paths u settings db files))
