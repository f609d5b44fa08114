-- ===== src/Payments/Email.antt =====
-- The worker of the e-mails to suppliers: `PaymentProviderEmailJobProcessor` of
-- app/api/finance/payment_provider/email_job_processor.py, on the rows of a batch. Files, templates,
-- SMTP and the archive are inputs, and so is what the database answers; a failing database is left out.
pub mod Laws
pub mod Runs
mod Tests
use proyecto.Common.{
  ℕ, ◌+◌, ◌⊎◌, inl, inr, String, Bool, true, false, not, Option, none, some, List, [], ◌∷◌, map,
  leb, if◌then◌else◌,
}
use proyecto.Common.Value.{Value, Dict, Elements, get}
use proyecto.Jobs.Model.{
  Uuid, Time, JobStatus, JobBatchStatus, JobItemStatus, JobItem, JobBatch, is_pending,
  is_terminal_batch,
}
use proyecto.Jobs.Cancel.{cancel_item, set_batch_counts}
use proyecto.Sap.World.{is_cancel_requested}
use proyecto.Sap.Rows.{claim, fail_item}
use proyecto.Sap.Process.{task_matches}

-- The parts of an `EmailMessage` that the result keeps
pub record Message : Type 0 where
  pub subject : String
  pub to : List String
  pub cc : List String
  pub bcc : List String

-- `_archive_sent_attachments` raises nothing: an error is noted.
pub data Archive : Type 0 where
  archived : List String → Archive
  archive_error : String → Archive

-- Errors are the texts that the worker keeps, at most 2,000 characters of each.
pub record MailWorld : Type 0 where
  pub now : Time
  pub claims : Bool
  -- `jobs.status` after the claim, and at each later refresh
  pub status_after_claim : JobStatus
  pub observed : ℕ → JobStatus
  -- `_build_attachments`: the names of the files of the k-th mail, and then its sending
  pub files : ℕ → String ⊎ List String
  pub sending : ℕ → String ⊎ (Message × Archive)

-- `item.result_data or {}`
abbrev pub payload_of : Option Value → Dict
payload_of (some (Value.dict payload)) = payload
payload_of _ = Dict.empty

abbrev pub or_null : Option Value → Value
or_null none = Value.null
or_null (some v) = v

abbrev pub text_elements : List String → Elements
text_elements [] = Elements.no_more
text_elements (t ∷ texts) = Elements.element (Value.text t) (text_elements texts)

abbrev pub text_list : List String → Value
text_list texts = Value.list (text_elements texts)

abbrev pub archive_entry : Archive → Dict
archive_entry (archived ids) = Dict.entry "archived_attachment_ids" (text_list ids) Dict.empty
archive_entry (archive_error text) = Dict.entry "archive_error" (Value.text text) Dict.empty

abbrev pub email_result : Dict → List String → Message → Archive → Value
email_result payload names m archive = Value.dict (
    Dict.entry "provider_id" (or_null (get payload "provider_id")) (
      Dict.entry "provider" (or_null (get payload "provider")) (
        Dict.entry "subject" (Value.text m.subject) (
          Dict.entry "to" (text_list m.to) (
            Dict.entry "cc" (text_list m.cc) (
              Dict.entry "bcc" (text_list m.bcc) (
                Dict.entry "attachments" (text_list names) (
                  Dict.entry "message" (Value.text "Correo enviado correctamente")
                    (archive_entry archive)))))))))

-- `payload[key]` raises a KeyError, whose text is the key in quotes.
abbrev pub required_keys : List (String × String)
required_keys =
    ("mailing_parameter", "'mailing_parameter'")
    ∷ ("parameters", "'parameters'")
    ∷ ("to", "'to'")
    ∷ []

abbrev pub missing_key : List (String × String) → Dict → Option String
missing_key [] payload = none
missing_key (key ∷ keys) payload = elim (get payload key.0) [
  | none ↦ some key.1
  | some v ↦ missing_key keys payload
]

abbrev pub delivered : Dict → List String → String ⊎ (Message × Archive) → String ⊎ Value
delivered payload names (inl text) = inl text
delivered payload names (inr (m, archive)) = inr (email_result payload names m archive)

abbrev pub with_files : MailWorld → ℕ → Dict → String ⊎ List String → String ⊎ Value
with_files w k payload (inl text) = inl text
with_files w k payload (inr names) = elim (missing_key required_keys payload) [
  | some text ↦ inl text
  | none ↦ delivered payload names (w.sending k)
]

-- The body of the `try`, for the k-th mail
abbrev pub attempt : MailWorld → ℕ → Dict → String ⊎ Value
attempt w k payload = with_files w k payload (w.files k)

-- `_process_item`
unfoldable pub emailed_item : Time → JobItem → String ⊎ Value → JobItem
emailed_item now item (inr result) = record item {
  status = JobItemStatus.succeeded;
  attempts = item.attempts + 1;
  started_at = some now;
  external_status_code = some 200;
  safe_error = none;
  result_data = some result;
  finished_at = some now;
}
emailed_item now item (inl text) = record item {
  status = JobItemStatus.failed;
  attempts = item.attempts + 1;
  started_at = some now;
  safe_error = some text;
  finished_at = some now;
}

-- The loop over the items: the references of those that were tried, in order, and the counters.
pub record Mails : Type 0 where
  pub items : List JobItem
  pub calls : List String
  pub succeeded : ℕ
  pub failed : ℕ
  pub stopped : Bool

abbrev pub no_mails : List JobItem → Bool → Mails
no_mails items stopped = record {
  items = items;
  calls = [];
  succeeded = 0;
  failed = 0;
  stopped = stopped;
}

-- `_increment_progress`
abbrev pub counted_mail : String → JobItem → String ⊎ Value → Mails → Mails
counted_mail reference done (inl text) rest = record rest {
  items = done ∷ rest.items;
  calls = reference ∷ rest.calls;
  failed = 1 + rest.failed;
}
counted_mail reference done (inr result) rest = record rest {
  items = done ∷ rest.items;
  calls = reference ∷ rest.calls;
  succeeded = 1 + rest.succeeded;
}

abbrev pub mail_step : MailWorld → ℕ → JobItem → List JobItem → Mails → Mails
mail_step w k item items rest =
    if is_pending item
    then if is_cancel_requested (w.observed k)
      then no_mails (item ∷ items) true
      else (let sent = attempt w k (payload_of item.result_data) in
          counted_mail item.reference (emailed_item w.now item sent) sent rest)
    else (record rest { items = item ∷ rest.items })

unfoldable pub send_items : MailWorld → ℕ → List JobItem → Mails
send_items w k [] = no_mails [] false
send_items w k (item ∷ items) =
    let rest = send_items w (if is_pending item then k + 1 else k) items in
    mail_step w k item items rest

-- `_cancel_pending`, up to the refresh of the progress: the counters of the batch stay.
unfoldable pub cancel_mails : Time → JobBatch → JobBatch
cancel_mails now batch = record batch {
  items = map (cancel_item now) batch.items;
  status = JobBatchStatus.cancelled;
  finished_at = some now;
}

-- `_finish_batch`, up to the refresh of the progress
unfoldable pub finish_mails : Time → JobBatch → JobBatch
unfolding set_batch_counts
finish_mails now batch =
    let counted = set_batch_counts batch in
    record counted {
      status =
          (if leb counted.failed_items 0
            then JobBatchStatus.completed
            else JobBatchStatus.completed_with_errors);
      finished_at = some now;
      heartbeat_at = some now;
    }

-- `mark_failed`, up to the refresh of the progress
unfoldable pub mark_mails_failed : Time → String → JobBatch → JobBatch
mark_mails_failed now error batch = record batch {
  items = map (fail_item now error) batch.items;
  status = JobBatchStatus.failed;
  error_summary = some error;
  finished_at = some now;
}

pub data MailAnswer : Type 0 where
  stale_mails unclaimed_mails : MailAnswer
  mails_status : JobBatchStatus → MailAnswer

pub record MailRun : Type 0 where
  pub batch : JobBatch
  pub calls : List String
  pub answer : MailAnswer

abbrev pub ended_mails : JobBatch → List String → MailRun
ended_mails batch calls = record {
  batch = batch;
  calls = calls;
  answer = mails_status batch.status;
}

-- The batch with what the loop committed
abbrev pub mailed : MailWorld → JobBatch → Mails → JobBatch
mailed w batch mails = record batch {
  items = mails.items;
  succeeded_items = batch.succeeded_items + mails.succeeded;
  failed_items = batch.failed_items + mails.failed;
  heartbeat_at = some w.now;
}

-- The session's view of the job is that of the last refresh: a loop that stopped sees it cancelled.
abbrev pub after_mails : MailWorld → JobBatch → Mails → MailRun
after_mails w batch mails =
    ended_mails
      (if mails.stopped
        then cancel_mails w.now (mailed w batch mails)
        else finish_mails w.now (mailed w batch mails))
      mails.calls

unfoldable pub send_claimed : MailWorld → JobBatch → MailRun
send_claimed w batch =
    if is_cancel_requested w.status_after_claim
    then ended_mails (cancel_mails w.now batch) []
    else after_mails w batch (send_items w 0 batch.items)

-- `process`, on the batch that was found
unfoldable pub send_batch : MailWorld → Uuid → JobBatch → MailRun
send_batch w task_id batch =
    if not (task_matches batch task_id)
    then (record { batch = batch; calls = []; answer = stale_mails })
    else if is_terminal_batch batch.status
    then ended_mails batch []
    else if w.claims
    then send_claimed w (claim w.now batch)
    else (record { batch = batch; calls = []; answer = unclaimed_mails })
