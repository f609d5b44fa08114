-- ===== src/Payments/Email/Tests.antt =====
-- A batch of three e-mails: the second has a payload without recipients.
use proyecto.Common.{◌≡◌, refl, String, true, none, some, [], ◌∷◌, ◌==◌, if◌then◌else◌, inr, map}
use proyecto.Common.Value.{Value, Dict, get}
use proyecto.Jobs.Model.{JobStatus, JobBatchStatus, JobItemStatus, JobItem, JobBatch}
use proyecto.Jobs.Fixtures.{item_in, batch_in}
use proyecto.Jobs.Invariant.{IsSound}
use proyecto.Jobs.Cancel.{set_batch_counts}
use proyecto.Sap.Rows.{claim}
use proyecto.Payments.Email.{
  MailWorld, archived, archive_error, send_items, emailed_item, finish_mails, send_claimed,
  send_batch, mails_status,
}
use proyecto.Payments.Email.Runs.{IsDelivery, send_batch-IsDelivery, send_batch-IsSound}

-- The archive fails after the third mail.
abbrev mail_world : MailWorld
mail_world = record {
  now = 90;
  claims = true;
  status_after_claim = JobStatus.running;
  observed = λ k. JobStatus.running;
  files = λ k. inr ("a.pdf" ∷ []);
  sending = λ k. inr (
    record { subject = "Pago"; to = "pagos@acme.pe" ∷ []; cc = []; bcc = [] },
    if k == 0 then archived ("9" ∷ []) else archive_error "sin espacio",
  );
}

abbrev no_recipient : Dict
no_recipient =
    Dict.entry "mailing_parameter" (Value.dict Dict.empty)
      (Dict.entry "parameters" (Value.dict Dict.empty) Dict.empty)

abbrev complete : Dict
complete = Dict.entry "to" (Value.text "pagos@acme.pe") no_recipient

abbrev mail : String → JobItemStatus → Dict → JobItem
mail reference status payload = record (item_in status) {
  reference = reference;
  result_data = some (Value.dict payload);
}

abbrev mails : JobBatch
mails =
    record (batch_in JobBatchStatus.queued (
      mail "10" JobItemStatus.pending complete
      ∷ mail "20" JobItemStatus.pending no_recipient
      ∷ mail "30" JobItemStatus.pending complete
      ∷ [])) { total_items = 3 }

-- All three are tried; one failed.
send_batch_run :
    ((send_batch mail_world 500 mails).calls ≡ "10" ∷ "20" ∷ "30" ∷ [])
    × ((send_batch mail_world 500 mails).answer ≡ mails_status JobBatchStatus.completed_with_errors)
    × (map (λ i. i.safe_error) (send_batch mail_world 500 mails).batch.items
        ≡ none ∷ some "'to'" ∷ none ∷ [])
unfolding send_batch send_claimed claim send_items emailed_item finish_mails set_batch_counts get
send_batch_run = (refl, refl, refl)

-- A worker was killed while it sent the first; the batch is delivered again.
abbrev redelivered : JobBatch
redelivered =
    record (batch_in JobBatchStatus.running
      (mail "10" JobItemStatus.running complete ∷ mail "30" JobItemStatus.pending complete ∷ [])) {
        attempts = 1;
      }

-- The batch is completed, and its first item is RUNNING for good.
redelivered_run :
    ((send_batch mail_world 500 redelivered).answer ≡ mails_status JobBatchStatus.completed)
    × (map (λ i. i.status) (send_batch mail_world 500 redelivered).batch.items
        ≡ JobItemStatus.running ∷ JobItemStatus.succeeded ∷ [])
unfolding send_batch send_claimed claim send_items emailed_item finish_mails set_batch_counts get
redelivered_run = (refl, refl)

send_batch-IsDelivery_example : IsDelivery redelivered.items (send_batch mail_world 500 redelivered)
send_batch-IsDelivery_example = send_batch-IsDelivery mail_world 500 redelivered

mails-IsSound : IsSound mails
mails-IsSound = record {
  counted = refl;
  fits = ((λ h. refl, λ h. cc), ((λ h. refl, λ h. cc), ((λ h. refl, λ h. cc), tt)));
}

send_batch-IsSound_example : IsSound (send_batch mail_world 500 mails).batch
send_batch-IsSound_example =
    send_batch-IsSound mail_world 500 mails mails-IsSound (refl, (refl, (refl, tt)))
