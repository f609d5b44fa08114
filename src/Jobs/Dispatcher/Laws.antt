-- ===== src/Jobs/Dispatcher/Laws.antt =====
-- What publishing does to the batches of a job, and which messages it sends.
use proyecto.Common.{
  ℕ, ◌+◌, ◌≡◌, refl, true, none, some, List, [], ◌∷◌, arith, ◌<◌, count, if◌then◌else◌, Bool-cases,
  inl, inr, ◌⊎◌,
}
use proyecto.Core.Errors.{ok, err, broker}
use proyecto.Jobs.Model.{JobBatchStatus, JobBatch}
use proyecto.Jobs.Repository.{is_dispatchable}
use proyecto.Jobs.Dispatcher.{Task, Queue, Message, BrokerEnv, publish_from}

abbrev message_of : Task → Queue → JobBatch → List Message → List Message
message_of task queue a rest = elim a.status [
  | JobBatchStatus.queued ↦ elim a.celery_task_id [
    | none ↦ rest
    | some task_id ↦
        (record { task = task; batch_id = a.id; task_id = task_id; queue = queue }) ∷ rest
  ]
  | _ ↦ rest
]

-- The messages that the rows account for: one for each batch that waited before and is queued
-- after, with the id of the batch and the task id that its row holds.
abbrev pub accounted : Task → Queue → List JobBatch → List JobBatch → List Message
accounted task queue [] after = []
accounted task queue (b ∷ before) [] = []
accounted task queue (b ∷ before) (a ∷ after) =
    let rest = accounted task queue before after in
    if is_dispatchable b then message_of task queue a rest else rest

accounted_self :
    (task : Task) (queue : Queue) (batches : List JobBatch)
    → accounted task queue batches batches ≡ []
accounted_self task queue [] = refl
accounted_self task queue (b ∷ batches) = ground (arith, accounted_self task queue batches)

abbrev IsWaiting : JobBatch → Type 0
IsWaiting b = is_dispatchable b ≡ true

-- The rows that may change are those that waited; they end queued or, where the broker refused, pending.
abbrev pub Follows : JobBatch → JobBatch → Type 0
Follows b a =
    (a ≡ b)
    ⊎ ((is_dispatchable b ≡ true)
        × (a ≡ record b { status = a.status; celery_task_id = a.celery_task_id })
        × ((a.status ≡ JobBatchStatus.queued) ⊎ (a.status ≡ JobBatchStatus.pending)))

abbrev pub AllFollow : List JobBatch → List JobBatch → Type 0
AllFollow [] [] = Unit
AllFollow (b ∷ before) (a ∷ after) = Follows b a × AllFollow before after
AllFollow _ _ = ⊥

follow_self : (batches : List JobBatch) → AllFollow batches batches
follow_self [] = tt
follow_self (b ∷ batches) = (inl refl, follow_self batches)

module _ (env : BrokerEnv) (task : Task) (queue : Queue) where
  -- Every message that was sent names a batch whose row holds the task id of the message, and every
  -- batch that was queued has its message, whether the loop ends or stops at an error of the broker.
  pub publish-accounted :
      (k : ℕ) (batches : List JobBatch)
      → let sent = publish_from env task queue k batches in
        sent.messages ≡ accounted task queue batches sent.batches
  unfolding publish_from
  publish-accounted k [] = refl
  publish-accounted k (b ∷ batches) = ground (
    arith,
    accounted_self task queue batches,
    publish-accounted (if is_dispatchable b then k + 1 else k) batches,
  )

  -- The loop changes only batches that waited, of those only the status and the task id, and
  -- leaves each of these queued or pending.
  pub publish-follows :
      (k : ℕ) (batches : List JobBatch)
      → AllFollow batches (publish_from env task queue k batches).batches
  unfolding publish_from
  publish-follows k [] = tt
  publish-follows k (b ∷ batches) = elim (Bool-cases (is_dispatchable b)) [
    | inl waiting ↦ elim (Bool-cases (env.accepts k)) [
      | inl sent ↦
          rw (waiting, sent) (inr (waiting, refl, inl refl), publish-follows (k + 1) batches)
      | inr refused ↦ rw (waiting, refused) (inr (waiting, refl, inr refl), follow_self batches)
    ]
    | inr other ↦ rw other (inl refl, publish-follows k batches)
  ]

  -- The loop raises nothing but the broker's error, and ends well exactly when no batch is left
  -- waiting.
  pub publish-result :
      (k : ℕ) (batches : List JobBatch)
      → let sent = publish_from env task queue k batches in
        ((sent.result ≡ ok tt) × (count is_dispatchable sent.batches ≡ 0))
        ⊎ ((sent.result ≡ err broker) × (0 < count is_dispatchable sent.batches))
  unfolding publish_from
  publish-result k [] = inl (refl, refl)
  publish-result k (b ∷ batches) =
      ground (arith, publish-result (if is_dispatchable b then k + 1 else k) batches)
