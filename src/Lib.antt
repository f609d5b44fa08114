-- ===== src/Lib.antt =====
-- A model of the back office API of the repository (a FastAPI service with Celery workers), with the
-- theorems that its asynchronous jobs, its provisions and its reading of payments rest on.
--
-- The program. A request of a user becomes a job (app/models/jobs/job_model.py): a row with batches,
-- each with items, one item for one document of SAP, one account, one e-mail. `JobService`
-- (app/api/jobs/service.py) creates, cancels and retries jobs and keeps their progress; the
-- dispatcher (app/workers/dispatcher.py) publishes the batches of a job to a broker; a worker
-- (app/workers/sap_tasks.py with app/api/sap/service/sap_job_service.py) takes a batch, calls SAP for
-- each item and writes what came of it. Service and worker share the rows, and the worker calls the
-- service's `refresh_progress` at the end of a batch. Before a job is published the switch of its
-- module is read (app/core/modules.py). A scheduler (app/api/scheduled_jobs) starts jobs at the times of
-- their schedules. What a user may see is a scope of companies and areas (app/core/scope.py).
-- A provision (app/api/finance/provisions) is an expected expense with documents: its owner submits it
-- for review, a reviewer approves it, returns it or rejects it, and every change of status is written to
-- its history. The receipts of payments to suppliers (app/api/finance/payment_provider) are read from
-- the text of PDF files, grouped by supplier and sent by e-mail, in the batches of a job.
--
-- Which file models what:
--   Common              lists on native numbers, Boolean tests, JSON values
--   Core/Errors         app/core/exceptions.py; a method that writes is an action (Exec) on the table,
--                       and a `raise` is a result that leaves what was committed before
--   Core/Modules        app/core/modules.py
--   Core/Access, Core/Scope
--                       app/core/access.py and app/core/scope.py
--   Jobs/Model          app/models/jobs/job_model.py and app/api/jobs/constants.py
--   Jobs/Repository     app/api/jobs/repository.py, over the table as a list of rows
--   Jobs/Batching       `chunked` and the rows that `create_job` builds
--   Jobs/Service        `get_job`, `_ensure_access` and `_dispatch` of `JobService`
--   Jobs/Create, Jobs/Cancel, Jobs/Retry, Jobs/Progress
--                       `create_job`, `cancel_job`, `retry_job` and `refresh_progress`
--   Jobs/Listing        `list_jobs`, `list_items` and the pages of app/core/schemas.py
--   Jobs/Dispatcher     `dispatch_job`, `resolve_job_queue` and `get_sap_item_handler`
--   Jobs/Invariant      the invariant of the rows of a job
--   Sap/World           what the database and SAP answer to a worker
--   Sap/Rows, Sap/Items, Sap/Process
--                       `SapJobProcessor`: its writes of rows, its loop over the items, `process`
--   Sap/Task            the Celery task `process_sap_batch` and `retry_countdown`
--   Sap/Session         `refresh_progress` in the session that a worker keeps open
--   Scheduled/Clock, Scheduled/Schedule, Scheduled/Config
--                       app/api/scheduled_jobs/schedule.py, and `validate_schedule_config` of its
--                       schemas.py
--   Scheduled/Rows, Scheduled/Run, Scheduled/Edit
--                       app/api/scheduled_jobs/repository.py and service.py
--
--   Core/Integrity      app/core/db/integrity.py
--   Provisions/Model, Provisions/Repository
--                       app/models/finance/provision_model.py, the constants, and the repository of
--                       app/api/finance/provisions/provision
--   Provisions/Access, Provisions/Money, Provisions/Responses
--                       the guards, the amounts and the answers of `ProvisionService`
--   Provisions/Workflow, Provisions/Edit, Provisions/Documents, Provisions/Grants, Provisions/Create,
--   Provisions/Queries  its operations
--   Provisions/Lifecycle
--                       the abstract life cycle; its child Requests is the router and access.py, its
--                       other children say what an operation may do to the tables
--   Provisions/Refine   the operations keep to the life cycle
--   Payments/Text, Payments/Amounts, Payments/Fields, Payments/Columns, Payments/Consulta,
--   Payments/Sections, Payments/Parser
--                       app/api/finance/payment_provider/pdf_parser.py
--   Payments/Filenames, Payments/Groups, Payments/Quantize
--                       app/api/finance/payment_provider/processor.py
--   Payments/Providers, Payments/Preview, Payments/Enqueue
--                       the table of the suppliers, `preview_files` and `enqueue_payment_emails` (its call
--                       of `create_job` in Payments/Enqueue/Send) of
--                       app/api/finance/payment_provider/payment_provider_service.py
--   Payments/Attachments
--                       the names of the files of an e-mail, of `PaymentProviderService`
--                       (app/api/finance/payment_provider/payment_provider_service.py)
--   Payments/Email      app/api/finance/payment_provider/email_job_processor.py
--
-- State. The table of jobs is a list, newest last, and a job holds its batches and a batch its items,
-- as the ORM relations do; an UPDATE replaces the row with the primary key. A read gives the committed
-- row. A UUID and an instant are numbers; the keys of `uuid4()`, the clock, the rows that other
-- transactions commit before an INSERT, the broker and SAP are inputs (Surroundings, BrokerEnv, World).
-- Of the integrity errors of a job only the unique key of a request is modelled; foreign keys hold by
-- nesting. The tables of the provisions are one record of lists, newest first, whose rows point to each
-- other by key; an operation ends in a commit or leaves the tables as they were, and what the database
-- says of the rows that a flush sends is an input (Refusal), as is the id of a new row. A text of a
-- receipt is the list of its code points; the tables of Unicode are an input.
--
-- Bounds. Fuel is that of `chunked`: the number of items, which is at least the number of
-- rounds when the size is positive (Jobs/Batching/Laws), and that of the loop over a window, the minutes
-- of the window and one more, which is enough when a step has at least a minute (Scheduled/Schedule/Laws);
-- the search for a free name or reference has a round more than there are in use (Payments/Attachments/Unused,
-- Payments/Enqueue/References).
-- The scheduler's pass is bounded by its limit, as in the code. Numbers of Python have no
-- bound; a `datetime` ends with the year 9999, past which a next run raises (Scheduled/Schedule). A sum of
-- Decimals is exact, which it is up to 28 digits; `quantize` rounds to cents and raises above 28 digits
-- (Payments/Quantize). An amount of a provision is in cents and a rate in millionths, as the columns keep
-- them. The expressions of the parser are searches by recursion on the text.
--
-- Not modelled: `_revoke_tasks` (it only tells the broker, and swallows every
-- error), the job's own counters while a worker runs, which `refresh_progress` computes anew, the
-- wording of SAP's errors, and what a scheduled job asks of the ledger and of the ingestion
-- (`_dispatch_scheduled_job`, a parameter). A wall clock and its zone are numbers and two conversions, of
-- which it is used only that a later reading is a later instant (KeepsOrder). The texts that
-- `\d` and a letter of a pattern accept are ASCII. What pdfplumber and the OCR read is an input of the parser,
-- and files, templates, SMTP and the archive are inputs of the e-mail worker, whose Celery task is left out,
-- as are `send_payment_emails`, the ZIP of renamed files and the clean-up of stored files. The rows of the
-- suppliers stand in the order in which the database sorts their names. The references and payloads of
-- `enqueue_payment_emails` are texts of code points; how they become the strings and the JSON of
-- `create_job` is an input (Writing), and the limits of the columns of a job are not modelled.
-- The other parts of the repository are not modelled: the ledger, the SAP client, the users, the master
-- data, the sales channels, the analytics, the audit, and the frameworks' wiring.
pub mod Common
pub mod Core
pub mod Jobs
pub mod Payments
pub mod Provisions
pub mod Sap
pub mod Scheduled
