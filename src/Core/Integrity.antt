-- ===== src/Core/Integrity.antt =====
-- app/core/db/integrity.py: the error that a refused write becomes. The database is an environment: it
-- says of the rows that a flush sends whether it takes them, or which constraint they break; a broken
-- NOT NULL has no name. What is refused is rolled back.
use proyecto.Common.{String, Option, none, some, List, [], ◌∷◌, str_eq, if◌then◌else◌}
use proyecto.Core.Errors.{Error, conflict, validation, ok, err, Exec}

-- Constraint and message, as in `conflicts` and `invalid_references`
abbrev pub Messages : Type 0
Messages = List (String × String)

abbrev pub message_of : Messages → String → Option String
message_of [] name = none
message_of (m ∷ rest) name =
    let found = message_of rest name in if str_eq m.0 name then some m.1 else found

abbrev reference_error : String → Option String → Error
reference_error default_message none = validation default_message
reference_error default_message (some message) = validation message

abbrev named_error : Messages → String → String → Option String → Error
named_error invalid_references default_message name none =
    reference_error default_message (message_of invalid_references name)
named_error invalid_references default_message name (some message) = conflict message

-- `raise_integrity_error`
unfoldable pub raise_integrity_error : Messages → Messages → String → Option String → Error
raise_integrity_error conflicts invalid_references default_message none = validation default_message
raise_integrity_error conflicts invalid_references default_message (some name) =
    named_error invalid_references default_message name (message_of conflicts name)

-- Nothing, or the constraint that is broken
abbrev pub Refusal : Type 0
Refusal = Option (Option String)

-- What the database says of each state that a flush would write: the first refusal counts.
abbrev pub first_refused : {S : Type 0} → (S → Refusal) → List S → Refusal
first_refused refuses [] = none
first_refused refuses (s ∷ rest) = first_of (refuses s) (first_refused refuses rest)
  where
    first_of : Refusal → Refusal → Refusal
    first_of none later = later
    first_of (some name) later = some name

-- `try: flush, commit; except IntegrityError: rollback, raise_integrity_error`
unfoldable pub committed : {S A : Type 0} → Refusal → (Option String → Error) → A → S → Exec S A
committed none error a new old = (ok a, new)
committed (some name) error a new old = (err (error name), old)
