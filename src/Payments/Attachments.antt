-- ===== src/Payments/Attachments.antt =====
-- The names of the files of one e-mail: `_deduplicate_filename` and `_build_email_job_attachments` of
-- app/api/finance/payment_provider/payment_provider_service.py.
pub mod Unused
pub mod Laws
pub mod Shipped
use proyecto.Common.{
  ℕ, suc, zero, Bool, true, false, Option, none, some, List, [], ◌∷◌, ◌++◌, ◌==◌, any, length,
  if◌then◌else◌,
}
use proyecto.Payments.Text.{Text, text_eq}
use proyecto.Payments.Amounts.Digits.{digits_of}
use proyecto.Payments.Data.{is_set}
use proyecto.Payments.Groups.{PaymentItem}

-- `name in used_names`
abbrev pub contains : Text → List Text → Bool
contains name names = any (λ used. text_eq used name) names

-- `filename.rsplit(".", 1)`: none where there is no point, and the source fails
abbrev pub point_before : ℕ → Text → Option (Text × Text) → Option (Text × Text)
point_before c t (some (stem, extension)) = some (c ∷ stem, extension)
point_before c t none = if c == 46 then some ([], t) else none

abbrev pub split_last : Text → Option (Text × Text)
split_last [] = none
split_last (c ∷ t) = point_before c t (split_last t)

-- `f"{stem}_{counter}.{extension}"`
abbrev pub candidate : Text → Text → ℕ → Text
candidate stem extension counter =
    stem ++ (95 ∷ (digits_of (suc counter) counter ++ (46 ∷ extension)))

-- The loop over the counter, on fuel
unfoldable pub first_unused : ℕ → (ℕ → Text) → ℕ → List Text → Option Text
first_unused zero name counter used = none
first_unused (suc fuel) name counter used =
    let later = first_unused fuel name (suc counter) used in
    if contains (name counter) used then later else some (name counter)

-- One round more than there are names in use is enough.
abbrev pub numbered : List Text → Option (Text × Text) → Option Text
numbered used none = none
numbered used (some (stem, extension)) =
    first_unused (suc (length used)) (candidate stem extension) 2 used

unfoldable pub deduplicate_filename : Text → List Text → Option Text
deduplicate_filename filename used =
    let other = numbered used (split_last filename) in
    if contains filename used then other else some filename

pub record Attachment : Type 0 where
  pub file_path : Option Text
  pub filename : Text

-- The loop over the payments: `paths` is `file_path_by_name.get`.
abbrev pub attach : Option Text → Text → Option (List Attachment) → Option (List Attachment)
attach path name none = none
attach path name (some attachments) =
    some (record { file_path = path; filename = name } ∷ attachments)

unfoldable pub attachments_from :
    (Option Text → Option Text) → List Text → List PaymentItem → Option (List Attachment)
attachments_from paths used [] = some []
attachments_from paths used (item ∷ items) =
    if is_set (paths item.payment.archivo)
    then elim (deduplicate_filename item.suggested_filename used) [
      | none ↦ none
      | some name ↦
          attach (paths item.payment.archivo) name (attachments_from paths (name ∷ used) items)
    ]
    else attachments_from paths used items

abbrev pub build_email_job_attachments :
    (Option Text → Option Text) → List PaymentItem → Option (List Attachment)
build_email_job_attachments paths items = attachments_from paths [] items
