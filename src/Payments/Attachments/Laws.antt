-- ===== src/Payments/Attachments/Laws.antt =====
-- About the names of the files of one e-mail.
use proyecto.Common.{
  suc, ◌≡◌, refl, ◌∙◌, ap, Bool, true, false, Option, some, List, [], ◌∷◌, ◌==◌, length, arith, any,
  All, Bool-cases, Option-cases, inl, inr, if◌then◌else◌,
}
use proyecto.Payments.Text.{Text, text_eq}
use proyecto.Payments.Data.{is_set}
use proyecto.Payments.Groups.{PaymentItem}
use proyecto.Payments.Attachments.{
  contains, point_before, split_last, candidate, numbered, deduplicate_filename, Attachment,
  attachments_from, build_email_job_attachments,
}
use proyecto.Payments.Attachments.Unused.{first_unused_found, first_unused-free, candidate-distinct}

abbrev pub has_point : Text → Bool
has_point t = any (λ c. c == 46) t

abbrev pub HasParts : Text → Type 0
HasParts t = (parts : Text × Text) × (split_last t ≡ some parts)

split_last-HasParts : (t : Text) → has_point t ≡ true → HasParts t
split_last-HasParts [] h = absurd (cc)
split_last-HasParts (c ∷ t) h = elim (Option-cases (split_last t)) [
  | inr ((stem, extension), e) ↦ ((c ∷ stem, extension), ap (point_before c t) e)
  | inl no_split ↦ elim (Bool-cases (c == 46)) [
    | inl point ↦ (([], t), rw (no_split, point))
    | inr other ↦
        let later : has_point t ≡ true = ground (arith, h, other) in
        let (parts, e) = split_last-HasParts t later in absurd (cc)
  ]
]

abbrev pub IsFree : Text → List Text → Type 0
IsFree filename used =
    (name : Text) × (deduplicate_filename filename used ≡ some name) × (contains name used ≡ false)

-- A name with a point gets one that is not in use.
deduplicate-IsFree :
    (filename : Text) (used : List Text) → has_point filename ≡ true → IsFree filename used
unfolding deduplicate_filename
deduplicate-IsFree filename used h = elim (Bool-cases (contains filename used)) [
  | inr free ↦ (filename, rw free, free)
  | inl taken ↦
      let ((stem, extension), parts) = split_last-HasParts filename h in
      let (name, found) =
        first_unused_found (candidate stem extension) (candidate-distinct stem extension)
          (suc (length used)) 2 used (omega arith) in
      (
        name,
        rw taken (ap (numbered used) parts ∙ found),
        first_unused-free (candidate stem extension) (suc (length used)) 2 used name found,
      )
]

abbrev IsNew : List Text → Attachment → Type 0
IsNew used a = contains a.filename used ≡ false

abbrev Differs : Text → Attachment → Type 0
Differs name a = text_eq name a.filename ≡ false

-- No two files have the same name.
abbrev pub AllDistinct : List Attachment → Type 0
AllDistinct [] = Unit
AllDistinct (a ∷ attachments) = All (Differs a.filename) attachments × AllDistinct attachments

-- The paths of the payments whose file was stored, in order
abbrev pub stored : (Option Text → Option Text) → List PaymentItem → List (Option Text)
stored paths [] = []
stored paths (item ∷ items) =
    let rest = stored paths items in
    if is_set (paths item.payment.archivo) then paths item.payment.archivo ∷ rest else rest

abbrev pub paths_of : List Attachment → List (Option Text)
paths_of [] = []
paths_of (a ∷ attachments) = a.file_path ∷ paths_of attachments

abbrev pub HasPoint : PaymentItem → Type 0
HasPoint item = has_point item.suggested_filename ≡ true

split-IsNew :
    (name : Text) (used : List Text) (attachments : List Attachment)
    → All (IsNew (name ∷ used)) attachments
    → All (Differs name) attachments × All (IsNew used) attachments
split-IsNew name used [] h = (tt, tt)
split-IsNew name used (a ∷ attachments) h =
    let (differ, fresh) = split-IsNew name used attachments h.1 in
    ((ground (arith, h.0), differ), (ground (arith, h.0), fresh))

abbrev Built : (Option Text → Option Text) → List Text → List PaymentItem → Type 0
Built paths used items =
    (out : List Attachment) × (attachments_from paths used items ≡ some out)
    × (paths_of out ≡ stored paths items)
    × AllDistinct out
    × All (IsNew used) out

attachments_from-Built :
    (paths : Option Text → Option Text) (used : List Text) (items : List PaymentItem)
    → All HasPoint items
    → Built paths used items
unfolding attachments_from
attachments_from-Built paths used [] h = ([], refl, refl, tt, tt)
attachments_from-Built paths used (item ∷ items) h =
    elim (Bool-cases (is_set (paths item.payment.archivo))) [
      | inr absent ↦
          let (out, e, same, distinct, fresh) = attachments_from-Built paths used items h.1 in
          (out, rw absent e, rw absent same, distinct, fresh)
      | inl present ↦
          let (name, named, free) = deduplicate-IsFree item.suggested_filename used h.0 in
          let (out, e, same, distinct, fresh) =
            attachments_from-Built paths (name ∷ used) items h.1 in
          let (differ, fresh_before) = split-IsNew name used out fresh in
          (
            record { file_path = paths item.payment.archivo; filename = name } ∷ out,
            rw (present, named, e),
            rw present (ap (λ t. paths item.payment.archivo ∷ t) same),
            (differ, distinct),
            (free, fresh_before),
          )
    ]

-- The list of the files is built: it has the stored file of each payment that has one, in order, and
-- no two of its names are the same.
abbrev pub Ships : (Option Text → Option Text) → List PaymentItem → Type 0
Ships paths items =
    (out : List Attachment) × (build_email_job_attachments paths items ≡ some out)
    × (paths_of out ≡ stored paths items)
    × AllDistinct out

pub HasPoint-Ships :
    (paths : Option Text → Option Text) (items : List PaymentItem)
    → All HasPoint items
    → Ships paths items
HasPoint-Ships paths items h =
    let (out, e, same, distinct, fresh) = attachments_from-Built paths [] items h in
    (out, e, same, distinct)
