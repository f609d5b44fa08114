-- ===== src/Payments/Enqueue/Laws.antt =====
-- About the job that sends the e-mails of a preview.
use mathlib.Core.List.{append_assoc}
use proyecto.Common.{
  ℕ, ◌+◌, ◌≤◌, ◌<◌, ◌≡◌, refl, sym, ◌∙◌, ap, Bool, true, false, Option, none, some, List, [], ◌∷◌,
  ◌++◌, map, length, length-append, arith, ◌⊎◌, All, Bool-cases, inl, inr,
}
use proyecto.Common.Counting.{All-append}
use proyecto.Core.Errors.{Result, ok, err, validation}
use proyecto.Payments.Text.{Text, text_eq}
use proyecto.Payments.Groups.{Group, SerializedGroup}
use proyecto.Payments.Attachments.{contains, Attachment, build_email_job_attachments}
use proyecto.Payments.Attachments.Shipped.{IsShipped}
use proyecto.Payments.Preview.{Upload, Preview}
use proyecto.Payments.Enqueue.{
  MailingParameter, EmailPayload, Mailing, payload_with, build_email_job_payload, keys, put_payload,
  Queue, queued, queue_group, queue_then, queue_groups, EmailRequest, mailing_for,
}
use proyecto.Payments.Enqueue.Send.{enqueue_preview}
use proyecto.Payments.Enqueue.References.{reference_for-IsFreshKey}

-- Each reference differs from those behind it.
abbrev pub AllUnlike : List Text → Type 0
AllUnlike [] = Unit
AllUnlike (key ∷ keys_) = All (λ k. text_eq key k ≡ false) keys_ × AllUnlike keys_

abbrev pub FitsColumn : Text → Type 0
FitsColumn key = length key ≤ 120

unlike_last :
    (keys_ : List Text) (key : Text)
    → AllUnlike keys_
    → contains key keys_ ≡ false
    → AllUnlike (keys_ ++ (key ∷ []))
unlike_last [] key a h = (tt, tt)
unlike_last (k ∷ keys_) key a h = (
  All-append (λ t. text_eq k t ≡ false) keys_ (key ∷ []) a.0 (ground (arith, h), tt),
  unlike_last keys_ key a.1 (ground (arith, h)),
)

put_new :
    (key : Text) (payload : EmailPayload) (payloads : List (Text × EmailPayload))
    → contains key (keys payloads) ≡ false
    → put_payload key payload payloads ≡ payloads ++ ((key, payload) ∷ [])
unfolding put_payload
put_new key payload [] h = refl
put_new key payload (e ∷ payloads) h =
    let other : text_eq e.0 key ≡ false = ground (arith, h) in
    rw other (ap (λ t. e ∷ t) (put_new key payload payloads (ground (arith, h))))

map-append : {A B : Type 0} → (f : A → B) (xs ys : List A) → map f (xs ++ ys) ≡ map f xs ++ map f ys
map-append f [] ys = refl
map-append f (x ∷ xs) ys = ap (λ t. f x ∷ t) (map-append f xs ys)

abbrev pub payloads_of : Queue → List (Option EmailPayload)
payloads_of q = map (λ e. some e.1) q.payloads

abbrev pub expected : Mailing → List SerializedGroup → List (Option EmailPayload)
expected m groups = map (λ s. build_email_job_payload m s.group) groups

-- What the loop keeps: the payloads stand under their references, which differ; and they fit the
-- column while there are not too many.
pub record IsQueue (q : Queue) : Type 0 where
  pub keyed : keys q.payloads ≡ q.references
  pub unlike : AllUnlike q.references
  pub fits : length q.references ≤ 98 → All FitsColumn q.references

module _ (m : Mailing) where
  -- One round: the group's payload comes behind, under a new reference.
  abbrev IsNext : Queue → Group → Queue → Type 0
  IsNext q g next =
      IsQueue next
      × (payloads_of next ≡ payloads_of q ++ (build_email_job_payload m g ∷ []))
      × (length next.references ≡ length q.references + 1)

  queued-IsNext :
      (q : Queue) (g : Group) (key : Text) (payload : EmailPayload)
      → IsQueue q
      → contains key (keys q.payloads) ≡ false
      → (length (keys q.payloads) < 98 → FitsColumn key)
      → build_email_job_payload m g ≡ some payload
      → (next : Queue) × (queued q (some key) (some payload) ≡ some next) × IsNext q g next
  queued-IsNext q g key payload s new fits built =
      let put = put_new key payload q.payloads new in
      (
        record {
          references = q.references ++ (key ∷ []);
          payloads = put_payload key payload q.payloads;
        },
        refl,
        (
          record {
            keyed =
                ap keys put
                ∙ map-append (λ e. e.0) q.payloads ((key, payload) ∷ [])
                ∙ ap (λ t. t ++ (key ∷ [])) s.keyed;
            unlike = unlike_last q.references key s.unlike (ap (contains key) (sym s.keyed) ∙ new);
            fits = λ few.
                let count = length-append q.references (key ∷ []) in
                let same : length (keys q.payloads) ≡ length q.references = ap length s.keyed in
                All-append FitsColumn q.references (key ∷ []) (s.fits (omega (arith, few, count)))
                  (fits (omega (arith, few, count, same)), tt);
          },
          ap (map (λ e. some e.1)) put
              ∙ map-append (λ e. some e.1) q.payloads ((key, payload) ∷ [])
              ∙ ap (λ t. payloads_of q ++ (t ∷ [])) (sym built),
          length-append q.references (key ∷ []) ∙ omega arith,
        ),
      )

  queue_group-IsNext :
      (q : Queue) (g : Group) (payload : EmailPayload)
      → IsQueue q
      → build_email_job_payload m g ≡ some payload
      → (next : Queue) × (queue_group m q g ≡ some next) × IsNext q g next
  queue_group-IsNext q g payload s built =
      let (key, found, new, fits) = reference_for-IsFreshKey g (keys q.payloads) in
      let (next, e, is_next) = queued-IsNext q g key payload s new fits built in
      (next, rw (found, built) e, is_next)

  payload_built :
      (s : SerializedGroup)
      → IsShipped m.paths s
      → (payload : EmailPayload) × (build_email_job_payload m s.group ≡ some payload)
  unfolding build_email_job_payload
  payload_built s (out, e, same, distinct) =
      go (build_email_job_attachments m.paths s.group.pagos) e
    where
      go :
          (built : Option (List Attachment))
          → built ≡ some out
          → (payload : EmailPayload) × (payload_with m s.group built ≡ some payload)
      go none h = absurd (cc)
      go (some attachments) h = (_, refl)

  abbrev IsFilled : Queue → List SerializedGroup → Queue → Type 0
  IsFilled q groups end =
      IsQueue end
      × (payloads_of end ≡ payloads_of q ++ expected m groups)
      × (length end.references ≡ length q.references + length groups)

  queue_groups-IsFilled :
      (q : Queue) (groups : List SerializedGroup)
      → IsQueue q
      → All (IsShipped m.paths) groups
      → (end : Queue) × (queue_groups m q groups ≡ some end) × IsFilled q groups end
  unfolding queue_groups
  queue_groups-IsFilled q [] s a = (q, refl, (s, append_nil (payloads_of q), omega arith))
    where
      append_nil : (xs : List (Option EmailPayload)) → xs ≡ xs ++ []
      append_nil [] = refl
      append_nil (x ∷ xs) = ap (λ t. x ∷ t) (append_nil xs)
  queue_groups-IsFilled q (g ∷ groups) s a =
      let (payload, built) = payload_built g a.0 in
      let (next, e, (is_next, p, n)) = queue_group-IsNext q g.group payload s built in
      let (end, f, (is_end, p_end, n_end)) = queue_groups-IsFilled next groups is_next a.1 in
      (
        end,
        ap (λ r. queue_then r (λ x. queue_groups m x groups)) e ∙ f,
        (
          is_end,
          p_end
              ∙ ap (λ t. t ++ expected m groups) p
              ∙ append_assoc (payloads_of q) (build_email_job_payload m g.group ∷ [])
                  (expected m groups),
          omega (arith, n, n_end),
        ),
      )

-- What `create_job` is called with: the payload of each group, in order, under a reference of its own;
-- with at most 98 groups each reference fits the column.
abbrev pub IsEmailJob : Mailing → List SerializedGroup → Queue → Type 0
IsEmailJob m groups q =
    (keys q.payloads ≡ q.references)
    × AllUnlike q.references
    × (payloads_of q ≡ expected m groups)
    × (length groups ≤ 98 → All FitsColumn q.references)

-- The answer to a request, from what the preview says
abbrev pub IsAnswer : Bool → Mailing → List SerializedGroup → Result Queue → Type 0
IsAnswer ready m groups answer =
    ((ready ≡ true) × ((q : Queue) × (answer ≡ ok q) × IsEmailJob m groups q))
    ⊎ ((ready ≡ false)
        × (answer
            ≡ err (
                validation
                  "Hay archivos con error, proveedores sin identificar o correos faltantes")))

job_found :
    (m : Mailing) (groups : List SerializedGroup)
    → All (IsShipped m.paths) groups
    → (q : Queue) × (queue_groups m (record { references = []; payloads = [] }) groups ≡ some q)
      × IsEmailJob m groups q
job_found m groups a =
    let empty : Queue = record { references = []; payloads = [] } in
    let (q, e, (s, same, count)) =
      queue_groups-IsFilled m empty groups (record { keyed = refl; unlike = tt; fits = λ few. tt })
        a in
    (q, e, (s.keyed, s.unlike, same, λ few. s.fits (omega (arith, few, count))))

pub preview-IsAnswer :
    (request : EmailRequest) (path : ℕ → Text) (files : List Upload) (parameter : MailingParameter)
    (preview : Preview)
    → All (IsShipped (mailing_for request parameter path files).paths) preview.proveedores
    → IsAnswer preview.ready_to_send
        (mailing_for request parameter path files)
        preview.proveedores
        (enqueue_preview request path files parameter (some preview))
preview-IsAnswer request path files parameter preview a = elim (Bool-cases preview.ready_to_send) [
  | inr no_ ↦ inr (no_, rw no_ refl)
  | inl go ↦
      let (q, e, job) =
        job_found (mailing_for request parameter path files) preview.proveedores a in
      inl (go, (q, rw (go, e) refl, job))
]
