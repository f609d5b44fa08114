-- ===== src/Payments/Email/Laws.antt =====
-- What one run of a batch of e-mails sends, and what it leaves of the items.
use proyecto.Common.{
  ℕ, suc, ◌+◌, ◌⊎◌, String, ◌≡◌, refl, ◌∙◌, ap, true, false, inl, inr, List, [], ◌∷◌, ◌++◌, map,
  length, All, Bool-cases, if◌then◌else◌,
}
use proyecto.Common.Value.{Value}
use proyecto.Common.Counting.{Fails}
use proyecto.Jobs.Model.{Time, JobItem, is_pending, is_running}
use proyecto.Jobs.Cancel.{cancel_item}
use proyecto.Sap.World.{is_cancel_requested}
use proyecto.Sap.Items.Laws.{pending_references}
use proyecto.Payments.Email.{
  MailWorld, Mails, counted_mail, mail_step, send_items, attempt, payload_of, emailed_item,
}

-- An item that waits is sent, cancelled or left; any other item is left as it is.
abbrev pub AllUntouched : List JobItem → List JobItem → Type 0
AllUntouched [] [] = Unit
AllUntouched (i ∷ before) (j ∷ after) = (is_pending i ≡ false → j ≡ i) × AllUntouched before after
AllUntouched _ _ = ⊥

pub untouched_self : (items : List JobItem) → AllUntouched items items
untouched_self [] = tt
untouched_self (i ∷ items) = (λ _. refl, untouched_self items)

pub untouched_cancel :
    (now : Time) (before after : List JobItem)
    → AllUntouched before after
    → AllUntouched before (map (cancel_item now) after)
unfolding cancel_item
untouched_cancel now [] [] h = tt
untouched_cancel now [] (j ∷ after) h = absurd h
untouched_cancel now (i ∷ before) [] h = absurd h
untouched_cancel now (i ∷ before) (j ∷ after) h = (
  λ other.
      let same : j ≡ i = h.0 other in
      let idle : is_pending j ≡ false = ap is_pending same ∙ other in rw idle same,
  untouched_cancel now before after h.1,
)

pub length-untouched :
    (before after : List JobItem) → AllUntouched before after → length after ≡ length before
length-untouched [] [] h = refl
length-untouched [] (j ∷ after) h = absurd h
length-untouched (i ∷ before) [] h = absurd h
length-untouched (i ∷ before) (j ∷ after) h = ap suc (length-untouched before after h.1)

-- The references that were tried are the first of those that wait.
abbrev pub IsPrefix : List String → List String → Type 0
IsPrefix calls references = (more : List String) × (calls ++ more ≡ references)

-- What the loop leaves: no item under way, and none waiting unless it stopped.
abbrev pub LeftMails : Mails → Type 0
LeftMails m = All (Fails is_running) m.items × (m.stopped ≡ false → All (Fails is_pending) m.items)

module _ (w : MailWorld) (k : ℕ) (i : JobItem) (items : List JobItem) (rest : Mails) where
  abbrev outcome : String ⊎ Value
  outcome = attempt w k (payload_of i.result_data)

  counted-calls :
      (sent : String ⊎ Value) (left : List String)
      → rest.calls ++ left ≡ pending_references items
      → IsPrefix
          (counted_mail i.reference (emailed_item w.now i sent) sent rest).calls
          (i.reference ∷ pending_references items)
  counted-calls (inl text) left h = (left, ap (λ t. i.reference ∷ t) h)
  counted-calls (inr result) left h = (left, ap (λ t. i.reference ∷ t) h)

  step-calls :
      (left : List String)
      → rest.calls ++ left ≡ pending_references items
      → IsPrefix (mail_step w k i items rest).calls (pending_references (i ∷ items))
  step-calls left h = elim (Bool-cases (is_pending i)) [
    | inr other ↦ (left, rw other h)
    | inl waiting ↦ elim (Bool-cases (is_cancel_requested (w.observed k))) [
      | inl cancelled ↦ (i.reference ∷ pending_references items, rw (waiting, cancelled))
      | inr live ↦ let (more, e) = counted-calls outcome left h in (more, rw (waiting, live) e)
    ]
  ]

  counted-untouched :
      (sent : String ⊎ Value)
      → is_pending i ≡ true
      → AllUntouched items rest.items
      → AllUntouched
          (i ∷ items)
          (counted_mail i.reference (emailed_item w.now i sent) sent rest).items
  counted-untouched (inl text) waiting h = (λ other. absurd (cc), h)
  counted-untouched (inr result) waiting h = (λ other. absurd (cc), h)

  step-untouched :
      AllUntouched items rest.items → AllUntouched (i ∷ items) (mail_step w k i items rest).items
  step-untouched h = elim (Bool-cases (is_pending i)) [
    | inr other ↦ rw other (λ _. refl, h)
    | inl waiting ↦ elim (Bool-cases (is_cancel_requested (w.observed k))) [
      | inl cancelled ↦ rw (waiting, cancelled) (untouched_self (i ∷ items))
      | inr live ↦ rw (waiting, live) (counted-untouched outcome waiting h)
    ]
  ]

  counted-Left :
      (sent : String ⊎ Value)
      → LeftMails rest
      → LeftMails (counted_mail i.reference (emailed_item w.now i sent) sent rest)
  unfolding emailed_item
  counted-Left (inl text) h = ((refl, h.0), λ going. (refl, h.1 going))
  counted-Left (inr result) h = ((refl, h.0), λ going. (refl, h.1 going))

  step-Left :
      is_running i ≡ false
      → All (Fails is_running) items
      → LeftMails rest
      → LeftMails (mail_step w k i items rest)
  step-Left idle idles h = elim (Bool-cases (is_pending i)) [
    | inr other ↦ rw other ((idle, h.0), λ going. (other, h.1 going))
    | inl waiting ↦ elim (Bool-cases (is_cancel_requested (w.observed k))) [
      | inl cancelled ↦ rw (waiting, cancelled) ((idle, idles), λ going. absurd (cc))
      | inr live ↦ rw (waiting, live) (counted-Left outcome h)
    ]
  ]

module _ (w : MailWorld) where
  abbrev next : ℕ → JobItem → ℕ
  next k i = if is_pending i then k + 1 else k

  pub send_items-calls :
      (k : ℕ) (items : List JobItem)
      → IsPrefix (send_items w k items).calls (pending_references items)
  unfolding send_items
  send_items-calls k [] = ([], refl)
  send_items-calls k (i ∷ items) =
      let (left, h) = send_items-calls (if is_pending i then k + 1 else k) items in
      step-calls w k i items (send_items w (if is_pending i then k + 1 else k) items) left h

  pub send_items-untouched :
      (k : ℕ) (items : List JobItem) → AllUntouched items (send_items w k items).items
  unfolding send_items
  send_items-untouched k [] = tt
  send_items-untouched k (i ∷ items) =
      step-untouched w k i items (send_items w (if is_pending i then k + 1 else k) items)
        (send_items-untouched (if is_pending i then k + 1 else k) items)

  pub send_items-Left :
      (k : ℕ) (items : List JobItem)
      → All (Fails is_running) items
      → LeftMails (send_items w k items)
  unfolding send_items
  send_items-Left k [] idle = (tt, λ going. tt)
  send_items-Left k (i ∷ items) idle =
      step-Left w k i items (send_items w (if is_pending i then k + 1 else k) items) idle.0 idle.1
        (send_items-Left (if is_pending i then k + 1 else k) items idle.1)
