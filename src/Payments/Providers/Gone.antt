-- ===== src/Payments/Providers/Gone.antt =====
-- A supplier that was deleted stays inactive until a request makes him active.
use proyecto.Common.{
  ◌≡◌, refl, sym, ◌∙◌, Bool, true, false, Option, none, some, List, [], ◌∷◌, arith, select, find,
  All, Bool-cases, Option-cases, inl, inr,
}
use proyecto.Common.Counting.{All-imp}
use proyecto.Common.Tables.{replace_first, All-replace_first, All_find, find_found}
use proyecto.Core.Errors.{ok}
use proyecto.Core.Integrity.{Refusal, committed}
use proyecto.Jobs.Model.{Uuid}
use proyecto.Payments.Text.{Unicode, strip}
use proyecto.Payments.Providers.{
  PaymentProvider, Providers, has_id, is_active, has_tax, get_provider_by_tax_id, ProviderUpdate,
  commit_provider, new_provider, create_provider, tax_conflict, is_null, sent_or, changed_row,
  apply_update, update_provider, delete_provider, ProviderRequest, create_request, update_request,
  delete_request, serve_provider, list_active_providers,
}
use proyecto.Payments.Providers.Laws.{Apart, AllApart, has_id-eq}

-- One request after the other
abbrev pub serve_all : Unicode → List ProviderRequest → Providers → Providers
serve_all u [] db = db
serve_all u (r ∷ requests) db = serve_all u requests (serve_provider u r db)

module _ (u : Unicode) (id : Uuid) where
  -- The rows with this key are not active.
  abbrev pub Gone : PaymentProvider → Type 0
  Gone p = p.id ≡ id → p.active ≡ false

  abbrev pub AllGone : Providers → Type 0
  AllGone db = All Gone db

  -- The request gives this key to no new row, and does not make its row active.
  abbrev pub IsQuiet : ProviderRequest → Type 0
  IsQuiet (create_request refusal new user_id request) = new ≡ id → ⊥
  IsQuiet (update_request refusal key user_id request) =
      key ≡ id → request.active ≡ some (some true) → ⊥
  IsQuiet (delete_request key user_id) = Unit

  gone-active : (db : Providers) → AllGone db → All (λ q. ¬ (q.id ≡ id)) (select is_active db)
  gone-active [] a = tt
  gone-active (p ∷ db) a = elim (Bool-cases (is_active p)) [
    | inl on ↦ rw on (λ e. absurd (let off = a.0 e in cc), gone-active db a.1)
    | inr off ↦ rw off (gone-active db a.1)
  ]

  deleted_row :
      (new : PaymentProvider) (db : Providers)
      → new.active ≡ false
      → AllApart db
      → AllGone (replace_first (has_id id) new db)
  deleted_row new [] off a = tt
  deleted_row new (p ∷ db) off a = elim (Bool-cases (has_id id p)) [
    | inl here ↦
        let key : p.id ≡ id = has_id-eq id p here in
        rw here
          (λ e. off, All-imp (Apart p) Gone db (λ q apart e. absurd (apart.0 (key ∙ sym e))) a.0)
    | inr other ↦ rw other (λ e. absurd (ground (arith, other, e)), deleted_row new db off a.1)
  ]

  commit-AllGone :
      (refusal : Refusal) (row : PaymentProvider) (new old : Providers)
      → AllGone new
      → AllGone old
      → AllGone (commit_provider refusal row new old).1
  unfolding committed
  commit-AllGone none row new old h g = h
  commit-AllGone (some name) row new old h g = g

  still_off :
      (sent : Option (Option Bool)) (old : Bool)
      → (sent ≡ some (some true) → ⊥)
      → old ≡ false
      → sent_or sent old ≡ false
  still_off none old h off = off
  still_off (some none) old h off = off
  still_off (some (some true)) old h off = absurd (h refl)
  still_off (some (some false)) old h off = refl

  apply-AllGone :
      (refusal : Refusal) (key user_id : Uuid) (request : ProviderUpdate) (row : PaymentProvider)
      (db : Providers)
      → (row.id ≡ id → request.active ≡ some (some true) → ⊥)
      → Gone row
      → AllGone db
      → AllGone (apply_update u refusal key user_id request row db).1
  unfolding apply_update
  apply-AllGone refusal key user_id request row db quiet gone a =
      elim (Bool-cases (is_null request.commercial_names)) [
        | inl raises ↦ rw raises a
        | inr fine ↦
            let new : PaymentProvider = changed_row u user_id request row in
            rw fine (
              commit-AllGone _ new (replace_first (has_id key) new db) db
                (All-replace_first Gone (has_id key) new db
                  (λ e. still_off request.active row.active (quiet e) (gone e)) a)
                a)
      ]

  serve-AllGone :
      (r : ProviderRequest) (db : Providers)
      → IsQuiet r
      → AllGone db
      → AllGone (serve_provider u r db)
  unfolding create_provider update_provider delete_provider get_provider_by_tax_id
  serve-AllGone (create_request refusal new user_id request) db quiet a =
      let row : PaymentProvider = new_provider u new user_id request in
      elim (Option-cases (find (has_tax (strip request.tax_id)) db)) [
        | inr (e, found) ↦ rw (found, serve_provider) a
        | inl free ↦
            rw (free, serve_provider)
              (commit-AllGone refusal row (row ∷ db) db ((λ e. absurd (quiet e)), a) a)
      ]
  serve-AllGone (update_request refusal key user_id request) db quiet a =
      elim (Option-cases (find (has_id key) db)) [
        | inl missing ↦ rw (missing, serve_provider) a
        | inr (row, found) ↦ elim (Bool-cases (tax_conflict key request.tax_id db)) [
          | inl taken ↦ rw (found, taken, serve_provider) a
          | inr fine ↦
              let own : row.id ≡ key = has_id-eq key row (find_found (has_id key) db row found) in
              rw (found, fine, serve_provider)
                (apply-AllGone refusal key user_id request row db (λ e. quiet (sym own ∙ e))
                  (All_find Gone (has_id key) db row a found) a)
        ]
      ]
  serve-AllGone (delete_request key user_id) db quiet a =
      elim (Option-cases (find (has_id key) db)) [
        | inl missing ↦ rw (missing, serve_provider) a
        | inr (row, found) ↦
            rw (found, serve_provider)
              (All-replace_first Gone (has_id key)
                (record row { active = false; updated_by = some user_id }) db (λ e. refl) a)
      ]

  serve_all-AllGone :
      (requests : List ProviderRequest) (db : Providers)
      → All IsQuiet requests
      → AllGone db
      → AllGone (serve_all u requests db)
  serve_all-AllGone [] db q a = a
  serve_all-AllGone (r ∷ requests) db q a =
      serve_all-AllGone requests (serve_provider u r db) q.1 (serve-AllGone r db q.0 a)

  deletion-AllGone :
      (user_id : Uuid) (db : Providers)
      → AllApart db
      → (delete_provider id user_id db).0 ≡ ok true
      → AllGone (delete_provider id user_id db).1
  unfolding delete_provider
  deletion-AllGone user_id db a done = elim (Option-cases (find (has_id id) db)) [
    | inl missing ↦ absurd (let bad = rw (missing, delete_provider) at done in cc)
    | inr (row, found) ↦
        rw (found, delete_provider)
          (deleted_row (record row { active = false; updated_by = some user_id }) db refl a)
  ]

  -- After a deletion and quiet requests no active row has the key.
  pub deleted_away :
      (user_id : Uuid) (db : Providers) (requests : List ProviderRequest)
      → AllApart db
      → (delete_provider id user_id db).0 ≡ ok true
      → All IsQuiet requests
      → All
          (λ q. ¬ (q.id ≡ id))
          (list_active_providers (serve_all u requests (delete_provider id user_id db).1))
  deleted_away user_id db requests a done quiet =
      gone-active (serve_all u requests (delete_provider id user_id db).1) (
        serve_all-AllGone requests (delete_provider id user_id db).1 quiet
          (deletion-AllGone user_id db a done))
