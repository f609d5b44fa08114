-- ===== src/Payments/Providers/Registry.antt =====
-- About the operations on the table of the suppliers.
use mathlib.Core.Path.{subst}
use proyecto.Common.{
  ◌≡◌, refl, sym, ◌∙◌, ap, true, false, ◌||◌, Option, none, some, List, [], ◌∷◌, arith,
  if◌then◌else◌, All, find, Bool-cases, Option-cases, inl, inr,
}
use proyecto.Common.Tables.{replace_first, find_found, All-replace_first, All_find}
use proyecto.Core.Integrity.{Refusal, committed}
use proyecto.Jobs.Model.{Uuid}
use proyecto.Payments.Text.{Text, Unicode, text_eq, strip}
use proyecto.Payments.Providers.{
  PaymentProvider, Providers, has_id, has_tax, get_provider_by_tax_id, build_normalized_names,
  ProviderCreate, ProviderUpdate, commit_provider, new_provider, create_provider, is_other,
  tax_conflict, is_null, sent_or, sent_tax, is_sent, changed_row, has_null, apply_update,
  update_provider, delete_provider, ProviderRequest, create_request, update_request, delete_request,
  serve_provider,
}
use proyecto.Payments.Providers.Laws.{
  Apart, AllApart, IsNamed, IsRegistry, text_eq_self, IsOwn, found_tax-IsOwn, no_tax-IsOwn,
  has_id-eq, found_id-IsOwn, replaced-AllApart,
}

module _ (u : Unicode) where
  replaced-IsRegistry :
      (id : Uuid) (new : PaymentProvider) (db : Providers)
      → new.id ≡ id
      → IsOwn id new.tax_id db
      → IsNamed u new
      → IsRegistry u db
      → IsRegistry u (replace_first (has_id id) new db)
  replaced-IsRegistry id new db k own named r = (
    replaced-AllApart id new db k own r.0,
    All-replace_first (IsNamed u) (has_id id) new db named r.1,
  )

  commit-IsRegistry :
      (refusal : Refusal) (row : PaymentProvider) (new old : Providers)
      → IsRegistry u new
      → IsRegistry u old
      → IsRegistry u (commit_provider refusal row new old).1
  unfolding committed
  commit-IsRegistry none row new old h g = h
  commit-IsRegistry (some name) row new old h g = g

  -- No row has this key.
  abbrev pub IsNew : Uuid → Providers → Type 0
  IsNew id db = All (λ q. ¬ (id ≡ q.id)) db

  free-Apart :
      (row : PaymentProvider) (db : Providers)
      → IsNew row.id db
      → find (has_tax row.tax_id) db ≡ none
      → All (Apart row) db
  free-Apart row [] h f = tt
  free-Apart row (q ∷ db) h f = elim (Bool-cases (text_eq q.tax_id row.tax_id)) [
    | inl same ↦ let bad : some q ≡ none = rw same at f in absurd (cc)
    | inr other ↦ (
      (
        h.0,
        λ e.
            let yes : text_eq q.tax_id row.tax_id ≡ true =
              ap (λ t. text_eq t row.tax_id) (sym e) ∙ text_eq_self row.tax_id in
            absurd (cc),
      ),
      free-Apart row db h.1 (rw other at f),
    )
  ]

  create-IsRegistry :
      (refusal : Refusal) (id user_id : Uuid) (request : ProviderCreate) (db : Providers)
      → IsNew id db
      → IsRegistry u db
      → IsRegistry u (create_provider u refusal id user_id request db).1
  unfolding create_provider get_provider_by_tax_id
  create-IsRegistry refusal id user_id request db fresh r =
      let row = new_provider u id user_id request in
      elim (Option-cases (find (has_tax (strip request.tax_id)) db)) [
        | inr (e, found) ↦ rw found r
        | inl free ↦ rw free (
            commit-IsRegistry refusal row (row ∷ db) db
              ((free-Apart row db fresh free, r.0), (refl, r.1)) r)
      ]

  changed_row-IsNamed :
      (user_id : Uuid) (request : ProviderUpdate) (row : PaymentProvider)
      → IsNamed u row
      → IsNamed u (changed_row u user_id request row)
  changed_row-IsNamed user_id request row h = named request.legal_name request.commercial_names
    where
      named :
          (legal : Option (Option Text)) (commercial : Option (Option (List Text)))
          → (if is_sent legal || is_sent commercial
              then build_normalized_names u
                  (sent_or legal row.legal_name)
                  (sent_or commercial row.commercial_names)
              else row.normalized_names)
            ≡ build_normalized_names u
                (sent_or legal row.legal_name)
                (sent_or commercial row.commercial_names)
      named none none = h
      named none (some c) = refl
      named (some l) c = refl

  -- A document that passes the check is the row's own.
  sent-IsOwn :
      (id : Uuid) (sent : Option (Option Text)) (db : Providers) (row : PaymentProvider)
      → AllApart db
      → find (has_id id) db ≡ some row
      → tax_conflict id sent db ≡ false
      → IsOwn id (sent_tax sent row.tax_id) db
  unfolding get_provider_by_tax_id
  sent-IsOwn id none db row a f c = found_id-IsOwn id db row a f
  sent-IsOwn id (some none) db row a f c = found_id-IsOwn id db row a f
  sent-IsOwn id (some (some tax_id)) db row a f c =
      elim (Option-cases (find (has_tax (strip tax_id)) db)) [
        | inl free ↦ no_tax-IsOwn id (strip tax_id) db free
        | inr (e, found) ↦
            let mine : is_other id (some e) ≡ false = ap (is_other id) (sym found) ∙ c in
            let same : e.id ≡ id = ground (arith, mine) in
            subst (λ k. IsOwn k (strip tax_id) db) same
              (found_tax-IsOwn (strip tax_id) db e a found)
      ]

  apply-IsRegistry :
      (refusal : Refusal) (id user_id : Uuid) (request : ProviderUpdate) (row : PaymentProvider)
      (db : Providers)
      → find (has_id id) db ≡ some row
      → tax_conflict id request.tax_id db ≡ false
      → IsRegistry u db
      → IsRegistry u (apply_update u refusal id user_id request row db).1
  unfolding apply_update
  apply-IsRegistry refusal id user_id request row db found free r =
      let new = changed_row u user_id request row in
      elim (Bool-cases (is_null request.commercial_names)) [
        | inl null ↦ rw null r
        | inr given ↦ rw given (
            commit-IsRegistry (if has_null request then some none else refusal) new
              (replace_first (has_id id) new db) db
              (replaced-IsRegistry id new db
                (has_id-eq id row (find_found (has_id id) db row found))
                (sent-IsOwn id request.tax_id db row r.0 found free)
                (changed_row-IsNamed user_id request row
                  (All_find (IsNamed u) (has_id id) db row r.1 found))
                r)
              r)
      ]

  -- A request that creates a row brings a new key.
  abbrev pub HasNew : ProviderRequest → Providers → Type 0
  HasNew (create_request refusal id user_id request) db = IsNew id db
  HasNew _ db = Unit

  update-IsRegistry :
      (refusal : Refusal) (id user_id : Uuid) (request : ProviderUpdate) (db : Providers)
      → IsRegistry u db
      → IsRegistry u (update_provider u refusal id user_id request db).1
  unfolding update_provider
  update-IsRegistry refusal id user_id request db r = elim (Option-cases (find (has_id id) db)) [
    | inl missing ↦ rw (missing, update_provider) r
    | inr (row, found) ↦ elim (Bool-cases (tax_conflict id request.tax_id db)) [
      | inl taken ↦ rw (found, update_provider, taken) r
      | inr free ↦
          rw (found, update_provider, free)
            (apply-IsRegistry refusal id user_id request row db found free r)
    ]
  ]

  delete-IsRegistry :
      (id user_id : Uuid) (db : Providers)
      → IsRegistry u db
      → IsRegistry u (delete_provider id user_id db).1
  unfolding delete_provider
  delete-IsRegistry id user_id db r = elim (Option-cases (find (has_id id) db)) [
    | inl missing ↦ rw (missing, delete_provider) r
    | inr (row, found) ↦
        rw (found, delete_provider)
          (replaced-IsRegistry id (record row { active = false; updated_by = some user_id }) db
            (has_id-eq id row (find_found (has_id id) db row found))
            (found_id-IsOwn id db row r.0 found) (All_find (IsNamed u) (has_id id) db row r.1 found)
            r)
  ]

  -- Whatever users create, change or delete, and whatever the database refuses: two rows never have
  -- the same document, and the names that receipts are compared with are always those of the row's
  -- legal and commercial names. The key of a new row is new.
  pub serve_provider-IsRegistry :
      (request : ProviderRequest) (db : Providers)
      → HasNew request db
      → IsRegistry u db
      → IsRegistry u (serve_provider u request db)
  serve_provider-IsRegistry (create_request refusal id user_id request) db n r =
      create-IsRegistry refusal id user_id request db n r
  serve_provider-IsRegistry (update_request refusal id user_id request) db n r =
      update-IsRegistry refusal id user_id request db r
  serve_provider-IsRegistry (delete_request id user_id) db n r = delete-IsRegistry id user_id db r
