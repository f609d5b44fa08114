-- ===== src/Payments/Preview/Active.antt =====
-- About the suppliers that a preview can name.
use proyecto.Common.{
  ℕ, ◌≡◌, Bool, true, false, Option, none, some, List, [], ◌∷◌, map, find, select, All, Bool-cases,
  inl, inr, if◌then◌else◌,
}
use proyecto.Core.Errors.{ok}
use proyecto.Jobs.Model.{Uuid}
use proyecto.Payments.Text.{Unicode}
use proyecto.Payments.Groups.{
  Provider, Payment, GroupKey, key_eq, PaymentItem, Group, new_group, Groups, put_payment,
  or_provider, find_by_taxid, find_by_name, find_provider, provider_of, provider_id_of, add_payment,
  group_key, payment_item, display_name, group_from, SerializedGroup, group,
}
use proyecto.Payments.Groups.Serialized.{AllMade, serialize_all-AllMade}
use proyecto.Payments.Parser.{Settings, ParseResult}
use proyecto.Payments.Providers.{
  Providers, provider_row, list_active_providers, delete_provider, ProviderRequest,
}
use proyecto.Payments.Providers.Laws.{AllApart}
use proyecto.Payments.Providers.Gone.{serve_all, IsQuiet, deleted_away}
use proyecto.Payments.Preview.{
  Upload, Preview, payments_of, is_processed, preview_from, grouped_preview, preview_files,
  parse_all,
}

-- A property of the key of a group's supplier, which each supplier given has
module _ (P : ℕ → Type 0) where
  abbrev pub Satisfies : Option ℕ → Type 0
  Satisfies none = Unit
  Satisfies (some id) = P id

  abbrev Has : Provider → Type 0
  Has provider = P provider.id

  abbrev HasFound : Option Provider → Type 0
  HasFound found = Satisfies (provider_id_of found)

  find-HasFound :
      (test : Provider → Bool) (providers : List Provider)
      → All Has providers
      → HasFound (find test providers)
  find-HasFound test [] h = tt
  find-HasFound test (p ∷ providers) h = elim (Bool-cases (test p)) [
    | inl here ↦ rw here h.0
    | inr other ↦ rw other (find-HasFound test providers h.1)
  ]

  HasFound-if :
      (test : Bool) (found : Option Provider)
      → HasFound found
      → HasFound (if test then found else none)
  HasFound-if true found h = h
  HasFound-if false found h = tt

  HasFound-or : (a b : Option Provider) → HasFound a → HasFound b → HasFound (or_provider a b)
  HasFound-or none b h g = g
  HasFound-or (some p) b h g = h

  provider_of-HasFound :
      (u : Unicode) (providers : List Provider) (p : Payment)
      → All Has providers
      → HasFound (provider_of u providers p)
  unfolding find_provider
  provider_of-HasFound u providers p h =
      HasFound-or (find_by_taxid u providers p.destino.ruc)
        (find_by_name u providers p.destino.titular)
        (HasFound-if _ (find _ providers) (find-HasFound _ providers h))
        (HasFound-if _ (find _ providers) (find-HasFound _ providers h))

  abbrev InGroup : GroupKey × Group → Type 0
  InGroup g = Satisfies g.1.provider_id

  put_payment-InGroup :
      (key : GroupKey) (fresh : Group) (item : PaymentItem) (p : Payment) (groups : Groups)
      → Satisfies fresh.provider_id
      → All InGroup groups
      → All InGroup (put_payment key fresh item p groups)
  unfolding put_payment
  put_payment-InGroup key fresh item p [] f a = (f, tt)
  put_payment-InGroup key fresh item p (g ∷ groups) f a = elim (Bool-cases (key_eq g.0 key)) [
    | inl same ↦ rw same a
    | inr other ↦ rw other (a.0, put_payment-InGroup key fresh item p groups f a.1)
  ]

  group_from-InGroup :
      (u : Unicode) (providers : List Provider) (groups : Groups) (payments : List Payment)
      → All Has providers
      → All InGroup groups
      → All InGroup (group_from u providers groups payments)
  unfolding group_from
  group_from-InGroup u providers groups [] h a = a
  group_from-InGroup u providers groups (p ∷ payments) h a =
      let provider : Option Provider = provider_of u providers p in
      group_from-InGroup u providers (add_payment u providers p groups) payments h (
        put_payment-InGroup (group_key u provider p.destino.ruc p.destino.titular)
          (new_group provider p) (payment_item u (display_name provider p) p) p groups
          (provider_of-HasFound u providers p h) a)

  abbrev pub InSerialized : SerializedGroup → Type 0
  InSerialized s = Satisfies s.group.provider_id

  pub group-InSerialized :
      (u : Unicode) (providers : List Provider) (payments : List Payment)
      → All Has providers
      → AllMade InSerialized (group u providers payments)
  unfolding group
  group-InSerialized u providers payments h =
      serialize_all-AllMade (λ g. Satisfies g.provider_id) InSerialized
        (λ g totales pagos made p. p) (group_from u providers [] payments)
        (group_from-InGroup u providers [] payments h tt)

rows_away :
    (id : Uuid) (db : Providers)
    → All (λ q. ¬ (q.id ≡ id)) db
    → All (λ provider. ¬ (provider.id ≡ id)) (map provider_row db)
rows_away id [] h = tt
rows_away id (p ∷ db) h = (h.0, rows_away id db h.1)

-- No group of the preview has this supplier.
abbrev pub IsAbsent : Uuid → Option Preview → Type 0
IsAbsent id none = Unit
IsAbsent id (some preview) = All (InSerialized (λ k. ¬ (k ≡ id))) preview.proveedores

grouped-IsAbsent :
    (u : Unicode) (id : Uuid) (providers : List Provider) (results : List ParseResult)
    (payments : Option (List Payment))
    → All (λ provider. ¬ (provider.id ≡ id)) providers
    → IsAbsent id (grouped_preview u providers results payments)
grouped-IsAbsent u id providers results none h = tt
grouped-IsAbsent u id providers results (some payments) h =
    go (group u providers payments) (group-InSerialized (λ k. ¬ (k ≡ id)) u providers payments h)
  where
    go :
        (made : Option (List SerializedGroup))
        → AllMade (InSerialized (λ k. ¬ (k ≡ id))) made
        → IsAbsent id (preview_from results made)
    go none a = tt
    go (some grouped) a = a

-- A supplier that was deleted is in no preview from then on, until a request makes him active again:
-- after any requests that do not, whatever files come, no group of the preview is his. The rows have
-- different keys, and the key of a new row is new.
pub deleted-IsAbsent :
    (u : Unicode) (settings : Settings) (id user_id : Uuid) (db : Providers)
    (requests : List ProviderRequest) (files : List Upload)
    → AllApart db
    → (delete_provider id user_id db).0 ≡ ok true
    → All (IsQuiet u id) requests
    → IsAbsent id
        (preview_files u settings (serve_all u requests (delete_provider id user_id db).1) files)
unfolding preview_files
deleted-IsAbsent u settings id user_id db requests files a done quiet =
    let after = serve_all u requests (delete_provider id user_id db).1 in
    let results = parse_all u settings files in
    grouped-IsAbsent u id (map provider_row (list_active_providers after)) results
      (payments_of (select is_processed results))
      (rows_away id (list_active_providers after)
        (deleted_away u id user_id db requests a done quiet))
