-- ===== src/Jobs/Listing/Laws.antt =====
-- About reading a listing page by page.
use proyecto.Common.{
  ℕ, zero, suc, ◌+◌, ◌-◌, ◌≤◌, ◌<◌, ◌≡◌, refl, sym, ◌∙◌, ap, Bool, true, false, List, [], ◌∷◌, ◌++◌,
  arith, ltb, length, count, count-le-length, count-append, length-select, take, drop, drop_all,
  drop-add, take-append-drop, select, All, Bool-cases, inl, inr, if◌then◌else◌,
}
use proyecto.Jobs.Model.{Uuid, Job}
use proyecto.Jobs.Repository.{Db}
use proyecto.Jobs.Service.{can_access}
use proyecto.Jobs.Listing.{
  Page, page, JobFilter, passes, newest_first, user_filter, listed, list_jobs,
}

-- A client that asks for the next page while there is more
abbrev pub walk {ℓ} : {A : Type ℓ} → ℕ → (ℕ → Page A) → ℕ → List A
walk zero ask offset = []
walk (suc rounds) ask offset =
    let later = walk rounds ask (offset + (ask offset).limit) in
    if (ask offset).has_more then (ask offset).items ++ later else (ask offset).items

take_enough : {A : Type 0} → (n : ℕ) (xs : List A) → length xs ≤ length (take n xs) → take n xs ≡ xs
take_enough zero [] h = refl
take_enough zero (x ∷ xs) h = absurd (omega (arith, h))
take_enough (suc n) [] h = refl
take_enough (suc n) (x ∷ xs) h = ap (λ t. x ∷ t) (take_enough n xs (omega (arith, h)))

length-drop : {A : Type 0} → (n : ℕ) (xs : List A) → length (drop n xs) ≡ length xs - n
length-drop zero xs = omega arith
length-drop (suc n) [] = omega arith
length-drop (suc n) (x ∷ xs) = omega (arith, length-drop n xs)

walk-page :
    {A : Type 0}
    → (rows : List A) (limit : ℕ) → 0 < limit
    → (rounds offset : ℕ) → length rows < rounds + offset
    → walk rounds (page rows limit) offset ≡ drop offset rows
unfolding page
walk-page rows limit h zero offset enough = sym (drop_all offset rows (omega arith))
walk-page rows limit h (suc rounds) offset enough =
    let shown = take limit (drop offset rows) in
    let rest : drop (offset + limit) rows ≡ drop limit (drop offset rows) =
      drop-add offset limit rows in
    let joined : shown ++ drop limit (drop offset rows) ≡ drop offset rows =
      take-append-drop limit (drop offset rows) in
    elim (Bool-cases (ltb (offset + length shown) (length rows))) [
      | inl more ↦ rw more (
          ap (λ t. shown ++ t)
            (walk-page rows limit h rounds (offset + limit) (omega (arith, enough, h)) ∙ rest)
          ∙ joined)
      | inr last ↦
          let reached : length rows ≤ offset + length shown = ground (arith, last) in
          rw last
            (take_enough limit (drop offset rows) (omega (arith, reached, length-drop offset rows)))
    ]

-- What `list_jobs` counts and shows
abbrev pub IsListing : Uuid → Bool → Bool → JobFilter → Db → (ℕ → Page Job) → Type 0
IsListing user_id can_view_all mine f db ask =
    let own = record f { user_id = user_filter user_id can_view_all mine } in
    (walk (suc (length db)) ask 0 ≡ listed user_id can_view_all mine f db)
    × ((ask 0).total ≡ count (passes own) db)
    × All (λ job. can_access job user_id can_view_all ≡ true)
        (listed user_id can_view_all mine f db)

count-newest_first : (p : Job → Bool) (db : Db) → count p (newest_first db) ≡ count p db
count-newest_first p [] = refl
count-newest_first p (job ∷ db) =
    omega (arith, count-append p (newest_first db) (job ∷ []), count-newest_first p db)

length-listed : (p : Job → Bool) (db : Db) → length (select p (newest_first db)) ≡ count p db
length-listed p db = length-select p (newest_first db) ∙ count-newest_first p db

select-le : (p : Job → Bool) (db : Db) → length (select p (newest_first db)) ≤ length db
select-le p db = omega (arith, length-listed p db, count-le-length p db)

visible :
    (user_id : Uuid) (can_view_all mine : Bool) (f : JobFilter) (job : Job)
    → passes (record f { user_id = user_filter user_id can_view_all mine }) job ≡ true
    → can_access job user_id can_view_all ≡ true
visible user_id true mine f job h = refl
visible user_id false true f job h = ground (arith, h)
visible user_id false false f job h = ground (arith, h)

selected :
    (P : Job → Type 0) (p : Job → Bool) (db : List Job)
    → ((job : Job) → p job ≡ true → P job)
    → All P (select p db)
selected P p [] h = tt
selected P p (job ∷ db) h = elim (Bool-cases (p job)) [
  | inl here ↦ rw here (h job here, selected P p db h)
  | inr other ↦ rw other (selected P p db h)
]

-- Whoever reads the pages of `list_jobs` one after the other, while there is more, gets each job that
-- passes the filters exactly once, the newest first, whatever the size of a page; the total is their
-- number; and all of them are jobs that this user may open. The table does not change meanwhile.
pub list_jobs-IsListing :
    (user_id : Uuid) (can_view_all mine : Bool) (f : JobFilter) (limit : ℕ) (db : Db)
    → 0 < limit
    → IsListing user_id can_view_all mine f db
        (λ offset. list_jobs user_id can_view_all mine f limit offset db)
unfolding listed page
list_jobs-IsListing user_id can_view_all mine f limit db h =
    let p = passes (record f { user_id = user_filter user_id can_view_all mine }) in
    let rows = select p (newest_first db) in
    (
      walk-page rows limit h (suc (length db)) 0 (omega (arith, select-le p db)),
      length-listed p db,
      selected (λ job. can_access job user_id can_view_all ≡ true) p (newest_first db)
          (visible user_id can_view_all mine f),
    )
