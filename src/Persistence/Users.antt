-- ===== src/Persistence/Users.antt =====
-- hdv-foundation/persistence/repositories.ts, `InMemoryUserRepository`: the users by id, and an index from
-- their emails to their ids.
use hdv_orchestrator.Common.{
  String, Option, none, some, [], string_eq, ◌==◌, if◌then◌else◌, ◌≡◌, refl, arith, Option-cases,
  inl, inr, All, All-map,
}
use text.Mathlib.TextEquality.{eq_iff}
use hdv_orchestrator.JsMap.{Entries, lookup, insert}
use hdv_orchestrator.JsMap.Laws.{lookup-insert, lookup-insert_self, All-insert, All-lookup}
use hdv_orchestrator.Persistence.Records.{UserRecord}

pub record UserRepository : Type 0 where
  pub rows : Entries String UserRecord
  pub by_email : Entries String String

unfoldable pub create : UserRecord → UserRepository → UserRepository
create row repo = record {
  rows = insert row.id row repo.rows;
  by_email = insert row.email row.id repo.by_email;
}

unfoldable pub find_by_id : String → UserRepository → Option UserRecord
find_by_id id repo = lookup id repo.rows

unfoldable pub find_by_email : String → UserRepository → Option UserRecord
find_by_email email repo = elim (lookup email repo.by_email) [
  | none ↦ none
  | some id ↦ lookup id repo.rows
]

unfoldable pub clear : UserRepository → UserRepository
clear repo = record { rows = []; by_email = [] }

abbrev IsHome : Entries String UserRecord → String × String → Type 0
IsHome rows (email, id) =
    (u : UserRecord) × (lookup id rows ≡ some u) × (u.email ≡ email) × (u.id ≡ id)

-- The index is right: every indexed email leads to a user with that email.
abbrev pub IsIndexed : UserRepository → Type 0
IsIndexed repo = All (IsHome repo.rows) repo.by_email

IsHome-insert :
    (row : UserRecord) (rows : Entries String UserRecord) (entry : String × String)
    → lookup row.id rows ≡ none
    → IsHome rows entry
    → IsHome (insert row.id row rows) entry
IsHome-insert row rows (email, id) new (u, at, e, i) =
    (u, ground (arith, lookup-insert row.id id row rows, eq_iff row.id id), e, i)

-- Creating a user whose id is new keeps the index right.
create-IsIndexed :
    (row : UserRecord) (repo : UserRepository)
    → lookup row.id repo.rows ≡ none
    → IsIndexed repo
    → IsIndexed (create row repo)
unfolding create
create-IsIndexed row repo new h =
    All-insert (IsHome (insert row.id row repo.rows)) row.email row.id repo.by_email
      (All-map (IsHome repo.rows) (IsHome (insert row.id row repo.rows)) repo.by_email
        (λ entry. IsHome-insert row repo.rows entry new) h)
      (row, lookup-insert_self row.id row repo.rows, refl, refl)

-- With a right index, the user that is found by an email has that email.
pub find_by_email_sound :
    (email : String) (repo : UserRepository) {u : UserRecord}
    → IsIndexed repo
    → find_by_email email repo ≡ some u
    → u.email ≡ email
unfolding find_by_email
find_by_email_sound email repo h found = elim (Option-cases (lookup email repo.by_email)) [
  | inl missing ↦ ground arith
  | inr (id, at) ↦
      let (v, here, e, i) = All-lookup (IsHome repo.rows) email repo.by_email h at in ground arith
]

-- A new user is found by the new email and by the new id, and whoever is found by another email is
-- found as before.
pub find-create :
    (row : UserRecord) (email : String) (repo : UserRepository)
    → lookup row.id repo.rows ≡ none
    → IsIndexed repo
    → (find_by_id row.id (create row repo) ≡ some row)
      × (find_by_email email (create row repo)
          ≡ (if row.email == email then some row else find_by_email email repo))
unfolding find_by_email find_by_id create
find-create row email repo new h = (
  lookup-insert_self row.id row repo.rows,
  elim (Option-cases (lookup email repo.by_email)) [
    | inl missing ↦ ground (
      arith,
      lookup-insert row.email email row.id repo.by_email,
      lookup-insert_self row.id row repo.rows,
    )
    | inr (id, at) ↦
        let (v, here, e, i) = All-lookup (IsHome repo.rows) email repo.by_email h at in
        ground (
          arith,
          lookup-insert row.email email row.id repo.by_email,
          lookup-insert_self row.id row repo.rows,
          lookup-insert row.id id row repo.rows,
          eq_iff row.id id,
        )
  ],
)

-- With a right index, the user that is found by an email is found by the id that it bears.
pub find_by_email_home :
    (email : String) (repo : UserRepository) {u : UserRecord}
    → IsIndexed repo
    → find_by_email email repo ≡ some u
    → find_by_id u.id repo ≡ some u
unfolding find_by_email find_by_id
find_by_email_home email repo h found = elim (Option-cases (lookup email repo.by_email)) [
  | inl missing ↦ ground arith
  | inr (id, at) ↦
      let (v, here, e, i) = All-lookup (IsHome repo.rows) email repo.by_email h at in ground arith
]
