-- ===== src/Persistence/CreatorPersonas.antt =====
-- hdv-foundation/persistence/repositories.ts, `InMemoryCreatorPersonaRepository`: the personas by id, and an
-- index from persona ids to ids.
use hdv_orchestrator.Common.{
  [], String, Option, none, some, List, string_eq, ◌==◌, ◌≡◌, ◌≢◌, arith, filter_by,
}
use text.Mathlib.TextEquality.{eq_iff}
use hdv_orchestrator.JsMap.{Entries, lookup, insert, values}
use hdv_orchestrator.JsMap.Laws.{lookup-insert, lookup-insert_self}
use hdv_orchestrator.Persistence.Records.{CreatorPersonaRecord}

pub record CreatorPersonaRepository : Type 0 where
  pub rows : Entries String CreatorPersonaRecord
  pub by_persona_id : Entries String String

unfoldable pub upsert : CreatorPersonaRecord → CreatorPersonaRepository → CreatorPersonaRepository
upsert row repo = record {
  rows = insert row.id row repo.rows;
  by_persona_id = insert row.persona_id row.id repo.by_persona_id;
}

unfoldable pub find_by_persona_id : String → CreatorPersonaRepository → Option CreatorPersonaRecord
find_by_persona_id persona_id repo = elim (lookup persona_id repo.by_persona_id) [
  | none ↦ none
  | some id ↦ lookup id repo.rows
]

unfoldable pub find_by_creator : String → CreatorPersonaRepository → List CreatorPersonaRecord
find_by_creator creator repo = filter_by (λ r. r.creator_user_id == creator) (values repo.rows)

-- A persona that is stored again under its id with another persona id stays reachable by its old
-- persona id, where the record that is found bears the new one.
pub find_by_persona_id_stale :
    (old new : CreatorPersonaRecord) (repo : CreatorPersonaRepository)
    → new.id ≡ old.id
    → new.persona_id ≢ old.persona_id
    → find_by_persona_id old.persona_id (upsert new (upsert old repo)) ≡ some new
unfolding find_by_persona_id upsert
find_by_persona_id_stale old new repo same other = ground (
  arith,
  eq_iff new.persona_id old.persona_id,
  lookup-insert new.persona_id old.persona_id new.id
      (insert old.persona_id old.id repo.by_persona_id),
  lookup-insert_self old.persona_id old.id repo.by_persona_id,
  eq_iff new.id old.id,
  lookup-insert new.id old.id new (insert old.id old repo.rows),
)

unfoldable pub clear : CreatorPersonaRepository → CreatorPersonaRepository
clear repo = record { rows = []; by_persona_id = [] }
