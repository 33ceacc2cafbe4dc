-- ===== src/Tests/Stores.antt =====
-- The repositories on concrete rows.
use hdv_orchestrator.Common.{
  String, none, some, [], ◌∷◌, ◌≡◌, ◌≢◌, refl, arith, ◌==◌, string_eq, if◌then◌else◌,
}
use text.Mathlib.TextEquality.{eq_iff}
use hdv_orchestrator.Persistence.Records.{
  UserRecord, CreatorPersonaRecord, LikenessUsageEventRecord, chat_turn,
}
use hdv_orchestrator.Persistence.Users
use hdv_orchestrator.Persistence.Users.{UserRepository}
use hdv_orchestrator.Persistence.CreatorPersonas

abbrev ann : UserRecord
ann = record { id = "u1"; email = "ann@x.org"; password_hash = "s:h"; created_at = 1 }

abbrev bob : UserRecord
bob = record { id = "u2"; email = "bob@x.org"; password_hash = "s:h"; created_at = 2 }

abbrev users : UserRepository
users = record { rows = ("u1", ann) ∷ []; by_email = ("ann@x.org", "u1") ∷ [] }

find-create_example :
    (Users.find_by_id "u2" (Users.create bob users) ≡ some bob)
    × (Users.find_by_email "ann@x.org" (Users.create bob users)
        ≡ (if bob.email == "ann@x.org" then some bob else Users.find_by_email "ann@x.org" users))
find-create_example = Users.find-create bob "ann@x.org" users refl ((ann, refl, refl, refl), tt)

abbrev persona : String → CreatorPersonaRecord
persona p = record {
  id = "c1";
  creator_user_id = "u1";
  persona_id = p;
  display_name = "Ann";
  description = none;
  reference_photo_urls = [];
  scan_urls = [];
  created_at = 3;
}

renamed : ◌≢◌ {A = String} "p2" "p1"
renamed = ground (arith, eq_iff "p2" "p1")

find_by_persona_id_stale_example :
    CreatorPersonas.find_by_persona_id "p1" (
      CreatorPersonas.upsert
        (persona "p2")
        (CreatorPersonas.upsert (persona "p1") (record { rows = []; by_persona_id = [] })))
    ≡ some (persona "p2")
find_by_persona_id_stale_example =
    CreatorPersonas.find_by_persona_id_stale (persona "p1") (persona "p2")
      (record { rows = []; by_persona_id = [] }) refl renamed

abbrev event : LikenessUsageEventRecord
event = record {
  id = "e1";
  creator_user_id = "u1";
  persona_id = "p1";
  event_type = chat_turn;
  accrued_usd = 2000;
  created_at = 4;
}
