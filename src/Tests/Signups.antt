-- ===== src/Tests/Signups.antt =====
-- The waitlist on concrete signups.
use hdv_orchestrator.Common.{String, none, some, List, [], ◌∷◌, ◌≡◌, refl}
use hdv_orchestrator.Json.{Json, undefined, null, string}
use hdv_orchestrator.JsMap.{keys}
use hdv_orchestrator.Market.Waitlist.{
  WaitlistEntry, SignupInput, WaitlistStore, Attempt, new_store, run, add, add_found, entry_of,
  normalise_email, merge_enrichment,
}
use hdv_orchestrator.Market.Waitlist.Replay.{replay, run_replays}
use hdv_orchestrator.Market.Waitlist.Supporters.{IsKept, run_keeps_supporter}

abbrev signup_of : String → Json → SignupInput
signup_of email name = record {
  email = string email;
  name = name;
  company = undefined;
  interested_tier = string "pro";
  use_case = undefined;
  source = string "Demo";
  referral = null;
  ip = none;
  at = none;
}

abbrev attempts : List Attempt
attempts =
    record { now = 1; id = "wl_1"; input = signup_of " Ada@hdv.dev" undefined }
    ∷ record { now = 2; id = "wl_2"; input = signup_of "grace@hdv" undefined }
    ∷ record { now = 3; id = "wl_3"; input = signup_of "ada@HDV.dev" (string "Ada") }
    ∷ record { now = 4; id = "wl_4"; input = signup_of "kurt@hdv.dev" undefined }
    ∷ []

abbrev small : WaitlistStore
small = new_store (some 1)

-- One entry: the second email is no address, the third is the first one again, and then it is full.
emails_left : keys (run attempts small).entries ≡ "ada@hdv.dev" ∷ []
unfolding run add add_found entry_of normalise_email merge_enrichment new_store
emails_left = refl

run_replays_example :
    keys (run attempts small).entries ≡ replay small.max_entries attempts (keys small.entries)
run_replays_example = run_replays attempts small

abbrev ada : WaitlistEntry
ada = record {
  id = "wl_0";
  email = "ada@hdv.dev";
  name = none;
  company = some "HDV";
  interested_tier = none;
  use_case = none;
  source = "api";
  referral = none;
  at = 0;
  ip = none;
}

abbrev begun : WaitlistStore
begun = record { entries = ("ada@hdv.dev", ada) ∷ []; max_entries = 5 }

run_keeps_supporter_example : IsKept "ada@hdv.dev" ada (run attempts begun)
run_keeps_supporter_example = run_keeps_supporter attempts begun "ada@hdv.dev" ada refl
