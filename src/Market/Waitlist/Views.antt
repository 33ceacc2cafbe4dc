-- ===== src/Market/Waitlist/Views.antt =====
-- hdv-foundation/market/store.ts: what the waitlist shows of its entries. A count by text is a map from
-- the text, in the order of the first entries.
use hdv_orchestrator.Common.{
  ℕ, suc, ◌+◌, ◌*◌, ◌-◌, String, Bool, true, false, Option, none, some, List, [], ◌∷◌, ◌++◌, map,
  length, ltb, leb, ◌==◌, string_eq, if◌then◌else◌, or_else,
}
use hdv_orchestrator.Json.{Json}
use hdv_orchestrator.JsMap.{Entries, lookup, insert, values, size}
use hdv_orchestrator.Market.Waitlist.{
  WaitlistEntry, PublicEntry, WaitlistStore, Checked, valid, invalid, normalise_email, to_public,
}

abbrev has_email : Checked String → WaitlistStore → Bool
has_email (invalid message) store = false
has_email (valid email) store = elim (lookup email store.entries) [ none ↦ false | some e ↦ true ]

unfoldable pub has : Json → WaitlistStore → Bool
unfolding normalise_email
has email store = has_email (normalise_email email) store

unfoldable pub all : WaitlistStore → List PublicEntry
all store = map to_public (values store.entries)

abbrev drop : {A : Type 0} → ℕ → List A → List A
drop ℕ.zero xs = xs
drop (suc n) [] = []
drop (suc n) (x ∷ xs) = drop n xs

abbrev reverse : {A : Type 0} → List A → List A
reverse [] = []
reverse (x ∷ xs) = reverse xs ++ x ∷ []

-- The last `n` entries, newest first; 0 stands for 10.
unfoldable pub recent : ℕ → WaitlistStore → List PublicEntry
recent n store =
    let limit = if ltb 0 n then n else 10 in
    let entries = values store.entries in
    map to_public (reverse (drop (length entries - limit) entries))

pub record WaitlistStats : Type 0 where
  pub total : ℕ
  pub by_source : Entries String ℕ
  pub by_tier : Entries String ℕ
  pub last24h : ℕ
  pub last7d : ℕ
  pub first_at : Option ℕ
  pub last_at : Option ℕ

abbrev bump : String → Entries String ℕ → Entries String ℕ
bump k m = insert k (or_else (lookup k m) 0 + 1) m

abbrev bump_tier : Option String → Entries String ℕ → Entries String ℕ
bump_tier none m = m
bump_tier (some tier) m = if tier == "" then m else bump tier m

abbrev earlier : Option ℕ → ℕ → Option ℕ
earlier none at = some at
earlier (some first) at = if ltb at first then some at else some first

abbrev later : Option ℕ → ℕ → Option ℕ
later none at = some at
later (some last) at = if ltb last at then some at else some last

abbrev day_ms : ℕ
day_ms = 24 * 60 * 60 * 1000

-- One round of the loop; `now - at <= span` where the difference may be negative.
unfoldable pub count_entry : ℕ → WaitlistEntry → WaitlistStats → WaitlistStats
count_entry now e s = record s {
  by_source = bump e.source s.by_source;
  by_tier = bump_tier e.interested_tier s.by_tier;
  last24h = if leb now (e.at + day_ms) then s.last24h + 1 else s.last24h;
  last7d = if leb now (e.at + 7 * day_ms) then s.last7d + 1 else s.last7d;
  first_at = earlier s.first_at e.at;
  last_at = later s.last_at e.at;
}

unfoldable pub count_each : ℕ → List WaitlistEntry → WaitlistStats → WaitlistStats
unfolding count_entry
count_each now [] s = s
count_each now (e ∷ es) s = count_each now es (count_entry now e s)

unfoldable pub stats : ℕ → WaitlistStore → WaitlistStats
unfolding count_each
stats now store = count_each now (values store.entries) (record {
  total = size store.entries;
  by_source = [];
  by_tier = [];
  last24h = 0;
  last7d = 0;
  first_at = none;
  last_at = none;
})
