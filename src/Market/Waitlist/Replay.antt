-- ===== src/Market/Waitlist/Replay.antt =====
-- hdv-foundation/market/store.ts: the emails of the waitlist, as a list that only ever grows at its
-- end.
use hdv_orchestrator.Common.{
  ℕ, String, true, false, Option, none, some, List, [], ◌∷◌, ◌++◌, length, length-map, ltb, ◌==◌,
  nat_eq, string_eq, if◌then◌else◌, some_by, ◌≡◌, inl, inr, refl, ◌∙◌, sym, ap, arith, Bool-cases,
}
use mathlib.Core.List.{map-append}
use hdv_orchestrator.JsMap.{Entries, lookup, insert, keys, size}
use hdv_orchestrator.JsMap.Laws.{insert_new}
use hdv_orchestrator.Market.Waitlist.{
  WaitlistEntry, WaitlistStore, Checked, valid, invalid, Attempt, normalise_email, entry_of,
  merge_enrichment, after_merge, after_check, add_found, add_checked, add, run,
}

-- The email of an attempt all of whose fields are valid.
abbrev accepted_entry : String → Checked WaitlistEntry → Option String
accepted_entry email (valid e) = some email
accepted_entry email (invalid message) = none

abbrev accepted_email : Attempt → Checked String → Option String
accepted_email c (valid email) = accepted_entry email (entry_of c.id c.now email c.input)
accepted_email c (invalid message) = none

-- A new email goes to the end while there is room.
abbrev admit : ℕ → Option String → List String → List String
admit max none emails = emails
admit max (some email) emails =
    if some_by (λ j. j == email) emails
    then emails
    else if ltb (length emails) max
    then emails ++ email ∷ []
    else emails

abbrev pub replay : ℕ → List Attempt → List String → List String
replay max [] emails = emails
replay max (c ∷ cs) emails =
    replay max cs (admit max (accepted_email c (normalise_email c.input.email)) emails)

pub keys-insert_known :
    (k : String) (v w : WaitlistEntry) (m : Entries String WaitlistEntry)
    → lookup k m ≡ some w
    → keys (insert k v m) ≡ keys m
keys-insert_known k v w [] h = cc
keys-insert_known k v w ((i, u) ∷ m) h = elim (Bool-cases (i == k)) [
  | inl same ↦ rw same (ap (λ j. j ∷ keys m) (sym ((string_eq.same_iff i k).0 same)))
  | inr other ↦ rw other (ap (λ ks. i ∷ ks) (keys-insert_known k v w m (rw other at h)))
]

pub keys-insert_new :
    (k : String) (v : WaitlistEntry) (m : Entries String WaitlistEntry)
    → lookup k m ≡ none
    → keys (insert k v m) ≡ keys m ++ k ∷ []
keys-insert_new k v m h =
    ap keys (insert_new k v m h) ∙ map-append (λ (x : String × WaitlistEntry). x.0) m ((k, v) ∷ [])

known_key :
    (k : String) (w : WaitlistEntry) (m : Entries String WaitlistEntry)
    → lookup k m ≡ some w
    → some_by (λ j. j == k) (keys m) ≡ true
known_key k w [] h = cc
known_key k w ((i, u) ∷ m) h = ground (arith, known_key k w m)

unknown_key :
    (k : String) (m : Entries String WaitlistEntry)
    → lookup k m ≡ none
    → some_by (λ j. j == k) (keys m) ≡ false
unknown_key k [] h = refl
unknown_key k ((i, u) ∷ m) h = ground (arith, unknown_key k m)

after_merge-keys :
    (email : String) (w : WaitlistEntry) (outcome : Option String × WaitlistEntry)
    → (s : WaitlistStore) → lookup email s.entries ≡ some w
    → keys (after_merge email outcome s).1.entries ≡ keys s.entries
after_merge-keys email w (none, e) s h = keys-insert_known email e w s.entries h
after_merge-keys email w (some message, e) s h = keys-insert_known email e w s.entries h

admit_known :
    (max : ℕ) (email : String) (check : Checked WaitlistEntry) (emails : List String)
    → some_by (λ j. j == email) emails ≡ true
    → admit max (accepted_entry email check) emails ≡ emails
admit_known max email (valid e) emails h = rw h refl
admit_known max email (invalid message) emails h = refl

after_check-keys :
    (email : String) (check : Checked WaitlistEntry) (s : WaitlistStore)
    → lookup email s.entries ≡ none
    → ltb (size s.entries) s.max_entries ≡ true
    → keys (after_check email check s).1.entries
      ≡ admit s.max_entries (accepted_entry email check) (keys s.entries)
after_check-keys email (invalid message) s h room = refl
after_check-keys email (valid e) s h room =
    rw
      (
        unknown_key email s.entries h,
        length-map s.entries (λ (x : String × WaitlistEntry). x.0),
        room,
      )
      (keys-insert_new email e s.entries h)

admit_full :
    (max : ℕ) (email : String) (check : Checked WaitlistEntry) (emails : List String)
    → ltb (length emails) max ≡ false
    → some_by (λ j. j == email) emails ≡ false
    → admit max (accepted_entry email check) emails ≡ emails
admit_full max email (valid e) emails h new = rw (new, h) refl
admit_full max email (invalid message) emails h new = refl

add_found-keys :
    (c : Attempt) (email : String) (found : Option WaitlistEntry) (s : WaitlistStore)
    → lookup email s.entries ≡ found
    → keys (add_found c.now c.id c.input email found s).1.entries
      ≡ admit s.max_entries
          (accepted_entry email (entry_of c.id c.now email c.input))
          (keys s.entries)
unfolding add_found
add_found-keys c email (some w) s h =
    after_merge-keys email w (merge_enrichment c.input w) s h
    ∙ sym (
        admit_known s.max_entries email (entry_of c.id c.now email c.input) (keys s.entries)
          (known_key email w s.entries h))
add_found-keys c email none s h = elim (Bool-cases (ltb (size s.entries) s.max_entries)) [
  | inl room ↦ rw room (after_check-keys email (entry_of c.id c.now email c.input) s h room)
  | inr no_room ↦ rw no_room (
      sym (
        admit_full s.max_entries email (entry_of c.id c.now email c.input) (keys s.entries)
          (rw (length-map s.entries (λ (x : String × WaitlistEntry). x.0)) no_room)
          (unknown_key email s.entries h)))
]

add_checked-keys :
    (c : Attempt) (email : Checked String) (s : WaitlistStore)
    → keys (add_checked c.now c.id c.input email s).1.entries
      ≡ admit s.max_entries (accepted_email c email) (keys s.entries)
add_checked-keys c (invalid message) s = refl
add_checked-keys c (valid email) s = add_found-keys c email (lookup email s.entries) s refl

after_merge-max :
    (email : String) (outcome : Option String × WaitlistEntry) (s : WaitlistStore)
    → (after_merge email outcome s).1.max_entries ≡ s.max_entries
after_merge-max email (none, e) s = refl
after_merge-max email (some message, e) s = refl

after_check-max :
    (email : String) (check : Checked WaitlistEntry) (s : WaitlistStore)
    → (after_check email check s).1.max_entries ≡ s.max_entries
after_check-max email (invalid message) s = refl
after_check-max email (valid e) s = refl

add_found-max :
    (c : Attempt) (email : String) (found : Option WaitlistEntry) (s : WaitlistStore)
    → (add_found c.now c.id c.input email found s).1.max_entries ≡ s.max_entries
unfolding add_found
add_found-max c email (some w) s = after_merge-max email (merge_enrichment c.input w) s
add_found-max c email none s = elim (Bool-cases (ltb (size s.entries) s.max_entries)) [
  | inl room ↦ rw room (after_check-max email (entry_of c.id c.now email c.input) s)
  | inr no_room ↦ rw no_room refl
]

add_checked-max :
    (c : Attempt) (email : Checked String) (s : WaitlistStore)
    → (add_checked c.now c.id c.input email s).1.max_entries ≡ s.max_entries
add_checked-max c (invalid message) s = refl
add_checked-max c (valid email) s = add_found-max c email (lookup email s.entries) s

-- The emails of the waitlist, after any attempts to sign up, are those of an abstract list on which
-- an attempt puts its email at the end if all of its fields are valid, the email is new and there is
-- room, and which it leaves alone otherwise.
pub run_replays :
    (cs : List Attempt) (s : WaitlistStore)
    → keys (run cs s).entries ≡ replay s.max_entries cs (keys s.entries)
unfolding run add
run_replays [] s = refl
run_replays (c ∷ cs) s =
    let email = normalise_email c.input.email in
    let next = (add c.now c.id c.input s).1 in
    run_replays cs next
    ∙ ap (λ n. replay n cs (keys next.entries)) (add_checked-max c email s)
    ∙ ap (replay s.max_entries cs) (add_checked-keys c email s)
