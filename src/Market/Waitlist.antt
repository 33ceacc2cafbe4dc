-- ===== src/Market/Waitlist.antt =====
-- hdv-foundation/market/store.ts, `WaitlistStore`. Values of a signup are of unknown type; clocks and
-- ids are arguments; a throw is a case of the result. `toUpperCase` and `toLowerCase` are modelled on
-- the letters of ASCII.
pub mod Supporters
pub mod Replay
pub mod Views
use Prim.Native.Char.{code}
use Prim.Native.String.{◌++◌ as text_append}
use hdv_orchestrator.Common.{
  ℕ, suc, ◌+◌, ◌*◌, ◌-◌, String, Bool, true, false, ◌&&◌, ◌||◌, Option, none, some, List, [], ◌∷◌,
  ◌++◌, map, length, ltb, leb, ◌==◌, nat_eq, string_eq, if◌then◌else◌, or_else, some_by, get_elem?,
}
use hdv_orchestrator.Json.{Json, undefined, null, string}
use hdv_orchestrator.JsMap.{Entries, lookup, insert, keys, values, size}
use hdv_orchestrator.Text.{codes, code_units, is_space}
use hdv_orchestrator.Text.Decimal.{template}
use hdv_orchestrator.Text.Trim.{trim, to_lower_case}
use hdv_orchestrator.Text.Rx.{Rx, chr, many, seq, stop, exactly, test_start}

pub record WaitlistEntry : Type 0 where
  pub id : String
  pub email : String
  pub name : Option String
  pub company : Option String
  pub interested_tier : Option String
  pub use_case : Option String
  pub source : String
  pub referral : Option String
  pub at : ℕ
  pub ip : Option String

pub record SignupInput : Type 0 where
  pub email : Json
  pub name : Json
  pub company : Json
  pub interested_tier : Json
  pub use_case : Json
  pub source : Json
  pub referral : Json
  pub ip : Option String
  pub at : Option ℕ

-- An entry without the address that it came from.
pub record PublicEntry : Type 0 where
  pub id : String
  pub email : String
  pub name : Option String
  pub company : Option String
  pub interested_tier : Option String
  pub use_case : Option String
  pub source : String
  pub referral : Option String
  pub at : ℕ

pub record SignupResult : Type 0 where
  pub created : Bool
  pub duplicate : Bool
  pub entry : PublicEntry
  pub position : ℕ

-- What a check answers; `invalid` is a `WaitlistValidationError`.
pub data Checked {ℓ} (A : Type ℓ) : Type ℓ where
  valid : (value : A) → Checked A
  invalid : (message : String) → Checked A

-- What a signup answers: its result, a `WaitlistValidationError`, or the error that the list is full.
pub data Signup : Type 0 where
  signed : (result : SignupResult) → Signup
  rejected : (message : String) → Signup
  full : Signup

pub record WaitlistStore : Type 0 where
  pub entries : Entries String WaitlistEntry
  pub max_entries : ℕ

abbrev pub default_max_entries : ℕ
default_max_entries = 100000

-- The constructor: a cap of 0 stands for the default one.
unfoldable pub new_store : Option ℕ → WaitlistStore
new_store max =
    let cap = or_else max 0 in
    record { entries = []; max_entries = if ltb 0 cap then cap else default_max_entries }

-- /^[^\s@]+@[^\s@]+\.[^\s@]+$/
email_pattern : Rx
email_pattern =
    let plain : ℕ → Bool = λ c. if is_space c || c == b'@' then false else true in
    seq (chr plain) (
      seq (many plain) (
        seq (exactly b'@') (
          seq (chr plain)
            (seq (many plain) (seq (exactly b'.') (seq (chr plain) (seq (many plain) stop)))))))

abbrev and_check {ℓ κ} : {A : Type ℓ} {B : Type κ} → Checked A → (A → Checked B) → Checked B
and_check (valid a) k = k a
and_check (invalid message) k = invalid message

unfoldable pub normalise_email : Json → Checked String
unfolding email_pattern is_space trim to_lower_case test_start
normalise_email (string raw) =
    let email = to_lower_case (trim raw) in
    let size = code_units (codes email) in
    if size == 0
    then invalid "email is required"
    else if ltb 254 size
    then invalid "email is too long"
    else if test_start email_pattern (codes email)
    then valid email
    else invalid "email is not a valid address"
normalise_email raw = invalid "email is required and must be a string"

unfoldable pub optional_text : Json → String → Checked (Option String)
unfolding trim
optional_text undefined f = valid none
optional_text null f = valid none
optional_text (string raw) f =
    let value = trim raw in
    let size = code_units (codes value) in
    if size == 0
    then valid none
    else if ltb 500 size
    then invalid (template (f ∷ " is too long (max 500)" ∷ []))
    else valid (some value)
optional_text raw f = invalid (template (f ∷ " must be a string" ∷ []))

upper_letters : List String
upper_letters =
    "A" ∷ "B" ∷ "C" ∷ "D" ∷ "E" ∷ "F" ∷ "G" ∷ "H" ∷ "I" ∷ "J" ∷ "K" ∷ "L" ∷ "M" ∷ "N" ∷ "O" ∷ "P"
    ∷ "Q" ∷ "R" ∷ "S" ∷ "T" ∷ "U" ∷ "V" ∷ "W" ∷ "X" ∷ "Y" ∷ "Z" ∷ []

unfoldable pub to_upper_case : String → String
unfolding upper_letters
to_upper_case String.[] = ""
to_upper_case (String.◌∷◌ c s) =
    let rest = to_upper_case s in
    if leb b'a' (code c) && leb (code c) b'z'
    then text_append (or_else (get_elem? upper_letters (code c - b'a')) "") rest
    else String.◌∷◌ c rest

abbrev raise_tier : Option String → Option String
raise_tier none = none
raise_tier (some value) = some (to_upper_case value)

unfoldable pub optional_tier : Json → Checked (Option String)
unfolding optional_text to_upper_case
optional_tier raw =
    and_check (optional_text raw "interestedTier") (λ value. valid (raise_tier value))

abbrev pub waitlist_sources : List String
waitlist_sources = "marketing" ∷ "waitlist-page" ∷ "api" ∷ "referral" ∷ "demo" ∷ "other" ∷ []

unfoldable pub normalise_source : Json → String
unfolding trim to_lower_case
normalise_source (string raw) =
    let value = to_lower_case (trim raw) in
    if some_by (λ s. s == value) waitlist_sources then value else "other"
normalise_source raw = "api"

abbrev pub to_public : WaitlistEntry → PublicEntry
to_public e = record {
  id = e.id;
  email = e.email;
  name = e.name;
  company = e.company;
  interested_tier = e.interested_tier;
  use_case = e.use_case;
  source = e.source;
  referral = e.referral;
  at = e.at;
}

abbrev given_ip : Option String → Option String
given_ip none = none
given_ip (some ip) = if ip == "" then none else some ip

-- The new entry, whose checks run in this order.
unfoldable pub entry_of : String → ℕ → String → SignupInput → Checked WaitlistEntry
unfolding optional_text optional_tier normalise_source
entry_of id now email input = and_check (optional_text input.name "name") (λ name.
    and_check (optional_text input.company "company") (λ company.
      and_check (optional_tier input.interested_tier) (λ tier.
        and_check (optional_text input.use_case "useCase") (λ use_case.
          and_check (optional_text input.referral "referral") (λ referral. valid (record {
            id = id;
            email = email;
            name = name;
            company = company;
            interested_tier = tier;
            use_case = use_case;
            source = normalise_source input.source;
            referral = referral;
            at = or_else input.at now;
            ip = given_ip input.ip;
          }))))))

-- `current ??= check`, whose right side is only evaluated where there is no current value.
abbrev pub fill : Option String → Checked (Option String) → Checked (Option String)
fill (some v) check = valid (some v)
fill none check = check

-- The field is set and the rest goes on, or the error is thrown with the entry as it is now.
abbrev pub then_set :
    Checked (Option String)
    → WaitlistEntry
    → (Option String → WaitlistEntry)
    → (WaitlistEntry → Option String × WaitlistEntry)
    → Option String × WaitlistEntry
then_set (invalid message) e put next = (some message, e)
then_set (valid v) e put next = next (put v)

-- `mergeEnrichment`, from its last line to its first.
unfoldable pub merge_referral : SignupInput → WaitlistEntry → Option String × WaitlistEntry
unfolding optional_text
merge_referral input e =
    then_set (fill e.referral (optional_text input.referral "referral")) e
      (λ v. record e { referral = v }) (λ x. (none, x))

unfoldable pub merge_use_case : SignupInput → WaitlistEntry → Option String × WaitlistEntry
unfolding optional_text merge_referral
merge_use_case input e =
    then_set (fill e.use_case (optional_text input.use_case "useCase")) e
      (λ v. record e { use_case = v }) (merge_referral input)

unfoldable pub merge_tier : SignupInput → WaitlistEntry → Option String × WaitlistEntry
unfolding optional_tier merge_use_case
merge_tier input e =
    then_set (fill e.interested_tier (optional_tier input.interested_tier)) e
      (λ v. record e { interested_tier = v }) (merge_use_case input)

unfoldable pub merge_company : SignupInput → WaitlistEntry → Option String × WaitlistEntry
unfolding optional_text merge_tier
merge_company input e =
    then_set (fill e.company (optional_text input.company "company")) e
      (λ v. record e { company = v }) (merge_tier input)

unfoldable pub merge_enrichment : SignupInput → WaitlistEntry → Option String × WaitlistEntry
unfolding optional_text merge_company
merge_enrichment input e =
    then_set (fill e.name (optional_text input.name "name")) e (λ v. record e { name = v })
      (merge_company input)

-- 1-based, and 0 where the email is absent.
unfoldable pub position_in : ℕ → String → List String → ℕ
position_in i email [] = 0
position_in i email (key ∷ ks) =
    let rest = position_in (suc i) email ks in if key == email then suc i else rest

unfoldable pub position_of : String → WaitlistStore → ℕ
unfolding position_in
position_of email store = position_in 0 email (keys store.entries)

abbrev pub after_merge :
    String → Option String × WaitlistEntry → WaitlistStore → Signup × WaitlistStore
after_merge email (none, e) store =
    let merged = record store { entries = insert email e store.entries } in
    (
      signed (record {
        created = false;
        duplicate = true;
        entry = to_public e;
        position = position_of email merged;
      }),
      merged,
    )
after_merge email (some message, e) store =
    (rejected message, record store { entries = insert email e store.entries })

abbrev pub after_check : String → Checked WaitlistEntry → WaitlistStore → Signup × WaitlistStore
after_check email (invalid message) store = (rejected message, store)
after_check email (valid e) store =
    let grown = record store { entries = insert email e store.entries } in
    (
      signed (record {
        created = true;
        duplicate = false;
        entry = to_public e;
        position = size grown.entries;
      }),
      grown,
    )

-- Past the check of the email, by the entry that it finds.
unfoldable pub add_found :
    ℕ
    → String
    → SignupInput
    → String
    → Option WaitlistEntry
    → WaitlistStore
    → Signup × WaitlistStore
unfolding merge_enrichment entry_of position_of
add_found now id input email (some existing) store =
    after_merge email (merge_enrichment input existing) store
add_found now id input email none store =
    if ltb (size store.entries) store.max_entries
    then after_check email (entry_of id now email input) store
    else (full, store)

abbrev pub add_checked :
    ℕ → String → SignupInput → Checked String → WaitlistStore → Signup × WaitlistStore
add_checked now id input (invalid message) store = (rejected message, store)
add_checked now id input (valid email) store =
    add_found now id input email (lookup email store.entries) store

-- `add`, with the time and the id of the call.
unfoldable pub add : ℕ → String → SignupInput → WaitlistStore → Signup × WaitlistStore
unfolding add_found normalise_email
add now id input store = add_checked now id input (normalise_email input.email) store

pub record Attempt : Type 0 where
  pub now : ℕ
  pub id : String
  pub input : SignupInput

unfoldable pub run : List Attempt → WaitlistStore → WaitlistStore
unfolding add
run [] store = store
run (c ∷ cs) store = run cs (add c.now c.id c.input store).1
