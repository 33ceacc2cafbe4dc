-- ===== src/Market/Handlers.antt =====
-- hdv-foundation/market/handlers.ts: the requests of the waitlist. The fixed texts of a success are
-- left out of its body.
use hdv_orchestrator.Common.{ℕ, String, Bool, false, Option, none, some, if◌then◌else◌}
use hdv_orchestrator.Json.{Json, undefined, null, string, prop, is_object_type}
use hdv_orchestrator.Market.Waitlist.{
  SignupInput, SignupResult, Signup, signed, rejected, full, WaitlistStore, add,
}
use hdv_orchestrator.Market.Waitlist.Views.{WaitlistStats, stats}

pub data Body : Type 0 where
  signup : (result : SignupResult) → Body
  error : (message code : String) → Body
  counts : (stats : WaitlistStats) → Body

pub record MarketResponse : Type 0 where
  pub status : ℕ
  pub body : Body

pub record SignupContext : Type 0 where
  pub ip : Option String
  pub default_source : Option String

-- `a ?? b`
abbrev coalesce : Json → Json → Json
coalesce undefined b = b
coalesce null b = b
coalesce a b = a

abbrev from_option : Option String → Json
from_option none = undefined
from_option (some s) = string s

abbrev is_body : Json → Bool
is_body null = false
is_body v = is_object_type v

abbrev pub input_of : Json → SignupContext → SignupInput
input_of b context = record {
  email = prop "email" b;
  name = prop "name" b;
  company = prop "company" b;
  interested_tier = coalesce (prop "interestedTier" b) (prop "tier" b);
  use_case = coalesce (prop "useCase" b) (prop "use_case" b);
  source = coalesce (prop "source" b) (from_option context.default_source);
  referral = coalesce (prop "referral" b) (prop "ref" b);
  ip = context.ip;
  at = none;
}

unfoldable pub respond : Signup → MarketResponse
respond (signed result) = record {
  status = if result.created then 201 else 200;
  body = signup result;
}
respond (rejected message) = record { status = 400; body = error message "invalid_signup" }
respond full = record { status = 503; body = error "waitlist is full" "waitlist_unavailable" }

unfoldable pub handle_waitlist_signup :
    ℕ → String → Json → SignupContext → WaitlistStore → MarketResponse × WaitlistStore
unfolding respond add
handle_waitlist_signup now id body context store =
    if is_body body
    then (let (outcome, after) = add now id (input_of body context) store in
        (respond outcome, after))
    else (
      record {
        status = 400;
        body = error "body must be JSON with at least an \"email\" field" "invalid_signup";
      },
      store,
    )

unfoldable pub handle_waitlist_stats : ℕ → WaitlistStore → MarketResponse
unfolding stats
handle_waitlist_stats now store = record { status = 200; body = counts (stats now store) }
