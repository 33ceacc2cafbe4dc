-- ===== src/Market/Waitlist/Supporters.antt =====
-- hdv-foundation/market/store.ts: that a supporter who has signed up is neither lost nor changed, only
-- enriched.
use mathlib.Core.Path.{subst}
use hdv_orchestrator.Common.{
  String, Option, none, some, List, [], ◌∷◌, ltb, ◌==◌, string_eq, ◌≡◌, refl, ◌∙◌, sym, ap,
  Bool-cases, inl, inr,
}
use hdv_orchestrator.JsMap.{lookup, insert, size}
use hdv_orchestrator.JsMap.Laws.{lookup-insert}
use hdv_orchestrator.Market.Waitlist.{
  WaitlistEntry, SignupInput, WaitlistStore, Checked, valid, invalid, Attempt, normalise_email,
  entry_of, fill, then_set, merge_enrichment, merge_company, merge_tier, merge_use_case,
  merge_referral, after_merge, after_check, add_found, add_checked, add, run, optional_text,
  optional_tier,
}

-- An answer that was given stays.
abbrev Stays : Option String → Option String → Type 0
Stays a b = (v : String) → a ≡ some v → b ≡ some v

-- The same supporter, with every answer that was given.
abbrev pub Enriches : WaitlistEntry → WaitlistEntry → Type 0
Enriches e f =
    (f.id ≡ e.id)
    × (f.email ≡ e.email)
    × (f.source ≡ e.source)
    × (f.at ≡ e.at)
    × (f.ip ≡ e.ip)
    × Stays e.name f.name
    × Stays e.company f.company
    × Stays e.interested_tier f.interested_tier
    × Stays e.use_case f.use_case
    × Stays e.referral f.referral

enrich_refl : (e : WaitlistEntry) → Enriches e e
enrich_refl e = (refl, refl, refl, refl, refl, λ v h. h, λ v h. h, λ v h. h, λ v h. h, λ v h. h)

enrich_trans : (e f g : WaitlistEntry) → Enriches e f → Enriches f g → Enriches e g
enrich_trans e f g (a1, a2, a3, a4, a5, a6, a7, a8, a9, a10)
      (b1, b2, b3, b4, b5, b6, b7, b8, b9, b10) =
    (
      b1 ∙ a1,
      b2 ∙ a2,
      b3 ∙ a3,
      b4 ∙ a4,
      b5 ∙ a5,
      λ v h. b6 v (a6 v h),
      λ v h. b7 v (a7 v h),
      λ v h. b8 v (a8 v h),
      λ v h. b9 v (a9 v h),
      λ v h. b10 v (a10 v h),
    )

set-Enriches :
    (x : WaitlistEntry) (current : Option String) (check : Checked (Option String))
    → (put : Option String → WaitlistEntry) → (next : WaitlistEntry → Option String × WaitlistEntry)
    → ((v : Option String) → Stays current v → Enriches x (put v))
    → ((y : WaitlistEntry) → Enriches y (next y).1)
    → Enriches x (then_set (fill current check) x put next).1
set-Enriches x none (invalid message) put next set later = enrich_refl x
set-Enriches x none (valid v) put next set later =
    enrich_trans x (put v) (next (put v)).1 (set v (λ w given. cc)) (later (put v))
set-Enriches x (some given) check put next set later =
    enrich_trans x (put (some given)) (next (put (some given))).1 (set (some given) (λ w h. h))
      (later (put (some given)))

merge_referral-Enriches :
    (input : SignupInput) (e : WaitlistEntry) → Enriches e (merge_referral input e).1
unfolding merge_referral
merge_referral-Enriches input e =
    set-Enriches e e.referral (optional_text input.referral "referral")
      (λ v. record e { referral = v }) (λ x. (none, x))
      (λ v stays. (refl, refl, refl, refl, refl, λ w g. g, λ w g. g, λ w g. g, λ w g. g, stays))
      (λ y. enrich_refl y)

merge_use_case-Enriches :
    (input : SignupInput) (e : WaitlistEntry) → Enriches e (merge_use_case input e).1
unfolding merge_use_case
merge_use_case-Enriches input e =
    set-Enriches e e.use_case (optional_text input.use_case "useCase")
      (λ v. record e { use_case = v }) (merge_referral input)
      (λ v stays. (refl, refl, refl, refl, refl, λ w g. g, λ w g. g, λ w g. g, stays, λ w g. g))
      (merge_referral-Enriches input)

merge_tier-Enriches : (input : SignupInput) (e : WaitlistEntry) → Enriches e (merge_tier input e).1
unfolding merge_tier
merge_tier-Enriches input e =
    set-Enriches e e.interested_tier (optional_tier input.interested_tier)
      (λ v. record e { interested_tier = v }) (merge_use_case input)
      (λ v stays. (refl, refl, refl, refl, refl, λ w g. g, λ w g. g, stays, λ w g. g, λ w g. g))
      (merge_use_case-Enriches input)

merge_company-Enriches :
    (input : SignupInput) (e : WaitlistEntry) → Enriches e (merge_company input e).1
unfolding merge_company
merge_company-Enriches input e =
    set-Enriches e e.company (optional_text input.company "company") (λ v. record e { company = v })
      (merge_tier input)
      (λ v stays. (refl, refl, refl, refl, refl, λ w g. g, stays, λ w g. g, λ w g. g, λ w g. g))
      (merge_tier-Enriches input)

merge_enrichment-Enriches :
    (input : SignupInput) (e : WaitlistEntry) → Enriches e (merge_enrichment input e).1
unfolding merge_enrichment
merge_enrichment-Enriches input e =
    set-Enriches e e.name (optional_text input.name "name") (λ v. record e { name = v })
      (merge_company input)
      (λ v stays. (refl, refl, refl, refl, refl, stays, λ w g. g, λ w g. g, λ w g. g, λ w g. g))
      (merge_company-Enriches input)

none_not : {e : WaitlistEntry} → ¬ (none ≡ some e)
none_not h = cc

-- The supporter of an email is still there, and enriched.
abbrev pub IsKept : String → WaitlistEntry → WaitlistStore → Type 0
IsKept email e s = (f : WaitlistEntry) × (lookup email s.entries ≡ some f) × Enriches e f

insert-IsKept :
    (target email : String) (x e : WaitlistEntry) (s : WaitlistStore)
    → lookup email s.entries ≡ some e
    → (target ≡ email → Enriches e x)
    → (f : WaitlistEntry) × (lookup email (insert target x s.entries) ≡ some f) × Enriches e f
insert-IsKept target email x e s at better = elim (Bool-cases (target == email)) [
  | inl same ↦ (
    x,
    rw (lookup-insert target email x s.entries, same) refl,
    better ((string_eq.same_iff target email).0 same),
  )
  | inr other ↦ (e, rw (lookup-insert target email x s.entries, other) at, enrich_refl e)
]

after_merge-IsKept :
    (target email : String) (outcome : Option String × WaitlistEntry) (e : WaitlistEntry)
    → (s : WaitlistStore) → lookup email s.entries ≡ some e
    → (target ≡ email → Enriches e outcome.1)
    → IsKept email e (after_merge target outcome s).1
after_merge-IsKept target email (none, x) e s at better = insert-IsKept target email x e s at better
after_merge-IsKept target email (some message, x) e s at better =
    insert-IsKept target email x e s at better

after_check-IsKept :
    (target email : String) (check : Checked WaitlistEntry) (e : WaitlistEntry) (s : WaitlistStore)
    → lookup email s.entries ≡ some e
    → lookup target s.entries ≡ none
    → IsKept email e (after_check target check s).1
after_check-IsKept target email (invalid message) e s at new = (e, at, enrich_refl e)
after_check-IsKept target email (valid x) e s at new =
    insert-IsKept target email x e s at
      (λ same. absurd (none_not (sym new ∙ ap (λ k. lookup k s.entries) same ∙ at)))

same_entry : {w e : WaitlistEntry} → some w ≡ some e → w ≡ e
same_entry h = cc

add_found-IsKept :
    (c : Attempt) (target email : String) (found : Option WaitlistEntry) (e : WaitlistEntry)
    → (s : WaitlistStore) → lookup email s.entries ≡ some e
    → lookup target s.entries ≡ found
    → IsKept email e (add_found c.now c.id c.input target found s).1
unfolding add_found
add_found-IsKept c target email (some w) e s at here =
    after_merge-IsKept target email (merge_enrichment c.input w) e s at (λ same.
      let w_is_e : w ≡ e = same_entry (sym here ∙ ap (λ k. lookup k s.entries) same ∙ at) in
      subst (λ x. Enriches x (merge_enrichment c.input w).1) w_is_e
        (merge_enrichment-Enriches c.input w))
add_found-IsKept c target email none e s at here =
    elim (Bool-cases (ltb (size s.entries) s.max_entries)) [
      | inl room ↦
          rw room (after_check-IsKept target email (entry_of c.id c.now target c.input) e s at here)
      | inr no_room ↦ rw no_room (e, at, enrich_refl e)
    ]

add_checked-IsKept :
    (c : Attempt) (target : Checked String) (email : String) (e : WaitlistEntry) (s : WaitlistStore)
    → lookup email s.entries ≡ some e
    → IsKept email e (add_checked c.now c.id c.input target s).1
add_checked-IsKept c (invalid message) email e s at = (e, at, enrich_refl e)
add_checked-IsKept c (valid target) email e s at =
    add_found-IsKept c target email (lookup target s.entries) e s at refl

-- Whatever is signed up afterwards, by whom and with whatever fields, valid or not: a supporter who is
-- on the list stays on it, with the same id, time, source and address and with every answer that was
-- given.
pub run_keeps_supporter :
    (cs : List Attempt) (s : WaitlistStore) (email : String) (e : WaitlistEntry)
    → lookup email s.entries ≡ some e
    → IsKept email e (run cs s)
unfolding run add
run_keeps_supporter [] s email e at = (e, at, enrich_refl e)
run_keeps_supporter (c ∷ cs) s email e at =
    let (f, here, better) = add_checked-IsKept c (normalise_email c.input.email) email e s at in
    let (g, later, best) = run_keeps_supporter cs (add c.now c.id c.input s).1 email f here in
    (g, later, enrich_trans e f g better best)
