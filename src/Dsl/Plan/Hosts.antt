-- ===== src/Dsl/Plan/Hosts.antt =====
-- `resolve_hosts`: where a host comes from, and the steps of a resolution.
use shellflow.Base.{
  ℕ, Bool, true, false, List, [], ◌∷◌, none, some, Text, is_empty, keep, ◌≡◌, ◌≢◌, ◌⊎◌, inl, inr,
  refl, sym, subst, All, arith, Bool-cases, Option-cases,
}
use shellflow.Base.Dict.{lookup}
use shellflow.Base.Result.{Result, ok, Result-cases}
use shellflow.Dsl.Error.{ParseError}
use shellflow.Dsl.SshSpec.{parse}
use shellflow.Dsl.Target.{Target, normalized}
use shellflow.Dsl.Plan.{
  ExecutionPlan, ResolvedHost, resolve_members, resolve_raw, resolve_all, allowed_aliases,
  is_alias_of, restrict_hosts, resolve_hosts,
}

-- A server of the plan under its alias, or a destination that stands for itself.
abbrev pub IsDeclared : ExecutionPlan → ResolvedHost → Type 0
IsDeclared plan host =
    (lookup host.alias plan.servers ≡ some host.spec)
    ⊎ ((lookup host.alias plan.servers ≡ none) × (parse host.alias ≡ ok host.spec))

ok_inj :
    (a b : List ResolvedHost)
    → ◌≡◌ {A = Result ParseError (List ResolvedHost)} (ok a) (ok b)
    → a ≡ b
ok_inj a b h = ground arith

resolve_members-IsDeclared :
    (plan : ExecutionPlan) (line : ℕ) (group : Text) (members : List Text)
    (hosts : List ResolvedHost)
    → resolve_members plan line group members ≡ ok hosts
    → All (IsDeclared plan) hosts
unfolding resolve_members
resolve_members-IsDeclared plan line group [] hosts h =
    subst (All (IsDeclared plan)) (ok_inj [] hosts h) tt
resolve_members-IsDeclared plan line group (member ∷ members) hosts h =
    elim (Option-cases (lookup member plan.servers)) [
      | inl e ↦ absurd (cc (rw (e, resolve_members) at h))
      | inr (spec, e) ↦ elim (Result-cases (resolve_members plan line group members)) [
        | inl (rest, e') ↦
            subst (All (IsDeclared plan)) (ok_inj _ hosts (rw (e, e', resolve_members) at h))
              (inl e, resolve_members-IsDeclared plan line group members rest e')
        | inr (x, e') ↦ absurd (cc (rw (e, e', resolve_members) at h))
      ]
    ]

resolve_raw-IsDeclared :
    (plan : ExecutionPlan) (line : ℕ) (name : Text) (hosts : List ResolvedHost)
    → lookup name plan.servers ≡ none
    → resolve_raw line name ≡ ok hosts
    → All (IsDeclared plan) hosts
unfolding resolve_raw
resolve_raw-IsDeclared plan line name hosts n h = elim (Result-cases (parse name)) [
  | inl (spec, e) ↦
      subst (All (IsDeclared plan)) (ok_inj _ hosts (rw (e, resolve_raw) at h)) (inr (n, e), tt)
  | inr (x, e) ↦ absurd (cc (rw (e, resolve_raw) at h))
]

resolve_all-IsDeclared :
    (plan : ExecutionPlan) (line : ℕ) (name : Text) (hosts : List ResolvedHost)
    → resolve_all plan line name ≡ ok hosts
    → All (IsDeclared plan) hosts
unfolding resolve_all
resolve_all-IsDeclared plan line name hosts h = elim (Option-cases (lookup name plan.groups)) [
  | inr (members, e) ↦
      resolve_members-IsDeclared plan line name members hosts (rw (e, resolve_all) at h)
  | inl e ↦ elim (Option-cases (lookup name plan.servers)) [
    | inr (spec, e') ↦
        subst (All (IsDeclared plan)) (ok_inj _ hosts (rw (e, e', resolve_all) at h)) (inl e', tt)
    | inl e' ↦ resolve_raw-IsDeclared plan line name hosts e' (rw (e, e', resolve_all) at h)
  ]
]

keep-All {ℓ κ} :
    {A : Type ℓ} (P : A → Type κ) (p : A → Bool) (xs : List A) → All P xs → All P (keep p xs)
keep-All P p [] h = h
keep-All P p (x ∷ xs) (h, hs) =
    elim (p x) as (λ b. All P (elim b [ true ↦ x ∷ keep p xs | false ↦ keep p xs ])) [
      | true ↦ (h, keep-All P p xs hs)
      | false ↦ keep-All P p xs hs
    ]

kept_result :
    (kept hosts : List ResolvedHost)
    → is_empty kept ≡ false
    → ◌≡◌ {A = Result ParseError (List ResolvedHost)} (ok kept) (ok hosts)
    → (hosts ≡ kept) × (hosts ≢ [])
kept_result kept hosts e h = ground arith

-- What the two steps of a successful resolution give.
pub resolve_steps :
    (plan : ExecutionPlan) (target : Target) (restrict : List Text) (hosts : List ResolvedHost)
    → resolve_hosts plan target restrict ≡ ok hosts
    → (every : List ResolvedHost) × (is_empty (normalized target.text) ≡ false)
      × (resolve_all plan target.line (normalized target.text) ≡ ok every)
      × (restrict_hosts plan target restrict every ≡ ok hosts)
unfolding resolve_hosts
resolve_steps plan target restrict hosts h = elim (Bool-cases (is_empty (normalized target.text))) [
  | inl e ↦ absurd (cc (rw (e, resolve_hosts) at h))
  | inr e ↦ elim (Result-cases (resolve_all plan target.line (normalized target.text))) [
    | inl (every, e') ↦ (every, e, e', (rw (e, e', resolve_hosts) at h))
    | inr (x, e') ↦ absurd (cc (rw (e, e', resolve_hosts) at h))
  ]
]

kept-IsDeclared :
    (plan : ExecutionPlan) (target : Target) (restrict : List Text)
    (every hosts : List ResolvedHost)
    → restrict_hosts plan target restrict every ≡ ok hosts
    → (hosts ≡ every) ⊎ (hosts ≡ keep (is_alias_of (allowed_aliases plan restrict)) every)
unfolding restrict_hosts
kept-IsDeclared plan target restrict every hosts h = ground arith

pub unrestricted :
    (plan : ExecutionPlan) (target : Target) (every : List ResolvedHost)
    → is_empty (normalized target.text) ≡ false
    → resolve_all plan target.line (normalized target.text) ≡ ok every
    → resolve_hosts plan target [] ≡ ok every
unfolding resolve_hosts restrict_hosts
unrestricted plan target every n e = rw (n, e) refl

pub restricted :
    (plan : ExecutionPlan) (target : Target) (item : Text) (restrict : List Text)
    (every hosts : List ResolvedHost)
    → restrict_hosts plan target (item ∷ restrict) every ≡ ok hosts
    → (hosts ≡ keep (is_alias_of (allowed_aliases plan (item ∷ restrict))) every) × (hosts ≢ [])
unfolding restrict_hosts
restricted plan target item restrict every hosts h =
    let kept = keep (is_alias_of (allowed_aliases plan (item ∷ restrict))) every in
    elim (Bool-cases (is_empty kept)) [
      | inl e ↦ absurd (cc (rw (e, restrict_hosts) at h))
      | inr e ↦ kept_result kept hosts e (rw (e, restrict_hosts) at h)
    ]

-- Every host that a target resolves to is a server of the plan with the destination that its alias
-- was declared with, or, where no server has the alias, the destination that the alias spells;
-- no other host is ever reached, restricted or not.
pub resolve_hosts-IsDeclared :
    (plan : ExecutionPlan) (target : Target) (restrict : List Text) (hosts : List ResolvedHost)
    → resolve_hosts plan target restrict ≡ ok hosts
    → All (IsDeclared plan) hosts
resolve_hosts-IsDeclared plan target restrict hosts h =
    let (every, _, e, k) = resolve_steps plan target restrict hosts h in
    let all_declared = resolve_all-IsDeclared plan target.line (normalized target.text) every e in
    elim (kept-IsDeclared plan target restrict every hosts k) [
      | inl e' ↦ subst (All (IsDeclared plan)) (sym e') all_declared
      | inr e' ↦
          subst (All (IsDeclared plan)) (sym e') (keep-All (IsDeclared plan) _ every all_declared)
    ]
