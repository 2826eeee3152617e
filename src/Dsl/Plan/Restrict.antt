-- ===== src/Dsl/Plan/Restrict.antt =====
-- `--target`: which hosts a restriction leaves of a target.
use mathlib.Core.List.{Memᴰ}
use mathlib.Core.List.Memᴰ
use shellflow.Base.{
  Bool, true, List, [], ◌∷◌, none, some, Text, any, keep, ◌≡◌, ◌≢◌, ◌↔◌, inl, inr, refl, sym, arith,
  Bool-cases, Option-cases,
}
use shellflow.Base.Text.{eq_text, eq_text_iff}
use shellflow.Base.Dict.{lookup}
use shellflow.Base.Result.{ok}
use shellflow.Dsl.Target.{Target, normalized}
use shellflow.Dsl.Plan.{ExecutionPlan, ResolvedHost, allowed_aliases, is_alias_of, resolve_hosts}
use shellflow.Dsl.Plan.Hosts.{resolve_steps, restricted, unrestricted}

-- An item of a restriction allows an alias: it names, with or without `@`, a group that has the alias
-- as a member, or it is the alias itself and no group has that name.
pub data IsAllowed (plan : ExecutionPlan) : List Text → Text → Type 0 where
  as_member :
      {restrict : List Text} {item alias : Text} (members : List Text)
      → lookup (normalized item) plan.groups ≡ some members
      → Memᴰ alias members
      → IsAllowed plan (item ∷ restrict) alias
  as_named :
      {restrict : List Text} {item alias : Text}
      → lookup (normalized item) plan.groups ≡ none
      → alias ≡ normalized item
      → IsAllowed plan (item ∷ restrict) alias
  by_later :
      {restrict : List Text} {item alias : Text}
      → IsAllowed plan restrict alias
      → IsAllowed plan (item ∷ restrict) alias

Memᴰ-any :
    (text : Text) (names : List Text)
    → any (λ name. eq_text name text) names ≡ true
    → Memᴰ text names
Memᴰ-any text [] h = absurd (cc h)
Memᴰ-any text (name ∷ names) h = elim (Bool-cases (eq_text name text)) [
  | inl e ↦ Memᴰ.head (sym ((eq_text_iff name text).0 e))
  | inr e ↦ Memᴰ.tail (Memᴰ-any text names (ground (arith, e)))
]

any-Memᴰ :
    (text : Text) (names : List Text)
    → Memᴰ text names
    → any (λ name. eq_text name text) names ≡ true
any-Memᴰ text [] m = elim m [ ]
any-Memᴰ text (name ∷ names) (Memᴰ.head e) =
    let e' = (eq_text_iff name text).1 (sym e) in rw e' refl
any-Memᴰ text (name ∷ names) (Memᴰ.tail m) = ground (arith, any-Memᴰ text names m)

module _ (plan : ExecutionPlan) where
  IsAllowed-allowed_aliases :
      (restrict : List Text) (alias : Text)
      → Memᴰ alias (allowed_aliases plan restrict)
      → IsAllowed plan restrict alias
  unfolding allowed_aliases
  IsAllowed-allowed_aliases [] alias m = absurd (Memᴰ.not-nil m)
  IsAllowed-allowed_aliases (item ∷ restrict) alias m =
      elim (Option-cases (lookup (normalized item) plan.groups)) [
        | inl e ↦ elim (Memᴰ.append_cases (normalized item ∷ []) (rw (e, allowed_aliases) at m)) [
          | inl (Memᴰ.head e') ↦ as_named e e'
          | inl (Memᴰ.tail m') ↦ absurd (Memᴰ.not-nil m')
          | inr m' ↦ by_later (IsAllowed-allowed_aliases restrict alias m')
        ]
        | inr (members, e) ↦ elim (Memᴰ.append_cases members (rw (e, allowed_aliases) at m)) [
          | inl m' ↦ as_member members e m'
          | inr m' ↦ by_later (IsAllowed-allowed_aliases restrict alias m')
        ]
      ]

  allowed_aliases-IsAllowed :
      (restrict : List Text) (alias : Text)
      → IsAllowed plan restrict alias
      → Memᴰ alias (allowed_aliases plan restrict)
  unfolding allowed_aliases
  allowed_aliases-IsAllowed [] alias a = elim a [ ]
  allowed_aliases-IsAllowed (item ∷ restrict) alias (as_member members e m) =
      rw (e, allowed_aliases) (Memᴰ.append_left (allowed_aliases plan restrict) m)
  allowed_aliases-IsAllowed (item ∷ restrict) alias (as_named e e') =
      rw (e, allowed_aliases) (Memᴰ.head e')
  allowed_aliases-IsAllowed (item ∷ restrict) alias (by_later a) =
      Memᴰ.append_right _ (allowed_aliases-IsAllowed restrict alias a)

  is_alias_of-IsAllowed :
      (restrict : List Text) (host : ResolvedHost)
      → (is_alias_of (allowed_aliases plan restrict) host ≡ true)
        ↔ IsAllowed plan restrict host.alias
  unfolding is_alias_of
  is_alias_of-IsAllowed restrict host = (
    λ h.
        IsAllowed-allowed_aliases restrict host.alias
          (Memᴰ-any host.alias (allowed_aliases plan restrict) h),
    λ a.
        any-Memᴰ host.alias (allowed_aliases plan restrict)
          (allowed_aliases-IsAllowed restrict host.alias a),
  )

-- The hosts that a test keeps, where the test tells the allowed ones from the others.
abbrev pub IsRestriction :
    ExecutionPlan → List Text → List ResolvedHost → List ResolvedHost → Type 0
IsRestriction plan restrict every hosts =
    (is_kept : ResolvedHost → Bool) × ((host : ResolvedHost)
      → (is_kept host ≡ true) ↔ IsAllowed plan restrict host.alias)
    × (hosts ≡ keep is_kept every)

-- A restriction that is not empty leaves exactly those hosts of the unrestricted target whose alias
-- one of its items allows, as a member of the group that the item names or as the item itself, in
-- their order, and at least one.
pub resolve_hosts-restrict :
    (plan : ExecutionPlan) (target : Target) (item : Text) (restrict : List Text)
    (hosts : List ResolvedHost)
    → resolve_hosts plan target (item ∷ restrict) ≡ ok hosts
    → (every : List ResolvedHost) × (resolve_hosts plan target [] ≡ ok every)
      × IsRestriction plan (item ∷ restrict) every hosts
      × (hosts ≢ [])
resolve_hosts-restrict plan target item restrict hosts h =
    let (every, n, e, k) = resolve_steps plan target (item ∷ restrict) hosts h in
    let (e₁, e₂) = restricted plan target item restrict every hosts k in
    (
      every,
      unrestricted plan target every n e,
      (
        is_alias_of (allowed_aliases plan (item ∷ restrict)),
        is_alias_of-IsAllowed plan (item ∷ restrict),
        e₁,
      ),
      e₂,
    )
