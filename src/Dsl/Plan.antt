-- ===== src/Dsl/Plan.antt =====
-- crates/shellflow-dsl/src/plan.rs: the plan, and the hosts that a target resolves to.
pub mod Hosts
pub mod Restrict
use shellflow.Base.{
  ℕ, Bool, true, false, List, [], ◌∷◌, ◌++◌, Option, none, some, Text, ◌==◌, if◌then◌else◌,
  is_empty, any, keep,
}
use shellflow.Base.Text.{eq_text}
use shellflow.Base.Dict.{lookup}
use shellflow.Base.Result.{Result, ok, err}
use shellflow.Dsl.Error.{ParseError, invalid_ssh_spec, unknown_group_member, empty_target}
use shellflow.Dsl.SshSpec.{SshSpec, parse}
use shellflow.Dsl.Step.{Step}
use shellflow.Dsl.Target.{Target, EnvEntry, SecretEntry, Workdir, normalized}

-- The maps are the source's `BTreeMap`s, as lists of entries in the order of their first insertion.
pub record ExecutionPlan : Type 0 where
  pub servers : List (Text × SshSpec)
  pub groups : List (Text × List Text)
  pub env : List EnvEntry
  pub secrets : List SecretEntry
  pub workdir : Option Workdir
  pub steps : List Step

pub record ResolvedHost : Type 0 where
  pub alias : Text
  pub spec : SshSpec

-- The loop over the members of a group.
unfoldable pub resolve_members :
    ExecutionPlan → ℕ → Text → List Text → Result ParseError (List ResolvedHost)
unfolding lookup
resolve_members plan line group [] = ok []
resolve_members plan line group (member ∷ members) =
    let rest = resolve_members plan line group members in
    elim (lookup member plan.servers) [
      | none ↦ err (unknown_group_member line group member)
      | some spec ↦ elim rest [
        | ok hosts ↦ ok (record { alias = member; spec = spec } ∷ hosts)
        | err e ↦ err e
      ]
    ]

-- `map_err`: the line of a destination that is no alias.
unfoldable pub at_line : ℕ → ParseError → ParseError
at_line line (invalid_ssh_spec _ spec reason) = invalid_ssh_spec line spec reason
at_line line e = e

unfoldable pub resolve_raw : ℕ → Text → Result ParseError (List ResolvedHost)
unfolding parse at_line
resolve_raw line normalized = elim (parse normalized) [
  | ok spec ↦ ok (record { alias = normalized; spec = spec } ∷ [])
  | err e ↦ err (at_line line e)
]

-- The hosts before `--target` restricts them.
unfoldable pub resolve_all : ExecutionPlan → ℕ → Text → Result ParseError (List ResolvedHost)
unfolding lookup resolve_members resolve_raw
resolve_all plan line normalized = elim (lookup normalized plan.groups) [
  | some members ↦ resolve_members plan line normalized members
  | none ↦ elim (lookup normalized plan.servers) [
    | some spec ↦ ok (record { alias = normalized; spec = spec } ∷ [])
    | none ↦ resolve_raw line normalized
  ]
]

-- The aliases of a restriction: a `HashSet`, read by `contains` only.
unfoldable pub allowed_aliases : ExecutionPlan → List Text → List Text
unfolding normalized lookup
allowed_aliases plan [] = []
allowed_aliases plan (item ∷ restrict) =
    (elim (lookup (normalized item) plan.groups) [
      | some members ↦ members
      | none ↦ normalized item ∷ []
    ])
    ++ allowed_aliases plan restrict

unfoldable pub is_alias_of : List Text → ResolvedHost → Bool
unfolding eq_text
is_alias_of aliases host = any (λ name. eq_text name host.alias) aliases

unfoldable pub restrict_hosts :
    ExecutionPlan → Target → List Text → List ResolvedHost → Result ParseError (List ResolvedHost)
unfolding allowed_aliases is_alias_of
restrict_hosts plan target restrict hosts =
    let filtered = keep (is_alias_of (allowed_aliases plan restrict)) hosts in
    if is_empty restrict
    then ok hosts
    else if is_empty filtered
    then err (empty_target target.text)
    else ok filtered

unfoldable pub resolve_hosts :
    ExecutionPlan → Target → List Text → Result ParseError (List ResolvedHost)
unfolding normalized resolve_all restrict_hosts
resolve_hosts plan target restrict =
    if is_empty (normalized target.text)
    then err (empty_target target.text)
    else elim (resolve_all plan target.line (normalized target.text)) [
      | ok hosts ↦ restrict_hosts plan target restrict hosts
      | err e ↦ err e
    ]
