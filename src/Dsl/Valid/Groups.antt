-- ===== src/Dsl/Valid/Groups.antt =====
-- The members of the groups of a parsed script: `parse_script` and `resolve_hosts` together.
use shellflow.Base.{
  some_inj, ℕ, Bool, true, false, List, [], ◌∷◌, Option, some, Text, ◌≡◌, refl, sym, ap, ◌∙◌, subst,
  All, is_empty, if◌then◌else◌, inl, inr, map, Option-cases, Bool-cases,
}
use shellflow.Base.Text.{eq_text, eq_text_iff}
use shellflow.Base.Dict.{lookup, contains_key}
use shellflow.Base.Result.{ok}
use shellflow.Base.Yields.{
  Yields, Yields-ok, Yields-then, Yields-bind, Yields-ensure, Yields-map, Yields-value,
}
use shellflow.Core.Mask.{lt_text}
use shellflow.Dsl.SshSpec.{SshSpec}
use shellflow.Dsl.Target.{Target, normalized}
use shellflow.Dsl.Plan.{ExecutionPlan, ResolvedHost, resolve_members, resolve_all, resolve_hosts}
use shellflow.Dsl.Plan.Hosts.{unrestricted}
use shellflow.Dsl.Parser.Flags.{is_valid_alias_name}
use shellflow.Dsl.Parser.Script.{
  check_members, check_groups, insert_group, by_key, finish_script, parse_script,
}
use shellflow.Dsl.Parser.State.{State, flush}
use shellflow.Dsl.Valid.{IsGroup}
use shellflow.Dsl.Valid.Scan.{parse_script-IsPlan}

abbrev Servers : Type 0
Servers = List (Text × SshSpec)

abbrev AreServers : Servers → List Text → Type 0
AreServers servers = All (λ member. contains_key member servers ≡ true)

-- Every member of the group is a server.
abbrev pub IsKnown : Servers → Text × List Text → Type 0
IsKnown servers (group, members) = AreServers servers members

check_members-AreServers :
    (servers : Servers) (line : ℕ) (group : Text) (members : List Text)
    → Yields (λ _. AreServers servers members) (check_members servers line group members)
unfolding check_members
check_members-AreServers servers line group [] = Yields-ok _ tt
check_members-AreServers servers line group (member ∷ members) =
    Yields-bind (Yields-ensure _ _) (λ _ e.
      Yields-map _ (check_members-AreServers servers line group members) (λ _ rest. (e, rest)))

check_groups-IsKnown :
    (servers : Servers) (group_lines : List (Text × ℕ)) (groups : List (Text × List Text))
    → Yields (λ _. All (IsKnown servers) groups) (check_groups servers group_lines groups)
unfolding check_groups
check_groups-IsKnown servers group_lines [] = Yields-ok _ tt
check_groups-IsKnown servers group_lines ((group, members) ∷ groups) =
    Yields-bind (check_members-AreServers servers _ group members)
      (λ _ k. Yields-map _ (check_groups-IsKnown servers group_lines groups) (λ _ rest. (k, rest)))

All-insert_group :
    (P : Text × List Text → Type 0) (entry : Text × List Text) (entries : List (Text × List Text))
    → All P (insert_group entry entries)
    → P entry × All P entries
unfolding insert_group
All-insert_group P entry [] h = h
All-insert_group P entry (other ∷ entries) h = elim (Bool-cases (lt_text other.0 entry.0)) [
  | inl e ↦
      let (p, q) = (rw (e, insert_group) at h) in
      let (r, rs) = All-insert_group P entry entries q in (r, (p, rs))
  | inr e ↦ rw (e, insert_group) at h
]

All-by_key :
    (P : Text × List Text → Type 0) (groups : List (Text × List Text))
    → All P (by_key groups)
    → All P groups
unfolding by_key
All-by_key P [] h = tt
All-by_key P (group ∷ groups) h =
    let (p, rest) = All-insert_group P group (by_key groups) h in (p, All-by_key P groups rest)

finish_script-IsKnown :
    (s : State) → Yields (λ plan. All (IsKnown plan.servers) plan.groups) (finish_script s)
unfolding finish_script
finish_script-IsKnown s = Yields-then _ (λ _.
    Yields-bind (check_groups-IsKnown (flush s).plan.servers _ (by_key (flush s).plan.groups))
      (λ _ k. Yields-ok _ (All-by_key (IsKnown (flush s).plan.servers) (flush s).plan.groups k)))

parse_script-Yields :
    (input : Text) → Yields (λ plan. All (IsKnown plan.servers) plan.groups) (parse_script input)
unfolding parse_script
parse_script-Yields input = Yields-then _ (λ s. finish_script-IsKnown s)

-- Every member of every group of an accepted script is a server that the script declares.
pub parse_script-IsKnown :
    (input : Text) (plan : ExecutionPlan)
    → parse_script input ≡ ok plan
    → All (IsKnown plan.servers) plan.groups
parse_script-IsKnown input plan h =
    Yields-value (parse_script input) plan (parse_script-Yields input) h

found :
    {V : Type 0} (P : Text × V → Type 0) (b : Bool) (k j : Text) (v w : V) (rest : Option V)
    → b ≡ eq_text j k
    → (if b then some v else rest) ≡ some w
    → P (j, v)
    → (rest ≡ some w → P (k, w))
    → P (k, w)
found P true k j v w rest b e p r =
    subst (λ u. P (k, u)) (some_inj v w e) (subst (λ i. P (i, v)) ((eq_text_iff j k).0 (sym b)) p)
found P false k j v w rest b e p r = r e

lookup-All :
    {V : Type 0} (P : Text × V → Type 0) (k : Text) (w : V) (m : List (Text × V))
    → All P m
    → lookup k m ≡ some w
    → P (k, w)
unfolding lookup
lookup-All P k w [] h e = absurd (cc e)
lookup-All P k w ((j, v) ∷ m) (p, h) e =
    found P (eq_text j k) k j v w (lookup k m) refl e p (λ e'. lookup-All P k w m h e')

abbrev pub aliases : List ResolvedHost → List Text
aliases hosts = map (λ host. host.alias) hosts

resolve_members_known :
    (plan : ExecutionPlan) (line : ℕ) (group : Text) (members : List Text)
    → AreServers plan.servers members
    → (hosts : List ResolvedHost) × (resolve_members plan line group members ≡ ok hosts)
      × (aliases hosts ≡ members)
unfolding resolve_members contains_key
resolve_members_known plan line group [] h = ([], refl, refl)
resolve_members_known plan line group (member ∷ members) (h, hs) =
    elim (Option-cases (lookup member plan.servers)) [
      | inl e ↦ absurd (cc (rw (e, contains_key) at h))
      | inr (spec, e) ↦
          let (hosts, r, a) = resolve_members_known plan line group members hs in
          (
            record { alias = member; spec = spec } ∷ hosts,
            rw (e, r, resolve_members) refl,
            ap (◌∷◌ member) a,
          )
    ]

resolve_group :
    (plan : ExecutionPlan) (line : ℕ) (name : Text) (members : List Text)
    → lookup name plan.groups ≡ some members
    → resolve_all plan line name ≡ resolve_members plan line name members
unfolding resolve_all
resolve_group plan line name members g = rw (g, resolve_all) refl

alias_not_empty : (name : Text) → is_valid_alias_name name ≡ true → is_empty name ≡ false
unfolding is_valid_alias_name
alias_not_empty [] h = absurd (cc h)
alias_not_empty (c ∷ s) h = refl

-- In the plan of an accepted script, a target that names a group resolves: its hosts are the members
-- that the plan has for the group, in the order in which the plan lists them.
pub resolve_hosts-parse_script :
    (input : Text) (plan : ExecutionPlan) (target : Target) (members : List Text)
    → parse_script input ≡ ok plan
    → lookup (normalized target.text) plan.groups ≡ some members
    → (hosts : List ResolvedHost) × (resolve_hosts plan target [] ≡ ok hosts)
      × (aliases hosts ≡ members)
resolve_hosts-parse_script input plan target members h g =
    let (sv, gr, en, st) = parse_script-IsPlan input plan h in
    let name = normalized target.text in
    let known =
      lookup-All (IsKnown plan.servers) name members plan.groups (parse_script-IsKnown input plan h)
        g in
    let (a, _) = lookup-All IsGroup name members plan.groups gr g in
    let (hosts, r, e) = resolve_members_known plan target.line name members known in
    (
      hosts,
      unrestricted plan target hosts (alias_not_empty name a)
          (resolve_group plan target.line name members g ∙ r),
      e,
    )
