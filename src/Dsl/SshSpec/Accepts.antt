-- ===== src/Dsl/SshSpec/Accepts.antt =====
-- What the parser of destinations accepts.
use shellflow.Base.{
  ℕ, ◌<◌, true, false, not, ◌||◌, ◌++◌, Option, none, some, Text, if◌then◌else◌, is_empty, ◌==◌,
  ◌≡◌, sym, ◌∙◌, ap, subst, arith, Bool-cases, Option-cases, inl, inr,
}
use shellflow.Base.Text.{codes, contains, strip_prefix, split_once, rsplit_once}
use shellflow.Base.Text.Decimal.{parse_u16, parse_u16_bound}
use shellflow.Base.Result.{Result, ok, err, Result-cases}
use shellflow.Dsl.Error.{ParseError}
use shellflow.Dsl.SshSpec.{
  SshSpec, is_ipv6_literal, is_valid_spec_component, host_is_well_formed, some_port, invalid,
  parse_port, parse_tail, parse_bracketed, parse_plain, parse_host_port, parse_rest, parse,
}
use shellflow.Dsl.SshSpec.Print.{IsPort, IsSpec, print, parse-print}

nonzero : (n : ℕ) → (n == 0) ≡ false → 0 < n
nonzero n h = ground arith

same_port : (n port : ℕ) → ◌≡◌ {A = Result ParseError ℕ} (ok n) (ok port) → n ≡ port
same_port n port h = ground arith

parse_port-IsPort :
    (raw spec : Text) (port : ℕ) → parse_port raw spec ≡ ok port → IsPort (some port)
unfolding parse_port
parse_port-IsPort raw spec port h = elim (Option-cases (parse_u16 raw)) [
  | inl e ↦ absurd (cc (rw (e, parse_port) at h))
  | inr (n, e) ↦ elim (Bool-cases (n == 0)) [
    | inl z ↦ absurd (cc (rw (e, z, parse_port) at h))
    | inr z ↦
        subst (λ m. IsPort (some m)) (same_port n port (rw (e, z, parse_port) at h))
          (nonzero n z, parse_u16_bound raw n e)
  ]
]

-- A pair whose port, if there is one, is in range.
abbrev HasPort : Result ParseError (Text × Option ℕ) → Type 0
HasPort (ok (host, port)) = IsPort port
HasPort (err e) = Unit

some_port-HasPort : (host raw spec : Text) → HasPort (some_port host (parse_port raw spec))
some_port-HasPort host raw spec = elim (Result-cases (parse_port raw spec)) [
  | inl (port, e) ↦
      subst (λ r. HasPort (some_port host r)) (sym e) (parse_port-IsPort raw spec port e)
  | inr (x, e) ↦ subst (λ r. HasPort (some_port host r)) (sym e) tt
]

parse_tail-HasPort : (spec host tail : Text) → HasPort (parse_tail spec host tail)
unfolding parse_tail
parse_tail-HasPort spec host tail = elim (Bool-cases (is_empty tail)) [
  | inl e ↦ rw (e, parse_tail) tt
  | inr e ↦ elim (Option-cases (strip_prefix (codes ":") tail)) [
    | inl e' ↦ rw (e, parse_tail) (rw e' tt)
    | inr (raw, e') ↦ rw (e, parse_tail) (rw e' (some_port-HasPort host raw spec))
  ]
]

parse_bracketed-HasPort : (spec bracketed : Text) → HasPort (parse_bracketed spec bracketed)
unfolding parse_bracketed
parse_bracketed-HasPort spec bracketed = elim (Option-cases (split_once (codes "]") bracketed)) [
  | inl e ↦ rw (e, parse_bracketed) tt
  | inr ((host, tail), e) ↦
      rw (e, parse_bracketed)
        (elim (Bool-cases (is_empty host || not (is_ipv6_literal host))) [
          | inl e' ↦ rw e' tt
          | inr e' ↦ rw e' (parse_tail-HasPort spec host tail)
        ])
]

parse_plain-HasPort : (spec rest : Text) → HasPort (parse_plain spec rest)
unfolding parse_plain
parse_plain-HasPort spec rest = elim (Option-cases (rsplit_once b':' rest)) [
  | inl e ↦ rw (e, parse_plain) tt
  | inr ((host, raw), e) ↦
      rw (e, parse_plain)
        (elim (Bool-cases (contains (codes ":") host)) [
          | inl e' ↦ rw e' tt
          | inr e' ↦ rw e' (some_port-HasPort host raw spec)
        ])
]

parse_host_port-HasPort : (spec rest : Text) → HasPort (parse_host_port spec rest)
unfolding parse_host_port
parse_host_port-HasPort spec rest = elim (Option-cases (strip_prefix (codes "[") rest)) [
  | inl e ↦ rw (e, parse_host_port) (parse_plain-HasPort spec rest)
  | inr (bracketed, e) ↦ rw (e, parse_host_port) (parse_bracketed-HasPort spec bracketed)
]

-- A user that the parser splits off, or none.
abbrev IsUser : Option Text → Type 0
IsUser none = Unit
IsUser (some name) = is_valid_spec_component name ≡ true

same_name : (n name : Text) → some n ≡ some name → n ≡ name
same_name n name e = cc e

same_spec : (a b : SshSpec) → ◌≡◌ {A = Result ParseError SshSpec} (ok a) (ok b) → a ≡ b
same_spec a b e = cc e

user_named :
    (user : Option Text) (name : Text)
    → IsUser user
    → user ≡ some name
    → is_valid_spec_component name ≡ true
user_named none name h e = absurd (cc e)
user_named (some n) name h e = ap is_valid_spec_component (sym (same_name n name e)) ∙ h

accepted :
    (user : Option Text) (host : Text) (port : Option ℕ) (spec : SshSpec)
    → IsUser user
    → host_is_well_formed host ≡ true
    → IsPort port
    → ◌≡◌ {A = Result ParseError SshSpec}
        (ok (record { user = user; host = host; port = port }))
        (ok spec)
    → IsSpec spec
accepted user host port spec u w p e =
    subst IsSpec (same_spec (record { user = user; host = host; port = port }) spec e)
      (record { named = λ name k. user_named user name u k; reached = w; in_range = p })

-- The checks on the host, as `parse_rest` makes them.
abbrev checks : Text → Option Text → Text → Option ℕ → Result ParseError SshSpec
checks text user host port =
    if is_empty host
    then invalid text (codes "empty host")
    else if not (host_is_well_formed host)
    then invalid text
        (codes "invalid host `" ++ (host ++ codes "` (allowed: letters, digits, `.`, `_`, `-`)"))
    else ok (record { user = user; host = host; port = port })

checked_host :
    (text : Text) (user : Option Text) (host : Text) (port : Option ℕ) (spec : SshSpec)
    → host_is_well_formed host ≡ true
    → checks text user host port ≡ ok spec
    → ◌≡◌ {A = Result ParseError SshSpec}
        (ok (record { user = user; host = host; port = port }))
        (ok spec)
checked_host text user host port spec w h = elim (Bool-cases (is_empty host)) [
  | inl e ↦ absurd (cc (rw e at h))
  | inr e ↦ rw (w, e) at h
]

refused_host :
    (text : Text) (user : Option Text) (host : Text) (port : Option ℕ) (spec : SshSpec)
    → host_is_well_formed host ≡ false
    → checks text user host port ≡ ok spec
    → ⊥
refused_host text user host port spec w h = elim (Bool-cases (is_empty host)) [
  | inl e ↦ cc (rw e at h)
  | inr e ↦ cc (rw (w, e) at h)
]

parse_rest-IsSpec :
    (text : Text) (user : Option Text) (rest : Text) (spec : SshSpec)
    → IsUser user
    → parse_rest text user rest ≡ ok spec
    → IsSpec spec
unfolding parse_rest
parse_rest-IsSpec text user rest spec u h = elim (Result-cases (parse_host_port text rest)) [
  | inr (x, e) ↦ absurd (cc (rw (e, parse_rest) at h))
  | inl ((host, port), e) ↦ elim (Bool-cases (host_is_well_formed host)) [
    | inl w ↦
        accepted user host port spec u w (subst HasPort e (parse_host_port-HasPort text rest))
          (checked_host text user host port spec w (rw (e, parse_rest) at h))
    | inr w ↦ absurd (refused_host text user host port spec w (rw (e, parse_rest) at h))
  ]
]

-- The checks on the user, as `parse` makes them.
abbrev user_checks : Text → Text → Text → Result ParseError SshSpec
user_checks text user rest =
    if is_empty user
    then invalid text (codes "empty user before `@`")
    else if not (is_valid_spec_component user)
    then invalid text
        (codes "invalid user `" ++ (user ++ codes "` (allowed: letters, digits, `.`, `_`, `-`)"))
    else parse_rest text (some user) rest

split_user :
    (text user rest : Text) (spec : SshSpec)
    → is_empty user ≡ false
    → is_valid_spec_component user ≡ true
    → user_checks text user rest ≡ ok spec
    → parse_rest text (some user) rest ≡ ok spec
split_user text user rest spec e v h = rw (v, e) at h

bad_user :
    (text user rest : Text) (spec : SshSpec)
    → is_empty user ≡ false
    → is_valid_spec_component user ≡ false
    → user_checks text user rest ≡ ok spec
    → ⊥
bad_user text user rest spec e v h = cc (rw (v, e) at h)

parse-accepts : (text : Text) (spec : SshSpec) → parse text ≡ ok spec → IsSpec spec
unfolding parse
parse-accepts text spec h = elim (Option-cases (split_once (codes "@") text)) [
  | inl e ↦ parse_rest-IsSpec text none text spec tt (rw (e, parse) at h)
  | inr ((user, rest), e) ↦ elim (Bool-cases (is_empty user)) [
    | inl e₁ ↦ absurd (cc (rw (e, e₁, parse) at h))
    | inr e₁ ↦ elim (Bool-cases (is_valid_spec_component user)) [
      | inl v ↦
          parse_rest-IsSpec text (some user) rest spec v
            (split_user text user rest spec e₁ v (rw (e, parse) at h))
      | inr v ↦ absurd (bad_user text user rest spec e₁ v (rw (e, parse) at h))
    ]
  ]
]

-- Whatever text the parser accepts, the user and the host of the destination are well formed and
-- its port is between 1 and 65535; so written out and read again, it is the same destination.
pub parse-IsSpec :
    (text : Text) (spec : SshSpec)
    → parse text ≡ ok spec
    → IsSpec spec × (parse (print spec) ≡ ok spec)
parse-IsSpec text spec h = let i = parse-accepts text spec h in (i, parse-print spec i)
