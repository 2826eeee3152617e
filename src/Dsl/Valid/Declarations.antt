-- ===== src/Dsl/Valid/Declarations.antt =====
-- The declarations: each keeps the invariant of the state.
use shellflow.Base.{
  ℕ, Bool, true, false, List, [], ◌∷◌, ◌++◌, Text, subst, sym, All, All-append, if◌then◌else◌,
  if_intro, inl, inr, Option-cases,
}
use shellflow.Base.Text.{codes, eq_text, eq_text_iff, trim, split_once}
use shellflow.Base.Dict.{insert}
use shellflow.Base.Result.{Result-cases}
use shellflow.Base.Yields.{Yields, Yields-ok, Yields-err, Yields-then, Yields-bind, Yields-ensure}
use shellflow.Dsl.SshSpec.{parse}
use shellflow.Dsl.SshSpec.Print.{IsSpec}
use shellflow.Dsl.SshSpec.Accepts.{parse-IsSpec}
use shellflow.Dsl.Parser.Words.{split_words}
use shellflow.Dsl.Parser.Flags.{comma_list, is_one_of}
use shellflow.Dsl.Parser.State.{State}
use shellflow.Dsl.Parser.Declare.{
  read_pair, parse_at, add_server, declare_server, distinct_members, declare_group, read_env,
  declare_env, declare_secrets, add_workdir,
}
use shellflow.Dsl.Valid.{IsAlias, IsEntry, IsServer, IsGroup, IsState}

All-insert :
    {V : Type 0} (P : Text × V → Type 0) (k : Text) (v : V) (m : List (Text × V))
    → P (k, v)
    → All P m
    → All P (insert k v m)
unfolding insert
All-insert P k v [] p h = (p, tt)
All-insert P k v ((j, w) ∷ m) p (q, h) =
    if_intro (λ m'. All P m') (eq_text j k) _ _
      (λ e. (subst (λ i. P (i, v)) (sym ((eq_text_iff j k).0 e)) p, h))
      (λ _. (q, All-insert P k v m p h))

read_pair-IsAlias :
    (directive second : Text) (line : ℕ) (words : List Text)
    → Yields (λ pair. IsAlias pair.0) (read_pair directive second line words)
unfolding read_pair
read_pair-IsAlias directive second line [] = Yields-err _
read_pair-IsAlias directive second line (name ∷ []) =
    Yields-bind (Yields-ensure _ _) (λ _ e. Yields-err _)
read_pair-IsAlias directive second line (name ∷ value ∷ []) =
    Yields-bind (Yields-ensure _ _) (λ _ e. Yields-ok _ e)
read_pair-IsAlias directive second line (name ∷ value ∷ extra ∷ words) =
    Yields-bind (Yields-ensure _ _) (λ _ e. Yields-err _)

parse_at-IsSpec : (line : ℕ) (spec : Text) → Yields IsSpec (parse_at line spec)
unfolding parse_at
parse_at-IsSpec line spec = elim (Result-cases (parse spec)) [
  | inl (parsed, e) ↦ rw (e, parse_at) (Yields-ok _ (parse-IsSpec spec parsed e).0)
  | inr (x, e) ↦ rw (e, parse_at) (Yields-err _)
]

pub declare_server-IsState :
    (payload : Text) (line : ℕ) (s : State)
    → IsState s
    → Yields IsState (declare_server payload line s)
unfolding declare_server add_server
declare_server-IsState payload line s ((sv, gr, en, st), ex, t) =
    Yields-bind (read_pair-IsAlias (codes "server") (codes "ssh spec") line (split_words payload))
      (λ (name, spec) a. Yields-then _ (λ _. Yields-bind (parse_at-IsSpec line spec) (λ parsed p.
        Yields-ok _
          ((All-insert IsServer name parsed s.plan.servers (a, p) sv, gr, en, st), ex, t))))

All-if :
    (b : Bool) (seen : List Text) (member : Text)
    → All IsAlias seen
    → IsAlias member
    → All IsAlias (if b then seen else seen ++ member ∷ [])
All-if true seen member h e = h
All-if false seen member h e = All-append IsAlias seen (member ∷ []) h (e, tt)

distinct_members-IsAlias :
    (name : Text) (line : ℕ) (members seen : List Text)
    → All IsAlias seen
    → Yields (All IsAlias) (distinct_members name line seen members)
unfolding distinct_members
distinct_members-IsAlias name line [] seen h = Yields-ok _ h
distinct_members-IsAlias name line (member ∷ members) seen h =
    Yields-bind (Yields-ensure _ _) (λ _ e.
      distinct_members-IsAlias name line members _ (All-if (is_one_of member seen) seen member h e))

pub declare_group-IsState :
    (payload : Text) (line : ℕ) (s : State)
    → IsState s
    → Yields IsState (declare_group payload line s)
unfolding declare_group
declare_group-IsState payload line s ((sv, gr, en, st), ex, t) =
    Yields-bind (read_pair-IsAlias (codes "group") (codes "members") line (split_words payload))
      (λ (name, members) a. Yields-then _ (λ _. Yields-then _ (λ _. Yields-then _ (λ _.
        Yields-then _ (λ _.
          Yields-bind (distinct_members-IsAlias name line (comma_list members) [] tt) (λ kept k.
            Yields-ok _
              ((sv, All-insert IsGroup name kept s.plan.groups (a, k) gr, en, st), ex, t)))))))

read_env-IsEntry : (payload : Text) (line : ℕ) → Yields IsEntry (read_env payload line)
unfolding read_env
read_env-IsEntry payload line = Yields-then _ (λ _.
    elim (Option-cases (split_once (codes "=") (trim payload))) [
      | inr ((key, value), e) ↦ rw e (Yields-bind (Yields-ensure _ _) (λ _ v. Yields-ok _ v))
      | inl e ↦ rw e (Yields-bind (Yields-ensure _ _) (λ _ v. Yields-ok _ v))
    ])

pub declare_env-IsState :
    (payload : Text) (line : ℕ) (s : State)
    → IsState s
    → Yields IsState (declare_env payload line s)
unfolding declare_env
declare_env-IsState payload line s ((sv, gr, en, st), ex, t) =
    Yields-bind (read_env-IsEntry payload line) (λ entry e.
      Yields-ok _ ((sv, gr, All-append IsEntry s.plan.env (entry ∷ []) en (e, tt), st), ex, t))

pub declare_secrets-IsState :
    (payload : Text) (line : ℕ) (s : State)
    → IsState s
    → Yields IsState (declare_secrets payload line s)
unfolding declare_secrets
declare_secrets-IsState payload line s h = Yields-then _ (λ entry. Yields-ok _ h)

pub add_workdir-IsState :
    (payload : Text) (line : ℕ) (s : State)
    → IsState s
    → Yields IsState (add_workdir payload line s)
unfolding add_workdir
add_workdir-IsState payload line s h =
    Yields-then _
      (λ (positional, flags). Yields-then _ (λ prefix. Yields-then _ (λ _. Yields-ok _ h)))
