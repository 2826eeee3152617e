-- ===== src/Dsl/SshSpec/Print.antt =====
-- Destinations, written out and read.
use shellflow.Base.{
  ℕ, ◌≤◌, ◌<◌, Bool, true, false, ◌||◌, [], ◌∷◌, ◌++◌, Option, none, some, Text, ◌==◌,
  if◌then◌else◌, is_empty, all, ◌≡◌, refl, ◌∙◌, arith, append_assoc, append-nil, Bool-cases, inl,
  inr, between,
}
use shellflow.Base.Text.{
  contains, starts_with, strip_prefix, rsplit_once, split_once_byte, split_once_byte-eq_none,
  contains_byte-append,
}
use shellflow.Base.Text.Decimal.{decimal, parse_u16-decimal, all-decimal}
use shellflow.Base.Result.{ok}
use shellflow.Shell.Name.{contains-all}
use shellflow.Dsl.SshSpec.{
  SshSpec, is_name_byte, is_address_byte, is_ipv6_literal, is_valid_spec_component,
  host_is_well_formed, parse_port, parse_tail, parse_bracketed, parse_plain, parse_host_port,
  parse_rest, parse, bracket, dest,
}

rsplit_once_byte-eq_none : (b : ℕ) (s : Text) → contains (b ∷ []) s ≡ false → rsplit_once b s ≡ none
unfolding rsplit_once contains starts_with
rsplit_once_byte-eq_none b [] h = refl
rsplit_once_byte-eq_none b (c ∷ s) h = ground (arith, rsplit_once_byte-eq_none b s)

rsplit_once_byte :
    (b : ℕ) (before after : Text)
    → contains (b ∷ []) after ≡ false
    → rsplit_once b (before ++ (b ∷ after)) ≡ some (before, after)
unfolding rsplit_once
rsplit_once_byte b [] after h = rw (rsplit_once_byte-eq_none b after h) (ground arith)
rsplit_once_byte b (c ∷ before) after h = rw (rsplit_once_byte b before after h) refl

component_facts :
    (s : Text)
    → is_valid_spec_component s ≡ true
    → (is_empty s ≡ false) × (all is_name_byte s ≡ true)
unfolding is_valid_spec_component
component_facts s h = ground arith

literal_facts : (s : Text) → is_ipv6_literal s ≡ true → all is_address_byte s ≡ true
unfolding is_ipv6_literal
literal_facts s h = ground arith

-- What stands behind the host.
abbrev pub port_text : Option ℕ → Text
port_text none = []
port_text (some port) = b':' ∷ decimal port

-- A port that the parser can return.
abbrev pub IsPort : Option ℕ → Type 0
IsPort none = Unit
IsPort (some port) = (0 < port) × (port ≤ 65535)

nonzero : (n : ℕ) → 0 < n → (n == 0) ≡ false
nonzero n h = ground arith

no_colon : (port : ℕ) → contains (b':' ∷ []) (decimal port) ≡ false
no_colon port = contains-all (between b'0' b'9') b':' (decimal port) (all-decimal port) refl

parse_port-decimal :
    (port : ℕ) (spec : Text) → 0 < port → port ≤ 65535 → parse_port (decimal port) spec ≡ ok port
unfolding parse_port
parse_port-decimal port spec h k =
    rw (parse_u16-decimal port k, parse_port) (rw (nonzero port h) refl)

parse_tail-port_text :
    (spec host : Text) (port : Option ℕ)
    → IsPort port
    → parse_tail spec host (port_text port) ≡ ok (host, port)
unfolding parse_tail strip_prefix
parse_tail-port_text spec host none p = refl
parse_tail-port_text spec host (some port) (h, k) = rw (parse_port-decimal port spec h k) refl

parse_bracketed-host :
    (spec host : Text) (port : Option ℕ)
    → is_empty host ≡ false
    → is_ipv6_literal host ≡ true
    → IsPort port
    → parse_bracketed spec (host ++ (b']' ∷ port_text port)) ≡ ok (host, port)
unfolding parse_bracketed
parse_bracketed-host spec host port e l p =
    rw
      (
        split_once_byte b']' host (port_text port)
            (contains-all is_address_byte b']' host (literal_facts host l) refl),
        parse_bracketed,
      )
      (rw (e, l) (parse_tail-port_text spec host port p))

parse_plain-host :
    (spec host : Text) (port : Option ℕ)
    → contains (b':' ∷ []) host ≡ false
    → IsPort port
    → parse_plain spec (host ++ port_text port) ≡ ok (host, port)
unfolding parse_plain
parse_plain-host spec host none c p =
    rw (append-nil host) (rw (rsplit_once_byte-eq_none b':' host c, parse_plain) refl)
parse_plain-host spec host (some port) c (h, k) =
    rw (rsplit_once_byte b':' host (decimal port) (no_colon port), parse_plain)
      (rw (c, parse_port-decimal port spec h k) refl)

-- The text behind the user: the host, in brackets if it is an address, and the port.
abbrev host_text : Text → Option ℕ → Text
host_text host port = bracket host ++ port_text port

bracket_address :
    (host : Text) → contains (b':' ∷ []) host ≡ true → bracket host ≡ b'[' ∷ (host ++ b']' ∷ [])
unfolding bracket
bracket_address host c = rw c refl

bracket_name : (host : Text) → contains (b':' ∷ []) host ≡ false → bracket host ≡ host
unfolding bracket
bracket_name host c = rw c refl

contains_nonempty : (host : Text) → contains (b':' ∷ []) host ≡ true → is_empty host ≡ false
unfolding contains starts_with
contains_nonempty [] h = cc h
contains_nonempty (c ∷ host) h = refl

strip_bracket-name :
    (host rest : Text)
    → is_empty host ≡ false
    → all is_name_byte host ≡ true
    → strip_prefix (b'[' ∷ []) (host ++ rest) ≡ none
unfolding strip_prefix
strip_bracket-name [] rest e a = cc e
strip_bracket-name (c ∷ host) rest e a = ground arith

if_true : (b x y : Bool) → b ≡ true → (if b then x else y) ≡ true → x ≡ true
if_true b x y e h = ground arith

address_literal :
    (host : Text)
    → contains (b':' ∷ []) host ≡ true
    → host_is_well_formed host ≡ true
    → is_ipv6_literal host ≡ true
unfolding host_is_well_formed
address_literal host c w =
    if_true (contains (b':' ∷ []) host) (is_ipv6_literal host) (is_valid_spec_component host) c w

if_false : (b x y : Bool) → b ≡ false → (if b then x else y) ≡ true → y ≡ true
if_false b x y e h = ground arith

name_component :
    (host : Text)
    → contains (b':' ∷ []) host ≡ false
    → host_is_well_formed host ≡ true
    → is_valid_spec_component host ≡ true
unfolding host_is_well_formed
name_component host c w =
    if_false (contains (b':' ∷ []) host) (is_ipv6_literal host) (is_valid_spec_component host) c w

parse_host_port-text :
    (spec host : Text) (port : Option ℕ)
    → host_is_well_formed host ≡ true
    → IsPort port
    → parse_host_port spec (host_text host port) ≡ ok (host, port)
unfolding parse_host_port host_is_well_formed
parse_host_port-text spec host port w p = elim (Bool-cases (contains (b':' ∷ []) host)) [
  | inl c ↦ rw (bracket_address host c) (
      rw (append_assoc host (b']' ∷ []) (port_text port)) (
        unfold strip_prefix in
        parse_bracketed-host spec host port (contains_nonempty host c) (address_literal host c w)
          p))
  | inr c ↦
      let (e, a) = component_facts host (rw (c, host_is_well_formed) at w) in
      rw (bracket_name host c) (
        rw (strip_bracket-name host (port_text port) e a, parse_host_port)
          (parse_plain-host spec host port c p))
]

well_formed_nonempty : (host : Text) → host_is_well_formed host ≡ true → is_empty host ≡ false
unfolding host_is_well_formed
well_formed_nonempty host w = elim (Bool-cases (contains (b':' ∷ []) host)) [
  | inl c ↦ contains_nonempty host c
  | inr c ↦ (component_facts host (rw (c, host_is_well_formed) at w)).0
]

parse_rest-text :
    (spec : Text) (user : Option Text) (host : Text) (port : Option ℕ)
    → host_is_well_formed host ≡ true
    → IsPort port
    → parse_rest spec user (host_text host port)
      ≡ ok (record { user = user; host = host; port = port })
unfolding parse_rest
parse_rest-text spec user host port w p =
    rw (parse_host_port-text spec host port w p, parse_rest)
      (rw w (rw (well_formed_nonempty host w) refl))

or_false : (a b : Bool) → a ≡ false → b ≡ false → (a || b) ≡ false
or_false a b h k = ground arith

no_at-append :
    (s t : Text)
    → contains (b'@' ∷ []) s ≡ false
    → contains (b'@' ∷ []) t ≡ false
    → contains (b'@' ∷ []) (s ++ t) ≡ false
no_at-append s t h k =
    contains_byte-append b'@' s t ∙ or_false (contains (b'@' ∷ []) s) (contains (b'@' ∷ []) t) h k

no_at-port_text : (port : Option ℕ) → contains (b'@' ∷ []) (port_text port) ≡ false
no_at-port_text none = unfold contains starts_with in refl
no_at-port_text (some port) =
    no_at-append (b':' ∷ []) (decimal port) (unfold contains starts_with in refl)
      (contains-all (between b'0' b'9') b'@' (decimal port) (all-decimal port) refl)

no_at-bracket :
    (host : Text) → host_is_well_formed host ≡ true → contains (b'@' ∷ []) (bracket host) ≡ false
no_at-bracket host w = elim (Bool-cases (contains (b':' ∷ []) host)) [
  | inl c ↦ rw (bracket_address host c) (
      no_at-append (b'[' ∷ []) (host ++ b']' ∷ []) (unfold contains starts_with in refl) (
        no_at-append host (b']' ∷ [])
          (contains-all is_address_byte b'@' host (literal_facts host (address_literal host c w))
            refl)
          (unfold contains starts_with in refl)))
  | inr c ↦
      rw (bracket_name host c) (
        contains-all is_name_byte b'@' host (component_facts host (name_component host c w)).1 refl)
]

-- A destination that the parser can return: a user and a host that it accepts, and a port in range.
pub record IsSpec (spec : SshSpec) : Type 0 where
  pub named : (name : Text) → spec.user ≡ some name → is_valid_spec_component name ≡ true
  pub reached : host_is_well_formed spec.host ≡ true
  pub in_range : IsPort spec.port

-- `dest`, with the port behind it.
abbrev pub print : SshSpec → Text
print spec = dest spec ++ port_text spec.port

parse-user :
    (name host : Text) (port : Option ℕ)
    → is_valid_spec_component name ≡ true
    → host_is_well_formed host ≡ true
    → IsPort port
    → parse (name ++ (b'@' ∷ host_text host port))
      ≡ ok (record { user = some name; host = host; port = port })
unfolding parse
parse-user name host port v w p =
    let (e, a) = component_facts name v in
    rw
      (
        split_once_byte b'@' name (host_text host port)
            (contains-all is_name_byte b'@' name a refl),
        parse,
      )
      (rw v
        (rw e (parse_rest-text (name ++ (b'@' ∷ host_text host port)) (some name) host port w p)))

parse-host :
    (host : Text) (port : Option ℕ)
    → host_is_well_formed host ≡ true
    → IsPort port
    → parse (host_text host port) ≡ ok (record { user = none; host = host; port = port })
unfolding parse
parse-host host port w p =
    rw
      (
        split_once_byte-eq_none b'@' (host_text host port) (
            no_at-append (bracket host) (port_text port) (no_at-bracket host w)
              (no_at-port_text port)),
        parse,
      )
      (parse_rest-text (host_text host port) none host port w p)

parse_fields :
    (user : Option Text) (host : Text) (port : Option ℕ)
    → IsSpec (record { user = user; host = host; port = port })
    → parse (print (record { user = user; host = host; port = port }))
      ≡ ok (record { user = user; host = host; port = port })
unfolding dest
parse_fields (some name) host port i =
    rw (append_assoc name (b'@' ∷ bracket host) (port_text port))
      (parse-user name host port (i.named name refl) i.reached i.in_range)
parse_fields none host port i = parse-host host port i.reached i.in_range

-- A destination with a user and a host that the parser accepts and a port in range, written out as
-- `dest` does it with `:` and the port behind, is parsed to itself; an address gets its brackets
-- and loses them again.
pub parse-print : (spec : SshSpec) → IsSpec spec → parse (print spec) ≡ ok spec
parse-print spec i = parse_fields spec.user spec.host spec.port i
