-- ===== src/Gateway/Bindings.antt =====
-- packages/gateway/src/binding-resolver.ts and the bindings of packages/gateway/src/protocol/bindings.ts,
-- whose schemas are not modelled. A thrown Error of a pattern is one of two cases; a position in a text
-- counts its characters.
pub mod Globs
pub mod FirstMatch
mod Tests
use Prim.Native.Char.{code}
use templar.Prelude.{
  Bool, true, false, not, ◌&&◌, ◌||◌, Option, none, some, List, [], ◌∷◌, String, if◌then◌else◌,
  str_eq, ℕ, ◌-◌, ltb, ◌==◌, length,
}
use templar.Prelude.Results.{Result, ok, err, ◌>>=◌}
use templar.Prelude.Text.{split, starts_with, ends_with, index_of, count}
use templar.Gateway.Lanes.{LaneMessage, MessageRoutingContext}

pub data FieldMatcher : Type 0 where
  exact prefix suffix : (value : String) → FieldMatcher
  anything : FieldMatcher

pub data PatternError : Type 0 where
  multiple_wildcards interior_wildcard : String → PatternError

abbrev pub star : ℕ
star = b'*'

-- `pattern.slice(1)`
abbrev pub slice_first : String → String
slice_first String.[] = ""
slice_first (String.◌∷◌ c s) = s

-- `pattern.slice(0, -1)`
abbrev pub slice_last : String → String
slice_last String.[] = ""
slice_last (String.◌∷◌ c String.[]) = ""
slice_last (String.◌∷◌ c (String.◌∷◌ d s)) = String.◌∷◌ c (slice_last (String.◌∷◌ d s))

unfoldable pub compile_pattern : String → Result PatternError FieldMatcher
compile_pattern pattern =
    let wildcard_count = length (split star pattern) - 1 in
    let star_index = index_of star pattern in
    if str_eq pattern "*"
    then ok anything
    else if ltb 1 wildcard_count
    then err (multiple_wildcards pattern)
    else if wildcard_count == 1
    then if not (star_index == 0) && not (star_index == count pattern - 1)
      then err (interior_wildcard pattern)
      else if star_index == 0
      then ok (suffix (slice_first pattern))
      else ok (prefix (slice_last pattern))
    else ok (exact pattern)

unfoldable pub match_field : FieldMatcher → String → Bool
match_field anything value = true
match_field (exact text) value = str_eq value text
match_field (prefix text) value = starts_with value text
match_field (suffix text) value = ends_with value text

pub record BindingMatch : Type 0 where
  pub channel : Option String
  pub account_id : Option String
  pub peer_id : Option String

pub record AgentBinding : Type 0 where
  pub agent_id : String
  pub match : BindingMatch

pub record Matchers : Type 0 where
  pub channel : Option FieldMatcher
  pub account_id : Option FieldMatcher
  pub peer_id : Option FieldMatcher

pub record CompiledBinding : Type 0 where
  pub agent_id : String
  pub matchers : Matchers

unfoldable pub compile_field : Option String → Result PatternError (Option FieldMatcher)
unfolding compile_pattern
compile_field none = ok none
compile_field (some pattern) = do matcher ← compile_pattern pattern; ok (some matcher)

unfoldable pub compile_binding : AgentBinding → Result PatternError CompiledBinding
unfolding compile_field
compile_binding b = do
  channel ← compile_field b.match.channel
  account_id ← compile_field b.match.account_id
  peer_id ← compile_field b.match.peer_id
  ok (record {
    agent_id = b.agent_id;
    matchers = record { channel = channel; account_id = account_id; peer_id = peer_id };
  })

unfoldable pub compile_bindings : List AgentBinding → Result PatternError (List CompiledBinding)
unfolding compile_binding
compile_bindings [] = ok []
compile_bindings (b ∷ bs) = do
  compiled ← compile_binding b
  rest ← compile_bindings bs
  ok (compiled ∷ rest)

-- `message.routingContext?.accountId` and the peer's.
abbrev pub account_of : Option MessageRoutingContext → Option String
account_of none = none
account_of (some context) = context.account_id

abbrev pub peer_of : Option MessageRoutingContext → Option String
peer_of none = none
peer_of (some context) = context.peer_id

-- An optional matcher against a value that is always there.
abbrev pub allows : Option FieldMatcher → String → Bool
allows none value = true
allows (some matcher) value = match_field matcher value

-- An optional matcher against a value that may be missing; an empty value counts as missing.
abbrev pub allows_present : Option FieldMatcher → Option String → Bool
allows_present none value = true
allows_present (some matcher) none = false
allows_present (some matcher) (some v) = if str_eq v "" then false else match_field matcher v

unfoldable pub matches : CompiledBinding → LaneMessage → Bool
unfolding match_field
matches b m =
    if not (allows b.matchers.channel m.channel_id)
    then false
    else if not (allows_present b.matchers.account_id (account_of m.routing_context))
    then false
    else if not (allows_present b.matchers.peer_id (peer_of m.routing_context))
    then false
    else true

pub record BindingResolver : Type 0 where
  pub compiled : List CompiledBinding

abbrev pub init : BindingResolver
init = record { compiled = [] }

-- A pattern that throws leaves the list as it was.
unfoldable pub update_bindings :
    BindingResolver → List AgentBinding → Result PatternError BindingResolver
unfolding compile_bindings
update_bindings r bindings = do
  compiled ← compile_bindings bindings
  ok (record { compiled = compiled })

unfoldable pub first_match : List CompiledBinding → LaneMessage → Option String
unfolding matches
first_match [] m = none
first_match (b ∷ bs) m = if matches b m then some b.agent_id else first_match bs m

unfoldable pub resolve : BindingResolver → LaneMessage → Option String
unfolding first_match
resolve r m = first_match r.compiled m
