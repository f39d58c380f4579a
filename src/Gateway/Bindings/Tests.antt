-- ===== src/Gateway/Bindings/Tests.antt =====
-- Runs of packages/gateway/src/binding-resolver.ts.
use templar.Prelude.{none, some, List, [], ◌∷◌, ◌≡◌, refl}
use templar.Prelude.Results.{ok, err}
use templar.Prelude.Text.{split, push_char, starts_with, index_of, count}
use templar.Gateway.Lanes.{Lane, LaneMessage, MessageType}
use templar.Gateway.Bindings.{
  FieldMatcher, prefix, suffix, interior_wildcard, multiple_wildcards, compile_pattern, match_field,
  AgentBinding, BindingResolver, compile_field, compile_binding, compile_bindings, init,
  update_bindings, first_match, matches, resolve,
}
use templar.Gateway.Bindings.Globs.{glob, compile_pattern-glob}
use templar.Gateway.Bindings.FirstMatch.{first_declared, resolve-first_declared}

compile_prefix : compile_pattern "wa-*" ≡ ok (prefix "wa-")
unfolding compile_pattern split push_char index_of count
compile_prefix = refl

compile_suffix : compile_pattern "*-me" ≡ ok (suffix "-me")
unfolding compile_pattern split push_char index_of count
compile_suffix = refl

compile_interior : compile_pattern "a*b" ≡ err (interior_wildcard "a*b")
unfolding compile_pattern split push_char index_of count
compile_interior = refl

compile_contains : compile_pattern "*a*" ≡ err (multiple_wildcards "*a*")
unfolding compile_pattern split push_char index_of count
compile_contains = refl

compile_pattern-glob_example : match_field (suffix "-me") "it-me" ≡ glob "*-me" "it-me"
compile_pattern-glob_example = compile_pattern-glob "*-me" "it-me" (suffix "-me") compile_suffix

-- A rule for one account's channels, and one for all messages.
abbrev bindings : List AgentBinding
bindings =
    record {
      agent_id = "work";
      match = record { channel = some "wa-*"; account_id = some "acme"; peer_id = none };
    }
    ∷ record {
      agent_id = "home";
      match = record { channel = none; account_id = none; peer_id = none };
    }
    ∷ []

abbrev resolver : BindingResolver
resolver = record {
  compiled =
      record {
        agent_id = "work";
        matchers = record {
          channel = some (prefix "wa-");
          account_id = some (FieldMatcher.exact "acme");
          peer_id = none;
        };
      }
      ∷ record {
        agent_id = "home";
        matchers = record { channel = none; account_id = none; peer_id = none };
      }
      ∷ [];
}

abbrev message : LaneMessage
message = record {
  id = "m1";
  lane = Lane.interrupt;
  channel_id = "wa-1";
  payload = "";
  timestamp = 0;
  routing_context = some (record {
    peer_id = some "ann";
    account_id = some "acme";
    group_id = none;
    message_type = some MessageType.dm;
  });
}

update_resolver : update_bindings init bindings ≡ ok resolver
unfolding update_bindings compile_bindings compile_binding compile_field compile_pattern split
    push_char index_of count
update_resolver = refl

resolve_work : resolve resolver message ≡ some "work"
unfolding resolve first_match matches match_field starts_with
resolve_work = refl

resolve_home : resolve resolver (record message { routing_context = none }) ≡ some "home"
unfolding resolve first_match matches match_field starts_with
resolve_home = refl

resolve-first_declared_example : resolve resolver message ≡ first_declared bindings message
resolve-first_declared_example =
    resolve-first_declared init resolver bindings message update_resolver
