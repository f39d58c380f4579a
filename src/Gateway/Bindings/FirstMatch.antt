-- ===== src/Gateway/Bindings/FirstMatch.antt =====
-- packages/gateway/src/binding-resolver.ts: the resolver against the bindings as they are declared, read
-- as globs and without compilation.
use templar.Prelude.{
  Bool, true, false, ◌&&◌, Option, none, some, List, [], ◌∷◌, String, if◌then◌else◌, str_eq, ◌≡◌,
  refl, arith,
}
use templar.Prelude.Results.{ok, IfOk, IfOk-intro, IfOk-elim, IfOk-bind}
use templar.Gateway.Lanes.{LaneMessage}
use templar.Gateway.Bindings.{
  FieldMatcher, compile_pattern, match_field, AgentBinding, CompiledBinding, compile_field,
  compile_binding, compile_bindings, account_of, peer_of, allows, allows_present, matches,
  BindingResolver, update_bindings, first_match, resolve,
}
use templar.Gateway.Bindings.Globs.{glob, compile_pattern-glob}

-- A declared field against a value that may be missing or empty.
abbrev pub declared : Option String → Option String → Bool
declared none value = true
declared (some pattern) none = false
declared (some pattern) (some v) = if str_eq v "" then false else glob pattern v

-- A declared channel against the message's.
abbrev pub declared_channel : Option String → String → Bool
declared_channel none value = true
declared_channel (some pattern) v = glob pattern v

abbrev pub declares : AgentBinding → LaneMessage → Bool
declares b m =
    declared_channel b.match.channel m.channel_id
    && declared b.match.account_id (account_of m.routing_context)
    && declared b.match.peer_id (peer_of m.routing_context)

-- The agent of the first declared binding that fits.
abbrev pub first_declared : List AgentBinding → LaneMessage → Option String
first_declared [] m = none
first_declared (b ∷ bs) m = if declares b m then some b.agent_id else first_declared bs m

abbrev Fits : Option String → Option FieldMatcher → Type 0
Fits pattern matcher =
    ((v : String) → allows matcher v ≡ declared_channel pattern v)
    × ((value : Option String) → allows_present matcher value ≡ declared pattern value)

compile_field-Fits : (pattern : Option String) → IfOk (Fits pattern) (compile_field pattern)
unfolding compile_field
compile_field-Fits none = (λ v. refl, λ value. refl)
compile_field-Fits (some p) =
    IfOk-bind (λ matcher. (v : String) → match_field matcher v ≡ glob p v) (Fits (some p))
      (compile_pattern p) (λ matcher. ok (some matcher))
      (IfOk-intro (λ matcher. (v : String) → match_field matcher v ≡ glob p v) (compile_pattern p)
        (λ matcher e v. compile_pattern-glob p v matcher e))
      (λ matcher same. (same, fits_present matcher same))
  where
    fits_present :
        (matcher : FieldMatcher)
        → ((v : String) → match_field matcher v ≡ glob p v)
        → (value : Option String) → allows_present (some matcher) value ≡ declared (some p) value
    fits_present matcher same none = refl
    fits_present matcher same (some v) = ground (arith, same v)

abbrev Compiles : AgentBinding → CompiledBinding → Type 0
Compiles b c = (c.agent_id ≡ b.agent_id) × ((m : LaneMessage) → matches c m ≡ declares b m)

compile_binding-Compiles : (b : AgentBinding) → IfOk (Compiles b) (compile_binding b)
unfolding compile_binding matches
compile_binding-Compiles b =
    IfOk-bind (Fits b.match.channel) (Compiles b) (compile_field b.match.channel) _
      (compile_field-Fits b.match.channel)
      (λ channel fits_channel.
        IfOk-bind (Fits b.match.account_id) (Compiles b) (compile_field b.match.account_id) _
          (compile_field-Fits b.match.account_id)
          (λ account_id fits_account.
            IfOk-bind (Fits b.match.peer_id) (Compiles b) (compile_field b.match.peer_id) _
              (compile_field-Fits b.match.peer_id)
              (λ peer_id fits_peer. (
                refl,
                λ m. ground (
                  arith,
                  fits_channel.0 m.channel_id,
                  fits_account.1 (account_of m.routing_context),
                  fits_peer.1 (peer_of m.routing_context),
                ),
              ))))

Agree : List AgentBinding → List CompiledBinding → Type 0
Agree bs cs = (m : LaneMessage) → first_match cs m ≡ first_declared bs m

compile_bindings-Agree : (bs : List AgentBinding) → IfOk (Agree bs) (compile_bindings bs)
unfolding compile_bindings first_match Agree
compile_bindings-Agree [] = λ m. refl
compile_bindings-Agree (b ∷ bs) =
    IfOk-bind (Compiles b) (Agree (b ∷ bs)) (compile_binding b) _ (compile_binding-Compiles b)
      (λ c compiled.
        IfOk-bind (Agree bs) (Agree (b ∷ bs)) (compile_bindings bs) _ (compile_bindings-Agree bs)
          (λ cs agree m. ground (arith, compiled.0, compiled.1 m, agree m)))

-- Once a list of bindings is installed, a message resolves to the agent of the first binding in
-- declaration order whose declared fields, read as globs, all match the message; a declared account or
-- peer matches no message where that field is missing or empty, and without a match nothing is resolved.
pub resolve-first_declared :
    (r r' : BindingResolver) (bindings : List AgentBinding) (m : LaneMessage)
    → update_bindings r bindings ≡ ok r'
    → resolve r' m ≡ first_declared bindings m
unfolding update_bindings resolve Agree
resolve-first_declared r r' bindings m h =
    IfOk-elim (λ q. resolve q m ≡ first_declared bindings m) (update_bindings r bindings) r'
      (IfOk-bind (Agree bindings) (λ q. resolve q m ≡ first_declared bindings m)
        (compile_bindings bindings) _ (compile_bindings-Agree bindings) (λ cs agree. agree m))
      h
