-- ===== src/Hooks/Waterfall.antt =====
-- packages/hooks/src/registry.ts: what the interceptors of an event do to its data.
use templar.Prelude.{
  ℕ, Bool, true, false, some, List, [], ◌∷◌, ◌++◌, if◌then◌else◌, ◌≡◌, refl, sym, ap, ◌∙◌, arith,
  ltb, String,
}
use mathlib.Core.List.{append-nil}
use templar.Prelude.Results.{ok}
use templar.Hooks.{
  HandlerEntry, continue, block, modify, Reply, returns, matched, run_entries, HookRegistry,
  entries_of, is_interceptor_event, emit, emit_to, emit_entries, finish_emission,
}

module _ {D : Type 0} (call : ℕ → D → Reply D) where
  -- Data flows through handlers: one that does not match or continues leaves it, one that modifies it
  -- hands on its own.
  pub data Flows : List (HandlerEntry D) → D → Bool → D → Bool → Type 0 where
    ends : (input : D) (modified : Bool) → Flows [] input modified input modified
    skips :
        (e : HandlerEntry D) (entries : List (HandlerEntry D)) (input output : D) (m n : Bool)
        → matched e.match input ≡ some false
        → Flows entries input m output n
        → Flows (e ∷ entries) input m output n
    continues :
        (e : HandlerEntry D) (entries : List (HandlerEntry D)) (input output : D) (m n : Bool)
        → matched e.match input ≡ some true
        → call e.handler input ≡ returns continue
        → Flows entries input m output n
        → Flows (e ∷ entries) input m output n
    modifies :
        (e : HandlerEntry D) (entries : List (HandlerEntry D)) (input next output : D) (m n : Bool)
        → matched e.match input ≡ some true
        → call e.handler input ≡ returns (modify next)
        → Flows entries next true output n
        → Flows (e ∷ entries) input m output n

  -- What data comes out of the handlers in front is what the rest starts with.
  Flows-run_entries :
      (front back : List (HandlerEntry D)) (input output : D) (m n : Bool)
      → Flows front input m output n
      → (run_entries call (front ++ back) input m).outcome
        ≡ (run_entries call back output n).outcome
  unfolding run_entries
  Flows-run_entries _ back _ _ _ _ (ends input m) = refl
  Flows-run_entries _ back _ _ _ _ (skips e front input output m n other rest) =
      ground (arith, other) ∙ Flows-run_entries front back input output m n rest
  Flows-run_entries _ back _ _ _ _ (continues e front input output m n fits reply rest) =
      ground (arith, fits, reply) ∙ Flows-run_entries front back input output m n rest
  Flows-run_entries _ back _ _ _ _ (modifies e front input next output m n fits reply rest) =
      ground (arith, fits, reply) ∙ Flows-run_entries front back next output true n rest

  emit_to-flows :
      (r : HookRegistry D) (event : String) (entries : List (HandlerEntry D)) (input : D)
      (depth : ℕ)
      → is_interceptor_event event ≡ true
      → ltb r.max_depth depth ≡ false
      → (emit_to call r event input depth entries).1
        ≡ (run_entries call entries input false).outcome
  unfolding emit_to finish_emission emit_entries run_entries
  emit_to-flows r event [] input depth intercepts shallow = refl
  emit_to-flows r event (e ∷ entries) input depth intercepts shallow = rw (shallow, intercepts)

  -- If the data of an interceptor event flows through all its handlers, none of which blocks or fails,
  -- the emission answers with what came out if a handler modified it, and else that nothing changed.
  pub emit-Flows :
      (r : HookRegistry D) (event : String) (entries : List (HandlerEntry D)) (input output : D)
      (depth : ℕ) (modified : Bool)
      → is_interceptor_event event ≡ true
      → ltb r.max_depth depth ≡ false
      → entries_of r event ≡ entries
      → Flows entries input false output modified
      → (emit call r event input depth).1 ≡ ok (if modified then modify output else continue)
  unfolding emit run_entries
  emit-Flows r event entries input output depth modified intercepts shallow known flows =
      emit_to-flows r event (entries_of r event) input depth intercepts shallow
      ∙ ap (λ l. (run_entries call l input false).outcome) (known ∙ sym (append-nil entries))
      ∙ Flows-run_entries entries [] input output false modified flows

  -- If the data flows through the handlers in front and the next handler matches what came out and
  -- blocks it, the emission answers with that block, and the handlers behind have no part in it.
  pub emit-blocks :
      (r : HookRegistry D) (event reason : String) (front back : List (HandlerEntry D))
      (e : HandlerEntry D) (input output : D) (depth : ℕ) (modified : Bool)
      → is_interceptor_event event ≡ true
      → ltb r.max_depth depth ≡ false
      → entries_of r event ≡ front ++ e ∷ back
      → Flows front input false output modified
      → matched e.match output ≡ some true
      → call e.handler output ≡ returns (block reason)
      → (emit call r event input depth).1 ≡ ok (block reason)
  unfolding emit run_entries
  emit-blocks r event reason front back e input output depth modified intercepts shallow known flows
        fits reply =
      emit_to-flows r event (entries_of r event) input depth intercepts shallow
      ∙ ap (λ l. (run_entries call l input false).outcome) known
      ∙ Flows-run_entries front (e ∷ back) input output false modified flows
      ∙ ground (arith, fits, reply)
