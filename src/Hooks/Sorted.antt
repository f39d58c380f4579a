-- ===== src/Hooks/Sorted.antt =====
-- packages/hooks/src/registry.ts: the handlers of each event stay in order of priority.
use templar.Prelude.{
  ℕ, ◌≤◌, Option, none, some, List, [], ◌∷◌, String, ltb, leb, leb→le, not-leb→lt, ◌==◌, All, sym,
  subst, arith, Bool-cases, inl, inr,
}
use templar.Prelude.Maps.{lookup, Each, Holds}
use templar.Prelude.Domains.{Each-insert, Each-erase}
use templar.Hooks.{
  HandlerEntry, Reply, HookRegistry, init, or_empty, entries_of, register_handler, without_handler,
  store_rest, remove_handler, cleanup_once_entries, is_interceptor_event, emit_entries,
  finish_emission, emit_to, emit, clear_event, set_entries,
}
use templar.Hooks.Search.{IsSorted, insert_after, inserted-insert_after}

pub data Call (D : Type 0) : Type 0 where
  registers : (event : String) → HandlerEntry D → Call D
  removes : (event : String) (handler : ℕ) → Call D
  emits : (event : String) → D → (depth : ℕ) → Call D
  clears : (event : Option String) → Call D

module _ {D : Type 0} where
  insert_after-All :
      (bound : ℕ) (e : HandlerEntry D) (entries : List (HandlerEntry D))
      → bound ≤ e.priority
      → All (λ x. bound ≤ x.priority) entries
      → All (λ x. bound ≤ x.priority) (insert_after e entries)
  insert_after-All bound e [] h all = (h, tt)
  insert_after-All bound e (x ∷ entries) h all = elim (Bool-cases (leb x.priority e.priority)) [
    | inl before ↦ rw before (all.0, insert_after-All bound e entries h all.1)
    | inr after ↦ rw after (h, all)
  ]

  weaken :
      (small large : ℕ) (entries : List (HandlerEntry D))
      → small ≤ large
      → All (λ x. large ≤ x.priority) entries
      → All (λ x. small ≤ x.priority) entries
  weaken small large [] h all = tt
  weaken small large (e ∷ entries) h all =
      (omega (arith, all.0), weaken small large entries h all.1)

  insert_after-IsSorted :
      (e : HandlerEntry D) (entries : List (HandlerEntry D))
      → IsSorted entries
      → IsSorted (insert_after e entries)
  insert_after-IsSorted e [] s = (tt, tt)
  insert_after-IsSorted e (x ∷ entries) s = elim (Bool-cases (leb x.priority e.priority)) [
    | inl before ↦ rw before (
      insert_after-All x.priority e entries (leb→le x.priority e.priority before) s.0,
      insert_after-IsSorted e entries s.1,
    )
    | inr after ↦
        let h : e.priority ≤ x.priority = omega (arith, not-leb→lt x.priority e.priority after) in
        rw after ((h, weaken e.priority x.priority entries h s.0), s)
  ]

  abbrev HoldsIn : (List (HandlerEntry D) → Type 0) → Option (List (HandlerEntry D)) → Type 0
  HoldsIn P none = Unit
  HoldsIn P (some entries) = P entries

  without_handler-All :
      (bound h : ℕ) (entries : List (HandlerEntry D))
      → All (λ x. bound ≤ x.priority) entries
      → HoldsIn (All (λ x. bound ≤ x.priority)) (without_handler h entries)
  unfolding without_handler
  without_handler-All bound h [] all = tt
  without_handler-All bound h (e ∷ entries) all = elim (Bool-cases (e.handler == h)) [
    | inl found ↦ rw found all.1
    | inr other ↦
        rw other (kept (without_handler h entries) (without_handler-All bound h entries all.1))
  ]
    where
      kept :
          (o : Option (List (HandlerEntry D)))
          → HoldsIn (All (λ x. bound ≤ x.priority)) o
          → HoldsIn (All (λ x. bound ≤ x.priority)) (elim o [ none ↦ none | some l ↦ some (e ∷ l) ])
      kept none held = tt
      kept (some l) held = (all.0, held)

  without_handler-IsSorted :
      (h : ℕ) (entries : List (HandlerEntry D))
      → IsSorted entries
      → HoldsIn IsSorted (without_handler h entries)
  unfolding without_handler
  without_handler-IsSorted h [] s = tt
  without_handler-IsSorted h (e ∷ entries) s = elim (Bool-cases (e.handler == h)) [
    | inl found ↦ rw found s.1
    | inr other ↦ rw other (
        kept (without_handler h entries) (without_handler-All e.priority h entries s.0)
          (without_handler-IsSorted h entries s.1))
  ]
    where
      kept :
          (o : Option (List (HandlerEntry D)))
          → HoldsIn (All (λ x. e.priority ≤ x.priority)) o
          → HoldsIn IsSorted o
          → HoldsIn IsSorted (elim o [ none ↦ none | some l ↦ some (e ∷ l) ])
      kept none all held = tt
      kept (some l) all held = (all, held)

  abbrev Ordered : HookRegistry D → Type 0
  Ordered r = Each (λ event entries. IsSorted entries) r.handlers

  entries-IsSorted :
      (r : HookRegistry D) (event : String) → Ordered r → IsSorted (entries_of r event)
  entries-IsSorted r event v = held (lookup event r.handlers) (v event)
    where
      held :
          (o : Option (List (HandlerEntry D)))
          → Holds (λ event entries. IsSorted entries) event o
          → IsSorted (or_empty o)
      held none h = tt
      held (some entries) h = h

  register-Ordered :
      (r : HookRegistry D) (event : String) (e : HandlerEntry D)
      → Ordered r
      → Ordered (register_handler r event e)
  unfolding register_handler
  register-Ordered r event e v =
      let s = entries-IsSorted r event v in
      subst (λ o. Ordered (elim o [ none ↦ r | some entries ↦ set_entries r event entries ]))
        (sym (inserted-insert_after (entries_of r event) e s))
        (Each-insert (λ event entries. IsSorted entries) event (insert_after e (entries_of r event))
          r.handlers (insert_after-IsSorted e (entries_of r event) s) v)

  store_rest-Ordered :
      (r : HookRegistry D) (event : String) (o : Option (List (HandlerEntry D)))
      → HoldsIn IsSorted o
      → Ordered r
      → Ordered (store_rest r event o)
  unfolding store_rest
  store_rest-Ordered r event none s v = v
  store_rest-Ordered r event (some []) s v =
      Each-erase (λ event entries. IsSorted entries) event r.handlers v
  store_rest-Ordered r event (some (e ∷ entries)) s v =
      Each-insert (λ event entries. IsSorted entries) event (e ∷ entries) r.handlers s v

  remove-Ordered :
      (r : HookRegistry D) (event : String) (h : ℕ) → Ordered r → Ordered (remove_handler r event h)
  unfolding remove_handler
  remove-Ordered r event h v =
      store_rest-Ordered r event (without_handler h (entries_of r event))
        (without_handler-IsSorted h (entries_of r event) (entries-IsSorted r event v)) v

  cleanup-Ordered :
      (r : HookRegistry D) (event : String) (fired : List (HandlerEntry D))
      → Ordered r
      → Ordered (cleanup_once_entries r event fired)
  unfolding cleanup_once_entries
  cleanup-Ordered r event [] v = v
  cleanup-Ordered r event (e ∷ fired) v =
      cleanup-Ordered (remove_handler r event e.handler) event fired
        (remove-Ordered r event e.handler v)

  module _ (call : ℕ → D → Reply D) where
    emit_to-Ordered :
        (r : HookRegistry D) (event : String) (input : D) (depth : ℕ)
        (entries : List (HandlerEntry D))
        → Ordered r
        → Ordered (emit_to call r event input depth entries).0
    unfolding emit_to finish_emission
    emit_to-Ordered r event input depth [] v = v
    emit_to-Ordered r event input depth (e ∷ entries) v =
        elim (Bool-cases (ltb r.max_depth depth)) [
          | inl deep ↦ rw deep v
          | inr shallow ↦ rw shallow (
              cleanup-Ordered r event
                (emit_entries call (is_interceptor_event event) (e ∷ entries) input).fired v)
        ]

    unfoldable pub step : HookRegistry D → Call D → HookRegistry D
    step r (registers event e) = register_handler r event e
    step r (removes event h) = remove_handler r event h
    step r (emits event input depth) = (emit call r event input depth).0
    step r (clears event) = clear_event r event

    unfoldable pub run : HookRegistry D → List (Call D) → HookRegistry D
    run r [] = r
    run r (c ∷ calls) = run (step r c) calls

    step-Ordered : (r : HookRegistry D) (c : Call D) → Ordered r → Ordered (step r c)
    unfolding step emit clear_event lookup
    step-Ordered r (registers event e) v = register-Ordered r event e v
    step-Ordered r (removes event h) v = remove-Ordered r event h v
    step-Ordered r (emits event input depth) v =
        emit_to-Ordered r event input depth (entries_of r event) v
    step-Ordered r (clears none) v = λ k. tt
    step-Ordered r (clears (some event)) v =
        Each-erase (λ event entries. IsSorted entries) event r.handlers v

    run-Ordered : (r : HookRegistry D) (calls : List (Call D)) → Ordered r → Ordered (run r calls)
    unfolding run
    run-Ordered r [] v = v
    run-Ordered r (c ∷ calls) v = run-Ordered (step r c) calls (step-Ordered r c v)

    -- After any sequence of registrations, removals, emissions and clearings, whatever the handlers
    -- reply, the handlers of every event stand in order of priority.
    pub hooks_run-IsSorted :
        (max_depth : ℕ) (calls : List (Call D)) (event : String)
        → IsSorted (entries_of (run (init max_depth) calls) event)
    unfolding lookup
    hooks_run-IsSorted max_depth calls event =
        entries-IsSorted (run (init max_depth) calls) event
          (run-Ordered (init max_depth) calls (λ k. tt))
