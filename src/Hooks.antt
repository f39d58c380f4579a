-- ===== src/Hooks.antt =====
-- packages/hooks/src/registry.ts. A handler is a number, its identity, and `call` tells what
-- `runWithTimeout` gives for it on some data; a matching predicate is a function, `none` where it
-- throws. Handlers and predicates do not call the registry. An event has one type of data, priorities
-- and times are natural numbers, and the texts of errors and the reports of observers' errors are not
-- modelled.
pub mod Search
pub mod Sorted
pub mod Waterfall
pub mod Once
mod Tests
use templar.Prelude.{
  ℕ, zero, suc, ◌+◌, ◌/◌, Bool, true, false, Option, none, some, List, [], ◌∷◌, ◌++◌, String,
  if◌then◌else◌, ltb, leb, ◌==◌, length, get_elem?, take, drop, any, str_eq,
}
use templar.Prelude.Maps.{Map, lookup, insert, erase}
use templar.Prelude.Results.{Result, ok, err}

pub record HandlerEntry (D : Type 0) : Type 0 where
  pub handler : ℕ
  pub priority : ℕ
  pub timeout : ℕ
  pub once : Bool
  pub match : Option (D → Option Bool)

pub data HookResult (D : Type 0) : Type 0 where
  continue : HookResult D
  block : (reason : String) → HookResult D
  modify : D → HookResult D

-- What a handler gives: a result, a value that is no result, or an error.
pub data Reply (D : Type 0) : Type 0 where
  returns : HookResult D → Reply D
  malformed throws times_out reenters : Reply D

pub data HookError : Type 0 where
  execution timeout reentrancy : HookError

abbrev pub interceptor_events : List String
interceptor_events =
    "PreToolUse" ∷ "PreModelCall" ∷ "PreModelSelect" ∷ "PreMessage" ∷ "BudgetExhausted"
    ∷ "PreCompact" ∷ "LoopDetected" ∷ "PreSubagentSpawn" ∷ []

abbrev pub is_interceptor_event : String → Bool
is_interceptor_event event = any (λ e. str_eq e event) interceptor_events

pub record HookRegistry (D : Type 0) : Type 0 where
  pub handlers : Map (List (HandlerEntry D))
  pub max_depth : ℕ

-- What an emission leaves: its outcome and the once entries that fired.
pub record Emission (D : Type 0) : Type 0 where
  pub outcome : Result HookError (HookResult D)
  pub fired : List (HandlerEntry D)

module _ {D : Type 0} where
  abbrev pub init : ℕ → HookRegistry D
  init max_depth = record { handlers = []; max_depth = max_depth }

  abbrev pub or_empty : Option (List (HandlerEntry D)) → List (HandlerEntry D)
  or_empty none = []
  or_empty (some entries) = entries

  -- `midEntry !== undefined && midEntry.priority <= priority`
  abbrev pub goes_before : Option (HandlerEntry D) → ℕ → Bool
  goes_before none priority = false
  goes_before (some e) priority = leb e.priority priority

  -- The loop of `findInsertIndex`; `none` is the end of the fuel.
  pub search : ℕ → List (HandlerEntry D) → ℕ → ℕ → ℕ → Option ℕ
  search zero entries priority low high = none
  search (suc fuel) entries priority low high =
      let mid = (low + high) / 2 in
      let right = search fuel entries priority (mid + 1) high in
      let left = search fuel entries priority low mid in
      if ltb low high
      then if goes_before (get_elem? entries mid) priority then right else left
      else some low

  pub find_insert_index : List (HandlerEntry D) → ℕ → Option ℕ
  unfolding search
  find_insert_index entries priority =
      search (suc (length entries)) entries priority 0 (length entries)

  pub insert_at : List (HandlerEntry D) → HandlerEntry D → Option ℕ → Option (List (HandlerEntry D))
  insert_at entries e none = none
  insert_at entries e (some i) = some (take i entries ++ e ∷ drop i entries)

  -- `[...existing.slice(0, insertIdx), entry, ...existing.slice(insertIdx)]`
  pub inserted : List (HandlerEntry D) → HandlerEntry D → Option (List (HandlerEntry D))
  unfolding insert_at find_insert_index
  inserted entries e = insert_at entries e (find_insert_index entries e.priority)

  abbrev pub set_entries : HookRegistry D → String → List (HandlerEntry D) → HookRegistry D
  set_entries r event entries = record r { handlers = insert event entries r.handlers }

  abbrev pub entries_of : HookRegistry D → String → List (HandlerEntry D)
  entries_of r event = or_empty (lookup event r.handlers)

  -- `registerHandler` after the checks of its options; the fuel of the search does not end.
  pub register_handler : HookRegistry D → String → HandlerEntry D → HookRegistry D
  unfolding inserted
  register_handler r event e = elim (inserted (entries_of r event) e) [
    | none ↦ r
    | some entries ↦ set_entries r event entries
  ]

  -- The list without the first entry of a handler, `none` if there is no such entry.
  pub without_handler : ℕ → List (HandlerEntry D) → Option (List (HandlerEntry D))
  without_handler h [] = none
  without_handler h (e ∷ entries) =
      let rest = without_handler h entries in
      if e.handler == h
      then some entries
      else elim rest [ none ↦ none | some kept ↦ some (e ∷ kept) ]

  pub store_rest : HookRegistry D → String → Option (List (HandlerEntry D)) → HookRegistry D
  store_rest r event none = r
  store_rest r event (some []) = record r { handlers = erase event r.handlers }
  store_rest r event (some (e ∷ entries)) = set_entries r event (e ∷ entries)

  -- An event without entries is like one with none of the handler.
  pub remove_handler : HookRegistry D → String → ℕ → HookRegistry D
  unfolding without_handler store_rest
  remove_handler r event h = store_rest r event (without_handler h (entries_of r event))

  pub cleanup_once_entries : HookRegistry D → String → List (HandlerEntry D) → HookRegistry D
  unfolding remove_handler
  cleanup_once_entries r event [] = r
  cleanup_once_entries r event (e ∷ fired) =
      cleanup_once_entries (remove_handler r event e.handler) event fired

  abbrev pub matched : Option (D → Option Bool) → D → Option Bool
  matched none input = some true
  matched (some predicate) input = predicate input

  abbrev pub once_of : HandlerEntry D → List (HandlerEntry D)
  once_of e = if e.once then e ∷ [] else []

  abbrev pub after_entry : HandlerEntry D → Emission D → Emission D
  after_entry e m = record m { fired = once_of e ++ m.fired }

  abbrev pub fails : HookError → List (HandlerEntry D) → Emission D
  fails error fired = record { outcome = err error; fired = fired }

  module _ (call : ℕ → D → Reply D) where
    -- The loop of `emitInterceptor`.
    pub run_entries : List (HandlerEntry D) → D → Bool → Emission D
    run_entries [] input modified = record {
      outcome = ok (if modified then modify input else continue);
      fired = [];
    }
    run_entries (e ∷ entries) input modified = elim (matched e.match input) [
      | none ↦ fails execution []
      | some false ↦ run_entries entries input modified
      | some true ↦ elim (call e.handler input) [
        | returns continue ↦ after_entry e (run_entries entries input modified)
        | returns (block reason) ↦ record { outcome = ok (block reason); fired = once_of e }
        | returns (modify input') ↦ after_entry e (run_entries entries input' true)
        | malformed ↦ fails execution []
        | throws ↦ fails execution (once_of e)
        | times_out ↦ fails timeout (once_of e)
        | reenters ↦ fails reentrancy (once_of e)
      ]
    ]

    -- The loop of `emitObserver`: only a re-entrancy error stops it. A value that a handler returns is
    -- ignored, and `continue` stands for no result.
    pub observe_entries : List (HandlerEntry D) → D → Emission D
    observe_entries [] input = record { outcome = ok continue; fired = [] }
    observe_entries (e ∷ entries) input =
        let rest = observe_entries entries input in
        elim (matched e.match input) [
          | none ↦ rest
          | some false ↦ rest
          | some true ↦ elim (call e.handler input) [
            | reenters ↦ fails reentrancy (once_of e)
            | _ ↦ after_entry e rest
          ]
        ]

    pub emit_entries : Bool → List (HandlerEntry D) → D → Emission D
    unfolding run_entries observe_entries
    emit_entries true entries input = run_entries entries input false
    emit_entries false entries input = observe_entries entries input

    pub finish_emission :
        HookRegistry D → String → Emission D → HookRegistry D × Result HookError (HookResult D)
    unfolding cleanup_once_entries
    finish_emission r event m = (cleanup_once_entries r event m.fired, m.outcome)

    pub emit_to :
        HookRegistry D
        → String
        → D
        → ℕ
        → List (HandlerEntry D)
        → HookRegistry D × Result HookError (HookResult D)
    unfolding emit_entries finish_emission
    emit_to r event input depth [] = (r, ok continue)
    emit_to r event input depth (e ∷ entries) =
        if ltb r.max_depth depth
        then (r, err reentrancy)
        else finish_emission r event (emit_entries (is_interceptor_event event) (e ∷ entries) input)

    -- `emit`, at a depth that counts this call.
    pub emit : HookRegistry D → String → D → ℕ → HookRegistry D × Result HookError (HookResult D)
    unfolding emit_to
    emit r event input depth = emit_to r event input depth (entries_of r event)

  pub clear_event : HookRegistry D → Option String → HookRegistry D
  clear_event r none = record r { handlers = [] }
  clear_event r (some event) = record r { handlers = erase event r.handlers }

  pub handler_count : HookRegistry D → String → ℕ
  handler_count r event = length (entries_of r event)
