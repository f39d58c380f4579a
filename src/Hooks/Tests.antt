-- ===== src/Hooks/Tests.antt =====
-- Runs of packages/hooks/src/registry.ts on numbers.
use templar.Prelude.{
  if◌then◌else◌, ◌==◌, ℕ, ◌+◌, ◌≤◌, Bool, true, false, none, some, List, [], ◌∷◌, ◌≡◌, refl, arith,
}
use templar.Prelude.Maps.{lookup}
use templar.Prelude.Results.{ok}
use templar.Hooks.{
  HandlerEntry, HookRegistry, continue, block, modify, Reply, returns, throws, init, entries_of,
  find_insert_index, search, inserted, emit,
}
use templar.Hooks.Search.{IsSorted, insert_after, find_insert_index-returns, inserted-insert_after}
use templar.Hooks.Sorted.{Call, registers, removes, emits, run, hooks_run-IsSorted}
use templar.Hooks.Waterfall.{ends, modifies, continues, emit-Flows, emit-blocks}

-- Handler 1 adds one, 2 continues, 3 blocks, and the others throw.
abbrev call : ℕ → ℕ → Reply ℕ
call h input =
    if h == 1
    then returns (modify (input + 1))
    else if h == 2
    then returns continue
    else if h == 3
    then returns (block "no")
    else throws

abbrev entry : ℕ → ℕ → Bool → HandlerEntry ℕ
entry handler priority once = record {
  handler = handler;
  priority = priority;
  timeout = 30000;
  once = once;
  match = none;
}

abbrev entries : List (HandlerEntry ℕ)
entries = entry 1 0 false ∷ entry 2 100 false ∷ entry 3 100 false ∷ []

find_normal : find_insert_index entries 100 ≡ some 3
unfolding find_insert_index search
find_normal = refl

find_high : find_insert_index entries 25 ≡ some 1
unfolding find_insert_index search
find_high = refl

find_insert_index-returns_example : (i : ℕ) × (find_insert_index entries 25 ≡ some i) × (i ≤ 3)
find_insert_index-returns_example = find_insert_index-returns entries 25

entries-IsSorted : IsSorted entries
entries-IsSorted = ((omega arith, (omega arith, tt)), ((omega arith, tt), (tt, tt)))

inserted-insert_after_example :
    inserted entries (entry 4 25 false) ≡ some (insert_after (entry 4 25 false) entries)
inserted-insert_after_example = inserted-insert_after entries (entry 4 25 false) entries-IsSorted

abbrev calls : List (Call ℕ)
calls =
    registers "PreMessage" (entry 2 100 true)
    ∷ registers "PreMessage" (entry 1 0 false)
    ∷ registers "PreMessage" (entry 3 25 false)
    ∷ emits "PreMessage" 7 1
    ∷ removes "PreMessage" 3
    ∷ []

hooks_run-IsSorted_example : IsSorted (entries_of (run call (init 10) calls) "PreMessage")
hooks_run-IsSorted_example = hooks_run-IsSorted call 10 calls "PreMessage"

abbrev registry : List (HandlerEntry ℕ) → HookRegistry ℕ
registry l = record { handlers = ("PreMessage", l) ∷ []; max_depth = 10 }

abbrev passing : List (HandlerEntry ℕ)
passing = entry 1 0 false ∷ entry 2 100 false ∷ []

known : (l : List (HandlerEntry ℕ)) → lookup "PreMessage" (registry l).handlers ≡ some l
unfolding lookup
known l = refl

listed : (l : List (HandlerEntry ℕ)) → entries_of (registry l) "PreMessage" ≡ l
unfolding lookup
listed l = refl

emit-Flows_example : (emit call (registry passing) "PreMessage" 7 1).1 ≡ ok (modify 8)
emit-Flows_example =
    emit-Flows call (registry passing) "PreMessage" passing 7 8 1 true refl refl (listed passing) (
      modifies (entry 1 0 false) (entry 2 100 false ∷ []) 7 8 8 false true refl refl
        (continues (entry 2 100 false) [] 8 8 true true refl refl (ends 8 true)))

emit-blocks_example : (emit call (registry entries) "PreMessage" 7 1).1 ≡ ok (block "no")
emit-blocks_example =
    emit-blocks call (registry entries) "PreMessage" "no" passing [] (entry 3 100 false) 7 8 1 true
      refl refl (listed entries)
      (modifies (entry 1 0 false) (entry 2 100 false ∷ []) 7 8 8 false true refl refl
        (continues (entry 2 100 false) [] 8 8 true true refl refl (ends 8 true)))
      refl refl

abbrev shared : List (HandlerEntry ℕ)
shared = entry 1 0 false ∷ entry 2 0 false ∷ entry 2 100 true ∷ []
