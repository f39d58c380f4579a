-- ===== src/Hooks/Search.antt =====
-- packages/hooks/src/registry.ts: `findInsertIndex` ends, and finds the place after the entries of a
-- priority.
use templar.Prelude.{
  ℕ, zero, suc, ◌+◌, ◌/◌, ◌≤◌, ◌<◌, false, some, List, [], ◌∷◌, ◌++◌, if◌then◌else◌, ltb, leb,
  not-leb→lt, length, get_elem?, take, drop, All, ◌≡◌, refl, ap, ◌∙◌, arith, Bool-cases, inl, inr,
}
use templar.Hooks.{HandlerEntry, goes_before, search, find_insert_index, insert_at, inserted}

module _ {D : Type 0} where
  search-returns :
      (fuel : ℕ) (entries : List (HandlerEntry D)) (priority low high : ℕ)
      → low ≤ high
      → high < fuel + low
      → (i : ℕ) × (search fuel entries priority low high ≡ some i) × (i ≤ high)
  unfolding search
  search-returns zero entries priority low high ordered enough =
      let no : 0 < 0 = omega arith in elim no [ ]
  search-returns (suc fuel) entries priority low high ordered enough =
      elim (Bool-cases (ltb low high)) [
        | inr done ↦ rw done (low, refl, ordered)
        | inl going ↦
            elim (Bool-cases (goes_before (get_elem? entries ((low + high) / 2)) priority)) [
              | inl right ↦
                  rw (going, right)
                    (search-returns fuel entries priority ((low + high) / 2 + 1) high (ground arith)
                      (ground arith))
              | inr left ↦
                  let (i, found, bound) =
                    search-returns fuel entries priority low ((low + high) / 2) (ground arith)
                      (ground arith) in
                  rw (going, left) (i, found, ground arith)
            ]
      ]

  -- The binary search for the place of a handler ends, in a list of any order, with an index of the
  -- list or its length.
  pub find_insert_index-returns :
      (entries : List (HandlerEntry D)) (priority : ℕ)
      → (i : ℕ) × (find_insert_index entries priority ≡ some i) × (i ≤ length entries)
  unfolding find_insert_index
  find_insert_index-returns entries priority =
      search-returns (suc (length entries)) entries priority 0 (length entries) (omega arith)
        (omega arith)

  -- In order of priority.
  abbrev pub IsSorted : List (HandlerEntry D) → Type 0
  IsSorted [] = Unit
  IsSorted (e ∷ entries) = All (λ x. e.priority ≤ x.priority) entries × IsSorted entries

  -- The entries at the front that go before a priority.
  abbrev lead : List (HandlerEntry D) → ℕ → ℕ
  lead [] priority = 0
  lead (e ∷ entries) priority = if leb e.priority priority then suc (lead entries priority) else 0

  -- After all entries of its priority and of smaller ones, in the order of registration.
  abbrev pub insert_after : HandlerEntry D → List (HandlerEntry D) → List (HandlerEntry D)
  insert_after e [] = e ∷ []
  insert_after e (x ∷ entries) =
      if leb x.priority e.priority then x ∷ insert_after e entries else e ∷ x ∷ entries

  lead-le :
      (entries : List (HandlerEntry D)) (priority : ℕ) → lead entries priority ≤ length entries
  lead-le [] priority = omega arith
  lead-le (e ∷ entries) priority = ground (arith, lead-le entries priority)

  goes_after :
      (bound priority : ℕ) (entries : List (HandlerEntry D)) (j : ℕ)
      → priority < bound
      → All (λ x. bound ≤ x.priority) entries
      → goes_before (get_elem? entries j) priority ≡ false
  goes_after bound priority [] j h all = refl
  goes_after bound priority (e ∷ entries) zero h all = ground (arith, all.0)
  goes_after bound priority (e ∷ entries) (suc j) h all =
      goes_after bound priority entries j h all.1

  goes_before-lead :
      (entries : List (HandlerEntry D)) (priority j : ℕ)
      → IsSorted entries
      → j < length entries
      → goes_before (get_elem? entries j) priority ≡ ltb j (lead entries priority)
  goes_before-lead [] priority j s h = elim h [ ]
  goes_before-lead (e ∷ entries) priority zero s h = ground arith
  goes_before-lead (e ∷ entries) priority (suc j) s h =
      elim (Bool-cases (leb e.priority priority)) [
        | inl before ↦
            rw before (goes_before-lead entries priority j s.1 (omega arith) ∙ ground arith)
        | inr after ↦ rw after (
            goes_after e.priority priority entries j (not-leb→lt e.priority priority after) s.0
            ∙ ground arith)
      ]

  search-lead :
      (fuel : ℕ) (entries : List (HandlerEntry D)) (priority low high : ℕ)
      → IsSorted entries
      → low ≤ lead entries priority
      → lead entries priority ≤ high
      → high ≤ length entries
      → high < fuel + low
      → search fuel entries priority low high ≡ some (lead entries priority)
  unfolding search
  search-lead zero entries priority low high s above below inside enough =
      let no : 0 < 0 = omega arith in elim no [ ]
  search-lead (suc fuel) entries priority low high s above below inside enough =
      elim (Bool-cases (ltb low high)) [
        | inr done ↦ rw done (ap some (ground arith))
        | inl going ↦
            let at = goes_before-lead entries priority ((low + high) / 2) s (ground arith) in
            elim (Bool-cases (goes_before (get_elem? entries ((low + high) / 2)) priority)) [
              | inl right ↦
                  rw (going, right)
                    (search-lead fuel entries priority ((low + high) / 2 + 1) high s
                      (ground (arith, at, right)) below inside (ground arith))
              | inr left ↦
                  rw (going, left)
                    (search-lead fuel entries priority low ((low + high) / 2) s above
                      (ground (arith, at, left)) (ground arith) (ground arith))
            ]
      ]

  insert_at-lead :
      (e : HandlerEntry D) (entries : List (HandlerEntry D))
      → take (lead entries e.priority) entries ++ e ∷ drop (lead entries e.priority) entries
        ≡ insert_after e entries
  insert_at-lead e [] = refl
  insert_at-lead e (x ∷ entries) = elim (Bool-cases (leb x.priority e.priority)) [
    | inl before ↦ rw before (ap (λ l. x ∷ l) (insert_at-lead e entries))
    | inr after ↦ rw after
  ]

  -- Into a list in order of priority a handler is put after all entries of its priority and of smaller
  -- ones, and before the others.
  pub inserted-insert_after :
      (entries : List (HandlerEntry D)) (e : HandlerEntry D)
      → IsSorted entries
      → inserted entries e ≡ some (insert_after e entries)
  unfolding inserted find_insert_index insert_at
  inserted-insert_after entries e s =
      ap (insert_at entries e) (
        search-lead (suc (length entries)) entries e.priority 0 (length entries) s (omega arith)
          (lead-le entries e.priority) (omega arith) (omega arith))
      ∙ ap some (insert_at-lead e entries)
