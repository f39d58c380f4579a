-- ===== src/Approvals/Allowlist/Eviction.antt =====
-- The cap and the eviction of packages/exec-approvals/src/allowlist.ts.
use templar.Prelude.{
  ℕ, ◌+◌, ◌≤◌, ◌<◌, ◌≡◌, refl, sym, ap, subst, ◌∙◌, false, Bool-cases, none, some, Option-cases,
  List, [], ◌∷◌, String, arith, inl, inr, leb, ltb, leb→le, not-leb→lt, if◌then◌else◌, eq_iff,
  eq_refl, All,
}
use templar.Prelude.Maps.{
  Map, lookup, insert, erase, size, size-insert, size-insert-le, size-erase, Unique, insert-Unique,
  erase-Unique,
}
use templar.Approvals.Allowlist.{
  AllowlistStore, AllowlistEntry, init, find_oldest, without, evict_oldest, make_room, put,
  record_approval, approved_entry, load_from, load_entries, add_pattern, approvals,
  to_dirty_entries, found_entries,
}

abbrev pub IsOldest : AllowlistEntry → Map AllowlistEntry → Type 0
IsOldest e m = All (λ f. e.last_approved_at ≤ f.1.last_approved_at) m

-- What the loop finds, from a best so far: it is as old as that best and as all the entries.
find_oldest-some :
    (k : String) (e : AllowlistEntry) (m : Map AllowlistEntry)
    → (k' : String) × (e' : AllowlistEntry) × (find_oldest (some (k, e)) m ≡ some (k', e'))
      × (e'.last_approved_at ≤ e.last_approved_at)
      × IsOldest e' m
unfolding find_oldest
find_oldest-some k e [] = (k, e, refl, omega arith, tt)
find_oldest-some k e ((j, f) ∷ m) = elim (Bool-cases (ltb f.last_approved_at e.last_approved_at)) [
  | inl older ↦
      let (k', e', found, le, all) = find_oldest-some j f m in
      rw older (k', e', found, ground (arith, older, le), (le, all))
  | inr younger ↦
      let (k', e', found, le, all) = find_oldest-some k e m in
      rw younger (k', e', found, le, (ground (arith, younger, le), all))
]

find_oldest-lookup :
    (k : String) (e : AllowlistEntry) (m : Map AllowlistEntry) (k' : String) (e' : AllowlistEntry)
    → Unique ((k, e) ∷ m)
    → find_oldest (some (k, e)) m ≡ some (k', e')
    → lookup k' ((k, e) ∷ m) ≡ some e'
unfolding find_oldest Unique lookup
find_oldest-lookup k e [] k' e' u h = ground (arith, h, eq_refl k')
find_oldest-lookup k e ((j, f) ∷ m) k' e' u h =
    elim (Bool-cases (ltb f.last_approved_at e.last_approved_at)) [
      | inl older ↦
          let h' : find_oldest (some (j, f)) m ≡ some (k', e') =
            (ap (λ b. find_oldest (if b then some (j, f) else some (k, e)) m) (sym older) ∙ h) in
          ground (arith, u, eq_iff k k', find_oldest-lookup j f m k' e' u.1 h')
      | inr younger ↦
          let h' : find_oldest (some (k, e)) m ≡ some (k', e') =
            (ap (λ b. find_oldest (if b then some (j, f) else some (k, e)) m) (sym younger) ∙ h) in
          let absent : lookup k m ≡ none = ground (arith, u.0) in
          ground
            (arith, u, eq_iff k k', eq_iff j k', find_oldest-lookup k e m k' e' (absent, u.1.1) h')
    ]

-- An entry that was approved no later than any other, and what is left without it.
pub record Evicted (entries left : Map AllowlistEntry) : Type 0 where
  pub key : String
  pub entry : AllowlistEntry
  pub was_there : lookup key entries ≡ some entry
  pub oldest : IsOldest entry entries
  pub left_is : left ≡ erase key entries

evict_oldest-Evicted :
    (entries : Map AllowlistEntry)
    → Unique entries
    → 0 < size entries
    → Evicted entries (evict_oldest entries)
unfolding evict_oldest find_oldest
evict_oldest-Evicted [] u pos = absurd (omega (arith, pos))
evict_oldest-Evicted ((k, e) ∷ m) u pos =
    let (k', e', found, le, all) = find_oldest-some k e m in
    record {
      key = k';
      entry = e';
      was_there = find_oldest-lookup k e m k' e' u found;
      oldest = (le, all);
      left_is = ap (without ((k, e) ∷ m)) found;
    }

-- A pattern that is approved for the first time, when a store of a positive size is full,
-- displaces an entry that was approved no later than any other; the entries have distinct
-- patterns.
pub record_approval-Evicted :
    (s : AllowlistStore) (p : String) (threshold now : ℕ)
    → Unique s.entries
    → lookup p s.entries ≡ none
    → 0 < s.max_patterns
    → s.max_patterns ≤ size s.entries
    → (left : Map AllowlistEntry) × Evicted s.entries left
      × ((record_approval s p threshold now).entries
          ≡ insert p (approved_entry p 1 threshold now) left)
unfolding record_approval make_room put
record_approval-Evicted s p threshold now u fresh pos full = (
  evict_oldest s.entries,
  evict_oldest-Evicted s.entries u (omega (arith, pos, full)),
  ground (arith, fresh, full),
)

-- The entries have distinct patterns and are at most `max_patterns`.
pub record IsCapped (s : AllowlistStore) : Type 0 where
  pub unique : Unique s.entries
  pub capped : size s.entries ≤ s.max_patterns

make_room-size :
    (max_patterns : ℕ) (entries : Map AllowlistEntry)
    → 0 < max_patterns
    → Unique entries
    → size entries ≤ max_patterns
    → Unique (make_room max_patterns entries)
      × (size (make_room max_patterns entries) < max_patterns)
unfolding make_room
make_room-size max_patterns entries pos u h = elim (Bool-cases (leb max_patterns (size entries))) [
  | inl full ↦
      let ev =
        evict_oldest-Evicted entries u
          (omega (arith, pos, leb→le max_patterns (size entries) full)) in
      rw full (
        subst Unique (sym ev.left_is) (erase-Unique ev.key entries u),
        omega (arith, ap size ev.left_is, size-erase ev.key ev.entry entries u ev.was_there),
      )
  | inr room ↦ rw room (u, not-leb→lt max_patterns (size entries) room)
]

record_approval-IsCapped :
    (s : AllowlistStore) (p : String) (threshold now : ℕ)
    → 0 < s.max_patterns
    → IsCapped s
    → IsCapped (record_approval s p threshold now)
      × ((record_approval s p threshold now).max_patterns ≡ s.max_patterns)
unfolding record_approval put
record_approval-IsCapped s p threshold now pos v = elim (Option-cases (lookup p s.entries)) [
  | inl fresh ↦
      let e : record_approval s p threshold now
          ≡ put s p (approved_entry p 1 threshold now) (make_room s.max_patterns s.entries) =
        (ground (arith, fresh)) in
      let (u, small) = make_room-size s.max_patterns s.entries pos v.unique v.capped in
      subst (λ t. IsCapped t × (t.max_patterns ≡ s.max_patterns)) (sym e)
        (
          record {
            unique = insert-Unique p _ _ u;
            capped = omega (
              arith,
              small,
              size-insert-le p (approved_entry p 1 threshold now)
                  (make_room s.max_patterns s.entries),
            );
          },
          refl,
        )
  | inr (existing, known) ↦
      let entry = approved_entry p (existing.approval_count + 1) threshold now in
      let e : record_approval s p threshold now ≡ put s p entry s.entries = ground (arith, known) in
      subst (λ t. IsCapped t × (t.max_patterns ≡ s.max_patterns)) (sym e)
        (
          record {
            unique = insert-Unique p entry s.entries v.unique;
            capped = ground (arith, known, v.capped, size-insert p entry s.entries);
          },
          refl,
        )
]

approvals-IsCapped :
    (threshold : ℕ) (s : AllowlistStore) (l : List (String × ℕ))
    → 0 < s.max_patterns
    → IsCapped s
    → IsCapped (approvals threshold s l) × ((approvals threshold s l).max_patterns ≡ s.max_patterns)
unfolding approvals
approvals-IsCapped threshold s [] pos v = (v, refl)
approvals-IsCapped threshold s ((p, now) ∷ l) pos v =
    let (v', e) = record_approval-IsCapped s p threshold now pos v in
    let (v'', e') =
      approvals-IsCapped threshold (record_approval s p threshold now) l (omega (arith, pos, e))
        v' in
    (v'', e' ∙ e)

-- A new store with room for at least one entry never has more than `max_patterns` entries while
-- approvals are recorded, and no pattern twice.
pub approvals-init :
    (max_patterns threshold : ℕ) (l : List (String × ℕ))
    → 0 < max_patterns
    → Unique (approvals threshold (init max_patterns) l).entries
      × (size (approvals threshold (init max_patterns) l).entries ≤ max_patterns)
unfolding Unique
approvals-init max_patterns threshold l pos =
    let (v, e) =
      approvals-IsCapped threshold (init max_patterns) l pos
        (record { unique = tt; capped = omega arith }) in
    (v.unique, omega (arith, v.capped, e))

dirty_patterns-record_approval :
    (s : AllowlistStore) (p : String) (threshold now : ℕ)
    → (record_approval s p threshold now).dirty_patterns ≡ add_pattern p s.dirty_patterns
unfolding record_approval put
dirty_patterns-record_approval s p threshold now = elim (Option-cases (lookup p s.entries)) [
  | inl fresh ↦ ground (arith, fresh)
  | inr (existing, known) ↦ ground (arith, known)
]

-- A store without modified patterns that records an approval and then loads an entry of the same
-- pattern says that it is clean, but still gives the loaded entry as modified.
pub load_from-dirty :
    (s : AllowlistStore) (p : String) (threshold now : ℕ) (e : AllowlistEntry)
    → s.dirty_patterns ≡ []
    → e.pattern_name ≡ p
    → let s' = load_from (record_approval s p threshold now) (e ∷ []) in
      (s'.dirty ≡ false) × (to_dirty_entries s' ≡ e ∷ [])
unfolding load_from load_entries to_dirty_entries found_entries add_pattern lookup insert
load_from-dirty s p threshold now e clean name =
    let d : (record_approval s p threshold now).dirty_patterns ≡ p ∷ [] =
      (dirty_patterns-record_approval s p threshold now ∙ ap (add_pattern p) clean) in
    (
      refl,
      ap (found_entries (load_entries (e ∷ []) [])) d ∙ ground (arith, eq_iff e.pattern_name p),
    )
