-- ===== src/Approvals/Allowlist.antt =====
-- packages/exec-approvals/src/allowlist.ts, with the entry of packages/exec-approvals/src/types.ts. The
-- clock is an argument; a set of patterns is a list without repetitions.
pub mod Eviction
mod Tests
use templar.Prelude.{
  ℕ, ◌+◌, Bool, true, false, Option, none, some, List, [], ◌∷◌, ◌++◌, String, leb, ltb,
  if◌then◌else◌, str_eq, any,
}
use templar.Prelude.Maps.{Map, lookup, insert, erase, size, values}

pub record AllowlistEntry : Type 0 where
  pub pattern_name : String
  pub approval_count : ℕ
  pub auto_promoted : Bool
  pub last_approved_at : ℕ

pub record AllowlistStore : Type 0 where
  pub entries : Map AllowlistEntry
  pub dirty : Bool
  pub dirty_patterns : List String
  pub max_patterns : ℕ

abbrev pub init : ℕ → AllowlistStore
init max_patterns = record {
  entries = [];
  dirty = false;
  dirty_patterns = [];
  max_patterns = max_patterns;
}

-- `dirtyPatterns.add`
pub add_pattern : String → List String → List String
add_pattern p l = if any (λ q. str_eq q p) l then l else l ++ p ∷ []

-- Whether an approval time is before the oldest so far; before the first it is Infinity.
abbrev pub before : ℕ → Option (String × AllowlistEntry) → Bool
before t none = true
before t (some (k, e)) = ltb t e.last_approved_at

-- The loop of `evictOldest`, with the oldest entry so far.
pub find_oldest :
    Option (String × AllowlistEntry) → Map AllowlistEntry → Option (String × AllowlistEntry)
find_oldest best [] = best
find_oldest best ((k, e) ∷ entries) =
    find_oldest (if before e.last_approved_at best then some (k, e) else best) entries

abbrev pub without : Map AllowlistEntry → Option (String × AllowlistEntry) → Map AllowlistEntry
without entries none = entries
without entries (some (k, e)) = erase k entries

pub evict_oldest : Map AllowlistEntry → Map AllowlistEntry
unfolding find_oldest
evict_oldest entries = without entries (find_oldest none entries)

abbrev pub approved_entry : String → ℕ → ℕ → ℕ → AllowlistEntry
approved_entry p count threshold now = record {
  pattern_name = p;
  approval_count = count;
  auto_promoted = leb threshold count;
  last_approved_at = now;
}

-- The entries into which a pattern is put that is not there yet.
pub make_room : ℕ → Map AllowlistEntry → Map AllowlistEntry
unfolding evict_oldest
make_room max_patterns entries =
    if leb max_patterns (size entries) then evict_oldest entries else entries

pub put : AllowlistStore → String → AllowlistEntry → Map AllowlistEntry → AllowlistStore
unfolding add_pattern
put s p entry entries = record s {
  entries = insert p entry entries;
  dirty = true;
  dirty_patterns = add_pattern p s.dirty_patterns;
}

pub record_approval : AllowlistStore → String → ℕ → ℕ → AllowlistStore
unfolding make_room put
record_approval s p threshold now = elim (lookup p s.entries) [
  | some existing ↦ put s p (approved_entry p (existing.approval_count + 1) threshold now) s.entries
  | none ↦ put s p (approved_entry p 1 threshold now) (make_room s.max_patterns s.entries)
]

pub mark_clean : AllowlistStore → AllowlistStore
mark_clean s = record s { dirty = false; dirty_patterns = [] }

pub found_entries : Map AllowlistEntry → List String → List AllowlistEntry
found_entries entries [] = []
found_entries entries (p ∷ ps) = elim (lookup p entries) [
  | none ↦ found_entries entries ps
  | some e ↦ e ∷ found_entries entries ps
]

pub to_dirty_entries : AllowlistStore → List AllowlistEntry
unfolding found_entries
to_dirty_entries s = found_entries s.entries s.dirty_patterns

abbrev pub to_array : AllowlistStore → List AllowlistEntry
to_array s = values s.entries

pub load_entries : List AllowlistEntry → Map AllowlistEntry → Map AllowlistEntry
load_entries [] m = m
load_entries (e ∷ l) m = load_entries l (insert e.pattern_name e m)

-- `dirtyPatterns` keeps what it had.
pub load_from : AllowlistStore → List AllowlistEntry → AllowlistStore
unfolding load_entries
load_from s l = record s { entries = load_entries l []; dirty = false }

-- A run of approvals, each with its pattern and time, at one threshold.
pub approvals : ℕ → AllowlistStore → List (String × ℕ) → AllowlistStore
unfolding record_approval
approvals threshold s [] = s
approvals threshold s ((p, now) ∷ l) = approvals threshold (record_approval s p threshold now) l
