-- ===== src/Approvals/Allowlist/Tests.antt =====
-- Runs of packages/exec-approvals/src/allowlist.ts.
use templar.Prelude.{◌≡◌, refl, false, [], ◌∷◌, arith}
use templar.Prelude.Maps.{Map, lookup, insert, Unique}
use templar.Approvals.Allowlist.{AllowlistStore, AllowlistEntry, approved_entry, record_approval}
use templar.Approvals.Allowlist.Eviction.{Evicted, record_approval-Evicted}

abbrev two : AllowlistStore
two = record {
  entries = ("ls", approved_entry "ls" 1 3 20) ∷ ("git", approved_entry "git" 2 3 10) ∷ [];
  dirty = false;
  dirty_patterns = [];
  max_patterns = 2;
}

record_approval-Evicted_example :
    (left : Map AllowlistEntry) × Evicted two.entries left
    × ((record_approval two "cat" 3 30).entries ≡ insert "cat" (approved_entry "cat" 1 3 30) left)
unfolding Unique lookup
record_approval-Evicted_example =
    record_approval-Evicted two "cat" 3 30 (refl, (refl, tt)) refl (omega arith) (omega arith)
