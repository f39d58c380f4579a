-- ===== src/Pairing/Guard/Codes.antt =====
-- The pending codes of packages/pairing/src/pairing-guard.ts and the order in which they are evicted.
use mathlib.Core.List.{map-append}
use templar.Prelude.{
  ℕ, ◌+◌, ◌≤◌, ◌<◌, ◌≡◌, refl, sym, ap, subst, ◌∙◌, not, Bool-cases, Option, none, some, List, [],
  ◌∷◌, ◌++◌, String, arith, inl, inr, leb, ltb, not-leb→lt, if◌then◌else◌, str_eq, eq_refl,
}
use templar.Prelude.Maps.{
  Map, lookup, erase, size, map_filter, Unique, keys, insert-Unique, erase-Unique,
  map_filter-Unique, insert_absent, erase_absent, lookup-insert_self, keys-map_filter, keys-erase,
  All-of_lookup, lookup-map_filter, has-lookup, size-insert-le,
}
use templar.Pairing.Types.{PairingConfig, PendingCode, PairedPeer}
use templar.Pairing.Guard.{
  PairingGuard, init, make_room, new_code, generate_code, check_sender, on_code, redeem, pair_peer,
  increment_rate_limit, extracted, is_live, not_expired, sweep,
}

-- The eviction order lists the pending codes, each once, oldest first.
pub record IsOrdered (g : PairingGuard) : Type 0 where
  pub unique : Unique g.pending_codes
  pub order : g.pending_code_order ≡ keys g.pending_codes

pub init-IsOrdered :
    (config : PairingConfig) {g : PairingGuard} → init config ≡ some g → IsOrdered g
unfolding init Unique
init-IsOrdered config e = ground arith

-- At capacity the oldest code goes, and the others keep their order.
record HasRoom (max_codes : ℕ) (codes : Map PendingCode) (order : List String) (fresh : String)
    : Type 0 where
  unique : Unique codes
  order_same : order ≡ keys codes
  room : size codes + 1 ≤ max_codes
  absent : lookup fresh codes ≡ none

make_room-HasRoom :
    (max_codes : ℕ) (codes : Map PendingCode) (fresh : String)
    → 0 < max_codes
    → size codes ≤ max_codes
    → Unique codes
    → lookup fresh codes ≡ none
    → let (codes', order') = make_room max_codes codes (keys codes) in
      HasRoom max_codes codes' order' fresh
unfolding make_room Unique lookup erase
make_room-HasRoom max_codes [] fresh pos h u a = ground arith
make_room-HasRoom max_codes ((k, c) ∷ codes) fresh pos h u a =
    elim (Bool-cases (leb max_codes (size ((k, c) ∷ codes)))) [
      | inl full ↦
          let gone : erase k ((k, c) ∷ codes) ≡ codes =
            (rw (eq_refl k) (erase_absent k codes u.0)) in
          rw full (record {
            unique = subst Unique (sym gone) u.1;
            order_same = ap keys (sym gone);
            room = subst (λ m. size m + 1 ≤ max_codes) (sym gone) (omega arith);
            absent = subst (λ m. lookup fresh m ≡ none) (sym gone) (ground arith);
          })
      | inr room ↦ rw room (record {
        unique = u;
        order_same = refl;
        room = omega (arith, not-leb→lt max_codes (size ((k, c) ∷ codes)) room);
        absent = a;
      })
    ]

-- In a guard whose order lists its codes, at most a positive `max_pending_codes` of them, a code
-- that is not pending yet is stored, the order still lists the codes, oldest first, and they are
-- still at most `max_pending_codes`.
pub generate_code-IsOrdered :
    (normalize : String → String) (g : PairingGuard) (code formatted agent_id channel : String)
    (now : ℕ)
    → 0 < g.config.max_pending_codes
    → size g.pending_codes ≤ g.config.max_pending_codes
    → lookup (normalize code) g.pending_codes ≡ none
    → IsOrdered g
    → let (g', c) = generate_code normalize g code formatted agent_id channel now in
      IsOrdered g'
      × (size g'.pending_codes ≤ g.config.max_pending_codes)
      × (lookup (normalize code) g'.pending_codes ≡ some c)
unfolding generate_code
generate_code-IsOrdered normalize g code formatted agent_id channel now pos bound fresh v =
    let n = g.config.max_pending_codes in
    let c = new_code g.config code formatted agent_id channel now in
    let r : let (codes', order') = make_room n g.pending_codes (keys g.pending_codes) in
        HasRoom n codes' order' (normalize code) =
      (make_room-HasRoom n g.pending_codes (normalize code) pos bound v.unique fresh) in
    let codes = (make_room n g.pending_codes (keys g.pending_codes)).0 in
    rw v.order (
      record {
        unique = insert-Unique (normalize code) c codes r.unique;
        order =
            ap (λ l. l ++ normalize code ∷ []) r.order_same
            ∙ sym (map-append (λ e. e.0) codes ((normalize code, c) ∷ []))
            ∙ ap keys (sym (insert_absent (normalize code) c codes r.absent));
      },
      omega (arith, size-insert-le (normalize code) c codes, r.room),
      lookup-insert_self (normalize code) c codes,
    )

pair_peer-IsOrdered :
    (g : PairingGuard) (key code : String) (peer : PairedPeer)
    → IsOrdered g
    → IsOrdered (pair_peer g key code peer)
unfolding pair_peer
pair_peer-IsOrdered g key code peer v = record {
  unique = erase-Unique code g.pending_codes v.unique;
  order = rw v.order (keys-erase code g.pending_codes);
}

redeem-IsOrdered :
    (g : PairingGuard) (agent_id channel peer_id : String) (now : ℕ) (code : String)
    (o : Option PendingCode)
    → IsOrdered g
    → IsOrdered (redeem g agent_id channel peer_id now code o).0
unfolding redeem increment_rate_limit
redeem-IsOrdered g agent_id channel peer_id now code none v = record {
  unique = v.unique;
  order = v.order;
}
redeem-IsOrdered g agent_id channel peer_id now code (some c) v =
    elim (Bool-cases (ltb c.expires_at now)) [
      | inl late ↦ rw late (record { unique = v.unique; order = v.order })
      | inr live ↦ rw live (pair_peer-IsOrdered g _ code _ v)
    ]

on_code-IsOrdered :
    (g : PairingGuard) (agent_id channel peer_id : String) (now : ℕ) (o : Option String)
    → IsOrdered g
    → IsOrdered (on_code g agent_id channel peer_id now o).0
unfolding on_code
on_code-IsOrdered g agent_id channel peer_id now none v = v
on_code-IsOrdered g agent_id channel peer_id now (some code) v =
    elim (Bool-cases (str_eq code "")) [
      | inl e ↦ rw e v
      | inr e ↦
          rw e
            (redeem-IsOrdered g agent_id channel peer_id now code (lookup code g.pending_codes) v)
    ]

-- If the order lists the pending codes, each once and oldest first, then it does after a check,
-- whatever its outcome.
pub check_sender-IsOrdered :
    (extract : String → Option String) (g : PairingGuard) (agent_id channel peer_id : String)
    (text : Option String) (now : ℕ)
    → IsOrdered g
    → IsOrdered (check_sender extract g agent_id channel peer_id text now).0
unfolding check_sender
check_sender-IsOrdered extract g agent_id channel peer_id text now v =
    ground (arith, v, on_code-IsOrdered g agent_id channel peer_id now (extracted extract text) v)

-- In a guard whose order lists its codes, a sweep removes exactly the expired codes, and the
-- order then lists those that are left.
pub sweep-IsOrdered :
    (g : PairingGuard) (now : ℕ) (k : String)
    → IsOrdered g
    → IsOrdered (sweep g now)
      × (lookup k (sweep g now).pending_codes ≡ elim (lookup k g.pending_codes) [
        | none ↦ none
        | some c ↦ if ltb c.expires_at now then none else some c
      ])
unfolding sweep
sweep-IsOrdered g now k v = (
  record {
    unique = map_filter-Unique (is_live now) g.pending_codes v.unique;
    order = rw v.order (
        keys-map_filter (not_expired now g.pending_codes) (is_live now) g.pending_codes
          (All-of_lookup _ g.pending_codes v.unique agrees));
  },
  ground (arith, lookup-map_filter (is_live now) k g.pending_codes v.unique),
)
  where
    agrees :
        (k : String) (c : PendingCode)
        → lookup k g.pending_codes ≡ some c
        → not_expired now g.pending_codes k ≡ is_live now k c
    agrees k c e = ground (
      arith,
      e,
      has-lookup k (map_filter (λ j c'. not (is_live now j c')) g.pending_codes),
      lookup-map_filter (λ j c'. not (is_live now j c')) k g.pending_codes v.unique,
    )
