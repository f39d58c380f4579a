-- ===== src/Pairing/Guard/Check.antt =====
-- Who gets access by packages/pairing/src/pairing-guard.ts.
use templar.Prelude.{
  ℕ, ◌≤◌, ◌≡◌, refl, sym, ap, subst, ◌∙◌, ◌≢◌, true, false, Bool-cases, Option, none, some,
  Option-cases, String, arith, inl, inr, ltb, str_eq, eq_iff,
}
use templar.Prelude.Maps.{lookup, has, lookup-insert, lookup-insert_self, lookup-erase_self}
use templar.Pairing.Types.{PendingCode, PairedPeer, paired}
use templar.Pairing.Guard.{
  PairingGuard, in_set, peer_key, is_rate_limited, increment_rate_limit, pair_peer, redeem, on_code,
  extracted, check_sender,
}

-- The peer that step 8 makes.
abbrev pub new_peer : (agent_id channel peer_id : String) → ℕ → PairedPeer
new_peer agent_id channel peer_id now = record {
  agent_id = agent_id;
  channel = channel;
  peer_id = peer_id;
  paired_at = now;
}

-- What must have been so when a peer is paired, and what is so afterwards.
pub record Paired (extract : String → Option String) (g : PairingGuard)
    (agent_id channel peer_id : String) (text : Option String) (now : ℕ) (g' : PairingGuard)
    : Type 0 where
  pub code : String
  pub pending_code : PendingCode
  pub enabled : g.config.enabled ≡ true
  pub on_channel : in_set channel g.channel_set ≡ true
  pub found : extracted extract text ≡ some code
  pub was_pending : lookup code g.pending_codes ≡ some pending_code
  pub live : now ≤ pending_code.expires_at
  pub consumed : lookup code g'.pending_codes ≡ none
  pub stored :
      lookup (peer_key channel peer_id) g'.approved_peers
      ≡ some (new_peer agent_id channel peer_id now)

module _ (extract : String → Option String) (g : PairingGuard) (agent_id channel peer_id : String)
    (text : Option String) (now : ℕ) where
  on_code-Paired :
      (peer : PairedPeer) (o : Option String)
      → g.config.enabled ≡ true
      → in_set channel g.channel_set ≡ true
      → extracted extract text ≡ o
      → (on_code g agent_id channel peer_id now o).1 ≡ paired peer
      → Paired extract g agent_id channel peer_id text now
          (on_code g agent_id channel peer_id now o).0
  unfolding on_code pair_peer
  on_code-Paired peer none en ch eo h = cc
  on_code-Paired peer (some code) en ch eo h = elim (Bool-cases (str_eq code "")) [
    | inl empty ↦ absurd (ground (arith, empty))
    | inr text_code ↦ elim (Option-cases (lookup code g.pending_codes)) [
      | inl none_pending ↦ absurd (ground (arith, text_code, none_pending))
      | inr (c, known) ↦ elim (Bool-cases (ltb c.expires_at now)) [
        | inl late ↦ absurd (ground (arith, text_code, known, late))
        | inr live ↦
            rw (text_code, known, redeem, live)
              (record {
                code = code;
                pending_code = c;
                enabled = en;
                on_channel = ch;
                found = eo;
                was_pending = known;
                live = ground (arith, live);
                consumed = lookup-erase_self code g.pending_codes;
                stored =
                    lookup-insert_self (peer_key channel peer_id)
                      (new_peer agent_id channel peer_id now) g.approved_peers;
              })
      ]
    ]
  ]

  check_sender-on_code :
      g.config.enabled ≡ true
      → in_set channel g.channel_set ≡ true
      → has (peer_key channel peer_id) g.approved_peers ≡ false
      → is_rate_limited g (peer_key channel peer_id) now ≡ false
      → check_sender extract g agent_id channel peer_id text now
        ≡ on_code g agent_id channel peer_id now (extracted extract text)
  unfolding check_sender
  check_sender-on_code on member unknown free = ground (arith, on, member, unknown, free)

  -- A check answers `paired` only for a sender on a channel that asks for codes, whose message
  -- holds a code that is pending and not expired; the code is then consumed and the peer approved.
  pub check_sender-Paired :
      (peer : PairedPeer)
      → (check_sender extract g agent_id channel peer_id text now).1 ≡ paired peer
      → Paired extract g agent_id channel peer_id text now
          (check_sender extract g agent_id channel peer_id text now).0
  unfolding check_sender
  check_sender-Paired peer h = elim (Bool-cases g.config.enabled) [
    | inr off ↦ absurd (ground (arith, off))
    | inl on ↦ elim (Bool-cases (in_set channel g.channel_set)) [
      | inr other ↦ absurd (ground (arith, on, other))
      | inl member ↦ elim (Bool-cases (has (peer_key channel peer_id) g.approved_peers)) [
        | inl known ↦ absurd (ground (arith, on, member, known))
        | inr unknown ↦ elim (Bool-cases (is_rate_limited g (peer_key channel peer_id) now)) [
          | inl limited ↦ absurd (ground (arith, on, member, unknown, limited))
          | inr free ↦
              let reached = check_sender-on_code on member unknown free in
              subst (λ r. Paired extract g agent_id channel peer_id text now r.0) (sym reached)
                (on_code-Paired peer (extracted extract text) on member refl
                  (sym (ap (λ r. r.1) reached) ∙ h))
        ]
      ]
    ]
  ]

  -- If a check changes what a key leads to among the approved peers, then the key is the
  -- sender's and the answer is `paired` with the new peer.
  pub approved-check_sender :
      (k : String)
      → lookup k (check_sender extract g agent_id channel peer_id text now).0.approved_peers
        ≢ lookup k g.approved_peers
      → (k ≡ peer_key channel peer_id)
        × ((check_sender extract g agent_id channel peer_id text now).1
            ≡ paired (new_peer agent_id channel peer_id now))
  unfolding check_sender on_code redeem pair_peer increment_rate_limit
  approved-check_sender k h = ground (
    arith,
    eq_iff (peer_key channel peer_id) k,
    lookup-insert (peer_key channel peer_id) k (new_peer agent_id channel peer_id now)
        g.approved_peers,
  )
