-- ===== src/Pairing/Guard/Limits.antt =====
-- Guessing codes against packages/pairing/src/pairing-guard.ts.
use templar.Prelude.{
  ℕ, ◌+◌, ◌-◌, ◌≤◌, ◌<◌, ◌≡◌, refl, sym, ap, ◌∙◌, ◌≢◌, true, false, Bool-cases, Option, none, some,
  List, [], ◌∷◌, String, arith, inl, inr, leb, leb→le, not-leb→lt, if◌then◌else◌, eq_iff, All,
}
use templar.Prelude.Maps.{lookup, has-lookup, lookup-insert_self}
use templar.Pairing.Types.{PairingCheckResult, invalid_code, rate_limited}
use templar.Pairing.Guard.{
  PairingGuard, in_set, peer_key, limits, is_rate_limited, next_attempt, increment_rate_limit,
  redeem, on_code, extracted, check_sender,
}

-- What wrong codes are answered when `left` attempts are left: that many are invalid, the others are
-- rate limited.
unfoldable pub verdicts : ℕ → List (String × ℕ) → List PairingCheckResult
verdicts left [] = []
verdicts left (message ∷ messages) =
    let rest = verdicts (left - 1) messages in
    if leb left 0 then rate_limited ∷ rest else invalid_code ∷ rest

verdicts-none :
    (message : String × ℕ) (messages : List (String × ℕ)) (left : ℕ)
    → left ≡ 0
    → rate_limited ∷ verdicts left messages ≡ verdicts left (message ∷ messages)
unfolding verdicts
verdicts-none message messages left h =
    let same : left - 1 ≡ left = omega (arith, h) in ground (arith, h, same)

verdicts-some :
    (message : String × ℕ) (messages : List (String × ℕ)) (left : ℕ)
    → 0 < left
    → verdicts left (message ∷ messages) ≡ invalid_code ∷ verdicts (left - 1) messages
unfolding verdicts
verdicts-some message messages left h = ground (arith, h)

module _ (extract : String → Option String) (agent_id channel peer_id : String) where
  abbrev pub key : String
  key = peer_key channel peer_id

  -- The answers to a series of messages of one peer, each with its time.
  pub answers : PairingGuard → List (String × ℕ) → List PairingCheckResult
  answers g [] = []
  answers g ((text, now) ∷ messages) =
      let (g', r) = check_sender extract g agent_id channel peer_id (some text) now in
      r ∷ answers g' messages

  -- A message with a code that is not pending, sent at `limit` at the latest.
  abbrev pub IsGuess : PairingGuard → ℕ → String × ℕ → Type 0
  IsGuess g limit (text, now) =
      (code : String) × (extracted extract (some text) ≡ some code)
      × (code ≢ "")
      × (lookup code g.pending_codes ≡ none)
      × (now ≤ limit)

  -- A guard that asks this peer for a code.
  pub record Asks (g : PairingGuard) : Type 0 where
    pub enabled : g.config.enabled ≡ true
    pub on_channel : in_set channel g.channel_set ≡ true
    pub unknown : lookup key g.approved_peers ≡ none

  guess_lem :
      (g : PairingGuard) (limit : ℕ) (text : String) (now : ℕ)
      → Asks g
      → IsGuess g limit (text, now)
      → check_sender extract g agent_id channel peer_id (some text) now ≡ (
          if is_rate_limited g key now
          then (g, rate_limited)
          else (increment_rate_limit g key now, invalid_code))
  unfolding check_sender on_code redeem
  guess_lem g limit text now a (code, found, ne, absent, early) = ground (
    arith,
    a.enabled,
    a.on_channel,
    a.unknown,
    found,
    absent,
    eq_iff code "",
    has-lookup key g.approved_peers,
  )

  increment-config :
      (g : PairingGuard) (now : ℕ)
      → ((increment_rate_limit g key now).config ≡ g.config)
        × ((increment_rate_limit g key now).pending_codes ≡ g.pending_codes)
        × (lookup key (increment_rate_limit g key now).rate_limits
            ≡ some (next_attempt g.config now (lookup key g.rate_limits)))
  unfolding increment_rate_limit
  increment-config g now = (refl, refl, lookup-insert_self key _ g.rate_limits)

  increment-Asks : (g : PairingGuard) (now : ℕ) → Asks g → Asks (increment_rate_limit g key now)
  unfolding increment_rate_limit
  increment-Asks g now a = record {
    enabled = a.enabled;
    on_channel = a.on_channel;
    unknown = a.unknown;
  }

  increment-IsGuess :
      (g : PairingGuard) (t limit : ℕ) (messages : List (String × ℕ))
      → All (IsGuess g limit) messages
      → All (IsGuess (increment_rate_limit g key t) limit) messages
  unfolding increment_rate_limit
  increment-IsGuess g t limit messages h = h

  answers_limited :
      (g : PairingGuard) (limit : ℕ) (text : String) (now : ℕ) (messages : List (String × ℕ))
      → Asks g
      → IsGuess g limit (text, now)
      → is_rate_limited g key now ≡ true
      → answers g ((text, now) ∷ messages) ≡ rate_limited ∷ answers g messages
  unfolding answers
  answers_limited g limit text now messages a h limited =
      let e : check_sender extract g agent_id channel peer_id (some text) now ≡ (g, rate_limited) =
        (guess_lem g limit text now a h ∙ ground (arith, limited)) in
      ap (λ r. r.1 ∷ answers r.0 messages) e

  answers_free :
      (g : PairingGuard) (limit : ℕ) (text : String) (now : ℕ) (messages : List (String × ℕ))
      → Asks g
      → IsGuess g limit (text, now)
      → is_rate_limited g key now ≡ false
      → answers g ((text, now) ∷ messages)
        ≡ invalid_code ∷ answers (increment_rate_limit g key now) messages
  unfolding answers
  answers_free g limit text now messages a h free =
      let e : check_sender extract g agent_id channel peer_id (some text) now
          ≡ (increment_rate_limit g key now, invalid_code) =
        (guess_lem g limit text now a h ∙ ground (arith, free)) in
      ap (λ r. r.1 ∷ answers r.0 messages) e

  time_of :
      (g : PairingGuard) (limit : ℕ) (text : String) (now : ℕ)
      → IsGuess g limit (text, now)
      → now ≤ limit
  time_of g limit text now (code, found, ne, absent, early) = early

  -- In an open window with `c` attempts the rest of the attempts are answered, and no more.
  guesses_in_window :
      (g : PairingGuard) (c start : ℕ) (messages : List (String × ℕ))
      → Asks g
      → lookup key g.rate_limits ≡ some (record { attempts = c; window_start = start })
      → All (IsGuess g (start + g.config.expiry_ms)) messages
      → answers g messages ≡ verdicts (g.config.max_attempts - c) messages
  unfolding answers verdicts is_rate_limited limits next_attempt increment_rate_limit
  guesses_in_window g c start [] a e h = refl
  guesses_in_window g c start ((text, now) ∷ messages) a e (h, hs) =
      let limit = start + g.config.expiry_ms in
      let early : now ≤ limit = time_of g limit text now h in
      elim (Bool-cases (leb g.config.max_attempts c)) [
        | inl full ↦
            answers_limited g limit text now messages a h (ground (arith, e, early, full))
            ∙ ap (λ l. rate_limited ∷ l) (guesses_in_window g c start messages a e hs)
            ∙ verdicts-none (text, now) messages (g.config.max_attempts - c)
                (omega (arith, leb→le g.config.max_attempts c full))
        | inr free ↦
            let fewer : g.config.max_attempts - (c + 1) ≡ g.config.max_attempts - c - 1 =
              omega arith in
            answers_free g limit text now messages a h (ground (arith, e, early, free))
            ∙ ap (λ l. invalid_code ∷ l)
                (guesses_in_window (increment_rate_limit g key now) (c + 1) start messages
                  (increment-Asks g now a)
                  (lookup-insert_self key _ g.rate_limits ∙ ground (arith, e, early))
                  (increment-IsGuess g now limit messages hs))
            ∙ ap (λ n. invalid_code ∷ verdicts n messages) fewer
            ∙ sym (
                verdicts-some (text, now) messages (g.config.max_attempts - c)
                  (omega (arith, not-leb→lt g.config.max_attempts c free)))
      ]

  -- If a peer that is asked for a code, and has no attempts yet, sends codes that are not
  -- pending only, all within `expiry_ms` of the first, then the first `max_attempts` of them, a positive
  -- number, are answered as invalid, and each of the others as rate limited.
  pub wrong_guesses :
      (g : PairingGuard) (text : String) (now : ℕ) (messages : List (String × ℕ))
      → Asks g
      → 0 < g.config.max_attempts
      → lookup key g.rate_limits ≡ none
      → IsGuess g (now + g.config.expiry_ms) (text, now)
      → All (IsGuess g (now + g.config.expiry_ms)) messages
      → answers g ((text, now) ∷ messages) ≡ verdicts g.config.max_attempts ((text, now) ∷ messages)
  unfolding is_rate_limited limits next_attempt increment_rate_limit
  wrong_guesses g text now messages a pos e h hs =
      let free : is_rate_limited g key now ≡ false = ground (arith, e) in
      answers_free g (now + g.config.expiry_ms) text now messages a h free
      ∙ ap (λ l. invalid_code ∷ l)
          (guesses_in_window (increment_rate_limit g key now) 1 now messages
            (increment-Asks g now a) (lookup-insert_self key _ g.rate_limits ∙ ground (arith, e))
            (increment-IsGuess g now (now + g.config.expiry_ms) messages hs))
      ∙ sym (verdicts-some (text, now) messages g.config.max_attempts pos)
