-- ===== src/Pairing/Guard.antt =====
-- packages/pairing/src/pairing-guard.ts over the types of packages/pairing/src/types.ts. The clock
-- is an argument of each call. A generated code comes as an argument (`generatePairingCode` draws
-- random bytes); what `extractPairingCode` finds in a text and `normalizePairingCode` are
-- parameters. The calls to the Nexus server are left out.
pub mod Codes
pub mod Check
pub mod Limits
mod Tests
use Prim.Native.String.{◌++◌ as append}
use templar.Prelude.{
  ℕ, ◌+◌, Bool, true, false, not, ◌&&◌, Option, none, some, List, [], ◌∷◌, ◌++◌, map, String, leb,
  ltb, if◌then◌else◌, str_eq, keep, any,
}
use templar.Pairing.Types.{
  PairingConfig, PendingCode, PairedPeer, PairingCheckResult, approved, pending, invalid_code,
  expired_code, rate_limited, bypass, paired, RateLimitEntry, is_valid_config,
}
use templar.Prelude.Maps.{Map, lookup, insert, erase, has, size, values, map_filter}

-- `channel_set` holds the channels of the config.
pub record PairingGuard : Type 0 where
  pub config : PairingConfig
  pub approved_peers : Map PairedPeer
  pub pending_codes : Map PendingCode
  pub rate_limits : Map RateLimitEntry
  pub pending_code_order : List String
  pub channel_set : List String

-- The constructor, on the merged config; `none` is the PairingConfigurationError.
pub init : PairingConfig → Option PairingGuard
unfolding is_valid_config
init config =
    if is_valid_config config
    then some (record {
      config = config;
      approved_peers = [];
      pending_codes = [];
      rate_limits = [];
      pending_code_order = [];
      channel_set = config.channels;
    })
    else none

abbrev pub in_set : String → List String → Bool
in_set x = any (λ y. str_eq y x)

-- The key of a peer, `${channel}:${peerId}`.
abbrev pub peer_key : String → String → String
peer_key channel peer_id = append channel (append ":" peer_id)

-- The eviction of `generateCode` when the codes are at capacity.
pub evict_first : Map PendingCode → List String → Map PendingCode × List String
evict_first codes [] = (codes, [])
evict_first codes (oldest ∷ order) = (erase oldest codes, order)

pub make_room : ℕ → Map PendingCode → List String → Map PendingCode × List String
unfolding evict_first
make_room max_codes codes order =
    if leb max_codes (size codes) then evict_first codes order else (codes, order)

abbrev pub new_code :
    PairingConfig → (code formatted agent_id channel : String) (now : ℕ) → PendingCode
new_code config code formatted agent_id channel now = record {
  code = code;
  formatted = formatted;
  agent_id = agent_id;
  channel = channel;
  created_at = now;
  expires_at = now + config.expiry_ms;
}

-- `code` and `formatted` are what `generatePairingCode` returns.
pub generate_code :
    (normalize : String → String)
    → PairingGuard
    → (code formatted agent_id channel : String) (now : ℕ) → PairingGuard × PendingCode
unfolding make_room
generate_code normalize g code formatted agent_id channel now =
    let pending_code = new_code g.config code formatted agent_id channel now in
    let normalized = normalize code in
    let (codes, order) =
      make_room g.config.max_pending_codes g.pending_codes g.pending_code_order in
    (
      record g {
        pending_codes = insert normalized pending_code codes;
        pending_code_order = order ++ normalized ∷ [];
      },
      pending_code,
    )

-- An entry limits at `now` if its window is not over and its attempts are used up.
pub limits : PairingConfig → ℕ → Option RateLimitEntry → Bool
limits config now none = false
limits config now (some e) =
    if ltb (e.window_start + config.expiry_ms) now
    then false
    else leb config.max_attempts e.attempts

pub is_rate_limited : PairingGuard → String → ℕ → Bool
unfolding limits
is_rate_limited g key now = limits g.config now (lookup key g.rate_limits)

pub next_attempt : PairingConfig → ℕ → Option RateLimitEntry → RateLimitEntry
next_attempt config now none = record { attempts = 1; window_start = now }
next_attempt config now (some e) =
    if leb now (e.window_start + config.expiry_ms)
    then record e { attempts = e.attempts + 1 }
    else record { attempts = 1; window_start = now }

pub increment_rate_limit : PairingGuard → String → ℕ → PairingGuard
unfolding next_attempt
increment_rate_limit g key now = record g {
  rate_limits = insert key (next_attempt g.config now (lookup key g.rate_limits)) g.rate_limits;
}

-- Step 8 of `checkSender`: the peer is approved, the code consumed, the limit cleared.
pub pair_peer : PairingGuard → String → String → PairedPeer → PairingGuard
pair_peer g key code peer = record g {
  approved_peers = insert key peer g.approved_peers;
  pending_codes = erase code g.pending_codes;
  pending_code_order = keep (λ k. not (str_eq k code)) g.pending_code_order;
  rate_limits = if has key g.rate_limits then erase key g.rate_limits else g.rate_limits;
}

-- Steps 6 to 8, on the code found in the message and what it names.
pub redeem :
    PairingGuard
    → (agent_id channel peer_id : String) (now : ℕ) (code : String) → Option PendingCode
    → PairingGuard × PairingCheckResult
unfolding increment_rate_limit pair_peer
redeem g agent_id channel peer_id now code none =
    (increment_rate_limit g (peer_key channel peer_id) now, invalid_code)
redeem g agent_id channel peer_id now code (some pending_code) =
    let key = peer_key channel peer_id in
    if ltb pending_code.expires_at now
    then (increment_rate_limit g key now, expired_code)
    else let peer : PairedPeer = record {
      agent_id = agent_id;
      channel = channel;
      peer_id = peer_id;
      paired_at = now;
    } in
      (pair_peer g key code peer, paired peer)

-- Steps 5 to 8, on the result of the extraction; an empty text counts as none.
pub on_code :
    PairingGuard
    → (agent_id channel peer_id : String) (now : ℕ) → Option String
    → PairingGuard × PairingCheckResult
unfolding redeem
on_code g agent_id channel peer_id now none = (g, pending)
on_code g agent_id channel peer_id now (some code) =
    if str_eq code ""
    then (g, pending)
    else redeem g agent_id channel peer_id now code (lookup code g.pending_codes)

-- `messageText ? extractPairingCode(messageText) : undefined`
abbrev pub extracted : (String → Option String) → Option String → Option String
extracted extract none = none
extracted extract (some text) = if str_eq text "" then none else extract text

pub check_sender :
    (extract : String → Option String)
    → PairingGuard
    → (agent_id channel peer_id : String) → Option String
    → (now : ℕ) → PairingGuard × PairingCheckResult
unfolding is_rate_limited on_code
check_sender extract g agent_id channel peer_id message_text now =
    if not g.config.enabled
    then (g, bypass)
    else if not (in_set channel g.channel_set)
    then (g, bypass)
    else if has (peer_key channel peer_id) g.approved_peers
    then (g, approved)
    else if is_rate_limited g (peer_key channel peer_id) now
    then (g, rate_limited)
    else on_code g agent_id channel peer_id now (extracted extract message_text)

abbrev pub matches : Option String → String → Bool
matches none x = true
matches (some y) x = str_eq x y

pub list_peers : PairingGuard → Option String → Option String → List PairedPeer
list_peers g agent_id channel =
    keep (λ p. matches agent_id p.agent_id && matches channel p.channel) (values g.approved_peers)

pub revoke_peer : PairingGuard → String → String → PairingGuard × Bool
revoke_peer g channel peer_id =
    let key = peer_key channel peer_id in
    if has key g.approved_peers
    then (record g { approved_peers = erase key g.approved_peers }, true)
    else (g, false)

abbrev pub is_live : ℕ → String → PendingCode → Bool
is_live now key code = not (ltb code.expires_at now)

abbrev pub is_open_window : PairingConfig → ℕ → String → RateLimitEntry → Bool
is_open_window config now key e = not (ltb (e.window_start + config.expiry_ms) now)

-- Whether a key of the order is not among the expired codes.
abbrev pub not_expired : ℕ → Map PendingCode → String → Bool
not_expired now codes k = not (has k (map_filter (λ j c. not (is_live now j c)) codes))

pub sweep : PairingGuard → ℕ → PairingGuard
sweep g now = record g {
  pending_codes = map_filter (is_live now) g.pending_codes;
  pending_code_order = keep (not_expired now g.pending_codes) g.pending_code_order;
  rate_limits = map_filter (is_open_window g.config now) g.rate_limits;
}

-- On the merged config; `none` is the PairingConfigurationError.
pub update_config : PairingGuard → PairingConfig → Option PairingGuard
unfolding is_valid_config
update_config g config =
    if is_valid_config config
    then some (record g { config = config; channel_set = config.channels })
    else none
