-- ===== src/Pairing/Guard/Tests.antt =====
-- Runs of packages/pairing/src/pairing-guard.ts.
use templar.Prelude.{
  ℕ, ◌≡◌, ◌≢◌, refl, sym, ◌∙◌, false, Option, none, some, List, [], ◌∷◌, String, arith, eq_iff,
  str_eq,
}
use templar.Prelude.Maps.{lookup, Unique, has}
use templar.Pairing.Types.{PairingConfig, PendingCode, default_config}
use templar.Pairing.Guard.{
  PairingGuard, check_sender, new_code, is_rate_limited, on_code, redeem, limits,
}
use templar.Pairing.Guard.Codes.{IsOrdered}
use templar.Pairing.Guard.Check.{Paired, new_peer, check_sender-Paired}
use templar.Pairing.Guard.Limits.{Asks, answers, verdicts, wrong_guesses}

ne_of_test : (a b : String) → str_eq a b ≡ false → a ≢ b
ne_of_test a b h e = ground (arith, eq_iff a b)

-- A text is its own code.
abbrev whole_text : String → Option String
whole_text text = some text

abbrev config : PairingConfig
config = record default_config { channels = "slack" ∷ "telegram" ∷ [] }

abbrev code_a : PendingCode
code_a = new_code config "AAAA2222" "AAAA-2222" "ada" "slack" 0

-- One pending code, made for another agent and another channel.
abbrev guard : PairingGuard
guard = record {
  config = config;
  approved_peers = [];
  pending_codes = ("AAAA2222", code_a) ∷ [];
  rate_limits = [];
  pending_code_order = "AAAA2222" ∷ [];
  channel_set = "slack" ∷ "telegram" ∷ [];
}

guard-IsOrdered : IsOrdered guard
unfolding Unique lookup
guard-IsOrdered = record { unique = (refl, tt); order = refl }

check_sender-Paired_example :
    Paired whole_text guard "ada" "slack" "eve"
      (some "AAAA2222")
      5
      (check_sender whole_text guard "ada" "slack" "eve" (some "AAAA2222") 5).0
unfolding check_sender on_code redeem is_rate_limited limits has lookup
check_sender-Paired_example =
    check_sender-Paired whole_text guard "ada" "slack" "eve" (some "AAAA2222") 5
      (new_peer "ada" "slack" "eve" 5) refl

abbrev eve_paired : PairingGuard
eve_paired = (check_sender whole_text guard "ada" "slack" "eve" (some "AAAA2222") 5).0

eve_is_new : lookup "slack:eve" eve_paired.approved_peers ≢ lookup "slack:eve" guard.approved_peers
unfolding check_sender on_code redeem is_rate_limited limits has lookup
eve_is_new e =
    let p =
      check_sender-Paired whole_text guard "ada" "slack" "eve" (some "AAAA2222") 5
        (new_peer "ada" "slack" "eve" 5) refl in
    let h : some (new_peer "ada" "slack" "eve" 5) ≡ none = sym p.stored ∙ e in ground (arith, h)

abbrev guesses : List (String × ℕ)
guesses = ("ZZZZ4444", 20) ∷ ("ZZZZ5555", 30) ∷ ("ZZZZ6666", 40) ∷ []

guard-Asks : Asks whole_text "ada" "slack" "eve" guard
unfolding lookup
guard-Asks = record { enabled = refl; on_channel = refl; unknown = refl }

wrong_guesses_example :
    answers whole_text "ada" "slack" "eve" guard (("ZZZZ3333", 10) ∷ guesses)
    ≡ verdicts 3 (("ZZZZ3333", 10) ∷ guesses)
unfolding lookup
wrong_guesses_example =
    wrong_guesses whole_text "ada" "slack" "eve" guard "ZZZZ3333" 10 guesses guard-Asks
      (omega arith) refl ("ZZZZ3333", refl, ne_of_test "ZZZZ3333" "" refl, refl, omega arith)
      (
        ("ZZZZ4444", refl, ne_of_test "ZZZZ4444" "" refl, refl, omega arith),
        (
          ("ZZZZ5555", refl, ne_of_test "ZZZZ5555" "" refl, refl, omega arith),
          (("ZZZZ6666", refl, ne_of_test "ZZZZ6666" "" refl, refl, omega arith), tt),
        ),
      )
