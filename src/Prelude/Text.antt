-- ===== src/Prelude/Text.antt =====
-- The operations of JavaScript's strings that the source uses, on text as a list of characters: a
-- one-character separator is given by its code.
use Prim.Native.Char.{Char, code}
use Prim.Native.Nat.{ℕ, suc}
use Prim.Native.String.{String}
use mathlib.Core.Bool.{Bool, true, false}
use mathlib.Core.List.{List, [], ◌∷◌}
use mathlib.Core.Path.{◌≡◌, refl, ap, ◌∙◌}
use native.Mathlib.Omega.{arith}
use text.Mathlib.Text.{◌==◌ as str_eq}
use templar.Prelude.Tests.{if◌then◌else◌, ◌==◌, ==_iff}
use templar.Prelude.Lists.{All}

infixr 60 ◌<>◌
-- One text after another, which computes on an open second text.
abbrev pub ◌<>◌ : String → String → String
String.[] <> t = t
(String.◌∷◌ c s) <> t = String.◌∷◌ c (s <> t)

-- `s.includes(c)`
unfoldable pub includes : ℕ → String → Bool
includes sep String.[] = false
includes sep (String.◌∷◌ c s) = if code c == sep then true else includes sep s

unfoldable pub push_char : Char → List String → List String
push_char c [] = String.◌∷◌ c "" ∷ []
push_char c (p ∷ ps) = String.◌∷◌ c p ∷ ps

-- `s.split(c)`
unfoldable pub split : ℕ → String → List String
split sep String.[] = "" ∷ []
split sep (String.◌∷◌ c s) = if code c == sep then "" ∷ split sep s else push_char c (split sep s)

-- `parts.join(c)`
abbrev pub join : Char → List String → String
join c [] = ""
join c (p ∷ []) = p
join c (p ∷ q ∷ ps) = p <> String.◌∷◌ c (join c (q ∷ ps))

-- `s.startsWith(p)`
unfoldable pub starts_with : String → String → Bool
starts_with s String.[] = true
starts_with String.[] (String.◌∷◌ c p) = false
starts_with (String.◌∷◌ d s) (String.◌∷◌ c p) = if code d == code c then starts_with s p else false

-- `s.endsWith(p)`
unfoldable pub ends_with : String → String → Bool
ends_with String.[] p = str_eq "" p
ends_with (String.◌∷◌ c s) p = if str_eq (String.◌∷◌ c s) p then true else ends_with s p

-- `s.length`
unfoldable pub count : String → ℕ
count String.[] = 0
count (String.◌∷◌ c s) = suc (count s)

-- `s.indexOf(c)` for a character that occurs; the length for one that does not.
unfoldable pub index_of : ℕ → String → ℕ
index_of sep String.[] = 0
index_of sep (String.◌∷◌ c s) = if code c == sep then 0 else suc (index_of sep s)

pub split-append :
    (c : Char) (s t : String)
    → includes (code c) s ≡ false
    → split (code c) (s <> String.◌∷◌ c t) ≡ s ∷ split (code c) t
unfolding includes split push_char
split-append c String.[] t h =
    let same : (code c == code c) ≡ true = (==_iff (code c) (code c)).1 refl in rw same
split-append c (String.◌∷◌ d s) t h = ground (arith, split-append c s t)

pub split_alone : (sep : ℕ) (s : String) → includes sep s ≡ false → split sep s ≡ s ∷ []
unfolding includes split push_char
split_alone sep String.[] h = refl
split_alone sep (String.◌∷◌ d s) h = ground (arith, split_alone sep s)

-- Parts without the separator are what the joined text splits into.
pub split-join :
    (c : Char) (p : String) (ps : List String)
    → All (λ s. includes (code c) s ≡ false) (p ∷ ps)
    → split (code c) (join c (p ∷ ps)) ≡ p ∷ ps
split-join c p [] h = split_alone (code c) p h.0
split-join c p (q ∷ ps) h =
    split-append c p (join c (q ∷ ps)) h.0 ∙ ap (λ rest. p ∷ rest) (split-join c q ps h.1)
