-- ===== src/Gateway/Bindings/Globs.antt =====
-- packages/gateway/src/binding-resolver.ts: the meaning of the patterns, where "*" stands for any text,
-- and the compiled matchers.
use Prim.Native.Char.{Char, code}
use Prim.Native.Nat.{Ordering}
use Prim.Native.String.compare
use Prim.Native.String.{compare, then}
use text.Mathlib.Text.{is_eq}
use templar.Prelude.{
  Bool, true, false, List, [], ◌∷◌, String, if◌then◌else◌, str_eq, eq_iff, ◌+◌, ◌≤◌, ◌==◌, length,
  ◌≡◌, refl, sym, ap, ◌∙◌, arith,
}
use templar.Prelude.Results.{ok}
use templar.Prelude.Text.{split, push_char, includes, starts_with, ends_with, index_of, count}
use templar.Gateway.Bindings.{
  FieldMatcher, star, slice_first, slice_last, compile_pattern, match_field,
}

abbrev blank : String → Bool
blank String.[] = true
blank (String.◌∷◌ c s) = false

abbrev after_char : Char → (String → Bool) → String → Bool
after_char c rest String.[] = false
after_char c rest (String.◌∷◌ d v) = if code d == code c then rest v else false

-- At the text or after some of its characters.
abbrev somewhere : (String → Bool) → String → Bool
somewhere rest String.[] = rest ""
somewhere rest (String.◌∷◌ d v) = if rest (String.◌∷◌ d v) then true else somewhere rest v

-- A text matches a pattern if each "*" can be replaced by a text, and all else is the same.
unfoldable pub glob : String → String → Bool
glob String.[] v = blank v
glob (String.◌∷◌ c p) v = if code c == star then somewhere (glob p) v else after_char c (glob p) v

is_eq-then :
    (o r : Ordering)
    → is_eq ((then) o r) ≡ (if elim o [ Ordering.eq ↦ true | _ ↦ false ] then is_eq r else false)
is_eq-then Ordering.lt r = refl
is_eq-then Ordering.eq r = refl
is_eq-then Ordering.gt r = refl

str_eq-cons :
    (c d : Char) (s t : String)
    → str_eq (String.◌∷◌ d s) (String.◌∷◌ c t) ≡ (if code d == code c then str_eq s t else false)
str_eq-cons c d s t =
    ap is_eq (compare.cons-cons d c s t)
    ∙ is_eq-then (Prim.Native.Nat.compare (code d) (code c)) (compare s t)

str_eq-cons_nil : (c : Char) (s : String) → str_eq (String.◌∷◌ c s) "" ≡ false
str_eq-cons_nil c s = ap is_eq (compare.cons-nil c s)

str_eq-nil_cons : (c : Char) (s : String) → str_eq "" (String.◌∷◌ c s) ≡ false
str_eq-nil_cons c s = ap is_eq (compare.nil-cons c s)

glob_blank : (v : String) → somewhere blank v ≡ true
glob_blank String.[] = refl
glob_blank (String.◌∷◌ c v) = glob_blank v

glob_exact : (p v : String) → includes star p ≡ false → glob p v ≡ str_eq v p
unfolding glob includes
glob_exact String.[] String.[] h = refl
glob_exact String.[] (String.◌∷◌ d v) h = sym (str_eq-cons_nil d v)
glob_exact (String.◌∷◌ c p) String.[] h = ground (arith, str_eq-nil_cons c p)
glob_exact (String.◌∷◌ c p) (String.◌∷◌ d v) h = ground (arith, glob_exact p v, str_eq-cons c d v p)

glob_suffix : (p v : String) → includes star p ≡ false → somewhere (glob p) v ≡ ends_with v p
unfolding ends_with
glob_suffix p String.[] h = glob_exact p "" h
glob_suffix p (String.◌∷◌ d v) h =
    ground (arith, glob_exact p (String.◌∷◌ d v) h, glob_suffix p v h)

length-push_char :
    (c : Char) (ps : List String) → 1 ≤ length ps → length (push_char c ps) ≡ length ps
unfolding push_char
length-push_char c [] h = omega arith
length-push_char c (p ∷ ps) h = refl

split-ne-zero : (p : String) → 1 ≤ length (split star p)
unfolding split
split-ne-zero String.[] = omega arith
split-ne-zero (String.◌∷◌ c p) = ground (arith, split-ne-zero p, length-push_char c (split star p))

split_one : (p : String) → length (split star p) ≤ 1 → includes star p ≡ false
unfolding split includes
split_one String.[] h = refl
split_one (String.◌∷◌ c p) h =
    ground (arith, split_one p, split-ne-zero p, length-push_char c (split star p))

glob_prefix :
    (p v : String)
    → length (split star p) ≡ 2
    → index_of star p + 1 ≡ count p
    → glob p v ≡ starts_with v (slice_last p)
unfolding split glob index_of count starts_with
glob_prefix String.[] v h e = ground arith
glob_prefix (String.◌∷◌ c String.[]) v h e =
    ground (arith, length-push_char c (split star ""), glob_blank v)
glob_prefix (String.◌∷◌ c (String.◌∷◌ d p)) String.[] h e = ground arith
glob_prefix (String.◌∷◌ c (String.◌∷◌ d p)) (String.◌∷◌ b v) h e = ground (
  arith,
  length-push_char c (split star (String.◌∷◌ d p)),
  split-ne-zero (String.◌∷◌ d p),
  glob_prefix (String.◌∷◌ d p) v,
)

suffix_matches :
    (p v : String)
    → length (split star p) ≡ 2
    → index_of star p ≡ 0
    → ends_with v (slice_first p) ≡ glob p v
unfolding split index_of glob
suffix_matches String.[] v h e = ground arith
suffix_matches (String.◌∷◌ c p) v h e =
    ground (arith, split_one p, split-ne-zero p, glob_suffix p v)

any_matches : (p v : String) → str_eq p "*" ≡ true → glob p v ≡ true
unfolding glob
any_matches p v h = ap (λ q. glob q v) ((eq_iff p "*").0 h) ∙ glob_blank v

-- A pattern that compiles gives a matcher that accepts exactly the texts of the pattern, read as a
-- glob: each "*" stands for any text, and every other character for itself.
pub compile_pattern-glob :
    (p v : String) (m : FieldMatcher) → compile_pattern p ≡ ok m → match_field m v ≡ glob p v
unfolding compile_pattern match_field
compile_pattern-glob p v m h = ground (
  arith,
  any_matches p v,
  suffix_matches p v,
  glob_prefix p v,
  glob_exact p v,
  split_one p,
  split-ne-zero p,
)
