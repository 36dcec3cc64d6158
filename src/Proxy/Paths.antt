-- ===== src/Proxy/Paths.antt =====
-- The paths that src/bff/proxy.py lets through.
use Prim.Native.Char.{Char, code}
use Prim.Native.String.{String, ◌++◌ as str_append}
use mathlib.Core.Path.{◌≡◌, refl, ap, sym, ◌∙◌, subst}
use mathlib.Core.Logic.{◌≢◌, ◌⊎◌, inl, inr}
use mathlib.Core.Bool.{Bool, true, false, ◌||◌}
use mathlib.Core.Option.{some}
use mathlib.Core.List.{List, [], ◌∷◌}
use native.Mathlib.Omega.{arith}
use text.Mathlib.Text.{◌==◌ as str_eq}
use text.Mathlib.TextEquality.{eq_iff, Char-path}
use text.Mathlib.TextLemmas.{nil-append, cons-append}
use foundation_intelligence.Common.{
  any, ◌==◌, Bool-cases, Option-cases, is_one_of, is_empty, some_eq, All, any_none, select-keeps,
  All-mono, All-both,
}
use foundation_intelligence.Proxy.{
  split, starts_slash, is_named, normalized_path, rule_allows, before_star, after_prefix,
  path_parts, join, has_backslash, has_double_slash,
}

-- A rule covers its own path, or what stands below the part before a final slash and star.
abbrev pub Covers : String → String → Type 0
Covers rule path =
    (path ≡ rule)
    ⊎ ((prefix : String) × (rule ≡ str_append prefix "/*")
        × ((path ≡ prefix) ⊎ ((rest : String) × (path ≡ str_append (str_append prefix "/") rest))))

after_prefix-some :
    (p s : String) {rest : String} → after_prefix p s ≡ some rest → s ≡ str_append p rest
unfolding after_prefix
after_prefix-some String.[] s {rest} e = some_eq e ∙ sym (nil-append rest)
after_prefix-some (String.◌∷◌ c p) String.[] e = cc
after_prefix-some (String.◌∷◌ c p) (String.◌∷◌ d s) {rest} e =
    elim (Bool-cases (code c == code d)) [
      | inl same ↦
          let chars : c ≡ d = Char-path c d (ground arith) in
          rw (← chars)
            (ap (String.◌∷◌ c) (after_prefix-some p s (rw same at e)) ∙ sym (cons-append c p rest))
      | inr other ↦ cc (rw other at e)
    ]

before_star-some : (s : String) {p : String} → before_star s ≡ some p → s ≡ str_append p "/*"
unfolding before_star
before_star-some String.[] e = cc
before_star-some (String.◌∷◌ c s) {p} e = elim (Bool-cases (str_eq (String.◌∷◌ c s) "/*")) [
  | inl here ↦
      (eq_iff _ _).0 here
      ∙ sym (subst (λ x. str_append x "/*" ≡ "/*") (some_eq (rw here at e)) (nil-append "/*"))
  | inr later ↦ elim (Option-cases (before_star s)) [
    | inl nowhere ↦ cc (rw (later, nowhere) at e)
    | inr (q, found) ↦
        let same : String.◌∷◌ c q ≡ p = some_eq (rw (later, found) at e) in
        ap (String.◌∷◌ c) (before_star-some s found)
        ∙ sym (cons-append c q "/*")
        ∙ ap (λ x. str_append x "/*") same
  ]
]

pub rule_allows-Covers :
    (rule path : String) → rule_allows rule (before_star rule) path ≡ true → Covers rule path
rule_allows-Covers rule path h = elim (Option-cases (before_star rule)) [
  | inl plain ↦ inl ((eq_iff path rule).0 (rw plain at h))
  | inr (prefix, star) ↦ inr (
    prefix,
    before_star-some rule star,
    elim (Bool-cases (str_eq path prefix)) [
      | inl same ↦ inl ((eq_iff path prefix).0 same)
      | inr other ↦ elim (Option-cases (after_prefix (str_append prefix "/") path)) [
        | inl outside ↦ cc (rw (star, other, outside) at h)
        | inr (rest, below) ↦ inr (rest, after_prefix-some (str_append prefix "/") path below)
      ]
    ],
  )
]

abbrev has_slash : String → Bool
has_slash String.[] = false
has_slash (String.◌∷◌ c s) = code c == 47 || has_slash s

-- A root, or a part without a slash; never the one that leads up.
abbrev pub IsPart : String → Type 0
IsPart part = (part ≢ "..") × ((part ≡ "/") ⊎ (has_slash part ≡ false))

-- The path has been split into parts none of which leads up.
abbrev pub IsSafe : String → Type 0
IsSafe path = (parts : List String) × (path ≡ join parts) × All IsPart parts

split-has_slash : (s : String) → All (λ p. has_slash p ≡ false) ((split s).0 ∷ (split s).1)
unfolding split
split-has_slash String.[] = (refl, tt)
split-has_slash (String.◌∷◌ c s) = elim (Bool-cases (code c == 47)) [
  | inl slash ↦ rw slash (refl, split-has_slash s)
  | inr other ↦
      let parts = split-has_slash s in rw other (grown c (split s).0 other parts.0, parts.1)
]
  where
    grown :
        (c : Char) (s : String)
        → (code c == 47) ≡ false
        → has_slash s ≡ false
        → has_slash (String.◌∷◌ c s) ≡ false
    grown c s other whole = rw (other, whole) refl

path_parts-whole : (path : String) → All (λ p. (p ≡ "/") ⊎ (has_slash p ≡ false)) (path_parts path)
unfolding path_parts
path_parts-whole path =
    let named =
      All-mono (λ p. has_slash p ≡ false) (λ p. (p ≡ "/") ⊎ (has_slash p ≡ false)) _ (λ p h. inr h)
        (select-keeps _ is_named ((split path).0 ∷ (split path).1) (split-has_slash path)) in
    elim (Bool-cases (starts_slash path)) [
      | inl root ↦ rw root (inl refl, named)
      | inr relative ↦ rw relative named
    ]

pub normalized_path-IsSafe :
    (path : String) {safe : String} → normalized_path path ≡ some safe → IsSafe safe
unfolding normalized_path
normalized_path-IsSafe path e =
    elim (Bool-cases (is_empty path || (has_backslash path || has_double_slash path))) [
      | inl bad ↦ cc (rw bad at e)
      | inr good ↦
          elim (Bool-cases
            (any (λ part. is_one_of part ("" ∷ "." ∷ ".." ∷ [])) (path_parts path))) [
              | inl up ↦ cc (rw (good, up) at e)
              | inr down ↦ (
                path_parts path,
                sym (some_eq (rw (good, down) at e)),
                All-both _ _ (path_parts path)
                    (All-mono _ _ (path_parts path) (λ part h same. cc (rw same at h))
                      (any_none (λ part. is_one_of part ("" ∷ "." ∷ ".." ∷ [])) (path_parts path)
                        down))
                    (path_parts-whole path),
              )
            ]
    ]
