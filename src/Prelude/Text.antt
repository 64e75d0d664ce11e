-- ===== src/Prelude/Text.antt =====
-- JavaScript's text operations that the program uses: concatenation, `split` at a character,
-- `replace` of a character, `trim`, and the membership test of a list of texts.
use Prim.Native.Char.{Char, code}
use mathlib.Core.Path.{ap₂}
use text.Mathlib.TextEquality.{Char-path}
use agrocylo_pip.Prelude.{
  All, Bool, Bool-cases, IsListed, List, String, [], ap, arith, eq_iff, false, if◌then◌else◌, inl,
  inr, leb, refl, str_eq, sym, true, ℕ, ◌&&◌, ◌++◌, ◌==◌, ◌||◌, ◌∙◌, ◌∷◌, ◌≡◌, ◌≢◌,
}

-- `${s}${t}`
abbrev pub concat : String → String → String
concat String.[] t = t
concat (String.◌∷◌ c s) t = String.◌∷◌ c (concat s t)

abbrev pub is_blank : String → Bool
is_blank String.[] = true
is_blank (String.◌∷◌ _ _) = false

abbrev pub has_code : List ℕ → ℕ → Bool
has_code [] c = false
has_code (k ∷ ks) c = k == c || has_code ks c

-- `set.has(s)`, and `includes` on an array
unfoldable pub has : List String → String → Bool
has [] s = false
has (t ∷ ts) s = str_eq t s || has ts s

-- A character in front of the first part
abbrev extend : Char → List String → List String
extend c [] = String.◌∷◌ c String.[] ∷ []
extend c (p ∷ ps) = String.◌∷◌ c p ∷ ps

-- `s.split(c)` at one character
unfoldable pub split : ℕ → String → List String
split k String.[] = String.[] ∷ []
split k (String.◌∷◌ c s) =
    let rest = split k s in if code c == k then String.[] ∷ rest else extend c rest

-- `s.replace(/c/g, d)`
unfoldable pub replace : ℕ → Char → String → String
replace k d String.[] = String.[]
replace k d (String.◌∷◌ c s) = String.◌∷◌ (if code c == k then d else c) (replace k d s)

-- JavaScript's white space and line ends
abbrev pub is_space : ℕ → Bool
is_space c =
    (leb 9 c && leb c 13)
    || (leb 8192 c && leb c 8202)
    || has_code (32 ∷ 160 ∷ 5760 ∷ 8232 ∷ 8233 ∷ 8239 ∷ 8287 ∷ 12288 ∷ 65279 ∷ []) c

unfoldable pub trim_start : String → String
trim_start String.[] = String.[]
trim_start (String.◌∷◌ c s) =
    let rest = trim_start s in if is_space (code c) then rest else String.◌∷◌ c s

abbrev prepend_unless : Bool → Char → String → String
prepend_unless true c s = s
prepend_unless false c s = String.◌∷◌ c s

unfoldable pub trim_end : String → String
trim_end String.[] = String.[]
trim_end (String.◌∷◌ c s) =
    let rest = trim_end s in prepend_unless (is_space (code c) && is_blank rest) c rest

-- `s.trim()`
unfoldable pub trim : String → String
unfolding trim_start trim_end
trim s = trim_end (trim_start s)

-- The texts of a list, with a character between them
abbrev pub joined : Char → List String → String
joined d [] = String.[]
joined d (s ∷ []) = s
joined d (s ∷ t ∷ ts) = concat s (String.◌∷◌ d (joined d (t ∷ ts)))

abbrev pub Lacks : ℕ → String → Type 0
Lacks k String.[] = Unit
Lacks k (String.◌∷◌ c s) = (code c ≢ k) × Lacks k s

abbrev without_first : String → String
without_first String.[] = String.[]
without_first (String.◌∷◌ _ s) = s

pub concat_cancel : (s t u : String) → concat s t ≡ concat s u → t ≡ u
concat_cancel String.[] t u h = h
concat_cancel (String.◌∷◌ c s) t u h = concat_cancel s t u (ap without_first h)

pub has-IsListed : (ts : List String) (s : String) → has ts s ≡ true → IsListed s ts
unfolding has
has-IsListed [] s h = cc
has-IsListed (t ∷ ts) s h = ground (arith, eq_iff t s, has-IsListed ts s)

pub IsListed-has : (ts : List String) (s : String) → IsListed s ts → has ts s ≡ true
unfolding has
IsListed-has [] s h = absurd h
IsListed-has (t ∷ ts) s h = ground (arith, eq_iff t s, IsListed-has ts s)

pub Lacks-concat :
    (k : ℕ) (d : Char) (s t : String) → Lacks k (concat s (String.◌∷◌ d t)) → code d ≢ k
Lacks-concat k d String.[] t (differs, h) = differs
Lacks-concat k d (String.◌∷◌ c s) t (differs, h) = Lacks-concat k d s t h

-- A text with no separator is its only part, also in front of a separator.
pub split-Lacks : (k : ℕ) (s : String) → Lacks k s → split k s ≡ s ∷ []
unfolding split
split-Lacks k String.[] h = refl
split-Lacks k (String.◌∷◌ c s) (differs, h) = rw (split-Lacks k s h) (ground arith)

pub split-concat :
    (d : Char) (s t : String)
    → Lacks (code d) s
    → split (code d) (concat s (String.◌∷◌ d t)) ≡ s ∷ split (code d) t
unfolding split
split-concat d String.[] t h = ground arith
split-concat d (String.◌∷◌ c s) t (differs, h) = rw (split-concat d s t h) (ground arith)

-- Every text is its parts, joined, and the parts lack the separator.
module _ (d : Char) where
  joined-extend :
      (c : Char) (ps : List String) → ps ≢ [] → joined d (extend c ps) ≡ String.◌∷◌ c (joined d ps)
  joined-extend c [] h = absurd (h refl)
  joined-extend c (p ∷ []) h = refl
  joined-extend c (p ∷ q ∷ ps) h = refl

  joined-blank :
      (ps : List String) → ps ≢ [] → joined d (String.[] ∷ ps) ≡ String.◌∷◌ d (joined d ps)
  joined-blank [] h = absurd (h refl)
  joined-blank (p ∷ ps) h = refl

  extend-ne-nil : (c : Char) (ps : List String) → extend c ps ≢ []
  extend-ne-nil c [] e = cc
  extend-ne-nil c (p ∷ ps) e = cc

  extend-Lack :
      (c : Char) (ps : List String)
      → code c ≢ code d
      → All (Lacks (code d)) ps
      → All (Lacks (code d)) (extend c ps)
  extend-Lack c [] h hs = ((h, tt), tt)
  extend-Lack c (p ∷ ps) h (hp, hs) = ((h, hp), hs)

  split-ne-nil : (s : String) → split (code d) s ≢ []
  unfolding split
  split-ne-nil String.[] e = cc
  split-ne-nil (String.◌∷◌ c s) e = ground (arith, extend-ne-nil c (split (code d) s))

  pub joined-split : (s : String) → joined d (split (code d) s) ≡ s
  unfolding split
  joined-split String.[] = refl
  joined-split (String.◌∷◌ c s) = elim (Bool-cases (code c == code d)) [
    | inl same ↦ rw same (
        joined-blank (split (code d) s) (split-ne-nil s)
        ∙ ap₂ String.◌∷◌ (sym (Char-path c d (ground arith))) (joined-split s))
    | inr differs ↦
        rw differs
          (joined-extend c (split (code d) s) (split-ne-nil s) ∙ ap (String.◌∷◌ c) (joined-split s))
  ]

  pub split-Lack : (s : String) → All (Lacks (code d)) (split (code d) s)
  unfolding split
  split-Lack String.[] = (tt, tt)
  split-Lack (String.◌∷◌ c s) = elim (Bool-cases (code c == code d)) [
    | inl same ↦ rw same (tt, split-Lack s)
    | inr differs ↦ rw differs (extend-Lack c (split (code d) s) (ground arith) (split-Lack s))
  ]

pub has-append : (ks ls : List String) (k : String) → has (ks ++ ls) k ≡ has ks k || has ls k
unfolding has
has-append [] ls k = refl
has-append (l ∷ ks) ls k = ground (arith, has-append ks ls k)
