-- ===== src/Base/Text.antt =====
-- A Go string that holds valid UTF-8, as the list of its runes, and what the program uses of the
-- standard packages `strings` and `unicode`.
use Prim.Native.Char.{code}
use Prim.Native.String.{String}
use Prim.Native.Nat.{ℕ, zero, suc, ◌+◌, ◌/◌, ◌%◌}
use mathlib.Core.Path.{◌≡◌, refl}
use mathlib.Core.Logic.{◌↔◌}
use mathlib.Core.Bool.{Bool, true, false, ◌&&◌, ◌||◌}
use mathlib.Core.List.{List, [], ◌∷◌, ◌++◌, map, reverse, append-nil, append_assoc}
use native.Mathlib.Omega.{arith}
use vcos.Base.Tests.{ltb, leb, nat_eq, if◌then◌else◌}

abbrev pub Text : Type 0
Text = List ℕ

-- The runes of a literal.
abbrev pub runes : String → Text
runes String.[] = []
runes (String.◌∷◌ c s) = code c ∷ runes s

infix 50 ◌==◌
unfoldable pub ◌==◌ : Text → Text → Bool
[] == [] = true
[] == (y ∷ ys) = false
(x ∷ xs) == [] = false
(x ∷ xs) == (y ∷ ys) = nat_eq x y && (xs == ys)

pub ==→≡ : (s t : Text) → (s == t) ≡ true → s ≡ t
unfolding ◌==◌
==→≡ [] [] h = refl
==→≡ [] (y ∷ ys) h = cc
==→≡ (x ∷ xs) [] h = cc
==→≡ (x ∷ xs) (y ∷ ys) h = ground (arith, ==→≡ xs ys)

pub ==_refl : (s : Text) → (s == s) ≡ true
unfolding ◌==◌
==_refl [] = refl
==_refl (x ∷ xs) = ground (arith, ==_refl xs)

pub eq_iff : (s t : Text) → ((s == t) ≡ true) ↔ (s ≡ t)
eq_iff s t = (==→≡ s t, λ p. subst' p)
  where
    subst' : s ≡ t → (s == t) ≡ true
    subst' p = rw p (==_refl t)

abbrev pub is_empty : Text → Bool
is_empty [] = true
is_empty (x ∷ xs) = false

-- unicode.IsSpace
unfoldable pub is_space : ℕ → Bool
is_space c =
    (leb 9 c && leb c 13)
    || nat_eq c 32
    || nat_eq c 0x85
    || nat_eq c 0xa0
    || nat_eq c 0x1680
    || (leb 0x2000 c && leb c 0x200a)
    || nat_eq c 0x2028
    || nat_eq c 0x2029
    || nat_eq c 0x202f
    || nat_eq c 0x205f
    || nat_eq c 0x3000

unfoldable pub trim_left : Text → Text
trim_left [] = []
trim_left (c ∷ s) = if is_space c then trim_left s else c ∷ s

-- strings.TrimSpace
unfoldable pub trim_space : Text → Text
unfolding trim_left is_space
trim_space s = reverse (trim_left (reverse (trim_left s)))

-- strings.HasPrefix
unfoldable pub has_prefix : Text → Text → Bool
has_prefix s [] = true
has_prefix [] (c ∷ p) = false
has_prefix (d ∷ s) (c ∷ p) = nat_eq d c && has_prefix s p

-- strings.HasSuffix
unfoldable pub has_suffix : Text → Text → Bool
unfolding has_prefix
has_suffix s p = has_prefix (reverse s) (reverse p)

-- strings.Contains
unfoldable pub contains : Text → Text → Bool
unfolding has_prefix
contains [] p = has_prefix [] p
contains (c ∷ s) p = has_prefix (c ∷ s) p || contains s p

-- The loop of strings.Fields: the word so far, and the rest of the text.
fields_from : Text → Text → List Text
fields_from word [] = if is_empty word then [] else word ∷ []
fields_from word (c ∷ s) =
    let longer = fields_from (word ++ c ∷ []) s in
    let next = fields_from [] s in
    if is_space c then (if is_empty word then next else word ∷ next) else longer

-- strings.Fields
unfoldable pub fields : Text → List Text
unfolding fields_from is_space
fields s = fields_from [] s

-- No rune of the text is a space.
abbrev pub NoSpace : Text → Type 0
NoSpace [] = Unit
NoSpace (c ∷ s) = (is_space c ≡ false) × NoSpace s

fields_from-word :
    (word x s : Text) (c : ℕ)
    → NoSpace x
    → is_space c ≡ true
    → is_empty (word ++ x) ≡ false
    → fields_from word (x ++ c ∷ s) ≡ (word ++ x) ∷ fields_from [] s
unfolding fields_from
fields_from-word word [] s c h space e = ground (arith, append-nil word)
fields_from-word word (d ∷ x) s c h space e =
    rw
      (
        h.0,
        if◌then◌else◌,
        fields_from-word (word ++ d ∷ []) x s c h.1 space (rw (append_assoc word (d ∷ []) x) e),
        append_assoc word (d ∷ []) x,
      )
      refl

fields_from-last :
    (word x : Text)
    → NoSpace x
    → is_empty (word ++ x) ≡ false
    → fields_from word x ≡ (word ++ x) ∷ []
unfolding fields_from
fields_from-last word [] h e = ground (arith, append-nil word)
fields_from-last word (d ∷ x) h e =
    rw
      (
        h.0,
        if◌then◌else◌,
        fields_from-last (word ++ d ∷ []) x h.1 (rw (append_assoc word (d ∷ []) x) e),
        append_assoc word (d ∷ []) x,
      )
      refl

-- The first word of a text, up to its first space.
pub fields-word :
    (x s : Text) (c : ℕ)
    → NoSpace x
    → is_space c ≡ true
    → is_empty x ≡ false
    → fields (x ++ c ∷ s) ≡ x ∷ fields s
unfolding fields
fields-word x s c h space e = fields_from-word [] x s c h space e

pub fields_one : (x : Text) → NoSpace x → is_empty x ≡ false → fields x ≡ x ∷ []
unfolding fields
fields_one x h e = fields_from-last [] x h e

-- strings.Join
unfoldable pub join : List Text → Text → Text
join [] sep = []
join (s ∷ []) sep = s
join (s ∷ t ∷ ts) sep = s ++ (sep ++ join (t ∷ ts) sep)

-- strings.ToLower, over the map of the runes beyond ASCII (the tables of package `unicode`).
module _ (unicode_lower : ℕ → ℕ) where
  unfoldable pub rune_lower : ℕ → ℕ
  rune_lower c =
      if ltb c 128 then (if leb b'A' c && leb c b'Z' then c + 32 else c) else unicode_lower c

  unfoldable pub to_lower : Text → Text
  unfolding rune_lower
  to_lower s = map rune_lower s

-- The decimal digits of a number, last digit first, on fuel: `itoa`, and the verb %d of `fmt`.
unfoldable pub digits_from : ℕ → ℕ → Text
digits_from zero n = []
digits_from (suc fuel) n =
    let rest = digits_from fuel (n / 10) in
    if ltb n 10 then (b'0' + n) ∷ [] else (b'0' + n % 10) ∷ rest

unfoldable pub decimal : ℕ → Text
unfolding digits_from
decimal n = reverse (digits_from (suc n) n)
