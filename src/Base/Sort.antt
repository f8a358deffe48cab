-- ===== src/Base/Sort.antt =====
-- sort.Slice by a falling rank: insertion into a sorted list. sort.Slice is not stable; which of its
-- results comes out is settled by the order of its argument, so what is claimed of every order of
-- the argument covers them all.
use Prim.Native.Nat.{ℕ, zero, suc, ◌≤◌}
use mathlib.Core.Path.{◌≡◌, refl, ap, ◌∙◌}
use mathlib.Core.Bool.{Bool}
use mathlib.Core.Logic.{inl, inr, ∥∥₁_map, ∥∥₁_elim}
use mathlib.Core.List.{List, [], ◌∷◌, Perm, Permᴰ}
use mathlib.Core.List.Perm
use mathlib.Core.List.Permᴰ
use native.Mathlib.Nat.{ℕ_set}
use native.Mathlib.Omega.{arith}
use vcos.Base.Tests.{ltb, if◌then◌else◌, Bool-cases}
use vcos.Base.Lists.{All, All-take, keep, length, take}

module _ {ℓ} {A : Type ℓ} (rank : A → ℕ) where
  unfoldable pub insert_by : A → List A → List A
  insert_by a [] = a ∷ []
  insert_by a (x ∷ xs) = if ltb (rank x) (rank a) then a ∷ x ∷ xs else x ∷ insert_by a xs

  unfoldable pub sort_by : List A → List A
  unfolding insert_by
  sort_by [] = []
  sort_by (a ∷ xs) = insert_by a (sort_by xs)

  -- Each item ranks at least as high as those after it.
  abbrev pub Falling : List A → Type ℓ
  Falling [] = Unit
  Falling (x ∷ xs) = All (λ y. rank y ≤ rank x) xs × Falling xs

  All-insert_by {κ} :
      (P : A → Type κ) (a : A) (xs : List A) → P a → All P xs → All P (insert_by a xs)
  unfolding insert_by
  All-insert_by P a [] p h = (p, tt)
  All-insert_by P a (x ∷ xs) p h = elim (Bool-cases (ltb (rank x) (rank a))) [
    | inl up ↦ rw (up, if◌then◌else◌) (p, h)
    | inr down ↦ rw (down, if◌then◌else◌) (h.0, All-insert_by P a xs p h.1)
  ]

  All-lower : (m n : ℕ) (xs : List A) → m ≤ n → All (λ y. rank y ≤ m) xs → All (λ y. rank y ≤ n) xs
  All-lower m n [] le h = tt
  All-lower m n (x ∷ xs) le h = (omega (arith, h.0), All-lower m n xs le h.1)

  insert_by-Falling : (a : A) (xs : List A) → Falling xs → Falling (insert_by a xs)
  unfolding insert_by
  insert_by-Falling a [] h = (tt, tt)
  insert_by-Falling a (x ∷ xs) h = elim (Bool-cases (ltb (rank x) (rank a))) [
    | inl up ↦
        let le : rank x ≤ rank a = ground arith in
        rw (up, if◌then◌else◌) ((le, All-lower (rank x) (rank a) xs le h.0), h)
    | inr down ↦
        let le : rank a ≤ rank x = ground arith in
        rw (down, if◌then◌else◌)
          (All-insert_by (λ y. rank y ≤ rank x) a xs le h.0, insert_by-Falling a xs h.1)
  ]

  pub sort_by-Falling : (xs : List A) → Falling (sort_by xs)
  unfolding sort_by
  sort_by-Falling [] = tt
  sort_by-Falling (a ∷ xs) = insert_by-Falling a (sort_by xs) (sort_by-Falling xs)

  pub All-sort_by {κ} : (P : A → Type κ) (xs : List A) → All P xs → All P (sort_by xs)
  unfolding sort_by
  All-sort_by P [] h = tt
  All-sort_by P (a ∷ xs) h = All-insert_by P a (sort_by xs) h.0 (All-sort_by P xs h.1)

  pub Falling-take : (n : ℕ) (xs : List A) → Falling xs → Falling (take n xs)
  Falling-take zero xs h = tt
  Falling-take (suc n) [] h = tt
  Falling-take (suc n) (x ∷ xs) h =
      (All-take (λ y. rank y ≤ rank x) n xs h.0, Falling-take n xs h.1)

  insert_by-perm : (a : A) (xs : List A) → Perm (insert_by a xs) (a ∷ xs)
  unfolding insert_by
  insert_by-perm a [] = Perm.refl (a ∷ [])
  insert_by-perm a (x ∷ xs) = elim (Bool-cases (ltb (rank x) (rank a))) [
    | inl up ↦ rw (up, if◌then◌else◌) (Perm.refl (a ∷ x ∷ xs))
    | inr down ↦
        rw (down, if◌then◌else◌) (Perm.trans (Perm.cons x (insert_by-perm a xs)) (Perm.swap a x xs))
  ]

  pub sort_by-perm : (xs : List A) → Perm (sort_by xs) xs
  unfolding sort_by
  sort_by-perm [] = Perm.refl []
  sort_by-perm (a ∷ xs) = Perm.trans (insert_by-perm a (sort_by xs)) (Perm.cons a (sort_by-perm xs))

module _ {ℓ} {A : Type ℓ} where
  keep-Permᴰ : (p : A → Bool) {xs ys : List A} → Permᴰ xs ys → Permᴰ (keep p xs) (keep p ys)
  keep-Permᴰ p Permᴰ.nil = Permᴰ.nil
  keep-Permᴰ p (Permᴰ.cons {b = b} {l₁ = xs} {l₂ = ys} e d) =
      let rest = keep-Permᴰ p d in
      rw e (elim (Bool-cases (p b)) [
        | inl hit ↦ rw (hit, if◌then◌else◌) (Permᴰ.cons refl rest)
        | inr miss ↦ rw (miss, if◌then◌else◌) rest
      ])
  keep-Permᴰ p (Permᴰ.swap {a' = a} {b' = b} {l = xs} e e') =
      rw (e, e')
        (elim (Bool-cases (p a)) [
          | inl h ↦ elim (Bool-cases (p b)) [
            | inl k ↦ rw (h, k, if◌then◌else◌) (Permᴰ.swap refl refl)
            | inr k ↦ rw (h, k, if◌then◌else◌) (Permᴰ.refl (a ∷ keep p xs))
          ]
          | inr h ↦ elim (Bool-cases (p b)) [
            | inl k ↦ rw (h, k, if◌then◌else◌) (Permᴰ.refl (b ∷ keep p xs))
            | inr k ↦ rw (h, k, if◌then◌else◌) (Permᴰ.refl (keep p xs))
          ]
        ])
  keep-Permᴰ p (Permᴰ.trans d d') = Permᴰ.trans (keep-Permᴰ p d) (keep-Permᴰ p d')

  pub keep-perm : (p : A → Bool) {xs ys : List A} → Perm xs ys → Perm (keep p xs) (keep p ys)
  keep-perm p {xs} {ys} h = ∥∥₁_map {B = Permᴰ (keep p xs) (keep p ys)} h (keep-Permᴰ p)

  length-Permᴰ : {xs ys : List A} → Permᴰ xs ys → length xs ≡ length ys
  length-Permᴰ Permᴰ.nil = refl
  length-Permᴰ (Permᴰ.cons e d) = ap suc (length-Permᴰ d)
  length-Permᴰ (Permᴰ.swap e e') = refl
  length-Permᴰ (Permᴰ.trans d d') = length-Permᴰ d ∙ length-Permᴰ d'

  pub length-perm : {xs ys : List A} → Perm xs ys → length xs ≡ length ys
  length-perm h = ∥∥₁_elim h (ℕ_set _ _) length-Permᴰ
