-- ===== src/Base/Dict.antt =====
-- A Go map with string keys, as an association list. `insert` writes in place or at the end, and
-- `remove` is `delete`.
use mathlib.Core.Path.{◌≡◌, refl, ap, sym, subst, subst₂}
use mathlib.Core.Logic.{inl, inr}
use mathlib.Core.List.{List, [], ◌∷◌}
use mathlib.Core.Option.{Option, none, some}
use Prim.Native.Nat.{suc, ◌≤◌}
use native.Mathlib.Omega.{arith}
use vcos.Base.Tests.{if◌then◌else◌, Bool-cases}
use vcos.Base.Lists.{length}
use vcos.Base.Text.{Text, ◌==◌, eq_iff}

abbrev pub Dict {ℓ} : Type ℓ → Type ℓ
Dict V = List (Text × V)

module _ {ℓ} {V : Type ℓ} where
  unfoldable pub lookup : Text → Dict V → Option V
  lookup key [] = none
  lookup key ((name, value) ∷ later) = if name == key then some value else lookup key later

  -- `delete(m, key)`
  unfoldable pub remove : Text → Dict V → Dict V
  remove key [] = []
  remove key (entry ∷ later) = if entry.0 == key then remove key later else entry ∷ remove key later

  pub lookup-remove :
      (gone key : Text) (dict : Dict V)
      → lookup key (remove gone dict) ≡ (if gone == key then none else lookup key dict)
  unfolding remove lookup
  lookup-remove gone key [] = ground arith
  lookup-remove gone key ((name, value) ∷ later) =
      ground
        (arith, lookup-remove gone key later, eq_iff name gone, eq_iff name key, eq_iff gone key)

  -- `m[key] = value`
  unfoldable pub insert : Text → V → Dict V → Dict V
  insert key value [] = (key, value) ∷ []
  insert key value (entry ∷ later) =
      if entry.0 == key then (key, value) ∷ later else entry ∷ insert key value later

  pub lookup-insert :
      (at key : Text) (value : V) (dict : Dict V)
      → lookup key (insert at value dict) ≡ (if at == key then some value else lookup key dict)
  unfolding insert lookup
  lookup-insert at key value [] = refl
  lookup-insert at key value ((name, old) ∷ later) =
      ground
        (arith, lookup-insert at key value later, eq_iff name at, eq_iff name key, eq_iff at key)

  -- Each entry satisfies a predicate on its key and value.
  abbrev pub Entries {κ} : (Text → V → Type κ) → Dict V → Type κ
  Entries P [] = Unit
  Entries P ((k, v) ∷ m) = P k v × Entries P m

  pub Entries-insert {κ} :
      (P : Text → V → Type κ) (k : Text) (v : V) (m : Dict V)
      → P k v
      → Entries P m
      → Entries P (insert k v m)
  unfolding insert
  Entries-insert P k v [] p h = (p, tt)
  Entries-insert P k v ((j, w) ∷ m) p h = ground (arith, Entries-insert P k v m p h.1)

  pub Entries-remove {κ} :
      (P : Text → V → Type κ) (k : Text) (m : Dict V) → Entries P m → Entries P (remove k m)
  unfolding remove
  Entries-remove P k [] h = tt
  Entries-remove P k ((j, w) ∷ m) h = ground (arith, Entries-remove P k m h.1)

  pub Entries-map {κ κ'} :
      (P : Text → V → Type κ) (Q : Text → V → Type κ')
      → ((k : Text) (v : V) → P k v → Q k v)
      → (m : Dict V) → Entries P m
      → Entries Q m
  Entries-map P Q f [] h = tt
  Entries-map P Q f ((k, v) ∷ m) h = (f k v h.0, Entries-map P Q f m h.1)

  pub Entries-lookup {κ} :
      (P : Text → V → Type κ) (k : Text) (m : Dict V) {v : V}
      → lookup k m ≡ some v
      → Entries P m
      → P k v
  unfolding lookup
  Entries-lookup P k [] e h = cc
  Entries-lookup P k ((j, w) ∷ m) {v} e h = elim (Bool-cases (j == k)) [
    | inl hit ↦ subst₂ P ((eq_iff j k).0 hit) (ground arith) h.0
    | inr miss ↦ Entries-lookup P k m (rw miss at e) h.1
  ]

  -- No key occurs twice.
  abbrev pub IsMap : Dict V → Type ℓ
  IsMap [] = Unit
  IsMap ((k, v) ∷ m) = (lookup k m ≡ none) × IsMap m

  pub IsMap-insert : (k : Text) (v : V) (m : Dict V) → IsMap m → IsMap (insert k v m)
  unfolding insert lookup
  IsMap-insert k v [] h = (refl, tt)
  IsMap-insert k v ((j, w) ∷ m) h =
      ground (arith, eq_iff j k, eq_iff k j, IsMap-insert k v m h.1, lookup-insert k j v m)

  pub IsMap-remove : (k : Text) (m : Dict V) → IsMap m → IsMap (remove k m)
  unfolding remove
  IsMap-remove k [] h = tt
  IsMap-remove k ((j, w) ∷ m) h = ground (arith, IsMap-remove k m h.1, lookup-remove k j m)

  pub remove_absent : (k : Text) (m : Dict V) → lookup k m ≡ none → remove k m ≡ m
  unfolding remove lookup
  remove_absent k [] h = refl
  remove_absent k ((j, w) ∷ m) h = ground (arith, remove_absent k m)

  -- `delete` of a present key takes one entry away.
  pub length-remove :
      (k : Text) (m : Dict V) {v : V}
      → IsMap m
      → lookup k m ≡ some v
      → length m ≡ suc (length (remove k m))
  unfolding remove lookup
  length-remove k [] h e = cc
  length-remove k ((j, w) ∷ m) h e = elim (Bool-cases (j == k)) [
    | inl hit ↦
        rw (hit, if◌then◌else◌)
          (ap (λ l. suc (length l))
            (sym (remove_absent k m (subst (λ i. lookup i m ≡ none) ((eq_iff j k).0 hit) h.0))))
    | inr miss ↦ rw (miss, if◌then◌else◌) (ap suc (length-remove k m h.1 (rw miss at e)))
  ]

  -- A write makes a map at most one entry longer.
  pub length-insert : (k : Text) (v : V) (m : Dict V) → length (insert k v m) ≤ suc (length m)
  unfolding insert
  length-insert k v [] = omega arith
  length-insert k v (x ∷ m) = ground (arith, length-insert k v m)
