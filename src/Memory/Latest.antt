-- ===== src/Memory/Latest.antt =====
-- What a query of the store in memory returns right after an upsert (memory/memstore.go).
use mathlib.Core.List.{Perm}
use vcos.Base.{
  ℕ, ◌≤◌, ◌<◌, ◌≡◌, refl, ◌∙◌, Bool, true, false, not, ◌&&◌, List, [], ◌∷◌, ◌++◌, arith,
  if◌then◌else◌, inl, inr, Bool-cases, ltb, length, keep, length-keep-le, All,
}
use vcos.Base.Text.{Text, ◌==◌, eq_iff, ==_refl, is_empty}
use vcos.Base.Int.{pos}
use vcos.Base.Dict.{Dict, insert, Entries}
use vcos.Base.Sort.{Falling, keep-perm, length-perm}
use vcos.Memory.{
  Entry, Filter, MemStore, selects, expired, expiry, match_any_string, upsert, values, query,
}
use vcos.Memory.Storing.{stamped}
use vcos.Memory.Searching.{matching, query_selects}

module _ (unicode_lower : ℕ → ℕ) (now : ℕ) (f : Filter) (e : Entry) where
  -- The entry is updated no earlier than e; and it has other content, too.
  abbrev fresh : Entry → Bool
  fresh y = not (ltb y.updated_at e.updated_at)

  abbrev stray : Entry → Bool
  stray y = fresh y && not (y.content == e.content)

  -- What the filter selects was updated before e.
  abbrev pub Older : Text → Entry → Type 0
  Older key y = selects unicode_lower now f y ≡ true → y.updated_at < e.updated_at

  kept-Older :
      (m : Dict Entry)
      → Entries Older m
      → (length (keep fresh (keep (selects unicode_lower now f) (values m))) ≡ 0)
        × (length (keep stray (keep (selects unicode_lower now f) (values m))) ≡ 0)
  kept-Older [] h = (refl, refl)
  kept-Older ((j, y) ∷ m) (older, rest) =
      let (no_fresh, no_stray) = kept-Older m rest in
      elim (Bool-cases (selects unicode_lower now f y)) [
        | inl hit ↦
            let late : ltb y.updated_at e.updated_at ≡ true = ground (arith, older hit) in
            rw (hit, if◌then◌else◌, late, if◌then◌else◌) (no_fresh, no_stray)
        | inr miss ↦ rw (miss, if◌then◌else◌) (no_fresh, no_stray)
      ]

  kept-first :
      (m : Dict Entry)
      → selects unicode_lower now f e ≡ true
      → Entries Older m
      → (length (keep fresh (keep (selects unicode_lower now f) (e ∷ values m))) ≡ 1)
        × (length (keep stray (keep (selects unicode_lower now f) (e ∷ values m))) ≡ 0)
  kept-first m own h =
      let (no_fresh, no_stray) = kept-Older m h in
      let same : ltb e.updated_at e.updated_at ≡ false = ground arith in
      rw (own, if◌then◌else◌, same, ==_refl e.content, if◌then◌else◌)
        (ground (arith, no_fresh), no_stray)

  kept-insert :
      (k : Text) (m : Dict Entry)
      → selects unicode_lower now f e ≡ true
      → Entries Older m
      → (length (keep fresh (keep (selects unicode_lower now f) (values (insert k e m)))) ≡ 1)
        × (length (keep stray (keep (selects unicode_lower now f) (values (insert k e m)))) ≡ 0)
  unfolding insert
  kept-insert k [] own h = kept-first [] own tt
  kept-insert k ((j, y) ∷ m) own (older, rest) = elim (Bool-cases (j == k)) [
    | inl same ↦ rw (same, if◌then◌else◌) (kept-first m own rest)
    | inr other ↦
        rw (other, if◌then◌else◌)
          (let (one_fresh, no_stray) = kept-insert k m own rest in
            elim (Bool-cases (selects unicode_lower now f y)) [
              | inl hit ↦
                  let late : ltb y.updated_at e.updated_at ≡ true = ground (arith, older hit) in
                  rw (hit, if◌then◌else◌, late, if◌then◌else◌) (one_fresh, no_stray)
              | inr miss ↦ rw (miss, if◌then◌else◌) (one_fresh, no_stray)
            ])
  ]

  none_fresh :
      (n : ℕ) (ys : List Entry)
      → n < e.updated_at
      → All (λ y. y.updated_at ≤ n) ys
      → length (keep fresh ys) ≡ 0
  none_fresh n [] lt h = refl
  none_fresh n (y ∷ ys) lt h = ground (arith, h.0, none_fresh n ys lt h.1)

  first-content :
      (x : Entry) (ys : List Entry)
      → All (λ y. y.updated_at ≤ x.updated_at) ys
      → length (keep fresh (x ∷ ys)) ≡ 1
      → length (keep stray (x ∷ ys)) ≡ 0
      → x.content ≡ e.content
  first-content x ys below one_fresh no_stray = elim (Bool-cases (ltb x.updated_at e.updated_at)) [
    | inl late ↦
        let lt : x.updated_at < e.updated_at = ground arith in
        let none' = none_fresh x.updated_at ys lt below in absurd (ground (arith, none'))
    | inr on_time ↦ elim (Bool-cases (x.content == e.content)) [
      | inl same ↦ (eq_iff x.content e.content).0 same
      | inr other ↦ absurd (ground arith)
    ]
  ]

  single :
      (r others : List Entry)
      → length r ≡ 1
      → Falling (λ y. y.updated_at) (r ++ others)
      → length (keep fresh (r ++ others)) ≡ 1
      → length (keep stray (r ++ others)) ≡ 0
      → (x : Entry) × (r ≡ x ∷ []) × (x.content ≡ e.content)
  single [] others one h one_fresh no_stray = absurd (omega (arith, one))
  single (x ∷ y ∷ r) others one h one_fresh no_stray = absurd (omega (arith, one))
  single (x ∷ []) others one h one_fresh no_stray =
      (x, refl, first-content x others h.0 one_fresh no_stray)

-- A query with the limit 1, right after the upsert of an entry that the filter selects and than
-- which it selects none as late, returns one entry, which has the content of the one upserted.
pub query-upsert :
    (unicode_lower : ℕ → ℕ) (shuffle : List Entry → List Entry)
    → ((es : List Entry) → Perm (shuffle es) es)
    → (now now1 now2 now3 : ℕ) (f : Filter) (e : Entry) (s : MemStore) → f.limit ≡ pos 1
    → is_empty e.id ≡ false
    → let e' = stamped now1 now2 now3 e in
      selects unicode_lower now f e' ≡ true
      → Entries (Older unicode_lower now f e') s.entries
      → (x : Entry) × (query unicode_lower shuffle now f (upsert now1 now2 now3 e s) ≡ x ∷ [])
        × (x.content ≡ e.content)
unfolding upsert
query-upsert unicode_lower shuffle perm now now1 now2 now3 f e s one named own older =
    let e' = stamped now1 now2 now3 e in
    rw (named, if◌then◌else◌)
      (let s' : MemStore = record { entries = insert e.id e' s.entries } in
        let ((others, same, falling), count, _) =
          query_selects unicode_lower shuffle perm now f s' in
        let (one_fresh, no_stray) = kept-insert unicode_lower now f e' e.id s.entries own older in
        let fresh' = fresh unicode_lower now f e' in
        let stray' = stray unicode_lower now f e' in
        let some_found = length-keep-le fresh' (matching unicode_lower now f s') in
        single unicode_lower now f e' (query unicode_lower shuffle now f s') others
          (ground (arith, count, one, some_found, one_fresh)) falling
          (length-perm (keep-perm fresh' same) ∙ one_fresh)
          (length-perm (keep-perm stray' same) ∙ no_stray))

-- A filter on a type, a domain and a session, with the limit 1.
abbrev pub latest_of : (type domain session_id : Text) → Filter
latest_of type domain session_id = record {
  types = type ∷ [];
  domains = domain ∷ [];
  cognitive_kinds = [];
  session_id = session_id;
  cwd = [];
  title_contains = [];
  content_contains = [];
  limit = pos 1;
  offset = pos 0;
}

-- It selects an entry of these that has no limit on its life, when it is stored, and no entry of
-- another type.
pub latest_of-selects :
    (unicode_lower : ℕ → ℕ) (now now1 now2 now3 : ℕ) (e : Entry)
    → e.ttl ≡ pos 0
    → e.expire_at ≡ 0
    → selects unicode_lower now (latest_of e.type e.domain e.session_id) (stamped now1 now2 now3 e)
      ≡ true
unfolding selects expired match_any_string expiry
latest_of-selects unicode_lower now now1 now2 now3 e no_ttl no_end =
    rw (no_ttl, no_end, ==_refl e.type, ==_refl e.domain, ==_refl e.session_id)
      (ground (arith, ==_refl e.type, ==_refl e.domain, ==_refl e.session_id))

pub latest_of-other :
    (unicode_lower : ℕ → ℕ) (now : ℕ) (type domain session_id : Text) (e : Entry)
    → (type == e.type) ≡ false
    → selects unicode_lower now (latest_of type domain session_id) e ≡ false
unfolding selects match_any_string
latest_of-other unicode_lower now type domain session_id e h = ground arith
