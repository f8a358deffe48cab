-- ===== src/Memory/Searching.antt =====
-- What the queries of the store in memory return (memory/memstore.go), for every order in which a
-- map is iterated over.
use mathlib.Core.List.{Perm}
use mathlib.Core.List.Perm
use vcos.Base.{
  ℕ, zero, suc, ◌<◌, min, ◌≡◌, true, ◌&&◌, refl, sym, ap, ◌∙◌, subst, inl, inr, List, [], ◌∷◌, ◌++◌,
  arith, if◌then◌else◌, Bool-cases, ltb, nat_eq, length, length-take, keep, drop, take-append-drop,
  append-nil, All, All-keep, All-take,
}
use vcos.Base.Text.{Text, to_lower}
use vcos.Base.Int.{ℤ, pos, negsuc}
use vcos.Base.Sort.{
  sort_by, sort_by-perm, sort_by-Falling, Falling, Falling-take, All-sort_by, keep-perm,
  length-perm,
}
use vcos.Memory.{
  Entry, Filter, Hit, MemStore, selects, values, filter_locked, query, count, cut,
  simple_text_score, hits, query_similar,
}

-- How many of n items a limit leaves; a limit that is not positive leaves all.
abbrev pub limited : ℤ → ℕ → ℕ
limited (pos zero) n = n
limited (pos (suc m)) n = min (suc m) n
limited (negsuc m) n = n

module _ {ℓ} {A : Type ℓ} where
  length-cut : (k : ℤ) (xs : List A) → length (cut k xs) ≡ limited k (length xs)
  length-cut (pos zero) xs = ground arith
  length-cut (pos (suc m)) xs = ground (arith, length-take (suc m) xs)
  length-cut (negsuc m) xs = refl

  -- What a limit takes away, behind what it leaves.
  rest : ℤ → List A → List A
  rest (pos n) xs = if ltb 0 n && ltb n (length xs) then drop n xs else []
  rest (negsuc n) xs = []

  cut-rest : (k : ℤ) (xs : List A) → cut k xs ++ rest k xs ≡ xs
  unfolding rest
  cut-rest (pos n) xs = ground (arith, take-append-drop n xs, append-nil xs)
  cut-rest (negsuc n) xs = append-nil xs

  All-cut {κ} : (P : A → Type κ) (k : ℤ) (xs : List A) → All P xs → All P (cut k xs)
  All-cut P (pos n) xs h = elim (Bool-cases (ltb 0 n && ltb n (length xs))) [
    | inl hit ↦ rw (hit, if◌then◌else◌) (All-take P n xs h)
    | inr miss ↦ rw (miss, if◌then◌else◌) h
  ]
  All-cut P (negsuc n) xs h = h

  Falling-cut : (rank : A → ℕ) (k : ℤ) (xs : List A) → Falling rank xs → Falling rank (cut k xs)
  Falling-cut rank (pos n) xs h = elim (Bool-cases (ltb 0 n && ltb n (length xs))) [
    | inl hit ↦ rw (hit, if◌then◌else◌) (Falling-take rank n xs h)
    | inr miss ↦ rw (miss, if◌then◌else◌) h
  ]
  Falling-cut rank (negsuc n) xs h = h

module _ (unicode_lower : ℕ → ℕ) where
  -- The entries of the store that the filter selects.
  abbrev pub matching : ℕ → Filter → MemStore → List Entry
  matching now f s = keep (selects unicode_lower now f) (values s.entries)

  -- A hit for a query in lower case: its entry is selected, its score is the entry's and not zero.
  abbrev pub Scored : ℕ → Filter → Text → Hit → Type 0
  Scored now f q h =
      (selects unicode_lower now f h.entry ≡ true)
      × (h.score ≡ simple_text_score unicode_lower q h.entry)
      × (0 < h.score)

  hits-Scored :
      (now : ℕ) (f : Filter) (q : Text) (es : List Entry)
      → All (λ e. selects unicode_lower now f e ≡ true) es
      → All (Scored now f q) (hits unicode_lower q es)
  unfolding hits
  hits-Scored now f q [] h = tt
  hits-Scored now f q (e ∷ es) h =
      elim (Bool-cases (nat_eq (simple_text_score unicode_lower q e) 0)) [
        | inl none' ↦ rw (none', if◌then◌else◌) (hits-Scored now f q es h.1)
        | inr some' ↦
            rw (some', if◌then◌else◌) ((h.0, refl, ground arith), hits-Scored now f q es h.1)
      ]

module _ (unicode_lower : ℕ → ℕ) (shuffle : List Entry → List Entry)
    (shuffle-perm : (es : List Entry) → Perm (shuffle es) es) where
  filter_locked-perm :
      (now : ℕ) (f : Filter) (s : MemStore)
      → Perm (filter_locked unicode_lower shuffle now f s) (matching unicode_lower now f s)
  unfolding filter_locked
  filter_locked-perm now f s =
      keep-perm (selects unicode_lower now f) (shuffle-perm (values s.entries))

  -- Whatever order the map is iterated in, Query returns entries that, with some others behind them,
  -- are all the entries that the filter selects, each as often as the store has it, the latest
  -- update first; it returns all of them, or as many as a positive limit allows, and Count says how
  -- many there are.
  pub query_selects :
      (now : ℕ) (f : Filter) (s : MemStore)
      → let r = query unicode_lower shuffle now f s in
        let all = matching unicode_lower now f s in
        ((others : List Entry) × Perm (r ++ others) all × Falling (λ e. e.updated_at) (r ++ others))
        × (length r ≡ limited f.limit (length all))
        × (count unicode_lower shuffle now f s ≡ length all)
  unfolding query count
  query_selects now f s =
      let found = filter_locked unicode_lower shuffle now f s in
      let sorted = sort_by (λ e. e.updated_at) found in
      let perm : Perm sorted (matching unicode_lower now f s) =
        Perm.trans (sort_by-perm (λ e. e.updated_at) found) (filter_locked-perm now f s) in
      let whole = sym (cut-rest f.limit sorted) in
      (
        (
          rest f.limit sorted,
          subst (λ l. Perm l (matching unicode_lower now f s)) whole perm,
          subst (Falling (λ e. e.updated_at)) whole (sort_by-Falling (λ e. e.updated_at) found),
        ),
        length-cut f.limit sorted ∙ ap (limited f.limit) (length-perm perm),
        length-perm (filter_locked-perm now f s),
      )

  query-selects :
      (now : ℕ) (f : Filter) (s : MemStore)
      → All (λ e. selects unicode_lower now f e ≡ true) (query unicode_lower shuffle now f s)
  unfolding query filter_locked
  query-selects now f s =
      let P : Entry → Type 0 = λ e. selects unicode_lower now f e ≡ true in
      All-cut P f.limit _ (
        All-sort_by (λ e. e.updated_at) P _
          (All-keep (selects unicode_lower now f) (shuffle (values s.entries))))

  -- Each hit of QuerySimilar is an entry that the filter selects, with the score that it has for the
  -- text in lower case, which is not zero; the best score comes first, and a positive k bounds the
  -- number of hits.
  pub query_similar-Scored :
      (now : ℕ) (text : Text) (f : Filter) (k : ℤ) (s : MemStore)
      → let r = query_similar unicode_lower shuffle now text f k s in
        let q = to_lower unicode_lower text in
        All (Scored unicode_lower now f q) r
        × Falling (λ h. h.score) r
        × (length r
            ≡ limited k (length (hits unicode_lower q (query unicode_lower shuffle now f s))))
  unfolding query_similar
  query_similar-Scored now text f k s =
      let q = to_lower unicode_lower text in
      let es = query unicode_lower shuffle now f s in
      let hs = hits unicode_lower q es in
      (
        All-cut (Scored unicode_lower now f q) k _ (
            All-sort_by (λ h. h.score) (Scored unicode_lower now f q) hs
              (hits-Scored unicode_lower now f q es (query-selects now f s))),
        Falling-cut (λ h. h.score) k _ (sort_by-Falling (λ h. h.score) hs),
        length-cut k (sort_by (λ h. h.score) hs)
            ∙ ap (limited k) (length-perm (sort_by-perm (λ h. h.score) hs)),
      )
