-- ===== src/Cognition/Intake/Seeding.antt =====
-- What the seeded preferences are to the preference controller (cognition/intake/intake.go and
-- cognition/vibe/vibe.go, over the store of memory/memstore.go).
use mathlib.Core.List.{Perm}
use vcos.Base.{
  ℕ, ◌≤◌, ◌<◌, ◌≡◌, refl, ap, ◌∙◌, Bool, true, false, ◌&&◌, List, [], ◌∷◌, ◌++◌, Option, some, inl,
  inr, if◌then◌else◌, arith, Bool-cases, any, All,
}
use vcos.Base.Text.{Text, runes, is_space, is_empty, NoSpace, fields-word, fields_one, ◌==◌}
use vcos.Base.Int.{pos}
use vcos.Base.Dict.{Entries, Entries-insert, Entries-map}
use vcos.Memory.{Entry, MemStore, selects, time_or, upsert}
use vcos.Memory.Storing.{stamped}
use vcos.Memory.Latest.{query-upsert, latest_of-selects, latest_of-other}
use vcos.Cognition.Vibe.{default_state, set_parts, parse_vibe_content, vibe_filter, new, get}
use vcos.Cognition.Vibe.Storing.{style_word, role_word, query_memory, upsert_memory, get-new}
use vcos.Cognition.Intake.{
  preference, infer_role, infer_style, analyze, says, seeds, bootstrap, upsert_all,
  CognitiveProfile,
}

-- The preferences that Bootstrap stores are read by the controller as they were written.
parse-preference :
    (role style : Text)
    → NoSpace role
    → NoSpace style
    → parse_vibe_content (preference role style)
      ≡ record default_state { role = role; style = style }
unfolding preference parse_vibe_content is_space ◌==◌
parse-preference role style r s =
    ap (λ l. set_parts l default_state)
      (fields-word (runes "role=" ++ role) (runes "style=" ++ style) b' ' (role_word role r) refl
          refl
        ∙ ap (λ l. (runes "role=" ++ role) ∷ l)
            (fields_one (runes "style=" ++ style) (style_word style s) refl))
    ∙ refl

no_space : (s : Text) → any is_space s ≡ false → NoSpace s
no_space [] h = tt
no_space (c ∷ s) h = ground (arith, no_space s)

filled_if :
    (b : Bool) (x y : Text)
    → is_empty x ≡ false
    → is_empty y ≡ false
    → is_empty (if b then x else y) ≡ false
filled_if true x y hx hy = hx
filled_if false x y hx hy = hy

kept : (a b : Bool) (xs ys : List Entry) → a ≡ false → (if a && b then xs else ys) ≡ ys
kept true b xs ys h = cc
kept false b xs ys h = refl

late_now : (now : ℕ) → now ≤ time_or now now
late_now now = ground arith

spaceless_if :
    (b : Bool) (x y : Text)
    → any is_space x ≡ false
    → any is_space y ≡ false
    → any is_space (if b then x else y) ≡ false
spaceless_if true x y hx hy = hx
spaceless_if false x y hx hy = hy

module _ (unicode_lower : ℕ → ℕ) where
  infer_role-NoSpace : (prompt : Text) → NoSpace (infer_role unicode_lower prompt)
  infer_role-NoSpace prompt = no_space (infer_role unicode_lower prompt) (
      unfold infer_role is_space in
      (spaceless_if (says unicode_lower prompt (runes "review") (runes "audit") (runes "security"))
        (runes "reviewer") _ refl
        (spaceless_if
          (says unicode_lower prompt (runes "architect") (runes "design") (runes "plan"))
          (runes "architect") _ refl
          (spaceless_if (says unicode_lower prompt (runes "debug") (runes "fix") (runes "bug"))
            (runes "debugger") (runes "developer") refl refl))))

  infer_style-NoSpace : (prompt : Text) → NoSpace (infer_style unicode_lower prompt)
  infer_style-NoSpace prompt = no_space (infer_style unicode_lower prompt) (
      unfold infer_style is_space in
      (spaceless_if (says unicode_lower prompt (runes "concise") (runes "brief") (runes "short"))
        (runes "concise") _ refl
        (spaceless_if
          (says unicode_lower prompt (runes "detailed") (runes "verbose") (runes "explain"))
          (runes "verbose") (runes "balanced") refl refl)))

  infer_role-filled : (prompt : Text) → is_empty (infer_role unicode_lower prompt) ≡ false
  unfolding infer_role
  infer_role-filled prompt =
      filled_if (says unicode_lower prompt (runes "review") (runes "audit") (runes "security"))
        (runes "reviewer") _ refl
        (filled_if (says unicode_lower prompt (runes "architect") (runes "design") (runes "plan"))
          (runes "architect") _ refl
          (filled_if (says unicode_lower prompt (runes "debug") (runes "fix") (runes "bug"))
            (runes "debugger") (runes "developer") refl refl))

  module _ (shuffle : List Entry → List Entry) (perm : (es : List Entry) → Perm (shuffle es) es)
      (now read_at : ℕ) (id cwd : Text) where
    -- What the session's query selects was updated before now.
    abbrev Old : MemStore → Type 0
    Old m =
        Entries
          (λ key e. selects unicode_lower read_at (vibe_filter id) e ≡ true → e.updated_at < now)
          m.entries

    other-Old :
        (e : Entry) (m : MemStore)
        → (runes "long_term" == e.type) ≡ false
        → Old m
        → Old (upsert now now now e m)
    unfolding upsert
    other-Old e m h old = elim (Bool-cases (is_empty e.id)) [
      | inl unnamed ↦ rw (unnamed, if◌then◌else◌) old
      | inr named ↦
          rw (named, if◌then◌else◌)
            (Entries-insert _ e.id (stamped now now now e) m.entries
              (λ hit. absurd (
                cc (
                  hit,
                  latest_of-other unicode_lower read_at (runes "long_term") (runes "dialogue") id
                      (stamped now now now e) h,
                )))
              old)
    ]

    get-preference :
        (e : Entry) (m : MemStore)
        → is_empty e.id ≡ false
        → e.type ≡ runes "long_term"
        → e.domain ≡ runes "dialogue"
        → e.session_id ≡ id
        → e.ttl ≡ pos 0
        → e.expire_at ≡ 0
        → now ≤ time_or e.updated_at now
        → Old m
        → (get
            (query_memory unicode_lower shuffle read_at)
            (upsert_memory now)
            id
            (new (some (upsert now now now e m)))).0
          ≡ parse_vibe_content e.content
    get-preference e m named type domain session no_ttl no_end late old =
        let own : selects unicode_lower read_at (vibe_filter id) (stamped now now now e) ≡ true =
          rw (← type, ← domain, ← session)
            (latest_of-selects unicode_lower read_at now now now e no_ttl no_end) in
        let (x, found, same) =
          query-upsert unicode_lower shuffle perm read_at now now now (vibe_filter id) e m refl
            named own (Entries-map _ _ (λ key y h hit. omega (arith, h hit, late)) m.entries old) in
        get-new (query_memory unicode_lower shuffle read_at) (upsert_memory now) id
          (upsert now now now e m) x (ap some found)
        ∙ ap parse_vibe_content same

    -- The fields of the entry that the session's query reads.
    record IsPreference (e : Entry) : Type 0 where
      named : is_empty e.id ≡ false
      type : e.type ≡ runes "long_term"
      domain : e.domain ≡ runes "dialogue"
      session : e.session_id ≡ id
      no_ttl : e.ttl ≡ pos 0
      no_end : e.expire_at ≡ 0
      late : now ≤ time_or e.updated_at now

    get-last :
        (es : List Entry) (e : Entry) (m : MemStore)
        → es ≡ e ∷ []
        → IsPreference e
        → Old m
        → (get
            (query_memory unicode_lower shuffle read_at)
            (upsert_memory now)
            id
            (new (some (upsert_all (upsert now now now) es m)))).0
          ≡ parse_vibe_content e.content
    get-last es e m same p old =
        rw same (get-preference e m p.named p.type p.domain p.session p.no_ttl p.no_end p.late old)

    -- Entries of other types, upserted first, leave the store so.
    upsert_all-Old :
        (xs ys : List Entry) (m : MemStore)
        → All (λ e. (runes "long_term" == e.type) ≡ false) xs
        → Old m
        → (m' : MemStore) × (upsert_all (upsert now now now) (xs ++ ys) m
            ≡ upsert_all (upsert now now now) ys m')
          × Old m'
    upsert_all-Old [] ys m h old = (m, refl, old)
    upsert_all-Old (e ∷ xs) ys m h old =
        upsert_all-Old xs ys (upsert now now now e m) h.1 (other-Old e m h.0 old)

    one-other :
        (b : Bool) (e : Entry)
        → (runes "long_term" == e.type) ≡ false
        → All (λ e. (runes "long_term" == e.type) ≡ false) (if b then [] else e ∷ [])
    one-other true e h = tt
    one-other false e h = (h, tt)

    seeds-read :
        (p : CognitiveProfile) (m : MemStore)
        → is_empty p.role ≡ false
        → Old m
        → (get
            (query_memory unicode_lower shuffle read_at)
            (upsert_memory now)
            id
            (new (bootstrap (upsert now now now) now id cwd p (some m)))).0
          ≡ parse_vibe_content (preference p.role p.style)
    unfolding seeds ◌==◌
    seeds-read p m named old =
        let (m', same, old') =
          upsert_all-Old _ _ m (one-other (is_empty p.project_hint.language) _ refl) old in
        let (m'', same', old'') = upsert_all-Old _ _ m' (one-other (is_empty p.goal) _ refl) old' in
        ap
          (λ s.
            (get (query_memory unicode_lower shuffle read_at) (upsert_memory now) id
              (new (some s))).0)
          (same ∙ same')
        ∙ get-last _ _ m'' (kept (is_empty p.role) (is_empty p.style) _ _ named)
            (record {
              named = refl;
              type = refl;
              domain = refl;
              session = refl;
              no_ttl = refl;
              no_end = refl;
              late = late_now now;
            })
            old''

    -- What the intake infers reaches the preference controller: for a session with a working
    -- directory, whatever its first prompt, after Bootstrap of what Analyze makes of them, at a time
    -- that is later than the updates of all the entries of the store in memory, a new controller on
    -- that store, at any reading of the clock and for every order of the map, has the inferred role
    -- and style for the session, with the default proactivity.
    pub preference-analyze :
        (stat : Text → Text → Option Bool) (prompt : Text) (m : MemStore)
        → is_empty cwd ≡ false
        → Entries (λ key e. e.updated_at < now) m.entries
        → let p = analyze unicode_lower stat cwd prompt in
          (get
            (query_memory unicode_lower shuffle read_at)
            (upsert_memory now)
            id
            (new (bootstrap (upsert now now now) now id cwd p (some m)))).0
          ≡ record default_state {
            role = infer_role unicode_lower prompt;
            style = infer_style unicode_lower prompt;
          }
    unfolding analyze
    preference-analyze stat prompt m somewhere older =
        let old = Entries-map _ _ (λ key e h hit. h) m.entries older in
        rw (somewhere, if◌then◌else◌)
          (seeds-read _ m (infer_role-filled prompt) old
            ∙ parse-preference (infer_role unicode_lower prompt) (infer_style unicode_lower prompt)
                (infer_role-NoSpace prompt) (infer_style-NoSpace prompt))
