-- ===== src/Cognition/Vibe/Storing.antt =====
-- That a session's preferences come back as they were set (cognition/vibe/vibe.go, over the store
-- of memory/memstore.go).
use mathlib.Core.List.{Perm}
use vcos.Base.{ℕ, ◌<◌, ◌≡◌, refl, ap, ◌∙◌, Bool, true, ◌∷◌, [], List, ◌++◌, Option, some, arith}
use vcos.Base.Text.{Text, runes, is_space, NoSpace, fields, fields-word, fields_one, ◌==◌, ==_refl}
use vcos.Base.Dict.{lookup, lookup-insert, Entries, Entries-map}
use vcos.Memory.{Entry, Filter, MemStore, time_or, query, upsert}
use vcos.Memory.Latest.{query-upsert, latest_of-selects}
use vcos.Cognition.Vibe.{
  State, default_state, set_parts, parse_vibe_content, format_vibe_content, Controller, new,
  vibe_filter, vibe_entry, get, set, update_style, update_proactivity, update_role,
}

-- The values hold no spaces, as the constants of the package do.
abbrev pub Plain : State → Type 0
Plain s = NoSpace s.style × NoSpace s.proactivity × NoSpace s.role

pub style_word : (v : Text) → NoSpace v → NoSpace (runes "style=" ++ v)
unfolding is_space
style_word v h = (refl, (refl, (refl, (refl, (refl, (refl, h))))))

proactivity_word : (v : Text) → NoSpace v → NoSpace (runes "proactivity=" ++ v)
unfolding is_space
proactivity_word v h = (
  refl,
  (refl, (refl, (refl, (refl, (refl, (refl, (refl, (refl, (refl, (refl, (refl, h))))))))))),
)

pub role_word : (v : Text) → NoSpace v → NoSpace (runes "role=" ++ v)
unfolding is_space
role_word v h = (refl, (refl, (refl, (refl, (refl, h)))))

fields-format :
    (s : State)
    → Plain s
    → fields (format_vibe_content s)
      ≡ (runes "style=" ++ s.style)
        ∷ (runes "proactivity=" ++ s.proactivity)
        ∷ (runes "role=" ++ s.role)
        ∷ []
unfolding format_vibe_content is_space
fields-format s h =
    fields-word (runes "style=" ++ s.style)
      (runes "proactivity=" ++ (s.proactivity ++ (runes " role=" ++ s.role))) b' '
      (style_word s.style h.0) refl refl
    ∙ ap (λ l. (runes "style=" ++ s.style) ∷ l)
        (fields-word (runes "proactivity=" ++ s.proactivity) (runes "role=" ++ s.role) b' '
            (proactivity_word s.proactivity h.1) refl refl
          ∙ ap (λ l. (runes "proactivity=" ++ s.proactivity) ∷ l)
              (fields_one (runes "role=" ++ s.role) (role_word s.role h.2) refl))

-- What formatVibeContent writes, parseVibeContent reads back, but for the time: whatever values
-- without spaces the three preferences have, empty ones and such with `=` included.
pub parse-format :
    (s : State) → Plain s → parse_vibe_content (format_vibe_content s) ≡ record s { updated_at = 0 }
unfolding parse_vibe_content ◌==◌
parse-format s h = ap (λ l. set_parts l default_state) (fields-format s h) ∙ refl

-- The store in memory as the controller's store, at fixed readings of the clock.
abbrev pub query_memory :
    (ℕ → ℕ) → (List Entry → List Entry) → ℕ → Filter → MemStore → Option (List Entry)
query_memory unicode_lower shuffle read_at f m = some (query unicode_lower shuffle read_at f m)

abbrev pub upsert_memory : ℕ → Entry → MemStore → Bool × MemStore
upsert_memory at e m = (true, upsert at at at e m)

-- Where the store gives one entry for the session's query, a new controller reads that entry.
pub get-new :
    {M : Type 0} (query : Filter → M → Option (List Entry)) (upsert : Entry → M → Bool × M)
    (id : Text) (m : M) (e : Entry)
    → query (vibe_filter id) m ≡ some (e ∷ [])
    → (get query upsert id (new (some m))).0 ≡ parse_vibe_content e.content
unfolding get new lookup
get-new query upsert id m e found = rw found refl

-- Preferences survive a restart: after Set at a time that is later than the updates of all the
-- entries of the store in memory, Set has not failed, and a new controller on the store, at any
-- later reading of the clock and for every order of the map, reads the preferences that Set was
-- given, whatever values without spaces they have.
pub set_restart :
    (unicode_lower : ℕ → ℕ) (shuffle : List Entry → List Entry)
    → ((es : List Entry) → Perm (shuffle es) es)
    → (now read_at : ℕ) (id : Text) (s : State) (c : Controller MemStore) (m : MemStore) → Plain s
    → c.store ≡ some m
    → Entries (λ key e. e.updated_at < now) m.entries
    → let query' = query_memory unicode_lower shuffle read_at in
      let upsert' = upsert_memory now in
      let r = set query' upsert' now id s c in
      (r.0 ≡ true) × ((get query' upsert' id (new r.1.store)).0 ≡ record s { updated_at = 0 })
unfolding set
set_restart unicode_lower shuffle perm now read_at id s c m plain has older =
    let e = vibe_entry id (record s { updated_at = now }) in
    let f = vibe_filter id in
    let (x, found, same) =
      query-upsert unicode_lower shuffle perm read_at now now now f e m refl refl
        (latest_of-selects unicode_lower read_at now now now e refl refl)
        (Entries-map _ _ (λ key y h _. stamp y h) m.entries older) in
    rw has (
      refl,
      get-new (query_memory unicode_lower shuffle read_at) (upsert_memory now) id
            (upsert now now now e m) x (ap some found)
          ∙ ap parse_vibe_content same
          ∙ parse-format (record s { updated_at = now }) plain,
    )
  where
    stamp : (y : Entry) → y.updated_at < now → y.updated_at < time_or now now
    stamp y h = ground arith

module _ {M : Type 0} (query : Filter → M → Option (List Entry))
    (upsert : Entry → M → Bool × M) where
  set_sees :
      (now : ℕ) (id : Text) (s : State) (c : Controller M)
      → (get query upsert id (set query upsert now id s c).1).0 ≡ record s { updated_at = now }
  unfolding get set
  set_sees now id s c =
      rw (lookup-insert id id (record s { updated_at = now }) c.cache, ==_refl id) refl

  -- An update changes the one preference, as Get sees it, and the time.
  update_sees :
      (now : ℕ) (id v : Text) (c : Controller M)
      → let s = (get query upsert id c).0 in
        ((get query upsert id (update_style query upsert now id v c).1).0
          ≡ record s { style = v; updated_at = now })
        × ((get query upsert id (update_proactivity query upsert now id v c).1).0
            ≡ record s { proactivity = v; updated_at = now })
        × ((get query upsert id (update_role query upsert now id v c).1).0
            ≡ record s { role = v; updated_at = now })
  unfolding update_style update_proactivity update_role
  update_sees now id v c =
      let seen = set_sees now id in
      let (s, c') = get query upsert id c in
      (
        seen (record s { style = v }) c',
        seen (record s { proactivity = v }) c',
        seen (record s { role = v }) c',
      )
