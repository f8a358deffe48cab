-- ===== src/Memory/Router/Scope.antt =====
-- What the router's rule does to intents, and what it finds in the store in memory
-- (memory/moe/moe.go with memory/memstore.go).
use mathlib.Core.List.{Perm}
use mathlib.Core.Option.{some-injective}
use vcos.Base.{
  ℕ, ◌≡◌, ◌⊎◌, true, false, ◌||◌, refl, inl, inr, List, [], ◌∷◌, ◌++◌, map, append-nil, Option,
  none, some, arith, if◌then◌else◌, Bool-cases, sym, ap, ◌∙◌, All,
}
use vcos.Base.Text.{Text, ◌==◌, eq_iff, ==_refl, is_empty, to_lower}
use vcos.Base.Int.{ℤ}
use vcos.Kernel.Scheduler.{IntentRequest, Rule, run_rules}
use vcos.Memory.{
  Entry, Filter, Hit, MemStore, selects, query_similar, upsert, get, match_any_string, expired,
}
use vcos.Memory.Storing.{stamped, get-upsert}
use vcos.Memory.Searching.{Scored, query_similar-Scored}
use vcos.Memory.Router.{
  Store, classify_type, classify_domain, retrieve_filter, query_text, retrieve, scheduler_rule,
  memory_of, write_memory, hit_tag, hits_or_none, enrich,
}

-- What the rule finds: nothing without a store.
abbrev pub found : {S : Type 0} → (ℕ → ℕ) → Store S → ℤ → Option S → IntentRequest → List Hit
found unicode_lower store k none req = []
found unicode_lower store k (some s) req = hits_or_none (retrieve unicode_lower store req k s)

enrich-run_rules :
    (rs : List Rule) (req : IntentRequest) (hs : List Hit)
    → run_rules ((λ r. enrich r hs) ∷ rs) req
      ≡ run_rules rs (record req { tags = req.tags ++ map hit_tag hs })
unfolding run_rules
enrich-run_rules rs req [] = rw (append-nil req.tags)
enrich-run_rules rs req (h ∷ hs) = refl

-- The scheduler's rule for memory has no opinion, whatever the store: the rules behind it are asked
-- about the same request, with one tag more at the end for each hit.
scheduler_rule-enriches :
    {S : Type 0} (unicode_lower : ℕ → ℕ) (store : Store S) (k : ℤ) (s : Option S) (rs : List Rule)
    (req : IntentRequest)
    → run_rules (scheduler_rule unicode_lower store k s ∷ rs) req
      ≡ run_rules rs
          (record req { tags = req.tags ++ map hit_tag (found unicode_lower store k s req) })
unfolding run_rules scheduler_rule
scheduler_rule-enriches unicode_lower store k none rs req = rw (append-nil req.tags)
scheduler_rule-enriches unicode_lower store k (some s) rs req =
    enrich-run_rules rs req (hits_or_none (retrieve unicode_lower store req k s))

-- The store in memory as the router's store, at fixed readings of the clock.
abbrev pub mem_store : (ℕ → ℕ) → (List Entry → List Entry) → ℕ → Store MemStore
mem_store unicode_lower shuffle now = record {
  upsert = λ e s. (upsert now now now e s, none);
  query_similar = λ text f k s. some (query_similar unicode_lower shuffle now text f k s);
}

-- An entry is in the scope of a request.
pub record InScope (unicode_lower : ℕ → ℕ) (now : ℕ) (req : IntentRequest) (e : Entry)
    : Type 0 where
  pub alive : expired now e ≡ false
  pub same_type : e.type ≡ classify_type req
  pub same_domain : e.domain ≡ classify_domain unicode_lower req
  pub same_session : (req.session_id ≡ []) ⊎ (e.session_id ≡ req.session_id)
  pub same_cwd : (req.cwd ≡ []) ⊎ (e.cwd ≡ req.cwd)

guard :
    (wanted actual : Text)
    → (is_empty wanted || actual == wanted) ≡ true
    → (wanted ≡ []) ⊎ (actual ≡ wanted)
guard [] actual h = inl refl
guard (c ∷ s) actual h = inr ((eq_iff actual (c ∷ s)).0 h)

only : (v x : Text) → match_any_string v (x ∷ []) ≡ true → v ≡ x
unfolding match_any_string
only v x h = ground (arith, eq_iff x v)

selects-guards :
    (unicode_lower : ℕ → ℕ) (now : ℕ) (f : Filter) (e : Entry)
    → selects unicode_lower now f e ≡ true
    → (expired now e ≡ false)
      × (match_any_string e.type f.types ≡ true)
      × (match_any_string e.domain f.domains ≡ true)
      × ((is_empty f.session_id || e.session_id == f.session_id) ≡ true)
      × ((is_empty f.cwd || e.cwd == f.cwd) ≡ true)
unfolding selects
selects-guards unicode_lower now f e h = ground arith

selects-InScope :
    (unicode_lower : ℕ → ℕ) (now : ℕ) (req : IntentRequest) (k : ℤ) (e : Entry)
    → selects unicode_lower now (retrieve_filter unicode_lower req k) e ≡ true
    → InScope unicode_lower now req e
unfolding retrieve_filter
selects-InScope unicode_lower now req k e h =
    let (alive, type, domain, session, cwd) =
      selects-guards unicode_lower now (retrieve_filter unicode_lower req k) e h in
    record {
      alive = alive;
      same_type = only e.type (classify_type req) type;
      same_domain = only e.domain (classify_domain unicode_lower req) domain;
      same_session = guard req.session_id e.session_id session;
      same_cwd = guard req.cwd e.cwd cwd;
    }

All-InScope :
    (unicode_lower : ℕ → ℕ) (now : ℕ) (req : IntentRequest) (k : ℤ) (q : Text) (hs : List Hit)
    → All (Scored unicode_lower now (retrieve_filter unicode_lower req k) q) hs
    → All (λ h. InScope unicode_lower now req h.entry) hs
All-InScope unicode_lower now req k q [] hs = tt
All-InScope unicode_lower now req k q (x ∷ xs) hs = (
  selects-InScope unicode_lower now req k x.entry hs.0.0,
  All-InScope unicode_lower now req k q xs hs.1,
)

-- With the store in memory, each entry that the rule finds for a request is not expired, has the
-- type and the domain that Classify gives the request, and the request's session and working
-- directory where the request names them.
pub found-InScope :
    (unicode_lower : ℕ → ℕ) (shuffle : List Entry → List Entry)
    → ((es : List Entry) → Perm (shuffle es) es)
    → (now : ℕ) (req : IntentRequest) (k : ℤ) (s : MemStore)
    → All
        (λ h. InScope unicode_lower now req h.entry)
        (found unicode_lower (mem_store unicode_lower shuffle now) k (some s) req)
unfolding retrieve
found-InScope unicode_lower shuffle perm now req k s =
    All-InScope unicode_lower now req k (to_lower unicode_lower (query_text req)) _
      (query_similar-Scored unicode_lower shuffle perm now (query_text req)
        (retrieve_filter unicode_lower req k) k s).0

-- After WriteMemory for a request with a session, the store in memory has under the entry's
-- identifier the entry for this request and content, with its times filled in; without a session
-- the store is as before. No error is returned.
write_memory-get :
    (unicode_lower : ℕ → ℕ) (shuffle : List Entry → List Entry) (now : ℕ) (req : IntentRequest)
    (content : Text) (s : MemStore)
    → let e = memory_of unicode_lower req content in
      let r =
        write_memory unicode_lower (mem_store unicode_lower shuffle now) req content (some s) in
      (r.1 ≡ none)
      × ((m : MemStore)
          → r.0 ≡ some m
          → get e.id m ≡ (if is_empty req.session_id then get e.id s else stamped now now now e))
unfolding write_memory
write_memory-get unicode_lower shuffle now req content s =
    let e = memory_of unicode_lower req content in
    elim (Bool-cases (is_empty req.session_id)) [
      | inl free ↦
          rw (free, if◌then◌else◌) (refl, λ m h. ap (get e.id) (sym (some-injective _ _ h)))
      | inr held ↦
          rw (held, if◌then◌else◌)
            (
              refl,
              λ m h.
                  ap (get e.id) (sym (some-injective _ _ h))
                  ∙ get-upsert now now now e s e.id
                  ∙ rw (==_refl e.id),
            )
    ]
