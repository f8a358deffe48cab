-- ===== src/Memory.antt =====
-- memory/types.go and memory/memstore.go: memory entries and their store in memory. Types, domains
-- and kinds are Go strings; a time 0 is the zero time. Of a vector only the float32 bits are kept,
-- and of the metadata the values as JSON; the field `data` of MemStore is `entries`. Scores are tenths: 9 is 0.9.
pub mod Storing
pub mod Searching
pub mod Latest
pub mod Router
pub mod Chunker
mod Examples
use vcos.Base.{
  ℕ, zero, suc, ◌+◌, ◌*◌, Bool, true, false, not, ◌&&◌, ◌||◌, List, [], ◌∷◌, map, Option, none,
  some, if◌then◌else◌, ltb, nat_eq, length, keep, any, take,
}
use vcos.Base.Text.{Text, ◌==◌, is_empty, contains, fields, to_lower}
use vcos.Base.Dict.{Dict, lookup, insert, remove}
use vcos.Base.Int.{ℤ, pos, negsuc}
use vcos.Base.Sort.{sort_by}

pub record Entry : Type 0 where
  pub id : Text
  pub type : Text
  pub domain : Text
  pub cognitive_kind : Text
  pub title : Text
  pub content : Text
  pub source : Text
  pub session_id : Text
  pub cwd : Text
  pub embedding : List ℕ
  pub metadata : Dict Text
  pub ttl : ℤ
  pub created_at : ℕ
  pub updated_at : ℕ
  pub expire_at : ℕ

-- Entry{}
abbrev pub zero_entry : Entry
zero_entry = record {
  id = [];
  type = [];
  domain = [];
  cognitive_kind = [];
  title = [];
  content = [];
  source = [];
  session_id = [];
  cwd = [];
  embedding = [];
  metadata = [];
  ttl = pos 0;
  created_at = 0;
  updated_at = 0;
  expire_at = 0;
}

abbrev pub is_zero : ℕ → Bool
is_zero t = nat_eq t 0

pub expired : ℕ → Entry → Bool
expired now e = not (is_zero e.expire_at) && ltb e.expire_at now

pub record Filter : Type 0 where
  pub types : List Text
  pub domains : List Text
  pub cognitive_kinds : List Text
  pub session_id : Text
  pub cwd : Text
  pub title_contains : Text
  pub content_contains : Text
  pub limit : ℤ
  pub offset : ℤ

pub record Hit : Type 0 where
  pub entry : Entry
  pub score : ℕ

pub record MemStore : Type 0 where
  pub entries : Dict Entry

pub new_mem_store : MemStore
new_mem_store = record { entries = [] }

-- `if t.IsZero() { t = now }`
abbrev pub time_or : ℕ → ℕ → ℕ
time_or t now = if is_zero t then now else t

-- The time of expiry of an entry with this TTL, `t` being the one it has.
pub expiry : ℤ → ℕ → ℕ → ℕ
expiry (pos zero) now t = t
expiry (pos (suc d)) now t = time_or t (now + suc d)
expiry (negsuc d) now t = t

-- The clock is read up to three times.
unfoldable pub upsert : ℕ → ℕ → ℕ → Entry → MemStore → MemStore
unfolding expiry
upsert now1 now2 now3 e s =
    if is_empty e.id
    then s
    else let e' = record e {
      created_at = time_or e.created_at now1;
      updated_at = time_or e.updated_at now2;
      expire_at = expiry e.ttl now3 e.expire_at;
    } in
      record s { entries = insert e.id e' s.entries }

abbrev pub entry_or_zero : Option Entry → Entry
entry_or_zero none = zero_entry
entry_or_zero (some e) = e

pub get : Text → MemStore → Entry
get id s = entry_or_zero (lookup id s.entries)

pub delete : Text → MemStore → MemStore
delete id s = record s { entries = remove id s.entries }

-- The loop of PurgeExpired: what stays, and the count.
pub purge : ℕ → Dict Entry → Dict Entry × ℕ
purge now [] = ([], 0)
purge now (x ∷ m) =
    let (m', n) = purge now m in if expired now x.1 then (m', suc n) else (x ∷ m', n)

pub purge_expired : ℕ → MemStore → MemStore × ℕ
unfolding purge
purge_expired now s = let (m, n) = purge now s.entries in (record s { entries = m }, n)

pub match_any_string : Text → List Text → Bool
match_any_string v [] = true
match_any_string v (x ∷ xs) = any (λ y. y == v) (x ∷ xs)

abbrev pub values : Dict Entry → List Entry
values m = map (λ x. x.1) m

unfoldable pub word_matches : List Text → List Text → ℕ
word_matches [] wb = 0
word_matches (w ∷ wa) wb = let n = word_matches wa wb in if any (λ x. x == w) wb then suc n else n

-- The overlap of the words as a fraction, (0, 0) for the float 0.
unfoldable pub word_overlap : Text → Text → ℕ × ℕ
unfolding word_matches
word_overlap a b =
    let wa = fields a in
    let wb = fields b in
    if nat_eq (length wa) 0 || nat_eq (length wb) 0 then (0, 0) else (word_matches wa wb, length wa)

-- `limit > 0 && len(xs) > limit`
abbrev pub cut {ℓ} : {A : Type ℓ} → ℤ → List A → List A
cut (pos n) xs = if ltb 0 n && ltb n (length xs) then take n xs else xs
cut (negsuc n) xs = xs

module _ (unicode_lower : ℕ → ℕ) where
  -- The guards of the loop of filterLocked.
  pub selects : ℕ → Filter → Entry → Bool
  selects now f e =
      not (expired now e)
      && match_any_string e.type f.types
      && match_any_string e.domain f.domains
      && match_any_string e.cognitive_kind f.cognitive_kinds
      && (is_empty f.session_id || e.session_id == f.session_id)
      && (is_empty f.cwd || e.cwd == f.cwd)
      && (is_empty f.title_contains
          || contains (to_lower unicode_lower e.title) (to_lower unicode_lower f.title_contains))
      && (is_empty f.content_contains
          || contains (to_lower unicode_lower e.content)
              (to_lower unicode_lower f.content_contains))

  pub simple_text_score : Text → Entry → ℕ
  unfolding word_overlap
  simple_text_score q e =
      let title = to_lower unicode_lower e.title in
      let content = to_lower unicode_lower e.content in
      let (m, n) = word_overlap q content in
      if contains title q || contains q title
      then 9
      else (if contains content q
          then 7
          else (if ltb n (2 * m)
              then 5
              else (if any (λ w. contains content w) (fields q)
                  then 4
                  else (if ltb n (5 * m) then 3 else 0))))

  pub hits : Text → List Entry → List Hit
  unfolding simple_text_score
  hits q [] = []
  hits q (e ∷ es) =
      let score = simple_text_score q e in
      let rest = hits q es in
      if nat_eq score 0 then rest else record { entry = e; score = score } ∷ rest

-- `shuffle` stands for the order in which Go iterates over the values of a map.
module _ (unicode_lower : ℕ → ℕ) (shuffle : List Entry → List Entry) where
  pub filter_locked : ℕ → Filter → MemStore → List Entry
  unfolding selects
  filter_locked now f s = keep (selects unicode_lower now f) (shuffle (values s.entries))

  pub query : ℕ → Filter → MemStore → List Entry
  unfolding filter_locked
  query now f s = cut f.limit (sort_by (λ e. e.updated_at) (filter_locked now f s))

  pub count : ℕ → Filter → MemStore → ℕ
  unfolding filter_locked
  count now f s = length (filter_locked now f s)

  pub query_similar : ℕ → Text → Filter → ℤ → MemStore → List Hit
  unfolding hits query
  query_similar now text f k s =
      cut k
        (sort_by (λ h. h.score) (hits unicode_lower (to_lower unicode_lower text) (query now f s)))
