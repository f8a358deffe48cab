-- ===== src/Memory/Storing.antt =====
-- What is written to the store in memory and what is read from it (memory/memstore.go).
use vcos.Base.{
  ℕ, ◌+◌, ◌≡◌, false, refl, ap, inl, inr, List, [], ◌∷◌, Option, none, some, arith, if◌then◌else◌,
  Bool-cases, length,
}
use vcos.Base.Text.{Text, ◌==◌, is_empty, eq_iff}
use vcos.Base.Dict.{
  Dict, lookup, lookup-insert, lookup-remove, Entries, Entries-insert, Entries-remove, IsMap,
  IsMap-insert, IsMap-remove,
}
use vcos.Memory.{
  Entry, MemStore, zero_entry, new_mem_store, expired, time_or, expiry, upsert, get, delete, purge,
  purge_expired,
}

-- The entry as Upsert stores it.
abbrev pub stamped : ℕ → ℕ → ℕ → Entry → Entry
stamped now1 now2 now3 e = record e {
  created_at = time_or e.created_at now1;
  updated_at = time_or e.updated_at now2;
  expire_at = expiry e.ttl now3 e.expire_at;
}

-- After Upsert, Get of the entry's identifier returns the entry with its missing times filled in,
-- and Get of any other identifier what it returned before; an entry without identifier changes
-- nothing.
pub get-upsert :
    (now1 now2 now3 : ℕ) (e : Entry) (s : MemStore) (id : Text)
    → get id (upsert now1 now2 now3 e s) ≡ (
        if is_empty e.id
        then get id s
        else (if e.id == id then stamped now1 now2 now3 e else get id s))
unfolding get upsert
get-upsert now1 now2 now3 e s id =
    ground (arith, lookup-insert e.id id (stamped now1 now2 now3 e) s.entries, eq_iff e.id id)

-- After Delete, Get of the identifier returns the zero entry, and Get of any other identifier what
-- it returned before.
get-delete :
    (gone id : Text) (s : MemStore)
    → get id (delete gone s) ≡ (if gone == id then zero_entry else get id s)
unfolding get delete
get-delete gone id s = ground (arith, lookup-remove gone id s.entries, eq_iff gone id)

-- What a purge leaves of the entry found under a key.
abbrev pub unexpired : ℕ → Option Entry → Option Entry
unexpired now none = none
unexpired now (some e) = if expired now e then none else some e

lookup-purge :
    (now : ℕ) (id : Text) (m : Dict Entry)
    → IsMap m
    → lookup id (purge now m).0 ≡ unexpired now (lookup id m)
unfolding lookup purge
lookup-purge now id [] h = refl
lookup-purge now id ((j, e) ∷ m) h = ground (
  arith,
  lookup-purge now id m h.1,
  lookup-purge now j m h.1,
  eq_iff j id,
  ap (unexpired now) h.0,
)

length-purge : (now : ℕ) (m : Dict Entry) → length m ≡ (purge now m).1 + length (purge now m).0
unfolding purge
length-purge now [] = refl
length-purge now (x ∷ m) = ground (arith, length-purge now m)

-- PurgeExpired on a store whose keys differ removes the expired entries and no others, and returns
-- how many it removed.
purge_expired_lem :
    (now : ℕ) (s : MemStore)
    → IsMap s.entries
    → ((id : Text)
        → lookup id (purge_expired now s).0.entries ≡ unexpired now (lookup id s.entries))
      × (length s.entries ≡ (purge_expired now s).1 + length (purge_expired now s).0.entries)
unfolding purge_expired
purge_expired_lem now s h = (λ id. lookup-purge now id s.entries h, length-purge now s.entries)

-- The operations that change the store.
pub data Call : Type 0 where
  upsert_call : ℕ → ℕ → ℕ → Entry → Call
  delete_call : Text → Call
  purge_call : ℕ → Call

abbrev pub step : Call → MemStore → MemStore
step (upsert_call now1 now2 now3 e) s = upsert now1 now2 now3 e s
step (delete_call id) s = delete id s
step (purge_call now) s = (purge_expired now s).0

abbrev pub run : List Call → MemStore → MemStore
run [] s = s
run (c ∷ cs) s = run cs (step c s)

-- An entry stands under its own identifier, which is not empty.
abbrev pub AtId : Text → Entry → Type 0
AtId id e = (e.id ≡ id) × (is_empty id ≡ false)

pub record Inv (s : MemStore) : Type 0 where
  pub keys_differ : IsMap s.entries
  pub at_id : Entries AtId s.entries

purge-IsMap : (now : ℕ) (m : Dict Entry) → IsMap m → IsMap (purge now m).0
unfolding purge
purge-IsMap now [] h = tt
purge-IsMap now ((j, e) ∷ m) h = ground (arith, purge-IsMap now m h.1, lookup-purge now j m h.1)

purge-Entries : (now : ℕ) (m : Dict Entry) → Entries AtId m → Entries AtId (purge now m).0
unfolding purge
purge-Entries now [] h = tt
purge-Entries now ((j, e) ∷ m) h = ground (arith, purge-Entries now m h.1)

step-Inv : (c : Call) (s : MemStore) → Inv s → Inv (step c s)
step-Inv (upsert_call now1 now2 now3 e) s h =
    unfold upsert in
    (elim (Bool-cases (is_empty e.id)) [
      | inl unnamed ↦ rw (unnamed, if◌then◌else◌) h
      | inr named ↦
          rw (named, if◌then◌else◌)
            (record {
              keys_differ = IsMap-insert e.id (stamped now1 now2 now3 e) s.entries h.keys_differ;
              at_id =
                  Entries-insert AtId e.id (stamped now1 now2 now3 e) s.entries (refl, named)
                    h.at_id;
            })
    ])
step-Inv (delete_call id) s h =
    unfold delete in
    (record {
      keys_differ = IsMap-remove id s.entries h.keys_differ;
      at_id = Entries-remove AtId id s.entries h.at_id;
    })
step-Inv (purge_call now) s h =
    unfold purge_expired in
    (record {
      keys_differ = purge-IsMap now s.entries h.keys_differ;
      at_id = purge-Entries now s.entries h.at_id;
    })

run-Inv : (cs : List Call) (s : MemStore) → Inv s → Inv (run cs s)
run-Inv [] s h = h
run-Inv (c ∷ cs) s h = run-Inv cs (step c s) (step-Inv c s h)

-- In a store that calls of Upsert, Delete and PurgeExpired built up from NewMemStore, the keys
-- differ and each entry stands under its own identifier, which is not empty.
pub run-new_mem_store-Inv : (cs : List Call) → Inv (run cs new_mem_store)
run-new_mem_store-Inv cs =
    run-Inv cs new_mem_store (unfold new_mem_store in (record { keys_differ = tt; at_id = tt }))
