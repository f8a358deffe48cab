-- ===== src/Kernel/Runtime/Actions.antt =====
-- The client actions that a session has seen (MarkClientAction).
use mathlib.Core.List.{Perm}
use vcos.Base.{
  ℕ, suc, ◌+◌, ◌-◌, ◌*◌, ◌≤◌, ◌<◌, ◌≡◌, refl, ap, true, false, not, ◌&&◌, inl, inr, List, [], ◌∷◌,
  Option, none, some, arith, if◌then◌else◌, Bool-cases, Option-cases, ltb, length, length-keep-le,
  length-drop,
}
use vcos.Base.Text.{Text, ◌==◌, eq_iff, is_empty, trim_space}
use vcos.Base.Dict.{Dict, lookup, insert, lookup-insert, length-insert}
use vcos.Base.Sort.{length-perm}
use vcos.Kernel.Runtime.{
  RuntimeSession, new_runtime_session, mark_client_action, pending_limit, drop_old, evict,
  two_hours,
}

-- Go iterates over a map in some order.
abbrev pub Shuffles : (Dict ℕ → Dict ℕ) → Type 0
Shuffles shuffle = (m : Dict ℕ) → Perm (shuffle m) m

drop_old_bounded : (cutoff : ℕ) (m : Dict ℕ) → length (drop_old cutoff m) ≤ length m
drop_old_bounded cutoff m = elim (Bool-cases (ltb (pending_limit * 4) (length m))) [
  | inl many ↦ rw (many, if◌then◌else◌) (length-keep-le (λ x. not (ltb x.1 cutoff)) m)
  | inr few ↦ rw (few, if◌then◌else◌) (omega arith)
]

evict_bounded :
    (shuffle : Dict ℕ → Dict ℕ)
    → Shuffles shuffle
    → (m : Dict ℕ) → length (evict shuffle m) ≤ pending_limit * 4
evict_bounded shuffle perm m = elim (Bool-cases (ltb (pending_limit * 4) (length m))) [
  | inl many ↦
      rw (many, if◌then◌else◌)
        (omega
          (arith, length-drop {0} (length m - pending_limit * 2) (shuffle m), length-perm (perm m)))
  | inr few ↦ rw (few, if◌then◌else◌) (ground arith)
]

-- However many actions a session has seen, it remembers at most four times the limit of pending
-- events: a call keeps the number within that bound, whatever the order of the map.
pub mark_client_action_bounded :
    (shuffle : Dict ℕ → Dict ℕ)
    → Shuffles shuffle
    → (now : ℕ) (id : Text) (s : RuntimeSession) → length s.client_actions ≤ pending_limit * 4
    → length (mark_client_action shuffle now id s).1.client_actions ≤ pending_limit * 4
unfolding mark_client_action
mark_client_action_bounded shuffle perm now id s h = ground (
  arith,
  evict_bounded shuffle perm
      (drop_old (now - two_hours) (insert (trim_space id) now s.client_actions)),
)

-- The calls with their times, and how many of them accept the identifier.
abbrev pub accepts : (Dict ℕ → Dict ℕ) → Text → List (ℕ × Text) → RuntimeSession → ℕ
accepts shuffle id [] s = 0
accepts shuffle id ((now, name) ∷ calls) s =
    let (fresh, s') = mark_client_action shuffle now name s in
    let rest = accepts shuffle id calls s' in
    if trim_space name == id && fresh then suc rest else rest

abbrev seen : Option ℕ → ℕ
seen none = 0
seen (some at) = 1

mark_new :
    (shuffle : Dict ℕ → Dict ℕ) (now : ℕ) (name : Text) (s : RuntimeSession)
    → is_empty (trim_space name) ≡ false
    → lookup (trim_space name) s.client_actions ≡ none
    → length s.client_actions < pending_limit * 4
    → mark_client_action shuffle now name s
      ≡ (true, record s { client_actions = insert (trim_space name) now s.client_actions })
unfolding mark_client_action
mark_new shuffle now name s full absent room =
    let bound = length-insert (trim_space name) now s.client_actions in ground (arith, bound)

mark_blank :
    (shuffle : Dict ℕ → Dict ℕ) (now : ℕ) (name : Text) (s : RuntimeSession)
    → is_empty (trim_space name) ≡ true
    → mark_client_action shuffle now name s ≡ (true, s)
unfolding mark_client_action
mark_blank shuffle now name s blank = rw (blank, if◌then◌else◌) refl

mark_seen :
    (shuffle : Dict ℕ → Dict ℕ) (now : ℕ) (name : Text) (s : RuntimeSession) {at : ℕ}
    → is_empty (trim_space name) ≡ false
    → lookup (trim_space name) s.client_actions ≡ some at
    → mark_client_action shuffle now name s ≡ (false, s)
unfolding mark_client_action
mark_seen shuffle now name s full found = rw (full, found, if◌then◌else◌) refl

empty_ne : (t id : Text) → is_empty t ≡ true → is_empty id ≡ false → (t == id) ≡ false
unfolding ◌==◌
empty_ne [] [] h k = cc
empty_ne [] (c ∷ id) h k = refl
empty_ne (c ∷ t) id h k = cc

accepts_bounded :
    (shuffle : Dict ℕ → Dict ℕ) (id : Text) (calls : List (ℕ × Text)) (s : RuntimeSession)
    → is_empty id ≡ false
    → length s.client_actions + length calls ≤ pending_limit * 4
    → accepts shuffle id calls s + seen (lookup id s.client_actions) ≤ 1
accepts_bounded shuffle id [] s full room = ground arith
accepts_bounded shuffle id ((now, name) ∷ calls) s full room =
    let key = trim_space name in
    elim (Bool-cases (is_empty key)) [
      | inl blank ↦
          rw (mark_blank shuffle now name s blank, empty_ne key id blank full)
            (accepts_bounded shuffle id calls s full (omega arith))
      | inr named ↦ elim (Option-cases (lookup key s.client_actions)) [
        | inl absent ↦
            let s' = record s { client_actions = insert key now s.client_actions } in
            let longer = length-insert key now s.client_actions in
            let rest = accepts_bounded shuffle id calls s' full (omega arith) in
            rw (mark_new shuffle now name s named absent (omega arith)) (
              ground (
                arith,
                rest,
                lookup-insert key id now s.client_actions,
                eq_iff key id,
                absent,
                ap seen (lookup-insert key id now s.client_actions),
              ))
        | inr (at, found) ↦
            rw (mark_seen shuffle now name s named found)
              (ground (arith, accepts_bounded shuffle id calls s full (omega arith)))
      ]
    ]

-- An action is accepted once: of at most as many calls as the session remembers actions, with
-- whatever identifiers and at whatever times, at most one accepts a given identifier, which is
-- compared trimmed and is not blank.
pub accepted_once :
    (shuffle : Dict ℕ → Dict ℕ) (identity : ℕ) (id : Text) (calls : List (ℕ × Text))
    → is_empty id ≡ false
    → length calls ≤ pending_limit * 4
    → accepts shuffle id calls (new_runtime_session identity) ≤ 1
unfolding new_runtime_session lookup
accepted_once shuffle identity id calls full room =
    let bound =
      accepts_bounded shuffle id calls (new_runtime_session identity) full (omega arith) in
    omega (arith, bound)
