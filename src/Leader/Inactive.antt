-- ===== src/Leader/Inactive.antt =====
-- The servers whose state the leader watches for a split brain: INACTIVE_SERVER_ARRAY of
-- server/cluster_relationship.c. Servers are named by their positions in CLUSTER_SERVER_ARRAY.
use faststore.Prelude.{
  ℕ, ◌+◌, ◌≤◌, ◌<◌, ◌≡◌, refl, ap, inl, inr, ◌==◌, ltb, if◌then◌else◌, Bool, true, false,
  Bool-cases, List, [], ◌∷◌, ◌++◌, length, lt→ltb, arith,
}

pub record DetectEntry : Type 0 where
  pub cs : ℕ
  pub next_time : ℕ

pub record DetectArray : Type 0 where
  pub entries : List DetectEntry
  pub alloc : ℕ

-- SET_SERVER_DETECT_ENTRY
abbrev pub detect_entry : ℕ → ℕ → DetectEntry
detect_entry now cs = record { cs = cs; next_time = now + 1 }

-- The entries that init_inactive_server_array writes, for the servers from position `k` on.
unfoldable detect_others : ℕ → ℕ → ℕ → List ℕ → List DetectEntry
detect_others now myself k [] = []
detect_others now myself k (s ∷ l) =
    let rest = detect_others now myself (k + 1) l in
    if k == myself then rest else detect_entry now k ∷ rest

unfoldable init_inactive_server_array : ℕ → ℕ → List ℕ → DetectArray → DetectArray
unfolding detect_others
init_inactive_server_array now myself servers a = record a {
  entries = detect_others now myself 0 servers;
}

unfoldable is_listed : ℕ → List DetectEntry → Bool
is_listed cs [] = false
is_listed cs (e ∷ l) = if e.cs == cs then true else is_listed cs l

unfoldable add_to_inactive_sarray : ℕ → ℕ → DetectArray → DetectArray
unfolding is_listed
add_to_inactive_sarray now cs a =
    if is_listed cs a.entries
    then a
    else if ltb (length a.entries) a.alloc
    then record a { entries = a.entries ++ detect_entry now cs ∷ [] }
    else a

-- The entries behind the one found move one place to the front.
unfoldable without : ℕ → List DetectEntry → List DetectEntry
without cs [] = []
without cs (e ∷ l) = if e.cs == cs then l else e ∷ without cs l

unfoldable remove_from_inactive_sarray : ℕ → DetectArray → DetectArray
unfolding without
remove_from_inactive_sarray cs a = record a { entries = without cs a.entries }

-- How many entries a server has.
abbrev times : ℕ → List DetectEntry → ℕ
times w [] = 0
times w (e ∷ l) = (if e.cs == w then 1 else 0) + times w l

times-append : (w : ℕ) (l m : List DetectEntry) → times w (l ++ m) ≡ times w l + times w m
times-append w [] m = omega arith
times-append w (e ∷ l) m = omega (arith, times-append w l m)

times-is_listed : (w : ℕ) (l : List DetectEntry) → is_listed w l ≡ false → times w l ≡ 0
unfolding is_listed
times-is_listed w [] h = refl
times-is_listed w (e ∷ l) h = ground (arith, h, times-is_listed w l)

times-without : (w cs : ℕ) (l : List DetectEntry) → times w (without cs l) ≤ times w l
unfolding without
times-without w cs [] = omega arith
times-without w cs (e ∷ l) = ground (arith, times-without w cs l)

times-detect_others :
    (now myself w k : ℕ) (l : List ℕ)
    → (times w (detect_others now myself k l) ≤ 1)
      × (w < k → times w (detect_others now myself k l) ≡ 0)
unfolding detect_others
times-detect_others now myself w k [] = (omega arith, λ h. refl)
times-detect_others now myself w k (s ∷ l) = (
  ground (arith, times-detect_others now myself w (k + 1) l),
  λ h. ground (arith, h, times-detect_others now myself w (k + 1) l),
)

-- Each server has one entry at the most.
IsApart : DetectArray → Type 0
IsApart a = (w : ℕ) → times w a.entries ≤ 1

-- After init_inactive_server_array each server has one entry at the most.
init_inactive_server_array-IsApart :
    (now myself : ℕ) (servers : List ℕ) (a : DetectArray)
    → IsApart (init_inactive_server_array now myself servers a)
unfolding init_inactive_server_array IsApart
init_inactive_server_array-IsApart now myself servers a w =
    (times-detect_others now myself w 0 servers).0

add_to_inactive_sarray-IsApart :
    (now cs : ℕ) (a : DetectArray) → IsApart a → IsApart (add_to_inactive_sarray now cs a)
unfolding add_to_inactive_sarray IsApart
add_to_inactive_sarray-IsApart now cs a h w = elim (Bool-cases (is_listed cs a.entries)) [
  | inl q ↦ rw (add_to_inactive_sarray, q) (h w)
  | inr q ↦ elim (Bool-cases (ltb (length a.entries) a.alloc)) [
    | inl r ↦
        rw (add_to_inactive_sarray, q, r)
          (ground (
            arith,
            h w,
            times-append w a.entries (detect_entry now cs ∷ []),
            times-is_listed cs a.entries q,
          ))
    | inr r ↦ rw (add_to_inactive_sarray, q, r) (h w)
  ]
]

remove_from_inactive_sarray-IsApart :
    (cs : ℕ) (a : DetectArray) → IsApart a → IsApart (remove_from_inactive_sarray cs a)
unfolding remove_from_inactive_sarray IsApart
remove_from_inactive_sarray-IsApart cs a h w = omega (arith, h w, times-without w cs a.entries)

without-append :
    (cs now : ℕ) (l : List DetectEntry)
    → is_listed cs l ≡ false
    → without cs (l ++ detect_entry now cs ∷ []) ≡ l
unfolding without is_listed
without-append cs now [] h = ground arith
without-append cs now (e ∷ l) h = elim (Bool-cases (e.cs == cs)) [
  | inl q ↦ absurd (ground (arith, h, q))
  | inr q ↦ rw (without, q) (ap (λ m. e ∷ m) (without-append cs now l (rw (is_listed, q) at h)))
]

-- A server that is added to the array and removed from it leaves the array as it was, where it had
-- no entry.
remove_from_inactive_sarray-add_to_inactive_sarray :
    (now cs : ℕ) (a : DetectArray)
    → is_listed cs a.entries ≡ false
    → length a.entries < a.alloc
    → remove_from_inactive_sarray cs (add_to_inactive_sarray now cs a) ≡ a
unfolding remove_from_inactive_sarray add_to_inactive_sarray
remove_from_inactive_sarray-add_to_inactive_sarray now cs a h room =
    rw (add_to_inactive_sarray, h, lt→ltb _ _ room)
      (ap (λ l. record a { entries = l }) (without-append cs now a.entries h))
