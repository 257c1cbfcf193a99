-- ===== src/Election/Newest.antt =====
-- The server with the newest data, as the sorted pointers of a group give it
-- (server/master_election.c).
use faststore.Prelude.{
  ℕ, ◌≤◌, ◌<◌, ◌≡◌, ◌≢◌, ◌⊎◌, inl, inr, false, ◌==◌, Option-cases, some, List, [], ◌∷◌, length,
  last?, last?-none, last?-All, All, All-at, Among, subst, arith,
}
use faststore.Sort.{
  Among-sort, Comparison, greater, sort, IsOrder, or_else-IsOrder, by_key-IsOrder, last-sort,
  All-sort,
}
use faststore.Election.{
  DataServer, DataGroup, Setting, Counters, no_counters, server_at, sort_ds_ptrs, last_ptr,
  count_servers, compare_ds_by_data_version, flag,
}
use faststore.Election.Whole.{IsWhole, All-server_at}

compare_ds_by_data_version-IsOrder : IsOrder compare_ds_by_data_version
unfolding compare_ds_by_data_version
compare_ds_by_data_version-IsOrder = or_else-IsOrder _ _ (by_key-IsOrder (λ d. d.version)) (
    or_else-IsOrder _ _ (by_key-IsOrder (λ d. d.cs.status)) (
      or_else-IsOrder _ _ (by_key-IsOrder (λ d. flag d.is_preseted))
        (by_key-IsOrder (λ d. flag d.is_master))))

abbrev by_version : List DataServer → ℕ → ℕ → Comparison
by_version l i j = compare_ds_by_data_version (server_at l i) (server_at l j)

by_version-IsOrder : (l : List DataServer) → IsOrder (by_version l)
by_version-IsOrder l = record {
  swap = λ i j. compare_ds_by_data_version-IsOrder.swap (server_at l i) (server_at l j);
  chain = λ i j k.
      compare_ds_by_data_version-IsOrder.chain (server_at l i) (server_at l j) (server_at l k);
}

version_of_order :
    (a b : DataServer) → compare_ds_by_data_version a b ≢ greater → a.version ≤ b.version
unfolding compare_ds_by_data_version
version_of_order a b h = ground arith

-- No server of the list has a later data version than the one at position `n`.
abbrev pub IsNewest : List DataServer → ℕ → Type 0
IsNewest l n = All (λ d. d.version ≤ (server_at l n).version) l

last_ptr-cases : (l : List ℕ) → (l ≡ []) ⊎ (last? l ≡ some (last_ptr l))
unfolding last_ptr
last_ptr-cases l = elim (Option-cases (last? l)) [
  | inl q ↦ inl (last?-none l q)
  | inr (n, q) ↦ inr (rw (last_ptr, q))
]

pub last_ptr-IsNewest :
    (g : DataGroup)
    → IsWhole g
    → 0 < length g.data_servers
    → (last_ptr (sort_ds_ptrs g).ds_ptrs < length g.data_servers)
      × IsNewest g.data_servers (last_ptr (sort_ds_ptrs g).ds_ptrs)
unfolding sort_ds_ptrs
last_ptr-IsNewest g w pos = elim (last_ptr-cases sorted) [
  | inl q ↦
      absurd
        (subst (Among 0) q (Among-sort (by_version g.data_servers) g.ds_ptrs 0 (w.covers 0 pos)))
  | inr q ↦ (
    last?-All _ sorted (All-sort _ _ g.ds_ptrs w.within) q,
    All-server_at _ g.data_servers λ j within.
        version_of_order (server_at g.data_servers j) (server_at g.data_servers (last_ptr sorted)) (
          All-at (λ a. by_version g.data_servers a (last_ptr sorted) ≢ greater) g.ds_ptrs j
            (last-sort _ (by_version-IsOrder g.data_servers) g.ds_ptrs _ q) (w.covers j within)),
  )
]
  where
    sorted : List ℕ
    sorted = sort (by_version g.data_servers) g.ds_ptrs

pub count_servers-nonempty :
    (e : Setting) (start : ℕ) (l : List DataServer) {c : Counters}
    → count_servers e start l no_counters ≡ some c
    → (c.active == 0) ≡ false
    → 0 < length l
unfolding count_servers
count_servers-nonempty e start [] h q = ground arith
count_servers-nonempty e start (ds ∷ l) h q = omega arith
