-- ===== src/ServerPairs.antt =====
-- The replication channels of each pair of servers (server/server_group_info.c): an array of all
-- pairs, in which the first channel of a pair is searched. The servers are in the order of their
-- ids, as init_cluster_server_array sorts them.
--
-- bsearch finds in a sorted array the entry that compares equal, here by a walk. A failed
-- allocation of the array ends the start of the server and is left out. The offset -1 of a pair
-- that is not found is `none`.
pub mod Offsets
pub mod Found
pub mod Channels
pub mod Apart
mod Tests
use faststore.Prelude.{
  ℕ, suc, ◌+◌, ◌*◌, ◌<◌, ◌≤◌, ◌≡◌, ltb, leb, min, max, if◌then◌else◌, Option, some, none, List, [],
  ◌∷◌, ◌++◌, All, length,
}
use faststore.Sort.{Comparison, equal, sign_of, or_else}

pub record PairEntry : Type 0 where
  pub id1 : ℕ
  pub id2 : ℕ
  pub offset : ℕ

unfoldable pub compare_server_pair_entry : PairEntry → PairEntry → Comparison
compare_server_pair_entry a b = or_else (sign_of a.id1 b.id1) (sign_of a.id2 b.id2)

-- The inner loop: the pairs of one server with those behind it, from the entry with index `k` on.
unfoldable pub pairs_of : ℕ → ℕ → ℕ → List ℕ → List PairEntry
pairs_of channels k id1 [] = []
pairs_of channels k id1 (id2 ∷ l) =
    record { id1 = id1; id2 = id2; offset = k * channels } ∷ pairs_of channels (suc k) id1 l

unfoldable pub all_pairs : ℕ → ℕ → List ℕ → List PairEntry
unfolding pairs_of
all_pairs channels k [] = []
all_pairs channels k (id ∷ l) = pairs_of channels k id l ++ all_pairs channels (k + length l) l

-- The entries of server_pair_index_array, for the ids of the servers.
unfoldable pub init_server_pair_index_array : ℕ → List ℕ → List PairEntry
unfolding all_pairs
init_server_pair_index_array channels ids =
    if leb (length ids) 1 then [] else all_pairs channels 0 ids

unfoldable pub bsearch : PairEntry → List PairEntry → Option PairEntry
unfolding compare_server_pair_entry
bsearch target [] = none
bsearch target (e ∷ l) = elim (compare_server_pair_entry target e) [
  | equal ↦ some e
  | _ ↦ bsearch target l
]

unfoldable pub offset_of : Option PairEntry → Option ℕ
offset_of none = none
offset_of (some e) = some e.offset

unfoldable pub fs_get_server_pair_base_offset : List PairEntry → ℕ → ℕ → Option ℕ
unfolding bsearch offset_of
fs_get_server_pair_base_offset entries server_id1 server_id2 = offset_of (
    bsearch
      (record { id1 = min server_id1 server_id2; id2 = max server_id1 server_id2; offset = 0 })
      entries)

-- The ids in ascending order, none twice.
abbrev pub Ascending : List ℕ → Type 0
Ascending [] = Unit
Ascending (x ∷ l) = All (λ y. x < y) l × Ascending l
