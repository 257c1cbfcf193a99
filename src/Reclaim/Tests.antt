-- ===== src/Reclaim/Tests.antt =====
-- A trunk with slices of two blocks, of which two follow one another, gathered by the theorem and by
-- the code.
use faststore.Prelude.{ℕ, ◌≡◌, refl, true, Option, none, some, List, [], ◌∷◌, map}
use faststore.Types.{FsBlockKey, FsBlockSliceKeyInfo}
use faststore.ObTable.{fs_calc_block_hashcode, ObEntry, ObHashtable, find_entry, change_entry}
use faststore.ObTable.Blocks.{ob_index_reclaim_lock}
use faststore.Reclaim.{convert_to_rs_array, ReclaimResult, combine_to_rb_array}
use faststore.Reclaim.Combine.{held}
use faststore.Reclaim.Gathered.{Gathers, combine_to_rb_array-Gathers}

abbrev key : ℕ → FsBlockKey
key oid = fs_calc_block_hashcode (record { oid = oid; offset = 0; hash_code = 0 })

abbrev piece : ℕ → ℕ → ℕ → FsBlockSliceKeyInfo
piece oid offset n = record { block = key oid; slice = record { offset = offset; length = n } }

abbrev entry : ℕ → ObEntry (List ℕ)
entry oid = record { bkey = key oid; slices = []; reclaiming_count = 0 }

-- Keys 2 and 7 fall into the same of five buckets.
abbrev table : ObHashtable (List ℕ)
table = record { capacity = 5; buckets = λ i. entry 2 ∷ entry 7 ∷ [] }

abbrev pieces : List FsBlockSliceKeyInfo
pieces = piece 7 8 4 ∷ piece 2 0 3 ∷ piece 7 0 8 ∷ piece 7 20 1 ∷ []

-- The blocks with the offset and length of each range.
abbrev ranges_of : Option (ReclaimResult (List ℕ)) → List (ℕ × List (ℕ × ℕ))
ranges_of none = []
ranges_of (some r) =
    map (λ b. (b.ob.bkey.oid, map (λ s. (s.slice.offset, s.slice.length)) b.ranges)) r.blocks

gathered : List (ℕ × List (ℕ × ℕ))
unfolding combine_to_rb_array convert_to_rs_array
gathered = ranges_of (combine_to_rb_array true table (convert_to_rs_array pieces))

gathered_run : gathered ≡ (2, (0, 3) ∷ []) ∷ (7, (0, 12) ∷ (20, 1) ∷ []) ∷ []
unfolding gathered ob_index_reclaim_lock find_entry change_entry
gathered_run = refl

combine_to_rb_array-Gathers_example :
    (r : ReclaimResult (List ℕ)) × (combine_to_rb_array true table (convert_to_rs_array pieces)
      ≡ some r)
    × Gathers 7 0 9 table pieces (held 7 0 9 pieces) r
combine_to_rb_array-Gathers_example = combine_to_rb_array-Gathers 7 0 9 table pieces
