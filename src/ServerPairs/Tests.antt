-- ===== src/ServerPairs/Tests.antt =====
-- The channels of four servers.
use faststore.Prelude.{
  ℕ, ◌+◌, ◌-◌, ◌*◌, ◌/◌, ◌≤◌, ◌≡◌, refl, ◌⊎◌, inl, inr, min, max, some, List, [], ◌∷◌, length,
  arith,
}
use faststore.ServerPairs.{init_server_pair_index_array, fs_get_server_pair_base_offset, Ascending}
use faststore.ServerPairs.Apart.{offset_of_pair, offsets_apart}

abbrev four : List ℕ
four = 2 ∷ 3 ∷ 5 ∷ 9 ∷ []

four-Ascending : Ascending four
four-Ascending = (
  (omega arith, (omega arith, (omega arith, tt))),
  ((omega arith, (omega arith, tt)), ((omega arith, tt), (tt, tt))),
)

third_pair : fs_get_server_pair_base_offset (init_server_pair_index_array 4 four) 9 2 ≡ some 8
unfolding fs_get_server_pair_base_offset init_server_pair_index_array
third_pair = refl

fifth_pair : fs_get_server_pair_base_offset (init_server_pair_index_array 4 four) 3 9 ≡ some 16
unfolding fs_get_server_pair_base_offset init_server_pair_index_array
fifth_pair = refl

offset_of_pair_example :
    (o : ℕ) × (fs_get_server_pair_base_offset (init_server_pair_index_array 4 four) 9 2 ≡ some o)
    × (fs_get_server_pair_base_offset (init_server_pair_index_array 4 four) 2 9 ≡ some o)
    × (o + 4 ≤ length four * (length four - 1) / 2 * 4)
offset_of_pair_example =
    offset_of_pair 4 four 9 2 four-Ascending (inr (inr (inr (inl refl)))) (inl refl)
      (λ q. absurd (omega arith))

offsets_apart_example : ((min 9 2 ≡ min 3 9) × (max 9 2 ≡ max 3 9)) ⊎ (8 + 4 ≤ 16) ⊎ (16 + 4 ≤ 8)
offsets_apart_example = offsets_apart 4 four 9 2 3 9 8 16 third_pair fifth_pair
