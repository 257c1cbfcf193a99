-- ===== src/ServerPairs/Apart.antt =====
-- What fs_get_server_pair_base_offset (server/server_group_info.c) answers for the servers of the
-- cluster: every two of them have channels, and no two pairs share one.
use faststore.Prelude.{
  ℕ, ◌+◌, ◌-◌, ◌*◌, ◌/◌, ◌<◌, ◌≤◌, ◌≡◌, ◌≢◌, sym, ap, ◌∙◌, subst, ◌⊎◌, inl, inr, min, max, leb,
  lt→leb, eq-or-ne, le-or-lt, Bool-cases, Option, some, none, Option-cases, List, [], ◌∷◌, length,
  Among, arith,
}
use faststore.ServerPairs.{
  PairEntry, all_pairs, init_server_pair_index_array, bsearch, offset_of,
  fs_get_server_pair_base_offset, Ascending,
}
use faststore.ServerPairs.Found.{Found, pair, all_pairs-Found}
use faststore.ServerPairs.Channels.{
  Numbered, all_pairs-Numbered, length-all_pairs, square_less, some_is, entry_at, EntryAt,
  bsearch-EntryAt,
}

two_members : (ids : List ℕ) (a b : ℕ) → Among a ids → Among b ids → a ≢ b → 1 < length ids
two_members [] a b m n d = absurd m
two_members (x ∷ []) a b (inl e) (inl q) d = absurd (omega (arith, e, q, d))
two_members (x ∷ []) a b (inl e) (inr n) d = absurd n
two_members (x ∷ []) a b (inr m) n d = absurd m
two_members (x ∷ y ∷ ids) a b m n d = omega arith

pair_comm : (a b : ℕ) → pair (min b a) (max b a) ≡ pair (min a b) (max a b)
pair_comm a b = ground arith

half_of : (n m : ℕ) → 2 * m + n ≡ n * n → m ≡ n * (n - 1) / 2
half_of n m h = omega (arith, square_less n)

module _ (channels : ℕ) (ids : List ℕ) where
  abbrev entries : List PairEntry
  entries = init_server_pair_index_array channels ids

  entries-Numbered : Numbered channels 0 entries
  unfolding init_server_pair_index_array
  entries-Numbered = elim (Bool-cases (leb (length ids) 1)) [
    | inl q ↦ rw (init_server_pair_index_array, q) tt
    | inr q ↦ rw (init_server_pair_index_array, q) (all_pairs-Numbered channels 0 ids)
  ]

  -- An answer of the search is the offset of an entry of the two ids.
  answer-EntryAt :
      (a b : ℕ) {o : ℕ}
      → fs_get_server_pair_base_offset entries a b ≡ some o
      → (e : PairEntry) × (o ≡ e.offset)
        × ((j : ℕ) × (j < length entries)
            × EntryAt channels (pair (min a b) (max a b)) e 0 entries j)
  unfolding fs_get_server_pair_base_offset offset_of
  answer-EntryAt a b {o} h = elim (Option-cases (bsearch (pair (min a b) (max a b)) entries)) [
    | inl q ↦ absurd (no_answer (rw (fs_get_server_pair_base_offset, q) at h))
    | inr (e, q) ↦ (
      e,
      offset_is e (rw (fs_get_server_pair_base_offset, q) at h),
      bsearch-EntryAt channels (pair (min a b) (max a b)) 0 entries entries-Numbered q,
    )
  ]
    where
      no_answer : ◌≡◌ {A = Option ℕ} none (some o) → ⊥
      no_answer q = ground arith

      offset_is : (e : PairEntry) → some e.offset ≡ some o → o ≡ e.offset
      offset_is e q = ground arith

  rows_apart : (i j : ℕ) → i < j → i * channels + channels ≤ j * channels
  rows_apart i j h = grind arith

  -- Where two searches both find channels, they are for the same two servers, or the channels of the
  -- one pair end before those of the other begin.
  pub offsets_apart :
      (a b c d o p : ℕ)
      → fs_get_server_pair_base_offset entries a b ≡ some o
      → fs_get_server_pair_base_offset entries c d ≡ some p
      → ((min a b ≡ min c d) × (max a b ≡ max c d)) ⊎ (o + channels ≤ p) ⊎ (p + channels ≤ o)
  offsets_apart a b c d o p h k =
      let x = answer-EntryAt a b h in
      let y = answer-EntryAt c d k in
      elim (eq-or-ne x.2.0 y.2.0) [
        | inl q ↦
            let same : x.0 ≡ y.0 = some_is (sym x.2.2.3 ∙ ap (entry_at entries) q ∙ y.2.2.3) in
            inl (
              x.2.2.1 ∙ ap (λ e. e.id1) same ∙ sym y.2.2.1,
              x.2.2.2 ∙ ap (λ e. e.id2) same ∙ sym y.2.2.2,
            )
        | inr n ↦ elim (le-or-lt x.2.0 y.2.0) [
          | inl up ↦ inr (
              inl (
                omega (
                  arith,
                  x.1,
                  y.1,
                  x.2.2.0,
                  y.2.2.0,
                  rows_apart (0 + x.2.0) (0 + y.2.0) (omega (arith, up, n)),
                )))
          | inr down ↦ inr (
              inr (
                omega (
                  arith,
                  x.1,
                  y.1,
                  x.2.2.0,
                  y.2.2.0,
                  rows_apart (0 + y.2.0) (0 + x.2.0) (omega (arith, down)),
                )))
        ]
      ]

  -- As long as there are two servers, the array has one entry for each pair, as many as were
  -- allocated.
  entries_are_all : 1 < length ids → entries ≡ all_pairs channels 0 ids
  unfolding init_server_pair_index_array
  entries_are_all h = rw (lt→leb (length ids) 1 h)

  pub length-entries : 1 < length ids → length entries ≡ length ids * (length ids - 1) / 2
  length-entries h =
      ap length (entries_are_all h)
      ∙ half_of (length ids) (length (all_pairs channels 0 ids)) (length-all_pairs channels 0 ids)

  entry_of_members :
      (a b : ℕ)
      → Ascending ids
      → Among a ids
      → Among b ids
      → a ≢ b
      → Found (min a b) (max a b) (all_pairs channels 0 ids)
  entry_of_members a b up m n d = elim (le-or-lt a b) [
    | inl h ↦
        let lo : a ≡ min a b = omega arith in
        let hi : b ≡ max a b = omega arith in
        all_pairs-Found (min a b) (max a b) channels 0 ids up (omega arith)
          (subst (λ z. Among z ids) lo m) (subst (λ z. Among z ids) hi n)
    | inr h ↦
        let lo : b ≡ min a b = omega arith in
        let hi : a ≡ max a b = omega arith in
        all_pairs-Found (min a b) (max a b) channels 0 ids up (omega arith)
          (subst (λ z. Among z ids) lo n) (subst (λ z. Among z ids) hi m)
  ]

  -- For servers in the order of their ids, every two different ones have an offset, whichever of the
  -- two is given first, and the channels from there on lie within those of all n (n - 1) / 2 pairs.
  pub offset_of_pair :
      (a b : ℕ)
      → Ascending ids
      → Among a ids
      → Among b ids
      → a ≢ b
      → (o : ℕ) × (fs_get_server_pair_base_offset entries a b ≡ some o)
        × (fs_get_server_pair_base_offset entries b a ≡ some o)
        × (o + channels ≤ length ids * (length ids - 1) / 2 * channels)
  unfolding fs_get_server_pair_base_offset offset_of
  offset_of_pair a b up m n d =
      (e.offset, answer, ap (λ t. offset_of (bsearch t entries)) (pair_comm a b) ∙ answer, within)
    where
      two : 1 < length ids
      two = two_members ids a b m n d

      found : Found (min a b) (max a b) entries
      found =
          subst (Found (min a b) (max a b)) (sym (entries_are_all two))
            (entry_of_members a b up m n d)

      e : PairEntry
      e = found.0

      answer : fs_get_server_pair_base_offset entries a b ≡ some e.offset
      answer = ap offset_of found.1

      within : e.offset + channels ≤ length ids * (length ids - 1) / 2 * channels
      within =
          let x = answer-EntryAt a b answer in
          subst (λ k. e.offset + channels ≤ k * channels) (length-entries two)
            (omega
              (arith, x.1, x.2.2.0, rows_apart (0 + x.2.0) (length entries) (omega (arith, x.2.1))))
