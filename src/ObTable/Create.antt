-- ===== src/ObTable/Create.antt =====
-- get_ob_entry_ex with its flag for creation: an entry is found, or linked in its place.
use Prim.Native.Nat.{Ordering}
use faststore.Prelude.{
  ℕ, zero, suc, ◌≡◌, ◌≢◌, refl, sym, ◌∙◌, Bool, true, false, List, [], ◌∷◌, Option, none, some, inl,
  inr,
}
use faststore.Types.{FsBlockKey}
use faststore.ObTable.{compare_block_key, ObEntry, ObHashtable, find_entry, link_entry}
use faststore.ObTable.Chain.{
  compare_block_key_trans, compare_block_key_self, Ordering-cases, find-here, find-before,
  find-after, find-same_head,
}
use faststore.ObTable.Blocks.{
  bucket_index, lookup, on_bucket, lookup-on_bucket, lookup-on_bucket_other,
}

module _ {N : Type 0} where
  -- The entry, the table, and the number of allocations that still succeed: of the entry, and of
  -- its empty container `slices`. `count` is what the memory of the new entry has in
  -- reclaiming_count, which is not set here: fast_mblock gives out freed objects as they are.
  unfoldable pub get_ob_entry_ex :
      ObHashtable N → FsBlockKey → Bool → N → ℕ → ℕ → Option (ObEntry N) × ObHashtable N × ℕ
  get_ob_entry_ex ht k create_flag slices count mem = elim (lookup ht k) [
    | some ob ↦ (some ob, ht, mem)
    | none ↦ elim create_flag [
      | false ↦ (none, ht, mem)
      | true ↦ elim mem [
        | zero ↦ (none, ht, zero)
        | suc m ↦ elim m [
          | zero ↦ (none, ht, zero)
          | suc m' ↦
              let ob : ObEntry N = record { bkey = k; slices = slices; reclaiming_count = count } in
              (some ob, on_bucket ht k (link_entry ob), m')
        ]
      ]
    ]
  ]

  find-link_entry :
      (e : ObEntry N) (l : List (ObEntry N))
      → find_entry e.bkey l ≡ none
      → find_entry e.bkey (link_entry e l) ≡ some e
  unfolding link_entry
  find-link_entry e [] h = find-here e.bkey e [] (compare_block_key_self e.bkey)
  find-link_entry e (x ∷ l) h = elim (Ordering-cases (compare_block_key e.bkey x.bkey)) [
    | inl q ↦ rw (link_entry, q) (find-here e.bkey e (x ∷ l) (compare_block_key_self e.bkey))
    | inr (inl q) ↦ rw (link_entry, q) (find-here e.bkey e (x ∷ l) (compare_block_key_self e.bkey))
    | inr (inr q) ↦
        rw (link_entry, q)
          (find-after e.bkey x (link_entry e l) q
            ∙ find-link_entry e l (sym (find-after e.bkey x l q) ∙ h))
  ]

  some-none : (x : ObEntry N) → some x ≢ none
  some-none x e = cc

  find-link_entry_other :
      (w : FsBlockKey) (e : ObEntry N) (l : List (ObEntry N))
      → compare_block_key w e.bkey ≢ Ordering.eq
      → find_entry e.bkey l ≡ none
      → find_entry w (link_entry e l) ≡ find_entry w l
  unfolding link_entry find_entry
  find-link_entry_other w e [] n h = elim (Ordering-cases (compare_block_key w e.bkey)) [
    | inl q ↦ find-before w e [] q
    | inr (inl q) ↦ absurd (n q)
    | inr (inr q) ↦ find-after w e [] q
  ]
  find-link_entry_other w e (x ∷ l) n h = elim (Ordering-cases (compare_block_key e.bkey x.bkey)) [
    | inl q ↦
        rw (link_entry, q)
          (elim (Ordering-cases (compare_block_key w e.bkey)) [
            | inl z ↦
                find-before w e (x ∷ l) z
                ∙ sym (find-before w x l (compare_block_key_trans w e.bkey x.bkey z q))
            | inr (inl z) ↦ absurd (n z)
            | inr (inr z) ↦ find-after w e (x ∷ l) z
          ])
    | inr (inl q) ↦ absurd (some-none x (sym (find-here e.bkey x l q) ∙ h))
    | inr (inr q) ↦
        rw (link_entry, q)
          (find-same_head w x (link_entry e l) l
            (find-link_entry_other w e l n (sym (find-after e.bkey x l q) ∙ h)))
  ]

  -- Where the block has no entry and memory is there for one, get_ob_entry_ex with create_flag returns a
  -- new entry for the key, with the count of reclaims that its memory had, that is found for the
  -- block from then on; all other blocks have the entries that they had.
  pub get_ob_entry_ex_creates :
      (ht : ObHashtable N) (k : FsBlockKey) (slices : N) (count mem : ℕ)
      → lookup ht k ≡ none
      → (let r = get_ob_entry_ex ht k true slices count (suc (suc mem)) in
          let ob : ObEntry N = record { bkey = k; slices = slices; reclaiming_count = count } in
          (r.0 ≡ some ob)
          × (lookup r.1 k ≡ some ob)
          × ((w : FsBlockKey) → compare_block_key w k ≢ Ordering.eq → lookup r.1 w ≡ lookup ht w))
  unfolding get_ob_entry_ex
  get_ob_entry_ex_creates ht k slices count mem h =
      let ob : ObEntry N = record { bkey = k; slices = slices; reclaiming_count = count } in
      rw (get_ob_entry_ex, h)
        (
          refl,
          lookup-on_bucket ht k (link_entry ob)
              ∙ find-link_entry ob (ht.buckets (bucket_index ht k)) h,
          λ w n.
              lookup-on_bucket_other ht k (link_entry ob) w
                (find-link_entry_other w ob (ht.buckets (bucket_index ht k)) n h),
        )
