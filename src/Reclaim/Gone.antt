-- ===== src/Reclaim/Gone.antt =====
-- A block that the gathering of slices does not find was not in the hash table before it
-- (server/storage/trunk_reclaim.c, server/storage/object_block_index.c).
use Prim.Native.Nat.{Ordering}
use faststore.Prelude.{
  ◌+◌, ◌≡◌, ◌≢◌, refl, sym, ◌∙◌, subst, ◌⊎◌, inl, inr, ◌==◌, eq-or-ne, eq→eqb, ne→eqb, Bool-cases,
  Option-cases, none, some, List, [], ◌∷◌, arith,
}
use faststore.Types.{FsBlockKey, FsBlockSliceKeyInfo}
use faststore.Sort.{Comparison-cases, insert, sort}
use faststore.ObTable.{compare_block_key, ObEntry, ObHashtable, find_entry, change_entry}
use faststore.ObTable.Chain.{Ordering-cases, find-here, find-after, find-before}
use faststore.ObTable.Blocks.{ob_index_reclaim_lock, lookup, bucket_index, count_up}
use faststore.Reclaim.{compare_by_block_slice_key, convert_to_rs_array, lengthened, chain_of}

module _ {N : Type 0} where
  -- The block of one of the slices has no entry.
  abbrev pub Gone : ObHashtable N → List FsBlockSliceKeyInfo → Type 0
  Gone ht [] = ⊥
  Gone ht (s ∷ l) = (lookup ht s.block ≡ none) ⊎ Gone ht l

  same_head :
      (w : FsBlockKey) (x y : ObEntry N) (l m : List (ObEntry N))
      → y.bkey ≡ x.bkey
      → (find_entry w m ≡ none → find_entry w l ≡ none)
      → find_entry w (y ∷ m) ≡ none
      → find_entry w (x ∷ l) ≡ none
  same_head w x y l m e rest h = elim (Ordering-cases (compare_block_key w x.bkey)) [
    | inl q ↦ find-before w x l q
    | inr (inl q) ↦ absurd (some-none (sym (find-here w y m (key_of Ordering.eq q)) ∙ h))
    | inr (inr q) ↦ find-after w x l q ∙ rest (sym (find-after w y m (key_of Ordering.gt q)) ∙ h)
  ]
    where
      key_of : (o : Ordering) → compare_block_key w x.bkey ≡ o → compare_block_key w y.bkey ≡ o
      key_of o q = subst (λ z. compare_block_key w z ≡ o) (sym e) q

      some-none : some y ≢ none
      some-none q = ground arith

  find_entry-change_entry-none :
      (w k : FsBlockKey) (l : List (ObEntry N))
      → find_entry w (change_entry k count_up l) ≡ none
      → find_entry w l ≡ none
  unfolding change_entry
  find_entry-change_entry-none w k [] h = h
  find_entry-change_entry-none w k (x ∷ l) h = elim (Ordering-cases (compare_block_key k x.bkey)) [
    | inl q ↦ rw (change_entry, q) at h
    | inr (inl q) ↦ same_head w x (count_up x) l l refl (λ n. n) (rw (change_entry, q) at h)
    | inr (inr q) ↦
        same_head w x x l (change_entry k count_up l) refl (find_entry-change_entry-none w k l)
          (rw (change_entry, q) at h)
  ]

  lookup-locked_none :
      (ht : ObHashtable N) (k w : FsBlockKey)
      → lookup (ob_index_reclaim_lock ht k).1 w ≡ none
      → lookup ht w ≡ none
  unfolding ob_index_reclaim_lock
  lookup-locked_none ht k w h = elim (Option-cases (lookup ht k)) [
    | inl q ↦ rw (ob_index_reclaim_lock, q) at h
    | inr (e, q) ↦ elim (eq-or-ne (bucket_index ht k) (bucket_index ht w)) [
      | inl p ↦
          subst (λ i. find_entry w (ht.buckets i) ≡ none) p
            (find_entry-change_entry-none w k (ht.buckets (bucket_index ht k)) (
              rw (ob_index_reclaim_lock, q, eq→eqb (bucket_index ht k) (bucket_index ht w) p) at h))
      | inr n ↦ rw (ob_index_reclaim_lock, q, ne→eqb (bucket_index ht k) (bucket_index ht w) n) at h
    ]
  ]

  pub not_locked-lookup :
      (ht : ObHashtable N) (k : FsBlockKey)
      → (ob_index_reclaim_lock ht k).0 ≡ none
      → lookup ht k ≡ none
  unfolding ob_index_reclaim_lock
  not_locked-lookup ht k h = elim (Option-cases (lookup ht k)) [
    | inl q ↦ q
    | inr (e, q) ↦ absurd (some-none (count_up e) (rw (ob_index_reclaim_lock, q) at h))
  ]
    where
      some-none : (e : ObEntry N) → some e ≢ none
      some-none e q = ground arith

  -- A lock of a block takes no entry away.
  pub locked-Gone :
      (ht : ObHashtable N) (k : FsBlockKey) (l : List FsBlockSliceKeyInfo)
      → Gone (ob_index_reclaim_lock ht k).1 l
      → Gone ht l
  locked-Gone ht k [] h = h
  locked-Gone ht k (s ∷ l) (inl q) = inl (lookup-locked_none ht k s.block q)
  locked-Gone ht k (s ∷ l) (inr m) = inr (locked-Gone ht k l m)

  -- The slices left after a chain are some of those before.
  pub chain_of-Gone :
      (ht : ObHashtable N) (key : FsBlockKey) (tail : FsBlockSliceKeyInfo)
      (l : List FsBlockSliceKeyInfo)
      → Gone ht (chain_of key tail l).1
      → Gone ht l
  unfolding chain_of
  chain_of-Gone ht key tail [] h = h
  chain_of-Gone ht key tail (s ∷ l) h = elim (Ordering-cases (compare_block_key key s.block)) [
    | inl q ↦ rw (chain_of, q) at h
    | inr (inr q) ↦ rw (chain_of, q) at h
    | inr (inl q) ↦ elim (Bool-cases (tail.slice.offset + tail.slice.length == s.slice.offset)) [
      | inl e ↦
          inr (chain_of-Gone ht key (lengthened tail s.slice.length) l (rw (chain_of, q, e) at h))
      | inr e ↦ inr (chain_of-Gone ht key s l (rw (chain_of, q, e) at h))
    ]
  ]

  Gone-tail :
      (ht : ObHashtable N) (s : FsBlockSliceKeyInfo) (l m : List FsBlockSliceKeyInfo)
      → (Gone ht m → Gone ht l)
      → Gone ht (s ∷ m)
      → Gone ht (s ∷ l)
  Gone-tail ht s l m rest (inl n) = inl n
  Gone-tail ht s l m rest (inr g) = inr (rest g)

  Gone-swap :
      (ht : ObHashtable N) (s t : FsBlockSliceKeyInfo) (l : List FsBlockSliceKeyInfo)
      → Gone ht (t ∷ s ∷ l)
      → Gone ht (s ∷ t ∷ l)
  Gone-swap ht s t l (inl n) = inr (inl n)
  Gone-swap ht s t l (inr (inl n)) = inl n
  Gone-swap ht s t l (inr (inr g)) = inr (inr g)

  insert-Gone :
      (ht : ObHashtable N) (s : FsBlockSliceKeyInfo) (l : List FsBlockSliceKeyInfo)
      → Gone ht (insert compare_by_block_slice_key s l)
      → Gone ht (s ∷ l)
  unfolding insert
  insert-Gone ht s [] h = h
  insert-Gone ht s (t ∷ l) h = elim (Comparison-cases (compare_by_block_slice_key s t)) [
    | inl q ↦ rw (insert, q) at h
    | inr (inl q) ↦ rw (insert, q) at h
    | inr (inr q) ↦ Gone-swap ht s t l (
        Gone-tail ht t (s ∷ l) (insert compare_by_block_slice_key s l) (insert-Gone ht s l)
          (rw (insert, q) at h))
  ]

  pub convert-Gone :
      (ht : ObHashtable N) (l : List FsBlockSliceKeyInfo)
      → Gone ht (convert_to_rs_array l)
      → Gone ht l
  unfolding convert_to_rs_array sort
  convert-Gone ht [] h = h
  convert-Gone ht (s ∷ l) h =
      Gone-tail ht s l (convert_to_rs_array l) (convert-Gone ht l)
        (insert-Gone ht s (convert_to_rs_array l) h)
