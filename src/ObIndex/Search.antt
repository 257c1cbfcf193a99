-- ===== src/ObIndex/Search.antt =====
-- The search of the container that add_slice, delete_slices and get_slices begin with.
use faststore.Prelude.{
  ℕ, ◌<◌, ◌≡◌, List, [], ◌∷◌, ◌++◌, some, arith, append_assoc, sym, subst, ◌∙◌, All-append, last?,
  last?-append,
}
use faststore.Types.{ObSliceEntry, end_of}
use faststore.ObIndex.Defs.{Slices}
use faststore.ObIndex.Carve.{Wf, Wf-take, Wf-From, EndsBy, EndsBy-Under, Under-mono}

-- Where the search of the container leads, for either way that the slices can lie to `o`.
module _ (S : Slices) (s : S.Nodes) (wf : Wf 0 (S.chain s)) where
  pub search-clear :
      (o : ℕ) (xs ys : List ObSliceEntry)
      → S.chain s ≡ xs ++ ys
      → EndsBy o xs
      → Wf o ys
      → (S.find_ge_node s o ≡ ys) × (S.previous_node s o ≡ last? xs)
  search-clear o xs ys q e w =
      S.find_ge s o xs ys q (EndsBy-Under xs 0 o (Wf-take xs ys 0 (subst (Wf 0) q wf)) e)
        (Wf-From ys o o (omega arith) w)

  pub search-reached :
      (o : ℕ) (xs : List ObSliceEntry) (p : ObSliceEntry) (ys : List ObSliceEntry)
      → S.chain s ≡ xs ++ p ∷ ys
      → EndsBy p.ssize.offset xs
      → p.ssize.offset < o
      → o < end_of p
      → Wf (end_of p) ys
      → (S.find_ge_node s o ≡ ys) × (S.previous_node s o ≡ some p)
  search-reached o xs p ys q e a b w =
      let u = EndsBy-Under xs 0 p.ssize.offset (Wf-take xs (p ∷ ys) 0 (subst (Wf 0) q wf)) e in
      let r =
        S.find_ge s o (xs ++ p ∷ []) ys (q ∙ sym (append_assoc xs (p ∷ []) ys))
          (All-append _ xs (p ∷ []) (Under-mono xs p.ssize.offset o (omega arith) u) (a, tt))
          (Wf-From ys o (end_of p) (omega arith) w) in
      (r.0, r.1 ∙ last?-append xs p)
