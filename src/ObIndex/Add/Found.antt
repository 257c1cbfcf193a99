-- ===== src/ObIndex/Add/Found.antt =====
-- add_slice finds a plan for the range of the new slice, and counts the bytes that are not covered yet.
use faststore.Prelude.{
  ℕ, ◌+◌, ◌-◌, ◌<◌, ◌≡◌, refl, List, [], ◌∷◌, ◌++◌, some, arith, append-nil, sym, ap, subst, ◌∙◌,
  last?, ltb, if◌then◌else◌, le→ltb, lt→ltb, inl, inr, le-or-lt,
}
use faststore.Types.{ObSliceEntry, end_of}
use faststore.ObIndex.Defs.{
  pure, add_to_slice_ptr_smart_array, dup_slice_to_smart_array, init_slice_ptr_array,
  ObSlicePtrSmartArray,
}
use faststore.ObIndex.Carve.{Wf, EndsBy, EndsBy-mono, covered}
use faststore.ObIndex.Plan.{Plan, Plan-clear, Plan-reached, kept_before, kept_after, covered-clear}
use faststore.ObIndex.Memory.{Holds, Holds-bind, Holds-mono, Adds, add_to-Adds, dup-Adds}
use faststore.ObIndex.Add.{
  Collected, add_following, add_previous, count_rest, start_collecting, collect,
}
use faststore.ObIndex.Add.Collect.{Followed, add_following-Followed}

-- The step for a slice `p` that reaches into the new one.
record Reached (n p : ObSliceEntry) (d : Collected) : Type 0 where
  dels : d.del.slices ≡ p ∷ []
  adds : d.add.slices ≡ kept_before n.ssize.offset p ∷ kept_after (end_of n) p
  from : d.new_space_start ≡ end_of p
  counts : d.inc_alloc ≡ 0

Appends : ObSlicePtrSmartArray → List ObSliceEntry → ObSlicePtrSmartArray → Type 0
Appends front l add = add.slices ≡ front.slices ++ l

tail-adds :
    (e : ℕ) (p : ObSliceEntry) (front : ObSlicePtrSmartArray) (m : ℕ)
    → Holds (Appends front (kept_after e p)) (
        (if ltb e (end_of p) then dup_slice_to_smart_array p e (end_of p - e) front else pure front)
          m)
unfolding Appends
tail-adds e p front m = elim (le-or-lt (end_of p) e) [
  | inl h ↦ rw (le→ltb e (end_of p) h) (sym (append-nil front.slices))
  | inr h ↦ rw (lt→ltb e (end_of p) h) (dup-Adds p e (end_of p - e) front m)
]

add_previous-Reached :
    (n p : ObSliceEntry) (m : ℕ)
    → n.ssize.offset < end_of p
    → Holds (Reached n p) (add_previous n (some p) (start_collecting n) m)
unfolding add_previous Appends
add_previous-Reached n p m h = rw (lt→ltb n.ssize.offset (end_of p) h) (
    Holds-bind (Adds init_slice_ptr_array p) (Reached n p) _
      (add_to_slice_ptr_smart_array init_slice_ptr_array p) m (add_to-Adds init_slice_ptr_array p m)
      (λ del k e.
        Holds-bind (Adds init_slice_ptr_array (kept_before n.ssize.offset p)) (Reached n p) _
          (dup_slice_to_smart_array p p.ssize.offset (n.ssize.offset - p.ssize.offset)
            init_slice_ptr_array)
          k (dup-Adds p p.ssize.offset (n.ssize.offset - p.ssize.offset) init_slice_ptr_array k)
          (λ front j g.
            Holds-bind (Appends front (kept_after (end_of n) p)) (Reached n p) _
              (if ltb (end_of n) (end_of p)
                then dup_slice_to_smart_array p (end_of n) (end_of p - end_of n) front
                else pure front)
              j (tail-adds (end_of n) p front j)
              (λ add i t. record {
                dels = e;
                adds = t ∙ ap (λ u. u ++ kept_after (end_of n) p) g;
                from = refl;
                counts = refl;
              }))))

add_previous-apart :
    (n : ObSliceEntry) (xs : List ObSliceEntry) (c : Collected) (m : ℕ)
    → EndsBy n.ssize.offset xs
    → Holds (λ d. d ≡ c) (add_previous n (last? xs) c m)
unfolding add_previous
add_previous-apart n [] c m h = refl
add_previous-apart n (x ∷ []) c m h = rw (le→ltb n.ssize.offset (end_of x) h.0)
add_previous-apart n (x ∷ y ∷ xs) c m h = add_previous-apart n (y ∷ xs) c m h.1

pub record Found (n : ObSliceEntry) (l : List ObSliceEntry) (c : Collected) : Type 0 where
  pub plan : Plan n.ssize.offset (end_of n) l c.del.slices c.add.slices
  pub counts : count_rest (end_of n) c + covered n.ssize.offset (end_of n) l ≡ n.ssize.length

module _ (n : ObSliceEntry) (pos : 0 < n.ssize.length) (l : List ObSliceEntry) (wf : Wf 0 l) where
  abbrev lt : n.ssize.offset < end_of n
  lt = omega arith

  Found-clear :
      (xs ys : List ObSliceEntry) (d : Collected)
      → l ≡ xs ++ ys
      → EndsBy n.ssize.offset xs
      → Wf n.ssize.offset ys
      → Followed n.ssize.offset (end_of n) ys (start_collecting n) d
      → Found n l d
  Found-clear xs ys d q e w f = record {
    plan = rw (f.dels, f.adds) (Plan-clear n.ssize.offset (end_of n) lt l wf xs ys q e w);
    counts = ground (arith, f.counts, covered-clear n.ssize.offset (end_of n) lt l wf xs ys q e);
  }

  Found-Reached :
      (xs : List ObSliceEntry) (p : ObSliceEntry) (ys : List ObSliceEntry) (c d : Collected)
      → l ≡ xs ++ p ∷ ys
      → EndsBy p.ssize.offset xs
      → p.ssize.offset < n.ssize.offset
      → n.ssize.offset < end_of p
      → Wf (end_of p) ys
      → Reached n p c
      → Followed n.ssize.offset (end_of n) ys c d
      → Found n l d
  unfolding covered
  Found-Reached xs p ys c d q e a b w r f = record {
    plan =
        rw (f.dels, f.adds, r.dels, r.adds)
          (Plan-reached n.ssize.offset (end_of n) lt l wf xs p ys q e a b w);
    counts = ground (
      arith,
      f.counts,
      r.counts,
      r.from,
      covered-clear n.ssize.offset (end_of n) lt l wf xs (p ∷ ys) q
          (EndsBy-mono xs p.ssize.offset n.ssize.offset (omega arith) e),
    );
  }

  -- Both collecting steps, from the node that the search finds.
  pub collect-clear :
      (xs ys : List ObSliceEntry) (m : ℕ)
      → l ≡ xs ++ ys
      → EndsBy n.ssize.offset xs
      → Wf n.ssize.offset ys
      → Holds (Found n l) (collect n (last? xs) ys m)
  unfolding collect
  collect-clear xs ys m q e w =
      Holds-bind (λ d. d ≡ start_collecting n) (Found n l) (λ c. add_following (end_of n) ys c)
        (add_previous n (last? xs) (start_collecting n)) m
        (add_previous-apart n xs (start_collecting n) m e)
        (λ c k r.
          subst (λ t. Holds (Found n l) (add_following (end_of n) ys t k)) (sym r)
            (Holds-mono _ _ (add_following (end_of n) ys (start_collecting n) k)
              (λ d f. Found-clear xs ys d q e w f)
              (add_following-Followed n.ssize.offset (end_of n) ys (start_collecting n) k
                (omega arith) w)))

  pub collect-reached :
      (xs : List ObSliceEntry) (p : ObSliceEntry) (ys : List ObSliceEntry) (m : ℕ)
      → l ≡ xs ++ p ∷ ys
      → EndsBy p.ssize.offset xs
      → p.ssize.offset < n.ssize.offset
      → n.ssize.offset < end_of p
      → Wf (end_of p) ys
      → Holds (Found n l) (collect n (some p) ys m)
  unfolding collect
  collect-reached xs p ys m q e a b w =
      Holds-bind (Reached n p) (Found n l) (λ c. add_following (end_of n) ys c)
        (add_previous n (some p) (start_collecting n)) m (add_previous-Reached n p m b)
        (λ c k r.
          Holds-mono _ _ (add_following (end_of n) ys c k)
            (λ d f. Found-Reached xs p ys c d q e a b w r f)
            (add_following-Followed n.ssize.offset (end_of n) ys c k (omega (arith, r.from))
              (subst (λ t. Wf t ys) (sym r.from) w)))
