-- ===== src/ObIndex/Delete/Collect.antt =====
-- What the collecting steps of delete_slices collect and count.
use faststore.Prelude.{
  ℕ, ◌+◌, ◌-◌, ◌≤◌, ◌<◌, ◌≡◌, refl, List, [], ◌∷◌, ◌++◌, some, arith, inl, inr, le-or-lt,
  append_assoc, append-nil, le→leb, lt→leb, lt→ltb, le→ltb, last?,
}
use faststore.Types.{ObSliceEntry, FsSliceSize, end_of}
use faststore.ObIndex.Defs.{
  cut, add_to_slice_ptr_smart_array, dup_slice_to_smart_array, init_slice_ptr_array,
  ObSlicePtrSmartArray,
}
use faststore.ObIndex.Carve.{Wf, covered, covered-From, EndsBy}
use faststore.ObIndex.Overlap.{hits, tails, hits-From, tails-From}
use faststore.ObIndex.Plan.{kept_before, kept_after}
use faststore.ObIndex.Memory.{Holds, Holds-bind, Holds-mono, Adds, add_to-Adds, dup-Adds}
use faststore.ObIndex.Delete.{
  Removed, slice_end, delete_previous, delete_tail, delete_following, start_removing,
}

pub record Followed (o e : ℕ) (l : List ObSliceEntry) (c d : Removed) : Type 0 where
  pub dels : d.del.slices ≡ c.del.slices ++ hits e l
  pub adds : d.add.slices ≡ c.add.slices ++ tails e l
  pub counts : d.dec_alloc ≡ c.dec_alloc + covered o e l

Followed-stop :
    (o e : ℕ) (l : List ObSliceEntry) (c : Removed)
    → hits e l ≡ []
    → tails e l ≡ []
    → covered o e l ≡ 0
    → Followed o e l c c
Followed-stop o e l c h t v = ground (arith, append-nil c.del.slices, append-nil c.add.slices)

Followed-tail :
    (o e a : ℕ) (s : ObSliceEntry) (l : List ObSliceEntry) (c d : Removed)
    → o ≤ a
    → Wf a (s ∷ l)
    → s.ssize.offset < e
    → e < end_of s
    → d.del.slices ≡ c.del.slices ++ s ∷ []
    → d.add.slices ≡ c.add.slices ++ cut s e (end_of s - e) ∷ []
    → d.dec_alloc ≡ c.dec_alloc + (e - s.ssize.offset)
    → Followed o e (s ∷ l) c d
unfolding hits tails covered
Followed-tail o e a s l c d ho w hs he hd ha hi =
    ground (arith, covered-From l (end_of s) o e (omega arith) w.2)

Followed-more :
    (o e a : ℕ) (s : ObSliceEntry) (l : List ObSliceEntry) (c c' d : Removed)
    → o ≤ a
    → Wf a (s ∷ l)
    → s.ssize.offset < e
    → end_of s ≤ e
    → c'.del.slices ≡ c.del.slices ++ s ∷ []
    → c'.add ≡ c.add
    → c'.dec_alloc ≡ c.dec_alloc + s.ssize.length
    → Followed o e l c' d
    → Followed o e (s ∷ l) c d
unfolding hits tails covered
Followed-more o e a s l c c' d ho w hs he hd ha hi f =
    ground (arith, append_assoc c.del.slices (s ∷ []) (hits e l))

delete_tail-Followed :
    (o e a : ℕ) (s : ObSliceEntry) (l : List ObSliceEntry) (c : Removed)
    (del : ObSlicePtrSmartArray) (m : ℕ)
    → o ≤ a
    → Wf a (s ∷ l)
    → s.ssize.offset < e
    → e < end_of s
    → del.slices ≡ c.del.slices ++ s ∷ []
    → Holds (Followed o e (s ∷ l) c) (delete_tail e s del c m)
unfolding delete_tail
delete_tail-Followed o e a s l c del m ho w hs he hd =
    Holds-bind (Adds c.add (cut s e (end_of s - e))) (Followed o e (s ∷ l) c) _
      (dup_slice_to_smart_array s e (end_of s - e) c.add) m (dup-Adds s e (end_of s - e) c.add m)
      (λ add k h. Followed-tail o e a s l c _ ho w hs he hd h refl)

pub delete_following-Followed :
    (o e a : ℕ) (l : List ObSliceEntry) (c : Removed) (m : ℕ)
    → o ≤ a
    → Wf a l
    → Holds (Followed o e l c) (delete_following e l c m)
unfolding delete_following
delete_following-Followed o e a [] c m ho w =
    Followed-stop o e [] c (hits-From e e [] (omega arith) tt) (tails-From e e [] (omega arith) tt)
      (covered-From [] e o e (omega arith) tt)
delete_following-Followed o e a (s ∷ l) c m ho w = elim (le-or-lt e s.ssize.offset) [
  | inl h ↦
      let v : Wf e (s ∷ l) = (h, w.1, w.2) in
      rw (le→leb e s.ssize.offset h) (
        Followed-stop o e (s ∷ l) c (hits-From e e (s ∷ l) (omega arith) v)
          (tails-From e e (s ∷ l) (omega arith) v) (covered-From (s ∷ l) e o e (omega arith) v))
  | inr h ↦ rw (lt→leb e s.ssize.offset h) (
      Holds-bind (Adds c.del s) (Followed o e (s ∷ l) c) _ (add_to_slice_ptr_smart_array c.del s) m
        (add_to-Adds c.del s m)
        (λ del k r. elim (le-or-lt (end_of s) e) [
          | inl g ↦ rw (le→ltb e (end_of s) g) (
              Holds-mono _ _ (delete_following e l _ k)
                (λ d f. Followed-more o e a s l c _ d ho w h g r refl refl f)
                (delete_following-Followed o e (end_of s) l _ k (omega arith) w.2))
          | inr g ↦ rw (lt→ltb e (end_of s) g) (delete_tail-Followed o e a s l c del k ho w h g r)
        ]))
]

-- The step for a slice `p` that reaches into the range.
pub record Reached (r : FsSliceSize) (p : ObSliceEntry) (d : Removed) : Type 0 where
  pub dels : d.del.slices ≡ p ∷ []
  pub adds : d.add.slices ≡ kept_before r.offset p ∷ kept_after (slice_end r) p
  pub counts : d.dec_alloc ≡ covered r.offset (slice_end r) (p ∷ [])

pub delete_previous-Reached :
    (r : FsSliceSize) (p : ObSliceEntry) (m : ℕ)
    → p.ssize.offset < r.offset
    → r.offset < end_of p
    → Holds (Reached r p) (delete_previous r (some p) start_removing m)
unfolding delete_previous covered
delete_previous-Reached r p m a h = rw (lt→ltb r.offset (end_of p) h) (
    Holds-bind (Adds init_slice_ptr_array p) (Reached r p) _
      (add_to_slice_ptr_smart_array init_slice_ptr_array p) m (add_to-Adds init_slice_ptr_array p m)
      (λ del k e.
        Holds-bind (Adds init_slice_ptr_array (kept_before r.offset p)) (Reached r p) _
          (dup_slice_to_smart_array p p.ssize.offset (r.offset - p.ssize.offset)
            init_slice_ptr_array)
          k (dup-Adds p p.ssize.offset (r.offset - p.ssize.offset) init_slice_ptr_array k)
          (λ front j g. elim (le-or-lt (end_of p) (slice_end r)) [
            | inl u ↦ rw (le→ltb (slice_end r) (end_of p) u) (ground arith)
            | inr u ↦ rw (lt→ltb (slice_end r) (end_of p) u) (
                Holds-bind (Adds front (cut p (slice_end r) (end_of p - slice_end r))) (Reached r p)
                  _ (dup_slice_to_smart_array p (slice_end r) (end_of p - slice_end r) front) j
                  (dup-Adds p (slice_end r) (end_of p - slice_end r) front j)
                  (λ add i t. ground arith))
          ])))

pub delete_previous-apart :
    (r : FsSliceSize) (xs : List ObSliceEntry) (c : Removed) (m : ℕ)
    → EndsBy r.offset xs
    → Holds (λ d. d ≡ c) (delete_previous r (last? xs) c m)
unfolding delete_previous
delete_previous-apart r [] c m h = refl
delete_previous-apart r (x ∷ []) c m h = rw (le→ltb r.offset (end_of x) h.0)
delete_previous-apart r (x ∷ y ∷ xs) c m h = delete_previous-apart r (y ∷ xs) c m h.1
