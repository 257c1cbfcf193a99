-- ===== src/ObIndex/Delete/Found.antt =====
-- delete_slices finds a plan for its range, and counts the bytes of the range that are covered.
use faststore.Prelude.{
  ℕ, ◌+◌, ◌≤◌, ◌<◌, ◌≡◌, ◌≢◌, refl, List, [], ◌∷◌, ◌++◌, Option, none, some, arith, inl, inr,
  le-or-lt, sym, subst, ◌∙◌, last?, length, ltb, leb, ◌-◌,
}
use faststore.Types.{ObSliceEntry, FsSliceSize, end_of}
use faststore.ObIndex.Carve.{Wf, covered, covered-From, EndsBy, EndsBy-mono}
use faststore.ObIndex.Overlap.{hits}
use faststore.ObIndex.Plan.{Plan, Plan-clear, Plan-reached, covered-clear}
use faststore.ObIndex.Memory.{
  Holds, Holds-bind, Holds-mono, Runs, Runs-pure, Runs-more, Runs-bind, Runs-if, add_to-Runs,
  dup-Runs,
}
use faststore.ObIndex.Delete.{
  Removed, slice_end, delete_previous, delete_tail, delete_following, start_removing, collect,
}
use faststore.ObIndex.Delete.Collect.{
  Followed, Reached, delete_following-Followed, delete_previous-Reached, delete_previous-apart,
}

pub record Found (r : FsSliceSize) (l : List ObSliceEntry) (c : Removed) : Type 0 where
  pub plan : Plan r.offset (slice_end r) l c.del.slices c.add.slices
  pub counts : c.dec_alloc ≡ covered r.offset (slice_end r) l
  pub nothing : c.del.slices ≡ [] → c.dec_alloc ≡ 0
  pub something : c.del.slices ≢ [] → 0 < c.dec_alloc

covered-hits :
    (o e a : ℕ) (l : List ObSliceEntry)
    → o ≤ a
    → Wf a l
    → (hits e l ≡ [] → covered o e l ≡ 0) × (hits e l ≢ [] → 0 < covered o e l)
unfolding hits covered
covered-hits o e a [] h w = (λ _. refl, λ f. absurd (f refl))
covered-hits o e a (s ∷ l) h w = elim (le-or-lt e s.ssize.offset) [
  | inl g ↦ (λ _. omega (arith, covered-From l (end_of s) o e (omega arith) w.2), λ f. ground arith)
  | inr g ↦ (λ q. ground arith, λ f. omega arith)
]

module _ (r : FsSliceSize) (pos : 0 < r.length) (l : List ObSliceEntry) (wf : Wf 0 l) where
  abbrev lt : r.offset < slice_end r
  lt = omega arith

  Found-clear :
      (xs ys : List ObSliceEntry) (d : Removed)
      → l ≡ xs ++ ys
      → EndsBy r.offset xs
      → Wf r.offset ys
      → Followed r.offset (slice_end r) ys start_removing d
      → Found r l d
  Found-clear xs ys d q e w f =
      let v = covered-hits r.offset (slice_end r) r.offset ys (omega arith) w in
      let z = covered-clear r.offset (slice_end r) lt l wf xs ys q e in
      record {
        plan = rw (f.dels, f.adds) (Plan-clear r.offset (slice_end r) lt l wf xs ys q e w);
        counts = omega (arith, f.counts, z);
        nothing = λ h. omega (arith, f.counts, v.0 (sym f.dels ∙ h));
        something = λ h. omega (arith, f.counts, v.1 (λ g. h (f.dels ∙ g)));
      }

  Found-Reached :
      (xs : List ObSliceEntry) (p : ObSliceEntry) (ys : List ObSliceEntry) (c d : Removed)
      → l ≡ xs ++ p ∷ ys
      → EndsBy p.ssize.offset xs
      → p.ssize.offset < r.offset
      → r.offset < end_of p
      → Wf (end_of p) ys
      → Reached r p c
      → Followed r.offset (slice_end r) ys c d
      → Found r l d
  unfolding covered
  Found-Reached xs p ys c d q e a b w g f =
      let z =
        covered-clear r.offset (slice_end r) lt l wf xs (p ∷ ys) q
          (EndsBy-mono xs p.ssize.offset r.offset (omega arith) e) in
      record {
        plan =
            rw (f.dels, f.adds, g.dels, g.adds)
              (Plan-reached r.offset (slice_end r) lt l wf xs p ys q e a b w);
        counts = omega (arith, f.counts, g.counts, z);
        nothing = λ h. ground (arith, f.dels, g.dels);
        something = λ h. omega (arith, f.counts, g.counts);
      }

  pub collect-clear :
      (xs ys : List ObSliceEntry) (m : ℕ)
      → l ≡ xs ++ ys
      → EndsBy r.offset xs
      → Wf r.offset ys
      → Holds (Found r l) (collect r (last? xs) ys m)
  unfolding collect
  collect-clear xs ys m q e w =
      Holds-bind (λ d. d ≡ start_removing) (Found r l) (λ c. delete_following (slice_end r) ys c)
        (delete_previous r (last? xs) start_removing) m
        (delete_previous-apart r xs start_removing m e)
        (λ c k g.
          subst (λ t. Holds (Found r l) (delete_following (slice_end r) ys t k)) (sym g)
            (Holds-mono _ _ (delete_following (slice_end r) ys start_removing k)
              (λ d f. Found-clear xs ys d q e w f)
              (delete_following-Followed r.offset (slice_end r) r.offset ys start_removing k
                (omega arith) w)))

  pub collect-reached :
      (xs : List ObSliceEntry) (p : ObSliceEntry) (ys : List ObSliceEntry) (m : ℕ)
      → l ≡ xs ++ p ∷ ys
      → EndsBy p.ssize.offset xs
      → p.ssize.offset < r.offset
      → r.offset < end_of p
      → Wf (end_of p) ys
      → Holds (Found r l) (collect r (some p) ys m)
  unfolding collect
  collect-reached xs p ys m q e a b w =
      Holds-bind (Reached r p) (Found r l) (λ c. delete_following (slice_end r) ys c)
        (delete_previous r (some p) start_removing) m (delete_previous-Reached r p m a b)
        (λ c k g.
          Holds-mono _ _ (delete_following (slice_end r) ys c k)
            (λ d f. Found-Reached xs p ys c d q e a b w g f)
            (delete_following-Followed r.offset (slice_end r) (end_of p) ys c k (omega arith) w))

Runs-following :
    (e : ℕ) (l : List ObSliceEntry) (c : Removed) → Runs (length l + 2) (delete_following e l c)
unfolding delete_following delete_tail
Runs-following e [] c = Runs-more 0 2 _ (omega arith) (Runs-pure c)
Runs-following e (s ∷ l) c =
    Runs-if (length (s ∷ l) + 2) (leb e s.ssize.offset) _ _
      (Runs-more 0 (length (s ∷ l) + 2) _ (omega arith) (Runs-pure c))
      (Runs-more (1 + (length l + 2)) (length (s ∷ l) + 2) _ (omega arith) (
        Runs-bind 1 (length l + 2) _
          (λ del.
            Runs-if (length l + 2) (ltb e (end_of s)) _ _
              (Runs-more 2 (length l + 2) _ (omega arith)
                (Runs-bind 2 0 _ (λ add. Runs-pure _) _ (dup-Runs s e (end_of s - e) c.add)))
              (Runs-following e l _))
          _ (add_to-Runs c.del s)))

Runs-previous :
    (r : FsSliceSize) (p : Option ObSliceEntry) (c : Removed) → Runs 5 (delete_previous r p c)
unfolding delete_previous
Runs-previous r none c = Runs-more 0 5 _ (omega arith) (Runs-pure c)
Runs-previous r (some p) c =
    Runs-if 5 (ltb r.offset (end_of p)) _ _
      (Runs-bind 1 4 _
        (λ del.
          Runs-bind 2 2 _
            (λ front.
              Runs-if 2 (ltb (slice_end r) (end_of p)) _ _
                (Runs-bind 2 0 _ (λ add. Runs-pure _) _
                  (dup-Runs p (slice_end r) (end_of p - slice_end r) front))
                (Runs-more 0 2 _ (omega arith) (Runs-pure _)))
            _ (dup-Runs p p.ssize.offset (r.offset - p.ssize.offset) c.add))
        _ (add_to-Runs c.del p))
      (Runs-more 0 5 _ (omega arith) (Runs-pure c))

pub Runs-collect :
    (r : FsSliceSize) (p : Option ObSliceEntry) (l : List ObSliceEntry)
    → Runs (5 + (length l + 2)) (collect r p l)
unfolding collect
Runs-collect r p l =
    Runs-bind 5 (length l + 2) _ (λ c. Runs-following (slice_end r) l c) _
      (Runs-previous r p start_removing)
