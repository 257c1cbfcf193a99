-- ===== src/ObIndex/Add/Collect.antt =====
-- What the collecting steps of add_slice collect and count.
use faststore.Prelude.{
  ℕ, ◌+◌, ◌-◌, ◌≤◌, ◌<◌, ◌≡◌, refl, List, [], ◌∷◌, ◌++◌, arith, ltb, if◌then◌else◌, inl, inr,
  le-or-lt, append_assoc, append-nil, le→leb, lt→leb, lt→ltb, le→ltb, sym, subst,
}
use faststore.Types.{ObSliceEntry, end_of}
use faststore.ObIndex.Defs.{cut, add_to_slice_ptr_smart_array, dup_slice_to_smart_array}
use faststore.ObIndex.Carve.{Wf, covered, covered-From}
use faststore.ObIndex.Overlap.{hits, tails, hits-From, tails-From}
use faststore.ObIndex.Memory.{Holds, Holds-bind, Holds-mono, Adds, add_to-Adds, dup-Adds}
use faststore.ObIndex.Add.{Collected, add_round, add_tail, add_following, count_rest}

-- One round of the loop.
record Round (s : ObSliceEntry) (c d : Collected) : Type 0 where
  dels : d.del.slices ≡ c.del.slices ++ s ∷ []
  adds : d.add ≡ c.add
  from : d.new_space_start ≡ end_of s
  counts : d.inc_alloc ≡ (
      if ltb c.new_space_start s.ssize.offset
      then c.inc_alloc + (s.ssize.offset - c.new_space_start)
      else c.inc_alloc)

add_round-Round : (s : ObSliceEntry) (c : Collected) (m : ℕ) → Holds (Round s c) (add_round s c m)
unfolding add_round
add_round-Round s c m =
    Holds-bind (Adds c.del s) (Round s c) _ (add_to_slice_ptr_smart_array c.del s) m
      (add_to-Adds c.del s m)
      (λ d k e. record { dels = e; adds = refl; from = refl; counts = refl })

-- The loop, on slices in order that begin at `new_space_start` or later: it takes out the overlapped
-- ones, keeps the cut-off rest, and counts the bytes of the range that they leave uncovered.
pub record Followed (o e : ℕ) (l : List ObSliceEntry) (c d : Collected) : Type 0 where
  pub dels : d.del.slices ≡ c.del.slices ++ hits e l
  pub adds : d.add.slices ≡ c.add.slices ++ tails e l
  pub counts : count_rest e d + covered o e l ≡ count_rest e c

Followed-stop :
    (o e : ℕ) (l : List ObSliceEntry) (c : Collected)
    → hits e l ≡ []
    → tails e l ≡ []
    → covered o e l ≡ 0
    → Followed o e l c c
Followed-stop o e l c h t v = ground (arith, append-nil c.del.slices, append-nil c.add.slices)

Followed-tail :
    (o e : ℕ) (s : ObSliceEntry) (l : List ObSliceEntry) (c c' d : Collected)
    → o ≤ c.new_space_start
    → Wf c.new_space_start (s ∷ l)
    → s.ssize.offset < e
    → e < end_of s
    → Round s c c'
    → d.add.slices ≡ c'.add.slices ++ cut s e (end_of s - e) ∷ []
    → d.del ≡ c'.del
    → d.new_space_start ≡ c'.new_space_start
    → d.inc_alloc ≡ c'.inc_alloc
    → Followed o e (s ∷ l) c d
unfolding hits tails covered
Followed-tail o e s l c c' d ho w hs he r ha hd hn hi =
    ground (arith, covered-From l (end_of s) o e (omega arith) w.2)

Followed-more :
    (o e : ℕ) (s : ObSliceEntry) (l : List ObSliceEntry) (c c' d : Collected)
    → o ≤ c.new_space_start
    → Wf c.new_space_start (s ∷ l)
    → s.ssize.offset < e
    → end_of s ≤ e
    → Round s c c'
    → Followed o e l c' d
    → Followed o e (s ∷ l) c d
unfolding hits tails covered
Followed-more o e s l c c' d ho w hs he r f =
    ground (arith, append_assoc c.del.slices (s ∷ []) (hits e l))

add_tail-lem :
    (e : ℕ) (s : ObSliceEntry) (c : Collected) (m : ℕ)
    → Holds
        (λ d.
          (d.add.slices ≡ c.add.slices ++ cut s e (end_of s - e) ∷ [])
          × (d.del ≡ c.del)
          × (d.new_space_start ≡ c.new_space_start)
          × (d.inc_alloc ≡ c.inc_alloc))
        (add_tail e s c m)
unfolding add_tail
add_tail-lem e s c m =
    Holds-bind (Adds c.add (cut s e (end_of s - e))) _ _
      (dup_slice_to_smart_array s e (end_of s - e) c.add) m (dup-Adds s e (end_of s - e) c.add m)
      (λ d k h. (h, refl, refl, refl))

pub add_following-Followed :
    (o e : ℕ) (l : List ObSliceEntry) (c : Collected) (m : ℕ)
    → o ≤ c.new_space_start
    → Wf c.new_space_start l
    → Holds (Followed o e l c) (add_following e l c m)
unfolding add_following
add_following-Followed o e [] c m ho w =
    Followed-stop o e [] c (hits-From e e [] (omega arith) tt) (tails-From e e [] (omega arith) tt)
      (covered-From [] e o e (omega arith) tt)
add_following-Followed o e (s ∷ l) c m ho w = elim (le-or-lt e s.ssize.offset) [
  | inl h ↦
      let v : Wf e (s ∷ l) = (h, w.1, w.2) in
      rw (le→leb e s.ssize.offset h) (
        Followed-stop o e (s ∷ l) c (hits-From e e (s ∷ l) (omega arith) v)
          (tails-From e e (s ∷ l) (omega arith) v) (covered-From (s ∷ l) e o e (omega arith) v))
  | inr h ↦ rw (lt→leb e s.ssize.offset h) (
      Holds-bind (Round s c) (Followed o e (s ∷ l) c) _ (add_round s c) m (add_round-Round s c m)
        (λ c' k r. elim (le-or-lt (end_of s) e) [
          | inl g ↦ rw (le→ltb e (end_of s) g) (
              Holds-mono _ _ (add_following e l c' k)
                (λ d f. Followed-more o e s l c c' d ho w h g r f)
                (add_following-Followed o e l c' k (omega (arith, r.from))
                  (subst (λ b. Wf b l) (sym r.from) w.2)))
          | inr g ↦ rw (lt→ltb e (end_of s) g) (
              Holds-mono _ _ (add_tail e s c' k)
                (λ d f. Followed-tail o e s l c c' d ho w h g r f.0 f.1 f.2 f.3)
                (add_tail-lem e s c' k))
        ]))
]
