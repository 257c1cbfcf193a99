-- ===== src/ObIndex/Get/Steps.antt =====
-- The steps of get_slices collect the window that the range shows of the slices.
use faststore.Prelude.{
  zero, suc, ◌*◌, ℕ, ◌+◌, ◌-◌, ◌≤◌, ◌<◌, ◌≡◌, refl, List, [], ◌∷◌, ◌++◌, Option, none, some, arith,
  ltb, leb, if◌then◌else◌, inl, inr, le-or-lt, append_assoc, append-nil, le→leb, lt→leb, lt→ltb,
  le→ltb, sym, subst, ap, ◌∙◌, last?, length, length-append, min,
}
use faststore.Errno.{enoent}
use faststore.Types.{ObSliceEntry, FsSliceSize, end_of}
use faststore.ObIndex.Defs.{Alloc, ◌>>=◌, malloc, dup_fields, Slices, HtFlags, ObState}
use faststore.ObIndex.Carve.{Wf, EndsBy, EndsBy-mono}
use faststore.ObIndex.Plan.{Parted, clear, reached}
use faststore.ObIndex.Memory.{
  Holds, Holds-bind, Holds-mono, Runs, Lasts, Runs-pure, Runs-more, Runs-bind, Runs-if, Runs-malloc,
}
use faststore.ObIndex.Apply.{chain_of}
use faststore.ObIndex.Search.{search-clear, search-reached}
use faststore.ObIndex.Delete.{slice_end}
use faststore.ObIndex.Get.{
  ObSlicePtrArray, add_to_slice_ptr_array, dup_slice_to_array, get_previous, get_following,
  finish_get, get_slices,
}
use faststore.ObIndex.Get.Window.{
  piece, piece-whole, piece-first, piece-last, window, window-cons, window-append, window-EndsBy,
  window-From,
}

Appends : List ObSliceEntry → ObSlicePtrArray → ObSlicePtrArray → Type 0
Appends l a b = b.slices ≡ a.slices ++ l

add_to-Appends :
    (a : ObSlicePtrArray) (s : ObSliceEntry) (m : ℕ)
    → Holds (Appends (s ∷ []) a) (add_to_slice_ptr_array a s m)
unfolding add_to_slice_ptr_array Appends
add_to-Appends a s zero = ground arith
add_to-Appends a s (suc m) = ground arith

dup-Appends :
    (s : ObSliceEntry) (o n : ℕ) (a : ObSlicePtrArray) (m : ℕ)
    → Holds (Appends (dup_fields s o n ∷ []) a) (dup_slice_to_array s o n a m)
unfolding dup_slice_to_array
dup-Appends s o n a zero = tt
dup-Appends s o n a (suc m) = add_to-Appends a (dup_fields s o n) m

Runs-add_to : (a : ObSlicePtrArray) (s : ObSliceEntry) → Runs 1 (add_to_slice_ptr_array a s)
unfolding add_to_slice_ptr_array
Runs-add_to a s =
    Runs-if 1 _ _ _ (Runs-bind 1 0 _ (λ _. Runs-pure _) malloc Runs-malloc)
      (Runs-more 0 1 _ (omega arith) (Runs-pure _))

Runs-dup : (s : ObSliceEntry) (o n : ℕ) (a : ObSlicePtrArray) → Runs 2 (dup_slice_to_array s o n a)
unfolding dup_slice_to_array
Runs-dup s o n a =
    Runs-bind 1 1 _ (λ t. Runs-add_to a t) _ (Runs-bind 1 0 _ (λ _. Runs-pure _) malloc Runs-malloc)

Runs-following :
    (e : ℕ) (l : List ObSliceEntry) (a : ObSlicePtrArray)
    → Runs (2 * length l) (get_following e l a)
unfolding get_following
Runs-following e [] a = Runs-more 0 (2 * 0) _ (omega arith) (Runs-pure a)
Runs-following e (s ∷ l) a =
    Runs-if (2 * length (s ∷ l)) (leb e s.ssize.offset) _ _
      (Runs-more 0 (2 * length (s ∷ l)) _ (omega arith) (Runs-pure a))
      (Runs-more (2 + 2 * length l) (2 * length (s ∷ l)) _ (omega arith) (
        Runs-bind 2 (2 * length l) _ (λ b. Runs-following e l b) _
          (Runs-if 2 (ltb e (end_of s)) _ _ (Runs-dup s s.ssize.offset (e - s.ssize.offset) a)
            (Runs-more 1 2 _ (omega arith) (Runs-add_to a s)))))

Runs-previous :
    (r : FsSliceSize) (p : Option ObSliceEntry) (a : ObSlicePtrArray) → Runs 2 (get_previous r p a)
unfolding get_previous
Runs-previous r none a = Runs-more 0 2 _ (omega arith) (Runs-pure a)
Runs-previous r (some p) a =
    Runs-if 2 (ltb r.offset (end_of p)) _ _
      (Runs-dup p r.offset (min (end_of p) (slice_end r) - r.offset) a)
      (Runs-more 0 2 _ (omega arith) (Runs-pure a))

get_one-Appends :
    (o e : ℕ) (s : ObSliceEntry) (c : ObSlicePtrArray) (m : ℕ)
    → o ≤ s.ssize.offset
    → 0 < s.ssize.length
    → s.ssize.offset < e
    → Holds (Appends (piece o e s) c) (
        (if ltb e (end_of s)
            then dup_slice_to_array s s.ssize.offset (e - s.ssize.offset) c
            else add_to_slice_ptr_array c s)
          m)
get_one-Appends o e s c m h p g = elim (le-or-lt (end_of s) e) [
  | inl u ↦ rw (le→ltb e (end_of s) u, piece-whole o e s h p u) (add_to-Appends c s m)
  | inr u ↦
      rw (lt→ltb e (end_of s) u, piece-first o e s h g u)
        (dup-Appends s s.ssize.offset (e - s.ssize.offset) c m)
]

-- The loop collects what the window of the range shows of the nodes.
get_following-Appends :
    (o e a : ℕ) (l : List ObSliceEntry) (c : ObSlicePtrArray) (m : ℕ)
    → o ≤ a
    → Wf a l
    → Holds (Appends (window o e l) c) (get_following e l c m)
unfolding get_following Appends
get_following-Appends o e a [] c m h w = rw (window-EndsBy o e [] tt) (sym (append-nil c.slices))
get_following-Appends o e a (s ∷ l) c m h w = elim (le-or-lt e s.ssize.offset) [
  | inl g ↦
      rw (le→leb e s.ssize.offset g)
        (rw (window-From (s ∷ l) o e e (omega arith) (g, w.1, w.2)) (sym (append-nil c.slices)))
  | inr g ↦ rw (lt→leb e s.ssize.offset g) (
      Holds-bind (Appends (piece o e s) c) (Appends (window o e (s ∷ l)) c)
        (λ d. get_following e l d)
        (if ltb e (end_of s)
          then dup_slice_to_array s s.ssize.offset (e - s.ssize.offset) c
          else add_to_slice_ptr_array c s)
        m (get_one-Appends o e s c m (omega arith) w.1 g)
        (λ d k f.
          Holds-mono _ _ (get_following e l d k)
            (λ b t.
              t
              ∙ ap (λ u. u ++ window o e l) f
              ∙ append_assoc c.slices (piece o e s) (window o e l)
              ∙ ap (◌++◌ c.slices) (sym (window-cons o e s l)))
            (get_following-Appends o e (end_of s) l d k (omega arith) w.2)))
]

get_previous-apart :
    (r : FsSliceSize) (xs : List ObSliceEntry) (c : ObSlicePtrArray) (m : ℕ)
    → EndsBy r.offset xs
    → Holds (λ d. d ≡ c) (get_previous r (last? xs) c m)
unfolding get_previous
get_previous-apart r [] c m h = refl
get_previous-apart r (x ∷ []) c m h = rw (le→ltb r.offset (end_of x) h.0)
get_previous-apart r (x ∷ y ∷ xs) c m h = get_previous-apart r (y ∷ xs) c m h.1

get_previous-Reached :
    (r : FsSliceSize) (p : ObSliceEntry) (c : ObSlicePtrArray) (m : ℕ)
    → 0 < r.length
    → p.ssize.offset < r.offset
    → r.offset < end_of p
    → Holds (Appends (piece r.offset (slice_end r) p) c) (get_previous r (some p) c m)
unfolding get_previous
get_previous-Reached r p c m pos a b =
    rw (lt→ltb r.offset (end_of p) b, piece-last r.offset (slice_end r) p (omega arith) a b)
      (dup-Appends p r.offset (min (end_of p) (slice_end r) - r.offset) c m)

module _ (S : Slices) (ht : HtFlags) (ob : ObState S) (r : FsSliceSize) (pos : 0 < r.length)
    (wf : Wf 0 (chain_of S ht ob)) where
  abbrev pub shown : List ObSliceEntry
  shown = window r.offset (slice_end r) (chain_of S ht ob)

  abbrev both_steps :
      Option ObSliceEntry → List ObSliceEntry → ObSlicePtrArray → Alloc ObSlicePtrArray
  both_steps pv ys c = do a ← get_previous r pv c; get_following (slice_end r) ys a

  steps-clear :
      (xs ys : List ObSliceEntry) (c : ObSlicePtrArray) (m : ℕ)
      → chain_of S ht ob ≡ xs ++ ys
      → EndsBy r.offset xs
      → Wf r.offset ys
      → Holds (Appends shown c) (both_steps (last? xs) ys c m)
  unfolding Appends
  steps-clear xs ys c m q e w =
      Holds-bind (λ d. d ≡ c) (Appends shown c) (λ a. get_following (slice_end r) ys a)
        (get_previous r (last? xs) c) m (get_previous-apart r xs c m e)
        (λ d k g.
          subst (λ t. Holds (Appends shown c) (get_following (slice_end r) ys t k)) (sym g)
            (Holds-mono (Appends (window r.offset (slice_end r) ys) c) (Appends shown c)
              (get_following (slice_end r) ys c k)
              (λ b t.
                t
                ∙ ap (◌++◌ c.slices) (
                    sym (
                      ap (window r.offset (slice_end r)) q
                      ∙ window-append r.offset (slice_end r) xs ys
                      ∙ ap (λ u. u ++ window r.offset (slice_end r) ys)
                          (window-EndsBy r.offset (slice_end r) xs e))))
              (get_following-Appends r.offset (slice_end r) r.offset ys c k (omega arith) w)))

  steps-reached :
      (xs : List ObSliceEntry) (p : ObSliceEntry) (ys : List ObSliceEntry) (c : ObSlicePtrArray)
      (m : ℕ)
      → chain_of S ht ob ≡ xs ++ p ∷ ys
      → EndsBy p.ssize.offset xs
      → p.ssize.offset < r.offset
      → r.offset < end_of p
      → Wf (end_of p) ys
      → Holds (Appends shown c) (both_steps (some p) ys c m)
  unfolding Appends
  steps-reached xs p ys c m q e a b w =
      Holds-bind (Appends (piece r.offset (slice_end r) p) c) (Appends shown c)
        (λ d. get_following (slice_end r) ys d) (get_previous r (some p) c) m
        (get_previous-Reached r p c m pos a b)
        (λ d k g.
          Holds-mono (Appends (window r.offset (slice_end r) ys) d) (Appends shown c)
            (get_following (slice_end r) ys d k)
            (λ b t.
              t
              ∙ ap (λ u. u ++ window r.offset (slice_end r) ys) g
              ∙ append_assoc c.slices (piece r.offset (slice_end r) p)
                  (window r.offset (slice_end r) ys)
              ∙ ap (◌++◌ c.slices) (
                  sym (
                    ap (window r.offset (slice_end r)) q
                    ∙ window-append r.offset (slice_end r) xs (p ∷ ys)
                    ∙ ap (λ u. u ++ window r.offset (slice_end r) (p ∷ ys))
                        (window-EndsBy r.offset (slice_end r) xs
                          (EndsBy-mono xs p.ssize.offset r.offset (omega arith) e))
                    ∙ window-cons r.offset (slice_end r) p ys)))
            (get_following-Appends r.offset (slice_end r) (end_of p) ys d k (omega arith) w))

  steps-Runs :
      (pv : Option ObSliceEntry) (ys : List ObSliceEntry) (c : ObSlicePtrArray)
      → Runs (2 + 2 * length ys) (both_steps pv ys c)
  steps-Runs pv ys c =
      Runs-bind 2 (2 * length ys) _ (λ a. Runs-following (slice_end r) ys a) _
        (Runs-previous r pv c)

  -- With room for two allocations for each slice of the block and two more, the array is the window.
  finish-Fills :
      (c : ObSlicePtrArray) (m n : ℕ) (o : Option (ObSlicePtrArray × ℕ))
      → c.slices ≡ []
      → Holds (Appends shown c) o
      → Lasts n m o
      → ((finish_get c m o).sarray.slices ≡ shown)
        × ((finish_get c m o).result ≡ (elim shown [ [] ↦ enoent | s ∷ l ↦ 0 ]))
  unfolding Appends
  finish-Fills c m n none e h l = absurd l
  finish-Fills c m n (some (a, k)) e h l =
      let q : a.slices ≡ shown = h ∙ ap (λ t. t ++ shown) e in
      (q, ap (λ (t : List ObSliceEntry). elim t [ [] ↦ enoent | s ∷ l ↦ 0 ]) q)

  pub Parted-Fills :
      (alloc mem : ℕ)
      → 2 + 2 * length (chain_of S ht ob) ≤ mem
      → Parted r.offset (chain_of S ht ob)
      → ((get_slices S ob r alloc mem).sarray.slices ≡ shown)
        × ((get_slices S ob r alloc mem).result ≡ (elim shown [ [] ↦ enoent | s ∷ l ↦ 0 ]))
  unfolding get_slices
  Parted-Fills alloc mem big (clear xs ys q e w) =
      let f = search-clear S ob.slices wf r.offset xs ys q e w in
      rw (f.0, f.1)
        (finish-Fills _ mem (2 + 2 * length ys) (both_steps (last? xs) ys _ mem) refl
          (steps-clear xs ys _ mem q e w)
          ((steps-Runs (last? xs) ys _).at mem (omega (arith, ap length q, length-append xs ys))))
  Parted-Fills alloc mem big (reached xs p ys q e a b w) =
      let f = search-reached S ob.slices wf r.offset xs p ys q e a b w in
      rw (f.0, f.1)
        (finish-Fills _ mem (2 + 2 * length ys) (both_steps (some p) ys _ mem) refl
          (steps-reached xs p ys _ mem q e a b w)
          ((steps-Runs (some p) ys _).at mem
            (omega (arith, ap length q, length-append xs (p ∷ ys)))))
