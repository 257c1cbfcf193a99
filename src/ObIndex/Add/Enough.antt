-- ===== src/ObIndex/Add/Enough.antt =====
-- With enough memory add_slice succeeds in collecting, so that it does its work.
use faststore.Prelude.{ℕ, ◌+◌, ◌-◌, List, [], ◌∷◌, Option, none, some, arith, length, ltb, leb}
use faststore.Types.{ObSliceEntry, end_of}
use faststore.ObIndex.Memory.{Runs, Runs-pure, Runs-more, Runs-bind, Runs-if, add_to-Runs, dup-Runs}
use faststore.ObIndex.Add.{
  Collected, add_round, add_tail, add_following, add_previous, collect, start_collecting,
}

Runs-round : (s : ObSliceEntry) (c : Collected) → Runs 1 (add_round s c)
unfolding add_round
Runs-round s c = Runs-bind 1 0 _ (λ d. Runs-pure _) _ (add_to-Runs c.del s)

Runs-tail : (e : ℕ) (s : ObSliceEntry) (c : Collected) → Runs 2 (add_tail e s c)
unfolding add_tail
Runs-tail e s c = Runs-bind 2 0 _ (λ d. Runs-pure _) _ (dup-Runs s e (end_of s - e) c.add)

Runs-following :
    (e : ℕ) (l : List ObSliceEntry) (c : Collected) → Runs (length l + 2) (add_following e l c)
unfolding add_following
Runs-following e [] c = Runs-more 0 2 _ (omega arith) (Runs-pure c)
Runs-following e (s ∷ l) c =
    Runs-if (length (s ∷ l) + 2) (leb e s.ssize.offset) _ _
      (Runs-more 0 (length (s ∷ l) + 2) _ (omega arith) (Runs-pure c))
      (Runs-more (1 + (length l + 2)) (length (s ∷ l) + 2) _ (omega arith) (
        Runs-bind 1 (length l + 2) _
          (λ c'.
            Runs-if (length l + 2) (ltb e (end_of s)) _ _
              (Runs-more 2 (length l + 2) _ (omega arith) (Runs-tail e s c'))
              (Runs-following e l c'))
          _ (Runs-round s c)))

Runs-previous :
    (n : ObSliceEntry) (p : Option ObSliceEntry) (c : Collected) → Runs 5 (add_previous n p c)
unfolding add_previous
Runs-previous n none c = Runs-more 0 5 _ (omega arith) (Runs-pure c)
Runs-previous n (some p) c =
    Runs-if 5 (ltb n.ssize.offset (end_of p)) _ _
      (Runs-bind 1 4 _
        (λ del.
          Runs-bind 2 2 _
            (λ front.
              Runs-bind 2 0 _ (λ add. Runs-pure _) _
                (Runs-if 2 (ltb (end_of n) (end_of p)) _ _
                  (dup-Runs p (end_of n) (end_of p - end_of n) front)
                  (Runs-more 0 2 _ (omega arith) (Runs-pure front))))
            _ (dup-Runs p p.ssize.offset (n.ssize.offset - p.ssize.offset) c.add))
        _ (add_to-Runs c.del p))
      (Runs-more 0 5 _ (omega arith) (Runs-pure c))

pub Runs-collect :
    (n : ObSliceEntry) (p : Option ObSliceEntry) (l : List ObSliceEntry)
    → Runs (5 + (length l + 2)) (collect n p l)
unfolding collect
Runs-collect n p l =
    Runs-bind 5 (length l + 2) _ (λ c. Runs-following (end_of n) l c) _
      (Runs-previous n p (start_collecting n))
