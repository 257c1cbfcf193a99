-- ===== src/ObIndex/Apply.antt =====
-- The second half of add_slice and delete_slices: the collected slices are taken out of the
-- container and the pieces put back, so that it holds what `Carve` says.
use faststore.Prelude.{
  ℕ, ◌≤◌, ◌<◌, ◌≡◌, refl, List, [], ◌∷◌, ◌++◌, arith, append_assoc, sym, ◌∙◌, All-append,
}
use faststore.Types.{ObSliceEntry, end_of}
use faststore.ObIndex.Defs.{
  Slices, HtFlags, ObState, do_delete_slice, do_add_slice, delete_all, add_all,
}
use faststore.ObIndex.Carve.{
  Wf, Wf-drop, Wf-append, Under, Beyond, EndsBy-Under, Under-mono, Wf-Beyond, Wf-mono, lefts,
  rights, carve, overwrite, lefts-Wf, lefts-ends, rights-Wf,
}
use faststore.ObIndex.Plan.{Plan}

module _ (S : Slices) (ht : HtFlags) where
  abbrev pub chain_of : ObState S → List ObSliceEntry
  chain_of ob = S.chain ob.slices

  chain-do_delete :
      (ob : ObState S) (s : ObSliceEntry) (xs ys : List ObSliceEntry)
      → chain_of ob ≡ xs ++ s ∷ ys
      → Under s.ssize.offset xs
      → chain_of (do_delete_slice S ht ob s).1 ≡ xs ++ ys
  unfolding do_delete_slice
  chain-do_delete ob s xs ys e u = (S.delete_found ob.slices s s xs ys e u refl).1

  pub chain-do_add :
      (ob : ObState S) (s : ObSliceEntry) (xs ys : List ObSliceEntry)
      → chain_of ob ≡ xs ++ ys
      → Under s.ssize.offset xs
      → Beyond s.ssize.offset ys
      → chain_of (do_add_slice S ht ob s).1 ≡ xs ++ s ∷ ys
  unfolding do_add_slice
  chain-do_add ob s xs ys e u v = ground (arith, S.insert_fresh ob.slices s xs ys e u v)

  chain-delete_all :
      (del : List ObSliceEntry) (ob : ObState S) (xs ys : List ObSliceEntry) (a : ℕ)
      → chain_of ob ≡ xs ++ (del ++ ys)
      → Under a xs
      → Wf a del
      → chain_of (delete_all S ht ob del) ≡ xs ++ ys
  unfolding delete_all
  chain-delete_all [] ob xs ys a e u w = e
  chain-delete_all (s ∷ del) ob xs ys a e u w =
      let u' : Under s.ssize.offset xs = Under-mono xs a s.ssize.offset w.0 u in
      chain-delete_all del (do_delete_slice S ht ob s).1 xs ys s.ssize.offset
        (chain-do_delete ob s xs (del ++ ys) e u') u'
        (Wf-mono del s.ssize.offset (end_of s) (omega arith) w.2)

  chain-add_all :
      (add : List ObSliceEntry) (ob : ObState S) (xs ys : List ObSliceEntry) (a : ℕ)
      → chain_of ob ≡ xs ++ ys
      → Under a xs
      → Wf a (add ++ ys)
      → chain_of (add_all S ht ob add) ≡ xs ++ (add ++ ys)
  unfolding add_all
  chain-add_all [] ob xs ys a e u w = e
  chain-add_all (s ∷ add) ob xs ys a e u w =
      chain-add_all add (do_add_slice S ht ob s).1 (xs ++ s ∷ []) ys (end_of s)
        (chain-do_add ob s xs ys e (Under-mono xs a s.ssize.offset w.0 u)
            (Wf-Beyond ys s.ssize.offset (end_of s) (omega arith) (Wf-drop add ys (end_of s) w.2))
          ∙ sym (append_assoc xs (s ∷ []) ys))
        (All-append _ xs (s ∷ []) (Under-mono xs a (end_of s) (omega arith) u) (omega arith)) w.2
      ∙ append_assoc xs (s ∷ []) (add ++ ys)

  add_all-append :
      (xs ys : List ObSliceEntry) (ob : ObState S)
      → add_all S ht ob (xs ++ ys) ≡ add_all S ht (add_all S ht ob xs) ys
  unfolding add_all
  add_all-append [] ys ob = refl
  add_all-append (s ∷ xs) ys ob = add_all-append xs ys (do_add_slice S ht ob s).1

  module _ (o e : ℕ) (le : o ≤ e) (ob : ObState S) {del add : List ObSliceEntry} where
    -- Where a plan is carried out, the container holds the pieces on the two sides of the range.
    pub chain-carve :
        Plan o e (chain_of ob) del add
        → chain_of (add_all S ht (delete_all S ht ob del) add) ≡ carve o e (chain_of ob)
    unfolding carve
    chain-carve p =
        rw
          (p.added, add_all-append p.front p.back (delete_all S ht ob del), p.lefts_eq, p.rights_eq)
          (chain-add_all p.back _ (p.before ++ p.front) p.after e
            (put_front ∙ sym (append_assoc p.before p.front p.after)) low p.backs)
      where
        put_front :
            chain_of (add_all S ht (delete_all S ht ob del) p.front)
            ≡ p.before ++ (p.front ++ p.after)
        put_front =
            chain-add_all p.front _ p.before p.after p.start
              (chain-delete_all del ob p.before p.after p.start p.whole p.under p.dels) p.under
              (Wf-append p.front p.after p.start o p.start_le p.fronts p.front_ends
                (Wf-mono p.after o e le (Wf-drop p.back p.after e p.backs)))

        low : Under e (p.before ++ p.front)
        low =
            All-append _ p.before p.front
              (Under-mono p.before p.start e (omega (arith, p.start_le)) p.under)
              (Under-mono p.front o e le (EndsBy-Under p.front p.start o p.fronts p.front_ends))

  -- The new slice then goes between the two sides.
  pub chain-overwrite :
      (ob : ObState S) (n : ObSliceEntry) (l : List ObSliceEntry)
      → 0 < n.ssize.length
      → Wf 0 l
      → chain_of ob ≡ carve n.ssize.offset (end_of n) l
      → chain_of (do_add_slice S ht ob n).1 ≡ overwrite n l
  unfolding carve overwrite
  chain-overwrite ob n l pos w e =
      chain-do_add ob n (lefts n.ssize.offset l) (rights (end_of n) l) e
        (EndsBy-Under (lefts n.ssize.offset l) 0 n.ssize.offset (lefts-Wf l 0 n.ssize.offset w)
          (lefts-ends l n.ssize.offset))
        (Wf-Beyond (rights (end_of n) l) n.ssize.offset (end_of n) (omega arith)
          (rights-Wf l 0 (end_of n) w))
