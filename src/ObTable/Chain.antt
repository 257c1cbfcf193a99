-- ===== src/ObTable/Chain.antt =====
-- The chains of the hash table as maps.
use Prim.Native.Nat.{Ordering}
use faststore.Prelude.{
  All, ◌≡◌, ◌≢◌, refl, sym, ap, ◌∙◌, subst, List, [], ◌∷◌, none, some, arith, ◌⊎◌, inl, inr,
}
use faststore.Types.{FsBlockKey}
use faststore.ObTable.{compare_block_key, ObEntry, find_entry, change_entry, unlink_entry}

pub compare_block_key_self : (a : FsBlockKey) → compare_block_key a a ≡ Ordering.eq
compare_block_key_self a = ground arith

pub compare_block_key_trans :
    (a b c : FsBlockKey)
    → compare_block_key a b ≡ Ordering.lt
    → compare_block_key b c ≡ Ordering.lt
    → compare_block_key a c ≡ Ordering.lt
compare_block_key_trans a b c p q = ground arith

pub compare_block_key_left :
    (a b c : FsBlockKey)
    → compare_block_key a b ≡ Ordering.eq
    → compare_block_key a c ≡ compare_block_key b c
compare_block_key_left a b c p = ground arith

pub compare_block_key_right :
    (a b c : FsBlockKey)
    → compare_block_key b c ≡ Ordering.eq
    → compare_block_key a b ≡ compare_block_key a c
compare_block_key_right a b c p = ground arith

pub Ordering-cases : (o : Ordering) → (o ≡ Ordering.lt) ⊎ ((o ≡ Ordering.eq) ⊎ (o ≡ Ordering.gt))
Ordering-cases Ordering.lt = inl refl
Ordering-cases Ordering.eq = inr (inl refl)
Ordering-cases Ordering.gt = inr (inr refl)

-- A chain in the order of its keys.
abbrev pub Above : {N : Type 0} → FsBlockKey → List (ObEntry N) → Type 0
Above k l = All (λ y. compare_block_key k y.bkey ≡ Ordering.lt) l

abbrev pub Ordered : {N : Type 0} → List (ObEntry N) → Type 0
Ordered [] = Unit
Ordered (x ∷ l) = Above x.bkey l × Ordered l

module _ {N : Type 0} where
  pub find-Above : (k : FsBlockKey) (l : List (ObEntry N)) → Above k l → find_entry k l ≡ none
  unfolding find_entry
  find-Above k [] h = refl
  find-Above k (x ∷ l) h = rw (find_entry, h.0) refl

  Above-trans :
      (j k : FsBlockKey) (l : List (ObEntry N))
      → compare_block_key j k ≡ Ordering.lt
      → Above k l
      → Above j l
  Above-trans j k [] p h = tt
  Above-trans j k (x ∷ l) p h = (compare_block_key_trans j k x.bkey p h.0, Above-trans j k l p h.1)

  -- One step of the walk.
  module _ (k : FsBlockKey) (x : ObEntry N) (l : List (ObEntry N)) where
    pub find-here : compare_block_key k x.bkey ≡ Ordering.eq → find_entry k (x ∷ l) ≡ some x
    unfolding find_entry
    find-here q = rw (find_entry, q) refl

    pub find-after :
        compare_block_key k x.bkey ≡ Ordering.gt → find_entry k (x ∷ l) ≡ find_entry k l
    unfolding find_entry
    find-after q = rw (find_entry, q) refl

    pub find-before : compare_block_key k x.bkey ≡ Ordering.lt → find_entry k (x ∷ l) ≡ none
    unfolding find_entry
    find-before q = rw (find_entry, q) refl

  -- Two chains with the same first key answer alike, where their rests do.
  find-cons :
      (w : FsBlockKey) (x y : ObEntry N) (l m : List (ObEntry N))
      → x.bkey ≡ y.bkey
      → compare_block_key w x.bkey ≢ Ordering.eq
      → find_entry w l ≡ find_entry w m
      → find_entry w (x ∷ l) ≡ find_entry w (y ∷ m)
  find-cons w x y l m e n h = elim (Ordering-cases (compare_block_key w x.bkey)) [
    | inl q ↦
        find-before w x l q
        ∙ sym (find-before w y m (subst (λ z. compare_block_key w z ≡ Ordering.lt) e q))
    | inr (inl q) ↦ absurd (n q)
    | inr (inr q) ↦
        find-after w x l q
        ∙ (h ∙ sym (find-after w y m (subst (λ z. compare_block_key w z ≡ Ordering.gt) e q)))
  ]

  pub find-same_head :
      (w : FsBlockKey) (x : ObEntry N) (l m : List (ObEntry N))
      → find_entry w l ≡ find_entry w m
      → find_entry w (x ∷ l) ≡ find_entry w (x ∷ m)
  find-same_head w x l m h = elim (Ordering-cases (compare_block_key w x.bkey)) [
    | inl q ↦ find-before w x l q ∙ sym (find-before w x m q)
    | inr (inl q) ↦ find-here w x l q ∙ sym (find-here w x m q)
    | inr (inr q) ↦ find-after w x l q ∙ (h ∙ sym (find-after w x m q))
  ]

  module _ (k : FsBlockKey) (f : ObEntry N → ObEntry N)
      (keeps : (y : ObEntry N) → (f y).bkey ≡ y.bkey) where
    pub find-change_entry :
        (l : List (ObEntry N)) (x : ObEntry N)
        → find_entry k l ≡ some x
        → find_entry k (change_entry k f l) ≡ some (f x)
    unfolding find_entry change_entry
    find-change_entry [] x h = cc
    find-change_entry (y ∷ l) x h = elim (Ordering-cases (compare_block_key k y.bkey)) [
      | inl q ↦ absurd (none-some (sym (find-before k y l q) ∙ h))
      | inr (inl q) ↦
          rw (change_entry, q)
            (find-here k (f y) l
                (subst (λ z. compare_block_key k z ≡ Ordering.eq) (sym (keeps y)) q)
              ∙ ap (λ z. some (f z)) (some-same (sym (find-here k y l q) ∙ h)))
      | inr (inr q) ↦
          rw (change_entry, q)
            (find-after k y (change_entry k f l) q
              ∙ find-change_entry l x (sym (find-after k y l q) ∙ h))
    ]
      where
        none-some : none ≢ some x
        none-some e = cc

        some-same : some y ≡ some x → y ≡ x
        some-same e = cc

    pub find-change_entry_other :
        (w : FsBlockKey) (l : List (ObEntry N))
        → compare_block_key w k ≢ Ordering.eq
        → find_entry w (change_entry k f l) ≡ find_entry w l
    unfolding find_entry change_entry
    find-change_entry_other w [] n = refl
    find-change_entry_other w (y ∷ l) n = elim (Ordering-cases (compare_block_key k y.bkey)) [
      | inl q ↦ rw (change_entry, q) refl
      | inr (inl q) ↦
          rw (change_entry, q)
            (find-cons w (f y) y l l (keeps y)
              (λ z. n (
                compare_block_key_right w k y.bkey q
                ∙ (sym (ap (compare_block_key w) (keeps y)) ∙ z)))
              refl)
      | inr (inr q) ↦
          rw (change_entry, q)
            (find-same_head w y (change_entry k f l) l (find-change_entry_other w l n))
    ]

  pub find-unlink_entry :
      (k : FsBlockKey) (l : List (ObEntry N)) → Ordered l → find_entry k (unlink_entry k l) ≡ none
  unfolding unlink_entry find_entry
  find-unlink_entry k [] o = refl
  find-unlink_entry k (y ∷ l) o = elim (Ordering-cases (compare_block_key k y.bkey)) [
    | inl q ↦ rw (unlink_entry, q) (find-before k y l q)
    | inr (inl q) ↦ rw (unlink_entry, q) (find-Above k l (same-Above l o.0 q))
    | inr (inr q) ↦
        rw (unlink_entry, q) (find-after k y (unlink_entry k l) q ∙ find-unlink_entry k l o.1)
  ]
    where
      same-Above :
          (m : List (ObEntry N))
          → Above y.bkey m
          → compare_block_key k y.bkey ≡ Ordering.eq
          → Above k m
      same-Above [] h q = tt
      same-Above (x ∷ m) h q = (compare_block_key_left k y.bkey x.bkey q ∙ h.0, same-Above m h.1 q)

  pub find-unlink_entry_other :
      (w k : FsBlockKey) (l : List (ObEntry N))
      → Ordered l
      → compare_block_key w k ≢ Ordering.eq
      → find_entry w (unlink_entry k l) ≡ find_entry w l
  unfolding unlink_entry
  find-unlink_entry_other w k [] o n = refl
  find-unlink_entry_other w k (y ∷ l) o n = elim (Ordering-cases (compare_block_key k y.bkey)) [
    | inl q ↦ rw (unlink_entry, q) refl
    | inr (inl q) ↦
        rw (unlink_entry, q)
          (elim (Ordering-cases (compare_block_key w y.bkey)) [
            | inl z ↦ find-Above w l (Above-trans w y.bkey l z o.0) ∙ sym (find-before w y l z)
            | inr (inl z) ↦ absurd (n (compare_block_key_right w k y.bkey q ∙ z))
            | inr (inr z) ↦ sym (find-after w y l z)
          ])
    | inr (inr q) ↦
        rw (unlink_entry, q)
          (find-same_head w y (unlink_entry k l) l (find-unlink_entry_other w k l o.1 n))
  ]
