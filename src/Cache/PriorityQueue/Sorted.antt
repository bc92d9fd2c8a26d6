-- ===== src/Cache/PriorityQueue/Sorted.antt =====
-- A package that keeps the laws asked of container/heap: it sorts every slice, the greatest first.
use task_management_api.Shared.{
  ℕ, zero, suc, ◌-◌, ◌≡◌, refl, ap, ◌∙◌, inl, inr, Bool-cases, Option-cases, Option, none, some,
  List, [], ◌∷◌, ◌++◌, length, get_elem?, set, if◌then◌else◌, arith,
}
use task_management_api.Shared.Int.{ℤ, ◌≤ℤ◌, leb_ℤ}
use task_management_api.Cache.PriorityQueue.{HeapPackage}
use task_management_api.Cache.PriorityQueue.Items.{exchange, run_exchanges}
use task_management_api.Cache.PriorityQueue.Invariant.{Below, HeapLaws}

abbrev pub Descending : List ℤ → Type 0
Descending [] = Unit {0}
Descending (p ∷ ps) = Below p ps × Descending ps

abbrev shift : List (ℕ × ℕ) → List (ℕ × ℕ)
shift [] = []
shift ((i, j) ∷ swaps) = (suc i, suc j) ∷ shift swaps

-- Into a sorted slice: what is smaller than the last element changes places with it.
abbrev path : List ℤ → ℤ → List (ℕ × ℕ)
path [] x = []
path (a ∷ bs) x =
    let kept = path bs x in
    let pushed = path bs a in if leb_ℤ x a then shift kept else (0, suc (length bs)) ∷ shift pushed

abbrev rotation : ℕ → List (ℕ × ℕ)
rotation zero = []
rotation (suc n) = (0, 1) ∷ shift (rotation n)

abbrev split_last : List ℤ → Option (List ℤ × ℤ)
split_last [] = none
split_last (x ∷ xs) = elim (split_last xs) [ none ↦ some ([], x) | some (ys, y) ↦ some (x ∷ ys, y) ]

abbrev path_of : Option (List ℤ × ℤ) → List (ℕ × ℕ)
path_of none = []
path_of (some (qs, q)) = path qs q

abbrev pub sorting : HeapPackage
sorting = record {
  init = λ ps. [];
  push = λ ps. path_of (split_last ps);
  pop = λ ps. rotation (length ps - 1);
}

abbrev insert : List ℤ → ℤ → List ℤ
insert [] x = x ∷ []
insert (a ∷ bs) x =
    let kept = insert bs x in let pushed = insert bs a in if leb_ℤ x a then a ∷ kept else x ∷ pushed

insert-Below : (p : ℤ) (bs : List ℤ) (x : ℤ) → x ≤ℤ p → Below p bs → Below p (insert bs x)
insert-Below p [] x h b = (h, tt)
insert-Below p (a ∷ bs) x h b = elim (Bool-cases (leb_ℤ x a)) [
  | inl e ↦ rw e (b.0, insert-Below p bs x h b.1)
  | inr e ↦ rw e (h, insert-Below p bs a b.0 b.1)
]

Below-trans : (p q : ℤ) (ps : List ℤ) → p ≤ℤ q → Below p ps → Below q ps
Below-trans p q [] h b = tt
Below-trans p q (r ∷ ps) h b = (omega (arith, h, b.0), Below-trans p q ps h b.1)

insert-Descending : (bs : List ℤ) (x : ℤ) → Descending bs → Descending (insert bs x)
insert-Descending [] x d = (tt, tt)
insert-Descending (a ∷ bs) x d = elim (Bool-cases (leb_ℤ x a)) [
  | inl e ↦ rw e (insert-Below a bs x (ground arith) d.0, insert-Descending bs x d.1)
  | inr e ↦ rw e (
    insert-Below x bs a (ground arith) (Below-trans a x bs (ground arith) d.0),
    insert-Descending bs a d.1,
  )
]

exchange-shift :
    (i j : ℕ) (a : ℤ) (xs ys : List ℤ)
    → exchange xs i j ≡ some ys
    → exchange (a ∷ xs) (suc i) (suc j) ≡ some (a ∷ ys)
unfolding exchange
exchange-shift i j a xs ys h = ground arith

run-shift :
    (swaps : List (ℕ × ℕ)) (a : ℤ) (xs ys : List ℤ)
    → run_exchanges swaps xs ≡ some ys
    → run_exchanges (shift swaps) (a ∷ xs) ≡ some (a ∷ ys)
unfolding run_exchanges
run-shift [] a xs ys h = ground arith
run-shift ((i, j) ∷ swaps) a xs ys h = elim (Option-cases (exchange xs i j)) [
  | inl e ↦ absurd (ground (arith, e, h))
  | inr (zs, e) ↦
      rw (run_exchanges, exchange-shift i j a xs zs e)
        (run-shift swaps a zs ys (ground (arith, e, h)))
]

get-last : (bs : List ℤ) (x : ℤ) → get_elem? (bs ++ x ∷ []) (length bs) ≡ some x
get-last [] x = refl
get-last (a ∷ bs) x = get-last bs x

set-last : (bs : List ℤ) (x y : ℤ) → set (bs ++ x ∷ []) (length bs) y ≡ bs ++ y ∷ []
set-last [] x y = refl
set-last (a ∷ bs) x y = ap (◌∷◌ a) (set-last bs x y)

exchange-ends :
    (a : ℤ) (bs : List ℤ) (x : ℤ)
    → exchange (a ∷ bs ++ x ∷ []) 0 (suc (length bs)) ≡ some (x ∷ bs ++ a ∷ [])
unfolding exchange
exchange-ends a bs x = rw (exchange, get-last bs x, set-last bs x a) refl

run-ends :
    (swaps : List (ℕ × ℕ)) (a : ℤ) (bs : List ℤ) (x : ℤ)
    → run_exchanges ((0, suc (length bs)) ∷ swaps) (a ∷ bs ++ x ∷ [])
      ≡ run_exchanges swaps (x ∷ bs ++ a ∷ [])
unfolding run_exchanges
run-ends swaps a bs x = rw (run_exchanges, exchange-ends a bs x) refl

run-path : (bs : List ℤ) (x : ℤ) → run_exchanges (path bs x) (bs ++ x ∷ []) ≡ some (insert bs x)
unfolding run_exchanges
run-path [] x = refl
run-path (a ∷ bs) x = elim (Bool-cases (leb_ℤ x a)) [
  | inl e ↦ rw e (run-shift (path bs x) a _ _ (run-path bs x))
  | inr e ↦ rw e (run-ends (shift (path bs a)) a bs x ∙ run-shift (path bs a) x _ _ (run-path bs a))
]

run-rotation :
    (x : ℤ) (xs : List ℤ) → run_exchanges (rotation (length xs)) (x ∷ xs) ≡ some (xs ++ x ∷ [])
unfolding run_exchanges exchange
run-rotation x [] = refl
run-rotation x (y ∷ ys) = run-shift (rotation (length ys)) y (x ∷ ys) _ (run-rotation x ys)

split_last-append : (xs : List ℤ) (x : ℤ) → split_last (xs ++ x ∷ []) ≡ some (xs, x)
split_last-append [] x = refl
split_last-append (y ∷ ys) x = rw (split_last-append ys x) refl

sorting-push :
    (ps : List ℤ) (p : ℤ)
    → run_exchanges (sorting.push (ps ++ p ∷ [])) (ps ++ p ∷ []) ≡ some (insert ps p)
sorting-push ps p = rw (sorting, split_last-append ps p) (run-path ps p)

sorting-pop :
    (p : ℤ) (ps : List ℤ) → run_exchanges (sorting.pop (p ∷ ps)) (p ∷ ps) ≡ some (ps ++ p ∷ [])
sorting-pop p ps =
    let one : suc (length ps) - 1 ≡ length ps = omega arith in rw (sorting, one) (run-rotation p ps)

pub sorting-laws : HeapLaws sorting Descending
sorting-laws = record {
  init_empty = (refl, tt);
  push_keeps = λ ps p d. (insert ps p, sorting-push ps p, insert-Descending ps p d);
  root_greatest = λ p ps d. d.0;
  pop_greatest = λ p ps d. (ps, sorting-pop p ps, d.1, d.0);
}
