-- ===== src/Observer/Page.antt =====
-- src/observer.rs: `visible_workers`, the page that is shown.
use herdr_tether.Prelude.{
  List, [], ◌∷◌, get_elem?, take, zero, suc, ◌+◌, ap, ◌∙◌, drop, length-drop, ℕ, ◌-◌, ◌/◌, ◌≤◌, ◌<◌,
  some, ◌≡◌, refl, arith, length, length-take,
}
use herdr_tether.Observer.{ObserverState, workers_per_page}
use herdr_tether.Observer.Update.{selected_index}
use herdr_tether.Observer.Select.{visible_workers, visible_start, visible_end, page}

page-selected :
    (s : ObserverState) (i : ℕ) → selected_index s ≡ some i → page s ≡ i / workers_per_page
unfolding page
page-selected s i found = rw (found, page) refl

sum_of_zero : (k : ℕ) → k ≡ 0 + k
sum_of_zero k = omega arith

sum_of_suc : (n k : ℕ) → suc (n + k) ≡ suc n + k
sum_of_suc n k = omega arith

get_elem?-drop :
    {A : Type 0} (n k : ℕ) (xs : List A) → get_elem? (drop n xs) k ≡ get_elem? xs (n + k)
get_elem?-drop zero k xs = ap (get_elem? xs) (sum_of_zero k)
get_elem?-drop (suc n) k [] = refl
get_elem?-drop (suc n) k (x ∷ xs) = get_elem?-drop n k xs ∙ ap (get_elem? (x ∷ xs)) (sum_of_suc n k)

get_elem?-take :
    {A : Type 0} (n k : ℕ) (xs : List A) → k < n → get_elem? (take n xs) k ≡ get_elem? xs k
get_elem?-take zero k xs low = absurd (omega arith)
get_elem?-take (suc n) k [] low = refl
get_elem?-take (suc n) zero (x ∷ xs) low = refl
get_elem?-take (suc n) (suc k) (x ∷ xs) low = get_elem?-take n k xs (omega arith)

-- If the selected position is in range, the page that is shown is a range of the workers, in
-- bounds, which has at most four and shows at the position, counted from the start of the page, the
-- worker of that position.
pub visible_workers-selected :
    (s : ObserverState) (i : ℕ)
    → selected_index s ≡ some i
    → i < length s.workers
    → (visible_start s ≤ i)
      × (i < visible_end s)
      × (visible_end s ≤ length s.workers)
      × (length (visible_workers s) ≡ visible_end s - visible_start s)
      × (length (visible_workers s) ≤ workers_per_page)
      × (get_elem? (visible_workers s) (i - visible_start s) ≡ get_elem? s.workers i)
unfolding visible_workers page
visible_workers-selected s i found bound =
    let at = page-selected s i found in
    let kept = length-take (visible_end s - visible_start s) (drop (visible_start s) s.workers) in
    let left = length-drop (visible_start s) s.workers in
    (
      omega (arith, at),
      omega (arith, at, bound),
      omega (arith),
      omega (arith, kept, left),
      omega (arith, kept, left),
      get_elem?-take (visible_end s - visible_start s) (i - visible_start s)
            (drop (visible_start s) s.workers) (omega (arith, at, bound))
          ∙ get_elem?-drop (visible_start s) (i - visible_start s) s.workers
          ∙ ap (get_elem? s.workers) (omega (arith, at)),
    )
