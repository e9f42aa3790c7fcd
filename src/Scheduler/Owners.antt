-- ===== src/Scheduler/Owners.antt =====
-- The owners in line: those who have a job, each of them once.
use mathlib.Core.List.{Memᴰ}
use comfyui_image_frontend.Prelude.{
  ℕ, ◌≡◌, sym, ◌∙◌, subst, inl, inr, String, List, [], ◌∷◌, map, false, Bool-cases, str_eq,
  str_eq_iff,
}
use comfyui_image_frontend.Prelude.Members.{Once, Memᴰ-map, Memᴰ-of_map}
use comfyui_image_frontend.Artifacts.{insert_sorted, sort}
use comfyui_image_frontend.Artifacts.Sorted.{Memᴰ-of_sort, Memᴰ-sort, Memᴰ-of_insert}
use comfyui_image_frontend.Scheduler.Turn.{First, note_first, first_by_owner, earlier, owner_order}

abbrev pub owners_of : List First → List String
owners_of = map (λ j. j.0)

Memᴰ-of_note :
    (s : String) (j : First) (xs : List First)
    → Memᴰ s (owners_of (note_first j xs))
    → Memᴰ s (j.0 ∷ owners_of xs)
unfolding note_first
Memᴰ-of_note s j [] m = m
Memᴰ-of_note s (o, n) ((p, k) ∷ rest) m = elim (Bool-cases (str_eq p o)) [
  | inl e ↦ Memᴰ.tail (rw e at m)
  | inr e ↦ later (rw e at m) (Memᴰ-of_note s (o, n) rest)
]
  where
    later :
        Memᴰ s (p ∷ owners_of (note_first (o, n) rest))
        → (Memᴰ s (owners_of (note_first (o, n) rest)) → Memᴰ s (o ∷ owners_of rest))
        → Memᴰ s (o ∷ p ∷ owners_of rest)
    later (Memᴰ.head q) ih = Memᴰ.tail (Memᴰ.head q)
    later (Memᴰ.tail n) ih = skip (ih n)
      where
        skip : Memᴰ s (o ∷ owners_of rest) → Memᴰ s (o ∷ p ∷ owners_of rest)
        skip (Memᴰ.head q) = Memᴰ.head q
        skip (Memᴰ.tail n) = Memᴰ.tail (Memᴰ.tail n)

Memᴰ-note :
    (s : String) (j : First) (xs : List First)
    → Memᴰ s (j.0 ∷ owners_of xs)
    → Memᴰ s (owners_of (note_first j xs))
unfolding note_first
Memᴰ-note s j [] m = m
Memᴰ-note s (o, n) ((p, k) ∷ rest) m = elim (Bool-cases (str_eq p o)) [
  | inl e ↦ rw e (same ((str_eq_iff p o).0 e) m)
  | inr e ↦ rw e (later m (Memᴰ-note s (o, n) rest))
]
  where
    same : p ≡ o → Memᴰ s (o ∷ p ∷ owners_of rest) → Memᴰ s (p ∷ owners_of rest)
    same e (Memᴰ.head q) = Memᴰ.head (q ∙ sym e)
    same e (Memᴰ.tail n) = n

    later :
        Memᴰ s (o ∷ p ∷ owners_of rest)
        → (Memᴰ s (o ∷ owners_of rest) → Memᴰ s (owners_of (note_first (o, n) rest)))
        → Memᴰ s (p ∷ owners_of (note_first (o, n) rest))
    later (Memᴰ.head q) ih = Memᴰ.tail (ih (Memᴰ.head q))
    later (Memᴰ.tail (Memᴰ.head q)) ih = Memᴰ.head q
    later (Memᴰ.tail (Memᴰ.tail n)) ih = Memᴰ.tail (ih (Memᴰ.tail n))

Once-note : (j : First) (xs : List First) → Once (owners_of xs) → Once (owners_of (note_first j xs))
unfolding note_first
Once-note j [] h = ((λ m. elim m [ ]), tt)
Once-note (o, n) ((p, k) ∷ rest) (fresh, h) = elim (Bool-cases (str_eq p o)) [
  | inl e ↦ rw e (fresh, h)
  | inr e ↦ rw e ((λ m. apart e (Memᴰ-of_note p (o, n) rest m)), Once-note (o, n) rest h)
]
  where
    apart : str_eq p o ≡ false → Memᴰ p (o ∷ owners_of rest) → ⊥
    apart e (Memᴰ.head q) = cc (e, (str_eq_iff p o).1 q)
    apart e (Memᴰ.tail n) = fresh n

first_by_owner-Once : (jobs : List First) → Once (owners_of (first_by_owner jobs))
unfolding first_by_owner
first_by_owner-Once [] = tt
first_by_owner-Once (j ∷ jobs) = Once-note j (first_by_owner jobs) (first_by_owner-Once jobs)

Memᴰ-of_first :
    (s : String) (jobs : List First)
    → Memᴰ s (owners_of (first_by_owner jobs))
    → Memᴰ s (owners_of jobs)
unfolding first_by_owner
Memᴰ-of_first s [] m = m
Memᴰ-of_first s (j ∷ jobs) m = elim (Memᴰ-of_note s j (first_by_owner jobs) m) [
  | Memᴰ.head q ↦ Memᴰ.head q
  | Memᴰ.tail n ↦ Memᴰ.tail (Memᴰ-of_first s jobs n)
]

Memᴰ-first :
    (s : String) (jobs : List First)
    → Memᴰ s (owners_of jobs)
    → Memᴰ s (owners_of (first_by_owner jobs))
unfolding first_by_owner
Memᴰ-first s [] m = m
Memᴰ-first s (j ∷ jobs) (Memᴰ.head q) = Memᴰ-note s j (first_by_owner jobs) (Memᴰ.head q)
Memᴰ-first s (j ∷ jobs) (Memᴰ.tail n) =
    Memᴰ-note s j (first_by_owner jobs) (Memᴰ.tail (Memᴰ-first s jobs n))

Memᴰ-of_owners : (o : String) (xs : List First) → Memᴰ o (owners_of xs) → (n : ℕ) × Memᴰ (o, n) xs
Memᴰ-of_owners o xs m =
    let ((p, n), k, e) = Memᴰ-of_map _ o xs m in (n, subst (λ s. Memᴰ (s, n) xs) (sym e) k)

-- Two lines with the same owners.
same_owner :
    (f : List First → List First)
    → ((j : First) (xs : List First) → Memᴰ j xs → Memᴰ j (f xs))
    → (o : String) (xs : List First) → Memᴰ o (owners_of xs)
    → Memᴰ o (owners_of (f xs))
same_owner f keeps o xs m =
    let (n, k) = Memᴰ-of_owners o xs m in
    Memᴰ-map (λ (j : First). j.0) (o, n) (f xs) (keeps (o, n) xs k)

Once-insert :
    (j : First) (xs : List First)
    → Once (owners_of (j ∷ xs))
    → Once (owners_of (insert_sorted earlier j xs))
unfolding insert_sorted
Once-insert j [] h = h
Once-insert j (k ∷ xs) (fresh, (fresh', h)) = elim (Bool-cases (earlier j k)) [
  | inl e ↦ rw e (fresh, (fresh', h))
  | inr e ↦ rw e (apart, Once-insert j xs (λ m. fresh (Memᴰ.tail m), h))
]
  where
    apart : ¬ Memᴰ k.0 (owners_of (insert_sorted earlier j xs))
    apart m =
        let (n, p) = Memᴰ-of_owners k.0 (insert_sorted earlier j xs) m in
        elim (Memᴰ-map (λ (j : First). j.0) (k.0, n) (j ∷ xs)
          (Memᴰ-of_insert earlier (k.0, n) j xs p)) [
            | Memᴰ.head q ↦ fresh (Memᴰ.head (sym q))
            | Memᴰ.tail q ↦ fresh' q
          ]

sort-Once : (xs : List First) → Once (owners_of xs) → Once (owners_of (sort earlier xs))
unfolding sort
sort-Once [] h = h
sort-Once (j ∷ xs) (fresh, h) =
    Once-insert j (sort earlier xs) ((λ m. fresh (unsorted j.0 xs m)), sort-Once xs h)
  where
    unsorted :
        (o : String) (xs : List First)
        → Memᴰ o (owners_of (sort earlier xs))
        → Memᴰ o (owners_of xs)
    unsorted o xs m =
        let (n, p) = Memᴰ-of_owners o (sort earlier xs) m in
        Memᴰ-map (λ (j : First). j.0) (o, n) xs (Memᴰ-of_sort earlier (o, n) xs p)

pub owner_order-Once : (jobs : List First) → Once (owner_order jobs)
unfolding owner_order
owner_order-Once jobs = sort-Once (first_by_owner jobs) (first_by_owner-Once jobs)

pub Memᴰ-owner_order :
    (o : String) (jobs : List First) → Memᴰ o (owners_of jobs) → Memᴰ o (owner_order jobs)
unfolding owner_order
Memᴰ-owner_order o jobs m =
    same_owner (sort earlier) (λ j xs. Memᴰ-sort earlier j xs) o (first_by_owner jobs)
      (Memᴰ-first o jobs m)

pub Memᴰ-of_owner_order :
    (o : String) (jobs : List First) → Memᴰ o (owner_order jobs) → Memᴰ o (owners_of jobs)
unfolding owner_order
Memᴰ-of_owner_order o jobs m =
    let (n, p) = Memᴰ-of_owners o (sort earlier (first_by_owner jobs)) m in
    Memᴰ-of_first o jobs
      (Memᴰ-map (λ (j : First). j.0) (o, n) _ (Memᴰ-of_sort earlier (o, n) (first_by_owner jobs) p))
