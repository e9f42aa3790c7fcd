-- ===== src/Collections/Climb.antt =====
-- The climb from a folder to its root, in two states of the table.
use mathlib.Core.List.{Memᴰ}
use comfyui_image_frontend.Prelude.{
  ℕ, zero, suc, ◌+◌, ◌≤◌, ◌≡◌, refl, sym, subst, ap, inl, inr, String, true, false, ◌&&◌, ◌||◌,
  Option, none, some, List, [], ◌∷◌, any, str_eq, Bool-cases, Option-cases, arith,
}
use comfyui_image_frontend.Errors.{Result, ok, raised, Result-cases}
use comfyui_image_frontend.Collections.{Collection, get_owned, parent_of, climb, level}

pub get_owned-member :
    (rows : List Collection) (owner_id i : String) {q : Collection}
    → get_owned rows owner_id i ≡ ok q
    → Memᴰ q rows × (str_eq q.id i ≡ true) × (str_eq q.owner_id owner_id ≡ true)
unfolding get_owned
get_owned-member [] owner_id i e = cc
get_owned-member (c ∷ rows) owner_id i {q} e =
    elim (Bool-cases (str_eq c.id i && str_eq c.owner_id owner_id)) [
      | inl h ↦
          let same : c ≡ q = cc (rw h at e) in
          (
            Memᴰ.head (sym same),
            subst (λ d. str_eq d.id i ≡ true) same (ground (arith, h)),
            subst (λ d. str_eq d.owner_id owner_id ≡ true) same (ground (arith, h)),
          )
      | inr h ↦ let (m, k, o) = get_owned-member rows owner_id i (rw h at e) in (Memᴰ.tail m, k, o)
    ]

-- `Kept` holds of folders whose parent is found in both states, and `Kept` too.
module _ (rows rows' : List Collection) (owner_id : String) (Kept : Collection → Type 0)
    (parent_kept : (c : Collection) (p : String) (q : Collection)
      → Kept c
      → c.parent_id ≡ some p
      → get_owned rows owner_id p ≡ ok q
      → (get_owned rows' owner_id p ≡ ok q) × Kept q) where
  -- The second climb has seen the same of those folders.
  SameSeen : List String → List String → Type 0
  SameSeen seen seen' = (q : Collection) → Kept q → any (str_eq q.id) seen' ≡ any (str_eq q.id) seen

  parent_of-same :
      (seen seen' : List String) (c : Collection) {r : Option Collection}
      → Kept c
      → SameSeen seen seen'
      → parent_of rows owner_id seen c ≡ ok r
      → (parent_of rows' owner_id seen' c ≡ ok r) × ((q : Collection) → r ≡ some q → Kept q)
  unfolding parent_of SameSeen
  parent_of-same seen seen' c {r} k same e = elim (Option-cases c.parent_id) [
    | inl none_above ↦
        let h : ok none ≡ ok r = rw (parent_of, none_above) at e in
        (rw (parent_of, none_above) h, λ q i. cc)
    | inr (p, above) ↦ elim (Result-cases (get_owned rows owner_id p)) [
      | inl (x, missing) ↦ absurd (cc (rw (parent_of, above, missing) at e))
      | inr (q, there) ↦
          let (there', kept) = parent_kept c p q k above there in
          elim (Bool-cases (any (str_eq q.id) seen)) [
            | inl b ↦ absurd (cc (rw (parent_of, above, there, b) at e))
            | inr b ↦
                let h : ok (some q) ≡ ok r = rw (parent_of, above, there, b) at e in
                (
                  rw (parent_of, above, there', same q kept, b) h,
                  λ q' i. subst Kept (kept_one h i) kept,
                )
          ]
    ]
  ]
    where
      kept_one : {q q' : Collection} → ok (some q) ≡ ok r → r ≡ some q' → q ≡ q'
      kept_one h i = cc

  SameSeen-cons :
      (x : String) (seen seen' : List String)
      → SameSeen seen seen'
      → SameSeen (x ∷ seen) (x ∷ seen')
  unfolding SameSeen
  SameSeen-cons x seen seen' same q k = ap (λ b. str_eq q.id x || b) (same q k)

  climb-zero :
      (seen : List String) (c : Collection) (l : ℕ) {n : ℕ}
      → climb rows owner_id zero seen c l ≡ ok n
      → n ≡ l
  unfolding climb
  climb-zero seen c l e = ground arith

  one_more : Result ℕ → Result ℕ
  one_more (raised x) = raised x
  one_more (ok m) = ok (m + 1)

  -- One level further down, with one level less to go.
  climb-deeper :
      (left : ℕ) (seen seen' : List String) (c : Collection) (l : ℕ) {n : ℕ}
      → Kept c
      → SameSeen seen seen'
      → climb rows owner_id (suc left) seen c l ≡ ok n
      → n ≤ l + left
      → climb rows' owner_id left seen' c (l + 1) ≡ ok (n + 1)
  unfolding climb one_more
  climb-deeper zero seen seen' c l {n} k same e b =
      elim (Result-cases (parent_of rows owner_id seen c)) [
        | inl (x, f) ↦ cc (rw (climb, f) at e)
        | inr (none, f) ↦
            rw (climb, (parent_of-same seen seen' c k same f).0) (ap one_more (rw (climb, f) at e))
        | inr (some q, f) ↦
            absurd (omega (arith, b, climb-zero (q.id ∷ seen) q (l + 1) (rw (climb, f) at e)))
      ]
  climb-deeper (suc left) seen seen' c l {n} k same e b =
      elim (Result-cases (parent_of rows owner_id seen c)) [
        | inl (x, f) ↦ cc (rw (climb, f) at e)
        | inr (none, f) ↦
            rw (climb, (parent_of-same seen seen' c k same f).0) (ap one_more (rw (climb, f) at e))
        | inr (some q, f) ↦
            let (f', kept) = parent_of-same seen seen' c k same f in
            rw (climb, f')
              (climb-deeper left (q.id ∷ seen) (q.id ∷ seen') q (l + 1) (kept q refl)
                (SameSeen-cons q.id seen seen' same) (rw (climb, f) at e) (omega (arith, b)))
      ]

  -- A folder under one whose climb goes through such folders only lies one level below it.
  pub level-under :
      (c parent : Collection) (p : String) {depth : ℕ}
      → Kept parent
      → c.parent_id ≡ some p
      → get_owned rows' owner_id p ≡ ok parent
      → ((q : Collection) → Kept q → str_eq q.id c.id ≡ false)
      → level rows owner_id parent ≡ ok depth
      → depth ≤ 4
      → level rows' owner_id c ≡ ok (depth + 1)
  unfolding level climb parent_of SameSeen
  level-under c parent p k above there other g b =
      rw (level, climb, parent_of, above, there, other parent k)
        (climb-deeper 3 (parent.id ∷ []) (parent.id ∷ c.id ∷ []) parent 1 k
          (λ q kept. ap (λ d. str_eq q.id parent.id || (d || false)) (other q kept)) g
          (omega (arith, b)))
