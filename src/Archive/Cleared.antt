-- ===== src/Archive/Cleared.antt =====
-- A file that is archived after all leaves no trace of its failure.
use mathlib.Core.List.{append-nil}
use comfyui_image_frontend.Prelude.{
  ℕ, ◌≡◌, refl, sym, ap, ◌∙◌, ◌⊎◌, inl, inr, String, Bool, true, false, not, Option, none, some,
  List, [], ◌∷◌, ◌++◌, length, length-filter-le, filter-append, ◌==◌, arith, Bool-cases,
  Option-cases, str_eq, str_eq_iff, if◌then◌else◌,
}
use comfyui_image_frontend.Prelude.Int.{pos}
use comfyui_image_frontend.Json.{
  Value, str, int, list, nil, Fields, from_items, get, put, value_eq, double_eq,
}
use comfyui_image_frontend.Json.Laws.{get-put, get-remove, items-from_items}
use comfyui_image_frontend.Database.{Generation}
use comfyui_image_frontend.Worker.History.{list_items}
use comfyui_image_frontend.Archive.{NativeFileOutput, lookup}
use comfyui_image_frontend.Archive.Failures.{
  Failure, agrees, matches, persistence_failure_key, failure_entry, requires_persistence,
  diagnostic_key, listed, others, add_failure, put_rest, clear_list, clear_failures,
  record_persistence_failure, clear_persistence_failure,
}

str_eq_refl : (s : String) → str_eq s s ≡ true
str_eq_refl s = (str_eq_iff s s).1 refl

value_eq-str : (s : String) → value_eq (str s) (str s) ≡ true
unfolding value_eq
value_eq-str s = str_eq_refl s

value_eq-int : (n : ℕ) → value_eq (int (pos n)) (int (pos n)) ≡ true
unfolding value_eq double_eq
value_eq-int n = ground arith

-- The entry of a failure is about its file.
pub entry-matches :
    (f : NativeFileOutput) (e : Failure)
    → matches (persistence_failure_key f) (failure_entry f e) ≡ true
unfolding agrees
entry-matches f e = elim (Option-cases e.status_code) [
  | inl q ↦ elim (Option-cases (lookup "filename" f.reference)) [
    | inl p ↦ simp (q, p, value_eq-str, value_eq-int)
    | inr (t, p) ↦ simp (q, p, value_eq-str, value_eq-int)
  ]
  | inr (n, q) ↦ elim (Option-cases (lookup "filename" f.reference)) [
    | inl p ↦ simp (q, p, value_eq-str, value_eq-int)
    | inr (t, p) ↦ simp (q, p, value_eq-str, value_eq-int)
  ]
]

pub others-idempotent :
    (f : NativeFileOutput) (vs : List Value) → others f (others f vs) ≡ others f vs
others-idempotent f [] = refl
others-idempotent f (v ∷ vs) = ground (arith, others-idempotent f vs)

pub others-append :
    (f : NativeFileOutput) (vs ws : List Value) → others f (vs ++ ws) ≡ others f vs ++ others f ws
others-append f = filter-append (λ v. not (matches (persistence_failure_key f) v))

others-all :
    (f : NativeFileOutput) (vs : List Value) → length (others f vs) ≡ length vs → others f vs ≡ vs
others-all f [] h = refl
others-all f (v ∷ vs) h =
    ground (
      arith,
      others-all f vs,
      length-filter-le (λ v. not (matches (persistence_failure_key f) v)) vs,
    )

abbrev of_get : Option Value → List Value
of_get o = list_items (elim o [ none ↦ list nil | some v ↦ v ])

listed-put :
    (k j : String) (vs : List Value) (m : Fields)
    → listed j (put k (list (from_items vs)) m) ≡ (if str_eq k j then vs else listed j m)
listed-put k j vs m = ap of_get (get-put k j (list (from_items vs)) m) ∙ chosen (str_eq k j)
  where
    chosen :
        (b : Bool)
        → of_get (if b then some (list (from_items vs)) else get j m)
          ≡ (if b then vs else listed j m)
    chosen true = items-from_items vs
    chosen false = refl

listed-rest :
    (k j : String) (vs : List Value) (m : Fields)
    → listed j (put_rest k vs m) ≡ (if str_eq k j then vs else listed j m)
listed-rest k j [] m = ap of_get (get-remove k j m) ∙ chosen (str_eq k j)
  where
    chosen : (b : Bool) → of_get (if b then none else get j m) ≡ (if b then [] else listed j m)
    chosen true = refl
    chosen false = refl
listed-rest k j (v ∷ vs) m = listed-put k j (v ∷ vs) m

get-rest :
    (k j : String) (vs : List Value) (m : Fields)
    → str_eq k j ≡ false
    → get j (put_rest k vs m) ≡ get j m
get-rest k j [] m e = rw (get-remove, e) refl
get-rest k j (v ∷ vs) m e = rw (get-put, e) refl

-- Clearing one list keeps its entries about other files, and everything else.
listed-clear_list :
    (f : NativeFileOutput) (k j : String) (m : Fields)
    → listed j (clear_list f k m) ≡ (if str_eq k j then others f (listed k m) else listed j m)
unfolding clear_list
listed-clear_list f k j m =
    elim (Bool-cases (length (others f (listed k m)) == length (listed k m))) [
      | inl e ↦ rw e (same (ground arith) (Bool-cases (str_eq k j)))
      | inr e ↦ rw e (listed-rest k j (others f (listed k m)) m)
    ]
  where
    same :
        length (others f (listed k m)) ≡ length (listed k m)
        → (str_eq k j ≡ true) ⊎ (str_eq k j ≡ false)
        → listed j m ≡ (if str_eq k j then others f (listed k m) else listed j m)
    same h (inl q) = rw q (
        ap (λ (i : String). listed i m) (sym ((str_eq_iff k j).0 q))
        ∙ sym (others-all f (listed k m) h))
    same h (inr q) = rw q refl

get-clear_list :
    (f : NativeFileOutput) (k j : String) (m : Fields)
    → str_eq k j ≡ false
    → get j (clear_list f k m) ≡ get j m
unfolding clear_list
get-clear_list f k j m e = ground (arith, get-rest k j (others f (listed k m)) m)

-- The entries about this file are gone from both lists, and nothing else is changed.
pub record IsCleared (f : NativeFileOutput) (before after : Fields) : Type 0 where
  pub failures : listed (diagnostic_key true) after ≡ others f (listed (diagnostic_key true) before)
  pub warnings :
      listed (diagnostic_key false) after ≡ others f (listed (diagnostic_key false) before)
  pub rest :
      (k : String)
      → str_eq (diagnostic_key true) k ≡ false
      → str_eq (diagnostic_key false) k ≡ false
      → get k after ≡ get k before

pub clear_failures-IsCleared :
    (f : NativeFileOutput) (m : Fields) → IsCleared f m (clear_failures f m)
unfolding clear_failures
clear_failures-IsCleared f m =
    let m' : Fields = clear_list f (diagnostic_key true) m in
    record {
      failures =
          listed-clear_list f (diagnostic_key false) (diagnostic_key true) m'
          ∙ listed-clear_list f (diagnostic_key true) (diagnostic_key true) m;
      warnings =
          listed-clear_list f (diagnostic_key false) (diagnostic_key false) m'
          ∙ ap (others f) (listed-clear_list f (diagnostic_key true) (diagnostic_key false) m);
      rest = λ k p q.
          get-clear_list f (diagnostic_key false) k m' q
          ∙ get-clear_list f (diagnostic_key true) k m p;
    }

others-entry :
    (f : NativeFileOutput) (e : Failure) (vs : List Value)
    → others f (others f vs ++ failure_entry f e ∷ []) ≡ others f vs
others-entry f e vs =
    others-append f (others f vs) (failure_entry f e ∷ [])
    ∙ rw (entry-matches f e) (append-nil (others f (others f vs)) ∙ others-idempotent f vs)

-- A failure is forgotten as if it had not been recorded.
others-add_failure :
    (f : NativeFileOutput) (e : Failure) (k : String) (m : Fields)
    → others f (listed k (add_failure f e m)) ≡ others f (listed k m)
unfolding add_failure
others-add_failure f e k m =
    let key : String = diagnostic_key (requires_persistence f) in
    let vs : List Value = others f (listed key m) ++ failure_entry f e ∷ [] in
    ap (others f) (listed-put key k vs m) ∙ chosen (Bool-cases (str_eq key k))
  where
    chosen :
        (str_eq (diagnostic_key (requires_persistence f)) k ≡ true)
          ⊎ (str_eq (diagnostic_key (requires_persistence f)) k ≡ false)
        → others f (
            if str_eq (diagnostic_key (requires_persistence f)) k
            then others f (listed (diagnostic_key (requires_persistence f)) m)
              ++ failure_entry f e ∷ []
            else listed k m)
          ≡ others f (listed k m)
    chosen (inl q) = rw q (
        others-entry f e (listed (diagnostic_key (requires_persistence f)) m)
        ∙ ap (λ (i : String). others f (listed i m))
            ((str_eq_iff (diagnostic_key (requires_persistence f)) k).0 q))
    chosen (inr q) = rw q refl

get-add_failure :
    (f : NativeFileOutput) (e : Failure) (k : String) (m : Fields)
    → str_eq (diagnostic_key true) k ≡ false
    → str_eq (diagnostic_key false) k ≡ false
    → get k (add_failure f e m) ≡ get k m
unfolding add_failure
get-add_failure f e k m p q = elim (Bool-cases (requires_persistence f)) [
  | inl r ↦ rw (r, get-put, p) refl
  | inr r ↦ rw (r, get-put, q) refl
]

-- Recording that a file could not be archived, and clearing it once the file is archived after all,
-- leaves the entries about other files in the lists of failures and of warnings as they were, none
-- about this file, and every other diagnostic unchanged.
pub clear-record :
    (now : ℕ) (f : NativeFileOutput) (e : Failure) (g : Generation)
    → IsCleared f g.internal_diagnostics_json
        (clear_persistence_failure f
          (record_persistence_failure now f e g).0).internal_diagnostics_json
unfolding clear_persistence_failure record_persistence_failure
clear-record now f e g =
    let m : Fields = g.internal_diagnostics_json in
    let c : IsCleared f (add_failure f e m) (clear_failures f (add_failure f e m)) =
      clear_failures-IsCleared f (add_failure f e m) in
    record {
      failures = c.failures ∙ others-add_failure f e (diagnostic_key true) m;
      warnings = c.warnings ∙ others-add_failure f e (diagnostic_key false) m;
      rest = λ k p q. c.rest k p q ∙ get-add_failure f e k m p q;
    }
