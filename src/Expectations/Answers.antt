-- ===== src/Expectations/Answers.antt =====
-- What the loop over a vision model's results collects.
use mathlib.Core.List.{Memᴰ}
use comfyui_image_frontend.Prelude.{
  ℕ, ◌≤◌, ◌≡◌, refl, subst, String, false, ◌||◌, Option, none, some, List, [], ◌∷◌, ◌++◌, All,
  arith,
}
use comfyui_image_frontend.Prelude.Int.{pos, negsuc}
use comfyui_image_frontend.Errors.{fine, and_then-fine, fault_if-fine, fine_inj}
use comfyui_image_frontend.Json.{Value, Fields, null, bool, int, float, str, list, dict, get_or}
use comfyui_image_frontend.Expectations.{
  Answer, score_of, index_of, text_of, answer, read_result, answered, remember, read_results,
}

-- One of the results gives this answer: it is a mapping with this number and this score, which are
-- in range.
pub record GivenBy (count : ℕ) (results : List Value) (a : Answer) : Type 0 where
  pub mapping : Fields
  pub given : Memᴰ (dict mapping) results
  pub numbered : get_or "expectation" mapping null ≡ int (pos a.0)
  pub scored : score_of (get_or "score" mapping null) ≡ some a.1.0
  pub positive : 1 ≤ a.0
  pub at_most : a.0 ≤ count
  pub hundred : a.1.0 ≤ 100

-- No expectation is answered twice.
abbrev pub Apart : List Answer → Type 0
Apart [] = Unit {0}
Apart (a ∷ rest) = (answered a.0 rest ≡ false) × Apart rest

index_of-some :
    (count : ℕ) (v : Value) (n : ℕ)
    → index_of count v ≡ some n
    → (v ≡ int (pos n)) × (1 ≤ n) × (n ≤ count)
index_of-some count (int (pos m)) n h = ground arith
index_of-some count (int (negsuc m)) n h = cc
index_of-some count null n h = cc
index_of-some count (bool b) n h = cc
index_of-some count (float d) n h = cc
index_of-some count (str s) n h = cc
index_of-some count (list vs) n h = cc
index_of-some count (dict m) n h = cc

score_of-le : (v : Value) (n : ℕ) → score_of v ≡ some n → n ≤ 100
score_of-le (int (pos m)) n h = ground arith
score_of-le (int (negsuc m)) n h = cc
score_of-le null n h = cc
score_of-le (bool b) n h = cc
score_of-le (float d) n h = ground arith
score_of-le (str s) n h = cc
score_of-le (list vs) n h = cc
score_of-le (dict m) n h = cc

answer-fine :
    (i : Option ℕ) (n : Option ℕ) (o : Option String) (a : Answer)
    → answer i n o ≡ fine a
    → (i ≡ some a.0) × (n ≡ some a.1.0)
answer-fine none n o a h = cc
answer-fine (some i) none o a h = cc
answer-fine (some i) (some n) none a h = cc
answer-fine (some i) (some n) (some o) a h = ground arith

read-GivenBy :
    (count : ℕ) (v : Value) (a : Answer) (results : List Value)
    → read_result count v ≡ fine a
    → Memᴰ v results
    → GivenBy count results a
unfolding read_result
read-GivenBy count (dict m) a results h g =
    let (p, q) =
      answer-fine (index_of count (get_or "expectation" m null)) (score_of (get_or "score" m null))
        (text_of (get_or "observation" m (str ""))) a h in
    let (e, l, u) = index_of-some count (get_or "expectation" m null) (a.0) p in
    record {
      mapping = m;
      given = g;
      numbered = e;
      scored = q;
      positive = l;
      at_most = u;
      hundred = score_of-le (get_or "score" m null) (a.1.0) q;
    }
read-GivenBy count null a results h g = cc
read-GivenBy count (int n) a results h g = cc
read-GivenBy count (bool b) a results h g = cc
read-GivenBy count (float d) a results h g = cc
read-GivenBy count (str s) a results h g = cc
read-GivenBy count (list vs) a results h g = cc

answered-append :
    (i : ℕ) (xs ys : List Answer) → answered i (xs ++ ys) ≡ (answered i xs || answered i ys)
answered-append i [] ys = refl
answered-append i (x ∷ xs) ys = ground (arith, answered-append i xs ys)

Apart-append :
    (xs : List Answer) (a : Answer) → Apart xs → answered a.0 xs ≡ false → Apart (xs ++ a ∷ [])
Apart-append [] a p h = (refl, tt)
Apart-append ((i, s) ∷ xs) (j, t) p h =
    (ground (arith, answered-append i xs ((j, t) ∷ [])), Apart-append xs (j, t) p.1 (ground arith))

All-append {ℓ} :
    {A : Type ℓ} (P : A → Type 0) (xs ys : List A) → All P xs → All P ys → All P (xs ++ ys)
All-append P [] ys p q = q
All-append P (x ∷ xs) ys p q = (p.0, All-append P xs ys p.1 q)

-- The answers so far: each given by a result, none for an expectation that has one.
pub record AreAnswers (count : ℕ) (results : List Value) (seen : List Answer) : Type 0 where
  pub given : All (GivenBy count results) seen
  pub once : Apart seen

pub read_results-AreAnswers :
    (count : ℕ) (results : List Value) (seen : List Answer) (vs : List Value) (after : List Answer)
    → ((v : Value) → Memᴰ v vs → Memᴰ v results)
    → AreAnswers count results seen
    → read_results count seen vs ≡ fine after
    → AreAnswers count results after
unfolding read_results
read_results-AreAnswers count results seen [] after sub inv h =
    subst (AreAnswers count results) (fine_inj h) inv
read_results-AreAnswers count results seen (v ∷ vs) after sub inv h =
    let (a, p, h') = and_then-fine (read_result count v) _ h in
    let (seen', q, h'') = and_then-fine (remember seen a) _ h' in
    let (new, e) = fault_if-fine (answered (a.0) seen) _ _ q in
    read_results-AreAnswers count results seen' vs after (λ w m. sub w (Memᴰ.tail m))
      (subst (AreAnswers count results) (fine_inj e) (record {
        given =
            All-append (GivenBy count results) seen (a ∷ []) inv.given
              (read-GivenBy count v a results p (sub v (Memᴰ.head refl)), tt);
        once = Apart-append seen a inv.once new;
      }))
      h''
