-- ===== src/Expectations/Stored.antt =====
-- A stored evaluation is read back as it was.
use comfyui_image_frontend.Prelude.{
  ◌≡◌, refl, subst, String, Option, some, List, [], ◌∷◌, map, some_inj,
}
use comfyui_image_frontend.Prelude.Int.{ℤ}
use comfyui_image_frontend.Errors.{fine}
use comfyui_image_frontend.Json.{Value, Fields, dict, items, from_items}
use comfyui_image_frontend.Expectations.{
  ExpectationScore, Evaluation, weakest, score_json, as_json, stored_scores, evaluation_from_fields,
  evaluation_from_json,
}

module _ (print : Value → String) (parse : String → Option ℤ) where
  stored-scores :
      (rs : List ExpectationScore)
      → stored_scores print parse (items (from_items (map score_json rs))) ≡ some rs
  unfolding stored_scores
  stored-scores [] = refl
  stored-scores (r ∷ rs) = rw (stored-scores rs) refl

  abbrev evaluation : List ExpectationScore → String → ℤ → Evaluation
  evaluation rs summary threshold = record {
    results = rs;
    summary = summary;
    threshold = threshold;
  }

  read_back :
      (rs : List ExpectationScore) (summary : String) (threshold : ℤ) (m : Fields)
      → as_json (evaluation rs summary threshold) ≡ some m
      → evaluation_from_fields print parse m ≡ fine (some (evaluation rs summary threshold))
  unfolding as_json evaluation_from_fields weakest
  read_back [] summary threshold m h = cc
  read_back (r ∷ rs) summary threshold m h =
      subst
        (λ (m : Fields).
          evaluation_from_fields print parse m
          ≡ fine (some (evaluation (r ∷ rs) summary threshold)))
        (some_inj h) (rw (stored-scores rs) refl)

  -- An evaluation that is stored is rebuilt as it was: where it has a JSON form, reading that form
  -- gives the same results, summary and threshold.
  pub evaluation_from_json-as_json :
      (e : Evaluation) (m : Fields)
      → as_json e ≡ some m
      → evaluation_from_json print parse (dict m) ≡ fine (some e)
  unfolding evaluation_from_json
  evaluation_from_json-as_json e m h = read_back e.results e.summary e.threshold m h
