-- ===== src/Worker/History.antt =====
-- What the worker reads in ComfyUI's native history (`history_status_indicates_interruption` of
-- backend/app/domain/results.py; `_history_terminal`, `_cached_node_count` and
-- `_sources_were_absent` of backend/app/services/queue_worker.py).
use comfyui_image_frontend.Prelude.{
  ℕ, ◌+◌, String, Bool, false, not, ◌&&◌, Option, none, some, List, [], ◌∷◌, any, all, length,
  str_eq, if◌then◌else◌, ◌≡◌, refl,
}
use comfyui_image_frontend.Json.{
  Value, null, bool, int, str, list, dict, nil, cons, Fields, end, field, items, get, get_or,
  truthy, value_eq,
}
use comfyui_image_frontend.Prelude.Int.{pos}
use comfyui_image_frontend.Text.{casefold, one_of}

-- INTERRUPTION_MESSAGE_TYPES
abbrev interruption_message_types : List String
interruption_message_types =
    "execution_interrupted" ∷ "execution_cancelled" ∷ "execution_canceled" ∷ []

abbrev message_type : Value → Value
message_type (dict m) = get_or "type" m (get_or "event" m null)
message_type (list (cons v vs)) = v
message_type (str s) = str s
message_type _ = null

abbrev is_interruption_type : Value → Bool
is_interruption_type (str s) = one_of interruption_message_types (casefold s)
is_interruption_type _ = false

abbrev pub list_items : Value → List Value
list_items (list vs) = items vs
list_items _ = []

-- history_status_indicates_interruption
unfoldable pub history_status_indicates_interruption : Value → Bool
unfolding casefold
history_status_indicates_interruption (dict m) =
    any (λ v. is_interruption_type (message_type v)) (list_items (get_or "messages" m (list nil)))
history_status_indicates_interruption _ = false

pub data Outcome : Type 0 where
  success cancelled failed interrupted : Outcome

-- The name in a status: a value that is no text prints as no name that is looked for.
abbrev status_name : Value → String
status_name (str s) = casefold s
status_name _ = "?"

abbrev classify : Bool → Bool → String → Option Outcome
classify interruption completed text =
    if interruption
    then some cancelled
    else if not completed
        && not (
            one_of ("success" ∷ "error" ∷ "failed" ∷ "cancelled" ∷ "canceled" ∷ "interrupted" ∷ [])
              text)
    then none
    else if one_of ("success" ∷ "completed" ∷ []) text
    then some success
    else if one_of ("cancelled" ∷ "canceled" ∷ "interrupted" ∷ []) text
    then some cancelled
    else some failed

abbrev of_status : Value → Option Outcome
of_status (str s) =
    classify (history_status_indicates_interruption (str s))
      (one_of ("success" ∷ "completed" ∷ "error" ∷ "failed" ∷ "cancelled" ∷ []) (casefold s))
      (casefold s)
of_status (dict m) =
    classify (history_status_indicates_interruption (dict m))
      (truthy (get_or "completed" m (bool false)))
      (status_name (get_or "status_str" m (get_or "status" m (str ""))))
of_status _ = none

-- _history_terminal
unfoldable pub history_terminal : Option Fields → Option Outcome
unfolding history_status_indicates_interruption casefold
history_terminal none = none
history_terminal (some end) = none
history_terminal (some (field k v r)) = of_status (get_or "status" (field k v r) (dict end))

abbrev not_found : Value → Bool
not_found (dict m) = elim (get "status" m) [ none ↦ false | some s ↦ value_eq s (int (pos 404)) ]
not_found _ = false

-- _sources_were_absent
unfoldable pub sources_were_absent : Value → Bool
unfolding value_eq
sources_were_absent (list (cons v vs)) = all not_found (items (cons v vs))
sources_were_absent _ = false

abbrev cached_nodes : Value → ℕ
cached_nodes (list (cons (str kind) (cons (dict m) vs))) =
    if str_eq kind "execution_cached" then length (list_items (get_or "nodes" m null)) else 0
cached_nodes _ = 0

abbrev sum_cached : List Value → ℕ
sum_cached [] = 0
sum_cached (v ∷ vs) = cached_nodes v + sum_cached vs

-- _cached_node_count
unfoldable pub cached_node_count : Fields → ℕ
cached_node_count raw_history = elim (get_or "status" raw_history null) [
  | dict m ↦ sum_cached (list_items (get_or "messages" m null))
  | _ ↦ 0
]

interrupted_error_is_cancelled :
    history_terminal (
      some (
        field "status"
          (dict (
            field "status_str" (str "error") (
              field "completed" (bool false) (
                field "messages"
                  (list (cons (list (cons (str "Execution_Interrupted") nil)) nil))
                  end))))
          end))
    ≡ some cancelled
unfolding history_terminal
interrupted_error_is_cancelled = refl
