-- ===== src/Examples/Admitting.antt =====
-- The admission at a concrete run: one place for media of two, three requests.
use comfyui_image_frontend.Prelude.{◌≡◌, refl, Bool, true, false, List, [], ◌∷◌, ◌++◌, map, filter}
use comfyui_image_frontend.Admission.{Ticket, Admission, admission, acquire, release, drain}
use comfyui_image_frontend.Admission.Bounded.{
  Reach, start, acquires, releases, IsSound, Reach-IsSound,
}
use comfyui_image_frontend.Admission.Fifo.{is_kind, drain-in_order}

abbrev first : Ticket
first = record { id = 1; media = true }

abbrev second : Ticket
second = record { id = 2; media = true }

abbrev third : Ticket
third = record { id = 3; media = false }

abbrev full : Admission
full = (acquire third (acquire second (acquire first (admission 2 1 8)).1).1).1

three-Reach : Reach 2 1 8 (release first full)
three-Reach = releases first (acquires third (acquires second (acquires first start)))

Reach-IsSound_example : IsSound 2 1 8 (release first full)
Reach-IsSound_example = Reach-IsSound 2 1 8 three-Reach

-- The third request passes the second, which has no place for media.
passed : full.waiters ≡ second ∷ []
unfolding acquire
passed = refl

-- The second gets the place of the first.
freed : map (λ (t : Ticket). t.id) (release first full).running ≡ 3 ∷ 2 ∷ []
unfolding acquire release
freed = refl

abbrev waiting : Admission
waiting = record (admission 2 1 8) { waiters = first ∷ second ∷ third ∷ [] }

drain-in_order_example :
    (admitted : List Ticket) × ((drain waiting).running ≡ waiting.running ++ admitted)
    × ((media : Bool)
        → filter (is_kind media) waiting.waiters
          ≡ filter (is_kind media) admitted ++ filter (is_kind media) (drain waiting).waiters)
drain-in_order_example = drain-in_order waiting
