-- ===== src/Examples/Delivering.antt =====
-- The broker at a concrete run: Ann connects, Bob is told something, then Ann, who reads it.
use comfyui_image_frontend.Prelude.{◌≡◌, refl, some, List, [], ◌∷◌}
use comfyui_image_frontend.Json.{str, field, end}
use comfyui_image_frontend.Broker.{Event, Subscriber, publish, subscribe, take, queue_of}
use comfyui_image_frontend.Broker.Delivered.{
  Log, Run, start, publication, reading, Implements, Run-Implements,
}

abbrev queued_event : Event
queued_event = field "type" (str "queued") end

abbrev bobs : List Subscriber
bobs = record { id = 1; owner = "bob"; queue = [] } ∷ []

abbrev told : List Subscriber
told = publish "ann" queued_event (publish "bob" queued_event (subscribe 2 "ann" bobs))

abbrev ann_reads : Log
ann_reads = record { published = queued_event ∷ []; received = queued_event ∷ [] }

ann-Run : Run 2 "ann" (take 2 told) ann_reads
unfolding publish subscribe queue_of
ann-Run =
    reading queued_event []
      (publication "ann" queued_event (publication "bob" queued_event (start bobs refl))) refl

Run-Implements_example : Implements 2 "ann" (take 2 told) ann_reads
Run-Implements_example = Run-Implements 2 "ann" ann-Run

-- Bob has not read his.
bobs_queue : queue_of 1 (take 2 told) ≡ some (queued_event ∷ [])
unfolding take publish subscribe queue_of
bobs_queue = refl
