-- ===== src/Estimates/Turns.antt =====
-- The estimate takes the jobs in the dispatcher's order.
use comfyui_image_frontend.Prelude.{String, Option, none, some, List}
use comfyui_image_frontend.Database.{Generation}
use comfyui_image_frontend.Scheduler.Pool.{Pool}
use comfyui_image_frontend.Scheduler.Claim.{Job, image, text, Claim}

-- The image that a claim takes, with its owner
abbrev pub image_of : String → Job → Option (String × Generation)
image_of owner (image g) = some (owner, g)
image_of owner (text r) = none

abbrev pub claimed_image : Option Claim → Option (String × Generation)
claimed_image none = none
claimed_image (some c) = image_of c.owner c.job
