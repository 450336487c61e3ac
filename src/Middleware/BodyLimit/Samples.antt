-- ===== src/Middleware/BodyLimit/Samples.antt =====
-- A server that sends a body in three parts, and the theorems at it.
use resilience_kit.Prelude.{◌≤◌, true, List, [], ◌∷◌, ◌≡◌, refl}
use resilience_kit.Middleware.BodyLimit.{
  Message, bytes, http_request, http_disconnect, capped_receive,
}
use resilience_kit.Middleware.BodyLimit.Capped.{receive_times, total, capped_receive_within_max}

abbrev server : List Message → List Message × Message
server [] = ([], http_disconnect)
server (message ∷ messages) = (messages, message)

abbrev part : Message
part = http_request (bytes (1 ∷ 2 ∷ [])) true

abbrev upload : List Message
upload = part ∷ part ∷ part ∷ []

upload_cut :
    receive_times (capped_receive 5 server) 4 (0, upload)
    ≡ part ∷ part ∷ http_disconnect ∷ http_disconnect ∷ []
unfolding receive_times capped_receive
upload_cut = refl

capped_receive_within_max_example :
    total (receive_times (capped_receive 5 server) 4 (0, upload)) ≤ 5
capped_receive_within_max_example = capped_receive_within_max 5 server 4 upload
