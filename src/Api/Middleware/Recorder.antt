-- ===== src/Api/Middleware/Recorder.antt =====
-- What the recorder keeps of an answer.
use edge_rollout_control_ser.Base.{ℕ, ◌+◌, ◌≡◌, ◌≢◌, refl, List, [], ◌∷◌, All, arith}
use edge_rollout_control_ser.Api.Middleware.{
  ResponseRecorder, new_recorder, write_header, write, Action, header, body, serve, logged_status,
}

-- The status codes of a handler are positive.
abbrev pub IsCode : Action → Type 0
IsCode (header status) = status ≢ 0
IsCode (body count) = Unit

-- The first status that a handler sends, 200 where it writes before or sends none.
abbrev pub first_status : List Action → ℕ
first_status [] = 200
first_status (header status ∷ actions) = status
first_status (body count ∷ actions) = 200

abbrev pub total_bytes : List Action → ℕ
total_bytes [] = 0
total_bytes (header status ∷ actions) = total_bytes actions
total_bytes (body count ∷ actions) = count + total_bytes actions

-- The headers that are passed on: the first, if there is any action.
abbrev pub sent_once : List Action → List ℕ
sent_once [] = []
sent_once (a ∷ actions) = first_status (a ∷ actions) ∷ []

write_header_again : (r : ResponseRecorder) (s : ℕ) → r.status ≢ 0 → write_header r s ≡ r
unfolding write_header
write_header_again r s h = ground arith

write_again :
    (r : ResponseRecorder) (n : ℕ)
    → r.status ≢ 0
    → write r n ≡ record r { bytes_written = r.bytes_written + n }
unfolding write
write_again r n h = ground arith

opened :
    (r : ResponseRecorder) (actions : List Action)
    → r.status ≢ 0
    → ((serve r actions).status ≡ r.status)
      × ((serve r actions).headers_sent ≡ r.headers_sent)
      × ((serve r actions).bytes_written ≡ r.bytes_written + total_bytes actions)
unfolding serve
opened r [] h = (refl, refl, omega arith)
opened r (header s ∷ actions) h = rw (serve, write_header_again r s h) (opened r actions h)
opened r (body n ∷ actions) h =
    let (status, sent, count) =
      opened (record r { bytes_written = r.bytes_written + n }) actions h in
    rw (serve, write_again r n h) (status, sent, omega (arith, count))

-- Whatever a handler does with statuses other than 0, the first status is the only one that is passed on and the one that the
-- access log names, 200 where the handler writes a body first or nothing, and the log counts all
-- bytes that were written.
pub serve-IsRecorded :
    (actions : List Action)
    → All IsCode actions
    → (logged_status (serve new_recorder actions) ≡ first_status actions)
      × ((serve new_recorder actions).headers_sent ≡ sent_once actions)
      × ((serve new_recorder actions).bytes_written ≡ total_bytes actions)
unfolding serve logged_status write_header write
serve-IsRecorded [] codes = (refl, refl, refl)
serve-IsRecorded (header s ∷ actions) codes =
    let r : ResponseRecorder = record { status = s; bytes_written = 0; headers_sent = s ∷ [] } in
    let (status, sent, count) = opened r actions codes.0 in
    (ground arith, sent, omega (arith, count))
serve-IsRecorded (body n ∷ actions) codes =
    let r : ResponseRecorder = record {
      status = 200;
      bytes_written = 0 + n;
      headers_sent = 200 ∷ [];
    } in
    let (status, sent, count) = opened r actions (omega arith) in
    (ground arith, sent, omega (arith, count))
