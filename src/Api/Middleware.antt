-- ===== src/Api/Middleware.antt =====
-- api/middleware/middleware.go: the parts of the middleware that compute. `new_id` is what the id
-- generator gives, `split_host_port` what `net.SplitHostPort` says of an address.
pub mod Recorder
use edge_rollout_control_ser.Base.{
  ℕ, zero, suc, ◌+◌, ltb, ◌==◌, Bool, true, false, ◌||◌, Option, none, some, List, [], ◌∷◌, ◌++◌,
  Str, bytes, is_empty, trim_space, str_eq, split, contains, length, if◌then◌else◌,
}

-- The middleware listed first is the outermost.
unfoldable pub chain {ℓ} : {H : Type ℓ} → H → List (H → H) → H
chain handler [] = handler
chain handler (m ∷ ms) = m (chain handler ms)

abbrev pub Headers : Type 0
Headers = List (Str × Str)

-- `RequestID`: the id of the request.
unfoldable pub request_id : Str → Str → Str
unfolding trim_space
request_id header new_id =
    if is_empty (trim_space header) || ltb 128 (length (trim_space header))
    then new_id
    else trim_space header

unfoldable pub security_headers : Headers
security_headers =
    (bytes "X-Content-Type-Options", bytes "nosniff")
    ∷ (bytes "X-Frame-Options", bytes "DENY")
    ∷ (bytes "Referrer-Policy", bytes "no-referrer")
    ∷ (bytes "Cache-Control", bytes "no-store")
    ∷ []

-- `CORS`: the headers that are set, and whether the next handler is called.
unfoldable pub cors : List Str → Str → Str → Headers × Bool
unfolding contains str_eq
cors allowed method origin = (
  (if contains allowed origin || (length allowed == 0)
      then (bytes "Access-Control-Allow-Origin", origin)
        ∷ (bytes "Vary", bytes "Origin")
        ∷ (
          bytes "Access-Control-Allow-Headers",
          bytes "Authorization, Content-Type, Idempotency-Key, X-Request-ID, X-Actor",
        )
        ∷ (bytes "Access-Control-Allow-Methods", bytes "GET, POST, PUT, PATCH, DELETE, OPTIONS")
        ∷ []
      else []),
  (if str_eq method (bytes "OPTIONS") then false else true),
)

-- `Actor`: what the context keeps, and `ActorFrom`.
unfoldable pub actor_of : Str → Str
unfolding trim_space
actor_of header = if is_empty (trim_space header) then bytes "api-user" else trim_space header

unfoldable pub actor_from : Option Str → Str
actor_from none = bytes "api-user"
actor_from (some actor) = if is_empty actor then bytes "api-user" else actor

abbrev pub first_part : List Str → Str
first_part [] = []
first_part (w ∷ ws) = w

unfoldable pub remote_ip : (Str → Option Str) → Str → Str → Str
unfolding trim_space split
remote_ip split_host_port forwarded remote_addr =
    let client = trim_space (first_part (split b',' forwarded)) in
    if is_empty client
    then elim (split_host_port remote_addr) [ none ↦ remote_addr | some host ↦ host ]
    else client

-- `responseRecorder`: the status and the bytes that it keeps, and the headers and the bytes that it
-- has passed on to the writer below.
pub record ResponseRecorder : Type 0 where
  pub status : ℕ
  pub bytes_written : ℕ
  pub headers_sent : List ℕ

abbrev pub new_recorder : ResponseRecorder
new_recorder = record { status = 0; bytes_written = 0; headers_sent = [] }

unfoldable pub write_header : ResponseRecorder → ℕ → ResponseRecorder
write_header r status =
    if r.status == 0
    then record r { status = status; headers_sent = r.headers_sent ++ status ∷ [] }
    else r

-- `count` is what the writer below says that it wrote.
unfoldable pub write : ResponseRecorder → ℕ → ResponseRecorder
unfolding write_header
write r count =
    let opened = if r.status == 0 then write_header r 200 else r in
    record opened { bytes_written = opened.bytes_written + count }

-- What a handler does with its writer.
pub data Action : Type 0 where
  header body : ℕ → Action

unfoldable pub serve : ResponseRecorder → List Action → ResponseRecorder
unfolding write_header write
serve r [] = r
serve r (header status ∷ actions) = serve (write_header r status) actions
serve r (body count ∷ actions) = serve (write r count) actions

-- The status that `AccessLog` writes down.
unfoldable pub logged_status : ResponseRecorder → ℕ
logged_status r = if r.status == 0 then 200 else r.status
