-- ===== src/Api/RateLimiter.antt =====
-- api/middleware/middleware.go: the rate limiter. The map of clients is an association list; a key
-- that is missing has the zero window.
pub mod Windows
use edge_rollout_control_ser.Base.{
  ℕ, suc, Bool, true, false, ◌||◌, List, [], ◌∷◌, Str, str_eq, if◌then◌else◌,
}
use edge_rollout_control_ser.Base.Int.{ℤ, pos, leb_ℤ, ◌+ℤ◌, int64}
use edge_rollout_control_ser.Base.Time.{Time, is_zero, time_sub}

pub record ClientWindow : Type 0 where
  pub started : Time
  pub count : ℤ

pub record RateLimiter : Type 0 where
  pub limit : ℤ
  pub window : ℤ
  pub clients : List (Str × ClientWindow)

abbrev pub no_window : ClientWindow
no_window = record { started = 0; count = pos 0 }

unfoldable pub new_rate_limiter : ℤ → ℤ → RateLimiter
new_rate_limiter limit window = record { limit = limit; window = window; clients = [] }

-- `l.clients[key]`
unfoldable pub window_of : Str → List (Str × ClientWindow) → ClientWindow
unfolding str_eq
window_of key [] = no_window
window_of key ((k, w) ∷ clients) =
    let rest = window_of key clients in if str_eq k key then w else rest

-- `l.clients[key] = w`
unfoldable pub set_window :
    Str → ClientWindow → List (Str × ClientWindow) → List (Str × ClientWindow)
unfolding str_eq
set_window key w [] = (key, w) ∷ []
set_window key w ((k, old) ∷ clients) =
    let rest = set_window key w clients in
    if str_eq k key then (k, w) ∷ clients else (k, old) ∷ rest

abbrev pub with_window : RateLimiter → Str → ClientWindow → RateLimiter
with_window l key w = record l { clients = set_window key w l.clients }

-- Whether a window is over, or never began.
abbrev pub is_over : RateLimiter → ClientWindow → Time → Bool
is_over l w now = is_zero w.started || leb_ℤ l.window (time_sub now w.started)

unfoldable pub allow : RateLimiter → Str → Time → Bool × RateLimiter
unfolding window_of set_window time_sub int64 ◌+ℤ◌
allow l key now =
    let w = window_of key l.clients in
    if is_over l w now
    then (true, with_window l key (record { started = now; count = pos 1 }))
    else if leb_ℤ l.limit w.count
    then (false, l)
    else (true, with_window l key (record w { count = int64 (w.count +ℤ pos 1) }))

pub record Request : Type 0 where
  pub key : Str
  pub at : Time

-- Requests one after the other: how many of a client's are allowed, and the limiter that is left.
unfoldable pub allowed_of : Str → RateLimiter → List Request → ℕ × RateLimiter
unfolding allow str_eq
allowed_of key l [] = (0, l)
allowed_of key l (r ∷ rs) =
    let (ok, after) = allow l r.key r.at in
    let (n, last) = allowed_of key after rs in
    (if str_eq r.key key then (if ok then suc n else n) else n, last)
