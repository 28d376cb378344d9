-- ===== src/Examples/Systems.antt =====
-- An operation that succeeds at its third call, settings from a file, a limiter, and an answer.
use edge_rollout_control_ser.Base.{
  ◌*◌, ◌-◌, ◌^◌, ◌<◌, ◌≡◌, All, refl, false, none, some, List, [], ◌∷◌, Str, bytes, str_eq, ok, ltb,
  min, count_if, arith, if◌then◌else◌,
}
use edge_rollout_control_ser.Base.Int.{pos, pos_part, int64}
use edge_rollout_control_ser.Base.Time.{time_sub}
use edge_rollout_control_ser.System.Retry.{RetryPolicy, Surroundings, normalize, run}
use edge_rollout_control_ser.System.Retry.Rounds.{attempts_of}
use edge_rollout_control_ser.System.Retry.Pacing.{Paced, run-Paced}
use edge_rollout_control_ser.System.Retry.Laws.{Explains, run-Explains, run_succeeds}
use edge_rollout_control_ser.System.Settings.{
  Settings, Host, contents, default_settings, load, IsRunnable, load-IsRunnable,
}
use edge_rollout_control_ser.Api.RateLimiter.{RateLimiter, Request, window_of, allowed_of}
use edge_rollout_control_ser.Api.RateLimiter.Windows.{
  Lasts, HasWindow, capacity, of_client, allowed_of-min,
}
use edge_rollout_control_ser.Api.Middleware.{
  Action, header, body, new_recorder, serve, logged_status,
}
use edge_rollout_control_ser.Api.Middleware.Recorder.{
  first_status, sent_once, total_bytes, serve-IsRecorded,
}

abbrev policy : RetryPolicy
policy = record { attempts = pos 4; delay = pos 10; max_delay = pos 25 }

abbrev third : Surroundings Str
third = record {
  operation = λ n. if ltb n 2 then some (bytes "busy") else none;
  is_done = λ n. false;
  done_in_wait = λ n. false;
}

run-Explains_example : Explains third 0 (attempts_of policy) (run third policy).0
run-Explains_example = run-Explains third policy

three_in_time : 2 < attempts_of policy
unfolding normalize
three_in_time = omega arith

run_succeeds_example : (run third policy).0 ≡ none
run_succeeds_example = run_succeeds third policy 2 (λ i. refl) (λ i. refl) three_in_time refl

no_overflow : pos_part (normalize policy).delay * 2 ^ attempts_of policy < 9223372036854775808
unfolding normalize
no_overflow = omega arith

run-Paced_example :
    Paced
      (pos_part (normalize policy).delay)
      (pos_part (normalize policy).max_delay)
      0
      (attempts_of policy)
      (run third policy).1
run-Paced_example = run-Paced third policy no_overflow

-- The file's text is the address.
abbrev host : Host
host = record {
  read_file = λ path. contents (bytes ":9090");
  decode = λ text c. some (record c { address = text });
  getenv = λ key. [];
  parse_duration = λ text. none;
}

abbrev settings : Settings
settings = record default_settings { address = bytes ":9090" }

loads : load host (bytes "config.yaml") ≡ ok settings
unfolding load
loads = refl

load-IsRunnable_example : IsRunnable settings
load-IsRunnable_example = load-IsRunnable host (bytes "config.yaml") settings loads

-- One request of the client was let through at 5.
abbrev limiter : RateLimiter
limiter = record {
  limit = pos 2;
  window = pos 100;
  clients = (bytes "k", record { started = 5; count = pos 1 }) ∷ [];
}

abbrev requests : List Request
requests =
    record { key = bytes "k"; at = 6 }
    ∷ record { key = bytes "l"; at = 7 }
    ∷ record { key = bytes "k"; at = 8 }
    ∷ []

lasting : All (λ (r : Request). Lasts (pos 100) 5 r.at) requests
unfolding time_sub int64
lasting = (refl, (refl, (refl, tt)))

has_window : HasWindow (bytes "k") 5 1 limiter
unfolding window_of str_eq
has_window = refl

allowed_of-min_example :
    (allowed_of (bytes "k") limiter requests).0
    ≡ min (count_if (of_client (bytes "k")) requests) (capacity (pos 2) - 1)
allowed_of-min_example =
    allowed_of-min (bytes "k") 5 requests limiter 1 (omega arith) (omega arith) (omega arith)
      lasting has_window

abbrev actions : List Action
actions = header 404 ∷ body 10 ∷ header 200 ∷ body 5 ∷ []

serve-IsRecorded_example :
    (logged_status (serve new_recorder actions) ≡ first_status actions)
    × ((serve new_recorder actions).headers_sent ≡ sent_once actions)
    × ((serve new_recorder actions).bytes_written ≡ total_bytes actions)
serve-IsRecorded_example = serve-IsRecorded actions (omega arith, (tt, (omega arith, (tt, tt))))
