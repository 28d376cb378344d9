-- ===== src/Api/RateLimiter/Windows.antt =====
-- How many requests of a client the limiter lets through while its window lasts.
use edge_rollout_control_ser.Base.{
  ℕ, suc, ◌+◌, ◌-◌, ◌≤◌, ◌<◌, ◌≡◌, refl, ap, ◌∙◌, min, length, All, Bool, true, false, not, List,
  [], ◌∷◌, Str, str_eq, str_eq→eq, str_eq_refl, count_if, if◌then◌else◌, Bool-cases, inl, inr,
  arith,
}
use Prim.Native.Nat.{max}
use edge_rollout_control_ser.Base.Int.{
  ℤ, pos, negsuc, pos_part, leb_ℤ, ◌+ℤ◌, pos_add, int64, int64-pos,
}
use edge_rollout_control_ser.Base.Time.{Time, time_sub}
use edge_rollout_control_ser.Api.RateLimiter.{
  ClientWindow, RateLimiter, Request, window_of, set_window, with_window, is_over, allow,
  allowed_of,
}

-- A window that is written is read; the others stay.
pub window_of-set_window :
    (key k : Str) (w : ClientWindow) (clients : List (Str × ClientWindow))
    → window_of k (set_window key w clients) ≡ (if str_eq key k then w else window_of k clients)
unfolding window_of set_window
window_of-set_window key k w [] = refl
window_of-set_window key k w ((j, old) ∷ clients) =
    let rest = window_of-set_window key k w clients in
    elim (Bool-cases (str_eq j key)) [
      | inl same ↦ rw (same, str_eq→eq j key same) (ground arith)
      | inr other ↦ rw other (elim (Bool-cases (str_eq j k)) [
        | inl here ↦ elim (Bool-cases (str_eq key k)) [
          | inl there ↦ absurd (cc (other, here, str_eq→eq key k there))
          | inr away ↦ rw (here, away) refl
        ]
        | inr away ↦ rw away rest
      ])
    ]

-- The window of a client that began at `start`, with c requests let through.
abbrev pub HasWindow : Str → Time → ℕ → RateLimiter → Type 0
HasWindow key start c l = window_of key l.clients ≡ record { started = start; count = pos c }

-- How many requests a window takes: the limit, and one at least.
abbrev pub capacity : ℤ → ℕ
capacity limit = max 1 (pos_part limit)

-- A request at a time when a window that began at `start` lasts.
abbrev pub Lasts : ℤ → Time → Time → Type 0
Lasts window start at = leb_ℤ window (time_sub at start) ≡ false

-- What does not change while requests are counted.
abbrev pub SameLimits : RateLimiter → RateLimiter → Type 0
SameLimits l m = (m.limit ≡ l.limit) × (m.window ≡ l.window)

-- What `allow` may do: open a window, refuse, or count.
data Answer (l : RateLimiter) (key : Str) (at : Time) : Bool × RateLimiter → Type 0 where
  opens :
      is_over l (window_of key l.clients) at ≡ true
      → Answer l key at (true, with_window l key (record { started = at; count = pos 1 }))
  refuses :
      is_over l (window_of key l.clients) at ≡ false
      → leb_ℤ l.limit (window_of key l.clients).count ≡ true
      → Answer l key at (false, l)
  counts :
      is_over l (window_of key l.clients) at ≡ false
      → leb_ℤ l.limit (window_of key l.clients).count ≡ false
      → Answer l key at (
        true,
        with_window l key (record (window_of key l.clients) {
          count = int64 ((window_of key l.clients).count +ℤ pos 1);
        }),
      )

answer : (l : RateLimiter) (key : Str) (at : Time) → Answer l key at (allow l key at)
unfolding allow
answer l key at = elim (Bool-cases (is_over l (window_of key l.clients) at)) [
  | inl h ↦ rw (h, allow) (opens h)
  | inr lasts ↦ elim (Bool-cases (leb_ℤ l.limit (window_of key l.clients).count)) [
    | inl h ↦ rw (lasts, h, allow) (refuses lasts h)
    | inr h ↦ rw (lasts, h, allow) (counts lasts h)
  ]
]

-- Another client's request leaves the window.
after_other :
    (l : RateLimiter) (key other : Str) (at start : Time) (c : ℕ) (x : Bool × RateLimiter)
    → str_eq other key ≡ false
    → HasWindow key start c l
    → Answer l other at x
    → HasWindow key start c x.1 × SameLimits l x.1
after_other l key other at start c _ apart h a = go a
  where
    stays : (w : ClientWindow) → HasWindow key start c (with_window l other w)
    stays w = rw (window_of-set_window other key w l.clients, apart) h

    go :
        {x : Bool × RateLimiter}
        → Answer l other at x
        → HasWindow key start c x.1 × SameLimits l x.1
    go (opens o) = (stays _, (refl, refl))
    go (refuses o f) = (h, (refl, refl))
    go (counts o f) = (stays _, (refl, refl))

-- A request of the client is let through while the window has room.
after_self :
    (l : RateLimiter) (key : Str) (at start : Time) (c : ℕ) (x : Bool × RateLimiter)
    → 0 < start
    → c < 9223372036854775807
    → Lasts l.window start at
    → HasWindow key start c l
    → Answer l key at x
    → (x.0 ≡ not (leb_ℤ l.limit (pos c)))
      × HasWindow key start (if leb_ℤ l.limit (pos c) then c else suc c) x.1
      × SameLimits l x.1
after_self l key at start c x begun small lasts h a = go a
  where
    still : is_over l (window_of key l.clients) at ≡ false
    still = rw h (ground arith)

    go :
        {x : Bool × RateLimiter}
        → Answer l key at x
        → (x.0 ≡ not (leb_ℤ l.limit (pos c)))
          × HasWindow key start (if leb_ℤ l.limit (pos c) then c else suc c) x.1
          × SameLimits l x.1
    go (opens o) = absurd (cc (o, still))
    go (refuses o f) =
        let full : leb_ℤ l.limit (pos c) ≡ true = rw h at f in rw full (refl, h, (refl, refl))
    go (counts o f) =
        let room : leb_ℤ l.limit (pos c) ≡ false = rw h at f in
        let one_more : int64 (pos c +ℤ pos 1) ≡ pos (suc c) =
          rw (pos_add c 1) (int64-pos (c + 1) (omega arith) ∙ ap pos (omega arith)) in
        rw room (
          refl,
          rw (window_of-set_window key key _ l.clients, str_eq_refl key, h)
              (ap (λ z. record { started = start; count = z }) one_more),
          (refl, refl),
        )

-- The requests of a client.
abbrev pub of_client : Str → Request → Bool
of_client key r = str_eq r.key key

room_step :
    (limit : ℤ) (c n m : ℕ)
    → leb_ℤ limit (pos c) ≡ false
    → n ≡ min m (capacity limit - suc c)
    → suc n ≡ min (suc m) (capacity limit - c)
room_step (pos k) c n m h e = ground arith
room_step (negsuc k) c n m h e = absurd (ground arith)

full_step : (limit : ℤ) (c : ℕ) → 1 ≤ c → leb_ℤ limit (pos c) ≡ true → capacity limit - c ≡ 0
full_step (pos k) c some h = ground arith
full_step (negsuc k) c some h = ground arith

-- While a client's window lasts, the limiter lets through as many of its requests as the window has
-- room for, whatever the other clients ask in between: the limit, and one at least, less those that
-- were let through before.
pub allowed_of-min :
    (key : Str) (start : Time) (rs : List Request) (l : RateLimiter) (c : ℕ)
    → 0 < start
    → 1 ≤ c
    → c + length rs < 9223372036854775807
    → All (λ (r : Request). Lasts l.window start r.at) rs
    → HasWindow key start c l
    → (allowed_of key l rs).0 ≡ min (count_if (of_client key) rs) (capacity l.limit - c)
unfolding allowed_of
allowed_of-min key start [] l c begun some small lasts h = omega arith
allowed_of-min key start (r ∷ rs) l c begun some small lasts h =
    elim (Bool-cases (str_eq r.key key)) [
      | inl mine ↦
          let same = str_eq→eq r.key key mine in
          let (verdict, counted, limits) =
            after_self l key r.at start c _ begun (omega arith) lasts.0 h (answer l key r.at) in
          elim (Bool-cases (leb_ℤ l.limit (pos c))) [
            | inl full ↦
                let rest =
                  allowed_of-min key start rs (allow l key r.at).1 c begun some (omega arith)
                    (rw (limits.1) lasts.1) (rw full at counted) in
                let no_room = full_step l.limit c some full in
                rw (same, str_eq_refl key, verdict, full) (rest ∙ rw (limits.0) (omega arith))
            | inr room ↦
                let rest =
                  allowed_of-min key start rs (allow l key r.at).1 (suc c) begun (omega arith)
                    (omega arith) (rw (limits.1) lasts.1) (rw room at counted) in
                rw (same, str_eq_refl key, verdict, room)
                  (room_step l.limit c _ _ room (rest ∙ rw (limits.0) refl))
          ]
      | inr other ↦
          let (counted, limits) =
            after_other l key r.key r.at start c _ other h (answer l r.key r.at) in
          rw other (
            allowed_of-min key start rs (allow l r.key r.at).1 c begun some (omega arith)
              (rw (limits.1) lasts.1) counted
            ∙ rw (limits.0) refl)
    ]
