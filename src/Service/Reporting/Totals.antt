-- ===== src/Service/Reporting/Totals.antt =====
-- The numbers of the dashboard.
use edge_rollout_control_ser.Base.{
  ℕ, suc, ◌+◌, ◌≡◌, refl, ◌∙◌, Bool, true, false, List, [], ◌∷◌, length, count_if, Result, ok, err,
  arith, ◌||◌, if◌then◌else◌, ltb, Bool-cases, inl, inr,
}
use edge_rollout_control_ser.Base.Int.{pos}
use native.Mathlib.Numerals.{unary_clauses}
use edge_rollout_control_ser.Base.Time.{Time}
use edge_rollout_control_ser.Base.Floats.{Floats}
use edge_rollout_control_ser.Rollout
use edge_rollout_control_ser.Rollout.{Rollout, status_eq}
use edge_rollout_control_ser.Device
use edge_rollout_control_ser.Device.{Device}
use edge_rollout_control_ser.Receipt
use edge_rollout_control_ser.Receipt.{Receipt}
use edge_rollout_control_ser.Store.{Error, database}
use edge_rollout_control_ser.Store.Rows.{list_rollouts}
use edge_rollout_control_ser.Store.Listings.{list_devices, list_receipts}
use edge_rollout_control_ser.Service.{Env, World, ◌>>=◌, query, now, pure}
use edge_rollout_control_ser.Service.Reporting.{
  Dashboard, count_device, count_devices, count_rollout, count_rollouts, count_receipt,
  count_receipts, count_failed, is_failure, blank, summarize, any_device, any_rollout, receipts_of,
  build_dashboard,
}

abbrev pub has_status : Device.Status → Device → Bool
has_status s d = Device.status_eq d.status s

abbrev pub in_status : Rollout.Status → Rollout.Status → Bool
in_status s r = status_eq r s

abbrev pub is_active : Rollout.Status → Bool
is_active r =
    in_status Rollout.Status.running r
    || in_status Rollout.Status.scheduled r
    || in_status Rollout.Status.draft r

abbrev pub is_timeout : Receipt.Status → Bool
is_timeout Receipt.Status.timeout = true
is_timeout _ = false

abbrev pub is_failed : Receipt.Status → Bool
is_failed Receipt.Status.failed = true
is_failed _ = false

one_failed :
    (s : Receipt.Status) (x y n : ℕ)
    → x + y + (if is_failure s then suc n else n)
      ≡ (if is_timeout s then suc x else x) + (if is_failed s then suc y else y) + n
one_failed Receipt.Status.timeout x y n = omega arith
one_failed Receipt.Status.failed x y n = omega arith
one_failed Receipt.Status.succeeded x y n = refl
one_failed (Receipt.Status.other s) x y n = refl

-- The second loop over the receipts counts what the first counted as pending and as failed.
count_failed_adds :
    (rs : List Receipt) (n : ℕ)
    → count_failed rs n
      ≡ count_if (λ (r : Receipt). is_timeout r.status) rs
        + count_if (λ (r : Receipt). is_failed r.status) rs
        + n
unfolding count_failed
count_failed_adds [] n = omega arith
count_failed_adds (r ∷ rs) n = count_failed_adds rs _ ∙ one_failed r.status _ _ n

-- The dashboard as counts of the three lists.
abbrev pub totals : (f : Floats) → Time → List Device → List Rollout → List Receipt → Dashboard f
totals f at devices rollouts receipts =
    let timeouts = count_if (λ (r : Receipt). is_timeout r.status) receipts in
    let failures = count_if (λ (r : Receipt). is_failed r.status) receipts in
    record {
      generated_at = at;
      device_count = length devices;
      online_devices = count_if (has_status Device.Status.online) devices;
      offline_devices = count_if (has_status Device.Status.offline) devices;
      active_rollouts = count_if (λ (r : Rollout). is_active r.status) rollouts;
      paused_rollouts =
          count_if (λ (r : Rollout). in_status Rollout.Status.paused r.status) rollouts;
      completed_rollouts =
          count_if (λ (r : Rollout). in_status Rollout.Status.completed r.status) rollouts;
      pending_receipts = timeouts;
      failed_receipts = failures;
      failure_rate =
          if ltb 0 (length receipts)
          then f.ratio (pos (timeouts + failures)) (length receipts)
          else f.zero;
    }

module _ {f : Floats} where
  abbrev with_devices : ℕ → ℕ → Dashboard f → Dashboard f
  with_devices online offline b = record b { online_devices = online; offline_devices = offline }

  with_devices_eq :
      (m n p q : ℕ) (b : Dashboard f) → m ≡ p → n ≡ q → with_devices m n b ≡ with_devices p q b
  with_devices_eq m n p q b h k = rw (h, k) refl

  one_device :
      (d : Device) (x y : ℕ) (b : Dashboard f)
      → with_devices
          (x + (count_device d.status b).online_devices)
          (y + (count_device d.status b).offline_devices)
          (count_device d.status b)
        ≡ with_devices
            ((if has_status Device.Status.online d then suc x else x) + b.online_devices)
            ((if has_status Device.Status.offline d then suc y else y) + b.offline_devices)
            b
  one_device d x y b = by_status d.status
    where
      by_status :
          (s : Device.Status)
          → with_devices
              (x + (count_device s b).online_devices)
              (y + (count_device s b).offline_devices)
              (count_device s b)
            ≡ with_devices
                ((if Device.status_eq s Device.Status.online then suc x else x) + b.online_devices)
                ((if Device.status_eq s Device.Status.offline then suc y else y)
                  + b.offline_devices)
                b
      by_status Device.Status.online = with_devices_eq _ _ _ _ b (omega arith) refl
      by_status Device.Status.offline = with_devices_eq _ _ _ _ b refl (omega arith)
      by_status Device.Status.pending = refl
      by_status Device.Status.retired = refl

  count_devices_adds :
      (ds : List Device) (b : Dashboard f)
      → count_devices ds b
        ≡ with_devices
            (count_if (has_status Device.Status.online) ds + b.online_devices)
            (count_if (has_status Device.Status.offline) ds + b.offline_devices)
            b
  unfolding count_devices
  count_devices_adds [] b = with_devices_eq _ _ _ _ b (omega arith) (omega arith)
  count_devices_adds (d ∷ ds) b =
      count_devices_adds ds (count_device d.status b) ∙ one_device d _ _ b

  abbrev with_rollouts : ℕ → ℕ → ℕ → Dashboard f → Dashboard f
  with_rollouts active paused completed b = record b {
    active_rollouts = active;
    paused_rollouts = paused;
    completed_rollouts = completed;
  }

  with_rollouts_eq :
      (m n k p q r : ℕ) (b : Dashboard f)
      → m ≡ p
      → n ≡ q
      → k ≡ r
      → with_rollouts m n k b ≡ with_rollouts p q r b
  with_rollouts_eq m n k p q r b g h i = rw (g, h, i) refl

  one_rollout :
      (r : Rollout) (x y z : ℕ) (b : Dashboard f)
      → with_rollouts
          (x + (count_rollout r.status b).active_rollouts)
          (y + (count_rollout r.status b).paused_rollouts)
          (z + (count_rollout r.status b).completed_rollouts)
          (count_rollout r.status b)
        ≡ with_rollouts
            ((if is_active r.status then suc x else x) + b.active_rollouts)
            ((if in_status Rollout.Status.paused r.status then suc y else y) + b.paused_rollouts)
            ((if in_status Rollout.Status.completed r.status then suc z else z)
              + b.completed_rollouts)
            b
  one_rollout r x y z b = by_status r.status
    where
      by_status :
          (s : Rollout.Status)
          → with_rollouts
              (x + (count_rollout s b).active_rollouts)
              (y + (count_rollout s b).paused_rollouts)
              (z + (count_rollout s b).completed_rollouts)
              (count_rollout s b)
            ≡ with_rollouts
                ((if is_active s then suc x else x) + b.active_rollouts)
                ((if in_status Rollout.Status.paused s then suc y else y) + b.paused_rollouts)
                ((if in_status Rollout.Status.completed s then suc z else z) + b.completed_rollouts)
                b
      by_status Rollout.Status.running = with_rollouts_eq _ _ _ _ _ _ b (omega arith) refl refl
      by_status Rollout.Status.scheduled = with_rollouts_eq _ _ _ _ _ _ b (omega arith) refl refl
      by_status Rollout.Status.draft = with_rollouts_eq _ _ _ _ _ _ b (omega arith) refl refl
      by_status Rollout.Status.paused = with_rollouts_eq _ _ _ _ _ _ b refl (omega arith) refl
      by_status Rollout.Status.completed = with_rollouts_eq _ _ _ _ _ _ b refl refl (omega arith)
      by_status Rollout.Status.failed = refl
      by_status Rollout.Status.cancelled = refl
      by_status Rollout.Status.rolled_back = refl
      by_status Rollout.Status.rolling_back = refl

  count_rollouts_adds :
      (rs : List Rollout) (b : Dashboard f)
      → count_rollouts rs b
        ≡ with_rollouts
            (count_if (λ (r : Rollout). is_active r.status) rs + b.active_rollouts)
            (count_if (λ (r : Rollout). in_status Rollout.Status.paused r.status) rs
              + b.paused_rollouts)
            (count_if (λ (r : Rollout). in_status Rollout.Status.completed r.status) rs
              + b.completed_rollouts)
            b
  unfolding count_rollouts
  count_rollouts_adds [] b =
      with_rollouts_eq _ _ _ _ _ _ b (omega arith) (omega arith) (omega arith)
  count_rollouts_adds (r ∷ rs) b =
      count_rollouts_adds rs (count_rollout r.status b) ∙ one_rollout r _ _ _ b

  abbrev with_receipts : ℕ → ℕ → Dashboard f → Dashboard f
  with_receipts pending failed b = record b { pending_receipts = pending; failed_receipts = failed }

  with_receipts_eq :
      (m n p q : ℕ) (b : Dashboard f) → m ≡ p → n ≡ q → with_receipts m n b ≡ with_receipts p q b
  with_receipts_eq m n p q b h k = rw (h, k) refl

  one_receipt :
      (r : Receipt) (x y : ℕ) (b : Dashboard f)
      → with_receipts
          (x + (count_receipt r.status b).pending_receipts)
          (y + (count_receipt r.status b).failed_receipts)
          (count_receipt r.status b)
        ≡ with_receipts
            ((if is_timeout r.status then suc x else x) + b.pending_receipts)
            ((if is_failed r.status then suc y else y) + b.failed_receipts)
            b
  one_receipt r x y b = by_status r.status
    where
      by_status :
          (s : Receipt.Status)
          → with_receipts
              (x + (count_receipt s b).pending_receipts)
              (y + (count_receipt s b).failed_receipts)
              (count_receipt s b)
            ≡ with_receipts
                ((if is_timeout s then suc x else x) + b.pending_receipts)
                ((if is_failed s then suc y else y) + b.failed_receipts)
                b
      by_status Receipt.Status.timeout = with_receipts_eq _ _ _ _ b (omega arith) refl
      by_status Receipt.Status.failed = with_receipts_eq _ _ _ _ b refl (omega arith)
      by_status Receipt.Status.succeeded = refl
      by_status (Receipt.Status.other s) = refl

  count_receipts_adds :
      (rs : List Receipt) (b : Dashboard f)
      → count_receipts rs b
        ≡ with_receipts
            (count_if (λ (r : Receipt). is_timeout r.status) rs + b.pending_receipts)
            (count_if (λ (r : Receipt). is_failed r.status) rs + b.failed_receipts)
            b
  unfolding count_receipts
  count_receipts_adds [] b = with_receipts_eq _ _ _ _ b (omega arith) (omega arith)
  count_receipts_adds (r ∷ rs) b =
      count_receipts_adds rs (count_receipt r.status b) ∙ one_receipt r _ _ b

  counted :
      (at : Time) (ds : List Device) (rs : List Rollout) (xs : List Receipt)
      → count_receipts xs (count_rollouts rs (count_devices ds (blank at (length ds))))
        ≡ record (totals f at ds rs xs) { failure_rate = f.zero }
  counted at ds rs xs =
      let a = count_devices_adds ds (blank at (length ds)) in
      let b = count_rollouts_adds rs (count_devices ds (blank at (length ds))) in
      let c =
        count_receipts_adds xs (count_rollouts rs (count_devices ds (blank at (length ds)))) in
      rw (c, b, a) (simp unary_clauses refl)

  summarize-totals :
      (at : Time) (ds : List Device) (rs : List Rollout) (xs : List Receipt)
      → summarize at ds rs xs ≡ totals f at ds rs xs
  unfolding summarize
  summarize-totals at ds rs xs =
      let twice : count_failed xs 0
          ≡ count_if (λ (r : Receipt). is_timeout r.status) xs
            + count_if (λ (r : Receipt). is_failed r.status) xs =
        omega (arith, count_failed_adds xs 0) in
      rw (counted at ds rs xs, twice)
        (elim (Bool-cases (ltb 0 (length xs))) [
          | inl some_there ↦ rw some_there refl
          | inr none_there ↦ rw none_there refl
        ])

-- The dashboard of the tables, or the failure of one of the reads; the tables are as they were.
abbrev pub DashboardOf :
    (f : Floats) → Env → World f → Result Error (Dashboard f) × World f → Type 0
DashboardOf f e w (ok b, v) =
    (v.store ≡ w.store)
    × (b
        ≡ totals f (e.clock w.readings) (list_devices f e.like w.store any_device).0
            (list_rollouts f w.store any_rollout).0 (list_receipts f w.store (receipts_of [])).0)
DashboardOf f e w (err x, v) = (v.store ≡ w.store) × (x ≡ database)

-- `BuildDashboard` changes no table. It fails only if the database does; otherwise its numbers are
-- those of the devices, rollouts and receipts that are online, offline, active, paused, completed,
-- timed out and failed in the lists of at most a thousand that it reads, and its failure rate is the
-- share of the receipts that timed out or failed, zero without receipts.
pub build_dashboard-DashboardOf :
    (f : Floats) (e : Env) (w : World f) → DashboardOf f e w (build_dashboard f e w)
unfolding build_dashboard ◌>>=◌ query now pure
build_dashboard-DashboardOf f e w = elim (Bool-cases (e.fails w.calls)) [
  | inl h ↦ rw h (refl, refl)
  | inr h ↦ rw h (elim (Bool-cases (e.fails (suc w.calls))) [
    | inl k ↦ rw k (refl, refl)
    | inr k ↦ rw k (elim (Bool-cases (e.fails (suc (suc w.calls)))) [
      | inl l ↦ rw l (refl, refl)
      | inr l ↦ rw l (
        refl,
        summarize-totals _ (list_devices f e.like w.store any_device).0
            (list_rollouts f w.store any_rollout).0 (list_receipts f w.store (receipts_of [])).0,
      )
    ])
  ])
]
