-- ===== src/System/Settings.antt =====
-- internal/config/config.go: the settings of the process. What the operating system and the YAML
-- decoder do is outside: reading the file, decoding it over the defaults, the environment, and
-- `time.ParseDuration`.
use edge_rollout_control_ser.Base.{
  ◌*◌, ◌≡◌, subst, false, not, ◌||◌, Option, none, some, Str, bytes, is_empty, str_eq, str_eq→eq,
  if◌then◌else◌, Result, ok, err, ◌>>=◌, Bool-cases, Result-cases, inl, inr, arith,
}
use edge_rollout_control_ser.Base.Int.{ℤ, pos, leb_ℤ, ◌≤ℤ◌}
use edge_rollout_control_ser.Base.Time.{second}
use edge_rollout_control_ser.Device.Version.{atoi}

pub record Settings : Type 0 where
  pub address : Str
  pub read_timeout : ℤ
  pub write_timeout : ℤ
  pub idle_timeout : ℤ
  pub body_limit : ℤ
  pub driver : Str
  pub dsn : Str
  pub scheduler_interval : ℤ
  pub webhook_interval : ℤ
  pub receipt_timeout : ℤ
  pub webhook_max_attempts : ℤ
  pub log_level : Str

pub data Error : Type 0 where
  read_config decode_config address_required unsupported_driver dsn_required : Error
  intervals_not_positive : Error

-- A file that is missing, that cannot be read, or its text.
pub data File : Type 0 where
  missing unreadable : File
  contents : Str → File

pub record Host : Type 0 where
  pub read_file : Str → File
  pub decode : Str → Settings → Option Settings
  pub getenv : Str → Str
  pub parse_duration : Str → Option ℤ

unfoldable pub default_settings : Settings
default_settings = record {
  address = bytes ":8080";
  read_timeout = pos (10 * second);
  write_timeout = pos (20 * second);
  idle_timeout = pos (60 * second);
  body_limit = pos 2097152;
  driver = bytes "sqlite";
  dsn = bytes "data/edge-rollout.db";
  scheduler_interval = pos second;
  webhook_interval = pos (2 * second);
  receipt_timeout = pos (30 * second);
  webhook_max_attempts = pos 8;
  log_level = bytes "info";
}

unfoldable pub validate : Settings → Result Error (Unit {0})
unfolding str_eq
validate c =
    if is_empty c.address
    then err address_required
    else if not (str_eq c.driver (bytes "sqlite"))
    then err unsupported_driver
    else if is_empty c.dsn
    then err dsn_required
    else if leb_ℤ c.scheduler_interval (pos 0) || leb_ℤ c.webhook_interval (pos 0)
    then err intervals_not_positive
    else ok tt

module _ (h : Host) where
  abbrev pub string_override : Str → Str → Str
  string_override key target = if is_empty (h.getenv key) then target else h.getenv key

  abbrev pub or_old : Option ℤ → ℤ → ℤ
  or_old none target = target
  or_old (some v) target = v

  -- A text that is no duration changes nothing.
  abbrev pub duration_override : Str → ℤ → ℤ
  duration_override key target =
      if is_empty (h.getenv key) then target else or_old (h.parse_duration (h.getenv key)) target

  abbrev pub int_override : Str → ℤ → ℤ
  int_override key target =
      if is_empty (h.getenv key) then target else or_old (atoi (h.getenv key)) target

  unfoldable pub apply_environment : Settings → Settings
  unfolding atoi
  apply_environment c = record c {
    address = string_override (bytes "SERVER_ADDR") c.address;
    driver = string_override (bytes "DATABASE_DRIVER") c.driver;
    dsn = string_override (bytes "DATABASE_DSN") c.dsn;
    log_level = string_override (bytes "LOG_LEVEL") c.log_level;
    read_timeout = duration_override (bytes "SERVER_READ_TIMEOUT") c.read_timeout;
    write_timeout = duration_override (bytes "SERVER_WRITE_TIMEOUT") c.write_timeout;
    scheduler_interval = duration_override (bytes "WORKER_SCHEDULER_INTERVAL") c.scheduler_interval;
    webhook_interval = duration_override (bytes "WORKER_WEBHOOK_INTERVAL") c.webhook_interval;
    receipt_timeout = duration_override (bytes "WORKER_RECEIPT_TIMEOUT") c.receipt_timeout;
    webhook_max_attempts = int_override (bytes "WEBHOOK_MAX_ATTEMPTS") c.webhook_max_attempts;
  }

  abbrev pub decoded : Option Settings → Result Error Settings
  decoded none = err decode_config
  decoded (some c) = ok c

  -- The file's settings over the defaults; no path, no file and an empty file leave the defaults.
  abbrev pub from_file : File → Result Error Settings
  from_file missing = ok default_settings
  from_file unreadable = err read_config
  from_file (contents text) =
      if is_empty text then ok default_settings else decoded (h.decode text default_settings)

  abbrev pub checked : Settings → Result Error Settings
  checked c = validate c >>= λ u. ok c

  unfoldable pub load : Str → Result Error Settings
  unfolding default_settings apply_environment validate
  load path = do
    c ← (if is_empty path then ok default_settings else from_file (h.read_file path))
    checked (apply_environment c)

-- Settings with which the process may start.
pub record IsRunnable (c : Settings) : Type 0 where
  pub has_address : is_empty c.address ≡ false
  pub is_sqlite : c.driver ≡ bytes "sqlite"
  pub has_dsn : is_empty c.dsn ≡ false
  pub schedules : pos 1 ≤ℤ c.scheduler_interval
  pub delivers : pos 1 ≤ℤ c.webhook_interval

validate-IsRunnable : (c : Settings) → validate c ≡ ok tt → IsRunnable c
unfolding validate
validate-IsRunnable c h = elim (Bool-cases (str_eq c.driver (bytes "sqlite"))) [
  | inl same ↦ record {
    has_address = ground arith;
    is_sqlite = str_eq→eq c.driver (bytes "sqlite") same;
    has_dsn = ground arith;
    schedules = ground arith;
    delivers = ground arith;
  }
  | inr other ↦ absurd (ground arith)
]

ok-inj : {a b : Settings} → ◌≡◌ {A = Result Error Settings} (ok a) (ok b) → a ≡ b
ok-inj h = cc

checked-IsRunnable : (h : Host) (b c : Settings) → checked h b ≡ ok c → IsRunnable c
checked-IsRunnable h b c e = elim (Result-cases (validate b)) [
  | inl (u, good) ↦ subst IsRunnable (ok-inj (rw good at e)) (validate-IsRunnable b good)
  | inr (x, bad) ↦ absurd (cc (rw bad at e))
]

-- Settings that `Load` returns have an address, the driver sqlite, a data source and positive
-- intervals of the two workers, whatever the file and the environment say.
pub load-IsRunnable : (h : Host) (path : Str) (c : Settings) → load h path ≡ ok c → IsRunnable c
unfolding load
load-IsRunnable h path c e = from_base _ e
  where
    from_base :
        (base : Result Error Settings)
        → (base >>= λ b. checked h (apply_environment h b)) ≡ ok c
        → IsRunnable c
    from_base (ok b) k = checked-IsRunnable h (apply_environment h b) c k
    from_base (err x) k = absurd (cc k)
