-- ===== src/Service/Pages/Filters.antt =====
-- What the filters of the listing calls ask for, as predicates on rows, and that the statements'
-- conditions decide them.
use edge_rollout_control_ser.Base.{
  ◌≡◌, ◌⊎◌, refl, Bool, true, false, ◌||◌, ◌&&◌, Option, none, some, [], ◌∷◌, Str, is_empty, str_eq,
  str_eq→eq, str_eq_refl, Bool-cases, inl, inr, arith,
}
use edge_rollout_control_ser.Base.Floats.{Floats}
use edge_rollout_control_ser.Device
use edge_rollout_control_ser.Device.{Device}
use edge_rollout_control_ser.Configuration
use edge_rollout_control_ser.Configuration.{Configuration}
use edge_rollout_control_ser.Rule.{Rule}
use edge_rollout_control_ser.Receipt.{Receipt}
use edge_rollout_control_ser.Audit
use edge_rollout_control_ser.Store.Rows.{is_text}
use edge_rollout_control_ser.Store.Listings.{
  DeviceFilter, ConfigurationFilter, RuleFilter, ReceiptFilter, AuditFilter, anywhere,
  is_device_status, is_configuration_status, is_enabled, matches_query, matches_name,
}

-- A value that is asked for, or none.
abbrev pub Asked : {A : Type 0} → Option A → A → Type 0
Asked none a = Unit
Asked (some s) a = a ≡ s

-- A text that is asked for, or the empty one.
abbrev pub AskedText : Str → Str → Type 0
AskedText wanted column = (wanted ≡ []) ⊎ (column ≡ wanted)

-- A text that the name or the id is like, or the empty one.
abbrev pub AskedQuery : (Str → Str → Bool) → Str → Device → Type 0
AskedQuery like query d =
    ((query ≡ []) ⊎ (like d.name (anywhere query) ≡ true)) ⊎ (like d.id (anywhere query) ≡ true)

abbrev pub AsksDevice : (Str → Str → Bool) → DeviceFilter → Device → Type 0
AsksDevice like q d =
    (Asked q.status d.status × AskedText q.hardware_model d.hardware_model)
    × AskedQuery like q.query d

abbrev pub AsksConfiguration : (Str → Str → Bool) → ConfigurationFilter → Configuration → Type 0
AsksConfiguration like q c =
    Asked q.status c.status × ((q.name ≡ []) ⊎ (like c.name (anywhere q.name) ≡ true))

abbrev pub AsksRule : {f : Floats} → RuleFilter → Rule f → Type 0
AsksRule q r = Asked q.enabled r.enabled

abbrev pub AsksReceipt : ReceiptFilter → Receipt → Type 0
AsksReceipt q r = AskedText q.rollout_id r.rollout_id × AskedText q.device_id r.device_id

abbrev pub AsksAudit : AuditFilter → Audit.Event → Type 0
AsksAudit q x =
    (AskedText q.actor x.actor × AskedText q.resource_type x.resource_type)
    × AskedText q.resource_id x.resource_id

-- A test decides a predicate.
pub record Decides (b : Bool) (P : Type 0) : Type 0 where
  pub yes : b ≡ true → P
  pub no : b ≡ false → ¬ P

module _ {a b : Bool} {P Q : Type 0} (p : Decides a P) (q : Decides b Q) where
  Decides-and : Decides (a && b) (P × Q)
  Decides-and = record {
    yes = λ h. (p.yes (ground arith), q.yes (ground arith));
    no = λ h x. elim (Bool-cases a) [ inl on ↦ q.no (rw on at h) x.1 | inr off ↦ p.no off x.0 ];
  }

  Decides-or : Decides (a || b) (P ⊎ Q)
  Decides-or = record {
    yes =
        λ h. elim (Bool-cases a) [ inl on ↦ inl (p.yes on) | inr off ↦ inr (q.yes (rw off at h)) ];
    no = λ h x. elim x [ inl y ↦ p.no (ground arith) y | inr y ↦ q.no (ground arith) y ];
  }

itself : (b : Bool) → Decides b (b ≡ true)
itself b = record { yes = λ h. h; no = λ h k. absurd cc }

Decides-is_empty : (s : Str) → Decides (is_empty s) (s ≡ [])
Decides-is_empty [] = record { yes = λ h. refl; no = λ h k. absurd cc }
Decides-is_empty (x ∷ s) = record { yes = λ h. absurd cc; no = λ h k. absurd cc }

Decides-str_eq : (s t : Str) → Decides (str_eq s t) (s ≡ t)
Decides-str_eq s t = record {
  yes = str_eq→eq s t;
  no = λ h k. absurd (cc (rw k at h, str_eq_refl t));
}

Decides-is_text : (wanted column : Str) → Decides (is_text wanted column) (AskedText wanted column)
Decides-is_text wanted column = Decides-or (Decides-is_empty wanted) (Decides-str_eq column wanted)

Decides-device_status :
    (o : Option Device.Status) (d : Device) → Decides (is_device_status o d) (Asked o d.status)
Decides-device_status none d = record { yes = λ h. tt; no = λ h k. absurd cc }
Decides-device_status (some s) d = record { yes = λ h. ground arith; no = λ h k. ground arith }

Decides-configuration_status :
    (o : Option Configuration.Status) (c : Configuration)
    → Decides (is_configuration_status o c) (Asked o c.status)
Decides-configuration_status none c = record { yes = λ h. tt; no = λ h k. absurd cc }
Decides-configuration_status (some s) c = record {
  yes = λ h. ground arith;
  no = λ h k. ground arith;
}

pub Decides-is_enabled :
    (o : Option Bool) (column : Bool) → Decides (is_enabled o column) (Asked o column)
Decides-is_enabled none column = record { yes = λ h. tt; no = λ h k. absurd cc }
Decides-is_enabled (some true) column = itself column
Decides-is_enabled (some false) column = record {
  yes = λ h. ground arith;
  no = λ h k. ground arith;
}

Decides-matches_query :
    (like : Str → Str → Bool) (query : Str) (d : Device)
    → Decides (matches_query like query d) (AskedQuery like query d)
Decides-matches_query like query d =
    Decides-or (Decides-or (Decides-is_empty query) (itself (like d.name (anywhere query))))
      (itself (like d.id (anywhere query)))

pub Decides-device :
    (like : Str → Str → Bool) (q : DeviceFilter) (d : Device)
    → Decides
        (is_device_status q.status d
          && is_text q.hardware_model d.hardware_model
          && matches_query like q.query d)
        (AsksDevice like q d)
Decides-device like q d =
    Decides-and
      (Decides-and (Decides-device_status q.status d)
        (Decides-is_text q.hardware_model d.hardware_model))
      (Decides-matches_query like q.query d)

pub Decides-configuration :
    (like : Str → Str → Bool) (q : ConfigurationFilter) (c : Configuration)
    → Decides
        (is_configuration_status q.status c && matches_name like q.name c)
        (AsksConfiguration like q c)
Decides-configuration like q c =
    Decides-and (Decides-configuration_status q.status c)
      (Decides-or (Decides-is_empty q.name) (itself (like c.name (anywhere q.name))))

pub Decides-receipt :
    (q : ReceiptFilter) (r : Receipt)
    → Decides
        (is_text q.rollout_id r.rollout_id && is_text q.device_id r.device_id)
        (AsksReceipt q r)
Decides-receipt q r =
    Decides-and (Decides-is_text q.rollout_id r.rollout_id)
      (Decides-is_text q.device_id r.device_id)

pub Decides-audit :
    (q : AuditFilter) (x : Audit.Event)
    → Decides
        (is_text q.actor x.actor
          && is_text q.resource_type x.resource_type
          && is_text q.resource_id x.resource_id)
        (AsksAudit q x)
Decides-audit q x =
    Decides-and
      (Decides-and (Decides-is_text q.actor x.actor)
        (Decides-is_text q.resource_type x.resource_type))
      (Decides-is_text q.resource_id x.resource_id)
