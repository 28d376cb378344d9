-- ===== src/Service/Lifecycle/Operations.antt =====
-- Creating, publishing and deprecating a configuration, and what any operation that leaves the
-- configurations alone keeps.
use edge_rollout_control_ser.Base.{
  ◌≡◌, sym, true, false, not, Option, none, some, List, [], ◌∷◌, ◌++◌, Str, str_eq, str_eq→eq,
  Result, ok, arith,
}
use edge_rollout_control_ser.Base.Time.{Time}
use edge_rollout_control_ser.Base.Floats.{Floats}
use edge_rollout_control_ser.Configuration
use edge_rollout_control_ser.Configuration.{Configuration, status_tag, status_eq}
use edge_rollout_control_ser.Store.{Error, invalid_state, Store}
use edge_rollout_control_ser.Store.Rows.{get_configuration}
use edge_rollout_control_ser.Store.Creation
use edge_rollout_control_ser.Store.Creation.{update_configuration_status, with_status}
use edge_rollout_control_ser.Service.Catalog.{
  CreateConfigurationCommand, create_configuration, publish_configuration, deprecate_configuration,
}
use edge_rollout_control_ser.Service.Triples.{
  From-query_bind, From-refuse, From-bind, From-now, From-execute,
}
use edge_rollout_control_ser.Service.Keeps.{Keeps, keeping, Keeps-execute}
use edge_rollout_control_ser.Service.Keeps.Beside.{IsBeside, Keeps-check}
use edge_rollout_control_ser.Service.Keeps.Rollouts.{IsApart}
use edge_rollout_control_ser.Service.{Env, Run, now, execute, ◌>>=◌, refuse, query}
use edge_rollout_control_ser.Service.Lifecycle.{
  Edges, steps, Grown, stored_at, stored_at-append, stored_at-update_rows, LaterAt-set_if, set_at,
}

ok-inj : {a b : Configuration} → ◌≡◌ {A = Result Error Configuration} (ok a) (ok b) → a ≡ b
ok-inj h = cc

is_status :
    (c : Configuration) (s : Configuration.Status)
    → not (status_eq c.status s) ≡ false
    → c.status ≡ s
is_status c s h = ground arith

module _ {f : Floats} (edges : Edges) (old : List Configuration) where
  abbrev pub KeptFrom : Store f → Type 0
  KeptFrom s = Grown edges old s.configurations

  pub beside : IsBeside KeptFrom
  beside = record {
    aside = record { audits = λ s x i. i; delivers = λ s x i. i };
    devices = λ s x i. i;
    groups = λ s x i. i;
    rules = λ s x i. i;
    subscriptions = λ s x i. i;
    targets = λ s x i. i;
    receipts = λ s x i. i;
  }

  pub apart : IsApart KeptFrom
  apart = record { beside = beside; rollouts = λ s x i. i }

  -- The status of a configuration that was read.
  abbrev Found : Str → Configuration → Store f → Type 0
  Found id c s = KeptFrom s × (get_configuration f s id ≡ ok c)

  is_found :
      (id k : Str) (c d : Configuration) (s : Store f)
      → get_configuration f s id ≡ ok c
      → str_eq id k ≡ true
      → stored_at k s.configurations ≡ some d
      → c ≡ d
  unfolding get_configuration
  is_found id k c d s read same there = ok-inj (sym (rw (str_eq→eq id k same, there) at read))

  inserted :
      (c : Configuration) (s t : Store f)
      → ((k : Str) → edges k none c.status ≡ true)
      → KeptFrom s
      → Creation.create_configuration f s c ≡ ok t
      → KeptFrom t
  unfolding Creation.create_configuration
  inserted c s t new i h k =
      let rows : t.configurations ≡ s.configurations ++ c ∷ [] = ground arith in
      rw rows (stored_at-append edges k s.configurations c (stored_at k old) (new k) (i k))

  changed :
      (id : Str) (c : Configuration) (status : Configuration.Status) (at : Time) (s t : Store f)
      → ((k : Str) (a : Option Configuration.Status)
          → str_eq id k ≡ true
          → steps edges k a c.status ≡ true
          → steps edges k a status ≡ true)
      → Found id c s
      → Creation.update_configuration_status f s id status at ≡ ok t
      → KeptFrom t
  unfolding Creation.update_configuration_status
  changed id c status at s t up (i, read) h k =
      let rows : t.configurations ≡ set_at status at id k s.configurations = ground arith in
      rw (rows, stored_at-update_rows status at id k s.configurations)
        (LaterAt-set_if status at id k edges (stored_at k old) (stored_at k s.configurations) (i k)
          (λ d a same there before.
            up k a same (rw (← is_found id k c d s read same there) at before)))

  module _ (e : Env) where
    Keeps-insert :
        (c : Configuration)
        → ((k : Str) → edges k none c.status ≡ true)
        → Keeps KeptFrom (execute f e (λ s. Creation.create_configuration f s c))
    Keeps-insert c new = Keeps-execute e _ (λ s t i h. inserted c s t new i h)

    pub Keeps-create_configuration :
        (c : CreateConfigurationCommand) (actor : Str)
        → ((k : Str) → edges k none Configuration.draft ≡ true)
        → Keeps KeptFrom (create_configuration f e c actor)
    unfolding create_configuration
    Keeps-create_configuration c actor new =
        search (keeping, beside.aside, Keeps-insert, Keeps-check beside) depth 40

    -- A configuration is read, its status is tested and set, and the rest looks elsewhere.
    Keeps-advance :
        {A : Type 0} (id : Str) (before after : Configuration.Status)
        (rest : Configuration → Time → Run f A)
        → ((k : Str) (a : Option Configuration.Status)
            → str_eq id k ≡ true
            → steps edges k a before ≡ true
            → steps edges k a after ≡ true)
        → ((c : Configuration) (at : Time) → Keeps KeptFrom (rest c at))
        → Keeps KeptFrom (
            query f e (λ s. get_configuration f s id) >>= λ c.
            refuse (not (status_eq c.status before)) invalid_state >>= λ u. now f e >>= λ at.
            execute f e (λ s. Creation.update_configuration_status f s id after at) >>= λ v.
            rest c at)
    Keeps-advance id before after rest up ends = record {
      keeps =
          From-query_bind e KeptFrom KeptFrom _ _ (λ s i. i)
            λ c.
              From-refuse (Found id c) KeptFrom _ _ _ (λ s i. i.0)
                λ is_before.
                  From-bind (Found id c) (Found id c) KeptFrom _ _ (From-now e (Found id c))
                    (λ s i. i.0)
                    λ at.
                      From-bind (Found id c) KeptFrom KeptFrom _ _
                        (From-execute e (Found id c) KeptFrom _ (λ s i. i.0)
                          (λ s t i h.
                            changed id c after at s t
                              (λ k a same old.
                                up k a same (rw (is_status c before is_before) at old))
                              i h))
                        (λ s i. i) (λ v. (ends c at).keeps);
    }

    pub Keeps-publish_configuration :
        (id actor : Str)
        → ((k : Str) (a : Option Configuration.Status)
            → str_eq id k ≡ true
            → steps edges k a Configuration.draft ≡ true
            → steps edges k a Configuration.published ≡ true)
        → Keeps KeptFrom (publish_configuration f e id actor)
    unfolding publish_configuration
    Keeps-publish_configuration id actor up =
        Keeps-advance id Configuration.draft Configuration.published _ up
          (λ c at. search (keeping, beside.aside) depth 20)

    pub Keeps-deprecate_configuration :
        (id actor : Str)
        → ((k : Str) (a : Option Configuration.Status)
            → str_eq id k ≡ true
            → steps edges k a Configuration.published ≡ true
            → steps edges k a Configuration.deprecated ≡ true)
        → Keeps KeptFrom (deprecate_configuration f e id actor)
    unfolding deprecate_configuration
    Keeps-deprecate_configuration id actor up =
        Keeps-advance id Configuration.published Configuration.deprecated _ up
          (λ c at. search (keeping, beside.aside) depth 20)
