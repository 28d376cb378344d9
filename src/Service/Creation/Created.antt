-- ===== src/Service/Creation/Created.antt =====
-- What `CreateRollout` leaves in the tables.
use edge_rollout_control_ser.Base.{
  ℕ, ◌≤◌, ◌==◌, ◌≡◌, refl, subst, false, not, List, [], ◌∷◌, ◌++◌, Str, bytes, length, All, Result,
  ok, err, arith,
}
use edge_rollout_control_ser.Base.Int.{pos, pos_part}
use edge_rollout_control_ser.Base.Time.{Time}
use edge_rollout_control_ser.Base.Floats.{Floats}
use edge_rollout_control_ser.Rollout.{Rollout, Target, draft}
use edge_rollout_control_ser.Device.{Device}
use edge_rollout_control_ser.Configuration
use edge_rollout_control_ser.Configuration.{Configuration, published}
use edge_rollout_control_ser.Store.{Error, Store}
use edge_rollout_control_ser.Store.Rows.{get_configuration}
use edge_rollout_control_ser.Service.{Env, World, pure, of_rollout, ◌>>=◌, ◌>>◌, audit, emit}
use edge_rollout_control_ser.Audit.{number}
use edge_rollout_control_ser.Service.Triples.{IsAside}
use edge_rollout_control_ser.Service.Creation.{
  CreateRolloutCommand, clamp_batch, new_rollout, make_targets, store_rollout, create_rollout,
  asked_size,
}
use edge_rollout_control_ser.Service.Creation.Resolving.{
  AreTargets, InTable, Same, Gives-resolve_targets,
}
use edge_rollout_control_ser.Service.Outcomes.{
  Ends, Gives, Gives-fact, Gives-bind, Gives-pure, Gives-query, Gives-before, Gives-refuse,
  Gives-now, Gives-new_id, Gives-audit, Gives-emit,
}
use edge_rollout_control_ser.Service.Creation.Storing.{
  Laid, Gives-store_rollout, Gives-make_targets, has_incompatible-false, AllowsModels,
  clamp_batch_bounds, AddedTo, IsNew, stored_rollout,
}

-- A rollout that was created: it is a draft, its configuration is published, its targets are live
-- devices of compatible models, each once, in the order of their ids, and its rows and theirs are
-- the only new ones.
pub record IsCreated {f : Floats} (before : Store f) (r : Rollout) (after : Store f) : Type 0 where
  pub configuration : Configuration
  pub was_read : get_configuration f before r.configuration_id ≡ ok configuration
  pub is_published : configuration.status ≡ published
  pub devices : List Device
  pub are_targets : AreTargets (InTable before) devices
  pub allowed : AllowsModels configuration.compatible_models devices
  pub not_empty : 1 ≤ length devices
  pub is_draft : r.status ≡ draft
  pub counted : r.target_count ≡ pos (length devices)
  pub size : ℕ
  pub is_size : r.batch_size ≡ pos size
  pub size_bounds : (1 ≤ size) × (size ≤ length devices)
  pub rows : List Target
  pub laid : Laid r 0 devices rows
  pub rollouts_after : after.rollouts ≡ before.rollouts ++ stored_rollout r ∷ []
  pub targets_after : after.targets ≡ before.targets ++ rows

-- A run creates a rollout, or fails and leaves the store as it was.
abbrev pub CreatesOrNot : {f : Floats} → Store f → Result Error Rollout × World f → Type 0
CreatesOrNot before (ok r, w) = IsCreated before r w.store
CreatesOrNot before (err x, w) = w.store ≡ before

module _ {f : Floats} (e : Env) (before : Store f) (c : CreateRolloutCommand) (actor : Str) where
  aside : (r : Rollout) (ts : List Target) → IsAside (AddedTo e before r ts)
  aside r ts = record { audits = λ s x i. i; delivers = λ s x i. i }

  is_published_of :
      (s : Configuration.Status) → not (Configuration.status_eq s published) ≡ false → s ≡ published
  is_published_of Configuration.Status.draft h = cc
  is_published_of Configuration.Status.published h = refl
  is_published_of Configuration.Status.deprecated h = cc

  not_none : (ds : List Device) → (length ds == 0) ≡ false → 1 ≤ length ds
  not_none [] h = cc
  not_none (d ∷ ds) h = omega arith

  -- The end: the rows are written, and the rollout announced.
  created :
      (configuration : Configuration)
      → get_configuration f before c.configuration_id ≡ ok configuration
      → configuration.status ≡ published
      → (ds : List Device) → AreTargets (InTable before) ds
      → AllowsModels configuration.compatible_models ds
      → 1 ≤ length ds
      → (id : Str) (at : Time) (ts : List Target)
      → Laid (new_rollout f e c actor (length ds) id at) 0 ds ts
      → (s : Store f) → AddedTo e before (new_rollout f e c actor (length ds) id at) ts s
      → IsCreated before (new_rollout f e c actor (length ds) id at) s
  created configuration read is_published ds are allows any id at ts laid s added =
      let bounds = clamp_batch_bounds (asked_size f e c (length ds)) (length ds) any in
      record {
        configuration = configuration;
        was_read = read;
        is_published = is_published;
        devices = ds;
        are_targets = are;
        allowed = allows;
        not_empty = any;
        is_draft = refl;
        counted = refl;
        size = pos_part (clamp_batch (asked_size f e c (length ds)) (length ds));
        is_size = bounds.0;
        size_bounds = (bounds.1, bounds.2);
        rows = ts;
        laid = laid;
        rollouts_after = added.0;
        targets_after = added.1;
      }

  -- From the entity to the answer.
  write_created :
      (configuration : Configuration)
      → get_configuration f before c.configuration_id ≡ ok configuration
      → configuration.status ≡ published
      → (ds : List Device) → AreTargets (InTable before) ds
      → AllowsModels configuration.compatible_models ds
      → 1 ≤ length ds
      → (at : Time) (id : Str)
      → let r = new_rollout f e c actor (length ds) id at in
        Gives
          (Same e before)
          (do
            ts ← make_targets f e r at 0 ds
            store_rollout f e r ts
            audit f e actor (bytes "rollout.created") (bytes "rollout") r.id (
                (bytes "target_count", number (pos (length ts)))
                ∷ (bytes "batch_size", number r.batch_size)
                ∷ [])
            emit f e (bytes "rollout.created") r.id (of_rollout r)
            pure r)
          (λ r s. IsCreated before r s)
          (Same e before)
  write_created configuration read is_published ds are allows any at id =
      let r = new_rollout f e c actor (length ds) id at in
      Gives-bind _ _ _ _ _ _ (Gives-make_targets e before r at 0 ds) λ ts.
        Gives-fact {F = Laid r 0 ds ts × All IsNew ts} _ _ _ _ (λ s i. (i.1, i.2))
          λ laid.
            Gives-before _ (Same e before) _ _ _ (λ s i. i.0)
              (Gives-bind _ _ _ _ _ _ (Gives-store_rollout e before r ts laid.1) λ u.
                Gives-bind _ _ _ _ _ _ (Gives-audit e _ _ _ _ _ _ _ (aside r ts)) λ v.
                  Gives-bind _ _ _ _ _ _ (Gives-emit e _ _ _ _ _ (aside r ts)) λ x.
                    Gives-pure _ _ _ r (λ s added.
                      created configuration read is_published ds are allows any id at ts laid.0 s
                        added))

  Gives-create_rollout :
      Gives
        (Same e before)
        (create_rollout f e c actor)
        (λ r s. IsCreated before r s)
        (Same e before)
  unfolding create_rollout
  Gives-create_rollout =
      Gives-refuse _ _ _ _ _ _ (λ s i. i)
        λ named. Gives-bind _ _ _ _ _ _ (Gives-query e _ _ _ (λ s i. i)) λ configuration.
          Gives-fact _ _ _ _
            (λ s i.
              subst (λ z. get_configuration f z c.configuration_id ≡ ok configuration) i.0 i.1)
            λ read.
              Gives-before _ (Same e before) _ _ _ (λ s i. i.0)
                (Gives-refuse _ _ _ _ _ _ (λ s i. i)
                  λ is_published.
                    Gives-bind _ _ _ _ _ _ (Gives-resolve_targets e before c.group_id c.device_ids)
                      λ ds.
                        Gives-fact _ _ _ _ (λ s i. i.1)
                          λ are.
                            Gives-before _ (Same e before) _ _ _ (λ s i. i.0)
                              (Gives-refuse _ _ _ _ _ _ (λ s i. i)
                                λ any.
                                  Gives-refuse _ _ _ _ _ _ (λ s i. i)
                                    λ compatible.
                                      Gives-refuse _ _ _ _ _ _ (λ s i. i)
                                        λ valid. Gives-bind _ _ _ _ _ _ (Gives-now e _ _) λ at.
                                          Gives-bind _ _ _ _ _ _ (Gives-new_id e _ _) λ id.
                                            Gives-refuse _ _ _ _ _ _ (λ s i. i)
                                              λ has_time.
                                                write_created configuration read
                                                  (is_published_of configuration.status
                                                    is_published)
                                                  ds are (has_incompatible-false _ ds compatible)
                                                  (not_none ds any) at id))

-- `CreateRollout` either returns an error and leaves every table as it was, or returns a draft of a
-- published configuration. Then the tables of rollouts and of targets have exactly its row and those
-- of its targets more: one target for each of some stored devices, which are not retired, have
-- different ids in growing order and models that the configuration allows, all of them pending. The
-- batch size is 1 at least and the number of the devices at most.
pub create_rollout-CreatesOrNot :
    (f : Floats) (e : Env) (c : CreateRolloutCommand) (actor : Str) (w : World f)
    → CreatesOrNot w.store (create_rollout f e c actor w)
create_rollout-CreatesOrNot f e c actor w =
    outcome (create_rollout f e c actor w) ((Gives-create_rollout e w.store c actor).ends w refl)
  where
    outcome :
        (x : Result Error Rollout × World f)
        → Ends (λ r s. IsCreated w.store r s) (Same e w.store) x
        → CreatesOrNot w.store x
    outcome (ok r, v) h = h
    outcome (err x, v) h = h
