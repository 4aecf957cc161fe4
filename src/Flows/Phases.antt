-- ===== src/Flows/Phases.antt =====
-- The order of init's steps, and its phases
use eks_hybrid.Base.{
  String, contains, ◌≡◌, refl, true, not, Option, List, [], ◌∷◌, All, Err, Result, ok, err,
}
use eks_hybrid.Machine.{World, Exec, continue, ◌>>=◌, when}
use eks_hybrid.Machine.Triple.{Keeps, Keeps-bind, Keeps-when}
use eks_hybrid.Flows.Init.{
  Daemon, NodeProvider, Initer, configure_each, run_each, init_daemons, region_config, run,
}
use eks_hybrid.Release.Defs.{RegionData}

module _ (P : World → Type 0) where
  -- the daemon's configuration keeps `P`; it is launched under no condition
  abbrev ConfigureKeeps : Daemon → Type 0
  ConfigureKeeps d = Keeps P d.configure

  abbrev LaunchKeeps : Daemon → Type 0
  LaunchKeeps d = Keeps P d.ensure_running × Keeps P d.post_launch

  Keeps-configure_each : (ds : List Daemon) → All ConfigureKeeps ds → Keeps P (configure_each ds)
  unfolding configure_each
  Keeps-configure_each [] a = record { at = λ w p. p }
  Keeps-configure_each (d ∷ ds) (k, a) = Keeps-bind _ _ k λ _. Keeps-configure_each ds a

  Keeps-run_each : (ds : List Daemon) → All LaunchKeeps ds → Keeps P (run_each ds)
  unfolding run_each
  Keeps-run_each [] a = record { at = λ w p. p }
  Keeps-run_each (d ∷ ds) ((k, l), a) =
      Keeps-bind _ _ k λ _. Keeps-bind _ _ l λ _. Keeps-run_each ds a

module _ {A B : Type 0} {P : World → Type 0} where
  Keeps-bind_value :
      (m : Exec A) (f : A → Exec B)
      → Keeps P m
      → ((w : World) (a : A) → (m w).0 ≡ ok a → Keeps P (f a))
      → Keeps P (m >>= f)
  unfolding ◌>>=◌
  Keeps-bind_value m f k s = record { at = λ w p. next (m w).0 (s w) (m w).1 (k.at w p) }
    where
      next :
          (r : Result A)
          → ((a : A) → r ≡ ok a → Keeps P (f a))
          → (w : World) → P w
          → P (continue r f w).1
      next (ok a) s w p = (s a refl).at w p
      next (err y) s w p = p

-- `m` fails from every state where `P` holds, and keeps `P`.
record Stops {A : Type 0} (P : World → Type 0) (m : Exec A) : Type 0 where
  at : (w : World) → P w → (e : Err) × ((m w).0 ≡ err e × P (m w).1)

module _ {A B : Type 0} {P : World → Type 0} where
  Stops-bind_first : (m : Exec A) (f : A → Exec B) → Stops P m → Stops P (m >>= f)
  unfolding ◌>>=◌
  Stops-bind_first m f s = record {
    at = λ w p. let (e, (r, q)) = s.at w p in stopped (m w).0 (m w).1 e r q;
  }
    where
      stopped :
          (r : Result A) (w : World) (e : Err)
          → r ≡ err e
          → P w
          → (x : Err) × ((continue r f w).0 ≡ err x × P (continue r f w).1)
      stopped (ok a) w e r q = cc
      stopped (err y) w e r q = (y, (refl, q))

  Stops-bind_next :
      (m : Exec A) (f : A → Exec B) → Keeps P m → ((a : A) → Stops P (f a)) → Stops P (m >>= f)
  unfolding ◌>>=◌
  Stops-bind_next m f k s = record { at = λ w p. next (m w).0 (m w).1 (k.at w p) }
    where
      next :
          (r : Result A) (w : World)
          → P w
          → (x : Err) × ((continue r f w).0 ≡ err x × P (continue r f w).1)
      next (ok a) w p = (s a).at w p
      next (err y) w p = (y, (refl, p))

module _ (P : World → Type 0) where
  -- When the run phase is skipped, and the preprocessing, the listing of the daemons and the
  -- configuration of each listed daemon keep a property of the world, so does the start of the
  -- daemons, whatever launching one would do.
  pub init_daemons-no_run :
      (provider : NodeProvider) (skip : List String)
      → contains skip "run" ≡ true
      → Keeps P provider.pre_process_daemon
      → Keeps P provider.daemons
      → ((w : World) (ds : List Daemon)
          → (provider.daemons w).0 ≡ ok ds
          → All (ConfigureKeeps P) ds)
      → (w : World) → P w
      → P (init_daemons provider skip w).1
  unfolding init_daemons
  init_daemons-no_run provider skip e pre list configure w p =
      (Keeps-bind _ _ (Keeps-when _ _ pre) λ _. Keeps-bind_value _ _ list λ v ds g.
          Keeps-bind _ _ (Keeps-when _ _ (Keeps-configure_each P ds (configure v ds g)))
            λ _. skipped ds).at
        w p
    where
      skipped : (ds : List Daemon) → Keeps P (when (not (contains skip "run")) (run_each ds))
      skipped ds = rw e (record { at = λ w p. p })

  -- When the steps up to the validation of the node keep a property of the world, and the validation
  -- fails, then init fails and the property still holds: no aspect and no daemon was reached.
  pub run-validation_failed :
      (i : Initer)
      → ((w : World) → P w → P (i.provider.populate_defaults w))
      → Keeps P i.provider.validate_config
      → Keeps P i.provider.configure_aws
      → Keeps P (region_config i)
      → ((r : Option RegionData) → Keeps P (i.provider.enrich r))
      → Keeps P i.provider.validate
      → ((w : World) → (e : Err) × ((i.provider.validate w).0 ≡ err e))
      → (w : World) → P w
      → (e : Err) × ((run i w).0 ≡ err e × P (run i w).1)
  unfolding run
  run-validation_failed i populate config aws region enrich validate fails w p = stops.at w p
    where
      stops : Stops P (run i)
      stops =
          Stops-bind_next _ _ (record { at = λ w p. populate w p })
            λ _. Stops-bind_next _ _ config λ _. Stops-bind_next _ _ aws λ _.
              Stops-bind_next _ _ (record { at = λ w p. region.at w p })
                λ r. Stops-bind_next _ _ (enrich r) λ _.
                  Stops-bind_first _ _
                    (record { at = λ w p. let (e, f) = fails w in (e, (f, validate.at w p)) })
