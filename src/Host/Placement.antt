-- ===== src/Host/Placement.antt =====
-- The choice of a host for a new machine: getPlacementHost of internal/controlplane/hosts.go.
use fascinate.Base.{◌≡◌, refl, false, Option, none, some, List, [], ◌∷◌, ◌++◌, All, ap}
use fascinate.Base.Text.{Text}
use fascinate.Result.{Result, Error, ok, err, no_host, is_ok}
use fascinate.Database.Records.{World, HostRecord}
use fascinate.Database.Monad.{M, lift, gets, statement, ◌>>=◌}
use fascinate.Database.Hosts.{list_hosts}
use fascinate.Service.{Service}
use fascinate.Host.Capacity.{host_placement}

-- The error that is returned where no host is found: the first one met.
first_error : Option Error → Error → Option Error
first_error none e = some e
first_error (some e) _ = some e

-- The loop of getPlacementHost, with placementErr.
unfoldable pub pick_host :
    (HostRecord → Result (Unit {0})) → Option Error → List HostRecord → Result HostRecord
unfolding first_error
pick_host placement none [] = err no_host
pick_host placement (some e) [] = err e
pick_host placement seen (host ∷ hosts) = elim (placement host) [
  | ok _ ↦ ok host
  | err e ↦ pick_host placement (first_error seen e) hosts
]

-- getPlacementHost
unfoldable pub get_placement_host : Service → Text → Text → Text → M HostRecord
get_placement_host s cpu memory disk = do
  hosts ← list_hosts
  now ← gets λ w. w.now
  lift (pick_host (λ host. host_placement s now host cpu memory disk) none hosts)

module _ (placement : HostRecord → Result (Unit {0})) where
  abbrev pub Refused : HostRecord → Type 0
  Refused host = is_ok (placement host) ≡ false

  -- A choice: the first host that is eligible, or an error where none is.
  abbrev pub Chosen : List HostRecord → Result HostRecord → Type 0
  Chosen hosts (ok host) =
      (before : List HostRecord) × (after : List HostRecord) × (hosts ≡ before ++ (host ∷ after))
      × All Refused before
      × (placement host ≡ ok tt)
  Chosen hosts (err e) = All Refused hosts

  Chosen-later :
      (host : HostRecord) (hosts : List HostRecord) (q : Result HostRecord)
      → Refused host
      → Chosen hosts q
      → Chosen (host ∷ hosts) q
  Chosen-later host hosts (ok h) r (before, after, e, a, p) =
      (host ∷ before, after, ap (λ t. host ∷ t) e, (r, a), p)
  Chosen-later host hosts (err e) r a = (r, a)

  pick_host-Chosen :
      (seen : Option Error) (hosts : List HostRecord)
      → Chosen hosts (pick_host placement seen hosts)
  unfolding pick_host
  pick_host-Chosen none [] = tt
  pick_host-Chosen (some e) [] = tt
  pick_host-Chosen seen (host ∷ hosts) =
      step (placement host) refl (λ e. pick_host-Chosen (first_error seen e) hosts)
    where
      step :
          (q : Result (Unit {0}))
          → placement host ≡ q
          → ((e : Error) → Chosen hosts (pick_host placement (first_error seen e) hosts))
          → Chosen (host ∷ hosts) (elim q as (λ _. Result HostRecord) [
            | ok _ ↦ ok host
            | err e ↦ pick_host placement (first_error seen e) hosts
          ])
      step (ok x) h ih = ([], hosts, refl, tt, h)
      step (err e) h ih = Chosen-later host hosts _ (rw h) (ih e)

module _ (s : Service) where
  -- When the database does not fail, getPlacementHost answers with the first host of the list that
  -- hostPlacementErr passes, and with an error only if it refuses every host.
  pub get_placement_host-Chosen :
      (cpu memory disk : Text) (w : World)
      → w.faults ≡ []
      → Chosen
          (λ host. host_placement s w.now host cpu memory disk)
          w.hosts
          (get_placement_host s cpu memory disk w).0
  unfolding get_placement_host list_hosts statement
  get_placement_host-Chosen cpu memory disk w h =
      rw h (pick_host-Chosen (λ host. host_placement s w.now host cpu memory disk) none w.hosts)
