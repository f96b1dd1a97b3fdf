-- ===== src/Host/Capacity.antt =====
-- What a host has to have for a new machine: hostPlacementErr and hostCapacityErr of
-- internal/controlplane/hosts.go.
use fascinate.Base.{
  ◌↔◌, ◌⊎◌, ◌⊎◌, ◌⊎◌, Bool, ℕ, ◌+◌, ◌^◌, ◌≤◌, ◌<◌, ◌≡◌, true, false, not, ◌&&◌, arith,
}
use fascinate.Base.Word.{◌-w◌, slt, sle, is_positive}
use fascinate.Base.Text.{Text}
use fascinate.Result.{
  Result, ok, ◌>>=◌, ◌>>◌, refuse_if, replace_error, host_inactive, host_stale, host_cpu,
  host_memory, host_disk, host_headroom, request_cpu, request_memory, request_disk,
}
use fascinate.Size.{parse_cpu_count, parse_byte_size}
use fascinate.Database.Records.{HostRecord}
use fascinate.Service.{Service}
use fascinate.Budget.Spec.{host_shared_cpu_ceiling, host_min_free_disk_bytes}
use fascinate.Budget.Check.{exceeds, host_heartbeat_fresh, is_active}

module _ (s : Service) where
  open s use {floats}
  open floats use {Float, of_int, add_float, lt_float, le_float}

  -- hostCapacityErr
  unfoldable pub host_capacity : HostRecord → Text → Text → Text → Result (Unit {0})
  host_capacity host cpu memory disk = do
    requested_cpu ← replace_error (parse_cpu_count floats cpu) (request_cpu cpu)
    refuse_if (le_float requested_cpu (of_int 0)) (request_cpu cpu)
    ceiling ← host_shared_cpu_ceiling s host.total_cpu
    refuse_if
        (lt_float (of_int 0) ceiling
          && lt_float ceiling (add_float (of_int host.allocated_cpu) requested_cpu))
        (host_cpu host.id)
    requested_memory ← replace_error (parse_byte_size floats memory) (request_memory memory)
    refuse_if (sle requested_memory 0) (request_memory memory)
    refuse_if (exceeds host.total_memory_bytes host.allocated_memory_bytes requested_memory)
        (host_memory host.id)
    requested_disk ← replace_error (parse_byte_size floats disk) (request_disk disk)
    refuse_if (sle requested_disk 0) (request_disk disk)
    refuse_if (exceeds host.total_disk_bytes host.allocated_disk_bytes requested_disk)
        (host_disk host.id)
    min_free ← host_min_free_disk_bytes s
    refuse_if
        (is_positive host.available_disk_bytes
          && slt (host.available_disk_bytes -w requested_disk) min_free)
        (host_headroom host.id)

  -- hostPlacementErr, at a time
  unfoldable pub host_placement : ℕ → HostRecord → Text → Text → Text → Result (Unit {0})
  host_placement now host cpu memory disk = do
    refuse_if (not (is_active s host)) (host_inactive host.id)
    refuse_if (not (host_heartbeat_fresh s now host)) (host_stale host.id)
    host_capacity host cpu memory disk

exceeds-le :
    (limit used requested : ℕ)
    → exceeds limit used requested ≡ false
    → used + requested < 2 ^ 63
    → 0 < limit
    → limit < 2 ^ 63
    → used + requested ≤ limit
unfolding exceeds
exceeds-le limit used requested h a b c = ground arith

le-exceeds :
    (limit used requested : ℕ)
    → used + requested ≤ limit
    → 0 < limit
    → limit < 2 ^ 63
    → exceeds limit used requested ≡ false
unfolding exceeds
le-exceeds limit used requested h b c = ground arith

-- The headroom check.
abbrev tight : ℕ → ℕ → ℕ → Bool
tight available requested min_free = is_positive available && slt (available -w requested) min_free

tight_room :
    (available requested min_free : ℕ)
    → tight available requested min_free ≡ false
    → available < 2 ^ 63
    → requested < 2 ^ 63
    → min_free < 2 ^ 63
    → (available ≡ 0) ⊎ (requested + min_free ≤ available)
tight_room available requested min_free h a b c = ground arith

room_tight :
    (available requested min_free : ℕ)
    → (available ≡ 0) ⊎ (requested + min_free ≤ available)
    → available < 2 ^ 63
    → requested < 2 ^ 63
    → min_free < 2 ^ 63
    → tight available requested min_free ≡ false
room_tight available requested min_free h a b c = ground arith

module _ (s : Service) where
  open s use {floats}
  open floats use {Float, of_int, add_float, lt_float, le_float}

  -- A host at a time, for a request of q processors, m bytes of memory and d bytes of disk, where c is
  -- the ceiling of its shared processors, which is none if it is not positive, and f the disk to be
  -- left free; a host that has not told its free disk is not asked for it.
  pub record HasRoom (now : ℕ) (host : HostRecord) (q : Float) (m d : ℕ) (c : Float) (f : ℕ)
      : Type 0 where
    pub active : is_active s host ≡ true
    pub fresh : host_heartbeat_fresh s now host ≡ true
    pub cpu_asked : le_float q (of_int 0) ≡ false
    pub cpu_room :
        (lt_float (of_int 0) c ≡ false)
        ⊎ (lt_float c (add_float (of_int host.allocated_cpu) q) ≡ false)
    pub memory_asked : 0 < m
    pub memory_room : host.allocated_memory_bytes + m ≤ host.total_memory_bytes
    pub disk_asked : 0 < d
    pub disk_room : host.allocated_disk_bytes + d ≤ host.total_disk_bytes
    pub headroom : (host.available_disk_bytes ≡ 0) ⊎ (d + f ≤ host.available_disk_bytes)

  module _ (now : ℕ) (host : HostRecord) (cpu memory disk : Text) (q : Float) (m d : ℕ) (c : Float)
      (f : ℕ) where
    -- What the request and the settings read as, and that no sum exceeds 63 bits.
    pub record Readable : Type 0 where
      pub cpu_read : parse_cpu_count floats cpu ≡ ok q
      pub memory_read : parse_byte_size floats memory ≡ ok m
      pub disk_read : parse_byte_size floats disk ≡ ok d
      pub ceiling_read : host_shared_cpu_ceiling s host.total_cpu ≡ ok c
      pub min_free_read : host_min_free_disk_bytes s ≡ ok f
      pub memory_sum : host.allocated_memory_bytes + m < 2 ^ 63
      pub disk_sum : host.allocated_disk_bytes + d < 2 ^ 63
      pub memory_total : 0 < host.total_memory_bytes
      pub memory_total_fits : host.total_memory_bytes < 2 ^ 63
      pub disk_total : 0 < host.total_disk_bytes
      pub disk_total_fits : host.total_disk_bytes < 2 ^ 63
      pub available_fits : host.available_disk_bytes < 2 ^ 63
      pub min_free_fits : f < 2 ^ 63

    passed-HasRoom :
        Readable → host_placement s now host cpu memory disk ≡ ok tt → HasRoom now host q m d c f
    unfolding host_placement host_capacity
    passed-HasRoom g h = record {
      active = ground (arith, h);
      fresh = ground (arith, h);
      cpu_asked = ground (arith, g, h);
      cpu_room = ground (arith, g, h);
      memory_asked = ground (arith, g, h);
      memory_room =
          exceeds-le host.total_memory_bytes host.allocated_memory_bytes m (ground (arith, g, h))
            g.memory_sum g.memory_total g.memory_total_fits;
      disk_asked = ground (arith, g, h);
      disk_room =
          exceeds-le host.total_disk_bytes host.allocated_disk_bytes d (ground (arith, g, h))
            g.disk_sum g.disk_total g.disk_total_fits;
      headroom =
          tight_room host.available_disk_bytes d f (ground (arith, g, h)) g.available_fits
            (ground (arith, g)) g.min_free_fits;
    }

    HasRoom-passed :
        Readable → HasRoom now host q m d c f → host_placement s now host cpu memory disk ≡ ok tt
    unfolding host_placement host_capacity
    HasRoom-passed g r = ground (
      arith,
      g,
      r,
      le-exceeds host.total_memory_bytes host.allocated_memory_bytes m r.memory_room g.memory_total
          g.memory_total_fits,
      le-exceeds host.total_disk_bytes host.allocated_disk_bytes d r.disk_room g.disk_total
          g.disk_total_fits,
      room_tight host.available_disk_bytes d f r.headroom g.available_fits,
    )

    -- Where the request and the settings can be read, the host has totals and no sum exceeds 63 bits,
    -- hostPlacementErr passes a host exactly if the host is active and has been seen lately, the
    -- requested processors, memory and disk are positive, they fit beside what is allocated there, the
    -- processors within the ceiling of shared ones if there is one, and the disk that is to be left
    -- free is left, if the host has told what is free.
    pub host_placement_fits :
        Readable → (host_placement s now host cpu memory disk ≡ ok tt) ↔ HasRoom now host q m d c f
    host_placement_fits g = (passed-HasRoom g, HasRoom-passed g)
