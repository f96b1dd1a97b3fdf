-- ===== src/Runtime/Network.antt =====
-- The choice of an uplink for the network namespace of a machine, in prepareNetworkMetadata of
-- internal/runtime/cloudhypervisor/network.go. Addresses are numbers.
use fascinate.Base.{
  ℕ, zero, suc, ◌+◌, ◌<◌, ◌≡◌, Bool, false, ◌||◌, Option, none, some, List, [], ◌∷◌, arith, ltb,
  ◌==◌, Bool-cases, inl, inr, if◌then◌else◌,
}

unfoldable pub is_used : ℕ → List ℕ → Bool
is_used a [] = false
is_used a (b ∷ rest) = b == a || is_used a rest

-- The loop: the host's and the namespace's address of the first block of four that lies below `limit`,
-- the end of the prefix, and whose host address is not used.
unfoldable pub free_uplink : ℕ → ℕ → List ℕ → ℕ → Option (ℕ × ℕ)
free_uplink zero limit used network = none
free_uplink (suc n) limit used network =
    let later = free_uplink n limit used (network + 4) in
    if ltb (network + 2) limit
    then (if is_used (network + 1) used then later else some (network + 1, network + 2))
    else none

-- prepareNetworkMetadata, at the addresses that are used and the start and the end of the prefix
unfoldable pub allocate_uplink : List ℕ → ℕ → ℕ → Option (ℕ × ℕ)
allocate_uplink used start limit = free_uplink 16384 limit used start

-- Addresses that are handed out are free and lie in the prefix, and the namespace's is the next one.
pub free_uplink_sound :
    (n limit : ℕ) (used : List ℕ) (network host peer : ℕ)
    → free_uplink n limit used network ≡ some (host, peer)
    → (is_used host used ≡ false) × ((peer ≡ host + 1) × ((network < host) × (peer < limit)))
unfolding free_uplink
free_uplink_sound zero limit used network host peer h = absurd (ground (arith, h))
free_uplink_sound (suc n) limit used network host peer h =
    elim (Bool-cases (ltb (network + 2) limit)) [
      | inr beyond ↦ absurd (ground arith)
      | inl within ↦ elim (Bool-cases (is_used (network + 1) used)) [
        | inr free ↦ (ground arith, (ground arith, (ground arith, ground arith)))
        | inl taken ↦
            let (a, (b, (c, d))) =
              free_uplink_sound n limit used (network + 4) host peer (ground arith) in
            (a, (b, (omega (arith, c), d)))
      ]
    ]
