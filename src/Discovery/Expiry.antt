-- ===== src/Discovery/Expiry.antt =====
-- core/discovery.go: when an announced profile expires.
use agent_semantic_protocol.Common.{ℕ, ◌+◌, ◌*◌, ◌^◌, ◌<◌, ◌≤◌, ◌≡◌, ◌↔◌, true, false, arith}
use agent_semantic_protocol.Common.Int64.{ℤ, pos, negsuc, uint64, int64}
use agent_semantic_protocol.Discovery.{
  Time, AgentProfile, RegistryEntry, seconds, expiry, is_expired,
}

abbrev pub entry : AgentProfile → Time → ℤ → RegistryEntry
entry profile now ttl = record { profile = profile; expires_at = expiry now ttl }

-- A profile that is announced at a time other than zero for `ttl` seconds, at most nine thousand
-- million, is expired exactly when more than `ttl` seconds have passed.
pub is_expired_iff :
    (profile : AgentProfile) (now later ttl : ℕ)
    → 0 < now
    → 0 < ttl
    → ttl ≤ 9000000000
    → (is_expired later (entry profile now (pos ttl)) ≡ true) ↔ (now + ttl * 1000000000 < later)
unfolding is_expired expiry seconds uint64 int64
is_expired_iff profile now later ttl hn ht hm = (ground arith, ground arith)

-- With a time to live of zero or less a profile never expires.
pub never_expires :
    (profile : AgentProfile) (now later n : ℕ)
    → (is_expired later (entry profile now (pos 0)) ≡ false)
      × (is_expired later (entry profile now (negsuc n)) ≡ false)
unfolding is_expired expiry
never_expires profile now later n = (ground arith, ground arith)

-- From 9223372037 to 18446744073 seconds the duration wraps to a negative one: a profile is
-- expired from the moment of its announcement on, at any time past the first 300 years.
pub long_ttl_expired :
    (profile : AgentProfile) (now later ttl : ℕ)
    → 2 ^ 63 < now
    → now ≤ later
    → 9223372037 ≤ ttl
    → ttl ≤ 18446744073
    → is_expired later (entry profile now (pos ttl)) ≡ true
unfolding is_expired expiry seconds uint64 int64
long_ttl_expired profile now later ttl hn hl lo hi = ground arith
