-- ===== src/Db/Version.antt =====
-- exporter/db/db.go: AtLeast and probeServerVersion.
use pgxporter.Prelude.{
  ℕ, suc, zero, ◌+◌, ◌*◌, ◌≤◌, ◌<◌, ◌≡◌, refl, ap, ◌∙◌, ◌⊎◌, inl, inr, ◌↔◌, true, false, arith,
}
use pgxporter.Prelude.Int.{ℤ, pos, ◌+ℤ◌, ◌*ℤ◌, to_int64}
use pgxporter.Collectors.{Fetched, rows}
use pgxporter.Db.{Client, is_zero, probe_server_version, reprobe, reaches, at_least}

-- The client knows the version, or can ask for it and is answered.
abbrev pub Knows : Fetched ℤ → Client → ℤ → Type 0
Knows answer c v =
    (c.server_version_num ≡ v)
    ⊎ ((c.server_version_num ≡ pos 0) × (c.has_pool ≡ true) × (answer ≡ rows v))

reprobe-known :
    (answer : Fetched ℤ) (c : Client) → is_zero c.server_version_num ≡ false → reprobe answer c ≡ c
unfolding reprobe
reprobe-known answer c h = rw h refl

reprobe-unknown :
    (v : ℤ) (c : Client)
    → is_zero c.server_version_num ≡ true
    → c.has_pool ≡ true
    → (reprobe (rows v) c).server_version_num ≡ v
unfolding reprobe probe_server_version
reprobe-unknown v c h p = rw (h, p) refl

reprobe-Knows :
    (answer : Fetched ℤ) (c : Client) (v : ℤ)
    → is_zero v ≡ false
    → Knows answer c v
    → (reprobe answer c).server_version_num ≡ v
unfolding is_zero
reprobe-Knows answer c v n (inl e) =
    ap (λ (d : Client). d.server_version_num) (reprobe-known answer c (ap is_zero e ∙ n)) ∙ e
reprobe-Knows answer c v n (inr (e, p, a)) = rw a (reprobe-unknown v c (ap is_zero e) p)

encoded :
    (major minor : ℕ)
    → major < 900000000000000
    → minor < 10000
    → to_int64 (pos major *ℤ pos 10000 +ℤ pos minor) ≡ pos (major * 10000 + minor)
unfolding to_int64 ◌+ℤ◌ ◌*ℤ◌
encoded major minor h k = ground arith

pub is_zero-pos : (n : ℕ) → 0 < n → is_zero (pos n) ≡ false
unfolding is_zero
is_zero-pos zero h = ground arith
is_zero-pos (suc n) h = refl

pub reaches-order :
    (sm sn major minor : ℕ)
    → 0 < sm
    → sn < 10000
    → minor < 10000
    → major < 900000000000000
    → reaches (pos (sm * 10000 + sn)) (pos major) (pos minor) ≡ true
      ↔ (major < sm) ⊎ ((major ≡ sm) × (minor ≤ sn))
unfolding reaches
reaches-order sm sn major minor p q r b =
    rw (encoded major minor b r, is_zero-pos (sm * 10000 + sn) (ground arith))
      (λ h. ground arith, λ h. ground arith)

-- For a client that knows the version of its server, or that does not, has a pool and is answered
-- by the server, AtLeast(major, minor) is true exactly if the version is at least major.minor in
-- the order by major, then minor, given that the server's major is positive, that both minors are
-- below 10000, and that major is below 9 * 10 ^ 14.
pub at_least-order :
    (answer : Fetched ℤ) (c : Client) (server_major server_minor major minor : ℕ)
    → Knows answer c (pos (server_major * 10000 + server_minor))
    → 0 < server_major
    → server_minor < 10000
    → minor < 10000
    → major < 900000000000000
    → (at_least answer c (pos major) (pos minor)).1 ≡ true
      ↔ (major < server_major) ⊎ ((major ≡ server_major) × (minor ≤ server_minor))
unfolding at_least
at_least-order answer c sm sn major minor k p q r b =
    rw (reprobe-Knows answer c (pos (sm * 10000 + sn)) (is_zero-pos _ (ground arith)) k)
      (reaches-order sm sn major minor p q r b)
