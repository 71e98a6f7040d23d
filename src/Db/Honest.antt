-- ===== src/Db/Honest.antt =====
-- exporter/db/db.go: AtLeast when some of its re-probes fail.
use pgxporter.Prelude.{
  ℕ, ◌+◌, ◌*◌, ◌≤◌, ◌<◌, String, ◌≡◌, refl, ap, ◌∙◌, ◌⊎◌, inl, inr, true, false, ◌&&◌, arith, ltb,
  Bool-cases,
}
use pgxporter.Prelude.Int.{ℤ, pos}
use pgxporter.Collectors.{Fetched, rows, failed}
use pgxporter.Db.{Client, is_zero, probe_server_version, reprobe, reaches, at_least}
use pgxporter.Db.Version.{is_zero-pos, reaches-order}

-- A re-probe is answered with the version or fails.
abbrev pub IsHonest : ℤ → Fetched ℤ → Type 0
IsHonest v a = (a ≡ rows v) ⊎ ((e : String) × (a ≡ failed e))

-- The client knows the version or none.
abbrev pub Agrees : ℤ → Client → Type 0
Agrees v c = (c.server_version_num ≡ v) ⊎ (c.server_version_num ≡ pos 0)

probe-Agrees :
    (v : ℤ) (a : Fetched ℤ) (c : Client)
    → IsHonest v a
    → Agrees v c
    → Agrees v (probe_server_version a c).0
unfolding probe_server_version
probe-Agrees v a c (inl e) g = elim (Bool-cases (is_zero c.server_version_num)) [
  | inl z ↦ rw (z, e) (inl refl)
  | inr z ↦ rw z g
]
probe-Agrees v a c (inr (x, e)) g = elim (Bool-cases (is_zero c.server_version_num)) [
  | inl z ↦ rw (z, e) g
  | inr z ↦ rw z g
]

pub reprobe-Agrees :
    (v : ℤ) (a : Fetched ℤ) (c : Client) → IsHonest v a → Agrees v c → Agrees v (reprobe a c)
unfolding reprobe
reprobe-Agrees v a c h g = elim (Bool-cases (is_zero c.server_version_num && c.has_pool)) [
  | inl e ↦ rw e (probe-Agrees v a c h g)
  | inr e ↦ rw e g
]

-- A server of version `major`.`minor`.
module _ (major minor : ℕ) where
  abbrev pub version : ℤ
  version = pos (major * 10000 + minor)

  pub at_least-Agrees :
      (a : Fetched ℤ) (c : Client) (m : ℕ)
      → IsHonest version a
      → Agrees version c
      → Agrees version (at_least a c (pos m) (pos 0)).0
  unfolding at_least
  at_least-Agrees a c m h g = reprobe-Agrees version a c h g

  module _ (major-pos : 0 < major) (minor-small : minor < 10000) where
    reaches-major : (m : ℕ) → m < 900 → reaches version (pos m) (pos 0) ≡ true → m ≤ major
    reaches-major m k h =
        elim ((reaches-order major minor m 0 major-pos minor-small (ground arith) (ground arith)).0
          h) [ inl l ↦ ground arith | inr (e, l) ↦ ground arith ]

    misses-major : (m : ℕ) → m < 900 → reaches version (pos m) (pos 0) ≡ false → major < m
    misses-major m k h =
        let order =
          reaches-order major minor m 0 major-pos minor-small (ground arith) (ground arith) in
        elim (Bool-cases (ltb major m)) [
          | inl l ↦ ground (arith, l)
          | inr l ↦ elim (Bool-cases (ltb m major)) [
            | inl b ↦ let t = order.1 (inl (ground (arith, b))) in absurd (ground (arith, t, h))
            | inr b ↦
                let t = order.1 (inr (ground (arith, b, l), ground arith)) in
                absurd (ground (arith, t, h))
          ]
        ]

    -- AtLeast(m, 0) is true only for a version that is, and then the client knows it.
    pub at_least-true :
        (a : Fetched ℤ) (c : Client) (m : ℕ)
        → m < 900
        → IsHonest version a
        → Agrees version c
        → (at_least a c (pos m) (pos 0)).1 ≡ true
        → (m ≤ major) × ((at_least a c (pos m) (pos 0)).0.server_version_num ≡ version)
    unfolding at_least reaches is_zero
    at_least-true a c m k h g t = elim (reprobe-Agrees version a c h g) [
      | inl e ↦ (reaches-major m k (rw e at t), e)
      | inr e ↦ absurd (unknown (rw e at t))
    ]
      where
        unknown : reaches (pos 0) (pos m) (pos 0) ≡ true → ⊥
        unknown h = cc h

    -- AtLeast(m, 0) of a client that knows the version is false only for a version that is below.
    pub at_least-false :
        (a : Fetched ℤ) (c : Client) (m : ℕ)
        → m < 900
        → c.server_version_num ≡ version
        → (at_least a c (pos m) (pos 0)).1 ≡ false
        → major < m
    unfolding at_least reprobe
    at_least-false a c m k e f =
        let z : is_zero c.server_version_num ≡ false =
          ap is_zero e ∙ is_zero-pos (major * 10000 + minor) (ground arith) in
        misses-major m k (rw (z, e) at f)
