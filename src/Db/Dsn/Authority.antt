-- ===== src/Db/Dsn/Authority.antt =====
-- exporter/db/dsn.go: the part of the URI before its query.
use pgxporter.Prelude.{
  ℕ, ◌≡◌, ◌≢◌, refl, inl, inr, true, false, none, some, Option, [], ◌∷◌, ◌++◌, map, append_assoc,
  All, All-append, All-weaken, arith, if◌then◌else◌, Bool-cases,
}
use pgxporter.Prelude.Bytes.{Bytes, is_empty, Lacks}
use pgxporter.Prelude.Url.{
  is_delimiter, query_escape, unescape, read_back, IsByte, IsSafe, query_escape-IsSafe, safe-Lacks,
}
use pgxporter.Prelude.Uri.{userinfo_of, userinfo_of-user, userinfo_of-password}
use pgxporter.Db.Dsn.{DsnOpts, itoa}
use pgxporter.Db.Dsn.Reads.{Reads-append, Reads-query_escape, Reads-literal, Reads-all}
use pgxporter.Db.Dsn.Words.{IsPlain, itoa-IsPlain}

abbrev pub userinfo : DsnOpts → Bytes
userinfo o =
    if is_empty o.password
    then query_escape o.user
    else query_escape o.user ++ b':' ∷ query_escape o.password

abbrev pub authority : DsnOpts → Bytes
authority o = userinfo o ++ b'@' ∷ (o.host ++ b':' ∷ itoa o.port)

abbrev pub hierarchy : DsnOpts → Bytes
hierarchy o = b'/' ∷ b'/' ∷ (authority o ++ b'/' ∷ query_escape o.database)

pub regroup :
    (info host port database query : Bytes)
    → (info ++ b'@' ∷ (host ++ b':' ∷ (port ++ b'/' ∷ database))) ++ b'?' ∷ query
      ≡ ((info ++ b'@' ∷ (host ++ b':' ∷ port)) ++ b'/' ∷ database) ++ b'?' ∷ query
regroup info host port database query = simp append_assoc

plain-IsSafe : (c : ℕ) → IsPlain c → IsSafe c
plain-IsSafe c h = ground (arith, h)

module _ (s : Bytes) (h : All IsByte s) where
  pub unescape-query_escape : unescape (query_escape s) ≡ some (map (read_back false) s)
  unescape-query_escape =
      Reads-all false (query_escape s) (map (read_back false) s) (Reads-query_escape false s h)

  pub unescape-path : unescape (b'/' ∷ query_escape s) ≡ some (b'/' ∷ map (read_back false) s)
  unescape-path = Reads-all false (b'/' ∷ query_escape s) (b'/' ∷ map (read_back false) s) (
      Reads-append false (b'/' ∷ []) (query_escape s) (b'/' ∷ []) (map (read_back false) s)
        (Reads-literal false (b'/' ∷ []) (omega arith)) (Reads-query_escape false s h))

-- An empty password is none.
abbrev pub read_password : Bytes → Option Bytes
read_password p = if is_empty p then none else some (map (read_back false) p)

pub userinfo_of-userinfo :
    (o : DsnOpts)
    → All IsByte o.user
    → All IsByte o.password
    → userinfo_of (userinfo o) ≡ some (map (read_back false) o.user, read_password o.password)
unfolding is_delimiter
userinfo_of-userinfo o h k =
    let l = safe-Lacks b':' (query_escape o.user) refl (query_escape-IsSafe o.user h) in
    elim (Bool-cases (is_empty o.password)) [
      | inl e ↦ rw e (
          userinfo_of-user (query_escape o.user) (map (read_back false) o.user) l
            (unescape-query_escape o.user h))
      | inr e ↦ rw e (
          userinfo_of-password (query_escape o.user) (query_escape o.password)
            (map (read_back false) o.user) (map (read_back false) o.password) l
            (unescape-query_escape o.user h) (unescape-query_escape o.password k))
    ]

module _ (d : ℕ) (del : is_delimiter d ≡ true) where
  pub plain-Lacks : (s : Bytes) → All IsPlain s → Lacks d s
  plain-Lacks s h = safe-Lacks d s del (All-weaken IsPlain IsSafe plain-IsSafe s h)

  escape-Lacks : (s : Bytes) → All IsByte s → Lacks d (query_escape s)
  escape-Lacks s h = safe-Lacks d (query_escape s) del (query_escape-IsSafe s h)

  module _ (not-colon : b':' ≢ d) (o : DsnOpts) where
    pub hostport-Lacks : All IsPlain o.host → Lacks d (o.host ++ b':' ∷ itoa o.port)
    hostport-Lacks h =
        All-append (λ c. c ≢ d) o.host (b':' ∷ itoa o.port) (plain-Lacks o.host h)
          (not-colon, plain-Lacks (itoa o.port) (itoa-IsPlain o.port))

    userinfo-Lacks : All IsByte o.user → All IsByte o.password → Lacks d (userinfo o)
    userinfo-Lacks h k = elim (Bool-cases (is_empty o.password)) [
      | inl e ↦ rw e (escape-Lacks o.user h)
      | inr e ↦ rw e (
          All-append (λ c. c ≢ d) (query_escape o.user) (b':' ∷ query_escape o.password)
            (escape-Lacks o.user h) (not-colon, escape-Lacks o.password k))
    ]

    pub authority-Lacks :
        b'@' ≢ d
        → All IsByte o.user
        → All IsByte o.password
        → All IsPlain o.host
        → Lacks d (authority o)
    authority-Lacks n h k l =
        All-append (λ c. c ≢ d) (userinfo o) (b'@' ∷ (o.host ++ b':' ∷ itoa o.port))
          (userinfo-Lacks h k) (n, hostport-Lacks l)

    pub hierarchy-Lacks :
        b'@' ≢ d
        → b'/' ≢ d
        → All IsByte o.user
        → All IsByte o.password
        → All IsByte o.database
        → All IsPlain o.host
        → Lacks d (hierarchy o)
    hierarchy-Lacks n m h k j l = (
      m,
      (
        m,
        All-append (λ c. c ≢ d) (authority o) (b'/' ∷ query_escape o.database)
            (authority-Lacks n h k l) (m, escape-Lacks o.database j),
      ),
    )
