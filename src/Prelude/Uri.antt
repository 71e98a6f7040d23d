-- ===== src/Prelude/Uri.antt =====
-- Package net/url, on bytes: the parts of a URI, and the pairs of its query.
use mathlib.Core.Path.{◌≡◌, refl}
use mathlib.Core.Bool.{Bool, true, false, ◌&&◌}
use mathlib.Core.Option.{Option, none, some}
use mathlib.Core.List.{List, [], ◌∷◌, ◌++◌}
use pgxporter.Prelude.Tests.{◌==◌, if◌then◌else◌, ◌>>=◌}
use pgxporter.Prelude.Bytes.{
  Bytes, is_empty, Lacks, cut, cut_last, cut_lem, cut-append, cut_last-append, split,
}
use pgxporter.Prelude.Url.{unescape, query_unescape}
use pgxporter.Prelude.Scan.{is_digit}

-- What url.Parse finds in a URI with an authority and a path, and its Query.
pub record Uri : Type 0 where
  pub scheme : Bytes
  pub user : Bytes
  pub password : Option Bytes
  pub host : Bytes
  pub port : Bytes
  pub path : Bytes
  pub query : List (Bytes × Bytes)

-- Query skips a piece that is empty, that has a semicolon, or that is escaped wrongly.
unfoldable pub pair_of : Bytes → Option (Bytes × Bytes)
pair_of s = if is_empty s then none else elim (cut b';' s).1 [
  | some rest ↦ none
  | none ↦
      let (k, v) = cut b'=' s in
      (do
        key ← query_unescape k
        value ← query_unescape (elim v [ none ↦ [] | some w ↦ w ])
        some (key, value))
]

unfoldable pub pairs_of : List Bytes → List (Bytes × Bytes)
unfolding pair_of
pairs_of [] = []
pairs_of (p ∷ ps) = elim (pair_of p) [ none ↦ pairs_of ps | some kv ↦ kv ∷ pairs_of ps ]

unfoldable pub parse_query : Bytes → List (Bytes × Bytes)
unfolding pairs_of
parse_query q = pairs_of (split b'&' q)

-- The user, and the password if there is a colon.
unfoldable pub userinfo_of : Bytes → Option (Bytes × Option Bytes)
userinfo_of s =
    let (u, p) = cut b':' s in
    (do
      user ← unescape u
      elim p [ none ↦ some (user, none) | some w ↦ (do pw ← unescape w; some (user, some pw)) ])

-- validOptionalPort, behind the colon: only digits.
unfoldable pub is_port : Bytes → Bool
unfolding is_digit
is_port [] = true
is_port (c ∷ s) = is_digit c && is_port s

-- The user, the password, the host and the port, if the user's part and the host have only
-- characters that may stand there; `none` for a port that is no number.
unfoldable pub authority_of : Bytes → Option (Bytes × Option Bytes × Bytes × Bytes)
unfolding userinfo_of is_port
authority_of s = do
  (info, hostport) ← cut_last b'@' s
  (user, password) ← userinfo_of info
  (host, port) ← cut_last b':' hostport
  if is_port port then some (user, password, host, port) else none

unfoldable two_slashes : Bytes → Option Bytes
two_slashes (a ∷ b ∷ s) = if a == b'/' && b == b'/' then some s else none
two_slashes _ = none

-- The authority and the path, behind the scheme and before the query.
unfoldable pub hierarchy_of : Bytes → Option (Bytes × Bytes)
unfolding two_slashes
hierarchy_of s = do
  rest ← two_slashes s
  let (authority, path) = cut b'/' rest
  p ← unescape (elim path [ none ↦ [] | some w ↦ b'/' ∷ w ])
  some (authority, p)

-- url.Parse of a URI with an authority; `none` for any other, and for one
-- that is escaped wrongly or has a port that is no number.
unfoldable pub parse_uri : Bytes → Option Uri
unfolding authority_of hierarchy_of parse_query
parse_uri uri =
    let (scheme, behind) = cut b':' (cut b'#' uri).0 in
    (do
      rest ← behind
      let (hier, query) = cut b'?' rest
      (authority, path) ← hierarchy_of hier
      (user, password, host, port) ← authority_of authority
      some (record {
        scheme = scheme;
        user = user;
        password = password;
        host = host;
        port = port;
        path = path;
        query = elim query [ none ↦ [] | some q ↦ parse_query q ];
      }))

append-ne-nil : (k v : Bytes) → is_empty (k ++ b'=' ∷ v) ≡ false
append-ne-nil [] v = refl
append-ne-nil (c ∷ k) v = refl

pub pair_of_lem :
    (k v key value : Bytes)
    → Lacks b';' (k ++ b'=' ∷ v)
    → Lacks b'=' k
    → query_unescape k ≡ some key
    → query_unescape v ≡ some value
    → pair_of (k ++ b'=' ∷ v) ≡ some (key, value)
unfolding pair_of
pair_of_lem k v key value h l e f =
    rw (append-ne-nil k v, cut_lem b';' (k ++ b'=' ∷ v) h, cut-append b'=' k v l, e, f) refl

pub userinfo_of-user :
    (u user : Bytes) → Lacks b':' u → unescape u ≡ some user → userinfo_of u ≡ some (user, none)
unfolding userinfo_of
userinfo_of-user u user h e = rw (cut_lem b':' u h, e) refl

pub userinfo_of-password :
    (u p user password : Bytes)
    → Lacks b':' u
    → unescape u ≡ some user
    → unescape p ≡ some password
    → userinfo_of (u ++ b':' ∷ p) ≡ some (user, some password)
unfolding userinfo_of
userinfo_of-password u p user password h e f = rw (cut-append b':' u p h, e, f) refl

pub authority_of_lem :
    (info host port user : Bytes) (password : Option Bytes)
    → userinfo_of info ≡ some (user, password)
    → Lacks b'@' (host ++ b':' ∷ port)
    → Lacks b':' port
    → is_port port ≡ true
    → authority_of (info ++ b'@' ∷ (host ++ b':' ∷ port)) ≡ some (user, password, host, port)
unfolding authority_of
authority_of_lem info host port user password e h k d =
    rw (cut_last-append b'@' info (host ++ b':' ∷ port) h, e, cut_last-append b':' host port k, d)
      refl

pub hierarchy_of_lem :
    (authority p path : Bytes)
    → Lacks b'/' authority
    → unescape (b'/' ∷ p) ≡ some path
    → hierarchy_of (b'/' ∷ b'/' ∷ (authority ++ b'/' ∷ p)) ≡ some (authority, path)
unfolding hierarchy_of
hierarchy_of_lem authority p path h e = rw (cut-append b'/' authority p h, e) refl

pub parse_uri_lem :
    (scheme hier q authority path user : Bytes) (password : Option Bytes) (host port : Bytes)
    → Lacks b'#' (scheme ++ b':' ∷ (hier ++ b'?' ∷ q))
    → Lacks b':' scheme
    → Lacks b'?' hier
    → hierarchy_of hier ≡ some (authority, path)
    → authority_of authority ≡ some (user, password, host, port)
    → parse_uri (scheme ++ b':' ∷ (hier ++ b'?' ∷ q))
      ≡ some (record {
        scheme = scheme;
        user = user;
        password = password;
        host = host;
        port = port;
        path = path;
        query = parse_query q;
      })
unfolding parse_uri
parse_uri_lem scheme hier q authority path user password host port l m n e f =
    rw
      (
        cut_lem b'#' (scheme ++ b':' ∷ (hier ++ b'?' ∷ q)) l,
        cut-append b':' scheme (hier ++ b'?' ∷ q) m,
        cut-append b'?' hier q n,
        e,
        f,
      )
      refl
