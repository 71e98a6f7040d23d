-- ===== src/Exporter/Naming.antt =====
-- exporter/exporter.go: the names that WithCustomCollectors gives.
use pgxporter.Prelude.{
  ℕ, zero, suc, ◌+◌, ◌*◌, ◌<◌, String, ◌≡◌, refl, sym, ap, ◌∙◌, true, ◌||◌, List, [], ◌∷◌, ◌++◌,
  map, arith, length, length-append, append_assoc, append-nil, eq_iff,
}
use pgxporter.Registry.{NamedCollector, contains}
use pgxporter.Exporter.{custom_name, append_custom, with_custom_collectors}

-- custom_n, custom_n+2, custom_n+4 and so on, as many as `k`.
unfoldable pub every_other : ℕ → ℕ → List String
every_other n zero = []
every_other n (suc k) = custom_name n ∷ every_other (n + 2) k

contains-append :
    (xs ys : List String) (s : String) → contains (xs ++ ys) s ≡ contains xs s || contains ys s
unfolding contains
contains-append [] ys s = refl
contains-append (x ∷ xs) ys s = ground (arith, contains-append xs ys s)

every_other-contains :
    (n k h m : ℕ) → h < k → m ≡ n + 2 * h → contains (every_other n k) (custom_name m) ≡ true
unfolding every_other contains
every_other-contains n zero h m l e = ground arith
every_other-contains n (suc k) zero m l e =
    let m_is : m ≡ n = ground arith in
    rw m_is (ground (arith, eq_iff (custom_name n) (custom_name n)))
every_other-contains n (suc k) (suc h) m l e =
    ground (arith, every_other-contains (n + 2) k h m (ground arith) (ground arith))

module _ {ℓ} {C : Type ℓ} where
  abbrev pub names_of : List (NamedCollector C) → List String
  names_of e = map (λ n. n.name) e

  names_of-append :
      (xs ys : List (NamedCollector C)) → names_of (xs ++ ys) ≡ names_of xs ++ names_of ys
  names_of-append [] ys = refl
  names_of-append (x ∷ xs) ys = ap (λ r. x.name ∷ r) (names_of-append xs ys)

  append_custom-names :
      (i n : ℕ) (cs : List C) (e : List (NamedCollector C))
      → n ≡ length e + i
      → names_of (append_custom i cs e) ≡ names_of e ++ every_other n (length cs)
  unfolding append_custom every_other
  append_custom-names i n [] e h = sym (append-nil (names_of e))
  append_custom-names i n (c ∷ cs) e h =
      let x : NamedCollector C = record { name = custom_name (length e + i); collector = c } in
      append_custom-names (suc i) (n + 2) cs (e ++ x ∷ [])
        (ground (arith, h, length-append e (x ∷ [])))
      ∙ ap (λ l. l ++ every_other (n + 2) (length cs)) (names_of-append e (x ∷ []))
      ∙ append_assoc (names_of e) (x.name ∷ []) (every_other (n + 2) (length cs))
      ∙ ap (λ m. names_of e ++ custom_name m ∷ every_other (n + 2) (length cs)) (sym h)

  append_custom-length :
      (i : ℕ) (cs : List C) (e : List (NamedCollector C))
      → length (append_custom i cs e) ≡ length e + length cs
  unfolding append_custom
  append_custom-length i [] e = ground arith
  append_custom-length i (c ∷ cs) e =
      let x : NamedCollector C = record { name = custom_name (length e + i); collector = c } in
      append_custom-length (suc i) cs (e ++ x ∷ []) ∙ ground (arith, length-append e (x ∷ []))

  -- WithCustomCollectors leaves the names that are there and gives the new collectors, n being the
  -- number of collectors before the call, the names custom_n, custom_n+2, custom_n+4 and so on.
  pub with_custom_collectors-names :
      (cs : List C) (e : List (NamedCollector C))
      → names_of (with_custom_collectors cs e) ≡ names_of e ++ every_other (length e) (length cs)
  unfolding with_custom_collectors
  with_custom_collectors-names cs e = append_custom-names 0 (length e) cs e (ground arith)

  -- After a call of WithCustomCollectors with an even number of collectors, at least two, the first
  -- name that the next call gives is one that is there.
  pub with_custom_collectors-reuse :
      (cs : List C) (e : List (NamedCollector C)) (h : ℕ)
      → length cs ≡ 2 * suc h
      → contains
          (names_of (with_custom_collectors cs e))
          (custom_name (length (with_custom_collectors cs e)))
        ≡ true
  unfolding with_custom_collectors
  with_custom_collectors-reuse cs e h k =
      let n : length (append_custom 0 cs e) ≡ length e + 2 * suc h =
        ground (arith, append_custom-length 0 cs e, k) in
      let there =
        every_other-contains (length e) (length cs) (suc h) (length (append_custom 0 cs e))
          (ground (arith, k)) n in
      rw (append_custom-names 0 (length e) cs e (ground arith)) (
        ground (
          arith,
          there,
          contains-append (names_of e) (every_other (length e) (length cs))
              (custom_name (length (append_custom 0 cs e))),
        ))
