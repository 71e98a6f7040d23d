-- ===== src/Db/Dsn/Arguments.antt =====
-- exporter/db/dsn.go: the arguments that PostgreSQL finds in the parameter `options`.
use pgxporter.Prelude.{
  ℕ, ◌≡◌, ◌≢◌, refl, ap, sym, ◌∙◌, false, List, [], ◌∷◌, ◌++◌, map, append-nil, append_assoc, All,
  arith, ◌==◌, if◌then◌else◌,
}
use pgxporter.Prelude.Bytes.{Bytes, codes, join, push}
use pgxporter.Db.Dsn.{is_space, fields}
use pgxporter.Db.Dsn.Words.{IsWordByte, fields-All, fields-IsWord}
use pgxporter.Db.Dsn.Options.{setting_text, options_text, words}

-- Between arguments, in one, or behind a backslash in one.
pub data Place : Type 0 where
  between inside escaped : Place

-- As PostgreSQL documents it: spaces separate the arguments, and a backslash takes the byte behind it
-- into the argument.
unfoldable pub arguments_from : Place → Bytes → List Bytes
unfolding is_space push
arguments_from between [] = []
arguments_from inside [] = [] ∷ []
arguments_from escaped [] = [] ∷ []
arguments_from escaped (c ∷ s) = push c (arguments_from inside s)
arguments_from inside (c ∷ s) =
    let next = [] ∷ arguments_from between s in
    let behind = arguments_from escaped s in
    let on = push c (arguments_from inside s) in
    if is_space c then next else if c == b'\\' then behind else on
arguments_from between (c ∷ s) =
    let next = arguments_from between s in
    let behind = arguments_from escaped s in
    let on = push c (arguments_from inside s) in
    if is_space c then next else if c == b'\\' then behind else on

abbrev pub arguments : Bytes → List Bytes
arguments = arguments_from between

-- The bytes before the first part.
push_all : Bytes → List Bytes → List Bytes
push_all [] ps = ps
push_all (c ∷ s) ps = push c (push_all s ps)

push_all-append :
    (a b : Bytes) (ps : List Bytes) → push_all (a ++ b) ps ≡ push_all a (push_all b ps)
unfolding push_all
push_all-append [] b ps = refl
push_all-append (c ∷ a) b ps = ap (push c) (push_all-append a b ps)

push_all_cons : (a p : Bytes) (ps : List Bytes) → push_all a (p ∷ ps) ≡ (a ++ p) ∷ ps
unfolding push_all push
push_all_cons [] p ps = refl
push_all_cons (c ∷ a) p ps = rw (push_all_cons a p ps) refl

-- Within an argument, `a` is taken as `x`.
abbrev Takes : Bytes → Bytes → Type 0
Takes a x =
    (rest : Bytes) → arguments_from inside (a ++ rest) ≡ push_all x (arguments_from inside rest)

Takes-append : (a b x y : Bytes) → Takes a x → Takes b y → Takes (a ++ b) (x ++ y)
Takes-append a b x y h k rest =
    ap (arguments_from inside) (append_assoc a b rest)
    ∙ h (b ++ rest)
    ∙ ap (push_all x) (k rest)
    ∙ sym (push_all-append x y (arguments_from inside rest))

-- Neither a space nor a backslash.
abbrev IsBare : ℕ → Type 0
IsBare c = (is_space c ≡ false) × (c ≢ b'\\')

bare_test : (c : ℕ) → c ≢ b'\\' → c == b'\\' ≡ false
bare_test c h = ground arith

inside-bare :
    (c : ℕ) (s : Bytes)
    → IsBare c
    → arguments_from inside (c ∷ s) ≡ push c (arguments_from inside s)
unfolding arguments_from
inside-bare c s h = rw (h.0, bare_test c h.1) refl

between-bare :
    (c : ℕ) (s : Bytes)
    → IsBare c
    → arguments_from between (c ∷ s) ≡ push c (arguments_from inside s)
unfolding arguments_from
between-bare c s h = rw (h.0, bare_test c h.1) refl

Takes-nil : Takes [] []
unfolding push_all
Takes-nil rest = refl

Takes-bare : (s : Bytes) → All IsBare s → Takes s s
unfolding push_all
Takes-bare [] h = Takes-nil
Takes-bare (c ∷ s) h = λ rest. inside-bare c (s ++ rest) h.0 ∙ ap (push c) (Takes-bare s h.1 rest)

escaped_space-Takes : Takes (codes "\\ ") (codes " ")
unfolding codes arguments_from push_all
escaped_space-Takes rest = refl

Takes-join :
    (sep t : Bytes) (ws : List Bytes)
    → Takes sep t
    → All (All IsBare) ws
    → Takes (join sep ws) (join t ws)
unfolding join
Takes-join sep t [] h k = Takes-nil
Takes-join sep t (w ∷ []) h k = Takes-bare w k.0
Takes-join sep t (w ∷ v ∷ ws) h k =
    Takes-append w (sep ++ join sep (v ∷ ws)) w (t ++ join t (v ∷ ws)) (Takes-bare w k.0)
      (Takes-append sep (join sep (v ∷ ws)) t (join t (v ∷ ws)) h (Takes-join sep t (v ∷ ws) h k.1))

abbrev pub IsUnslashed : ℕ → Type 0
IsUnslashed c = c ≢ b'\\'

All-IsBare : (w : Bytes) → All IsWordByte w → All IsUnslashed w → All IsBare w
All-IsBare [] h k = tt
All-IsBare (c ∷ w) h k = ((h.0, k.0), All-IsBare w h.1 k.1)

All-All-IsBare :
    (ws : List Bytes) → All (All IsWordByte) ws → All (All IsUnslashed) ws → All (All IsBare) ws
All-All-IsBare [] h k = tt
All-All-IsBare (w ∷ ws) h k = (All-IsBare w h.0 k.0, All-All-IsBare ws h.1 k.1)

-- The words with single spaces between them.
abbrev pub spaced : Bytes → Bytes
spaced s = join (codes " ") (fields s)

words-Takes : (s : Bytes) → All IsUnslashed s → Takes (words s) (spaced s)
words-Takes s h =
    Takes-join (codes "\\ ") (codes " ") (fields s) escaped_space-Takes
      (All-All-IsBare (fields s) (fields-IsWord s) (fields-All IsUnslashed s h))

-- The argument of a setting.
abbrev pub argument : Bytes × Bytes → Bytes
argument (k, v) = codes "-c" ++ (spaced k ++ (codes "=" ++ spaced v))

abbrev pub AreUnslashed : Bytes × Bytes → Type 0
AreUnslashed (k, v) = All IsUnslashed k × All IsUnslashed v

setting_text-Takes : (kv : Bytes × Bytes) → AreUnslashed kv → Takes (setting_text kv) (argument kv)
unfolding codes is_space
setting_text-Takes (k, v) h =
    Takes-append (codes "-c") _ (codes "-c") _
      (Takes-bare (codes "-c") ((refl, λ e. omega arith), ((refl, λ e. omega arith), tt)))
      (Takes-append (words k) _ (spaced k) _ (words-Takes k h.0) (
        Takes-append (codes "=") (words v) (codes "=") (spaced v)
          (Takes-bare (codes "=") ((refl, λ e. omega arith), tt)) (words-Takes v h.1)))

minus-IsBare : IsBare b'-'
unfolding is_space
minus-IsBare = (refl, λ e. omega arith)

minus-between : (rest : Bytes) → arguments (b'-' ∷ rest) ≡ arguments_from inside (b'-' ∷ rest)
minus-between rest = between-bare b'-' rest minus-IsBare ∙ sym (inside-bare b'-' rest minus-IsBare)

setting_text_lem : (kv : Bytes × Bytes) → (rest : Bytes) × (setting_text kv ≡ b'-' ∷ rest)
unfolding codes
setting_text_lem (k, v) = (codes "c" ++ (words k ++ (codes "=" ++ words v)), refl)

setting_text-between :
    (kv : Bytes × Bytes) (rest : Bytes)
    → AreUnslashed kv
    → arguments (setting_text kv ++ rest) ≡ push_all (argument kv) (arguments_from inside rest)
setting_text-between kv rest h =
    let (tail, e) = setting_text_lem kv in
    ap (λ s. arguments (s ++ rest)) e
    ∙ minus-between (tail ++ rest)
    ∙ ap (λ s. arguments_from inside (s ++ rest)) (sym e)
    ∙ setting_text-Takes kv h rest

first_argument :
    (kv : Bytes × Bytes) (rest : Bytes) (more : List Bytes)
    → AreUnslashed kv
    → arguments_from inside rest ≡ [] ∷ more
    → arguments (setting_text kv ++ rest) ≡ argument kv ∷ more
first_argument kv rest more h e =
    setting_text-between kv rest h
    ∙ ap (push_all (argument kv)) e
    ∙ push_all_cons (argument kv) [] more
    ∙ ap (λ a. a ∷ more) (append-nil (argument kv))

inside-space : (rest : Bytes) → arguments_from inside (codes " " ++ rest) ≡ [] ∷ arguments rest
unfolding arguments_from codes
inside-space rest = refl

-- Each setting is one argument, with its key and its value as they are but for the spaces.
pub arguments-options :
    (kvs : List (Bytes × Bytes))
    → All AreUnslashed kvs
    → arguments (options_text kvs) ≡ map argument kvs
unfolding join
arguments-options [] h = unfold arguments_from in refl
arguments-options (kv ∷ []) h =
    ap arguments (sym (append-nil (setting_text kv)))
    ∙ first_argument kv [] [] h.0 (unfold arguments_from in refl)
arguments-options (kv ∷ lv ∷ kvs) h =
    first_argument kv (codes " " ++ options_text (lv ∷ kvs)) (arguments (options_text (lv ∷ kvs)))
      h.0 (inside-space (options_text (lv ∷ kvs)))
    ∙ ap (λ more. argument kv ∷ more) (arguments-options (lv ∷ kvs) h.1)
