-- ===== src/Cmd/Runs.antt =====
-- cmd/main.go: the runs of main, and how they end.
use pgxporter.Prelude.{
  ℕ, String, ◌≡◌, refl, inl, inr, true, false, Option, none, some, List, [], ◌∷◌, Bool-cases,
}
use pgxporter.Prelude.Bytes.{Bytes, is_empty}
use pgxporter.Collectors.{Fetched, rows, failed, Fetched-cases}
use pgxporter.Cmd.{
  Config, CmdOpts, opts_of, parse_dsn, Level, Did, logs_at, opens, registers, listens, shuts_server,
  shuts_exporter, exits, Event, signalled, listener_failed, after_event, after_register,
  after_parse, main,
}

-- How far a run is: what it holds open.
pub data Phase : Type 0 where
  started logging : Phase
  pools_open : CmdOpts → Phase
  registered serving : CmdOpts → Phase
  server_down : CmdOpts → Phase
  finished : Phase
  exited : ℕ → Phase

-- What may be done in a phase: the server is up only on an exporter that is registered, which has its
-- pools; it is shut down before the exporter is; an exit with an open pool is that with code 1.
pub data Step : Phase → Did → Phase → Type 0 where
  logs : {level : Level} → Step started (logs_at level) logging
  gives_up : Step logging (exits 2) (exited 2)
  opens_pools : {opts : CmdOpts} → Step logging (opens opts) (pools_open opts)
  opens_none : {opts : CmdOpts} → Step (pools_open opts) (exits 1) (exited 1)
  registers_exporter : {opts : CmdOpts} → Step (pools_open opts) registers (registered opts)
  is_refused : {opts : CmdOpts} → Step (registered opts) (exits 1) (exited 1)
  serves : {opts : CmdOpts} → Step (registered opts) listens (serving opts)
  breaks : {opts : CmdOpts} → Step (serving opts) (exits 1) (exited 1)
  closes_server : {opts : CmdOpts} → Step (serving opts) shuts_server (server_down opts)
  closes_exporter : {opts : CmdOpts} → Step (server_down opts) shuts_exporter finished

pub data Steps : Phase → List Did → Phase → Type 0 where
  stays : {p : Phase} → Steps p [] p
  goes : {p q r : Phase} {d : Did} {ds : List Did} → Step p d q → Steps q ds r → Steps p (d ∷ ds) r

module _ (dsn : Bytes) (parse_config : Bytes → Fetched Config) (new : CmdOpts → Option String)
    (register : Option String) (event : Event) where
  -- Why a run ends the way it does.
  pub data Ending : Phase → Type 0 where
    no_source : is_empty dsn ≡ true → Ending (exited 2)
    bad_source :
        {e : String} → is_empty dsn ≡ false → parse_config dsn ≡ failed e → Ending (exited 2)
    no_exporter :
        {cfg : Config} {e : String}
        → is_empty dsn ≡ false
        → parse_config dsn ≡ rows cfg
        → new (opts_of cfg) ≡ some e
        → Ending (exited 1)
    no_registration :
        {cfg : Config} {e : String}
        → is_empty dsn ≡ false
        → parse_config dsn ≡ rows cfg
        → new (opts_of cfg) ≡ none
        → register ≡ some e
        → Ending (exited 1)
    no_listener :
        {cfg : Config} {e : String}
        → is_empty dsn ≡ false
        → parse_config dsn ≡ rows cfg
        → new (opts_of cfg) ≡ none
        → register ≡ none
        → event ≡ listener_failed e
        → Ending (exited 1)
    was_signalled :
        {cfg : Config}
        → is_empty dsn ≡ false
        → parse_config dsn ≡ rows cfg
        → new (opts_of cfg) ≡ none
        → register ≡ none
        → event ≡ signalled
        → Ending finished

abbrev pub EndsFrom :
    Bytes
    → (Bytes → Fetched Config)
    → (CmdOpts → Option String)
    → Option String
    → Event
    → Phase
    → List Did
    → Type 0
EndsFrom dsn parse_config new register event p ds =
    (q : Phase) × Steps p ds q × Ending dsn parse_config new register event q

module _ (dsn : Bytes) (parse_config : Bytes → Fetched Config) (new : CmdOpts → Option String) where
  after_register-EndsFrom :
      (register : Option String) (event : Event) (cfg : Config)
      → is_empty dsn ≡ false
      → parse_config dsn ≡ rows cfg
      → new (opts_of cfg) ≡ none
      → EndsFrom dsn parse_config new register event
          (registered (opts_of cfg))
          (after_register register event)
  unfolding after_register after_event
  after_register-EndsFrom (some e) event cfg d p n =
      (exited 1, goes is_refused stays, no_registration d p n refl)
  after_register-EndsFrom none signalled cfg d p n = (
    finished,
    goes serves (goes closes_server (goes closes_exporter stays)),
    was_signalled d p n refl refl,
  )
  after_register-EndsFrom none (listener_failed e) cfg d p n =
      (exited 1, goes serves (goes breaks stays), no_listener d p n refl refl)

  after_parse-EndsFrom :
      (answer register : Option String) (event : Event) (cfg : Config)
      → is_empty dsn ≡ false
      → parse_config dsn ≡ rows cfg
      → new (opts_of cfg) ≡ answer
      → EndsFrom dsn parse_config new register event
          (pools_open (opts_of cfg))
          (after_parse answer register event)
  unfolding after_parse
  after_parse-EndsFrom (some e) register event cfg d p n =
      (exited 1, goes opens_none stays, no_exporter d p n)
  after_parse-EndsFrom none register event cfg d p n =
      let (q, s, e) = after_register-EndsFrom register event cfg d p n in
      (q, goes registers_exporter s, e)

  -- What main does is a run of steps in which pools are opened before the exporter is registered,
  -- it listens after that, and shuts the server down before the exporter; it finishes without an
  -- exit if a signal ended it, exits with 2 if the source is empty or is not parsed, and with 1 if
  -- New, Register or the listener fails.
  pub main-EndsFrom :
      (log_level : String) (register : Option String) (event : Event)
      → EndsFrom dsn parse_config new register event started
          (main log_level dsn parse_config new register event)
  unfolding main parse_dsn
  main-EndsFrom log_level register event = elim (Bool-cases (is_empty dsn)) [
    | inl d ↦ rw (d, main) (exited 2, goes logs (goes gives_up stays), no_source d)
    | inr d ↦ elim (Fetched-cases (parse_config dsn)) [
      | inl (cfg, p) ↦
          let (q, s, e) = after_parse-EndsFrom (new (opts_of cfg)) register event cfg d p refl in
          rw (d, p, main) (q, goes logs (goes opens_pools s), e)
      | inr (e, p) ↦ rw (d, p, main) (exited 2, goes logs (goes gives_up stays), bad_source d p)
    ]
  ]
