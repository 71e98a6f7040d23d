-- ===== src/Db/Dsn/Settings.antt =====
-- exporter/db/dsn.go: the parameter `options` of the URI.
use pgxporter.Prelude.{
  ℕ, ◌≡◌, refl, ap, ◌∙◌, false, List, [], ◌∷◌, ◌++◌, map, All, All-weaken, arith,
}
use pgxporter.Prelude.Int.{ℤ}
use pgxporter.Prelude.Bytes.{Bytes, is_empty, codes, join}
use pgxporter.Prelude.Url.{is_unreserved, IsByte}
use pgxporter.Db.{
  TxIsoLevel, read_committed, serializable, repeatable_read, default_isolation_level,
}
use pgxporter.Db.Dsn.{
  DsnOpts, itoa, milliseconds, iso_text, is_space, fields, append_options_param, option_params,
}
use pgxporter.Db.Dsn.Words.{IsWordByte, IsPlain, itoa-IsPlain, itoa-ne-nil, fields_word}
use pgxporter.Db.Dsn.Options.{piece, options_text}
use pgxporter.Db.Dsn.Arguments.{
  IsUnslashed, AreUnslashed, arguments, argument, spaced, arguments-options,
}
use pgxporter.Db.Dsn.Params.{AreBytes}

-- The settings that addParametersToDSN gives, in its order.
abbrev pub settings : DsnOpts → List (Bytes × Bytes)
settings o =
    (
      codes "default_transaction_isolation",
      iso_text (default_isolation_level o.default_isolation_level),
    )
    ∷ (codes "timezone", codes "UTC")
    ∷ (codes "statement_timeout", itoa (milliseconds o.statement_timeout))
    ∷ (codes "lock_timeout", itoa (milliseconds o.lock_timeout))
    ∷ (
      codes "idle_in_transaction_session_timeout",
      itoa (milliseconds o.idle_in_transaction_session_timeout),
    )
    ∷ []

append_options_param_lem :
    (op : List Bytes) (k v : Bytes)
    → is_empty k ≡ false
    → is_empty v ≡ false
    → append_options_param op k v ≡ op ++ piece (k, v) ∷ []
unfolding append_options_param
append_options_param_lem op k v h l = rw (h, l) refl

iso_text-ne-nil : (iso : TxIsoLevel) → is_empty (iso_text iso) ≡ false
unfolding iso_text codes
iso_text-ne-nil read_committed = refl
iso_text-ne-nil serializable = refl
iso_text-ne-nil repeatable_read = refl

pub option_params-pieces : (o : DsnOpts) → option_params o ≡ map piece (settings o)
unfolding option_params append_options_param codes
option_params-pieces o =
    rw
      (
        iso_text-ne-nil (default_isolation_level o.default_isolation_level),
        itoa-ne-nil (milliseconds o.statement_timeout),
        itoa-ne-nil (milliseconds o.lock_timeout),
        itoa-ne-nil (milliseconds o.idle_in_transaction_session_timeout),
      )
      refl

plain-IsByte : (c : ℕ) → IsPlain c → IsByte c
unfolding is_unreserved
plain-IsByte c h = ground arith

plain-IsWordByte : (c : ℕ) → IsPlain c → IsWordByte c
unfolding is_unreserved is_space
plain-IsWordByte c h = ground arith

plain-IsUnslashed : (c : ℕ) → IsPlain c → IsUnslashed c
unfolding is_unreserved
plain-IsUnslashed c h = ground arith

pub itoa-IsByte : (n : ℤ) → All IsByte (itoa n)
itoa-IsByte n = All-weaken IsPlain IsByte plain-IsByte (itoa n) (itoa-IsPlain n)

itoa-IsUnslashed : (n : ℤ) → All IsUnslashed (itoa n)
itoa-IsUnslashed n = All-weaken IsPlain IsUnslashed plain-IsUnslashed (itoa n) (itoa-IsPlain n)

spaced_word : (s : Bytes) → is_empty s ≡ false → All IsWordByte s → spaced s ≡ s
unfolding join
spaced_word [] e h = cc e
spaced_word (c ∷ s) e h = ap (join (codes " ")) (fields_word c s h)

spaced-itoa : (n : ℤ) → spaced (itoa n) ≡ itoa n
spaced-itoa n =
    spaced_word (itoa n) (itoa-ne-nil n)
      (All-weaken IsPlain IsWordByte plain-IsWordByte (itoa n) (itoa-IsPlain n))

iso_text-IsByte : (iso : TxIsoLevel) → All IsByte (iso_text iso)
unfolding iso_text codes
iso_text-IsByte read_committed = omega arith
iso_text-IsByte serializable = omega arith
iso_text-IsByte repeatable_read = omega arith

iso_text-IsUnslashed : (iso : TxIsoLevel) → All IsUnslashed (iso_text iso)
unfolding iso_text codes
iso_text-IsUnslashed read_committed = omega arith
iso_text-IsUnslashed serializable = omega arith
iso_text-IsUnslashed repeatable_read = omega arith

spaced-iso_text : (iso : TxIsoLevel) → spaced (iso_text iso) ≡ iso_text iso
unfolding iso_text codes fields join
spaced-iso_text read_committed = refl
spaced-iso_text serializable = refl
spaced-iso_text repeatable_read = refl

pub settings-AreBytes : (o : DsnOpts) → All AreBytes (settings o)
unfolding codes
settings-AreBytes o = (
  (omega arith, iso_text-IsByte (default_isolation_level o.default_isolation_level)),
  (
    (omega arith, omega arith),
    (
      (omega arith, itoa-IsByte (milliseconds o.statement_timeout)),
      (
        (omega arith, itoa-IsByte (milliseconds o.lock_timeout)),
        ((omega arith, itoa-IsByte (milliseconds o.idle_in_transaction_session_timeout)), tt),
      ),
    ),
  ),
)

settings-AreUnslashed : (o : DsnOpts) → All AreUnslashed (settings o)
unfolding codes
settings-AreUnslashed o = (
  (omega arith, iso_text-IsUnslashed (default_isolation_level o.default_isolation_level)),
  (
    (omega arith, omega arith),
    (
      (omega arith, itoa-IsUnslashed (milliseconds o.statement_timeout)),
      (
        (omega arith, itoa-IsUnslashed (milliseconds o.lock_timeout)),
        ((omega arith, itoa-IsUnslashed (milliseconds o.idle_in_transaction_session_timeout)), tt),
      ),
    ),
  ),
)

-- The command-line arguments that the server is to get.
abbrev pub server_arguments : DsnOpts → List Bytes
server_arguments o =
    (codes "-cdefault_transaction_isolation="
      ++ iso_text (default_isolation_level o.default_isolation_level))
    ∷ codes "-ctimezone=UTC"
    ∷ (codes "-cstatement_timeout=" ++ itoa (milliseconds o.statement_timeout))
    ∷ (codes "-clock_timeout=" ++ itoa (milliseconds o.lock_timeout))
    ∷ (codes "-cidle_in_transaction_session_timeout="
        ++ itoa (milliseconds o.idle_in_transaction_session_timeout))
    ∷ []

settings-arguments : (o : DsnOpts) → map argument (settings o) ≡ server_arguments o
unfolding codes fields join
settings-arguments o =
    rw
      (
        spaced-iso_text (default_isolation_level o.default_isolation_level),
        spaced-itoa (milliseconds o.statement_timeout),
        spaced-itoa (milliseconds o.lock_timeout),
        spaced-itoa (milliseconds o.idle_in_transaction_session_timeout),
      )
      refl

-- PostgreSQL takes the value of `options` apart into these arguments.
pub arguments-settings : (o : DsnOpts) → arguments (options_text (settings o)) ≡ server_arguments o
arguments-settings o =
    arguments-options (settings o) (settings-AreUnslashed o) ∙ settings-arguments o
