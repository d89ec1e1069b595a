-- ===== src/Versioning.antt =====
-- event_sourcery/_event_store/versioning.py
use python_event_sourcery.Prelude.{ℕ, Option, none, some}
use python_event_sourcery.Errors.{
  Result, ok, err, expected_version_used_on_versionless_stream,
  no_expected_version_given_on_versioned_stream,
}

-- The two strategies. An `ExplicitVersioning` may be made with an initial version of `None`: the
-- event store passes on the version of the last event with a `cast`.
pub data Versioning : Type 0 where
  no_versioning : Versioning
  explicit_versioning : ℕ → Option ℕ → Versioning

unfoldable pub validate_if_compatible : Versioning → Option ℕ → Result (Unit {0})
validate_if_compatible no_versioning none = ok tt
validate_if_compatible no_versioning (some v) = err no_expected_version_given_on_versioned_stream
validate_if_compatible (explicit_versioning e i) none =
    err expected_version_used_on_versionless_stream
validate_if_compatible (explicit_versioning e i) (some v) = ok tt

unfoldable pub initial_version : Versioning → Option ℕ
initial_version no_versioning = none
initial_version (explicit_versioning e i) = i

unfoldable pub expected_version : Versioning → Option ℕ
expected_version no_versioning = none
expected_version (explicit_versioning e i) = some e
