-- ===== src/Diff/Fidelity.antt =====
-- internal/diff/fidelity.go: comparing a value with rich data against PuppetDB's string for it.
use Prim.Native.String.{◌++◌ as ◌<>◌}
use piace.Base.{String, Bool, false, not, if◌then◌else◌}
use piace.Model.Value.{Value}
use piace.Model.Value.Equal.{deep_equal, bool_eq}
use piace.Model.Pcore.{Projection, projected, unmeasured, contains_rich, project}
use piace.Model.Catalog.{ResourceIdentity, to_string}
use piace.Model.Diagnostic.{Severity, Operation, Diagnostic}

pub record Fidelity : Type 0 where
  pub before : Bool
  pub after : Bool

against : Value → Projection Value → Bool × String
against stringified (projected v) = (deep_equal v stringified, "")
against stringified (unmeasured name) = (false, name)

abbrev projected_equal : Value → Value → Bool × String
projected_equal rich stringified =
    if not (contains_rich rich) then (false, "") else against stringified (project rich)

-- `fidelity.equal`: the second result names an unmeasured type, or is empty.
unfoldable pub equal_at : Fidelity → Value → Value → Bool × String
unfolding bool_eq contains_rich project against deep_equal
equal_at f before after =
    if bool_eq f.before f.after
    then (false, "")
    else if f.after
    then projected_equal before after
    else projected_equal after before

unfoldable pub fidelity_diagnostic : String → ResourceIdentity → String → String → Diagnostic
unfolding to_string
fidelity_diagnostic certname identity parameter type_name = record {
  severity = Severity.warning;
  operation = Operation.normalize;
  certname = certname;
  source = "";
  message =
      (to_string identity <> (" " <> parameter))
      <> (": the two catalogs hold this value at different fidelities, and the stringified form of Pcore "
          <> (type_name
              <> " has not been measured, so a difference here may be representation rather than change"));
}
