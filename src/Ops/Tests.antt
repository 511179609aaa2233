-- ===== src/Ops/Tests.antt =====
-- The service unit with the default options.
use relay_x.Prelude.{◌≡◌, refl}
use relay_x.Text.{Text, str}
use relay_x.Text.Split.{starts_with}
use relay_x.Errors.{ok}
use relay_x.Ops.{validate_service_name, validate_account_name, join_lines, unit_lines, systemd_unit}
use relay_x.Samples.{unit_options}
use relay_x.Ops.Names.{IsAccountName, IsServiceName, systemd_unit-IsServiceName}

abbrev unit : Text
unit = join_lines (unit_lines unit_options (str "relayx server"))

made : systemd_unit unit_options (str "relayx server") ≡ ok unit
unfolding systemd_unit validate_service_name validate_account_name starts_with
made = refl

systemd_unit-IsServiceName_example :
    IsServiceName (str "relayx") × IsAccountName (str "relayx") × IsAccountName (str "relayx")
systemd_unit-IsServiceName_example =
    systemd_unit-IsServiceName unit_options (str "relayx server") unit made
